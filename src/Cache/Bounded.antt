-- ===== src/Cache/Bounded.antt =====
-- The cache of internal/cache/cache.go stays within its bound, and its books are right.
use mathlib.Core.List.{append_assoc}
use llama_skein.Base.{
  ℕ, ◌+◌, ◌-◌, ◌≤◌, ◌≡◌, ◌⊎◌, inl, inr, refl, sym, ap, subst, ◌∙◌, none, some, List, [], ◌∷◌, ◌++◌,
  ltb, length, In, In-append_left, In-append_right, In-append_cases, In-tail, arith, Bool-cases,
  Option-cases, ltb-false,
}
use llama_skein.Base.Maps.{
  lookup, insert, delete, nat_eq, eq_cases, lookup-insert, lookup-delete, =?_self,
}
use llama_skein.Base.Pigeonhole.{Nodup}
use llama_skein.Cache.{Cache, length_or_zero, forget, evict_from, store, add, get}
use llama_skein.Cache.Sizes.{
  held, IsValid, Pending, held-delete, held-insert, held-append, remove_order-held, remove_order-In,
  In-remove_order, remove_order-Nodup,
}

forget-Pending : (id : ℕ) (c : Cache) → IsValid c → Pending id (forget id c)
unfolding forget
forget-Pending id c (d, books, size, bound) = elim (Option-cases (lookup id c.items)) [
  | inl p ↦ rw (forget, p) (d, (λ i. (books id).0 i p), (λ k n. books k), size)
  | inr (old, p) ↦
      let i : In id c.order = (books id).1 (λ e. cc) in
      let (n, a) = remove_order-Nodup id c.order d in
      let h = remove_order-held id c.order c.items i in
      let l : length_or_zero (lookup id c.items) ≡ length old = ap length_or_zero p in
      rw (forget, p)
        (
          n,
          a,
          (λ k m. (
            (λ j. (books k).0 (remove_order-In k id c.order j)),
            λ j. In-remove_order k id c.order ((books k).1 j) m,
          )),
          omega (arith, h, size, l),
        )
]

-- The oldest entry is dropped.
evict_one-Pending :
    (id oldest : ℕ) (order old : List ℕ) (c : Cache)
    → lookup oldest c.items ≡ some old
    → Pending id (record c { order = oldest ∷ order })
    → Pending id
        (record c { order = order; size = c.size - length old; items = delete oldest c.items })
unfolding held
evict_one-Pending id oldest order old c p (d, a, books, size) = (
  d.1,
  (λ i. a (inr i)),
  (λ k n. elim (eq_cases oldest k) [
    | inl q ↦
        rw (lookup-delete oldest k c.items, q.1)
          ((λ i. absurd (d.0 (subst (λ z. In z order) (sym q.0) i))), λ h. absurd (h refl))
    | inr q ↦
        rw (lookup-delete oldest k c.items, q.1)
          (
            (λ i. (books k n).0 (inr i)),
            λ h. In-tail k oldest order (λ e. q.0 (sym e)) ((books k n).1 h),
          )
  ]),
  omega (arith, size, held-delete oldest order c.items d.0, ap length_or_zero p),
)

-- The loop ends with room for the data, or with an empty order.
abbrev pub Roomy : ℕ → ℕ → Cache → Cache → Type 0
Roomy id n c r =
    Pending id r × ((r.size + n ≤ r.max_size) ⊎ (r.order ≡ [])) × (r.max_size ≡ c.max_size)

evict_from-Roomy :
    (id n : ℕ) (order : List ℕ) (c : Cache)
    → Pending id (record c { order = order })
    → Roomy id n c (evict_from n order c)
unfolding evict_from
evict_from-Roomy id n [] c h = (h, inr refl, refl)
evict_from-Roomy id n (oldest ∷ order) c h = elim (Bool-cases (ltb c.max_size (c.size + n))) [
  | inr p ↦ rw (evict_from, p) (h, inl (ltb-false _ _ p), refl)
  | inl p ↦ elim (Option-cases (lookup oldest c.items)) [
    | inl q ↦ absurd ((h.2 oldest (λ e. h.1 (inl (sym e)))).0 (inl refl) q)
    | inr (old, q) ↦
        let c' = record c { size = c.size - length old; items = delete oldest c.items } in
        let (a, b, e) =
          evict_from-Roomy id n order c' (evict_one-Pending id oldest order old c q h) in
        rw (evict_from, p, q) (a, b, e)
  ]
]

Nodup-append : (id : ℕ) (order : List ℕ) → Nodup order → ¬ In id order → Nodup (order ++ id ∷ [])
Nodup-append id [] d a = ((λ i. elim i [ ]), tt)
Nodup-append id (k ∷ order) d a = (
  (λ i. elim (In-append_cases k order (id ∷ []) i) [
    | inl j ↦ d.0 j
    | inr (inl e) ↦ a (inl (sym e))
    | inr (inr z) ↦ elim z [ ]
  ]),
  Nodup-append id order d.1 (λ i. a (inr i)),
)

store-IsValid :
    (id : ℕ) (bytes : List ℕ) (c : Cache)
    → Pending id c
    → c.size + length bytes ≤ c.max_size
    → IsValid (store id bytes c)
unfolding store
store-IsValid id bytes c (d, a, books, size) room = (
  Nodup-append id c.order d a,
  (λ k. elim (eq_cases id k) [
    | inl q ↦
        rw (lookup-insert id k bytes c.items, q.1)
          ((λ i e. cc), λ h. In-append_right k c.order _ (inl (sym q.0)))
    | inr q ↦
        rw (lookup-insert id k bytes c.items, q.1)
          (
            (λ i. elim (In-append_cases k c.order (id ∷ []) i) [
              | inl j ↦ (books k (λ e. q.0 (sym e))).0 j
              | inr (inl e) ↦ absurd (q.0 (sym e))
              | inr (inr z) ↦ elim z [ ]
            ]),
            λ h. In-append_left k c.order _ ((books k (λ e. q.0 (sym e))).1 h),
          )
  ]),
  omega (
    arith,
    size,
    held-append c.order id (insert id bytes c.items),
    held-insert id bytes c.order c.items a,
    ap length_or_zero stored,
  ),
  room,
)
  where
    stored : lookup id (insert id bytes c.items) ≡ some bytes
    stored = rw (lookup-insert id id bytes c.items, =?_self id) refl

max_size-forget : (id : ℕ) (c : Cache) → (forget id c).max_size ≡ c.max_size
unfolding forget
max_size-forget id c = elim (Option-cases (lookup id c.items)) [
  | inl p ↦ rw (forget, p) refl
  | inr (old, p) ↦ rw (forget, p) refl
]

-- `Add` keeps the cache valid: on a valid cache, whatever the identifier, whether or not it is in the
-- cache, and whatever the data, the identifiers of the order stay those of the items and without
-- repetition, the size stays the bytes held, and it stays within the bound.
pub add-IsValid : (id : ℕ) (bytes : List ℕ) (c : Cache) → IsValid c → IsValid (add id bytes c).0
unfolding add held
add-IsValid id bytes c valid = elim (Bool-cases (ltb c.max_size (length bytes))) [
  | inl p ↦ rw p valid
  | inr p ↦
      let c' = forget id c in
      let n = length bytes in
      let (pending, room, same) = evict_from-Roomy id n c'.order c' (forget-Pending id c valid) in
      let r = evict_from n c'.order c' in
      rw p (
        store-IsValid id bytes r pending (elim room [
          | inl l ↦ l
          | inr e ↦
              let z : held r.order r.items ≡ 0 = subst (λ o. held o r.items ≡ 0) (sym e) refl in
              omega (arith, ltb-false _ _ p, same, max_size-forget id c, pending.3, z)
        ]))
]

-- What was added can be read again, byte for byte, when it is no larger than the bound; and then
-- `Add` reports no error.
pub get-add :
    (id : ℕ) (bytes : List ℕ) (c : Cache)
    → length bytes ≤ c.max_size
    → (get id (add id bytes c).0 ≡ some bytes) × ((add id bytes c).1 ≡ none)
unfolding add get store
get-add id bytes c h = elim (Bool-cases (ltb c.max_size (length bytes))) [
  | inl p ↦ absurd (ground (arith, p))
  | inr p ↦ rw p (
    rw
        (
          lookup-insert id id bytes
              (evict_from (length bytes) (forget id c).order (forget id c)).items,
          =?_self id,
        )
        refl,
    refl,
  )
]

evict_from-order :
    (n : ℕ) (order : List ℕ) (c : Cache)
    → (dropped : List ℕ) × (dropped ++ (evict_from n order c).order ≡ order)
unfolding evict_from
evict_from-order n [] c = ([], refl)
evict_from-order n (k ∷ order) c = elim (Bool-cases (ltb c.max_size (c.size + n))) [
  | inr p ↦ rw (evict_from, p) ([], refl)
  | inl p ↦
      let c' : Cache = elim (lookup k c.items) [
        | none ↦ c
        | some evicted ↦ record c { size = c.size - length evicted; items = delete k c.items }
      ] in
      let (d, e) = evict_from-order n order c' in rw (evict_from, p) (k ∷ d, ap (λ z. k ∷ z) e)
]

-- What fits is added at the end of the order, behind what is left of it, the identifier's old place
-- taken out; only a beginning of the order, the oldest entries, is dropped.
pub add-order :
    (id : ℕ) (bytes : List ℕ) (c : Cache)
    → length bytes ≤ c.max_size
    → (dropped : List ℕ) × (dropped ++ (add id bytes c).0.order ≡ (forget id c).order ++ id ∷ [])
unfolding add store
add-order id bytes c h = elim (Bool-cases (ltb c.max_size (length bytes))) [
  | inl p ↦ absurd (ground (arith, p))
  | inr p ↦
      let (d, e) = evict_from-order (length bytes) (forget id c).order (forget id c) in
      rw p (d, sym (append_assoc d _ (id ∷ [])) ∙ ap (λ z. z ++ id ∷ []) e)
]
