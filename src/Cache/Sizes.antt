-- ===== src/Cache/Sizes.antt =====
-- The sizes and the order of internal/cache/cache.go under removals and insertions.
use llama_skein.Base.{
  ℕ, ◌+◌, ◌≤◌, ◌≡◌, ◌≢◌, ◌↔◌, inl, inr, refl, sym, ap, subst, ◌∙◌, none, List, [], ◌∷◌, ◌++◌, In,
  In-tail, arith,
}
use llama_skein.Base.Maps.{
  lookup, insert, delete, nat_eq, eq_cases, lookup-insert, lookup-delete, =?_false,
}
use llama_skein.Base.Pigeonhole.{Nodup}
use llama_skein.Cache.{Cache, remove_order, length_or_zero}

-- The bytes held for the identifiers of the order.
unfoldable pub held : List ℕ → List (ℕ × List ℕ) → ℕ
held [] items = 0
held (id ∷ order) items = length_or_zero (lookup id items) + held order items

-- The identifiers of the order, each once, are those of the items; the size is the bytes held, and is
-- within the bound.
abbrev pub IsValid : Cache → Type 0
IsValid c =
    Nodup c.order
    × ((k : ℕ) → In k c.order ↔ (lookup k c.items ≢ none))
    × (c.size ≡ held c.order c.items)
    × (c.size ≤ c.max_size)

-- What holds between the steps of `Add`: the identifier is in neither the order nor the size.
abbrev pub Pending : ℕ → Cache → Type 0
Pending id c =
    Nodup c.order
    × (¬ In id c.order)
    × ((k : ℕ) → k ≢ id → In k c.order ↔ (lookup k c.items ≢ none))
    × (c.size ≡ held c.order c.items)

pub held-delete :
    (id : ℕ) (order : List ℕ) (items : List (ℕ × List ℕ))
    → ¬ In id order
    → held order (delete id items) ≡ held order items
unfolding held
held-delete id [] items h = refl
held-delete id (k ∷ order) items h =
    rw (lookup-delete id k items, =?_false id k (λ e. h (inl e)))
      (ap (λ z. length_or_zero (lookup k items) + z) (held-delete id order items (λ i. h (inr i))))

pub held-insert :
    (id : ℕ) (v : List ℕ) (order : List ℕ) (items : List (ℕ × List ℕ))
    → ¬ In id order
    → held order (insert id v items) ≡ held order items
unfolding held
held-insert id v [] items h = refl
held-insert id v (k ∷ order) items h =
    rw (lookup-insert id k v items, =?_false id k (λ e. h (inl e)))
      (ap (λ z. length_or_zero (lookup k items) + z)
        (held-insert id v order items (λ i. h (inr i))))

pub held-append :
    (order : List ℕ) (id : ℕ) (items : List (ℕ × List ℕ))
    → held (order ++ id ∷ []) items ≡ held order items + length_or_zero (lookup id items)
unfolding held
held-append [] id items = omega arith
held-append (k ∷ order) id items = omega (arith, held-append order id items)

pub remove_order-held :
    (id : ℕ) (order : List ℕ) (items : List (ℕ × List ℕ))
    → In id order
    → held order items ≡ length_or_zero (lookup id items) + held (remove_order id order) items
unfolding held remove_order
remove_order-held id [] items h = elim h [ ]
remove_order-held id (k ∷ order) items h = elim (eq_cases k id) [
  | inl p ↦ rw p.1 (ap (λ z. length_or_zero (lookup z items) + held order items) p.0)
  | inr p ↦
      rw p.1
        (omega (arith, remove_order-held id order items (In-tail id k order (λ e. p.0 (sym e)) h)))
]

pub remove_order-In : (k id : ℕ) (order : List ℕ) → In k (remove_order id order) → In k order
unfolding remove_order
remove_order-In k id [] h = h
remove_order-In k id (v ∷ order) h = elim (eq_cases v id) [
  | inl p ↦ inr (rw p.1 at h)
  | inr p ↦ elim (rw p.1 at h) [ inl e ↦ inl e | inr i ↦ inr (remove_order-In k id order i) ]
]

pub In-remove_order :
    (k id : ℕ) (order : List ℕ) → In k order → k ≢ id → In k (remove_order id order)
unfolding remove_order
In-remove_order k id [] h n = h
In-remove_order k id (v ∷ order) h n = elim (eq_cases v id) [
  | inl p ↦ rw p.1 (In-tail k v order (λ e. n (e ∙ p.0)) h)
  | inr p ↦ elim h [
    | inl e ↦ rw p.1 (inl e)
    | inr i ↦ rw p.1 (inr (In-remove_order k id order i n))
  ]
]

pub remove_order-Nodup :
    (id : ℕ) (order : List ℕ)
    → Nodup order
    → Nodup (remove_order id order) × (¬ In id (remove_order id order))
unfolding remove_order
remove_order-Nodup id [] d = (d, λ i. elim i [ ])
remove_order-Nodup id (v ∷ order) d = elim (eq_cases v id) [
  | inl p ↦ rw p.1 (d.1, subst (λ z. ¬ In z order) p.0 d.0)
  | inr p ↦
      let (n, a) = remove_order-Nodup id order d.1 in
      rw p.1 (
        ((λ i. d.0 (remove_order-In v id order i)), n),
        λ h. elim h [ inl e ↦ p.0 (sym e) | inr i ↦ a i ],
      )
]
