-- ===== src/Router/Counts.antt =====
-- Where a request is: how often its identifier stands in a queue, among the waiters of the swaps,
-- and in the answers.
use llama_skein.Base.{
  ℕ, ◌+◌, ◌≡◌, refl, sym, ap, String, none, some, List, [], ◌∷◌, ◌++◌, ◌==◌, if◌then◌else◌, arith,
  inl, inr, ◌⊎◌, subst, In, Bool-cases,
}
use llama_skein.Base.Maps.{Eq, lookup, insert, delete, keys, Distinct, eq_cases, ◌=?◌, string_eq}
use llama_skein.Router.{Request, ActiveSwap, Answer}

abbrev pub hit : ℕ → ℕ → ℕ
hit id k = if k == id then 1 else 0

unfoldable pub count : ℕ → List Request → ℕ
count id [] = 0
count id (r ∷ rs) = hit id r.id + count id rs

unfoldable pub waiting : ℕ → List (String × ActiveSwap) → ℕ
waiting id [] = 0
waiting id ((_, swap) ∷ rest) = count id swap.waiters + waiting id rest

unfoldable pub answered : ℕ → List (ℕ × Answer) → ℕ
answered id [] = 0
answered id ((k, _) ∷ rest) = hit id k + answered id rest

pub count-append : (id : ℕ) (xs ys : List Request) → count id (xs ++ ys) ≡ count id xs + count id ys
unfolding count
count-append id [] ys = omega arith
count-append id (x ∷ xs) ys = omega (arith, count-append id xs ys)

pub count_one : (id : ℕ) (r : Request) → count id (r ∷ []) ≡ hit id r.id
unfolding count
count_one id r = omega arith

pub waiting-insert_new :
    (id : ℕ) (m : String) (swap : ActiveSwap) (a : List (String × ActiveSwap))
    → lookup m a ≡ none
    → waiting id (insert m swap a) ≡ waiting id a + count id swap.waiters
unfolding waiting insert lookup
waiting-insert_new id m swap [] h = omega arith
waiting-insert_new id m swap ((k, old) ∷ a) h = ground (arith, waiting-insert_new id m swap a)

pub waiting-insert_old :
    (id : ℕ) (m : String) (swap old : ActiveSwap) (a : List (String × ActiveSwap))
    → lookup m a ≡ some old
    → waiting id (insert m swap a) + count id old.waiters ≡ waiting id a + count id swap.waiters
unfolding waiting insert lookup
waiting-insert_old id m swap old [] h = cc
waiting-insert_old id m swap old ((k, x) ∷ a) h = elim (Bool-cases (k =? m)) [
  | inl b ↦ ground arith
  | inr b ↦ ground (arith, waiting-insert_old id m swap old a)
]

module _ {ℓ κ} {K : Type ℓ} {V : Type κ} ⦃e : Eq K⦄ where
  pub delete_absent : (k : K) (m : List (K × V)) → ¬ In k (keys m) → delete k m ≡ m
  unfolding delete
  delete_absent k [] h = refl
  delete_absent k ((j, w) ∷ m) h = elim (eq_cases j k) [
    | inl p ↦ absurd (h (inl (sym p.0)))
    | inr p ↦ rw p.1 (ap (◌∷◌ (j, w)) (delete_absent k m (λ i. h (inr i))))
  ]

  -- One entry in front of a list whose keys are known.
  In-keys_cons :
      (k j i : K) (w : V) (m : List (K × V))
      → (In j (keys (delete k m)) → In j (keys m))
      → In j (i ∷ keys (delete k m))
      → In j (i ∷ keys m)
  In-keys_cons k j i w m f (inl p) = inl p
  In-keys_cons k j i w m f (inr h) = inr (f h)

  pub In-keys-delete : (k j : K) (m : List (K × V)) → In j (keys (delete k m)) → In j (keys m)
  unfolding delete
  In-keys-delete k j [] i = elim i [ ]
  In-keys-delete k j ((i, w) ∷ m) h = elim (Bool-cases (i =? k)) [
    | inl b ↦ inr (In-keys-delete k j m (rw b at h))
    | inr b ↦ In-keys_cons k j i w m (In-keys-delete k j m) (rw b at h)
  ]

  pub Distinct-delete : (k : K) (m : List (K × V)) → Distinct m → Distinct (delete k m)
  unfolding delete
  Distinct-delete k [] d = tt
  Distinct-delete k ((j, w) ∷ m) d = elim (Bool-cases (j =? k)) [
    | inl b ↦ rw b (Distinct-delete k m d.1)
    | inr b ↦ rw b ((λ i. d.0 (In-keys-delete k j m i)), Distinct-delete k m d.1)
  ]

  In-keys_here :
      (k j i : K) (w : V) (m : List (K × V)) → In j (k ∷ keys m) → (j ≡ k) ⊎ In j (i ∷ keys m)
  In-keys_here k j i w m (inl p) = inl p
  In-keys_here k j i w m (inr h) = inr (inr h)

  In-keys_under :
      (k j i : K) (v : V) (m : List (K × V))
      → (In j (keys (insert k v m)) → (j ≡ k) ⊎ In j (keys m))
      → In j (i ∷ keys (insert k v m))
      → (j ≡ k) ⊎ In j (i ∷ keys m)
  In-keys_under k j i v m f (inl p) = inr (inl p)
  In-keys_under k j i v m f (inr h) = elim (f h) [ inl p ↦ inl p | inr q ↦ inr (inr q) ]

  pub In-keys-insert :
      (k j : K) (v : V) (m : List (K × V)) → In j (keys (insert k v m)) → (j ≡ k) ⊎ In j (keys m)
  unfolding insert
  In-keys-insert k j v [] (inl p) = inl p
  In-keys-insert k j v [] (inr i) = inr i
  In-keys-insert k j v ((i, w) ∷ m) h = elim (eq_cases i k) [
    | inl p ↦ In-keys_here k j i w m (rw p.1 at h)
    | inr p ↦ In-keys_under k j i v m (In-keys-insert k j v m) (rw p.1 at h)
  ]

  pub Distinct-insert : (k : K) (v : V) (m : List (K × V)) → Distinct m → Distinct (insert k v m)
  unfolding insert
  Distinct-insert k v [] d = (λ i. elim i [ ], tt)
  Distinct-insert k v ((i, w) ∷ m) d = elim (eq_cases i k) [
    | inl p ↦ rw p.1 (subst (λ x. ¬ In x (keys m)) p.0 d.0, d.1)
    | inr p ↦ rw p.1 (
      (λ h. elim (In-keys-insert k i v m h) [ inl q ↦ p.0 q | inr q ↦ d.0 q ]),
      Distinct-insert k v m d.1,
    )
  ]

pub waiting-delete :
    (id : ℕ) (m : String) (old : ActiveSwap) (a : List (String × ActiveSwap))
    → lookup m a ≡ some old
    → Distinct a
    → waiting id (delete m a) + count id old.waiters ≡ waiting id a
unfolding waiting delete lookup
waiting-delete id m old [] h d = cc
waiting-delete id m old ((k, x) ∷ a) h d = elim (eq_cases k m) [
  | inl p ↦ ground (arith, p.1, delete_absent m a (subst (λ y. ¬ In y (keys a)) p.0 d.0))
  | inr p ↦ ground (arith, p.1, waiting-delete id m old a)
]
