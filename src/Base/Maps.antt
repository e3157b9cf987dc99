-- ===== src/Base/Maps.antt =====
-- Go maps: association lists, whose order is the order in which a `range` over the map runs.
-- Keys are compared by the `Eq` instance of their type.
use Prim.Native.Nat.{ℕ}
use Prim.Native.String.{String}
use mathlib.Core.Path.{◌≡◌, refl, sym, ap}
use mathlib.Core.Logic.{◌↔◌, ◌≢◌, ◌⊎◌, inl, inr}
use mathlib.Core.Bool.{Bool, true, false}
use mathlib.Core.List.{List, [], ◌∷◌}
use mathlib.Core.Option.{Option, none, some}
use native.Mathlib.Omega.{arith}
use text.Mathlib.Text.{◌==◌ as str_eq}
use text.Mathlib.TextEquality.{eq_iff}
use llama_skein.Base.Tests.{◌==◌ as nat_eqb, ==_iff, if◌then◌else◌, Bool-cases}
use llama_skein.Base.Lists.{In, In-tail}

pub record Eq {ℓ} (A : Type ℓ) : Type ℓ where
  pub beq : A → A → Bool
  pub beq_iff : (a b : A) → (beq a b ≡ true) ↔ (a ≡ b)

infix 50 ◌=?◌
abbrev pub ◌=?◌ {ℓ} : {A : Type ℓ} ⦃e : Eq A⦄ → A → A → Bool
◌=?◌ ⦃e⦄ = e.beq

instance abbrev pub nat_eq : Eq ℕ
nat_eq = record { beq = nat_eqb; beq_iff = ==_iff }

instance abbrev pub string_eq : Eq String
string_eq = record { beq = str_eq; beq_iff = eq_iff }

module _ {ℓ} {A : Type ℓ} ⦃e : Eq A⦄ where
  pub eq_cases : (a b : A) → ((a ≡ b) × ((a =? b) ≡ true)) ⊎ ((a ≢ b) × ((a =? b) ≡ false))
  eq_cases a b = elim (Bool-cases (a =? b)) [
    | inl y ↦ inl ((e.beq_iff a b).0 y, y)
    | inr n ↦ inr (λ (p : a ≡ b). cc ((e.beq_iff a b).1 p), n)
  ]

  pub =?_self : (a : A) → (a =? a) ≡ true
  =?_self a = (e.beq_iff a a).1 refl

  pub =?_false : (a b : A) → a ≢ b → (a =? b) ≡ false
  =?_false a b h = elim (eq_cases a b) [ inl p ↦ absurd (h p.0) | inr p ↦ p.1 ]

  -- `slices.Contains`, and the `containsString` of the router.
  unfoldable pub contains : List A → A → Bool
  contains [] a = false
  contains (x ∷ xs) a = if x =? a then true else contains xs a

  pub In-contains : (xs : List A) (a : A) → contains xs a ≡ true → In a xs
  unfolding contains
  In-contains [] a h = cc
  In-contains (x ∷ xs) a h = elim (eq_cases x a) [
    | inl p ↦ inl (sym p.0)
    | inr p ↦ inr (In-contains xs a (rw p.1 at h))
  ]

  pub contains-In : (xs : List A) (a : A) → In a xs → contains xs a ≡ true
  unfolding contains
  contains-In [] a h = elim h [ ]
  contains-In (x ∷ xs) a (inl p) = rw ((e.beq_iff x a).1 (sym p))
  contains-In (x ∷ xs) a (inr h) = ground (arith, contains-In xs a h)

  pub not-In_of_contains : (xs : List A) (a : A) → contains xs a ≡ false → ¬ In a xs
  not-In_of_contains xs a h i = cc (contains-In xs a i)

  pub contains_of_not-In : (xs : List A) (a : A) → ¬ In a xs → contains xs a ≡ false
  contains_of_not-In xs a h = elim (Bool-cases (contains xs a)) [
    | inl y ↦ absurd (h (In-contains xs a y))
    | inr n ↦ n
  ]

-- A key of the map.
abbrev pub keys {ℓ κ} : {K : Type ℓ} {V : Type κ} → List (K × V) → List K
keys [] = []
keys ((k, _) ∷ m) = k ∷ keys m

module _ {ℓ κ} {K : Type ℓ} {V : Type κ} ⦃e : Eq K⦄ where
  -- `v, ok := m[k]`
  unfoldable pub lookup : K → List (K × V) → Option V
  lookup k [] = none
  lookup k ((j, v) ∷ m) = if j =? k then some v else lookup k m

  -- `m[k] = v`
  unfoldable pub insert : K → V → List (K × V) → List (K × V)
  insert k v [] = (k, v) ∷ []
  insert k v ((j, w) ∷ m) = if j =? k then (k, v) ∷ m else (j, w) ∷ insert k v m

  -- `delete(m, k)`
  unfoldable pub delete : K → List (K × V) → List (K × V)
  delete k [] = []
  delete k ((j, w) ∷ m) = if j =? k then delete k m else (j, w) ∷ delete k m

  pub lookup-insert :
      (k j : K) (v : V) (m : List (K × V))
      → lookup j (insert k v m) ≡ (if k =? j then some v else lookup j m)
  unfolding lookup insert
  lookup-insert k j v [] = refl
  lookup-insert k j v ((i, w) ∷ m) =
      ground (arith, e.beq_iff k j, e.beq_iff i k, e.beq_iff i j, lookup-insert k j v m)

  pub lookup-delete :
      (k j : K) (m : List (K × V)) → lookup j (delete k m) ≡ (if k =? j then none else lookup j m)
  unfolding lookup delete
  lookup-delete k j [] = ground arith
  lookup-delete k j ((i, w) ∷ m) =
      ground (arith, e.beq_iff k j, e.beq_iff i k, e.beq_iff i j, lookup-delete k j m)

  pub lookup-In-keys : (k : K) (m : List (K × V)) {v : V} → lookup k m ≡ some v → In k (keys m)
  unfolding lookup
  lookup-In-keys k [] h = cc
  lookup-In-keys k ((j, w) ∷ m) h = elim (eq_cases j k) [
    | inl p ↦ inl (sym p.0)
    | inr p ↦ inr (lookup-In-keys k m (rw p.1 at h))
  ]

  pub lookup_of_In-keys :
      (k : K) (m : List (K × V)) → In k (keys m) → (v : V) × (lookup k m ≡ some v)
  unfolding lookup
  lookup_of_In-keys k [] i = elim i [ ]
  lookup_of_In-keys k ((j, w) ∷ m) i = elim (eq_cases j k) [
    | inl p ↦ (w, rw p.1)
    | inr p ↦ rw p.1 (lookup_of_In-keys k m (In-tail k j (keys m) (λ q. p.0 (sym q)) i))
  ]

-- No key occurs twice.
abbrev pub Distinct {ℓ κ} : {K : Type ℓ} {V : Type κ} → List (K × V) → Type ℓ
Distinct [] = Unit
Distinct ((k, _) ∷ m) = (¬ In k (keys m)) × Distinct m

module _ {ℓ κ} {K : Type ℓ} {V : Type κ} ⦃e : Eq K⦄ where
  pub In-keys : (k : K) (v : V) (m : List (K × V)) → In (k, v) m → In k (keys m)
  In-keys k v [] i = elim i [ ]
  In-keys k v ((j, w) ∷ m) (inl p) = inl (ap (λ (x : K × V). x.0) p)
  In-keys k v ((j, w) ∷ m) (inr i) = inr (In-keys k v m i)

  pub lookup_of_In :
      (k : K) (v : V) (m : List (K × V)) → In (k, v) m → Distinct m → lookup k m ≡ some v
  unfolding lookup
  lookup_of_In k v [] i d = elim i [ ]
  lookup_of_In k v ((j, w) ∷ m) (inl p) d =
      rw ((e.beq_iff j k).1 (sym (ap (λ (x : K × V). x.0) p)))
        (ap some (sym (ap (λ (x : K × V). x.1) p)))
  lookup_of_In k v ((j, w) ∷ m) (inr i) d =
      rw (=?_false j k (λ q. d.0 (rw q (In-keys k v m i)))) (lookup_of_In k v m i d.1)
