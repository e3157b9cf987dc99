-- ===== src/Base/Lists.antt =====
-- Lists measured and indexed by native numbers, membership and predicates on lists.
use Prim.Native.Nat.{ℕ, zero, suc, ◌+◌, ◌≤◌}
use mathlib.Core.Path.{◌≡◌, refl, sym, subst}
use mathlib.Core.Logic.{◌≢◌, ◌⊎◌, inl, inr}
use mathlib.Core.Bool.{Bool, true}
use mathlib.Core.List.{List, [], ◌∷◌, ◌++◌}
use mathlib.Core.Option.{Option, none, some}
use native.Mathlib.Omega.{arith}
use llama_skein.Base.Tests.{if◌then◌else◌, Bool-cases}

-- The empty type, at every level.
pub data Nothing {ℓ} : Type ℓ where

module _ {ℓ} {A : Type ℓ} where
  abbrev pub length : List A → ℕ
  length [] = 0
  length (x ∷ xs) = suc (length xs)

  abbrev pub get_elem? : List A → ℕ → Option A
  get_elem? [] i = none
  get_elem? (x ∷ xs) zero = some x
  get_elem? (x ∷ xs) (suc i) = get_elem? xs i

  -- A write out of bounds changes nothing.
  abbrev pub set : List A → ℕ → A → List A
  set [] i v = []
  set (x ∷ xs) zero v = v ∷ xs
  set (x ∷ xs) (suc i) v = x ∷ set xs i v

  abbrev pub take : ℕ → List A → List A
  take zero xs = []
  take (suc n) [] = []
  take (suc n) (x ∷ xs) = x ∷ take n xs

  abbrev pub drop : ℕ → List A → List A
  drop zero xs = xs
  drop (suc n) [] = []
  drop (suc n) (x ∷ xs) = drop n xs

  abbrev pub replicate : ℕ → A → List A
  replicate zero a = []
  replicate (suc n) a = a ∷ replicate n a

  -- The entries that pass a Boolean test, in order.
  abbrev pub keep : (A → Bool) → List A → List A
  keep f [] = []
  keep f (x ∷ xs) = if f x then x ∷ keep f xs else keep f xs

  pub length-append : (xs ys : List A) → length (xs ++ ys) ≡ length xs + length ys
  length-append [] ys = omega arith
  length-append (x ∷ xs) ys = omega (arith, length-append xs ys)

  pub length-keep-le : (f : A → Bool) (xs : List A) → length (keep f xs) ≤ length xs
  length-keep-le f [] = omega arith
  length-keep-le f (x ∷ xs) = ground (arith, length-keep-le f xs)

  -- Membership, by recursion: it can be taken apart into data.
  abbrev pub In : A → List A → Type ℓ
  In a [] = Nothing
  In a (x ∷ xs) = (a ≡ x) ⊎ In a xs

  pub In-append_left : (a : A) (xs ys : List A) → In a xs → In a (xs ++ ys)
  In-append_left a [] ys h = elim h [ ]
  In-append_left a (x ∷ xs) ys (inl e) = inl e
  In-append_left a (x ∷ xs) ys (inr h) = inr (In-append_left a xs ys h)

  pub In-append_right : (a : A) (xs ys : List A) → In a ys → In a (xs ++ ys)
  In-append_right a [] ys h = h
  In-append_right a (x ∷ xs) ys h = inr (In-append_right a xs ys h)

  pub In-append_cases : (a : A) (xs ys : List A) → In a (xs ++ ys) → In a xs ⊎ In a ys
  In-append_cases a [] ys h = inr h
  In-append_cases a (x ∷ xs) ys (inl e) = inl (inl e)
  In-append_cases a (x ∷ xs) ys (inr h) = elim (In-append_cases a xs ys h) [
    | inl l ↦ inl (inr l)
    | inr r ↦ inr r
  ]

  pub In-keep : (a : A) (f : A → Bool) (xs : List A) → In a xs → f a ≡ true → In a (keep f xs)
  In-keep a f [] h t = h
  In-keep a f (x ∷ xs) (inl e) t =
      let t' : f x ≡ true = subst (λ y. f y ≡ true) e t in rw t' (inl e)
  In-keep a f (x ∷ xs) (inr h) t = elim (Bool-cases (f x)) [
    | inl y ↦ rw y (inr (In-keep a f xs h t))
    | inr n ↦ rw n (In-keep a f xs h t)
  ]

  keep-In_here :
      (a : A) (f : A → Bool) (x : A) (xs : List A)
      → f x ≡ true
      → (In a (keep f xs) → In a xs × (f a ≡ true))
      → In a (x ∷ keep f xs)
      → In a (x ∷ xs) × (f a ≡ true)
  keep-In_here a f x xs y rest (inl e) = (inl e, subst (λ z. f z ≡ true) (sym e) y)
  keep-In_here a f x xs y rest (inr h) = let (l, r) = rest h in (inr l, r)

  pub keep-In : (a : A) (f : A → Bool) (xs : List A) → In a (keep f xs) → In a xs × (f a ≡ true)
  keep-In a f [] h = elim h [ ]
  keep-In a f (x ∷ xs) h = elim (Bool-cases (f x)) [
    | inl y ↦ keep-In_here a f x xs y (keep-In a f xs) (rw y at h)
    | inr n ↦ let (l, r) = keep-In a f xs (rw n at h) in (inr l, r)
  ]

  pub In-tail : (a x : A) (xs : List A) → a ≢ x → In a (x ∷ xs) → In a xs
  In-tail a x xs h (inl e) = absurd (h e)
  In-tail a x xs h (inr i) = i

  -- A property of every entry.
  abbrev pub All {κ} : (A → Type κ) → List A → Type κ
  All P [] = Unit
  All P (x ∷ xs) = P x × All P xs

  pub All-append {κ} : (P : A → Type κ) (xs ys : List A) → All P xs → All P ys → All P (xs ++ ys)
  All-append P [] ys hx hy = hy
  All-append P (x ∷ xs) ys hx hy = (hx.0, All-append P xs ys hx.1 hy)

  pub All-In {κ} : (P : A → Type κ) (a : A) (xs : List A) → All P xs → In a xs → P a
  All-In P a [] h i = elim i [ ]
  All-In P a (x ∷ xs) h (inl e) = subst P (sym e) h.0
  All-In P a (x ∷ xs) h (inr i) = All-In P a xs h.1 i

  pub All-of_In {κ} : (P : A → Type κ) (xs : List A) → ((a : A) → In a xs → P a) → All P xs
  All-of_In P [] h = tt
  All-of_In P (x ∷ xs) h = (h x (inl refl), All-of_In P xs (λ a i. h a (inr i)))
