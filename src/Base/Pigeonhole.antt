-- ===== src/Base/Pigeonhole.antt =====
-- Lists of numbers with no repetition, and the pigeonhole principle.
use Prim.Native.Nat.{ℕ, zero, suc, ◌≤◌}
use mathlib.Core.Path.{◌≡◌, refl, sym, ap, subst}
use mathlib.Core.Logic.{inl, inr}
use mathlib.Core.Bool.{not}
use mathlib.Core.List.{List, [], ◌∷◌}
use native.Mathlib.Omega.{arith}
use llama_skein.Base.Tests.{◌==◌, ==_iff, Bool-cases}
use llama_skein.Base.Lists.{length, In, keep, keep-In}
use llama_skein.Base.Maps.{contains, In-contains, nat_eq, not-In_of_contains}

-- No entry occurs twice.
abbrev pub Nodup : List ℕ → Type 0
Nodup [] = Unit
Nodup (x ∷ xs) = (¬ In x xs) × Nodup xs

abbrev without : ℕ → List ℕ → List ℕ
without n = keep (λ x. not (x == n))

without-Nodup : (n : ℕ) (l : List ℕ) → Nodup l → Nodup (without n l)
without-Nodup n [] d = tt
without-Nodup n (x ∷ l) d = elim (Bool-cases (x == n)) [
  | inl b ↦ rw b (without-Nodup n l d.1)
  | inr b ↦ rw b ((λ i. d.0 (keep-In x (λ y. not (y == n)) l i).0), without-Nodup n l d.1)
]

without_absent : (n : ℕ) (l : List ℕ) → ¬ In n l → length (without n l) ≡ length l
without_absent n [] h = refl
without_absent n (x ∷ l) h = elim (Bool-cases (x == n)) [
  | inl b ↦ absurd (h (inl (sym ((==_iff x n).0 b))))
  | inr b ↦ rw b (ap suc (without_absent n l (λ i. h (inr i))))
]

-- At most one entry is lost.
length-without : (n : ℕ) (l : List ℕ) → Nodup l → length l ≤ suc (length (without n l))
length-without n [] d = omega arith
length-without n (x ∷ l) d = elim (Bool-cases (x == n)) [
  | inl b ↦ rw b (omega (arith, without_absent n l (subst (λ y. ¬ In y l) ((==_iff x n).0 b) d.0)))
  | inr b ↦ rw b (omega (arith, length-without n l d.1))
]

-- The pigeonhole principle: distinct numbers from 1 to n are at most n.
pub length-le_of_Nodup :
    (n : ℕ) (l : List ℕ) → Nodup l → ((x : ℕ) → In x l → (1 ≤ x) × (x ≤ n)) → length l ≤ n
length-le_of_Nodup zero [] d h = omega arith
length-le_of_Nodup zero (x ∷ l) d h = omega (arith, h x (inl refl))
length-le_of_Nodup (suc n) l d h =
    let fewer = length-le_of_Nodup n (without (suc n) l) (without-Nodup (suc n) l d) (λ x i.
      let (j, b) = keep-In x (λ y. not (y == suc n)) l i in let r = h x j in ground arith) in
    omega (arith, length-without (suc n) l d, fewer)

-- So n distinct numbers from 1 to n are all of them.
pub In-of_full :
    (n k : ℕ) (l : List ℕ)
    → Nodup l
    → ((x : ℕ) → In x l → (1 ≤ x) × (x ≤ n))
    → length l ≡ n
    → 1 ≤ k
    → k ≤ n
    → In k l
In-of_full n k l d h e a b = elim (Bool-cases (contains l k)) [
  | inl y ↦ In-contains l k y
  | inr y ↦ absurd (
      omega (
        arith,
        length-le_of_Nodup n (k ∷ l) (not-In_of_contains l k y, d)
            (λ x i. elim i [ inl p ↦ rw p (a, b) | inr j ↦ h x j ]),
      ))
]
