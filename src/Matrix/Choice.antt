-- ===== src/Matrix/Choice.antt =====
-- The loop of `Solve` in internal/router/matrix_solver.go over any candidates and their costs.
use llama_skein.Base.{
  ℕ, ◌<◌, ◌≤◌, ◌≡◌, ◌⊎◌, refl, sym, ap, subst, ◌∙◌, true, false, Option, none, some, List, [], ◌∷◌,
  In, inl, inr, arith, Bool-cases,
}
use llama_skein.Base.Maps.{string_eq}
use llama_skein.Matrix.{better, choose}

-- The order in which the loop prefers: the cost, then the index.
abbrev pub Preferred : ℕ × ℕ → ℕ × ℕ → Type 0
Preferred (c, i) (d, j) = (c < d) ⊎ ((c ≡ d) × (i ≤ j))

abbrev pub AtLeast : ℕ × ℕ → Option (ℕ × ℕ) → Type 0
AtLeast r none = Unit
AtLeast r (some b) = Preferred r b

-- The cost is not negative as an int.
abbrev pub Small : Option (ℕ × ℕ) → Type 0
Small none = Unit
Small (some (c, i)) = c < 9223372036854775808

some_inj : {x y : ℕ × ℕ} → some x ≡ some y → x ≡ y
some_inj p = cc p

Preferred-trans : (a b c : ℕ × ℕ) → Preferred a b → Preferred b c → Preferred a c
Preferred-trans a b c (inl p) (inl q) = inl (omega (arith, p, q))
Preferred-trans a b c (inl p) (inr q) = inl (omega (arith, p, q))
Preferred-trans a b c (inr p) (inl q) = inl (omega (arith, p, q))
Preferred-trans a b c (inr p) (inr q) = inr (omega (arith, p, q), omega (arith, p, q))

better-Preferred :
    (c i : ℕ) (best : Option (ℕ × ℕ)) (r : ℕ × ℕ)
    → c < 9223372036854775808
    → Small best
    → better c i best ≡ true
    → Preferred r (c, i)
    → AtLeast r best
unfolding better
better-Preferred c i none r a b h l = tt
better-Preferred c i (some (d, j)) r a b h l =
    Preferred-trans r (c, i) (d, j) l (wins c i d j a b h)
  where
    wins :
        (c i d j : ℕ)
        → c < 9223372036854775808
        → d < 9223372036854775808
        → better c i (some (d, j)) ≡ true
        → Preferred (c, i) (d, j)
    wins c i d j a b h = ground arith

not_better-Preferred :
    (c i : ℕ) (best : Option (ℕ × ℕ)) (r : ℕ × ℕ)
    → better c i best ≡ false
    → AtLeast r best
    → Preferred r (c, i)
unfolding better
not_better-Preferred c i none r h l = cc
not_better-Preferred c i (some (d, j)) r h l = Preferred-trans r (d, j) (c, i) l (loses c i d j h)
  where
    loses : (c i d j : ℕ) → better c i (some (d, j)) ≡ false → Preferred (d, j) (c, i)
    loses c i d j h = ground arith

-- What the loop returns is one of the candidates at its cost, or what it began with.
pub choose-from :
    (cost : ℕ → ℕ) (is : List ℕ) (best : Option (ℕ × ℕ)) (r : ℕ × ℕ)
    → choose cost is best ≡ some r
    → (In r.1 is × (r.0 ≡ cost r.1)) ⊎ (best ≡ some r)
unfolding choose better
choose-from cost [] best r h = inr h
choose-from cost (i ∷ is) best r h = elim (Bool-cases (better (cost i) i best)) [
  | inl p ↦ elim (choose-from cost is (some (cost i, i)) r (rw p at h)) [
    | inl (m, e) ↦ inl (inr m, e)
    | inr q ↦
        let e = some_inj q in
        inl (
          inl (sym (ap (λ (z : ℕ × ℕ). z.1) e)),
          sym (ap (λ (z : ℕ × ℕ). z.0) e) ∙ ap (λ (z : ℕ × ℕ). cost z.1) e,
        )
  ]
  | inr p ↦ elim (choose-from cost is best r (rw p at h)) [
    | inl (m, e) ↦ inl (inr m, e)
    | inr q ↦ inr q
  ]
]

-- It is preferred to each of them, where no cost is negative.
pub choose-Preferred :
    (cost : ℕ → ℕ) (is : List ℕ) (best : Option (ℕ × ℕ)) (r : ℕ × ℕ)
    → ((i : ℕ) → cost i < 9223372036854775808)
    → Small best
    → choose cost is best ≡ some r
    → ((i : ℕ) → In i is → Preferred r (cost i, i)) × AtLeast r best
unfolding choose better
choose-Preferred cost [] none r s b h = cc
choose-Preferred cost [] (some (c, j)) r s b h =
    (λ i m. elim m [ ], subst (Preferred r) (sym (some_inj h)) (inr (refl, omega arith)))
choose-Preferred cost (i ∷ is) best r s b h = elim (Bool-cases (better (cost i) i best)) [
  | inl p ↦
      let (all, ok) = choose-Preferred cost is (some (cost i, i)) r s (s i) (rw p at h) in
      (
        (λ k m. elim m [
          | inl e ↦ subst (λ z. Preferred r (cost z, z)) (sym e) ok
          | inr n ↦ all k n
        ]),
        better-Preferred (cost i) i best r (s i) b p ok,
      )
  | inr p ↦
      let (all, ok) = choose-Preferred cost is best r s b (rw p at h) in
      (
        (λ k m. elim m [
          | inl e ↦
              subst (λ z. Preferred r (cost z, z)) (sym e)
                (not_better-Preferred (cost i) i best r p ok)
          | inr n ↦ all k n
        ]),
        ok,
      )
]

-- The loop finds a set unless there is no candidate.
pub choose-none :
    (cost : ℕ → ℕ) (is : List ℕ) (best : Option (ℕ × ℕ))
    → choose cost is best ≡ none
    → (is ≡ []) × (best ≡ none)
unfolding choose better
choose-none cost [] best h = (refl, h)
choose-none cost (i ∷ is) best h = elim (Bool-cases (better (cost i) i best)) [
  | inl p ↦ let (_, e) = choose-none cost is (some (cost i, i)) (rw p at h) in cc
  | inr p ↦
      let (_, e) = choose-none cost is best (rw p at h) in
      let p' : better (cost i) i none ≡ false = subst (λ b. better (cost i) i b ≡ false) e p in cc
]
