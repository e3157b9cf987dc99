-- ===== src/SwapSets/Checks.antt =====
-- The first checks of `ValidateMatrix` of internal/config/matrix.go: what they leave, and their errors.
use llama_skein.Base.{
  ℕ, ◌≡◌, inl, inr, subst, String, Option, none, some, List, [], ◌∷◌, ◌==◌, In, Bool-cases,
}
use llama_skein.Base.Maps.{lookup, contains, keys, In-contains, string_eq, eq_cases}
use llama_skein.SwapSets.{
  MatrixError, bad_var_key, unknown_model, bad_cost, unknown_cost_var, is_var_key, check_vars,
  check_costs,
}

-- All values of the table of vars are configured models.
abbrev pub Configured : List String → List (String × String) → Type 0
Configured models vars = (k v : String) → lookup k vars ≡ some v → In v models

pub check_vars-Configured :
    (models : List String) (vars : List (String × String))
    → check_vars models vars ≡ none
    → Configured models vars
unfolding check_vars lookup
check_vars-Configured models [] h k v e = cc e
check_vars-Configured models ((id, model) ∷ vars) h k v e = elim (Bool-cases (is_var_key id)) [
  | inr b ↦ cc (rw b at h)
  | inl b ↦ elim (Bool-cases (contains models model)) [
    | inr c ↦ cc (rw (b, c) at h)
    | inl c ↦ elim (eq_cases id k) [
      | inl p ↦
          let q : model ≡ v = cc (rw p.1 at e) in
          subst (λ y. In y models) q (In-contains models model c)
      | inr p ↦ check_vars-Configured models vars (rw (b, c) at h) k v (rw p.1 at e)
    ]
  ]
]

abbrev pub OnError : (MatrixError → Type 0) → Option MatrixError → Type 0
OnError P none = Unit
OnError P (some e) = P e

pub check_vars-OnError :
    (P : MatrixError → Type 0)
    → ((x : String) → P (bad_var_key x))
    → ((x : String) → P (unknown_model x))
    → (models : List String) (vars : List (String × String)) → OnError P (check_vars models vars)
unfolding check_vars
check_vars-OnError P h k models [] = tt
check_vars-OnError P h k models ((id, model) ∷ vars) = elim (Bool-cases (is_var_key id)) [
  | inr b ↦ rw b (h id)
  | inl b ↦ elim (Bool-cases (contains models model)) [
    | inr c ↦ rw (b, c) (k model)
    | inl c ↦ rw (b, c) (check_vars-OnError P h k models vars)
  ]
]

pub check_costs-OnError :
    (P : MatrixError → Type 0)
    → ((x : String) → P (bad_cost x))
    → ((x : String) → P (unknown_cost_var x))
    → (vars : List (String × String)) (costs : List (String × ℕ))
    → OnError P (check_costs vars costs)
unfolding check_costs
check_costs-OnError P h k vars [] = tt
check_costs-OnError P h k vars ((key, cost) ∷ costs) = elim (Bool-cases (cost == 0)) [
  | inl b ↦ rw b (h key)
  | inr b ↦ elim (Bool-cases (contains (keys vars) key)) [
    | inr c ↦ rw (b, c) (k key)
    | inl c ↦ rw (b, c) (check_costs-OnError P h k vars costs)
  ]
]
