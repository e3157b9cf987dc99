-- ===== src/Matrix/Optimal.antt =====
-- The set that internal/router/matrix_solver.go chooses costs least, the first of those that do.
use native.Mathlib.Nat.{mod-eq_of_lt}
use llama_skein.Base.{
  ℕ, zero, suc, ◌+◌, ◌<◌, ◌≤◌, ◌≡◌, refl, sym, ap, subst, ◌∙◌, String, true, false, not, keep, none,
  some, List, [], ◌∷◌, get_elem?, In, In-append_left, In-append_right, In-append_cases, inl, inr,
  arith, Bool-cases, Option-cases,
}
use llama_skein.Base.Maps.{lookup, contains, string_eq, ◌=?◌}
use llama_skein.Matrix.{
  ExpandedSet, evict_cost, occurrences, sets_with_from, sets_with, models_at, cost_of, chosen_set,
  run_in, solve,
}
use llama_skein.Matrix.Choice.{Preferred, choose-from, choose-Preferred, choose-none}

occurrences_of_In :
    (i : ℕ) (m : String) (ms : List String) → contains ms m ≡ true → In i (occurrences i m ms)
unfolding occurrences contains
occurrences_of_In i m [] h = cc
occurrences_of_In i m (k ∷ ms) h = elim (Bool-cases (k =? m)) [
  | inl p ↦ rw p (inl refl)
  | inr p ↦ rw p (occurrences_of_In i m ms (rw p at h))
]

In-occurrences :
    (i j : ℕ) (m : String) (ms : List String)
    → In j (occurrences i m ms)
    → (j ≡ i) × (contains ms m ≡ true)
unfolding occurrences contains
In-occurrences i j m [] h = elim h [ ]
In-occurrences i j m (k ∷ ms) h = elim (Bool-cases (k =? m)) [
  | inl p ↦ elim (rw p at h) [
    | inl e ↦ rw p (e, refl)
    | inr n ↦ rw p ((In-occurrences i j m ms n).0, refl)
  ]
  | inr p ↦ rw p (In-occurrences i j m ms (rw p at h))
]

set_inj : {x y : ExpandedSet} → some x ≡ some y → x ≡ y
set_inj p = cc p

sets_with_of_get :
    (i k : ℕ) (m : String) (sets : List ExpandedSet) (es : ExpandedSet)
    → get_elem? sets k ≡ some es
    → contains es.models m ≡ true
    → In (i + k) (sets_with_from i m sets)
unfolding sets_with_from
sets_with_of_get i k m [] es g h = cc
sets_with_of_get i zero m (x ∷ sets) es g h = In-append_left _ (occurrences i m x.models) _ (
    subst (λ z. In z (occurrences i m x.models)) (omega arith)
      (occurrences_of_In i m x.models
        (subst (λ (z : ExpandedSet). contains z.models m ≡ true) (sym (set_inj g)) h)))
sets_with_of_get i (suc k) m (x ∷ sets) es g h = In-append_right _ (occurrences i m x.models) _ (
    subst (λ z. In z (sets_with_from (i + 1) m sets)) (omega arith)
      (sets_with_of_get (i + 1) k m sets es g h))

get_of_sets_with :
    (i j : ℕ) (m : String) (sets : List ExpandedSet)
    → In j (sets_with_from i m sets)
    → (k : ℕ) × (es : ExpandedSet) × (j ≡ i + k)
      × (get_elem? sets k ≡ some es)
      × (contains es.models m ≡ true)
unfolding sets_with_from
get_of_sets_with i j m [] h = elim h [ ]
get_of_sets_with i j m (x ∷ sets) h =
    elim (In-append_cases j (occurrences i m x.models) (sets_with_from (i + 1) m sets) h) [
      | inl l ↦ let (e, c) = In-occurrences i j m x.models l in (0, x, omega (arith, e), refl, c)
      | inr r ↦
          let (k, es, e, g, c) = get_of_sets_with (i + 1) j m sets r in
          (suc k, es, omega (arith, e), g, c)
    ]

pub models_at_of_get :
    (sets : List ExpandedSet) (k : ℕ) (es : ExpandedSet)
    → get_elem? sets k ≡ some es
    → models_at sets k ≡ es.models
unfolding models_at
models_at_of_get sets k es g = rw (models_at, g) refl

-- The set that the loop chooses is a set with the requested model, at its own cost.
pub chosen_set-configured :
    (sets : List ExpandedSet) (costs : List (String × ℕ)) (requested : String)
    (running : List String) (cost j : ℕ)
    → chosen_set sets costs requested running ≡ some (cost, j)
    → (best : ExpandedSet) × (get_elem? sets j ≡ some best)
      × (contains best.models requested ≡ true)
      × (cost ≡ cost_of costs best.models running)
chosen_set-configured sets costs requested running cost j h =
    elim (choose-from _ (sets_with requested sets) none (cost, j) h) [
      | inl (m, e) ↦
          let (k, es, p, g, c) = get_of_sets_with 0 j requested sets m in
          let p' : k ≡ j = omega (arith, p) in
          let g' = subst (λ z. get_elem? sets z ≡ some es) p' g in
          (es, g', c, e ∙ ap (λ z. cost_of costs z running) (models_at_of_get sets j es g'))
      | inr e ↦ cc
    ]

-- The cost of stopping a model: what is configured for it, or 1.
abbrev pub price : List (String × ℕ) → String → ℕ
price costs model = elim (lookup model costs) [ none ↦ 1 | some cost ↦ cost ]

-- The cost of stopping the models, without a bound.
abbrev pub bill : List (String × ℕ) → List String → ℕ
bill costs [] = 0
bill costs (m ∷ ms) = price costs m + bill costs ms

-- The running models that the set leaves out.
abbrev pub left_out : List String → List String → List String
left_out set_models running = keep (λ m. not (contains set_models m)) running

bill-left_out :
    (costs : List (String × ℕ)) (set_models running : List String)
    → bill costs (left_out set_models running) ≤ bill costs running
bill-left_out costs set_models [] = omega arith
bill-left_out costs set_models (m ∷ running) = elim (Bool-cases (contains set_models m)) [
  | inl p ↦ rw p (omega (arith, bill-left_out costs set_models running))
  | inr p ↦ rw p (omega (arith, bill-left_out costs set_models running))
]

-- Where the cost of all that is running is an int, the loop adds up without wrapping around.
cost_of-bill :
    (costs : List (String × ℕ)) (set_models running : List String)
    → bill costs running < 9223372036854775808
    → cost_of costs set_models running ≡ bill costs (left_out set_models running)
unfolding cost_of evict_cost
cost_of-bill costs set_models [] b = refl
cost_of-bill costs set_models (m ∷ running) b =
    let below = bill-left_out costs set_models running in
    let rest = cost_of-bill costs set_models running (omega (arith, b)) in
    elim (Bool-cases (contains set_models m)) [
      | inl p ↦ rw p rest
      | inr p ↦
          rw p (mod-eq_of_lt (omega (arith, b, below, rest)) ∙ ap (λ n. price costs m + n) rest)
    ]

-- It comes before every other set with the model in the order, when all costs are in range.
chosen_set-Preferred :
    (sets : List ExpandedSet) (costs : List (String × ℕ)) (requested : String)
    (running : List String) (cost j i : ℕ) (es : ExpandedSet)
    → bill costs running < 9223372036854775808
    → chosen_set sets costs requested running ≡ some (cost, j)
    → get_elem? sets i ≡ some es
    → contains es.models requested ≡ true
    → Preferred (cost, j) (bill costs (left_out es.models running), i)
chosen_set-Preferred sets costs requested running cost j i es b h g c =
    let small : (idx : ℕ) → cost_of costs (models_at sets idx) running < 9223372036854775808 =
      λ idx. omega (
        arith,
        b,
        cost_of-bill costs (models_at sets idx) running b,
        bill-left_out costs (models_at sets idx) running,
      ) in
    let (all, _) = choose-Preferred _ (sets_with requested sets) none (cost, j) small tt h in
    let found =
      subst (λ z. In z (sets_with requested sets)) (omega arith)
        (sets_with_of_get 0 i requested sets es g c) in
    subst (λ n. Preferred (cost, j) (n, i))
      (ap (λ z. cost_of costs z running) (models_at_of_get sets i es g)
        ∙ cost_of-bill costs es.models running b)
      (all i found)

-- The requested model is not running, it stands in a set of the configuration, at any position i, and
-- the costs of all that is running sum up to less than 2^63. `Solve` then chooses a set with the
-- requested model, at a position j. It stops exactly the running models that this set leaves out, in
-- their order, and the total cost is the sum of what is configured for them, or 1 for each that has
-- no cost. That is below the same sum for the set at i, or it is the same and j is not behind i.
pub solve-optimal :
    (sets : List ExpandedSet) (costs : List (String × ℕ)) (requested : String)
    (running : List String) (i : ℕ) (es : ExpandedSet)
    → bill costs running < 9223372036854775808
    → contains running requested ≡ false
    → get_elem? sets i ≡ some es
    → contains es.models requested ≡ true
    → (j : ℕ) × (best : ExpandedSet) × (get_elem? sets j ≡ some best)
      × (contains best.models requested ≡ true)
      × ((solve sets costs requested running).target_set ≡ best.models)
      × ((solve sets costs requested running).evict ≡ left_out best.models running)
      × ((solve sets costs requested running).total_cost
          ≡ bill costs (left_out best.models running))
      × Preferred
          ((solve sets costs requested running).total_cost, j)
          (bill costs (left_out es.models running), i)
unfolding solve run_in
solve-optimal sets costs requested running i es b n g c =
    elim (Option-cases (chosen_set sets costs requested running)) [
      | inl p ↦
          let e = (choose-none _ (sets_with requested sets) none p).0 in
          let m = sets_with_of_get 0 i requested sets es g c in
          absurd (elim (subst (λ z. In (0 + i) z) e m) [ ])
      | inr ((cost, j), p) ↦
          let (best, g', c', e) = chosen_set-configured sets costs requested running cost j p in
          let at_j = models_at_of_get sets j best g' in
          rw (n, p)
            (
              j,
              best,
              g',
              c',
              at_j,
              ap (λ z. left_out z running) at_j,
              e ∙ cost_of-bill costs best.models running b,
              chosen_set-Preferred sets costs requested running cost j i es b p g c,
            )
    ]
