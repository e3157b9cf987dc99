-- ===== src/Matrix.antt =====
-- internal/router/matrix_solver.go: which models to stop so that a requested one can run.
-- A configured cost is a positive int; a total is the 64 bits of an int, which wraps around.
pub mod Choice
pub mod Optimal
pub mod Fits
pub mod Samples
use llama_skein.Base.{
  ℕ, ◌+◌, String, Bool, true, false, not, ◌&&◌, Option, none, some, List, [], ◌∷◌, ◌++◌, ltb, leb,
  ◌%◌, ◌==◌, ◌||◌, length, if◌then◌else◌, get_elem?, keep,
}
use llama_skein.Base.Maps.{lookup, contains, string_eq, ◌=?◌}

-- config.ExpandedSet
pub record ExpandedSet : Type 0 where
  pub set_name : String
  pub dsl : String
  pub models : List String

-- `solveResult`
pub record SolveResult : Type 0 where
  pub evict : List String
  pub target_set : List String
  pub set_name : String
  pub dsl : String
  pub total_cost : ℕ

-- `evictCost`
unfoldable pub evict_cost : List (String × ℕ) → String → ℕ
evict_cost costs model = elim (lookup model costs) [ none ↦ 1 | some cost ↦ cost ]

-- The index, once for each time the model stands in the set.
unfoldable pub occurrences : ℕ → String → List String → List ℕ
occurrences i model [] = []
occurrences i model (m ∷ ms) =
    if m =? model then i ∷ occurrences i model ms else occurrences i model ms

-- `modelToSets[model]`, as `newMatrixSolver` builds it.
unfoldable pub sets_with_from : ℕ → String → List ExpandedSet → List ℕ
sets_with_from i model [] = []
sets_with_from i model (es ∷ rest) =
    occurrences i model es.models ++ sets_with_from (i + 1) model rest

abbrev pub sets_with : String → List ExpandedSet → List ℕ
sets_with model sets = sets_with_from 0 model sets

-- `s.expandedSets[idx].Models`; an index of `modelToSets` is never out of range.
unfoldable pub models_at : List ExpandedSet → ℕ → List String
models_at sets idx = elim (get_elem? sets idx) [ none ↦ [] | some es ↦ es.models ]

-- The running models that are not in the set.
abbrev pub outside : List String → List String → List String
outside set_models running = keep (λ m. not (contains set_models m)) running

-- The loop that adds the costs up.
unfoldable pub cost_of : List (String × ℕ) → List String → List String → ℕ
cost_of costs set_models [] = 0
cost_of costs set_models (m ∷ running) =
    let rest = cost_of costs set_models running in
    if contains set_models m then rest else (evict_cost costs m + rest) % 18446744073709551616

-- The sign of an int of 64 bits.
abbrev pub is_negative : ℕ → Bool
is_negative x = leb 9223372036854775808 x

-- `a < b`, for a `b` that is not negative.
abbrev pub below : ℕ → ℕ → Bool
below a b = is_negative a || ltb a b

-- `bestCost < 0 || cost < bestCost || (cost == bestCost && idx < bestIdx)`
unfoldable pub better : ℕ → ℕ → Option (ℕ × ℕ) → Bool
better cost idx none = true
better cost idx (some (best_cost, best_idx)) =
    is_negative best_cost || below cost best_cost || (cost == best_cost && ltb idx best_idx)

-- The loop over the candidates, with `bestCost` and `bestIdx` once there is one: before, both are -1.
unfoldable pub choose : (ℕ → ℕ) → List ℕ → Option (ℕ × ℕ) → Option (ℕ × ℕ)
choose cost [] best = best
choose cost (idx ∷ rest) best =
    choose cost rest (if better (cost idx) idx best then some (cost idx, idx) else best)

abbrev pub all_in : List String → List String → Bool
all_in set_models [] = true
all_in set_models (m ∷ running) = if contains set_models m then all_in set_models running else false

-- `findMatchingSet`
unfoldable pub find_matching_set : List ExpandedSet → List ℕ → List String → String × String
find_matching_set sets [] running = ("", "")
find_matching_set sets (idx ∷ rest) running =
    let others = find_matching_set sets rest running in
    elim (get_elem? sets idx) [
      | none ↦ others
      | some es ↦ if all_in es.models running then (es.set_name, es.dsl) else others
    ]

-- The result when the requested model is running.
unfoldable pub keep_running : List ExpandedSet → String → List String → SolveResult
keep_running sets requested running =
    let found = find_matching_set sets (sets_with requested sets) running in
    record { evict = []; target_set = running; set_name = found.0; dsl = found.1; total_cost = 0 }

-- The result when the model is in no set.
unfoldable pub run_alone : String → List String → SolveResult
run_alone requested running = record {
  evict = running;
  target_set = requested ∷ [];
  set_name = "";
  dsl = "";
  total_cost = 0;
}

-- The result for the chosen set.
unfoldable pub run_in : List ExpandedSet → List String → ℕ × ℕ → SolveResult
run_in sets running (cost, idx) = record {
  evict = outside (models_at sets idx) running;
  target_set = models_at sets idx;
  set_name = elim (get_elem? sets idx) [ none ↦ "" | some es ↦ es.set_name ];
  dsl = elim (get_elem? sets idx) [ none ↦ "" | some es ↦ es.dsl ];
  total_cost = cost;
}

abbrev pub chosen_set : List ExpandedSet → List (String × ℕ) → String → List String → Option (ℕ × ℕ)
chosen_set sets costs requested running =
    choose (λ idx. cost_of costs (models_at sets idx) running) (sets_with requested sets) none

-- `Solve`
unfoldable pub solve : List ExpandedSet → List (String × ℕ) → String → List String → SolveResult
solve sets costs requested running =
    if contains running requested
    then keep_running sets requested running
    else elim (chosen_set sets costs requested running) [
      | none ↦ run_alone requested running
      | some best ↦ run_in sets running best
    ]
