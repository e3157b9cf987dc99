-- ===== src/Matrix/Samples.antt =====
-- A matrix of two sets for internal/router/matrix_solver.go: tests, and the theorems at concrete inputs.
use llama_skein.Base.{
  ℕ, ◌<◌, arith, ◌≡◌, inl, refl, String, true, false, some, List, [], ◌∷◌, get_elem?, In,
}
use llama_skein.Base.Maps.{lookup, contains, string_eq}
use llama_skein.Matrix.{
  ExpandedSet, solve, cost_of, evict_cost, occurrences, sets_with_from, models_at, better, choose,
  chosen_set, run_in,
}
use llama_skein.Matrix.Choice.{Preferred}
use llama_skein.Matrix.Optimal.{bill, left_out, solve-optimal}

abbrev with_chat : ExpandedSet
with_chat = record { set_name = "talk"; dsl = "chat & voice"; models = "chat" ∷ "voice" ∷ [] }

abbrev with_code : ExpandedSet
with_code = record { set_name = "work"; dsl = "code & voice"; models = "code" ∷ "voice" ∷ [] }

abbrev sets : List ExpandedSet
sets = with_chat ∷ with_code ∷ []

abbrev costs : List (String × ℕ)
costs = ("chat", 5) ∷ []

-- `voice` fits both sets: the one that keeps `chat` costs less.
abbrev running : List String
running = "chat" ∷ "code" ∷ []

voice_not_running : contains running "voice" ≡ false
unfolding contains
voice_not_running = refl

voice_in_code : contains with_code.models "voice" ≡ true
unfolding contains
voice_in_code = refl

voice_choice : chosen_set sets costs "voice" running ≡ some (1, 0)
unfolding choose better sets_with_from occurrences models_at cost_of evict_cost contains lookup
voice_choice = refl

code_evicted : (solve sets costs "voice" running).evict ≡ "code" ∷ []
unfolding solve run_in choose better sets_with_from occurrences models_at cost_of evict_cost
    contains lookup
code_evicted = refl

code_is_evicted : In "code" (solve sets costs "voice" running).evict
unfolding solve run_in choose better sets_with_from occurrences models_at cost_of evict_cost
    contains lookup
code_is_evicted = inl refl

costs_in_range : bill costs running < 9223372036854775808
unfolding lookup
costs_in_range = omega arith

-- Two costs whose sum wraps around: the set that keeps nothing looks cheaper than the one that costs 7.
abbrev huge_costs : List (String × ℕ)
huge_costs = ("chat", 9223372036854775807) ∷ ("code", 9223372036854775807) ∷ ("music", 7) ∷ []

abbrev with_both : ExpandedSet
with_both = record {
  set_name = "both";
  dsl = "voice & chat & code";
  models = "voice" ∷ "chat" ∷ "code" ∷ [];
}

wraps_choice :
    chosen_set
      (with_both ∷ record with_code { models = "voice" ∷ [] } ∷ [])
      huge_costs
      "voice"
      ("chat" ∷ "code" ∷ "music" ∷ [])
    ≡ some (5, 1)
unfolding choose better sets_with_from occurrences models_at cost_of evict_cost contains lookup
wraps_choice = refl

solve-optimal_example :
    (j : ℕ) × (best : ExpandedSet) × (get_elem? sets j ≡ some best)
    × (contains best.models "voice" ≡ true)
    × ((solve sets costs "voice" running).target_set ≡ best.models)
    × ((solve sets costs "voice" running).evict ≡ left_out best.models running)
    × ((solve sets costs "voice" running).total_cost ≡ bill costs (left_out best.models running))
    × Preferred
        ((solve sets costs "voice" running).total_cost, j)
        (bill costs (left_out with_code.models running), 1)
solve-optimal_example =
    solve-optimal sets costs "voice" running 1 with_code costs_in_range voice_not_running refl
      voice_in_code
