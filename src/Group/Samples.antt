-- ===== src/Group/Samples.antt =====
-- Three models in two groups for the planners of internal/router: tests, and the theorems at concrete
-- inputs.
use llama_skein.Base.{◌≡◌, ◌≢◌, ◌⊎◌, ◌↔◌, refl, String, true, false, List, [], ◌∷◌, In}
use llama_skein.Base.Maps.{lookup, contains, string_eq}
use llama_skein.Router.{ProcessState, ready, failed}
use llama_skein.Group.{Groups, group_eviction, consider, consider_all, evicts, live_models}
use llama_skein.Group.Evictions.{IsUp, MakesWay, group_eviction_iff}

abbrev groups : Groups
groups = record {
  configs =
      ("large", record { swap = true; exclusive = true; persistent = false })
      ∷ ("pinned", record { swap = false; exclusive = false; persistent = true })
      ∷ [];
  group_of = ("chat", "large") ∷ ("code", "large") ∷ ("embed", "pinned") ∷ [];
}

abbrev processes : List (String × ProcessState)
processes = ("chat", ready) ∷ ("code", failed) ∷ ("embed", ready) ∷ []

code_evicts : group_eviction groups processes "code" [] ≡ "chat" ∷ []
unfolding group_eviction consider consider_all evicts live_models lookup contains
code_evicts = refl

group_eviction_iff_example : In "chat" (group_eviction groups processes "code" []) ↔ (
    (IsUp processes "chat" ⊎ In {A = String} "chat" [])
    × ◌≢◌ {A = String} "chat" "code"
    × MakesWay groups "code" "chat")
group_eviction_iff_example = group_eviction_iff groups processes "code" [] "chat"
