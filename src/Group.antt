-- ===== src/Group.antt =====
-- internal/router/group.go and matrix.go: the two planners that the run loop asks for evictions.
-- The order in which Go walks the map of the processes is that of the list.
pub mod Evictions
pub mod Samples
use llama_skein.Base.{
  String, Bool, true, false, not, ◌&&◌, Option, none, some, List, [], ◌∷◌, ◌++◌, if◌then◌else◌,
}
use llama_skein.Base.Maps.{lookup, contains, string_eq, ◌=?◌}
use llama_skein.Router.{ProcessState, stopped, starting, ready, stopping, shutdown, failed}
use llama_skein.Matrix.{ExpandedSet, solve}
use llama_skein.Base.Sorting.{sort}
use llama_skein.Base.{ℕ}

-- config.GroupConfig, with the fields that the planner reads.
pub record GroupConfig : Type 0 where
  pub swap : Bool
  pub exclusive : Bool
  pub persistent : Bool

abbrev pub or_default : Option GroupConfig → GroupConfig
or_default none = record { swap = false; exclusive = false; persistent = false }
or_default (some g) = g

abbrev pub or_empty : Option String → String
or_empty none = ""
or_empty (some g) = g

-- `config.Groups` and `modelToGroup`
pub record Groups : Type 0 where
  pub configs : List (String × GroupConfig)
  pub group_of : List (String × String)

abbrev pub group_id : Groups → String → String
group_id g m = or_empty (lookup m g.group_of)

abbrev pub group_config : Groups → String → GroupConfig
group_config g id = or_default (lookup id g.configs)

-- The switch of `consider`.
unfoldable pub evicts : Groups → String → String → Bool
evicts g target m =
    let tg = group_id g target in
    let og = group_id g m in
    if og =? tg
    then (group_config g tg).swap
    else (group_config g tg).exclusive && not (group_config g og).persistent

-- `consider`: `seen` has the models that are in `result`.
unfoldable pub consider : Groups → String → String → List String → List String
consider g target m result =
    if m =? target
    then result
    else (if contains result m
        then result
        else (if evicts g target m then result ++ m ∷ [] else result))

unfoldable pub consider_all : Groups → String → List String → List String → List String
consider_all g target [] result = result
consider_all g target (m ∷ ms) result = consider_all g target ms (consider g target m result)

-- Neither stopped, shut down nor failed.
abbrev pub is_live : ProcessState → Bool
is_live stopped = false
is_live shutdown = false
is_live failed = false
is_live _ = true

unfoldable pub live_models : List (String × ProcessState) → List String
live_models [] = []
live_models ((m, st) ∷ rest) = if is_live st then m ∷ live_models rest else live_models rest

-- `groupPlanner.EvictionFor`
unfoldable pub group_eviction :
    Groups → List (String × ProcessState) → String → List String → List String
group_eviction g processes target also_running =
    consider_all g target also_running (consider_all g target (live_models processes) [])

-- The second loop of `runningSet`; `seen` has the models that are in `running`.
unfoldable pub add_running : List String → List String → List String
add_running running [] = running
add_running running (m ∷ also) =
    add_running (if contains running m then running else running ++ m ∷ []) also

-- `runningSet`
unfoldable pub running_set : List (String × ProcessState) → List String → List String
running_set processes also_running = sort (add_running (live_models processes) also_running)

-- `matrixPlanner.EvictionFor`
unfoldable pub matrix_eviction :
    List ExpandedSet
    → List (String × ℕ)
    → List (String × ProcessState)
    → String
    → List String
    → List String
matrix_eviction sets costs processes target also_running =
    (solve sets costs target (running_set processes also_running)).evict
