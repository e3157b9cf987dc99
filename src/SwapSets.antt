-- ===== src/SwapSets.antt =====
-- internal/config/matrix.go: the checks on the swap matrix, the order in which its sets are
-- expanded, and their expansion. A Go map is an association list; a cost that is not positive is 0.
-- The texts of the errors are left out, and an error keeps the name it is about.
pub mod Checks
pub mod Marks
pub mod Order
pub mod Sorted
pub mod Dependencies
pub mod Expansion
pub mod References
pub mod Refused
pub mod Samples
use llama_skein.Base.{
  ℕ, zero, suc, ◌+◌, String, Bool, true, false, ◌||◌, ◌&&◌, Option, none, some, List, [], ◌∷◌, ◌++◌,
  ltb, leb, ◌==◌, length, if◌then◌else◌,
}
use llama_skein.Base.Maps.{lookup, insert, contains, keys, string_eq}
use llama_skein.Base.Sorting.{sort}
use llama_skein.Base.Text.{codes}
use llama_skein.Operation.Source.{is_alphanumeric, all}
use llama_skein.Dsl.{Combos, Refs, max_dsl_expansions}
use llama_skein.Dsl.Lexer.{Unicode}
use llama_skein.Dsl.Pipeline.{DslResult, sets, parse_and_expand_dsl, extract_refs}
use llama_skein.Matrix.{ExpandedSet}

pub record SetEntry : Type 0 where
  pub name : String
  pub dsl : String

pub record MatrixConfig : Type 0 where
  pub vars : List (String × String)
  pub evict_costs : List (String × ℕ)
  pub sets : List SetEntry

pub data MatrixError : Type 0 where
  no_sets no_vars : MatrixError
  bad_var_key unknown_model bad_cost unknown_cost_var : String → MatrixError
  bad_expression undefined_set circular unknown_var : String → MatrixError
  not_expanded : String → DslResult → MatrixError
  too_many_sets : MatrixError
  out_of_fuel : MatrixError

-- `varKeyPattern`
abbrev pub is_var_key : String → Bool
is_var_key id =
    let cs = codes id in leb 1 (length cs) && leb (length cs) 8 && all is_alphanumeric cs

-- The loop over the vars.
unfoldable pub check_vars : List String → List (String × String) → Option MatrixError
check_vars models [] = none
check_vars models ((id, model) ∷ vars) =
    let rest = check_vars models vars in
    if is_var_key id
    then (if contains models model then rest else some (unknown_model model))
    else some (bad_var_key id)

-- The loop over the costs.
unfoldable pub check_costs : List (String × String) → List (String × ℕ) → Option MatrixError
check_costs vars [] = none
check_costs vars ((key, cost) ∷ costs) =
    let rest = check_costs vars costs in
    if cost == 0
    then some (bad_cost key)
    else (if contains (keys vars) key then rest else some (unknown_cost_var key))

-- `setNames`
abbrev pub set_names : List SetEntry → List String
set_names [] = []
set_names (entry ∷ entries) = entry.name ∷ set_names entries

-- The first reference that names no set.
unfoldable pub first_undefined : List String → List String → Option String
first_undefined names [] = none
first_undefined names (ref ∷ refs) =
    let rest = first_undefined names refs in if contains names ref then rest else some ref

pub data Graph : Type 0 where
  graph : List (String × List String) → Graph
  no_graph : MatrixError → Graph

-- What one entry gives for `deps`.
abbrev pub entry_refs : List String → SetEntry → Option (List String) → Graph → Graph
entry_refs names entry refs rest = elim refs [
  | none ↦ no_graph (bad_expression entry.name)
  | some found ↦ elim (first_undefined names found) [
    | some ref ↦ no_graph (undefined_set ref)
    | none ↦ rest
  ]
]

abbrev pub refs_or_nil : Option (List String) → List String
refs_or_nil none = []
refs_or_nil (some refs) = refs

-- The loop that fills `deps`.
unfoldable pub dependencies :
    Unicode → List String → List SetEntry → List (String × List String) → Graph
unfolding first_undefined
dependencies u names [] deps = graph deps
dependencies u names (entry ∷ entries) deps =
    entry_refs names entry (extract_refs u entry.dsl) (
      dependencies u names entries
        (insert entry.name (refs_or_nil (extract_refs u entry.dsl)) deps))

-- The states 1 and 2 of a name; 0 is a name without an entry.
pub data Mark : Type 0 where
  visiting visited : Mark

-- `state` and `order`
pub record Walk : Type 0 where
  pub state : List (String × Mark)
  pub order : List String

pub data Visit : Type 0 where
  walked : Walk → Visit
  cycle : String → Visit
  starved : Visit

-- `deps[name]`
unfoldable pub deps_of : List (String × List String) → String → List String
deps_of deps name = elim (lookup name deps) [ none ↦ [] | some refs ↦ refs ]

-- A loop that visits names until there is an error.
unfoldable pub visit_each : (String → Walk → Visit) → List String → Walk → Visit
visit_each visit [] w = walked w
visit_each visit (name ∷ names) w = elim (visit name w) [
  | walked w' ↦ visit_each visit names w'
  | cycle s ↦ cycle s
  | starved ↦ starved
]

-- The end of `visit`.
abbrev pub finish_visit : String → Visit → Visit
finish_visit name (walked w) =
    walked (record { state = insert name visited w.state; order = w.order ++ name ∷ [] })
finish_visit name (cycle s) = cycle s
finish_visit name starved = starved

-- `visit`
unfoldable pub visit : ℕ → List (String × List String) → String → Walk → Visit
unfolding visit_each deps_of
visit zero deps name w = starved
visit (suc fuel) deps name w = elim (lookup name w.state) [
  | some visiting ↦ cycle name
  | some visited ↦ walked w
  | none ↦ finish_visit name (
      visit_each (visit fuel deps) (deps_of deps name)
        (record w { state = insert name visiting w.state }))
]

-- The loop over the sets: a name that was seen is passed over.
abbrev pub visit_unseen : ℕ → List (String × List String) → String → Walk → Visit
visit_unseen fuel deps name w = elim (lookup name w.state) [
  | none ↦ visit fuel deps name w
  | some _ ↦ walked w
]

-- `topologicalSort`, on fuel: more than there are sets.
unfoldable pub topological_sort : List String → List (String × List String) → Visit
unfolding visit
topological_sort names deps =
    visit_each (visit_unseen (suc (length names)) deps) names (record { state = []; order = [] })

pub data Named : Type 0 where
  all_named : List String → Named
  unknown : String → Named

-- The loop that fills `resolved`.
unfoldable pub real_names : List (String × String) → List String → Named
real_names vars [] = all_named []
real_names vars (ident ∷ combo) = elim (lookup ident vars) [
  | none ↦ unknown ident
  | some model ↦ elim (real_names vars combo) [
    | all_named ms ↦ all_named (model ∷ ms)
    | unknown i ↦ unknown i
  ]
]

pub data Validated : Type 0 where
  valid : List ExpandedSet → Validated
  invalid : MatrixError → Validated

-- The loop over the combinations of a set; `found` is `allExpanded`.
unfoldable pub name_combos :
    List (String × String) → String → String → Combos → List ExpandedSet → Validated
unfolding real_names
name_combos vars name dsl [] found = valid found
name_combos vars name dsl (combo ∷ combos) found = elim (real_names vars combo) [
  | unknown i ↦ invalid (unknown_var i)
  | all_named ms ↦
      name_combos vars name dsl combos
        (found ++ record { set_name = name; dsl = dsl; models = sort ms } ∷ [])
]

-- `setDSL`
abbrev pub set_dsl : List SetEntry → List (String × String) → List (String × String)
set_dsl [] table = table
set_dsl (entry ∷ entries) table = set_dsl entries (insert entry.name entry.dsl table)

abbrev pub text_or_empty : Option String → String
text_or_empty none = ""
text_or_empty (some dsl) = dsl

-- The loop over the names in their order.
unfoldable pub expand_sets :
    Unicode
    → List (String × String)
    → List (String × String)
    → List String
    → Refs
    → List ExpandedSet
    → ℕ
    → Validated
unfolding name_combos
expand_sets u vars dsls [] refs found total = valid found
expand_sets u vars dsls (name ∷ order) refs found total =
    let dsl = text_or_empty (lookup name dsls) in
    elim (parse_and_expand_dsl u dsl refs) [
      | sets combos ↦ elim (name_combos vars name dsl combos found) [
        | invalid e ↦ invalid e
        | valid found' ↦
            let rest =
              expand_sets u vars dsls order (insert name combos refs) found'
                (total + length combos) in
            if ltb max_dsl_expansions (total + length combos) then invalid too_many_sets else rest
      ]
      | failure ↦ invalid (not_expanded name failure)
    ]

-- The sets in their order.
abbrev pub expand_order : Unicode → MatrixConfig → Visit → Validated
expand_order u matrix (walked w) =
    expand_sets u matrix.vars (set_dsl matrix.sets []) w.order [] [] 0
expand_order u matrix (cycle name) = invalid (circular name)
expand_order u matrix starved = invalid out_of_fuel

abbrev pub expand_graph : Unicode → MatrixConfig → Graph → Validated
expand_graph u matrix (graph deps) =
    expand_order u matrix (topological_sort (set_names matrix.sets) deps)
expand_graph u matrix (no_graph e) = invalid e

abbrev pub unless_invalid : Option MatrixError → Validated → Validated
unless_invalid none rest = rest
unless_invalid (some e) rest = invalid e

-- `ValidateMatrix`, with the names of the configured models.
unfoldable pub validate_matrix : Unicode → MatrixConfig → List String → Validated
unfolding check_vars check_costs dependencies expand_sets topological_sort
validate_matrix u matrix models =
    if leb (length matrix.sets) 0
    then invalid no_sets
    else (if leb (length matrix.vars) 0
        then invalid no_vars
        else unless_invalid (check_vars models matrix.vars) (
            unless_invalid (check_costs matrix.vars matrix.evict_costs)
              (expand_graph u matrix (dependencies u (set_names matrix.sets) matrix.sets []))))

-- `ResolvedEvictCosts`
unfoldable pub resolved_evict_costs :
    List (String × String) → List (String × ℕ) → List (String × ℕ) → List (String × ℕ)
resolved_evict_costs vars [] costs = costs
resolved_evict_costs vars ((key, cost) ∷ rest) costs = elim (lookup key vars) [
  | some model ↦ resolved_evict_costs vars rest (insert model cost costs)
  | none ↦ resolved_evict_costs vars rest (insert key cost costs)
]
