-- ===== src/Dsl.antt =====
-- internal/config/matrix_dsl.go: the sets that an expression of the swap matrix stands for.
pub mod Meaning
pub mod References
pub mod Parser
pub mod Lexer
pub mod Pipeline
pub mod Samples
use llama_skein.Base.{
  ℕ, ◌+◌, ◌*◌, String, Bool, true, false, Option, none, some, List, [], ◌∷◌, ◌++◌, ltb, length,
  if◌then◌else◌,
}
use llama_skein.Base.Maps.{lookup, contains, string_eq}
use llama_skein.Base.Sorting.{sort}

-- `dslNode`, and the children of a node.
mutual
  pub data Node : Type 0 where
    leaf_node : String → Node
    ref_node : String → Node
    or_node : Children → Node
    and_node : Children → Node

  pub data Children : Type 0 where
    nil : Children
    child : Node → Children → Children

-- A set of combinations of models.
abbrev pub Combos : Type 0
Combos = List (List String)

-- `resolvedRefs`
abbrev pub Refs : Type 0
Refs = List (String × Combos)

pub data ExpandError : Type 0 where
  unknown_ref : String → ExpandError
  too_many : ExpandError

pub data Expanded : Type 0 where
  ok : Combos → Expanded
  failed : ExpandError → Expanded

abbrev pub max_dsl_expansions : ℕ
max_dsl_expansions = 1000

-- The inner loop of `cartesianProduct`.
abbrev pub join_each : List String → Combos → Combos
join_each l [] = []
join_each l (r ∷ right) = (l ++ r) ∷ join_each l right

-- The loops of `cartesianProduct`.
abbrev pub product : Combos → Combos → Combos
product [] right = []
product (l ∷ left) right = join_each l right ++ product left right

-- `cartesianProduct`
unfoldable pub cartesian_product : Combos → Combos → ℕ → Expanded
cartesian_product left right cap =
    if ltb cap (length left * length right) then failed too_many else ok (product left right)

abbrev pub resolved : String → Option Combos → Expanded
resolved set_name none = failed (unknown_ref set_name)
resolved set_name (some expanded) = ok expanded

-- `expand`, and its loops over the children with the variable `result`.
unfoldable mutual
  pub expand : Node → Refs → Expanded
  expand (leaf_node name) refs = ok ((name ∷ []) ∷ [])
  expand (ref_node set_name) refs = resolved set_name (lookup set_name refs)
  expand (or_node children) refs = expand_or children refs []
  expand (and_node children) refs = expand_and children refs ([] ∷ [])

  pub expand_or : Children → Refs → Combos → Expanded
  expand_or nil refs result = ok result
  expand_or (child c cs) refs result = elim (expand c refs) [
    | failed e ↦ failed e
    | ok child_result ↦
        let joined = result ++ child_result in
        if ltb max_dsl_expansions (length joined) then failed too_many else expand_or cs refs joined
  ]

  pub expand_and : Children → Refs → Combos → Expanded
  expand_and nil refs result = ok result
  expand_and (child c cs) refs result = elim (expand c refs) [
    | failed e ↦ failed e
    | ok child_result ↦ elim (cartesian_product result child_result max_dsl_expansions) [
      | failed e ↦ failed e
      | ok joined ↦ expand_and cs refs joined
    ]
  ]

-- The loop of `dedupAndSort`; `seen` has the items that are in `unique`.
unfoldable pub dedup_from : List String → List String → List String
dedup_from unique [] = unique
dedup_from unique (item ∷ items) =
    dedup_from (if contains unique item then unique else unique ++ item ∷ []) items

-- `dedupAndSort`
unfoldable pub dedup_and_sort : List String → List String
dedup_and_sort items = sort (dedup_from [] items)
