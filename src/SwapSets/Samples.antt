-- ===== src/SwapSets/Samples.antt =====
-- The checks on a swap matrix of internal/config/matrix.go at concrete configurations: tests, and the
-- theorems at them.
use Prim.Native.Char.{code}
use llama_skein.Base.{arith}
use llama_skein.Base.{◌≡◌, ◌↔◌, refl, inr, String, ◌&&◌, ◌==◌, leb, List, [], ◌∷◌, In}
use llama_skein.Base.Maps.{lookup, insert, contains, string_eq}
use llama_skein.Base.Sorting.{sort, insert_sorted}
use llama_skein.Dsl.{expand, cartesian_product, dedup_and_sort, dedup_from}
use llama_skein.Dsl.Parser.{parse, parse_or_expr}
use llama_skein.Dsl.Lexer.{Unicode, tokenize, lex, class_of, is_ident_char, span_ident}
use llama_skein.Dsl.Pipeline.{parse_and_expand_dsl, trim_space, extract_refs, refs_from}
use llama_skein.SwapSets.{
  MatrixConfig, walked, cycle, Walk, deps_of, visit_each, visit, topological_sort, valid,
  check_vars, check_costs, dependencies, first_undefined, real_names, name_combos, expand_sets,
  validate_matrix, resolved_evict_costs,
}
use llama_skein.SwapSets.Marks.{Refers}
use llama_skein.SwapSets.Sorted.{Sorted, topological_sort-Sorted, topological_sort-walked_iff}
use llama_skein.SwapSets.Dependencies.{ClosedIn, no_references, insert-ClosedIn}
use llama_skein.Dsl.Pipeline.Blanks.{Separate}
use llama_skein.SwapSets.References.{Resolves, validate_matrix-Resolves}
use llama_skein.SwapSets.Expansion.{Checked, validate_matrix-Checked}

abbrev ascii : Unicode
ascii = record {
  is_letter = λ c. leb b'a' (code c) && leb (code c) b'z';
  is_digit = λ c. leb b'0' (code c) && leb (code c) b'9';
  is_space = λ c. code c == 32;
}

-- Two sets, of which the first refers to the second.
abbrev two_sets : MatrixConfig
two_sets = record {
  vars = ("c", "chat-7b") ∷ ("v", "voice-1b") ∷ [];
  evict_costs = ("c", 5) ∷ [];
  sets = record { name = "all"; dsl = "c & +small" } ∷ record { name = "small"; dsl = "v" } ∷ [];
}

both_expanded :
    validate_matrix ascii two_sets ("chat-7b" ∷ "voice-1b" ∷ [])
    ≡ valid (
        record { set_name = "small"; dsl = "v"; models = "voice-1b" ∷ [] }
        ∷ record { set_name = "all"; dsl = "c & +small"; models = "chat-7b" ∷ "voice-1b" ∷ [] }
        ∷ [])
unfolding validate_matrix check_vars check_costs dependencies first_undefined topological_sort visit
    visit_each deps_of expand_sets name_combos real_names parse_and_expand_dsl trim_space
    extract_refs refs_from tokenize lex class_of is_ident_char span_ident parse parse_or_expr expand
    cartesian_product dedup_and_sort dedup_from sort insert_sorted lookup insert contains
both_expanded = refl

-- Two sets that refer to each other.
abbrev round_trip : List (String × List String)
round_trip = ("a", "b" ∷ []) ∷ ("b", "a" ∷ []) ∷ []

no_order : topological_sort ("a" ∷ "b" ∷ []) round_trip ≡ cycle "a"
unfolding topological_sort visit visit_each deps_of lookup insert
no_order = refl

costs_by_model : resolved_evict_costs two_sets.vars two_sets.evict_costs [] ≡ ("chat-7b", 5) ∷ []
unfolding resolved_evict_costs lookup insert
costs_by_model = refl

-- The references of `two_sets`.
abbrev small_first : List (String × List String)
small_first = ("small", []) ∷ ("all", "small" ∷ []) ∷ []

small_first-ClosedIn : ClosedIn ("all" ∷ "small" ∷ []) small_first
unfolding insert
small_first-ClosedIn =
    let both = "all" ∷ "small" ∷ [] in
    insert-ClosedIn both "all" ("small" ∷ []) (("small", []) ∷ []) (λ r i. inr i)
      (insert-ClosedIn both "small" [] [] (λ r i. elim i [ ]) (no_references both))

topological_sort-Sorted_example :
    Sorted small_first ("all" ∷ "small" ∷ []) (topological_sort ("all" ∷ "small" ∷ []) small_first)
topological_sort-Sorted_example =
    topological_sort-Sorted small_first ("all" ∷ "small" ∷ []) small_first-ClosedIn

topological_sort-walked_iff_example :
    ((w : Walk) × (topological_sort ("all" ∷ "small" ∷ []) small_first ≡ walked w))
    ↔ ((v : String) → In v ("all" ∷ "small" ∷ []) → ¬ Refers small_first v v)
topological_sort-walked_iff_example =
    topological_sort-walked_iff small_first ("all" ∷ "small" ∷ []) small_first-ClosedIn

validate_matrix-Checked_example :
    Checked ascii two_sets
      ("chat-7b" ∷ "voice-1b" ∷ [])
      (validate_matrix ascii two_sets ("chat-7b" ∷ "voice-1b" ∷ []))
validate_matrix-Checked_example =
    validate_matrix-Checked ascii two_sets ("chat-7b" ∷ "voice-1b" ∷ [])

ascii-Separate : Separate ascii
unfolding is_ident_char
ascii-Separate c h = ground arith

validate_matrix-Resolves_example :
    Resolves (validate_matrix ascii two_sets ("chat-7b" ∷ "voice-1b" ∷ []))
validate_matrix-Resolves_example =
    validate_matrix-Resolves ascii two_sets ("chat-7b" ∷ "voice-1b" ∷ []) ascii-Separate
