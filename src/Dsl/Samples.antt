-- ===== src/Dsl/Samples.antt =====
-- An expression of the swap matrix for internal/config/matrix_dsl.go: tests, and the theorems at
-- concrete inputs.
use llama_skein.Base.{◌≡◌, refl, [], ◌∷◌}
use llama_skein.Base.Maps.{lookup, contains, string_eq}
use llama_skein.Base.Sorting.{sort, insert_sorted}
use llama_skein.Dsl.{
  Node, leaf_node, ref_node, or_node, and_node, nil, child, Combos, Refs, ok, failed, unknown_ref,
  cartesian_product, expand, dedup_and_sort, dedup_from,
}
use Prim.Native.Char.{code}
use llama_skein.Base.{◌&&◌, leb, ◌==◌, List, some}
use llama_skein.Dsl.Parser.{Token, ident, and_op, or_op, eof, parsed, parse, parse_or_expr}
use llama_skein.Dsl.Lexer.{Unicode, lexed, tokenize, lex, class_of, is_ident_char, span_ident}
use llama_skein.Dsl.Pipeline.{sets, parse_and_expand_dsl, trim_space, extract_refs, refs_from}
use llama_skein.Dsl.Pipeline.Sets.{FromTree, parse_and_expand_dsl-FromTree}

-- (chat | code) & +voices
abbrev work : Node
work = and_node (
    child (or_node (child (leaf_node "chat") (child (leaf_node "code") nil)))
      (child (ref_node "voices") nil))

abbrev refs : Refs
refs = ("voices", ("piper" ∷ []) ∷ []) ∷ []

abbrev work_sets : Combos
work_sets = ("chat" ∷ "piper" ∷ []) ∷ ("code" ∷ "piper" ∷ []) ∷ []

work_expands : expand work refs ≡ ok work_sets
unfolding expand cartesian_product lookup
work_expands = refl

unknown_fails : expand (ref_node "none") refs ≡ failed (unknown_ref "none")
unfolding expand lookup
unknown_fails = refl

sorts : dedup_and_sort ("b" ∷ "a" ∷ "b" ∷ []) ≡ "a" ∷ "b" ∷ []
unfolding dedup_and_sort dedup_from sort insert_sorted contains
sorts = refl

-- The letters and digits of ASCII, and the space.
abbrev ascii : Unicode
ascii = record {
  is_letter = λ c. leb b'a' (code c) && leb (code c) b'z';
  is_digit = λ c. leb b'0' (code c) && leb (code c) b'9';
  is_space = λ c. code c == 32;
}

abbrev mixed : List Token
mixed = ident "a" ∷ or_op ∷ ident "b" ∷ and_op ∷ ident "c" ∷ eof ∷ []

mixed_lexed : tokenize ascii "a | b&c" ≡ lexed mixed
unfolding tokenize lex class_of is_ident_char span_ident
mixed_lexed = refl

-- The conjunction binds tighter.
mixed_parsed :
    parse mixed
    ≡ parsed
        (or_node (
          child
            (leaf_node "a")
            (child (and_node (child (leaf_node "b") (child (leaf_node "c") nil))) nil)))
        (eof ∷ [])
unfolding parse parse_or_expr
mixed_parsed = refl

expression_expands :
    parse_and_expand_dsl ascii " (b | a) & +voices" refs
    ≡ sets (("b" ∷ "piper" ∷ []) ∷ ("a" ∷ "piper" ∷ []) ∷ [])
unfolding parse_and_expand_dsl trim_space tokenize lex class_of is_ident_char span_ident parse
    parse_or_expr expand cartesian_product lookup dedup_and_sort dedup_from sort insert_sorted
    contains
expression_expands = refl

refs_found : extract_refs ascii "a & +voices | +voices" ≡ some ("voices" ∷ [])
unfolding extract_refs refs_from tokenize lex class_of is_ident_char span_ident contains
refs_found = refl

parse_and_expand_dsl-FromTree_example :
    FromTree ascii
      (trim_space ascii " (b | a) & +voices")
      refs
      (parse_and_expand_dsl ascii " (b | a) & +voices" refs)
parse_and_expand_dsl-FromTree_example =
    parse_and_expand_dsl-FromTree ascii " (b | a) & +voices" refs
