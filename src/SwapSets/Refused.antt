-- ===== src/SwapSets/Refused.antt =====
-- Which errors `ValidateMatrix` of internal/config/matrix.go may return: none of them is that a step of
-- it did not end.
use llama_skein.Base.{
  ◌≡◌, ◌≢◌, ◌⊎◌, inl, inr, refl, subst, String, Option, none, some, List, [], ◌∷◌, In, Nothing,
}
use llama_skein.Base.Maps.{insert, string_eq}
use llama_skein.Dsl.Lexer.{Unicode, missing_name, unexpected, tokenize}
use llama_skein.Dsl.Lexer.Fuel.{tokenize-ends}
use llama_skein.Dsl.Pipeline.{trim_space, exhausted, parse_and_expand_dsl, extract_refs}
use llama_skein.Dsl.Pipeline.Sets.{FromTree, parse_and_expand_dsl-FromTree}
use llama_skein.SwapSets.{
  SetEntry, MatrixError, bad_expression, not_expanded, out_of_fuel, first_undefined, Graph, graph,
  no_graph, entry_refs, refs_or_nil, dependencies,
}

-- The tokenizer refuses the text: for a `+` without a name, or for a character.
abbrev pub BadText : Unicode → String → Type 0
BadText u dsl = (tokenize u dsl ≡ missing_name) ⊎ (tokenize u dsl ≡ unexpected)

-- The error is one that the source has: no run was cut off, and an expression that has no tokens is
-- the one of a set with that name.
abbrev pub Refused : Unicode → List SetEntry → MatrixError → Type 0
Refused u sets out_of_fuel = Nothing
Refused u sets (not_expanded name failure) = failure ≢ exhausted
Refused u sets (bad_expression name) =
    (entry : SetEntry) × In entry sets × (entry.name ≡ name) × BadText u entry.dsl
Refused u sets _ = Unit

pub extract_refs-BadText : (u : Unicode) (dsl : String) → extract_refs u dsl ≡ none → BadText u dsl
unfolding extract_refs
extract_refs-BadText u dsl e = elim (tokenize-ends u dsl) [
  | inl (ts, p) ↦ absurd (cc (rw p at e))
  | inr b ↦ b
]

pub parse_and_expand_dsl-ends :
    (u : Unicode) (dsl : String) (refs : List (String × List (List String)))
    → parse_and_expand_dsl u dsl refs ≢ exhausted
parse_and_expand_dsl-ends u dsl refs e =
    elim (subst (FromTree u (trim_space u dsl) refs) e
      (parse_and_expand_dsl-FromTree u dsl refs)) [ ]

abbrev pub GraphRefused : Unicode → List SetEntry → Graph → Type 0
GraphRefused u sets (graph deps) = Unit
GraphRefused u sets (no_graph e) = Refused u sets e

pub dependencies-Refused :
    (u : Unicode) (sets : List SetEntry) (names : List String) (entries : List SetEntry)
    (deps : List (String × List String))
    → ((entry : SetEntry) → In entry entries → In entry sets)
    → GraphRefused u sets (dependencies u names entries deps)
unfolding dependencies
dependencies-Refused u sets names [] deps w = tt
dependencies-Refused u sets names (entry ∷ entries) deps w =
    at_refs (extract_refs u entry.dsl) refl _ (
      dependencies-Refused u sets names entries
        (insert entry.name (refs_or_nil (extract_refs u entry.dsl)) deps) (λ x i. w x (inr i)))
  where
    at_undefined :
        (o : Option String) (g : Graph)
        → GraphRefused u sets g
        → GraphRefused u sets
            (elim o [ some ref ↦ no_graph (MatrixError.undefined_set ref) | none ↦ g ])
    at_undefined none g h = h
    at_undefined (some r) g h = tt

    at_refs :
        (refs : Option (List String))
        → extract_refs u entry.dsl ≡ refs
        → (g : Graph) → GraphRefused u sets g
        → GraphRefused u sets (entry_refs names entry refs g)
    at_refs none e g h = (entry, w entry (inl refl), refl, extract_refs-BadText u entry.dsl e)
    at_refs (some found) e g h = at_undefined (first_undefined names found) g h
