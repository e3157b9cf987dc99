-- ===== src/SwapSets/Dependencies.antt =====
-- The graph of references that `ValidateMatrix` of internal/config/matrix.go builds.
use llama_skein.Base.{
  ◌≡◌, ◌≢◌, inl, inr, refl, sym, subst, String, Option, none, some, List, [], ◌∷◌, In, Bool-cases,
}
use llama_skein.Base.Maps.{
  lookup, insert, lookup-insert, contains, In-contains, string_eq, eq_cases,
}
use llama_skein.Dsl.Lexer.{Unicode}
use llama_skein.Dsl.Pipeline.{extract_refs}
use llama_skein.SwapSets.{
  SetEntry, MatrixError, first_undefined, Graph, graph, no_graph, entry_refs, refs_or_nil,
  dependencies, deps_of,
}

first_undefined-none :
    (names refs : List String)
    → first_undefined names refs ≡ none
    → (r : String) → In r refs
    → In r names
unfolding first_undefined
first_undefined-none names [] h r i = elim i [ ]
first_undefined-none names (ref ∷ refs) h r i = elim (Bool-cases (contains names ref)) [
  | inr b ↦ cc (rw b at h)
  | inl b ↦ elim i [
    | inl e ↦ subst (λ x. In x names) (sym e) (In-contains names ref b)
    | inr j ↦ first_undefined-none names refs (rw b at h) r j
  ]
]

-- Each reference of the graph is to a set.
abbrev pub ClosedIn : List String → List (String × List String) → Type 0
ClosedIn names deps = (a b : String) → In b (deps_of deps a) → In b names

abbrev pub GraphIn : List String → Graph → Type 0
GraphIn names (graph deps) = ClosedIn names deps
GraphIn names (no_graph e) = e ≢ MatrixError.out_of_fuel

pub no_references : (names : List String) → ClosedIn names []
unfolding deps_of lookup
no_references names a b i = elim i [ ]

pub insert-ClosedIn :
    (names : List String) (name : String) (refs : List String) (deps : List (String × List String))
    → ((r : String) → In r refs → In r names)
    → ClosedIn names deps
    → ClosedIn names (insert name refs deps)
unfolding deps_of
insert-ClosedIn names name refs deps h c a b i = elim (eq_cases name a) [
  | inl p ↦ h b (rw (deps_of, lookup-insert name a refs deps, p.1) at i)
  | inr p ↦ c a b (rw (deps_of, lookup-insert name a refs deps, p.1) at i)
]

pub dependencies-GraphIn :
    (u : Unicode) (names : List String) (entries : List SetEntry)
    (deps : List (String × List String))
    → ClosedIn names deps
    → GraphIn names (dependencies u names entries deps)
unfolding dependencies
dependencies-GraphIn u names [] deps c = c
dependencies-GraphIn u names (entry ∷ entries) deps c =
    at_refs (extract_refs u entry.dsl)
      (λ h.
        dependencies-GraphIn u names entries _
          (insert-ClosedIn names entry.name (refs_or_nil (extract_refs u entry.dsl)) deps h c))
      refl
  where
    at_undefined :
        (o : Option String) (g : Graph)
        → (o ≡ none → GraphIn names g)
        → GraphIn names (elim o [ some ref ↦ no_graph (MatrixError.undefined_set ref) | none ↦ g ])
    at_undefined none g h = h refl
    at_undefined (some r) g h = λ e. cc e

    at_refs :
        (refs : Option (List String))
        → (((r : String) → In r (refs_or_nil (extract_refs u entry.dsl)) → In r names)
            → GraphIn names (
                dependencies u names entries
                  (insert entry.name (refs_or_nil (extract_refs u entry.dsl)) deps)))
        → extract_refs u entry.dsl ≡ refs
        → GraphIn names (
            entry_refs names entry refs (
              dependencies u names entries
                (insert entry.name (refs_or_nil (extract_refs u entry.dsl)) deps)))
    at_refs none rest e = λ p. cc p
    at_refs (some found) rest e =
        at_undefined (first_undefined names found) _
          (λ n. rest (λ r i. first_undefined-none names found n r (rw e at i)))
