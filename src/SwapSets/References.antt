-- ===== src/SwapSets/References.antt =====
-- `ValidateMatrix` of internal/config/matrix.go expands the sets in an order in which each reference
-- is resolved before it is looked up.
use llama_skein.Base.{
  ℕ, ◌+◌, ◌≡◌, ◌≢◌, inl, inr, refl, sym, ap, subst, ◌∙◌, String, true, false, Option, none, some,
  List, [], ◌∷◌, ◌++◌, leb, ltb, if◌then◌else◌, length, In, Bool-cases,
}
use llama_skein.Base.Maps.{lookup, insert, lookup-insert, string_eq, ◌=?◌, eq_cases}
use llama_skein.Base.Sorting.{sort}
use llama_skein.Dsl.{Combos, Refs, unknown_ref, too_many, max_dsl_expansions}
use llama_skein.Dsl.Lexer.{Unicode, tokenize, lex}
use llama_skein.Dsl.Pipeline.{
  DslResult, sets, empty_expression, bad_tokens, bad_syntax, bad_expansion, exhausted,
  parse_and_expand_dsl, extract_refs, refs_from,
}
use llama_skein.Dsl.Pipeline.Blanks.{Separate}
use llama_skein.Dsl.Pipeline.References.{Listed, parse_and_expand_dsl-Listed}
use llama_skein.Matrix.{ExpandedSet}
use llama_skein.SwapSets.Checks.{OnError, check_vars-OnError, check_costs-OnError}
use llama_skein.SwapSets.Marks.{IsOrdered}
use llama_skein.SwapSets.Sorted.{Sorted, topological_sort-Sorted}
use llama_skein.SwapSets.Dependencies.{GraphIn, no_references, dependencies-GraphIn}
use llama_skein.SwapSets.{
  SetEntry, MatrixConfig, MatrixError, not_expanded, unknown_var, too_many_sets, check_vars,
  check_costs, Graph, graph, no_graph, first_undefined, entry_refs, refs_or_nil, dependencies,
  deps_of, set_names, Visit, walked, cycle, starved, Named, all_named, unknown, real_names,
  Validated, valid, invalid, name_combos, set_dsl, text_or_empty, expand_sets, expand_order,
  expand_graph, unless_invalid, validate_matrix,
}

-- No error of an expression that is about an unknown reference.
abbrev pub Known : DslResult → Type 0
Known (bad_expansion (unknown_ref s)) = ⊥
Known (bad_expansion too_many) = Unit
Known (sets combos) = Unit
Known empty_expression = Unit
Known bad_tokens = Unit
Known bad_syntax = Unit
Known exhausted = Unit

abbrev pub Resolves : Validated → Type 0
Resolves (valid found) = Unit
Resolves (invalid e) = (name : String) (r : DslResult) → e ≡ not_expanded name r → Known r

lookup_at :
    {V : Type 0} (name x : String) (v : V) (m : List (String × V))
    → (name =? x) ≡ true
    → lookup x (insert name v m) ≡ some v
lookup_at name x v m b = lookup-insert name x v m ∙ ap (λ c. if c then some v else lookup x m) b

lookup_off :
    {V : Type 0} (name x : String) (v : V) (m : List (String × V))
    → (name =? x) ≡ false
    → lookup x (insert name v m) ≡ lookup x m
lookup_off name x v m b = lookup-insert name x v m ∙ ap (λ c. if c then some v else lookup x m) b

deps_of_lem :
    (deps : List (String × List String)) (name : String)
    → deps_of deps name ≡ refs_or_nil (lookup name deps)
unfolding deps_of
deps_of_lem deps name = same (lookup name deps)
  where
    same : (o : Option (List String)) → elim o [ none ↦ [] | some refs ↦ refs ] ≡ refs_or_nil o
    same none = refl
    same (some refs) = refl

module _ (u : Unicode) where
  -- The graph has the references of the text of each set.
  abbrev Agree : List (String × List String) → List (String × String) → Type 0
  Agree deps dsls =
      (name : String) → extract_refs u (text_or_empty (lookup name dsls)) ≡ some (deps_of deps name)

  none-Agree : Agree [] []
  unfolding extract_refs refs_from tokenize lex deps_of lookup
  none-Agree name = refl

  insert-Agree :
      (deps : List (String × List String)) (dsls : List (String × String)) (name dsl : String)
      (refs : List String)
      → extract_refs u dsl ≡ some refs
      → Agree deps dsls
      → Agree (insert name refs deps) (insert name dsl dsls)
  insert-Agree deps dsls name dsl refs e h x = elim (eq_cases name x) [
    | inl p ↦
        ap (λ o. extract_refs u (text_or_empty o)) (lookup_at name x dsl dsls p.1)
        ∙ e
        ∙ ap some (
            sym (
              deps_of_lem (insert name refs deps) x
              ∙ ap refs_or_nil (lookup_at name x refs deps p.1)))
    | inr p ↦
        ap (λ o. extract_refs u (text_or_empty o)) (lookup_off name x dsl dsls p.1)
        ∙ h x
        ∙ ap some (deps_of_lem deps x)
        ∙ ap some (
            sym (
              deps_of_lem (insert name refs deps) x
              ∙ ap refs_or_nil (lookup_off name x refs deps p.1)))
  ]

  abbrev GraphAgrees : List (String × String) → Graph → Type 0
  GraphAgrees dsls (graph deps) = Agree deps dsls
  GraphAgrees dsls (no_graph e) = Resolves (invalid e)

  dependencies-GraphAgrees :
      (names : List String) (entries : List SetEntry) (deps : List (String × List String))
      (dsls : List (String × String))
      → Agree deps dsls
      → GraphAgrees (set_dsl entries dsls) (dependencies u names entries deps)
  unfolding dependencies
  dependencies-GraphAgrees names [] deps dsls h = h
  dependencies-GraphAgrees names (entry ∷ entries) deps dsls h =
      at_refs (extract_refs u entry.dsl) refl (λ e.
        dependencies-GraphAgrees names entries _ _ (
          insert-Agree deps dsls entry.name entry.dsl (refs_or_nil (extract_refs u entry.dsl)) e h))
    where
      table : List (String × String)
      table = set_dsl entries (insert entry.name entry.dsl dsls)

      at_undefined :
          (o : Option String) (g : Graph)
          → GraphAgrees table g
          → GraphAgrees table
              (elim o [ some ref ↦ no_graph (MatrixError.undefined_set ref) | none ↦ g ])
      at_undefined none g k = k
      at_undefined (some r) g k = λ n r e. cc e

      at_refs :
          (refs : Option (List String))
          → extract_refs u entry.dsl ≡ refs
          → (extract_refs u entry.dsl ≡ some (refs_or_nil (extract_refs u entry.dsl))
              → GraphAgrees table (
                  dependencies u names entries
                    (insert entry.name (refs_or_nil (extract_refs u entry.dsl)) deps)))
          → GraphAgrees table (
              entry_refs names entry refs (
                dependencies u names entries
                  (insert entry.name (refs_or_nil (extract_refs u entry.dsl)) deps)))
      at_refs none e k = λ n r p. cc p
      at_refs (some found) e k =
          at_undefined (first_undefined names found) _
            (k (e ∙ ap (λ o. some (refs_or_nil o)) (sym e)))

  name_combos-Resolves :
      (vars : List (String × String)) (name dsl : String) (combos : Combos)
      (found : List ExpandedSet)
      → Resolves (name_combos vars name dsl combos found)
  unfolding name_combos
  name_combos-Resolves vars name dsl [] found = tt
  name_combos-Resolves vars name dsl (combo ∷ combos) found =
      at_names (real_names vars combo) (λ more. name_combos-Resolves vars name dsl combos more)
    where
      at_names :
          (r : Named)
          → ((more : List ExpandedSet) → Resolves (name_combos vars name dsl combos more))
          → Resolves (elim r [
            | unknown i ↦ invalid (unknown_var i)
            | all_named ms ↦
                name_combos vars name dsl combos
                  (found ++ record { set_name = name; dsl = dsl; models = sort ms } ∷ [])
          ])
      at_names (unknown i) k = λ n r e. cc e
      at_names (all_named ms) k = k _

  failed-Resolves :
      (name : String) (f : DslResult) → Known f → Resolves (invalid (not_expanded name f))
  failed-Resolves name f k n r e = let p : f ≡ r = cc e in subst Known p k

  -- A listed reference that is resolved is not unknown.
  Listed-Known :
      (found : List String) (refs : Refs) (r : DslResult)
      → ((s : String) → In s found → lookup s refs ≢ none)
      → Listed found refs r
      → Known r
  Listed-Known found refs (bad_expansion (unknown_ref s)) h l = h s l.0 l.1
  Listed-Known found refs (bad_expansion too_many) h l = tt
  Listed-Known found refs (sets combos) h l = tt
  Listed-Known found refs empty_expression h l = tt
  Listed-Known found refs bad_tokens h l = tt
  Listed-Known found refs bad_syntax h l = tt
  Listed-Known found refs exhausted h l = tt

  resolved_more :
      (seen : List String) (refs : Refs) (name : String) (combos : Combos)
      → ((s : String) → In s seen → lookup s refs ≢ none)
      → (s : String) → In s (name ∷ seen)
      → lookup s (insert name combos refs) ≢ none
  resolved_more seen refs name combos h s i = elim (eq_cases name s) [
    | inl p ↦ λ e. cc (sym (lookup_at name s combos refs p.1) ∙ e)
    | inr p ↦ elim i [
      | inl q ↦ absurd (p.0 (sym q))
      | inr j ↦ λ e. h s j (sym (lookup_off name s combos refs p.1) ∙ e)
    ]
  ]

  module _ (separate : Separate u) (vars dsls : List (String × String))
      (deps : List (String × List String)) (agree : Agree deps dsls) where
    expand_sets-Resolves :
        (order seen : List String) (refs : Refs) (found : List ExpandedSet) (total : ℕ)
        → IsOrdered deps seen order
        → ((s : String) → In s seen → lookup s refs ≢ none)
        → Resolves (expand_sets u vars dsls order refs found total)
    unfolding expand_sets
    expand_sets-Resolves [] seen refs found total o h = tt
    expand_sets-Resolves (name ∷ order) seen refs found total o h =
        at_result (parse_and_expand_dsl u (text_or_empty (lookup name dsls)) refs)
          (Listed-Known (deps_of deps name) refs _ (λ s i. h s (o.0 s i))
            (parse_and_expand_dsl-Listed u (text_or_empty (lookup name dsls)) refs
              (deps_of deps name) separate (agree name)))
          (λ combos more.
            expand_sets-Resolves order (name ∷ seen) (insert name combos refs) more
              (total + length combos) o.1 (resolved_more seen refs name combos h))
      where
        at_combos :
            (combos : Combos) (r : Validated)
            → Resolves r
            → ((more : List ExpandedSet)
                → Resolves (
                    expand_sets u vars dsls order
                      (insert name combos refs)
                      more
                      (total + length combos)))
            → Resolves (elim r [
              | invalid e ↦ invalid e
              | valid more ↦
                  if ltb max_dsl_expansions (total + length combos)
                  then invalid too_many_sets
                  else expand_sets u vars dsls order
                      (insert name combos refs)
                      more
                      (total + length combos)
            ])
        at_combos combos (invalid e) r k = r
        at_combos combos (valid more) r k =
            elim (Bool-cases (ltb max_dsl_expansions (total + length combos))) [
              | inl b ↦ rw b (λ n x e. cc e)
              | inr b ↦ rw b (k more)
            ]

        at_result :
            (r : DslResult)
            → Known r
            → ((combos : Combos) (more : List ExpandedSet)
                → Resolves (
                    expand_sets u vars dsls order
                      (insert name combos refs)
                      more
                      (total + length combos)))
            → Resolves (elim r [
              | sets combos ↦
                  elim (name_combos vars name (text_or_empty (lookup name dsls)) combos found) [
                    | invalid e ↦ invalid e
                    | valid more ↦
                        if ltb max_dsl_expansions (total + length combos)
                        then invalid too_many_sets
                        else expand_sets u vars dsls order
                            (insert name combos refs)
                            more
                            (total + length combos)
                  ]
              | failure ↦ invalid (not_expanded name failure)
            ])
        at_result (sets combos) k rest =
            at_combos combos _
              (name_combos-Resolves vars name (text_or_empty (lookup name dsls)) combos found)
              (rest combos)
        at_result empty_expression k rest = failed-Resolves name empty_expression k
        at_result bad_tokens k rest = failed-Resolves name bad_tokens k
        at_result bad_syntax k rest = failed-Resolves name bad_syntax k
        at_result (bad_expansion e) k rest = failed-Resolves name (bad_expansion e) k
        at_result exhausted k rest = failed-Resolves name exhausted k

  visit-Resolves :
      (matrix : MatrixConfig) (deps : List (String × List String)) (names : List String) (r : Visit)
      → Separate u
      → Agree deps (set_dsl matrix.sets [])
      → Sorted deps names r
      → Resolves (expand_order u matrix r)
  visit-Resolves matrix deps names (walked w) separate agree s =
      expand_sets-Resolves separate matrix.vars (set_dsl matrix.sets []) deps agree w.order [] [] []
        0 s.0 (λ x i. elim i [ ])
  visit-Resolves matrix deps names (cycle v) separate agree s = λ n x p. cc p
  visit-Resolves matrix deps names starved separate agree s = absurd s

  graph-Resolves :
      (matrix : MatrixConfig) (g : Graph)
      → Separate u
      → GraphIn (set_names matrix.sets) g
      → GraphAgrees (set_dsl matrix.sets []) g
      → Resolves (expand_graph u matrix g)
  graph-Resolves matrix (graph deps) separate closed agree =
      visit-Resolves matrix deps (set_names matrix.sets) _ separate agree
        (topological_sort-Sorted deps (set_names matrix.sets) closed)
  graph-Resolves matrix (no_graph e) separate n agree = agree

-- The error is not about an unknown reference.
abbrev Plain : MatrixError → Type 0
Plain e = Resolves (invalid e)

unless_invalid-Resolves :
    (o : Option MatrixError) (r : Validated)
    → OnError Plain o
    → Resolves r
    → Resolves (unless_invalid o r)
unless_invalid-Resolves none r h k = k
unless_invalid-Resolves (some e) r h k = h

-- When no blank is a letter or a digit, `ValidateMatrix` never fails because an expression refers to a
-- set that is not expanded yet: a reference to no set, and a circle of references, are found before.
pub validate_matrix-Resolves :
    (u : Unicode) (matrix : MatrixConfig) (models : List String)
    → Separate u
    → Resolves (validate_matrix u matrix models)
unfolding validate_matrix
validate_matrix-Resolves u matrix models separate = elim (Bool-cases (leb (length matrix.sets) 0)) [
  | inl a ↦ rw a (λ n r e. cc e)
  | inr a ↦ elim (Bool-cases (leb (length matrix.vars) 0)) [
    | inl b ↦ rw (a, b) (λ n r e. cc e)
    | inr b ↦ rw (a, b) checked
  ]
]
  where
    checked : Resolves (
        unless_invalid (check_vars models matrix.vars) (
          unless_invalid
            (check_costs matrix.vars matrix.evict_costs)
            (expand_graph u matrix (dependencies u (set_names matrix.sets) matrix.sets []))))
    checked =
        unless_invalid-Resolves (check_vars models matrix.vars) _
          (check_vars-OnError Plain (λ x n r e. cc e) (λ x n r e. cc e) models matrix.vars)
          (unless_invalid-Resolves (check_costs matrix.vars matrix.evict_costs) _
            (check_costs-OnError Plain (λ x n r e. cc e) (λ x n r e. cc e) matrix.vars
              matrix.evict_costs)
            (graph-Resolves u matrix (dependencies u (set_names matrix.sets) matrix.sets [])
              separate
              (dependencies-GraphIn u (set_names matrix.sets) matrix.sets []
                (no_references (set_names matrix.sets)))
              (dependencies-GraphAgrees u (set_names matrix.sets) matrix.sets [] []
                (none-Agree u))))
