-- ===== src/SwapSets/Expansion.antt =====
-- `ValidateMatrix` of internal/config/matrix.go: what the expanded sets hold.
use llama_skein.Base.{
  ℕ, suc, ◌+◌, ◌≤◌, ◌≡◌, ◌≢◌, inl, inr, refl, subst, String, Option, none, some, List, [], ◌∷◌,
  ◌++◌, leb, ltb, if◌then◌else◌, length, length-append, In, All, All-append, All-In, arith,
  Bool-cases,
}
use llama_skein.Base.Maps.{lookup, insert, string_eq}
use llama_skein.Base.Sorting.{sort, sort-In}
use llama_skein.Dsl.{Combos, Refs, max_dsl_expansions}
use llama_skein.Dsl.Lexer.{Unicode}
use llama_skein.Dsl.Pipeline.{DslResult, sets, parse_and_expand_dsl}
use llama_skein.Matrix.{ExpandedSet}
use llama_skein.SwapSets.Checks.{
  Configured, check_vars-Configured, OnError, check_vars-OnError, check_costs-OnError,
}
use llama_skein.SwapSets.Dependencies.{GraphIn, no_references, dependencies-GraphIn}
use llama_skein.SwapSets.Sorted.{Sorted, topological_sort-Sorted}
use llama_skein.SwapSets.Refused.{
  Refused, GraphRefused, dependencies-Refused, parse_and_expand_dsl-ends,
}
use llama_skein.SwapSets.{
  SetEntry, MatrixConfig, MatrixError, check_vars, check_costs, Named, all_named, unknown,
  real_names, Validated, valid, invalid, name_combos, set_dsl, text_or_empty, expand_sets, Visit,
  walked, cycle, starved, expand_order, Graph, graph, no_graph, expand_graph, unless_invalid,
  dependencies, set_names, validate_matrix,
}

abbrev pub NamedIn : List String → Named → Type 0
NamedIn models (all_named ms) = All (λ m. In m models) ms
NamedIn models (unknown i) = Unit

real_names-NamedIn :
    (models : List String) (vars : List (String × String)) (combo : List String)
    → Configured models vars
    → NamedIn models (real_names vars combo)
unfolding real_names
real_names-NamedIn models vars [] c = tt
real_names-NamedIn models vars (ident ∷ combo) c =
    at_ident (lookup ident vars) refl (real_names vars combo)
      (real_names-NamedIn models vars combo c)
  where
    at_ident :
        (o : Option String)
        → lookup ident vars ≡ o
        → (r : Named) → NamedIn models r
        → NamedIn models (elim o [
          | none ↦ unknown ident
          | some model ↦ elim r [ all_named ms ↦ all_named (model ∷ ms) | unknown i ↦ unknown i ]
        ])
    at_ident none e r h = tt
    at_ident (some model) e (all_named ms) h = (c ident model e, h)
    at_ident (some model) e (unknown i) h = tt

-- An expanded set belongs to a set of the order, with its text, and has only configured models.
abbrev pub GoodSet : List String → List (String × String) → List String → ExpandedSet → Type 0
GoodSet models dsls order es =
    In es.set_name order
    × (es.dsl ≡ text_or_empty (lookup es.set_name dsls))
    × ((m : String) → In m es.models → In m models)

-- What is found up to here: good sets, no more of them than the total.
abbrev pub Found :
    Unicode
    → List SetEntry
    → List String
    → List (String × String)
    → List String
    → ℕ
    → Validated
    → Type 0
Found u entries models dsls order bound (valid found) =
    All (GoodSet models dsls order) found × (length found ≤ bound)
Found u entries models dsls order bound (invalid e) = Refused u entries e

name_combos-Found :
    (u : Unicode) (entries : List SetEntry) (models : List String)
    (vars dsls : List (String × String)) (order : List String) (name : String) (combos : Combos)
    (found : List ExpandedSet) (total : ℕ)
    → Configured models vars
    → In name order
    → Found u entries models dsls order total (valid found)
    → Found u entries models dsls order
        (total + length combos)
        (name_combos vars name (text_or_empty (lookup name dsls)) combos found)
unfolding name_combos
name_combos-Found u entries models vars dsls order name [] found total c i f =
    (f.0, omega (arith, f.1))
name_combos-Found u entries models vars dsls order name (combo ∷ combos) found total c i f =
    at_names (real_names vars combo) (real_names-NamedIn models vars combo c) (λ found' f'.
      subst
        (λ n.
          Found u entries models dsls order n
            (name_combos vars name (text_or_empty (lookup name dsls)) combos found'))
        {x = suc total + length combos} (omega arith)
        (name_combos-Found u entries models vars dsls order name combos found' (suc total) c i f'))
  where
    at_names :
        (r : Named)
        → NamedIn models r
        → ((found' : List ExpandedSet)
            → Found u entries models dsls order (suc total) (valid found')
            → Found u entries models dsls order
                (total + length (combo ∷ combos))
                (name_combos vars name (text_or_empty (lookup name dsls)) combos found'))
        → Found u entries models dsls order (total + length (combo ∷ combos)) (elim r [
          | unknown j ↦ invalid (MatrixError.unknown_var j)
          | all_named ms ↦ name_combos vars name (text_or_empty (lookup name dsls)) combos (
              found
              ++ record {
                set_name = name;
                dsl = text_or_empty (lookup name dsls);
                models = sort ms;
              }
                ∷ [])
        ])
    at_names (unknown j) h rest = tt
    at_names (all_named ms) h rest = rest _ (
      All-append (GoodSet models dsls order) found _ f.0
          ((i, refl, λ m j. All-In (λ x. In x models) m ms h (sort-In m ms j)), tt),
      omega (
        arith,
        f.1,
        length-append found (
            record { set_name = name; dsl = text_or_empty (lookup name dsls); models = sort ms }
            ∷ []),
      ),
    )

module _ (u : Unicode) (entries : List SetEntry) (models : List String)
    (vars : List (String × String)) (dsls : List (String × String)) (full : List String)
    (c : Configured models vars) where
  expand_sets-Found :
      (order : List String) (refs : Refs) (found : List ExpandedSet) (total : ℕ)
      → ((name : String) → In name order → In name full)
      → Found u entries models dsls full total (valid found)
      → total ≤ 1000
      → Found u entries models dsls full 1000 (expand_sets u vars dsls order refs found total)
  unfolding expand_sets
  expand_sets-Found [] refs found total i f l = (f.0, omega (arith, f.1, l))
  expand_sets-Found (name ∷ order) refs found total i f l =
      at_result (parse_and_expand_dsl u (text_or_empty (lookup name dsls)) refs)
        (parse_and_expand_dsl-ends u (text_or_empty (lookup name dsls)) refs)
        (λ combos found' f' l'.
          expand_sets-Found order (insert name combos refs) found' (total + length combos)
            (λ x j. i x (inr j)) f' l')
    where
      at_combos :
          (combos : Combos) (r : Validated)
          → Found u entries models dsls full (total + length combos) r
          → ((found' : List ExpandedSet)
              → Found u entries models dsls full (total + length combos) (valid found')
              → total + length combos ≤ 1000
              → Found u entries models dsls full 1000 (
                  expand_sets u vars dsls order
                    (insert name combos refs)
                    found'
                    (total + length combos)))
          → Found u entries models dsls full 1000 (elim r [
            | invalid e ↦ invalid e
            | valid found' ↦
                if ltb max_dsl_expansions (total + length combos)
                then invalid MatrixError.too_many_sets
                else expand_sets u vars dsls order
                    (insert name combos refs)
                    found'
                    (total + length combos)
          ])
      at_combos combos (invalid e) g rest = g
      at_combos combos (valid found') g rest =
          elim (Bool-cases (ltb 1000 (total + length combos))) [
            | inl b ↦ rw b tt
            | inr b ↦ rw b (rest found' g (ground (arith, b)))
          ]

      at_result :
          (r : DslResult)
          → r ≢ DslResult.exhausted
          → ((combos : Combos) (found' : List ExpandedSet)
              → Found u entries models dsls full (total + length combos) (valid found')
              → total + length combos ≤ 1000
              → Found u entries models dsls full 1000 (
                  expand_sets u vars dsls order
                    (insert name combos refs)
                    found'
                    (total + length combos)))
          → Found u entries models dsls full 1000 (elim r [
            | sets combos ↦
                elim (name_combos vars name (text_or_empty (lookup name dsls)) combos found) [
                  | invalid e ↦ invalid e
                  | valid found' ↦
                      if ltb max_dsl_expansions (total + length combos)
                      then invalid MatrixError.too_many_sets
                      else expand_sets u vars dsls order
                          (insert name combos refs)
                          found'
                          (total + length combos)
                ]
            | failure ↦ invalid (MatrixError.not_expanded name failure)
          ])
      at_result (sets combos) n rest =
          at_combos combos _
            (name_combos-Found u entries models vars dsls full name combos found total c
              (i name (inl refl)) f)
            (rest combos)
      at_result DslResult.empty_expression n rest = n
      at_result DslResult.bad_tokens n rest = n
      at_result DslResult.bad_syntax n rest = n
      at_result (DslResult.bad_expansion e) n rest = n
      at_result DslResult.exhausted n rest = n

-- What `ValidateMatrix` returns: at most 1000 expanded sets, each of a set of the configuration, with
-- its text and with configured models only; or an error of the source.
abbrev pub Checked : Unicode → MatrixConfig → List String → Validated → Type 0
Checked u matrix models =
    Found u matrix.sets models (set_dsl matrix.sets []) (set_names matrix.sets) 1000

module _ (u : Unicode) (matrix : MatrixConfig) (models : List String) where
  visit-Checked :
      (deps : List (String × List String)) (r : Visit)
      → Configured models matrix.vars
      → Sorted deps (set_names matrix.sets) r
      → Checked u matrix models (expand_order u matrix r)
  visit-Checked deps (walked w) c s =
      expand_sets-Found u matrix.sets models matrix.vars (set_dsl matrix.sets [])
        (set_names matrix.sets) c w.order [] [] 0 (λ v i. (s.2 v).1 i) (tt, omega arith)
        (omega arith)
  visit-Checked deps (cycle v) c s = tt
  visit-Checked deps starved c s = absurd s

  graph-Checked :
      (g : Graph)
      → Configured models matrix.vars
      → GraphIn (set_names matrix.sets) g
      → GraphRefused u matrix.sets g
      → Checked u matrix models (expand_graph u matrix g)
  graph-Checked (graph deps) c closed r =
      visit-Checked deps _ c (topological_sort-Sorted deps (set_names matrix.sets) closed)
  graph-Checked (no_graph e) c n r = r

  -- `ValidateMatrix` ends, with its sort, its tokenizer and its parser. It returns at most 1000 expanded
  -- sets, each with the name and the text of a set of the configuration and with configured models only;
  -- or it returns an error, and that is none of a run cut off: an expression without tokens is the text
  -- of a set of that name that has a `+` without a name or a character outside the language.
  pub validate_matrix-Checked : Checked u matrix models (validate_matrix u matrix models)
  unfolding validate_matrix
  validate_matrix-Checked = elim (Bool-cases (leb (length matrix.sets) 0)) [
    | inl a ↦ rw a tt
    | inr a ↦ elim (Bool-cases (leb (length matrix.vars) 0)) [
      | inl b ↦ rw (a, b) tt
      | inr b ↦
          rw (a, b)
            (at_vars (check_vars models matrix.vars) refl
              (check_vars-OnError (Refused u matrix.sets) (λ x. tt) (λ x. tt) models matrix.vars))
    ]
  ]
    where
      at_costs :
          (o : Option MatrixError)
          → OnError (Refused u matrix.sets) o
          → Configured models matrix.vars
          → Checked u matrix models (
              unless_invalid o
                (expand_graph u matrix (dependencies u (set_names matrix.sets) matrix.sets [])))
      at_costs (some e) f c = f
      at_costs none f c =
          graph-Checked _ c
            (dependencies-GraphIn u (set_names matrix.sets) matrix.sets []
              (no_references (set_names matrix.sets)))
            (dependencies-Refused u matrix.sets (set_names matrix.sets) matrix.sets [] (λ x i. i))

      at_vars :
          (o : Option MatrixError)
          → check_vars models matrix.vars ≡ o
          → OnError (Refused u matrix.sets) (check_vars models matrix.vars)
          → Checked u matrix models (
              unless_invalid o (
                unless_invalid
                  (check_costs matrix.vars matrix.evict_costs)
                  (expand_graph u matrix (dependencies u (set_names matrix.sets) matrix.sets []))))
      at_vars (some e) h f = subst (OnError (Refused u matrix.sets)) h f
      at_vars none h f =
          at_costs _
            (check_costs-OnError (Refused u matrix.sets) (λ x. tt) (λ x. tt) matrix.vars
              matrix.evict_costs)
            (check_vars-Configured models matrix.vars h)
