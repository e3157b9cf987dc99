-- ===== src/Dsl/Pipeline/Sets.antt =====
-- The result of `ParseAndExpandDSL`, and the names that `extractRefs` finds.
use llama_skein.Base.{
  ◌≡◌, ◌⊎◌, ◌↔◌, refl, sym, ap, subst, inl, inr, String, List, [], ◌∷◌, ◌++◌, map, if◌then◌else◌,
  In, In-append_left, In-append_right, In-append_cases, Nothing, Bool-cases,
}
use llama_skein.Base.Maps.{contains, string_eq, In-contains}
use llama_skein.Base.Sorting.{In-sort, sort-In}
use llama_skein.Dsl.{Node, Combos, Refs, Expanded, ok, failed, expand, dedup_from, dedup_and_sort}
use llama_skein.Dsl.Meaning.{Means, expand_iff}
use llama_skein.Dsl.Parser.{Token, eof, parse}
use llama_skein.Dsl.Parser.Grammar.{Disjunction, parse-Disjunction}
use llama_skein.Dsl.Parser.Rest.{Disjunction-all}
use llama_skein.Dsl.Parser.Complete.{parse-not_refused}
use llama_skein.Dsl.Lexer.Ends.{tokenize-EndsOnce}
use llama_skein.Dsl.Parser.Fuel.{parse-ends}
use llama_skein.Dsl.Lexer.{Unicode, lexed, missing_name, unexpected, tokenize}
use llama_skein.Dsl.Lexer.Fuel.{tokenize-ends}
use llama_skein.Dsl.Pipeline.{
  trim_space, DslResult, sets, empty_expression, bad_tokens, bad_syntax, bad_expansion, exhausted,
  from_expanded, from_parsed, from_lexed, from_trimmed, parse_and_expand_dsl,
}

-- Adding an element that is not there yet.
push_iff :
    (xs : List String) (k x : String)
    → In x (if contains xs k then xs else xs ++ k ∷ []) ↔ (In x xs ⊎ (x ≡ k))
push_iff xs k x = elim (Bool-cases (contains xs k)) [
  | inl p ↦ rw p (
    (λ i. inl i),
    λ h. elim h [ inl i ↦ i | inr e ↦ subst (λ z. In z xs) (sym e) (In-contains xs k p) ],
  )
  | inr p ↦ rw p (
    (λ i. elim (In-append_cases x xs (k ∷ []) i) [
      | inl j ↦ inl j
      | inr (inl e) ↦ inr e
      | inr (inr z) ↦ elim z [ ]
    ]),
    λ h. elim h [ inl i ↦ In-append_left x xs _ i | inr e ↦ In-append_right x xs _ (inl e) ],
  )
]

dedup_from_iff :
    (unique items : List String) (x : String)
    → In x (dedup_from unique items) ↔ (In x unique ⊎ In x items)
unfolding dedup_from
dedup_from_iff unique [] x = ((λ i. inl i), λ h. elim h [ inl i ↦ i | inr z ↦ elim z [ ] ])
dedup_from_iff unique (k ∷ items) x =
    let next = if contains unique k then unique else unique ++ k ∷ [] in
    let (to, from) = dedup_from_iff next items x in
    let (one, back) = push_iff unique k x in
    (
      (λ i. elim (to i) [
        | inl j ↦ elim (one j) [ inl a ↦ inl a | inr e ↦ inr (inl e) ]
        | inr j ↦ inr (inr j)
      ]),
      λ h. elim h [
        | inl a ↦ from (inl (back (inl a)))
        | inr (inl e) ↦ from (inl (back (inr e)))
        | inr (inr j) ↦ from (inr j)
      ],
    )

dedup_and_sort_iff : (items : List String) (x : String) → In x (dedup_and_sort items) ↔ In x items
unfolding dedup_and_sort
dedup_and_sort_iff items x =
    let (to, from) = dedup_from_iff [] items x in
    (
      (λ i. elim (to (sort-In x _ i)) [ inl z ↦ elim z [ ] | inr j ↦ j ]),
      λ i. In-sort x _ (from (inr i)),
    )

In-map_back :
    (f : List String → List String) (cs : Combos) (c : List String)
    → In c (map f cs)
    → (d : List String) × In d cs × (c ≡ f d)
In-map_back f [] c i = elim i [ ]
In-map_back f (d ∷ cs) c (inl e) = (d, inl refl, e)
In-map_back f (d ∷ cs) c (inr i) = let (d', j, e) = In-map_back f cs c i in (d', inr j, e)

In-map_to :
    (f : List String → List String) (cs : Combos) (d : List String) → In d cs → In (f d) (map f cs)
In-map_to f [] d i = elim i [ ]
In-map_to f (c ∷ cs) d (inl e) = inl (ap f e)
In-map_to f (c ∷ cs) d (inr i) = inr (In-map_to f cs d i)

-- The same models, in any order and any number.
abbrev pub Same : List String → List String → Type 0
Same c d = (x : String) → In x c ↔ In x d

-- A result of sets comes from a tree that the tokens of the text spell, and its sets are the
-- combinations that the tree allows, up to order and repetition. An error has its reason, and is not
-- that the run was cut off.
abbrev pub FromTree : Unicode → String → Refs → DslResult → Type 0
FromTree u text refs (sets combos) =
    (ts : List Token) × (tree : Node) × (tokenize u text ≡ lexed ts)
    × Disjunction ts tree (eof ∷ [])
    × ((c : List String) → In c combos → (d : List String) × Means tree refs d × Same c d)
    × ((d : List String) → Means tree refs d → (c : List String) × In c combos × Same c d)
FromTree u text refs exhausted = Nothing
FromTree u text refs empty_expression = text ≡ ""
FromTree u text refs bad_tokens = (tokenize u text ≡ missing_name) ⊎ (tokenize u text ≡ unexpected)
FromTree u text refs bad_syntax =
    (ts : List Token) × (tokenize u text ≡ lexed ts)
    × ((tree : Node) → ¬ Disjunction ts tree (eof ∷ []))
FromTree u text refs (bad_expansion e) =
    (ts : List Token) × (tree : Node) × (tokenize u text ≡ lexed ts)
    × Disjunction ts tree (eof ∷ [])
    × (expand tree refs ≡ failed e)

module _ (u : Unicode) (text : String) (refs : Refs) where
  expanded-FromTree :
      (ts : List Token) (tree : Node) (e : Expanded)
      → tokenize u text ≡ lexed ts
      → Disjunction ts tree (eof ∷ [])
      → expand tree refs ≡ e
      → FromTree u text refs (from_expanded e)
  expanded-FromTree ts tree (failed x) t g h = (ts, tree, t, g, h)
  expanded-FromTree ts tree (ok combos) t g h = (
    ts,
    tree,
    t,
    g,
    (λ c i.
        let (d, j, e) = In-map_back dedup_and_sort combos c i in
        (
          d,
          (expand_iff tree refs combos d h).0 j,
          λ x. subst (λ z. In x z ↔ In x d) (sym e) (dedup_and_sort_iff d x),
        )),
    λ d m. (
      dedup_and_sort d,
      In-map_to dedup_and_sort combos d ((expand_iff tree refs combos d h).1 m),
      λ x. dedup_and_sort_iff d x,
    ),
  )

  parsed-FromTree :
      (ts : List Token)
      → tokenize u text ≡ lexed ts
      → FromTree u text refs (from_parsed refs (parse ts))
  parsed-FromTree ts t = elim (parse-ends ts) [
    | inl p ↦ rw p (ts, t, λ tree d. parse-not_refused ts tree d p)
    | inr (node, rest, p, _) ↦
        let (g, e) = parse-Disjunction ts node rest p in
        let whole =
          subst (Disjunction ts node)
            (Disjunction-all ts rest node (tokenize-EndsOnce u text ts t) g e) g in
        rw p (expanded-FromTree ts node (expand node refs) t whole refl)
  ]

  lexed-FromTree : FromTree u text refs (from_lexed refs (tokenize u text))
  lexed-FromTree = elim (tokenize-ends u text) [
    | inl (ts, p) ↦
        subst (λ l. FromTree u text refs (from_lexed refs l)) (sym p) (parsed-FromTree ts p)
    | inr (inl p) ↦ subst (λ l. FromTree u text refs (from_lexed refs l)) (sym p) (inl p)
    | inr (inr p) ↦ subst (λ l. FromTree u text refs (from_lexed refs l)) (sym p) (inr p)
  ]

trimmed-FromTree :
    (u : Unicode) (refs : Refs) (s : String) → FromTree u s refs (from_trimmed u refs s)
trimmed-FromTree u refs String.[] = refl
trimmed-FromTree u refs (String.◌∷◌ c s) = lexed-FromTree u (String.◌∷◌ c s) refs

-- `ParseAndExpandDSL` always ends. When it returns sets, the tokens of the trimmed text spell a tree
-- of the grammar (a disjunction of conjunctions of names, references and disjunctions in parentheses)
-- up to their end; each of the sets has the models of a combination that the tree allows, and no
-- others, and for each combination that the tree allows there is such a set. When it returns an error,
-- the trimmed text is empty, the tokenizer refuses it, its tokens spell no tree up to their end, or
-- they spell one whose expansion fails with that error.
pub parse_and_expand_dsl-FromTree :
    (u : Unicode) (dsl : String) (refs : Refs)
    → FromTree u (trim_space u dsl) refs (parse_and_expand_dsl u dsl refs)
unfolding parse_and_expand_dsl
parse_and_expand_dsl-FromTree u dsl refs = trimmed-FromTree u refs (trim_space u dsl)
