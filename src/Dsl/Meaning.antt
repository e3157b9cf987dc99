-- ===== src/Dsl/Meaning.antt =====
-- What the expressions of internal/config/matrix_dsl.go mean, and that their expansion says the same.
use mathlib.Core.List.{append_assoc, append-nil}
use llama_skein.Base.{
  ℕ, ◌*◌, ◌≤◌, ◌≡◌, ◌⊎◌, ◌↔◌, inl, inr, refl, sym, ap, subst, ◌∙◌, String, some, List, [], ◌∷◌,
  ◌++◌, ltb, length, length-append, In, In-append_left, In-append_right, In-append_cases, Nothing,
  arith, Bool-cases, Option-cases, ltb-false,
}
use llama_skein.Base.Maps.{lookup, string_eq}
use llama_skein.Dsl.{
  Node, leaf_node, ref_node, or_node, and_node, Children, nil, child, Combos, Refs, Expanded, ok,
  failed, ExpandError, unknown_ref, too_many, max_dsl_expansions, join_each, product,
  cartesian_product, expand, expand_or, expand_and,
}

-- The combination is one that the expression allows: one of the alternatives of a disjunction, and one
-- of each operand of a conjunction, in their order.
abbrev mutual
  pub Means : Node → Refs → List String → Type 0
  Means (leaf_node name) refs c = c ≡ name ∷ []
  Means (ref_node set_name) refs c = (e : Combos) × (lookup set_name refs ≡ some e) × In c e
  Means (or_node children) refs c = MeansAny children refs c
  Means (and_node children) refs c = MeansAll children refs c

  pub MeansAny : Children → Refs → List String → Type 0
  MeansAny nil refs c = Nothing
  MeansAny (child x xs) refs c = Means x refs c ⊎ MeansAny xs refs c

  pub MeansAll : Children → Refs → List String → Type 0
  MeansAll nil refs c = c ≡ []
  MeansAll (child x xs) refs c =
      (l r : List String) × Means x refs l × MeansAll xs refs r × (c ≡ l ++ r)

join_each_iff :
    (l : List String) (right : Combos) (c : List String)
    → In c (join_each l right) ↔ ((r : List String) × In r right × (c ≡ l ++ r))
join_each_iff l [] c = ((λ h. elim h [ ]), λ h. elim h.1 [ ])
join_each_iff l (r ∷ right) c =
    let (to, from) = join_each_iff l right c in
    (
      (λ h. elim h [ inl e ↦ (r, inl refl, e) | inr i ↦ let (r', j, e) = to i in (r', inr j, e) ]),
      λ (r', j, e). elim j [ inl q ↦ inl (e ∙ ap (λ z. l ++ z) q) | inr i ↦ inr (from (r', i, e)) ],
    )

product_iff :
    (left right : Combos) (c : List String)
    → In c (product left right) ↔ ((l r : List String) × In l left × In r right × (c ≡ l ++ r))
product_iff [] right c = ((λ h. elim h [ ]), λ h. elim h.2 [ ])
product_iff (l ∷ left) right c =
    let (to, from) = product_iff left right c in
    let (one, back) = join_each_iff l right c in
    (
      (λ h. elim (In-append_cases c (join_each l right) (product left right) h) [
        | inl i ↦ let (r, j, e) = one i in (l, r, inl refl, j, e)
        | inr i ↦ let (l', r, j, k, e) = to i in (l', r, inr j, k, e)
      ]),
      λ (l', r, j, k, e). elim j [
        | inl q ↦ In-append_left c _ _ (back (r, k, e ∙ ap (λ z. z ++ r) q))
        | inr i ↦ In-append_right c (join_each l right) _ (from (l', r, i, k, e))
      ],
    )

some_inj : {a b : Combos} → some a ≡ some b → a ≡ b
some_inj p = cc p

ok_inj : {a b : Combos} → ok a ≡ ok b → a ≡ b
ok_inj p = cc p

Expanded-cases : (e : Expanded) → ((r : Combos) × (e ≡ ok r)) ⊎ ((x : ExpandError) × (e ≡ failed x))
Expanded-cases (ok r) = inl (r, refl)
Expanded-cases (failed x) = inr (x, refl)

cartesian-ok :
    (left right result : Combos) (cap : ℕ)
    → cartesian_product left right cap ≡ ok result
    → (result ≡ product left right) × (length left * length right ≤ cap)
unfolding cartesian_product
cartesian-ok left right result cap h = elim (Bool-cases (ltb cap (length left * length right))) [
  | inl p ↦ let h' : failed too_many ≡ ok result = rw p at h in cc
  | inr p ↦ (sym (ok_inj (rw p at h)), ltb-false _ _ p)
]

-- The step of the loop of a disjunction, and of a conjunction, when it succeeds.
expand_or-child :
    (x : Node) (xs : Children) (refs : Refs) (acc result : Combos)
    → expand_or (child x xs) refs acc ≡ ok result
    → (r : Combos) × (expand x refs ≡ ok r)
      × (length (acc ++ r) ≤ max_dsl_expansions)
      × (expand_or xs refs (acc ++ r) ≡ ok result)
unfolding expand
expand_or-child x xs refs acc result h = elim (Expanded-cases (expand x refs)) [
  | inr (e, p) ↦ let h' : failed e ≡ ok result = rw (expand_or, p) at h in cc
  | inl (r, p) ↦ elim (Bool-cases (ltb max_dsl_expansions (length (acc ++ r)))) [
    | inl q ↦ let h' : failed too_many ≡ ok result = rw (expand_or, p, q) at h in cc
    | inr q ↦ (r, p, ltb-false _ _ q, rw (expand_or, p, q) at h)
  ]
]

expand_and-child :
    (x : Node) (xs : Children) (refs : Refs) (acc result : Combos)
    → expand_and (child x xs) refs acc ≡ ok result
    → (r : Combos) × (expand x refs ≡ ok r)
      × (length acc * length r ≤ max_dsl_expansions)
      × (expand_and xs refs (product acc r) ≡ ok result)
unfolding expand
expand_and-child x xs refs acc result h = elim (Expanded-cases (expand x refs)) [
  | inr (e, p) ↦ let h' : failed e ≡ ok result = rw (expand_and, p) at h in cc
  | inl (r, p) ↦ elim (Expanded-cases (cartesian_product acc r max_dsl_expansions)) [
    | inr (e, q) ↦ let h' : failed e ≡ ok result = rw (expand_and, p, q) at h in cc
    | inl (joined, q) ↦
        let (e, bound) = cartesian-ok acc r joined max_dsl_expansions q in
        (r, p, bound, subst (λ z. expand_and xs refs z ≡ ok result) e (rw (expand_and, p, q) at h))
  ]
]

mutual
  unfolding expand

  expand-Means :
      (x : Node) (refs : Refs) (result : Combos) (c : List String)
      → expand x refs ≡ ok result
      → In c result ↔ Means x refs c
  expand-Means (leaf_node name) refs result c h =
      subst (λ z. In c z ↔ (c ≡ name ∷ [])) (ok_inj h)
        ((λ i. elim i [ inl e ↦ e | inr z ↦ elim z [ ] ]), λ e. inl e)
  expand-Means (ref_node set_name) refs result c h = elim (Option-cases (lookup set_name refs)) [
    | inl p ↦ let h' : failed (unknown_ref set_name) ≡ ok result = rw p at h in cc
    | inr (e, p) ↦
        let h' : ok e ≡ ok result = rw p at h in
        (
          (λ i. (e, p, subst (λ z. In c z) (sym (ok_inj h')) i)),
          λ (e', p', i). subst (λ z. In c z) (some_inj (sym p' ∙ p) ∙ ok_inj h') i,
        )
  ]
  expand-Means (or_node xs) refs result c h =
      let (to, from) = expand_or-Means xs refs [] result c h in
      ((λ i. elim (to i) [ inl z ↦ elim z [ ] | inr m ↦ m ]), λ m. from (inr m))
  expand-Means (and_node xs) refs result c h =
      let (to, from) = expand_and-Means xs refs ([] ∷ []) result c h in
      (
        (λ i.
            let (l, r, j, m, e) = to i in
            elim j [
              | inl q ↦ subst (λ z. MeansAll xs refs z) (sym (e ∙ ap (λ z. z ++ r) q)) m
              | inr z ↦ elim z [ ]
            ]),
        λ m. from ([], c, inl refl, m, refl),
      )

  expand_or-Means :
      (xs : Children) (refs : Refs) (acc result : Combos) (c : List String)
      → expand_or xs refs acc ≡ ok result
      → In c result ↔ (In c acc ⊎ MeansAny xs refs c)
  expand_or-Means nil refs acc result c h =
      subst (λ z. In c z ↔ (In c acc ⊎ Nothing)) (ok_inj h)
        ((λ i. inl i), λ i. elim i [ inl j ↦ j | inr z ↦ elim z [ ] ])
  expand_or-Means (child x xs) refs acc result c h =
      let (r, p, _, q) = expand_or-child x xs refs acc result h in
      let (one, back) = expand-Means x refs r c p in
      let (to, from) = expand_or-Means xs refs (acc ++ r) result c q in
      (
        (λ i. elim (to i) [
          | inr m ↦ inr (inr m)
          | inl j ↦ elim (In-append_cases c acc r j) [ inl k ↦ inl k | inr k ↦ inr (inl (one k)) ]
        ]),
        λ i. elim i [
          | inl j ↦ from (inl (In-append_left c acc r j))
          | inr (inl m) ↦ from (inl (In-append_right c acc r (back m)))
          | inr (inr m) ↦ from (inr m)
        ],
      )

  expand_and-Means :
      (xs : Children) (refs : Refs) (acc result : Combos) (c : List String)
      → expand_and xs refs acc ≡ ok result
      → In c result ↔ ((l r : List String) × In l acc × MeansAll xs refs r × (c ≡ l ++ r))
  expand_and-Means nil refs acc result c h =
      subst (λ z. In c z ↔ ((l r : List String) × In l acc × (r ≡ []) × (c ≡ l ++ r))) (ok_inj h)
        (
          (λ i. (c, [], i, refl, sym (append-nil c))),
          λ (l, r, i, e, q). subst (λ z. In z acc) (sym (q ∙ ap (λ z. l ++ z) e ∙ append-nil l)) i,
        )
  expand_and-Means (child x xs) refs acc result c h =
      let (r, p, _, q) = expand_and-child x xs refs acc result h in
      let (to, from) = expand_and-Means xs refs (product acc r) result c q in
      (
        (λ i.
            let (l, tail, j, m, e) = to i in
            let (l', mid, k, n, e') = (product_iff acc r l).0 j in
            (
              l',
              mid ++ tail,
              k,
              (mid, tail, (expand-Means x refs r mid p).0 n, m, refl),
              e ∙ ap (λ z. z ++ tail) e' ∙ append_assoc l' mid tail,
            )),
        λ (l, rest, i, (mid, tail, n, m, e'), e). from (
          l ++ mid,
          tail,
          (product_iff acc r (l ++ mid)).1 (l, mid, i, (expand-Means x refs r mid p).1 n, refl),
          m,
          e ∙ ap (λ z. l ++ z) e' ∙ sym (append_assoc l mid tail),
        ),
      )

-- When the expansion succeeds, its result holds exactly the combinations that the expression allows:
-- one model for a name, the combinations of the set for a reference, those of one operand for a
-- disjunction, and one of each operand, joined in order, for a conjunction.
pub expand_iff :
    (x : Node) (refs : Refs) (result : Combos) (c : List String)
    → expand x refs ≡ ok result
    → In c result ↔ Means x refs c
expand_iff x refs result c h = expand-Means x refs result c h

expand_or-length :
    (xs : Children) (refs : Refs) (acc result : Combos)
    → length acc ≤ max_dsl_expansions
    → expand_or xs refs acc ≡ ok result
    → length result ≤ max_dsl_expansions
unfolding expand
expand_or-length nil refs acc result b h = subst (λ z. length z ≤ max_dsl_expansions) (ok_inj h) b
expand_or-length (child x xs) refs acc result b h =
    let (r, _, l, q) = expand_or-child x xs refs acc result h in
    expand_or-length xs refs (acc ++ r) result l q

length-join_each : (l : List String) (right : Combos) → length (join_each l right) ≡ length right
length-join_each l [] = refl
length-join_each l (r ∷ right) = omega (arith, length-join_each l right)

length-product : (left right : Combos) → length (product left right) ≡ length left * length right
length-product [] right = omega arith
length-product (l ∷ left) right = grind (
  arith,
  length-append (join_each l right) (product left right),
  length-join_each l right,
  length-product left right,
)

expand_and-length :
    (xs : Children) (refs : Refs) (acc result : Combos)
    → length acc ≤ max_dsl_expansions
    → expand_and xs refs acc ≡ ok result
    → length result ≤ max_dsl_expansions
unfolding expand
expand_and-length nil refs acc result b h = subst (λ z. length z ≤ max_dsl_expansions) (ok_inj h) b
expand_and-length (child x xs) refs acc result b h =
    let (r, _, l, q) = expand_and-child x xs refs acc result h in
    expand_and-length xs refs (product acc r) result (rw (length-product acc r) l) q

-- The expansion of a disjunction or of a conjunction that succeeds has at most 1000 combinations.
pub expand-length :
    (xs : Children) (refs : Refs) (result : Combos)
    → (expand (or_node xs) refs ≡ ok result) ⊎ (expand (and_node xs) refs ≡ ok result)
    → length result ≤ max_dsl_expansions
unfolding expand
expand-length xs refs result (inl h) = expand_or-length xs refs [] result (omega arith) h
expand-length xs refs result (inr h) = expand_and-length xs refs ([] ∷ []) result (omega arith) h
