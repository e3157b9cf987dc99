-- ===== src/Dsl/Parser/Grammar.antt =====
-- The grammar of the expressions of internal/config/matrix_dsl.go, and that its parser follows it.
use llama_skein.Base.{
  ℕ, zero, suc, ◌+◌, ◌*◌, ◌≡◌, sym, subst, inl, inr, String, true, List, [], ◌∷◌, length,
  Bool-cases, if◌then◌else◌, arith,
}
use llama_skein.Dsl.{Node, leaf_node, ref_node, or_node, and_node, Children, nil, child}
use llama_skein.Dsl.Parser.{
  Token, ident, and_op, or_op, lparen, rparen, ref, eof, peek, advance, is_or, is_and, is_rparen,
  is_eof, Parsed, parsed, refused, out_of_fuel, then_parse, close, parse_or_expr, or_tail, or_loop,
  parse_and_expr, and_tail, and_loop, parse_atom, parse,
}

-- The tokens in front of the rest spell the tree: a disjunction of conjunctions of atoms, where an
-- atom is a name, a reference or a disjunction in parentheses.
mutual
  pub data Disjunction : List Token → Node → List Token → Type 0 where
    one : {ts rest : List Token} {x : Node} → Conjunction ts x rest → Disjunction ts x rest
    several :
        {ts mid rest : List Token} {x : Node} {xs : Children}
        → Conjunction ts x (or_op ∷ mid)
        → Disjuncts (or_op ∷ mid) xs rest
        → Disjunction ts (or_node (child x xs)) rest

  pub data Disjuncts : List Token → Children → List Token → Type 0 where
    no_more : {ts : List Token} → Disjuncts ts nil ts
    next :
        {ts mid rest : List Token} {x : Node} {xs : Children}
        → Conjunction ts x mid
        → Disjuncts mid xs rest
        → Disjuncts (or_op ∷ ts) (child x xs) rest

  pub data Conjunction : List Token → Node → List Token → Type 0 where
    single : {ts rest : List Token} {x : Node} → Atom ts x rest → Conjunction ts x rest
    joined :
        {ts mid rest : List Token} {x : Node} {xs : Children}
        → Atom ts x (and_op ∷ mid)
        → Conjuncts (and_op ∷ mid) xs rest
        → Conjunction ts (and_node (child x xs)) rest

  pub data Conjuncts : List Token → Children → List Token → Type 0 where
    last_one : {ts : List Token} → Conjuncts ts nil ts
    and_then :
        {ts mid rest : List Token} {x : Node} {xs : Children}
        → Atom ts x mid
        → Conjuncts mid xs rest
        → Conjuncts (and_op ∷ ts) (child x xs) rest

  pub data Atom : List Token → Node → List Token → Type 0 where
    named : {s : String} {ts : List Token} → Atom (ident s ∷ ts) (leaf_node s) ts
    referred : {s : String} {ts : List Token} → Atom (ref s ∷ ts) (ref_node s) ts
    enclosed :
        {ts rest : List Token} {x : Node}
        → Disjunction ts x (rparen ∷ rest)
        → Atom (lparen ∷ ts) x rest

-- What the parser returns, if it does, is of the grammar.
abbrev pub Derives : {A : Type 0} → (A → List Token → Type 0) → Parsed A → Type 0
Derives R (parsed a rest) = R a rest
Derives R refused = Unit
Derives R out_of_fuel = Unit

then_parse-Derives :
    {A B : Type 0} (R : A → List Token → Type 0) (S : B → List Token → Type 0) (p : Parsed A)
    (k : A → List Token → Parsed B)
    → Derives R p
    → ((a : A) (rest : List Token) → R a rest → Derives S (k a rest))
    → Derives S (then_parse p k)
then_parse-Derives R S (parsed a rest) k h f = f a rest h
then_parse-Derives R S refused k h f = tt
then_parse-Derives R S out_of_fuel k h f = tt

or_first : (ts : List Token) → is_or (peek ts) ≡ true → ts ≡ or_op ∷ advance ts
or_first [] h = cc
or_first (t ∷ ts) h = ground arith

and_first : (ts : List Token) → is_and (peek ts) ≡ true → ts ≡ and_op ∷ advance ts
and_first [] h = cc
and_first (t ∷ ts) h = ground arith

rparen_first : (ts : List Token) → is_rparen (peek ts) ≡ true → ts ≡ rparen ∷ advance ts
rparen_first [] h = cc
rparen_first (t ∷ ts) h = ground arith

close-Derives :
    (ts : List Token) (node : Node) (rest : List Token)
    → Disjunction ts node rest
    → Derives (λ x r. Atom (lparen ∷ ts) x r) (close node rest)
close-Derives ts node rest d = elim (Bool-cases (is_rparen (peek rest))) [
  | inl b ↦ rw b (enclosed (subst (Disjunction ts node) (rparen_first rest b) d))
  | inr b ↦ rw b tt
]

mutual
  unfolding parse_or_expr

  parse_or_expr-Derives :
      (n : ℕ) (ts : List Token) → Derives (λ x r. Disjunction ts x r) (parse_or_expr n ts)
  parse_or_expr-Derives zero ts = tt
  parse_or_expr-Derives (suc n) ts =
      then_parse-Derives (λ x r. Conjunction ts x r) (λ x r. Disjunction ts x r)
        (parse_and_expr n ts) _ (parse_and_expr-Derives n ts)
        (λ left rest d. or_tail-Derives n ts left rest d)

  or_tail-Derives :
      (n : ℕ) (ts : List Token) (left : Node) (rest : List Token)
      → Conjunction ts left rest
      → Derives (λ x r. Disjunction ts x r) (or_tail n left rest)
  or_tail-Derives zero ts left rest d = tt
  or_tail-Derives (suc n) ts left rest d = elim (Bool-cases (is_or (peek rest))) [
    | inl b ↦ rw b (
        then_parse-Derives (λ cs r. Disjuncts rest cs r) (λ x r. Disjunction ts x r)
          (or_loop n rest) _ (or_loop-Derives n rest)
          (λ cs r ds.
            several (subst (Conjunction ts left) (or_first rest b) d)
              (subst (λ z. Disjuncts z cs r) (or_first rest b) ds)))
    | inr b ↦ rw b (one d)
  ]

  or_loop-Derives : (n : ℕ) (ts : List Token) → Derives (λ cs r. Disjuncts ts cs r) (or_loop n ts)
  or_loop-Derives zero ts = tt
  or_loop-Derives (suc n) ts = elim (Bool-cases (is_or (peek ts))) [
    | inl b ↦ rw b (
        then_parse-Derives (λ x r. Conjunction (advance ts) x r) (λ cs r. Disjuncts ts cs r)
          (parse_and_expr n (advance ts)) _ (parse_and_expr-Derives n (advance ts))
          (λ right rest d.
            then_parse-Derives (λ cs r. Disjuncts rest cs r) (λ cs r. Disjuncts ts cs r)
              (or_loop n rest) _ (or_loop-Derives n rest)
              (λ cs r ds.
                subst (λ z. Disjuncts z (child right cs) r) (sym (or_first ts b)) (next d ds))))
    | inr b ↦ rw b no_more
  ]

  parse_and_expr-Derives :
      (n : ℕ) (ts : List Token) → Derives (λ x r. Conjunction ts x r) (parse_and_expr n ts)
  parse_and_expr-Derives zero ts = tt
  parse_and_expr-Derives (suc n) ts =
      then_parse-Derives (λ x r. Atom ts x r) (λ x r. Conjunction ts x r) (parse_atom n ts) _
        (parse_atom-Derives n ts) (λ left rest d. and_tail-Derives n ts left rest d)

  and_tail-Derives :
      (n : ℕ) (ts : List Token) (left : Node) (rest : List Token)
      → Atom ts left rest
      → Derives (λ x r. Conjunction ts x r) (and_tail n left rest)
  and_tail-Derives zero ts left rest d = tt
  and_tail-Derives (suc n) ts left rest d = elim (Bool-cases (is_and (peek rest))) [
    | inl b ↦ rw b (
        then_parse-Derives (λ cs r. Conjuncts rest cs r) (λ x r. Conjunction ts x r)
          (and_loop n rest) _ (and_loop-Derives n rest)
          (λ cs r ds.
            joined (subst (Atom ts left) (and_first rest b) d)
              (subst (λ z. Conjuncts z cs r) (and_first rest b) ds)))
    | inr b ↦ rw b (single d)
  ]

  and_loop-Derives : (n : ℕ) (ts : List Token) → Derives (λ cs r. Conjuncts ts cs r) (and_loop n ts)
  and_loop-Derives zero ts = tt
  and_loop-Derives (suc n) ts = elim (Bool-cases (is_and (peek ts))) [
    | inl b ↦ rw b (
        then_parse-Derives (λ x r. Atom (advance ts) x r) (λ cs r. Conjuncts ts cs r)
          (parse_atom n (advance ts)) _ (parse_atom-Derives n (advance ts))
          (λ right rest d.
            then_parse-Derives (λ cs r. Conjuncts rest cs r) (λ cs r. Conjuncts ts cs r)
              (and_loop n rest) _ (and_loop-Derives n rest)
              (λ cs r ds.
                subst (λ z. Conjuncts z (child right cs) r) (sym (and_first ts b))
                  (and_then d ds))))
    | inr b ↦ rw b last_one
  ]

  parse_atom-Derives : (n : ℕ) (ts : List Token) → Derives (λ x r. Atom ts x r) (parse_atom n ts)
  parse_atom-Derives zero ts = tt
  parse_atom-Derives (suc n) [] = tt
  parse_atom-Derives (suc n) (ident s ∷ ts) = named
  parse_atom-Derives (suc n) (ref s ∷ ts) = referred
  parse_atom-Derives (suc n) (lparen ∷ ts) =
      then_parse-Derives (λ x r. Disjunction ts x r) (λ x r. Atom (lparen ∷ ts) x r)
        (parse_or_expr n ts) _ (parse_or_expr-Derives n ts)
        (λ node rest d. close-Derives ts node rest d)
  parse_atom-Derives (suc n) (and_op ∷ ts) = tt
  parse_atom-Derives (suc n) (or_op ∷ ts) = tt
  parse_atom-Derives (suc n) (rparen ∷ ts) = tt
  parse_atom-Derives (suc n) (eof ∷ ts) = tt

-- The tree of a whole expression leaves only the end of the tokens.
pub parse-Disjunction :
    (ts : List Token) (node : Node) (rest : List Token)
    → parse ts ≡ parsed node rest
    → Disjunction ts node rest × (is_eof (peek rest) ≡ true)
unfolding parse
parse-Disjunction ts node rest h =
    subst (Derives (λ x r. Disjunction ts x r × (is_eof (peek r) ≡ true))) h (
      then_parse-Derives (λ x r. Disjunction ts x r)
        (λ x r. Disjunction ts x r × (is_eof (peek r) ≡ true))
        (parse_or_expr (8 * length ts + 8) ts) _ (parse_or_expr-Derives (8 * length ts + 8) ts)
        (λ x r d. ended x r d))
  where
    ended :
        (x : Node) (r : List Token)
        → Disjunction ts x r
        → Derives
            (λ x r. Disjunction ts x r × (is_eof (peek r) ≡ true))
            (if is_eof (peek r) then parsed x r else refused)
    ended x r d = elim (Bool-cases (is_eof (peek r))) [ inl b ↦ rw b (d, b) | inr b ↦ rw b tt ]
