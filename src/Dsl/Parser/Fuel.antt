-- ===== src/Dsl/Parser/Fuel.antt =====
-- The parser of internal/config/matrix_dsl.go ends, and what it has read is gone.
use llama_skein.Base.{
  ℕ, zero, suc, ◌+◌, ◌*◌, ◌≤◌, ◌<◌, ◌≡◌, refl, true, List, [], ◌∷◌, length, arith, Bool-cases, inl,
  inr, ◌⊎◌, Nothing,
}
use llama_skein.Dsl.{Node, or_node, and_node, child}
use llama_skein.Dsl.Parser.{
  Token, ident, and_op, or_op, lparen, rparen, ref, eof, peek, advance, is_or, is_and, is_rparen,
  is_eof, Parsed, parsed, refused, out_of_fuel, then_parse, close, parse_or_expr, or_tail, or_loop,
  parse_and_expr, and_tail, and_loop, parse_atom, parse,
}

-- The result is there, and leaves fewer than `n` tokens.
abbrev pub Ends : {A : Type 0} → ℕ → Parsed A → Type 0
Ends n (parsed a ts) = length ts < n
Ends n refused = Unit
Ends n out_of_fuel = Nothing

then_parse-Ends :
    {A B : Type 0} (n m : ℕ) (p : Parsed A) (k : A → List Token → Parsed B)
    → Ends n p
    → ((a : A) (ts : List Token) → length ts < n → Ends m (k a ts))
    → Ends m (then_parse p k)
then_parse-Ends n m (parsed a ts) k h f = f a ts h
then_parse-Ends n m refused k h f = tt
then_parse-Ends n m out_of_fuel k h f = elim h [ ]

advance-or : (ts : List Token) → is_or (peek ts) ≡ true → length (advance ts) + 1 ≡ length ts
advance-or [] h = cc
advance-or (t ∷ ts) h = ground arith

advance-and : (ts : List Token) → is_and (peek ts) ≡ true → length (advance ts) + 1 ≡ length ts
advance-and [] h = cc
advance-and (t ∷ ts) h = ground arith

advance-rparen :
    (ts : List Token) → is_rparen (peek ts) ≡ true → length (advance ts) + 1 ≡ length ts
advance-rparen [] h = cc
advance-rparen (t ∷ ts) h = ground arith

close-Ends : (n : ℕ) (node : Node) (ts : List Token) → length ts < n → Ends n (close node ts)
close-Ends n node ts h = elim (Bool-cases (is_rparen (peek ts))) [
  | inl p ↦ rw p (omega (arith, advance-rparen ts p))
  | inr p ↦ rw p tt
]

mutual
  unfolding parse_or_expr

  parse_or_expr-Ends :
      (n : ℕ) (ts : List Token) → 8 * length ts + 3 ≤ n → Ends (length ts) (parse_or_expr n ts)
  parse_or_expr-Ends zero ts h = absurd (omega (arith, h))
  parse_or_expr-Ends (suc n) ts h =
      then_parse-Ends (length ts) (length ts) (parse_and_expr n ts)
        (λ left rest. or_tail n left rest) (parse_and_expr-Ends n ts (omega (arith, h)))
        (λ left rest l. or_tail-Ends n (length ts) left rest l (omega (arith, h, l)))

  or_tail-Ends :
      (n m : ℕ) (left : Node) (ts : List Token)
      → length ts < m
      → 8 * length ts + 4 ≤ n
      → Ends m (or_tail n left ts)
  or_tail-Ends zero m left ts l h = absurd (omega (arith, h))
  or_tail-Ends (suc n) m left ts l h = elim (Bool-cases (is_or (peek ts))) [
    | inr p ↦ rw (or_tail, p) l
    | inl p ↦
        rw (or_tail, p)
          (then_parse-Ends m m (or_loop n ts) (λ cs rest. parsed (or_node (child left cs)) rest)
            (or_loop-Ends n m ts l (omega (arith, h))) (λ cs rest l'. l'))
  ]

  or_loop-Ends :
      (n m : ℕ) (ts : List Token) → length ts < m → 8 * length ts + 3 ≤ n → Ends m (or_loop n ts)
  or_loop-Ends zero m ts l h = absurd (omega (arith, h))
  or_loop-Ends (suc n) m ts l h = elim (Bool-cases (is_or (peek ts))) [
    | inr p ↦ rw (or_loop, p) l
    | inl p ↦
        let a = advance-or ts p in
        rw (or_loop, p)
          (then_parse-Ends (length (advance ts)) m (parse_and_expr n (advance ts))
            (λ right rest. then_parse (or_loop n rest) (λ cs rest'. parsed (child right cs) rest'))
            (parse_and_expr-Ends n (advance ts) (omega (arith, h, a)))
            (λ right rest l'.
              then_parse-Ends m m (or_loop n rest) (λ cs rest'. parsed (child right cs) rest')
                (or_loop-Ends n m rest (omega (arith, l, l', a)) (omega (arith, h, l', a)))
                (λ cs rest' l''. l'')))
  ]

  parse_and_expr-Ends :
      (n : ℕ) (ts : List Token) → 8 * length ts + 2 ≤ n → Ends (length ts) (parse_and_expr n ts)
  parse_and_expr-Ends zero ts h = absurd (omega (arith, h))
  parse_and_expr-Ends (suc n) ts h =
      then_parse-Ends (length ts) (length ts) (parse_atom n ts) (λ left rest. and_tail n left rest)
        (parse_atom-Ends n ts (omega (arith, h)))
        (λ left rest l. and_tail-Ends n (length ts) left rest l (omega (arith, h, l)))

  and_tail-Ends :
      (n m : ℕ) (left : Node) (ts : List Token)
      → length ts < m
      → 8 * length ts + 2 ≤ n
      → Ends m (and_tail n left ts)
  and_tail-Ends zero m left ts l h = absurd (omega (arith, h))
  and_tail-Ends (suc n) m left ts l h = elim (Bool-cases (is_and (peek ts))) [
    | inr p ↦ rw (and_tail, p) l
    | inl p ↦
        rw (and_tail, p)
          (then_parse-Ends m m (and_loop n ts) (λ cs rest. parsed (and_node (child left cs)) rest)
            (and_loop-Ends n m ts l (omega (arith, h))) (λ cs rest l'. l'))
  ]

  and_loop-Ends :
      (n m : ℕ) (ts : List Token) → length ts < m → 8 * length ts + 1 ≤ n → Ends m (and_loop n ts)
  and_loop-Ends zero m ts l h = absurd (omega (arith, h))
  and_loop-Ends (suc n) m ts l h = elim (Bool-cases (is_and (peek ts))) [
    | inr p ↦ rw (and_loop, p) l
    | inl p ↦
        let a = advance-and ts p in
        rw (and_loop, p)
          (then_parse-Ends (length (advance ts)) m (parse_atom n (advance ts))
            (λ right rest. then_parse (and_loop n rest) (λ cs rest'. parsed (child right cs) rest'))
            (parse_atom-Ends n (advance ts) (omega (arith, h, a)))
            (λ right rest l'.
              then_parse-Ends m m (and_loop n rest) (λ cs rest'. parsed (child right cs) rest')
                (and_loop-Ends n m rest (omega (arith, l, l', a)) (omega (arith, h, l', a)))
                (λ cs rest' l''. l'')))
  ]

  parse_atom-Ends :
      (n : ℕ) (ts : List Token) → 8 * length ts + 1 ≤ n → Ends (length ts) (parse_atom n ts)
  parse_atom-Ends zero ts h = absurd (omega (arith, h))
  parse_atom-Ends (suc n) [] h = tt
  parse_atom-Ends (suc n) (ident s ∷ ts) h = omega arith
  parse_atom-Ends (suc n) (ref s ∷ ts) h = omega arith
  parse_atom-Ends (suc n) (lparen ∷ ts) h =
      then_parse-Ends (length ts) (suc (length ts)) (parse_or_expr n ts)
        (λ node rest. close node rest) (parse_or_expr-Ends n ts (omega (arith, h)))
        (λ node rest l. close-Ends (suc (length ts)) node rest (omega (arith, l)))
  parse_atom-Ends (suc n) (and_op ∷ ts) h = tt
  parse_atom-Ends (suc n) (or_op ∷ ts) h = tt
  parse_atom-Ends (suc n) (rparen ∷ ts) h = tt
  parse_atom-Ends (suc n) (eof ∷ ts) h = tt

-- The parser always ends, on every list of tokens: it refuses the tokens, or returns a tree and has
-- consumed at least one token.
pub parse-ends :
    (ts : List Token)
    → ((parse ts) ≡ refused)
      ⊎ ((node : Node) × (rest : List Token) × (parse ts ≡ parsed node rest)
          × (length rest < length ts))
unfolding parse
parse-ends ts = ended (parse ts) (
    then_parse-Ends (length ts) (length ts) _ _
      (parse_or_expr-Ends (8 * length ts + 8) ts (omega arith))
      (λ node rest l. elim (Bool-cases (is_eof (peek rest))) [ inl p ↦ rw p l | inr p ↦ rw p tt ]))
  where
    ended :
        (p : Parsed Node)
        → Ends (length ts) p
        → (p ≡ refused)
          ⊎ ((node : Node) × (rest : List Token) × (p ≡ parsed node rest)
              × (length rest < length ts))
    ended (parsed node rest) h = inr (node, rest, refl, h)
    ended refused h = inl refl
    ended out_of_fuel h = elim h [ ]
