-- ===== src/Dsl/Parser/References.antt =====
-- The references that the parser of internal/config/matrix_dsl.go reads are among the tokens.
use llama_skein.Base.{
  ℕ, zero, suc, ◌+◌, ◌*◌, inl, inr, ap, String, List, [], ◌∷◌, In, length, Bool-cases,
  if◌then◌else◌,
}
use llama_skein.Dsl.{Node}
use llama_skein.Dsl.References.{Mentions, MentionsIn}
use llama_skein.Dsl.Parser.{
  Token, ident, and_op, or_op, lparen, rparen, ref, eof, peek, advance, is_or, is_and, is_rparen,
  is_eof, Parsed, parsed, refused, out_of_fuel, then_parse, close, parse_or_expr, or_tail, or_loop,
  parse_and_expr, and_tail, and_loop, parse_atom, parse,
}

-- What was read mentions only references among the tokens, and the rest is among them.
abbrev pub Read : {A : Type 0} → (String → A → Type 0) → List Token → Parsed A → Type 0
Read M ts (parsed a rest) =
    ((s : String) → M s a → In (ref s) ts) × ((t : Token) → In t rest → In t ts)
Read M ts refused = Unit
Read M ts out_of_fuel = Unit

then_parse-Read :
    {A B : Type 0} (M : String → A → Type 0) (N : String → B → Type 0) (ts : List Token)
    (p : Parsed A) (k : A → List Token → Parsed B)
    → Read M ts p
    → ((a : A) (rest : List Token)
        → ((s : String) → M s a → In (ref s) ts)
        → ((t : Token) → In t rest → In t ts)
        → Read N ts (k a rest))
    → Read N ts (then_parse p k)
then_parse-Read M N ts (parsed a rest) k h f = f a rest h.0 h.1
then_parse-Read M N ts refused k h f = tt
then_parse-Read M N ts out_of_fuel k h f = tt

weaken :
    {A : Type 0} (M : String → A → Type 0) (ts rest : List Token) (p : Parsed A)
    → ((t : Token) → In t rest → In t ts)
    → Read M rest p
    → Read M ts p
weaken M ts rest (parsed a left) f h = (λ s m. f (ref s) (h.0 s m), λ t i. f t (h.1 t i))
weaken M ts rest refused f h = tt
weaken M ts rest out_of_fuel f h = tt

In-advance : (t : Token) (ts : List Token) → In t (advance ts) → In t ts
In-advance t [] i = i
In-advance t (eof ∷ ts) i = i
In-advance t (ident s ∷ ts) i = inr i
In-advance t (and_op ∷ ts) i = inr i
In-advance t (or_op ∷ ts) i = inr i
In-advance t (lparen ∷ ts) i = inr i
In-advance t (rparen ∷ ts) i = inr i
In-advance t (ref s ∷ ts) i = inr i

close-Read :
    (ts : List Token) (node : Node) (rest : List Token)
    → ((s : String) → Mentions s node → In (ref s) ts)
    → ((t : Token) → In t rest → In t ts)
    → Read Mentions ts (close node rest)
close-Read ts node rest m f = elim (Bool-cases (is_rparen (peek rest))) [
  | inl b ↦ rw b (m, λ t i. f t (In-advance t rest i))
  | inr b ↦ rw b tt
]

mutual
  unfolding parse_or_expr

  parse_or_expr-Read : (n : ℕ) (ts : List Token) → Read Mentions ts (parse_or_expr n ts)
  parse_or_expr-Read zero ts = tt
  parse_or_expr-Read (suc n) ts =
      then_parse-Read Mentions Mentions ts (parse_and_expr n ts) _ (parse_and_expr-Read n ts)
        (λ left rest m f. or_tail-Read n ts left rest m f)

  or_tail-Read :
      (n : ℕ) (ts : List Token) (left : Node) (rest : List Token)
      → ((s : String) → Mentions s left → In (ref s) ts)
      → ((t : Token) → In t rest → In t ts)
      → Read Mentions ts (or_tail n left rest)
  or_tail-Read zero ts left rest m f = tt
  or_tail-Read (suc n) ts left rest m f = elim (Bool-cases (is_or (peek rest))) [
    | inl b ↦ rw b (
        then_parse-Read MentionsIn Mentions ts (or_loop n rest) _
          (weaken MentionsIn ts rest (or_loop n rest) f (or_loop-Read n rest))
          (λ cs rest' mc g. (λ s i. elim i [ inl x ↦ m s x | inr y ↦ mc s y ], g)))
    | inr b ↦ rw b (m, f)
  ]

  or_loop-Read : (n : ℕ) (ts : List Token) → Read MentionsIn ts (or_loop n ts)
  or_loop-Read zero ts = tt
  or_loop-Read (suc n) ts = elim (Bool-cases (is_or (peek ts))) [
    | inl b ↦ rw b (
        then_parse-Read Mentions MentionsIn ts (parse_and_expr n (advance ts)) _
          (weaken Mentions ts (advance ts) (parse_and_expr n (advance ts))
            (λ t i. In-advance t ts i) (parse_and_expr-Read n (advance ts)))
          (λ right rest m f.
            then_parse-Read MentionsIn MentionsIn ts (or_loop n rest) _
              (weaken MentionsIn ts rest (or_loop n rest) f (or_loop-Read n rest))
              (λ cs rest' mc g. (λ s i. elim i [ inl x ↦ m s x | inr y ↦ mc s y ], g))))
    | inr b ↦ rw b (λ s i. absurd i, λ t i. i)
  ]

  parse_and_expr-Read : (n : ℕ) (ts : List Token) → Read Mentions ts (parse_and_expr n ts)
  parse_and_expr-Read zero ts = tt
  parse_and_expr-Read (suc n) ts =
      then_parse-Read Mentions Mentions ts (parse_atom n ts) _ (parse_atom-Read n ts)
        (λ left rest m f. and_tail-Read n ts left rest m f)

  and_tail-Read :
      (n : ℕ) (ts : List Token) (left : Node) (rest : List Token)
      → ((s : String) → Mentions s left → In (ref s) ts)
      → ((t : Token) → In t rest → In t ts)
      → Read Mentions ts (and_tail n left rest)
  and_tail-Read zero ts left rest m f = tt
  and_tail-Read (suc n) ts left rest m f = elim (Bool-cases (is_and (peek rest))) [
    | inl b ↦ rw b (
        then_parse-Read MentionsIn Mentions ts (and_loop n rest) _
          (weaken MentionsIn ts rest (and_loop n rest) f (and_loop-Read n rest))
          (λ cs rest' mc g. (λ s i. elim i [ inl x ↦ m s x | inr y ↦ mc s y ], g)))
    | inr b ↦ rw b (m, f)
  ]

  and_loop-Read : (n : ℕ) (ts : List Token) → Read MentionsIn ts (and_loop n ts)
  and_loop-Read zero ts = tt
  and_loop-Read (suc n) ts = elim (Bool-cases (is_and (peek ts))) [
    | inl b ↦ rw b (
        then_parse-Read Mentions MentionsIn ts (parse_atom n (advance ts)) _
          (weaken Mentions ts (advance ts) (parse_atom n (advance ts)) (λ t i. In-advance t ts i)
            (parse_atom-Read n (advance ts)))
          (λ right rest m f.
            then_parse-Read MentionsIn MentionsIn ts (and_loop n rest) _
              (weaken MentionsIn ts rest (and_loop n rest) f (and_loop-Read n rest))
              (λ cs rest' mc g. (λ s i. elim i [ inl x ↦ m s x | inr y ↦ mc s y ], g))))
    | inr b ↦ rw b (λ s i. absurd i, λ t i. i)
  ]

  parse_atom-Read : (n : ℕ) (ts : List Token) → Read Mentions ts (parse_atom n ts)
  parse_atom-Read zero ts = tt
  parse_atom-Read (suc n) [] = tt
  parse_atom-Read (suc n) (ident s ∷ ts) = (λ x m. absurd m, λ t i. inr i)
  parse_atom-Read (suc n) (ref s ∷ ts) = (λ x m. inl (ap ref m), λ t i. inr i)
  parse_atom-Read (suc n) (lparen ∷ ts) =
      then_parse-Read Mentions Mentions (lparen ∷ ts) (parse_or_expr n ts) _
        (weaken Mentions (lparen ∷ ts) ts (parse_or_expr n ts) (λ t i. inr i)
          (parse_or_expr-Read n ts))
        (λ node rest m f. close-Read (lparen ∷ ts) node rest m f)
  parse_atom-Read (suc n) (and_op ∷ ts) = tt
  parse_atom-Read (suc n) (or_op ∷ ts) = tt
  parse_atom-Read (suc n) (rparen ∷ ts) = tt
  parse_atom-Read (suc n) (eof ∷ ts) = tt

pub parse-Read : (ts : List Token) → Read Mentions ts (parse ts)
unfolding parse
parse-Read ts =
    then_parse-Read Mentions Mentions ts (parse_or_expr (8 * length ts + 8) ts) _
      (parse_or_expr-Read (8 * length ts + 8) ts) (λ node rest m f. ended node rest m f)
  where
    ended :
        (node : Node) (rest : List Token)
        → ((s : String) → Mentions s node → In (ref s) ts)
        → ((t : Token) → In t rest → In t ts)
        → Read Mentions ts (if is_eof (peek rest) then parsed node rest else refused)
    ended node rest m f = elim (Bool-cases (is_eof (peek rest))) [
      | inl b ↦ rw b (m, f)
      | inr b ↦ rw b tt
    ]
