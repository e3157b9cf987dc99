-- ===== src/Dsl/Lexer/Fuel.antt =====
-- The tokenizer of internal/config/matrix_dsl.go ends on every input.
use llama_skein.Base.{
  ℕ, zero, suc, ◌+◌, ◌≤◌, ◌<◌, ◌≡◌, ◌⊎◌, refl, inl, inr, String, List, arith, Bool-cases, Nothing,
}
use llama_skein.Dsl.Parser.{Token, ident, ref}
use llama_skein.Dsl.Lexer.{
  Unicode, size, Lexed, lexed, missing_name, unexpected, starved, emit, CharClass, blank, single,
  plus, word, strange, is_ident_char, class_of, span_ident, lex, tokenize,
}

pub span_ident-size : (u : Unicode) (s : String) → size (span_ident u s).1 ≤ size s
unfolding span_ident
span_ident-size u String.[] = omega arith
span_ident-size u (String.◌∷◌ c s) = elim (Bool-cases (is_ident_char u c)) [
  | inl p ↦ rw p (omega (arith, span_ident-size u s))
  | inr p ↦ rw p (omega arith)
]

-- Some tokens, or a refusal.
abbrev pub Fed : Lexed → Type 0
Fed (lexed ts) = Unit
Fed missing_name = Unit
Fed unexpected = Unit
Fed starved = Nothing

emit-Fed : (t : Token) (l : Lexed) → Fed l → Fed (emit t l)
emit-Fed t (lexed ts) h = tt
emit-Fed t missing_name h = tt
emit-Fed t unexpected h = tt
emit-Fed t starved h = h

lex-Fed : (u : Unicode) (n : ℕ) (s : String) → size s < n → Fed (lex u n s)
unfolding lex
lex-Fed u zero s h = absurd (omega (arith, h))
lex-Fed u (suc n) String.[] h = tt
lex-Fed u (suc n) (String.◌∷◌ c s) h =
    by_class (class_of u c) (lex-Fed u n s (omega (arith, h)))
      (lex-Fed u n (span_ident u s).1 (omega (arith, h, span_ident-size u s)))
  where
    named :
        (name : String)
        → Fed (lex u n (span_ident u s).1)
        → Fed (elim name [
          | String.[] ↦ missing_name
          | String.◌∷◌ d name' ↦ emit (ref (String.◌∷◌ d name')) (lex u n (span_ident u s).1)
        ])
    named String.[] r = tt
    named (String.◌∷◌ d name) r = emit-Fed _ _ r

    by_class :
        (k : CharClass)
        → Fed (lex u n s)
        → Fed (lex u n (span_ident u s).1)
        → Fed (elim k [
          | blank ↦ lex u n s
          | single t ↦ emit t (lex u n s)
          | plus ↦ elim ((span_ident u s).0) [
            | String.[] ↦ missing_name
            | String.◌∷◌ d name ↦ emit (ref (String.◌∷◌ d name)) (lex u n (span_ident u s).1)
          ]
          | word ↦ emit (ident (String.◌∷◌ c (span_ident u s).0)) (lex u n (span_ident u s).1)
          | strange ↦ unexpected
        ])
    by_class blank a b = a
    by_class (single t) a b = emit-Fed t _ a
    by_class plus a b = named (span_ident u s).0 b
    by_class word a b = emit-Fed _ _ b
    by_class strange a b = tt

-- The tokenizer ends on every input: it returns tokens, or it refuses a `+` without a name or a
-- character that is not of the language.
pub tokenize-ends :
    (u : Unicode) (input : String)
    → ((ts : List Token) × (tokenize u input ≡ lexed ts))
      ⊎ (tokenize u input ≡ missing_name)
      ⊎ (tokenize u input ≡ unexpected)
unfolding tokenize
tokenize-ends u input =
    ended (lex u (size input + 1) input) (lex-Fed u (size input + 1) input (omega arith))
  where
    ended :
        (l : Lexed)
        → Fed l
        → ((ts : List Token) × (l ≡ lexed ts)) ⊎ (l ≡ missing_name) ⊎ (l ≡ unexpected)
    ended (lexed ts) h = inl (ts, refl)
    ended missing_name h = inr (inl refl)
    ended unexpected h = inr (inr refl)
    ended starved h = elim h [ ]
