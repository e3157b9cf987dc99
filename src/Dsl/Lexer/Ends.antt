-- ===== src/Dsl/Lexer/Ends.antt =====
-- The tokenizer of internal/config/matrix_dsl.go puts one end behind the tokens.
use Prim.Native.Char.{Char, code}
use llama_skein.Base.{
  ℕ, zero, suc, ◌+◌, ◌≡◌, refl, subst, inl, inr, String, Bool, true, false, List, ◌∷◌, Bool-cases,
  ◌==◌, if◌then◌else◌,
}
use llama_skein.Dsl.Parser.{Token, ident, lparen, rparen, ref}
use llama_skein.Dsl.Parser.Rest.{EndsOnce}
use llama_skein.Dsl.Lexer.{
  Unicode, size, Lexed, lexed, missing_name, unexpected, starved, emit, CharClass, blank, single,
  plus, word, strange, class_of, span_ident, lex, tokenize,
}

-- The tokens, if there are any, have one end.
abbrev Ended : Lexed → Type 0
Ended (lexed ts) = EndsOnce ts
Ended missing_name = Unit
Ended unexpected = Unit
Ended starved = Unit

-- The token is no end.
abbrev Inner : CharClass → Type 0
Inner (single t) = (ts : List Token) → EndsOnce ts → EndsOnce (t ∷ ts)
Inner blank = Unit
Inner plus = Unit
Inner word = Unit
Inner strange = Unit

class_of-Inner : (u : Unicode) (c : Char) → Inner (class_of u c)
unfolding class_of
class_of-Inner u c = elim (Bool-cases (u.is_space c)) [
  | inl p ↦ rw p tt
  | inr p ↦ elim (Bool-cases (code c == b'&')) [
    | inl q ↦ rw (p, q) (λ ts h. h)
    | inr q ↦ elim (Bool-cases (code c == b'|')) [
      | inl r ↦ rw (p, q, r) (λ ts h. h)
      | inr r ↦ rw (p, q, r) (brackets (code c == b'(') (code c == b')') (code c == b'+') _)
    ]
  ]
]
  where
    brackets :
        (l r p w : Bool)
        → Inner (
            if l
            then single lparen
            else (if r then single rparen else (if p then plus else (if w then word else strange))))
    brackets true r p w = λ ts h. h
    brackets false true p w = λ ts h. h
    brackets false false true w = tt
    brackets false false false true = tt
    brackets false false false false = tt

emit-Ended :
    (t : Token) (l : Lexed)
    → ((ts : List Token) → EndsOnce ts → EndsOnce (t ∷ ts))
    → Ended l
    → Ended (emit t l)
emit-Ended t (lexed ts) f h = f ts h
emit-Ended t missing_name f h = tt
emit-Ended t unexpected f h = tt
emit-Ended t starved f h = tt

lex-Ended : (u : Unicode) (n : ℕ) (s : String) → Ended (lex u n s)
unfolding lex
lex-Ended u zero s = tt
lex-Ended u (suc n) String.[] = refl
lex-Ended u (suc n) (String.◌∷◌ c s) =
    by_class (class_of u c) (class_of-Inner u c) (lex-Ended u n s)
      (lex-Ended u n (span_ident u s).1)
  where
    named :
        (name : String)
        → Ended (lex u n (span_ident u s).1)
        → Ended (elim name [
          | String.[] ↦ missing_name
          | String.◌∷◌ d name' ↦ emit (ref (String.◌∷◌ d name')) (lex u n (span_ident u s).1)
        ])
    named String.[] r = tt
    named (String.◌∷◌ d name) r =
        emit-Ended (ref (String.◌∷◌ d name)) (lex u n (span_ident u s).1) (λ ts h. h) r

    by_class :
        (k : CharClass)
        → Inner k
        → Ended (lex u n s)
        → Ended (lex u n (span_ident u s).1)
        → Ended (elim k [
          | blank ↦ lex u n s
          | single t ↦ emit t (lex u n s)
          | plus ↦ elim ((span_ident u s).0) [
            | String.[] ↦ missing_name
            | String.◌∷◌ d name ↦ emit (ref (String.◌∷◌ d name)) (lex u n (span_ident u s).1)
          ]
          | word ↦ emit (ident (String.◌∷◌ c (span_ident u s).0)) (lex u n (span_ident u s).1)
          | strange ↦ unexpected
        ])
    by_class blank i a b = a
    by_class (single t) i a b = emit-Ended t (lex u n s) i a
    by_class plus i a b = named (span_ident u s).0 b
    by_class word i a b =
        emit-Ended (ident (String.◌∷◌ c (span_ident u s).0)) (lex u n (span_ident u s).1)
          (λ ts h. h) b
    by_class strange i a b = tt

-- The tokens of a text have one end, which is the last of them.
pub tokenize-EndsOnce :
    (u : Unicode) (input : String) (ts : List Token) → tokenize u input ≡ lexed ts → EndsOnce ts
unfolding tokenize
tokenize-EndsOnce u input ts h = subst Ended h (lex-Ended u (size input + 1) input)
