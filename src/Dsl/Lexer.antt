-- ===== src/Dsl/Lexer.antt =====
-- The tokenizer of internal/config/matrix_dsl.go, and the functions that call it. The tables of the
-- package unicode are parameters; the loop runs on fuel, and Dsl/Lexer/Fuel has how much is enough.
pub mod Fuel
pub mod Ends
use Prim.Native.Char.{Char, code}
use llama_skein.Base.{
  ℕ, zero, suc, ◌+◌, String, Bool, true, false, ◌||◌, List, [], ◌∷◌, ◌++◌, map, ◌==◌, if◌then◌else◌,
}
use llama_skein.Base.Maps.{contains, string_eq}
use llama_skein.Dsl.{Node, Combos, Refs, Expanded, ok, failed, ExpandError, expand, dedup_and_sort}
use llama_skein.Dsl.Parser.{
  Token, ident, and_op, or_op, lparen, rparen, ref, eof, Parsed, parsed, refused, out_of_fuel,
  parse,
}

-- `unicode.IsLetter`, `IsDigit` and `IsSpace`
pub record Unicode : Type 0 where
  pub is_letter : Char → Bool
  pub is_digit : Char → Bool
  pub is_space : Char → Bool

abbrev pub size : String → ℕ
size String.[] = 0
size (String.◌∷◌ c s) = suc (size s)

pub data Lexed : Type 0 where
  lexed : List Token → Lexed
  missing_name : Lexed
  unexpected : Lexed
  starved : Lexed

abbrev pub emit : Token → Lexed → Lexed
emit t (lexed ts) = lexed (t ∷ ts)
emit t missing_name = missing_name
emit t unexpected = unexpected
emit t starved = starved

-- The branches of the switch.
pub data CharClass : Type 0 where
  blank : CharClass
  single : Token → CharClass
  plus : CharClass
  word : CharClass
  strange : CharClass

module _ (u : Unicode) where
  -- `isIdentChar`
  unfoldable pub is_ident_char : Char → Bool
  is_ident_char c =
      u.is_letter c || u.is_digit c || code c == b'_' || code c == b'-' || code c == b'.'

  unfoldable pub class_of : Char → CharClass
  unfolding is_ident_char
  class_of c =
      if u.is_space c
      then blank
      else (if code c == b'&'
          then single and_op
          else (if code c == b'|'
              then single or_op
              else (if code c == b'('
                  then single lparen
                  else (if code c == b')'
                      then single rparen
                      else (if code c == b'+'
                          then plus
                          else (if is_ident_char c then word else strange))))))

  -- The inner loop over an identifier: it, and what follows it.
  unfoldable pub span_ident : String → String × String
  unfolding is_ident_char
  span_ident String.[] = (String.[], String.[])
  span_ident (String.◌∷◌ c s) =
      let (name, rest) = span_ident s in
      if is_ident_char c then (String.◌∷◌ c name, rest) else (String.[], String.◌∷◌ c s)

  -- The loop of `tokenize`.
  unfoldable pub lex : ℕ → String → Lexed
  unfolding class_of span_ident
  lex zero s = starved
  lex (suc n) String.[] = lexed (eof ∷ [])
  lex (suc n) (String.◌∷◌ c s) = elim (class_of c) [
    | blank ↦ lex n s
    | single t ↦ emit t (lex n s)
    | plus ↦ elim ((span_ident s).0) [
      | String.[] ↦ missing_name
      | String.◌∷◌ d name ↦ emit (ref (String.◌∷◌ d name)) (lex n (span_ident s).1)
    ]
    | word ↦ emit (ident (String.◌∷◌ c (span_ident s).0)) (lex n (span_ident s).1)
    | strange ↦ unexpected
  ]

  -- `tokenize`
  unfoldable pub tokenize : String → Lexed
  unfolding lex
  tokenize input = lex (size input + 1) input
