-- ===== src/Dsl/Pipeline/Blanks.antt =====
-- Blanks around an expression of internal/config/matrix_dsl.go do not change its tokens.
use llama_skein.Base.{
  ℕ, zero, suc, ◌+◌, ◌≤◌, ◌<◌, ◌≡◌, ◌⊎◌, refl, sym, ap, ◌∙◌, inl, inr, String, true, false, arith,
  Bool-cases,
}
use llama_skein.Dsl.Parser.{ident, ref}
use llama_skein.Dsl.Lexer.{
  Unicode, size, Lexed, missing_name, unexpected, emit, CharClass, blank, single, plus, word,
  strange, is_ident_char, class_of, span_ident, lex, tokenize,
}
use llama_skein.Dsl.Lexer.Fuel.{span_ident-size}
use llama_skein.Dsl.Pipeline.{trim_left, trim_right, keep_or_drop, trim_space}
use Prim.Native.Char.{Char}

-- What one character gives, from the tokens of what follows it and of what follows its word.
abbrev branch : Char → String → CharClass → Lexed → Lexed → Lexed
branch c name k rest after = elim k [
  | blank ↦ rest
  | single t ↦ emit t rest
  | plus ↦ elim name [
    | String.[] ↦ missing_name
    | String.◌∷◌ d name' ↦ emit (ref (String.◌∷◌ d name')) after
  ]
  | word ↦ emit (ident (String.◌∷◌ c name)) after
  | strange ↦ unexpected
]

lex-branch :
    (u : Unicode) (n : ℕ) (c : Char) (s : String)
    → lex u (suc n) (String.◌∷◌ c s)
      ≡ branch c (span_ident u s).0 (class_of u c) (lex u n s) (lex u n (span_ident u s).1)
unfolding lex
lex-branch u n c s = refl

-- More fuel than characters is enough.
lex-fuel : (u : Unicode) (n m : ℕ) (s : String) → size s < n → size s < m → lex u n s ≡ lex u m s
unfolding lex
lex-fuel u zero m s h k = absurd (omega (arith, h))
lex-fuel u (suc n) zero s h k = absurd (omega (arith, k))
lex-fuel u (suc n) (suc m) String.[] h k = refl
lex-fuel u (suc n) (suc m) (String.◌∷◌ c s) h k =
    ap (λ r. branch c (span_ident u s).0 (class_of u c) r (lex u n (span_ident u s).1))
      (lex-fuel u n m s (omega (arith, h)) (omega (arith, k)))
    ∙ ap (branch c (span_ident u s).0 (class_of u c) (lex u m s)) (
        lex-fuel u n m (span_ident u s).1 (omega (arith, h, span_ident-size u s))
          (omega (arith, k, span_ident-size u s)))

class_of_space : (u : Unicode) (c : Char) → u.is_space c ≡ true → class_of u c ≡ blank
unfolding class_of
class_of_space u c b = rw b refl

lex-blank :
    (u : Unicode) (n : ℕ) (c : Char) (s : String)
    → u.is_space c ≡ true
    → lex u (suc n) (String.◌∷◌ c s) ≡ lex u n s
lex-blank u n c s b =
    lex-branch u n c s
    ∙ ap (λ k. branch c (span_ident u s).0 k (lex u n s) (lex u n (span_ident u s).1))
        (class_of_space u c b)

lex_nil : (u : Unicode) (n : ℕ) → 1 ≤ n → lex u (suc n) String.[] ≡ lex u n String.[]
unfolding lex
lex_nil u zero h = absurd (omega (arith, h))
lex_nil u (suc n) h = refl

tokenize-trim_left : (u : Unicode) (s : String) → tokenize u (trim_left u s) ≡ tokenize u s
unfolding tokenize
tokenize-trim_left u String.[] = refl
tokenize-trim_left u (String.◌∷◌ c s) = elim (Bool-cases (u.is_space c)) [
  | inl b ↦ rw b (
      tokenize-trim_left u s
      ∙ sym (lex-blank u (size s + 1) c s b)
      ∙ ap (λ k. lex u k (String.◌∷◌ c s)) {x = suc (size s + 1)} (omega arith))
  | inr b ↦ rw b refl
]

-- No blank belongs to a word: what the tables of Unicode say of letters, digits and spaces.
abbrev pub Separate : Unicode → Type 0
Separate u = (c : Char) → u.is_space c ≡ true → is_ident_char u c ≡ false

-- What `trim_right` makes of a text that goes on.
keep_or_drop_cases :
    (u : Unicode) (c : Char) (t : String)
    → ((keep_or_drop u c t ≡ String.[]) × (u.is_space c ≡ true) × (t ≡ String.[]))
      ⊎ (keep_or_drop u c t ≡ String.◌∷◌ c t)
keep_or_drop_cases u c String.[] = elim (Bool-cases (u.is_space c)) [
  | inl b ↦ rw b (inl (refl, refl, refl))
  | inr b ↦ rw b (inr refl)
]
keep_or_drop_cases u c (String.◌∷◌ d t) = inr refl

span_ident-trim_right :
    (u : Unicode) (s : String)
    → Separate u
    → ((span_ident u (trim_right u s)).0 ≡ (span_ident u s).0)
      × ((span_ident u (trim_right u s)).1 ≡ trim_right u (span_ident u s).1)
unfolding span_ident
span_ident-trim_right u String.[] h = (refl, refl)
span_ident-trim_right u (String.◌∷◌ c s) h = elim (keep_or_drop_cases u c (trim_right u s)) [
  | inl (e, b, t) ↦ rw (h c b, e) (refl, refl)
  | inr e ↦
      let (x, y) = span_ident-trim_right u s h in
      elim (Bool-cases (is_ident_char u c)) [
        | inl i ↦ rw (e, i) (ap (String.◌∷◌ c) x, y)
        | inr i ↦ rw (e, i) (refl, sym e)
      ]
]

lex-trim_right :
    (u : Unicode) (n : ℕ) (s : String)
    → Separate u
    → size s < n
    → lex u n (trim_right u s) ≡ lex u n s
lex-trim_right u zero s h l = absurd (omega (arith, l))
lex-trim_right u (suc n) String.[] h l = refl
lex-trim_right u (suc n) (String.◌∷◌ c s) h l =
    let ih = lex-trim_right u n s h (omega (arith, l)) in
    let rest = lex-trim_right u n (span_ident u s).1 h (omega (arith, l, span_ident-size u s)) in
    elim (keep_or_drop_cases u c (trim_right u s)) [
      | inl (e, b, t) ↦
          ap (lex u (suc n)) e
          ∙ lex_nil u n (omega (arith, l))
          ∙ ap (lex u n) (sym t)
          ∙ ih
          ∙ sym (lex-blank u n c s b)
      | inr e ↦
          let (x, y) = span_ident-trim_right u s h in
          ap (lex u (suc n)) e
          ∙ lex-branch u n c (trim_right u s)
          ∙ ap
              (λ k.
                branch c (span_ident u (trim_right u s)).0 (class_of u c) k
                  (lex u n (span_ident u (trim_right u s)).1))
              ih
          ∙ ap
              (λ k.
                branch c k (class_of u c) (lex u n s) (lex u n (span_ident u (trim_right u s)).1))
              x
          ∙ ap (branch c (span_ident u s).0 (class_of u c) (lex u n s)) (ap (lex u n) y ∙ rest)
          ∙ sym (lex-branch u n c s)
    ]

size-trim_right : (u : Unicode) (s : String) → size (trim_right u s) ≤ size s
size-trim_right u String.[] = omega arith
size-trim_right u (String.◌∷◌ c s) = elim (keep_or_drop_cases u c (trim_right u s)) [
  | inl (e, b, t) ↦ rw e (omega arith)
  | inr e ↦ rw e (omega (arith, size-trim_right u s))
]

-- The tokens of an expression are those of the text without the blanks around it.
pub tokenize-trim_space :
    (u : Unicode) (s : String) → Separate u → tokenize u (trim_space u s) ≡ tokenize u s
unfolding tokenize trim_space
tokenize-trim_space u s h =
    lex-fuel u (size (trim_right u (trim_left u s)) + 1) (size (trim_left u s) + 1)
      (trim_right u (trim_left u s)) (omega arith)
      (omega (arith, size-trim_right u (trim_left u s)))
    ∙ lex-trim_right u (size (trim_left u s) + 1) (trim_left u s) h (omega arith)
    ∙ tokenize-trim_left u s
