-- ===== src/Dsl/Pipeline/References.antt =====
-- References of an expression of internal/config/matrix_dsl.go, from its text to its expansion: what
-- `ParseAndExpandDSL` looks up is what `extractRefs` lists.
use llama_skein.Base.{
  ◌≡◌, inl, inr, refl, ap, subst, ◌∙◌, String, none, some, List, [], ◌∷◌, ◌++◌, In, In-append_left,
  In-append_right, Bool-cases, if◌then◌else◌,
}
use llama_skein.Base.Maps.{lookup, contains, In-contains, string_eq}
use llama_skein.Dsl.{Node, Refs, unknown_ref, too_many, Expanded, ok, failed, expand}
use llama_skein.Dsl.References.{Mentions, Blames, expand-Blames}
use llama_skein.Dsl.Parser.{
  Token, ident, and_op, or_op, lparen, rparen, ref, eof, Parsed, parsed, refused, out_of_fuel,
  parse,
}
use llama_skein.Dsl.Parser.References.{Read, parse-Read}
use llama_skein.Dsl.Lexer.{Unicode, Lexed, lexed, missing_name, unexpected, starved, tokenize}
use llama_skein.Dsl.Pipeline.{
  DslResult, sets, empty_expression, bad_tokens, bad_syntax, bad_expansion, exhausted,
  from_expanded, from_parsed, from_lexed, from_trimmed, parse_and_expand_dsl, trim_space, refs_from,
  refs_of, extract_refs,
}
use llama_skein.Dsl.Pipeline.Blanks.{Separate, tokenize-trim_space}

refs_from_kept :
    (found : List String) (ts : List Token) (s : String) → In s found → In s (refs_from found ts)
unfolding refs_from
refs_from_kept found [] s i = i
refs_from_kept found (ref x ∷ ts) s i = elim (Bool-cases (contains found x)) [
  | inl b ↦ rw b (refs_from_kept found ts s i)
  | inr b ↦ rw b (refs_from_kept (found ++ x ∷ []) ts s (In-append_left s found (x ∷ []) i))
]
refs_from_kept found (ident x ∷ ts) s i = refs_from_kept found ts s i
refs_from_kept found (and_op ∷ ts) s i = refs_from_kept found ts s i
refs_from_kept found (or_op ∷ ts) s i = refs_from_kept found ts s i
refs_from_kept found (lparen ∷ ts) s i = refs_from_kept found ts s i
refs_from_kept found (rparen ∷ ts) s i = refs_from_kept found ts s i
refs_from_kept found (eof ∷ ts) s i = refs_from_kept found ts s i

refs_from_all :
    (found : List String) (ts : List Token) (s : String) → In (ref s) ts → In s (refs_from found ts)
unfolding refs_from
refs_from_all found [] s i = elim i [ ]
refs_from_all found (ref x ∷ ts) s (inr i) =
    refs_from_all (if contains found x then found else found ++ x ∷ []) ts s i
refs_from_all found (ref x ∷ ts) s (inl e) =
    let p : s ≡ x = cc e in
    refs_from_kept (if contains found x then found else found ++ x ∷ []) ts s (rw p (now found x))
  where
    now :
        (found : List String) (x : String)
        → In x (if contains found x then found else found ++ x ∷ [])
    now found x = elim (Bool-cases (contains found x)) [
      | inl b ↦ rw b (In-contains found x b)
      | inr b ↦ rw b (In-append_right x found (x ∷ []) (inl refl))
    ]
refs_from_all found (ident x ∷ ts) s (inl e) = cc e
refs_from_all found (and_op ∷ ts) s (inl e) = cc e
refs_from_all found (or_op ∷ ts) s (inl e) = cc e
refs_from_all found (lparen ∷ ts) s (inl e) = cc e
refs_from_all found (rparen ∷ ts) s (inl e) = cc e
refs_from_all found (eof ∷ ts) s (inl e) = cc e
refs_from_all found (ident x ∷ ts) s (inr i) = refs_from_all found ts s i
refs_from_all found (and_op ∷ ts) s (inr i) = refs_from_all found ts s i
refs_from_all found (or_op ∷ ts) s (inr i) = refs_from_all found ts s i
refs_from_all found (lparen ∷ ts) s (inr i) = refs_from_all found ts s i
refs_from_all found (rparen ∷ ts) s (inr i) = refs_from_all found ts s i
refs_from_all found (eof ∷ ts) s (inr i) = refs_from_all found ts s i

-- An unknown reference is a listed one, and it is not resolved.
abbrev pub Listed : List String → Refs → DslResult → Type 0
Listed found refs (bad_expansion (unknown_ref s)) = In s found × (lookup s refs ≡ none)
Listed found refs (bad_expansion too_many) = Unit
Listed found refs (sets combos) = Unit
Listed found refs empty_expression = Unit
Listed found refs bad_tokens = Unit
Listed found refs bad_syntax = Unit
Listed found refs exhausted = Unit

expanded-Listed :
    (P : String → Type 0) (found : List String) (refs : Refs) (e : Expanded)
    → ((s : String) → P s → In s found)
    → Blames P refs e
    → Listed found refs (from_expanded e)
expanded-Listed P found refs (ok combos) f h = tt
expanded-Listed P found refs (failed (unknown_ref s)) f h = (f s h.0, h.1)
expanded-Listed P found refs (failed too_many) f h = tt

parsed-Listed :
    (refs : Refs) (ts : List Token) (p : Parsed Node)
    → Read Mentions ts p
    → Listed (refs_from [] ts) refs (from_parsed refs p)
parsed-Listed refs ts (parsed tree rest) h =
    expanded-Listed (λ s. Mentions s tree) (refs_from [] ts) refs (expand tree refs)
      (λ s m. refs_from_all [] ts s (h.0 s m)) (expand-Blames tree refs)
parsed-Listed refs ts refused h = tt
parsed-Listed refs ts out_of_fuel h = tt

lexed-Listed :
    (refs : Refs) (l : Lexed) (found : List String)
    → refs_of l ≡ some found
    → Listed found refs (from_lexed refs l)
lexed-Listed refs (lexed ts) found e =
    let p : refs_from [] ts ≡ found = cc e in
    subst (λ x. Listed x refs (from_parsed refs (parse ts))) p
      (parsed-Listed refs ts (parse ts) (parse-Read ts))
lexed-Listed refs missing_name found e = tt
lexed-Listed refs unexpected found e = tt
lexed-Listed refs starved found e = tt

trimmed-Listed :
    (u : Unicode) (refs : Refs) (t : String) (found : List String)
    → refs_of (tokenize u t) ≡ some found
    → Listed found refs (from_trimmed u refs t)
trimmed-Listed u refs String.[] found e = tt
trimmed-Listed u refs (String.◌∷◌ c t) found e =
    lexed-Listed refs (tokenize u (String.◌∷◌ c t)) found e

-- When `ParseAndExpandDSL` stops at an unknown reference, `extractRefs` lists it for the same text, and
-- it is not among those that are resolved.
pub parse_and_expand_dsl-Listed :
    (u : Unicode) (dsl : String) (refs : Refs) (found : List String)
    → Separate u
    → extract_refs u dsl ≡ some found
    → Listed found refs (parse_and_expand_dsl u dsl refs)
unfolding parse_and_expand_dsl extract_refs
parse_and_expand_dsl-Listed u dsl refs found h e =
    trimmed-Listed u refs (trim_space u dsl) found (ap refs_of (tokenize-trim_space u dsl h) ∙ e)
