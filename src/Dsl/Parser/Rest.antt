-- ===== src/Dsl/Parser/Rest.antt =====
-- The end of the tokens of internal/config/matrix_dsl.go is their last one, and a derivation leaves it.
use llama_skein.Base.{◌≡◌, ap, true, List, [], ◌∷◌, Nothing}
use llama_skein.Dsl.{Node, Children}
use llama_skein.Dsl.Parser.{Token, ident, and_op, or_op, lparen, rparen, ref, eof, peek, is_eof}
use llama_skein.Dsl.Parser.Grammar.{
  Disjunction, one, several, Disjuncts, no_more, next, Conjunction, single, joined, Conjuncts,
  last_one, and_then, Atom, named, referred, enclosed,
}

-- The tokens have one end, which is the last of them.
abbrev pub EndsOnce : List Token → Type 0
EndsOnce [] = Nothing
EndsOnce (eof ∷ ts) = ts ≡ []
EndsOnce (ident s ∷ ts) = EndsOnce ts
EndsOnce (ref s ∷ ts) = EndsOnce ts
EndsOnce (and_op ∷ ts) = EndsOnce ts
EndsOnce (or_op ∷ ts) = EndsOnce ts
EndsOnce (lparen ∷ ts) = EndsOnce ts
EndsOnce (rparen ∷ ts) = EndsOnce ts

mutual
  Disjunction-EndsOnce :
      {ts rest : List Token} {x : Node} → Disjunction ts x rest → EndsOnce ts → EndsOnce rest
  Disjunction-EndsOnce (one d) h = Conjunction-EndsOnce d h
  Disjunction-EndsOnce (several d ds) h = Disjuncts-EndsOnce ds (Conjunction-EndsOnce d h)

  Disjuncts-EndsOnce :
      {ts rest : List Token} {xs : Children} → Disjuncts ts xs rest → EndsOnce ts → EndsOnce rest
  Disjuncts-EndsOnce no_more h = h
  Disjuncts-EndsOnce (next d ds) h = Disjuncts-EndsOnce ds (Conjunction-EndsOnce d h)

  Conjunction-EndsOnce :
      {ts rest : List Token} {x : Node} → Conjunction ts x rest → EndsOnce ts → EndsOnce rest
  Conjunction-EndsOnce (single d) h = Atom-EndsOnce d h
  Conjunction-EndsOnce (joined d ds) h = Conjuncts-EndsOnce ds (Atom-EndsOnce d h)

  Conjuncts-EndsOnce :
      {ts rest : List Token} {xs : Children} → Conjuncts ts xs rest → EndsOnce ts → EndsOnce rest
  Conjuncts-EndsOnce last_one h = h
  Conjuncts-EndsOnce (and_then d ds) h = Conjuncts-EndsOnce ds (Atom-EndsOnce d h)

  Atom-EndsOnce : {ts rest : List Token} {x : Node} → Atom ts x rest → EndsOnce ts → EndsOnce rest
  Atom-EndsOnce named h = h
  Atom-EndsOnce referred h = h
  Atom-EndsOnce (enclosed d) h = Disjunction-EndsOnce d h

-- A disjunction at whose end the tokens end is all of them.
pub Disjunction-all :
    (ts rest : List Token) (x : Node)
    → EndsOnce ts
    → Disjunction ts x rest
    → is_eof (peek rest) ≡ true
    → rest ≡ eof ∷ []
Disjunction-all ts rest x h d e = at_end rest (Disjunction-EndsOnce d h) e
  where
    at_end : (rest : List Token) → EndsOnce rest → is_eof (peek rest) ≡ true → rest ≡ eof ∷ []
    at_end [] h e = elim h [ ]
    at_end (eof ∷ ts) h e = ap (λ z. eof ∷ z) h
    at_end (ident s ∷ ts) h e = absurd (cc e)
    at_end (ref s ∷ ts) h e = absurd (cc e)
    at_end (and_op ∷ ts) h e = absurd (cc e)
    at_end (or_op ∷ ts) h e = absurd (cc e)
    at_end (lparen ∷ ts) h e = absurd (cc e)
    at_end (rparen ∷ ts) h e = absurd (cc e)
