-- ===== src/Dsl/Parser/Complete.antt =====
-- The parser of internal/config/matrix_dsl.go refuses no expression of the grammar.
use llama_skein.Base.{
  ℕ, zero, suc, ◌+◌, ◌*◌, ◌≡◌, ◌≢◌, ◌⊎◌, refl, inl, inr, false, List, [], ◌∷◌, length,
}
use llama_skein.Dsl.{Node, or_node, and_node, Children, child}
use llama_skein.Dsl.Parser.{
  Token, or_op, and_op, rparen, eof, peek, is_or, is_and, Parsed, parsed, refused, out_of_fuel,
  then_parse, parse_or_expr, or_tail, or_loop, parse_and_expr, and_tail, and_loop, parse_atom,
  parse,
}
use llama_skein.Dsl.Parser.Grammar.{
  Disjunction, one, several, Disjuncts, no_more, next, Conjunction, single, joined, Conjuncts,
  last_one, and_then, Atom, named, referred, enclosed,
}

-- The parser returns this, if the fuel is enough.
abbrev Agrees : {A : Type 0} → A → List Token → Parsed A → Type 0
Agrees a rest p = (p ≡ out_of_fuel) ⊎ (p ≡ parsed a rest)

then_parse-Agrees :
    {A B : Type 0} (a : A) (mid : List Token) (b : B) (rest : List Token) (p : Parsed A)
    (k : A → List Token → Parsed B)
    → Agrees a mid p
    → Agrees b rest (k a mid)
    → Agrees b rest (then_parse p k)
then_parse-Agrees a mid b rest p k (inl e) h = inl (rw e refl)
then_parse-Agrees a mid b rest p k (inr e) h = rw e h

-- What follows a disjunct starts with no `&`, if what follows them all does not.
no_and_ahead :
    {ts rest : List Token} {xs : Children}
    → Disjuncts ts xs rest
    → is_and (peek rest) ≡ false
    → is_and (peek ts) ≡ false
no_and_ahead no_more h = h
no_and_ahead (next d ds) h = refl

mutual
  unfolding parse_or_expr

  parse_or_expr-Agrees :
      (n : ℕ) {ts rest : List Token} {x : Node}
      → Disjunction ts x rest
      → is_or (peek rest) ≡ false
      → is_and (peek rest) ≡ false
      → Agrees x rest (parse_or_expr n ts)
  parse_or_expr-Agrees zero d o a = inl refl
  parse_or_expr-Agrees (suc n) {ts} {rest} {x} (one d) o a =
      then_parse-Agrees x rest x rest (parse_and_expr n ts) _ (parse_and_expr-Agrees n d a)
        (or_tail-stops n x rest o)
  parse_or_expr-Agrees (suc n) {ts} {rest} (several {mid = mid} {x = x} {xs = xs} d ds) o a =
      then_parse-Agrees x (or_op ∷ mid) (or_node (child x xs)) rest (parse_and_expr n ts) _
        (parse_and_expr-Agrees n d refl) (or_tail-goes n x mid xs rest ds o a)

  or_tail-stops :
      (n : ℕ) (x : Node) (rest : List Token)
      → is_or (peek rest) ≡ false
      → Agrees x rest (or_tail n x rest)
  or_tail-stops zero x rest o = inl refl
  or_tail-stops (suc n) x rest o = rw o (inr refl)

  or_tail-goes :
      (n : ℕ) (x : Node) (mid : List Token) (xs : Children) (rest : List Token)
      → Disjuncts (or_op ∷ mid) xs rest
      → is_or (peek rest) ≡ false
      → is_and (peek rest) ≡ false
      → Agrees (or_node (child x xs)) rest (or_tail n x (or_op ∷ mid))
  or_tail-goes zero x mid xs rest ds o a = inl refl
  or_tail-goes (suc n) x mid xs rest ds o a =
      then_parse-Agrees xs rest (or_node (child x xs)) rest (or_loop n (or_op ∷ mid)) _
        (or_loop-Agrees n ds o a) (inr refl)

  or_loop-Agrees :
      (n : ℕ) {ts rest : List Token} {xs : Children}
      → Disjuncts ts xs rest
      → is_or (peek rest) ≡ false
      → is_and (peek rest) ≡ false
      → Agrees xs rest (or_loop n ts)
  or_loop-Agrees zero ds o a = inl refl
  or_loop-Agrees (suc n) no_more o a = rw o (inr refl)
  or_loop-Agrees (suc n) {rest = rest} (next {ts = ts} {mid = mid} {x = x} {xs = xs} d ds) o a =
      then_parse-Agrees x mid (child x xs) rest (parse_and_expr n ts) _
        (parse_and_expr-Agrees n d (no_and_ahead ds a))
        (then_parse-Agrees xs rest (child x xs) rest (or_loop n mid) _ (or_loop-Agrees n ds o a)
          (inr refl))

  parse_and_expr-Agrees :
      (n : ℕ) {ts rest : List Token} {x : Node}
      → Conjunction ts x rest
      → is_and (peek rest) ≡ false
      → Agrees x rest (parse_and_expr n ts)
  parse_and_expr-Agrees zero d a = inl refl
  parse_and_expr-Agrees (suc n) {ts} {rest} {x} (single d) a =
      then_parse-Agrees x rest x rest (parse_atom n ts) _ (parse_atom-Agrees n d)
        (and_tail-stops n x rest a)
  parse_and_expr-Agrees (suc n) {ts} {rest} (joined {mid = mid} {x = x} {xs = xs} d ds) a =
      then_parse-Agrees x (and_op ∷ mid) (and_node (child x xs)) rest (parse_atom n ts) _
        (parse_atom-Agrees n d) (and_tail-goes n x mid xs rest ds a)

  and_tail-stops :
      (n : ℕ) (x : Node) (rest : List Token)
      → is_and (peek rest) ≡ false
      → Agrees x rest (and_tail n x rest)
  and_tail-stops zero x rest a = inl refl
  and_tail-stops (suc n) x rest a = rw a (inr refl)

  and_tail-goes :
      (n : ℕ) (x : Node) (mid : List Token) (xs : Children) (rest : List Token)
      → Conjuncts (and_op ∷ mid) xs rest
      → is_and (peek rest) ≡ false
      → Agrees (and_node (child x xs)) rest (and_tail n x (and_op ∷ mid))
  and_tail-goes zero x mid xs rest ds a = inl refl
  and_tail-goes (suc n) x mid xs rest ds a =
      then_parse-Agrees xs rest (and_node (child x xs)) rest (and_loop n (and_op ∷ mid)) _
        (and_loop-Agrees n ds a) (inr refl)

  and_loop-Agrees :
      (n : ℕ) {ts rest : List Token} {xs : Children}
      → Conjuncts ts xs rest
      → is_and (peek rest) ≡ false
      → Agrees xs rest (and_loop n ts)
  and_loop-Agrees zero ds a = inl refl
  and_loop-Agrees (suc n) last_one a = rw a (inr refl)
  and_loop-Agrees (suc n) {rest = rest} (and_then {ts = ts} {mid = mid} {x = x} {xs = xs} d ds) a =
      then_parse-Agrees x mid (child x xs) rest (parse_atom n ts) _ (parse_atom-Agrees n d) (
        then_parse-Agrees xs rest (child x xs) rest (and_loop n mid) _ (and_loop-Agrees n ds a)
          (inr refl))

  parse_atom-Agrees :
      (n : ℕ) {ts rest : List Token} {x : Node} → Atom ts x rest → Agrees x rest (parse_atom n ts)
  parse_atom-Agrees zero d = inl refl
  parse_atom-Agrees (suc n) named = inr refl
  parse_atom-Agrees (suc n) referred = inr refl
  parse_atom-Agrees (suc n) (enclosed {ts = ts} {rest = rest} {x = x} d) =
      then_parse-Agrees x (rparen ∷ rest) x rest (parse_or_expr n ts) _
        (parse_or_expr-Agrees n d refl refl) (inr refl)

-- Tokens that spell a tree up to their end are not refused.
pub parse-not_refused :
    (ts : List Token) (x : Node) → Disjunction ts x (eof ∷ []) → parse ts ≢ refused
unfolding parse
parse-not_refused ts x d = refuted (parse ts) (
    then_parse-Agrees x (eof ∷ []) x (eof ∷ []) (parse_or_expr (8 * length ts + 8) ts) _
      (parse_or_expr-Agrees (8 * length ts + 8) d refl refl) (inr refl))
  where
    refuted : (p : Parsed Node) → Agrees x (eof ∷ []) p → p ≢ refused
    refuted p (inl e) r = cc
    refuted p (inr e) r = cc
