-- ===== src/Dsl/Parser.antt =====
-- The recursive-descent parser of internal/config/matrix_dsl.go, on the tokens that are left. It runs
-- on fuel; Dsl/Parser/Fuel has how much is enough.
pub mod Fuel
pub mod Grammar
pub mod Complete
pub mod References
pub mod Rest
use llama_skein.Base.{
  ℕ, zero, suc, ◌+◌, ◌*◌, String, Bool, true, false, List, [], ◌∷◌, length, if◌then◌else◌,
}
use llama_skein.Dsl.{Node, leaf_node, ref_node, or_node, and_node, Children, nil, child}

-- `token`
pub data Token : Type 0 where
  ident : String → Token
  and_op or_op lparen rparen : Token
  ref : String → Token
  eof : Token

-- `peek`
abbrev pub peek : List Token → Token
peek [] = eof
peek (t ∷ ts) = t

-- `next`, as what it leaves: the end is not consumed.
abbrev pub advance : List Token → List Token
advance [] = []
advance (eof ∷ ts) = eof ∷ ts
advance (ident s ∷ ts) = ts
advance (and_op ∷ ts) = ts
advance (or_op ∷ ts) = ts
advance (lparen ∷ ts) = ts
advance (rparen ∷ ts) = ts
advance (ref s ∷ ts) = ts

abbrev pub is_or : Token → Bool
is_or or_op = true
is_or _ = false

abbrev pub is_and : Token → Bool
is_and and_op = true
is_and _ = false

abbrev pub is_rparen : Token → Bool
is_rparen rparen = true
is_rparen _ = false

-- What a method returns, with the tokens that are left.
pub data Parsed (A : Type 0) : Type 0 where
  parsed : A → List Token → Parsed A
  refused : Parsed A
  out_of_fuel : Parsed A

abbrev pub then_parse : {A B : Type 0} → Parsed A → (A → List Token → Parsed B) → Parsed B
then_parse (parsed a ts) k = k a ts
then_parse refused k = refused
then_parse out_of_fuel k = out_of_fuel

-- `expect(tokRParen)` at the end of an atom.
abbrev pub close : Node → List Token → Parsed Node
close node ts = if is_rparen (peek ts) then parsed node (advance ts) else refused

-- `parseOrExpr`, `parseAndExpr` with their loops, and `parseAtom`.
unfoldable mutual
  pub parse_or_expr : ℕ → List Token → Parsed Node
  parse_or_expr zero ts = out_of_fuel
  parse_or_expr (suc n) ts = then_parse (parse_and_expr n ts) (λ left rest. or_tail n left rest)

  pub or_tail : ℕ → Node → List Token → Parsed Node
  or_tail zero left ts = out_of_fuel
  or_tail (suc n) left ts =
      if is_or (peek ts)
      then then_parse (or_loop n ts) (λ cs rest. parsed (or_node (child left cs)) rest)
      else parsed left ts

  pub or_loop : ℕ → List Token → Parsed Children
  or_loop zero ts = out_of_fuel
  or_loop (suc n) ts =
      if is_or (peek ts)
      then then_parse (parse_and_expr n (advance ts))
          (λ right rest. then_parse (or_loop n rest) (λ cs rest'. parsed (child right cs) rest'))
      else parsed nil ts

  pub parse_and_expr : ℕ → List Token → Parsed Node
  parse_and_expr zero ts = out_of_fuel
  parse_and_expr (suc n) ts = then_parse (parse_atom n ts) (λ left rest. and_tail n left rest)

  pub and_tail : ℕ → Node → List Token → Parsed Node
  and_tail zero left ts = out_of_fuel
  and_tail (suc n) left ts =
      if is_and (peek ts)
      then then_parse (and_loop n ts) (λ cs rest. parsed (and_node (child left cs)) rest)
      else parsed left ts

  pub and_loop : ℕ → List Token → Parsed Children
  and_loop zero ts = out_of_fuel
  and_loop (suc n) ts =
      if is_and (peek ts)
      then then_parse (parse_atom n (advance ts))
          (λ right rest. then_parse (and_loop n rest) (λ cs rest'. parsed (child right cs) rest'))
      else parsed nil ts

  pub parse_atom : ℕ → List Token → Parsed Node
  parse_atom zero ts = out_of_fuel
  parse_atom (suc n) [] = refused
  parse_atom (suc n) (ident s ∷ ts) = parsed (leaf_node s) ts
  parse_atom (suc n) (ref s ∷ ts) = parsed (ref_node s) ts
  parse_atom (suc n) (lparen ∷ ts) = then_parse (parse_or_expr n ts) (λ node rest. close node rest)
  parse_atom (suc n) (and_op ∷ ts) = refused
  parse_atom (suc n) (or_op ∷ ts) = refused
  parse_atom (suc n) (rparen ∷ ts) = refused
  parse_atom (suc n) (eof ∷ ts) = refused

abbrev pub is_eof : Token → Bool
is_eof eof = true
is_eof _ = false

-- `parse`
unfoldable pub parse : List Token → Parsed Node
parse tokens =
    then_parse (parse_or_expr (8 * length tokens + 8) tokens)
      (λ node rest. if is_eof (peek rest) then parsed node rest else refused)
