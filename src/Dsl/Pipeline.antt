-- ===== src/Dsl/Pipeline.antt =====
-- `ParseAndExpandDSL` and `extractRefs` of internal/config/matrix_dsl.go: from the text of an
-- expression to its sets, and to the sets that it refers to.
pub mod Blanks
pub mod References
pub mod Sets
use Prim.Native.Char.{Char}
use llama_skein.Base.{
  ℕ, String, Bool, true, false, Option, none, some, List, [], ◌∷◌, ◌++◌, map, if◌then◌else◌,
}
use llama_skein.Base.Maps.{contains, string_eq}
use llama_skein.Dsl.{Node, Combos, Refs, Expanded, ok, failed, ExpandError, expand, dedup_and_sort}
use llama_skein.Dsl.Parser.{
  Token, ident, and_op, or_op, lparen, rparen, ref, eof, Parsed, parsed, refused, out_of_fuel,
  parse,
}
use llama_skein.Dsl.Lexer.{Unicode, Lexed, lexed, missing_name, unexpected, starved, tokenize}

module _ (u : Unicode) where
  abbrev pub trim_left : String → String
  trim_left String.[] = String.[]
  trim_left (String.◌∷◌ c s) = if u.is_space c then trim_left s else String.◌∷◌ c s

  abbrev pub keep_or_drop : Char → String → String
  keep_or_drop c String.[] = if u.is_space c then String.[] else String.◌∷◌ c String.[]
  keep_or_drop c (String.◌∷◌ d s) = String.◌∷◌ c (String.◌∷◌ d s)

  abbrev pub trim_right : String → String
  trim_right String.[] = String.[]
  trim_right (String.◌∷◌ c s) = keep_or_drop c (trim_right s)

  -- `strings.TrimSpace`
  unfoldable pub trim_space : String → String
  trim_space s = trim_right (trim_left s)

pub data DslResult : Type 0 where
  sets : Combos → DslResult
  empty_expression : DslResult
  bad_tokens : DslResult
  bad_syntax : DslResult
  bad_expansion : ExpandError → DslResult
  exhausted : DslResult

abbrev pub from_expanded : Expanded → DslResult
from_expanded (ok combos) = sets (map dedup_and_sort combos)
from_expanded (failed e) = bad_expansion e

abbrev pub from_parsed : Refs → Parsed Node → DslResult
from_parsed refs (parsed tree rest) = from_expanded (expand tree refs)
from_parsed refs refused = bad_syntax
from_parsed refs out_of_fuel = exhausted

abbrev pub from_lexed : Refs → Lexed → DslResult
from_lexed refs (lexed tokens) = from_parsed refs (parse tokens)
from_lexed refs missing_name = bad_tokens
from_lexed refs unexpected = bad_tokens
from_lexed refs starved = exhausted

abbrev pub from_trimmed : Unicode → Refs → String → DslResult
from_trimmed u refs String.[] = empty_expression
from_trimmed u refs (String.◌∷◌ c s) = from_lexed refs (tokenize u (String.◌∷◌ c s))

-- `ParseAndExpandDSL`
unfoldable pub parse_and_expand_dsl : Unicode → String → Refs → DslResult
unfolding trim_space
parse_and_expand_dsl u dsl refs = from_trimmed u refs (trim_space u dsl)

-- The loop of `extractRefs`; `seen` has the names that are in `refs`.
unfoldable pub refs_from : List String → List Token → List String
refs_from found [] = found
refs_from found (ref s ∷ ts) = refs_from (if contains found s then found else found ++ s ∷ []) ts
refs_from found (ident s ∷ ts) = refs_from found ts
refs_from found (and_op ∷ ts) = refs_from found ts
refs_from found (or_op ∷ ts) = refs_from found ts
refs_from found (lparen ∷ ts) = refs_from found ts
refs_from found (rparen ∷ ts) = refs_from found ts
refs_from found (eof ∷ ts) = refs_from found ts

abbrev pub refs_of : Lexed → Option (List String)
refs_of (lexed ts) = some (refs_from [] ts)
refs_of missing_name = none
refs_of unexpected = none
refs_of starved = none

-- `extractRefs`
unfoldable pub extract_refs : Unicode → String → Option (List String)
unfolding refs_from
extract_refs u dsl = refs_of (tokenize u dsl)
