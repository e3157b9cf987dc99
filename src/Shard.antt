-- ===== src/Shard.antt =====
-- internal/operation/shard.go: file names of split weights. Names are lists of bytes.
pub mod Complete
pub mod Samples
use llama_skein.Base.{
  refl, ◌≡◌, ℕ, zero, suc, ◌+◌, ◌*◌, ◌-◌, ◌^◌, Bool, true, false, ◌||◌, ◌&&◌, Option, none, some,
  List, [], ◌∷◌, ◌==◌, ltb, leb, if◌then◌else◌, length, take, drop,
}
use llama_skein.Base.Text.{codes, cut_suffix, last_index}
use llama_skein.Base.Maps.{contains, nat_eq}

pub record ShardInfo : Type 0 where
  pub index : ℕ
  pub total : ℕ

is_digit : ℕ → Bool
is_digit c = leb b'0' c && leb c b'9'

-- The value of a text of digits, from an accumulator; `none` at another character.
unfoldable pub digits_value : ℕ → List ℕ → Option ℕ
unfolding is_digit
digits_value n [] = some n
digits_value n (c ∷ s) = if is_digit c then digits_value (n * 10 + (c - b'0')) s else none

-- `parseASCIIDigits`: `strconv.ParseUint(s, 10, 32)` refuses a value of 2^32 and more.
unfoldable pub parse_ascii_digits : List ℕ → Option ℕ
unfolding digits_value
parse_ascii_digits [] = none
parse_ascii_digits (c ∷ s) = elim (digits_value 0 (c ∷ s)) [
  | none ↦ none
  | some v ↦ if ltb v (2 ^ 32) then some v else none
]

infixl 5 ◌>>=◌
abbrev ◌>>=◌ : {A B : Type 0} → Option A → (A → Option B) → Option B
none >>= f = none
some a >>= f = f a

abbrev checked_info : ℕ → ℕ → Option ShardInfo
checked_info index total =
    if index == 0 || ltb total index then none else some (record { index = index; total = total })

-- `ParseShardInfo`
unfoldable pub parse_shard_info : List ℕ → Option ShardInfo
parse_shard_info filename = do
  stem ← cut_suffix filename (codes ".gguf")
  of_pos ← last_index stem (codes "-of-")
  total ← parse_ascii_digits (drop (of_pos + 4) stem)
  let before = take of_pos stem
  dash_pos ← last_index before (codes "-")
  index ← parse_ascii_digits (drop (dash_pos + 1) before)
  checked_info index total

-- `ShardSetComplete`, from its loop on: `seen` is the key set of the Go map, `total` is 0 until a
-- file has set it.
pub data Verdict : Type 0 where
  incoherent : Verdict
  coherent : ℕ → List ℕ → Verdict

unfoldable pub agrees : ShardInfo → ℕ → Bool
agrees info total = total == 0 || info.total == total

unfoldable pub scan_group : List ℕ → ℕ → List (List ℕ) → Verdict
unfolding agrees
scan_group seen total [] = coherent total seen
scan_group seen total (f ∷ group) = elim (parse_shard_info f) [
  | none ↦ incoherent
  | some info ↦
      let rest = scan_group (info.index ∷ seen) info.total group in
      if agrees info total && (if contains seen info.index then false else true)
      then rest
      else incoherent
]

abbrev pub count_verdict : Verdict → Bool × ℕ
count_verdict incoherent = (false, 0)
count_verdict (coherent total seen) = (length seen == total, total)

-- `ShardSetComplete`
unfoldable pub shard_set_complete : List (List ℕ) → Bool × ℕ
unfolding scan_group
shard_set_complete [] = (false, 0)
shard_set_complete (f ∷ group) = count_verdict (scan_group [] 0 (f ∷ group))
