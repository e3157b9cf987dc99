-- ===== src/Shard/Samples.antt =====
-- Groups of file names for internal/operation/shard.go: tests, and the theorems at concrete inputs.
use llama_skein.Base.{ℕ, ◌≤◌, ◌≡◌, refl, true, false, List, [], ◌∷◌, arith}
use llama_skein.Base.Text.{codes, cut_suffix, last_index}
use llama_skein.Base.Maps.{contains, nat_eq}
use llama_skein.Shard.{parse_shard_info, parse_ascii_digits, shard_set_complete}

abbrev pair : List (List ℕ)
pair = codes "m-00002-of-00002.gguf" ∷ codes "m-00001-of-00002.gguf" ∷ []

pair_complete : shard_set_complete pair ≡ (true, 2)
unfolding shard_set_complete parse_shard_info cut_suffix last_index parse_ascii_digits contains
pair_complete = refl

gap_incomplete : shard_set_complete (codes "m-00002-of-00002.gguf" ∷ []) ≡ (false, 2)
unfolding shard_set_complete parse_shard_info cut_suffix last_index parse_ascii_digits contains
gap_incomplete = refl

-- The names before the indices are not compared.
abbrev strangers : List (List ℕ)
strangers = codes "a-00002-of-00002.gguf" ∷ codes "b-00001-of-00002.gguf" ∷ []

strangers_complete : shard_set_complete strangers ≡ (true, 2)
unfolding shard_set_complete parse_shard_info cut_suffix last_index parse_ascii_digits contains
strangers_complete = refl

one_is_positive : 1 ≤ 1
one_is_positive = omega arith

one_of_two : 1 ≤ 2
one_of_two = omega arith
