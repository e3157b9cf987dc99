-- ===== src/Cache.antt =====
-- internal/cache/cache.go: a cache of byte strings, bounded in bytes, that drops the oldest first.
pub mod Sizes
pub mod Bounded
pub mod Samples
use llama_skein.Base.{
  ℕ, ◌+◌, ◌-◌, Bool, true, false, not, ◌&&◌, Option, none, some, List, [], ◌∷◌, ◌++◌, ltb, length,
  if◌then◌else◌,
}
use llama_skein.Base.Maps.{lookup, insert, delete, nat_eq, ◌=?◌}

pub record Cache : Type 0 where
  pub items : List (ℕ × List ℕ)
  pub order : List ℕ
  pub size : ℕ
  pub max_size : ℕ

pub data CacheError : Type 0 where
  exceeds_max_size not_found : CacheError

-- `New`
unfoldable pub new : ℕ → Cache
new max_bytes = record { items = []; order = []; size = 0; max_size = max_bytes }

-- `removeOrder`
unfoldable pub remove_order : ℕ → List ℕ → List ℕ
remove_order id [] = []
remove_order id (v ∷ order) = if v =? id then order else v ∷ remove_order id order

abbrev pub length_or_zero : Option (List ℕ) → ℕ
length_or_zero none = 0
length_or_zero (some bytes) = length bytes

-- An old entry of the identifier is taken out of the size and of the order, but not of the items.
unfoldable pub forget : ℕ → Cache → Cache
forget id c = elim (lookup id c.items) [
  | none ↦ c
  | some old ↦ record c { size = c.size - length old; order = remove_order id c.order }
]

-- The loop of `Add` that evicts, on what is left of the order.
unfoldable pub evict_from : ℕ → List ℕ → Cache → Cache
evict_from data_size [] c = record c { order = [] }
evict_from data_size (oldest ∷ order) c =
    let rest = evict_from data_size order (elim (lookup oldest c.items) [
      | none ↦ c
      | some evicted ↦ record c { size = c.size - length evicted; items = delete oldest c.items }
    ]) in
    if ltb c.max_size (c.size + data_size) then rest else record c { order = oldest ∷ order }

-- The end of `Add`: the data are stored.
unfoldable pub store : ℕ → List ℕ → Cache → Cache
store id bytes c = record c {
  items = insert id bytes c.items;
  order = c.order ++ id ∷ [];
  size = c.size + length bytes;
}

-- `Add`: the cache, and the error if there is one.
unfoldable pub add : ℕ → List ℕ → Cache → Cache × Option CacheError
add id bytes c =
    if ltb c.max_size (length bytes)
    then (c, some exceeds_max_size)
    else (store id bytes (evict_from (length bytes) (forget id c).order (forget id c)), none)

-- `Get`
unfoldable pub get : ℕ → Cache → Option (List ℕ)
get id c = lookup id c.items

-- `Has`
unfoldable pub has : ℕ → Cache → Bool
has id c = elim (lookup id c.items) [ none ↦ false | some _ ↦ true ]

-- `Clear`
unfoldable pub clear : Cache → Cache
clear c = record c { items = []; order = []; size = 0 }
