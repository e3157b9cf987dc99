-- ===== src/Cache/Samples.antt =====
-- A cache of five bytes for internal/cache/cache.go: tests, and the theorems at concrete inputs.
use llama_skein.Base.{ℕ, ◌≤◌, ◌≡◌, refl, none, some, [], ◌∷◌, length, arith}
use llama_skein.Base.Maps.{lookup, insert, delete, nat_eq}
use llama_skein.Cache.{Cache, new, add, get, forget, evict_from, store}
use llama_skein.Cache.Bounded.{add-IsValid, get-add}
use llama_skein.Cache.Sizes.{IsValid, held}

abbrev empty : Cache
empty = record { items = []; order = []; size = 0; max_size = 5 }

abbrev two : Cache
two = record {
  items = (1, 7 ∷ 8 ∷ []) ∷ (2, 9 ∷ 9 ∷ []) ∷ [];
  order = 1 ∷ 2 ∷ [];
  size = 4;
  max_size = 5;
}

new_is_empty : new 5 ≡ empty
unfolding new
new_is_empty = refl

two_built : (add 2 (9 ∷ 9 ∷ []) (add 1 (7 ∷ 8 ∷ []) empty).0).0 ≡ two
unfolding add forget evict_from store lookup insert
two_built = refl

-- The oldest entry makes room.
oldest_dropped : (add 3 (1 ∷ 1 ∷ 1 ∷ []) two).0.order ≡ 2 ∷ 3 ∷ []
unfolding add forget evict_from store lookup insert delete
oldest_dropped = refl

empty-IsValid : IsValid empty
unfolding held lookup
empty-IsValid = (tt, (λ k. ((λ i. elim i [ ]), λ n. absurd (n refl))), refl, omega arith)

add-IsValid_example : IsValid (add 1 (7 ∷ 8 ∷ []) empty).0
add-IsValid_example = add-IsValid 1 (7 ∷ 8 ∷ []) empty empty-IsValid

three_fit : length {A = ℕ} (1 ∷ 1 ∷ 1 ∷ []) ≤ 5
three_fit = omega arith

get-add_example :
    (get 3 (add 3 (1 ∷ 1 ∷ 1 ∷ []) two).0 ≡ some (1 ∷ 1 ∷ 1 ∷ []))
    × ((add 3 (1 ∷ 1 ∷ 1 ∷ []) two).1 ≡ none)
get-add_example = get-add 3 (1 ∷ 1 ∷ 1 ∷ []) two three_fit
