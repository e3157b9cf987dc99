-- ===== src/Ring/Samples.antt =====
-- A buffer of three entries for internal/ring/buffer.go: tests, and the theorem at a concrete input.
use llama_skein.Base.{ℕ, ◌≡◌, refl, [], ◌∷◌, ◌++◌, ltb, drop, if◌then◌else◌, arith}
use llama_skein.Ring.{Buffer, new, push, slice, slice_from}
use llama_skein.Ring.Newest.{IsValid, slice-push}

abbrev full : Buffer ℕ
full = record { buf = 4 ∷ 2 ∷ 3 ∷ []; head = 1; size = 3 }

full_built : push 4 (push 3 (push 2 (push 1 (new 0 3)))) ≡ full
unfolding push new
full_built = refl

oldest_overwritten : slice (push 5 full) ≡ 3 ∷ 4 ∷ 5 ∷ []
unfolding push slice slice_from
oldest_overwritten = refl

full-IsValid : IsValid full
full-IsValid = (omega arith, omega arith)

slice-push_example :
    slice (push 5 full) ≡ (if ltb 3 3 then slice full else drop 1 (slice full)) ++ 5 ∷ []
slice-push_example = slice-push 5 full full-IsValid
