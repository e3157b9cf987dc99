-- ===== src/MemGuard/Samples.antt =====
-- Samples of the memory of a host for internal/server/memguard.go: tests, and the theorems at concrete
-- inputs.
use llama_skein.Base.{ℕ, ◌*◌, arith, ◌≡◌, refl, true, false, none, List, [], ◌∷◌}
use llama_skein.MemGuard.{MemGuardState, Sample, duration_bits, within, cooling, observe, watch}
use llama_skein.MemGuard.Trips.{Spaced, after, watch-Spaced}

abbrev idle : MemGuardState
idle = record {
  consecutive_samples = 2;
  cooldown_seconds = 60;
  consecutive = 0;
  last_trigger = none;
}

abbrev pressed : ℕ → Sample
pressed t = record { pressured = true; critical = false; unloadable = 1; now = t * 1000000000 }

-- At these seconds, two samples in a row trip the guard; the next trip waits for the cooldown.
abbrev minutes : List Sample
minutes = pressed 10 ∷ pressed 20 ∷ pressed 30 ∷ pressed 40 ∷ pressed 90 ∷ []

minutes_trip : watch minutes idle ≡ 20000000000 ∷ 90000000000 ∷ []
unfolding watch observe cooling within duration_bits
minutes_trip = refl

second_trips : (observe true false 1 20000000000 (after (pressed 10 ∷ []) idle)).1 ≡ true
unfolding observe cooling
second_trips = refl

-- A cooldown of more than 292 years is negative: the guard unloads again at once.
wrapped_trip :
    watch
      (pressed 10 ∷ pressed 20 ∷ pressed 30 ∷ pressed 40 ∷ [])
      (record idle { cooldown_seconds = 9999999999 })
    ≡ 20000000000 ∷ 40000000000 ∷ []
unfolding watch observe cooling within duration_bits
wrapped_trip = refl

watch-Spaced_example : Spaced 60000000000 none (watch minutes idle)
watch-Spaced_example = watch-Spaced minutes idle (omega arith)
