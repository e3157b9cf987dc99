-- ===== src/LogMonitor/Samples.antt =====
-- The log monitor of internal/logmon/logging.go at concrete writes: tests, and the theorems at them.
use llama_skein.Base.{◌≡◌, refl, true, false, List, [], ◌∷◌, arith}
use llama_skein.LogMonitor.{
  CircularBuffer, overlay, copy_at, write, get_history, Use, logs, writes, clears, sets_level,
  monitor_write, monitor_history, use_monitor, use_all,
}
use llama_skein.LogMonitor.Unrolled.{last, IsValid}
use llama_skein.LogMonitor.History.{said, new_monitor, use_all-history}

-- A buffer of five bytes that holds 3, 4, 5, 1 and 2, from the head on.
abbrev full_buffer : CircularBuffer
full_buffer = record { bytes = 1 ∷ 2 ∷ 3 ∷ 4 ∷ 5 ∷ []; head = 2; size = 5 }

full_buffer-IsValid : IsValid full_buffer
full_buffer-IsValid = (omega arith, omega arith)

wraps_around : get_history (write (6 ∷ 7 ∷ 8 ∷ 9 ∷ []) full_buffer) ≡ 2 ∷ 6 ∷ 7 ∷ 8 ∷ 9 ∷ []
unfolding write get_history copy_at overlay
wraps_around = refl

-- A message below the level, a lost write, a clearing, a change of the level, and two writes that do
-- not fit together.
abbrev some_uses : List Use
some_uses =
    logs 0 (1 ∷ 2 ∷ []) true
    ∷ writes (3 ∷ []) true
    ∷ clears
    ∷ writes (4 ∷ 5 ∷ 6 ∷ []) true
    ∷ writes (7 ∷ []) false
    ∷ logs 2 (8 ∷ 9 ∷ []) true
    ∷ sets_level 3
    ∷ logs 2 (1 ∷ []) true
    ∷ []

newest_four : monitor_history (use_all some_uses (new_monitor 4 1)) ≡ 5 ∷ 6 ∷ 8 ∷ 9 ∷ []
unfolding use_all use_monitor monitor_write monitor_history write get_history copy_at overlay
newest_four = refl

use_all-history_example :
    monitor_history (use_all some_uses (new_monitor 4 1)) ≡ last 4 (said 1 some_uses [])
use_all-history_example = use_all-history 4 1 some_uses
