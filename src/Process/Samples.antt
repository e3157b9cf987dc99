-- ===== src/Process/Samples.antt =====
-- The backend process of internal/process at concrete histories: tests, and the theorems at concrete
-- inputs.
use llama_skein.Base.{ℕ, ◌+◌, ◌*◌, ◌^◌, ◌≤◌, ◌≡◌, ◌↔◌, ◌⊎◌, refl, true, false, some, List, [], ◌∷◌}
use llama_skein.Base.Text.{codes, split, has_prefix}
use llama_skein.Router.{stopped, ready}
use llama_skein.Router.Outcome.{startable_from}
use llama_skein.Process.Failures.{
  gpu_oom, host_oom, unsupported_arch, crash_other, is_memory, ExitInfo, classify_failure,
  output_class, lines_class, rule_class, contains_any, contains_text, lower,
}
use llama_skein.Process.{
  fresh_backend, done, being_reclaimed, still_alive, serves, completes, do_start, Event, asks_ready,
  asks_run, asks_stop, reclaimed, upstream_exits, turn, turns, event_turn, wait_ready, run_request,
  stop_request, reap_leaked, after_start, notify_waiters, respond_run, kill_process, kill_if,
  crash_loop_error,
}
use llama_skein.Process.Single.{turns-Sound, turns-single}
use llama_skein.Process.Sound.{Sound}
use llama_skein.Process.Answers.{turns-tally}
use llama_skein.Process.Counts.{pending, cut_off_in, asked_in}
use llama_skein.Process.Classes.{Reports, WasKilled, classify_failure-is_memory}

-- Caller 1 starts the backend, caller 2 waits, and caller 3 stops it with a kill that is not
-- confirmed. Then caller 4 is refused, and caller 5 is parked: no later event but a start, a
-- shutdown or nothing at all reaches it, also not the end of the leaked process.
abbrev leak : List Event
leak =
    asks_run 1 7 crash_other serves completes
    ∷ asks_ready 2
    ∷ asks_stop 3 false
    ∷ asks_run 4 8 crash_other serves completes
    ∷ asks_ready 5
    ∷ reclaimed
    ∷ []

leaves_parked :
    ((turns leak fresh_backend).waiters ≡ 5 ∷ [])
    × ((turns leak fresh_backend).answers
        ≡ (2, done) ∷ (1, done) ∷ (3, still_alive) ∷ (4, being_reclaimed) ∷ [])
    × ((turns leak fresh_backend).state ≡ stopped)
unfolding turns turn event_turn wait_ready run_request stop_request reap_leaked after_start
    notify_waiters respond_run kill_process kill_if do_start crash_loop_error fresh_backend
    startable_from
leaves_parked = (refl, refl, refl)

-- The pattern `oom` is found inside other words.
abbrev exited : ExitInfo
exited = record { code = some 1; err = codes "exit status 1" }

misclassified :
    (classify_failure exited (codes "error: unknown model architecture: 'bloom'") ≡ host_oom)
    × (classify_failure exited (codes "error: unknown model architecture: 'x'") ≡ unsupported_arch)
unfolding classify_failure output_class lines_class rule_class contains_any contains_text split
    has_prefix
misclassified = (refl, refl)

turns-Sound_example : Sound (turns leak fresh_backend)
turns-Sound_example = turns-Sound leak

turns-single_example :
    ((turns leak fresh_backend).instances ≤ 1)
    × ((turns leak fresh_backend).state ≡ ready → (turns leak fresh_backend).leaked ≡ false)
turns-single_example = turns-single leak

turns-tally_example :
    pending 5 (turns leak fresh_backend) + cut_off_in 5 leak fresh_backend
    ≡ asked_in 5 leak fresh_backend
turns-tally_example = turns-tally 5 leak

abbrev minute : ℕ
minute = 60 * 10 ^ 9

-- A backend that is started and exits, three times in two minutes.
abbrev three_exits : List Event
three_exits =
    asks_run 1 (10 * minute) crash_other serves completes
    ∷ upstream_exits (10 * minute + 7) gpu_oom
    ∷ asks_run 2 (11 * minute) crash_other serves completes
    ∷ upstream_exits (11 * minute + 7) gpu_oom
    ∷ asks_run 3 (12 * minute) crash_other serves completes
    ∷ upstream_exits (12 * minute + 7) gpu_oom
    ∷ []

classify_failure-is_memory_example :
    (is_memory (classify_failure exited (codes "CUDA error: out of memory")) ≡ true)
    ↔ (WasKilled exited ⊎ Reports (split 10 (lower (codes "CUDA error: out of memory"))))
classify_failure-is_memory_example =
    classify_failure-is_memory exited (codes "CUDA error: out of memory")
