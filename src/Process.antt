-- ===== src/Process.antt =====
-- internal/process/process_command.go: the goroutine `run` that owns the life of one backend
-- process, and its crash-loop breaker. What happens outside of it is an event: the requests, the end
-- of the backend, and how a start or a kill turns out. Callers are known by identifiers that stand
-- for their response channels. Times are in nanoseconds.
pub mod Failures
pub mod Sound
pub mod Single
pub mod Counts
pub mod Pending
pub mod Answers
pub mod Crashes
pub mod Window
pub mod Breaker
pub mod Classes
pub mod Samples
use llama_skein.Base.{
  ℕ, suc, ◌+◌, ◌-◌, ◌*◌, ◌^◌, Bool, true, false, not, ◌||◌, ◌&&◌, Option, none, some, List, [], ◌∷◌,
  ◌++◌, map, ltb, leb, max, if◌then◌else◌, keep, length,
}
use llama_skein.Router.{ProcessState, stopped, starting, ready, stopping, shutdown, failed}
use llama_skein.Router.Outcome.{startable_from}
use llama_skein.Process.Failures.{FailureClass}

pub data FailureCategory : Type 0 where
  on_start on_crash : FailureCategory

pub record LoadError : Type 0 where
  pub category : FailureCategory
  pub at : ℕ
  pub attempts : ℕ
  pub class : FailureClass

-- What a caller is told.
pub data Reply : Type 0 where
  done shut_down last_failure not_startable being_reclaimed start_failed : Reply
  start_aborted upstream_exited still_alive : Reply

-- The variables of `run` and the fields that it owns: `running` is `cmd != nil`, `run_caller` is
-- `runResp` and `leaked` is `possiblyLeaked`. `instances` counts the backend processes that may be
-- alive in the operating system, and `over` says that the goroutine has returned.
pub record Backend : Type 0 where
  pub state : ProcessState
  pub running : Bool
  pub handler : Bool
  pub waiters : List ℕ
  pub run_caller : Option ℕ
  pub leaked : Bool
  pub crash_times : List ℕ
  pub last_error : Option LoadError
  pub fail_attempts : ℕ
  pub instances : ℕ
  pub answers : List (ℕ × Reply)
  pub over : Bool

-- `New`
unfoldable pub fresh_backend : Backend
fresh_backend = record {
  state = stopped;
  running = false;
  handler = false;
  waiters = [];
  run_caller = none;
  leaked = false;
  crash_times = [];
  last_error = none;
  fail_attempts = 0;
  instances = 0;
  answers = [];
  over = false;
}

abbrev pub crash_loop_window : ℕ
crash_loop_window = 10 * 60 * 10 ^ 9

abbrev pub crash_loop_threshold : ℕ
crash_loop_threshold = 3

abbrev pub crash_loop_cooldown : ℕ
crash_loop_cooldown = 60 * 10 ^ 9

-- `now.Sub(t) <= crashLoopWindow`
abbrev pub recent : ℕ → ℕ → Bool
recent now t = leb (now - t) crash_loop_window

-- `recordUnexpectedExit`
unfoldable pub record_unexpected_exit : ℕ → List ℕ → List ℕ
record_unexpected_exit now times = keep (recent now) times ++ now ∷ []

abbrev pub latest : List ℕ → ℕ
latest [] = 0
latest (t ∷ times) = max t (latest times)

-- `crashLoopError`: whether the error is not nil.
unfoldable pub crash_loop_error : ℕ → List ℕ → Bool
crash_loop_error now times =
    let counted = keep (recent now) times in
    leb crash_loop_threshold (length counted) && ltb (now - latest counted) crash_loop_cooldown

abbrev pub answer : ℕ → Reply → Backend → Backend
answer id r p = record p { answers = p.answers ++ (id, r) ∷ [] }

-- `notifyWaiters`
unfoldable pub notify_waiters : Reply → Backend → Backend
notify_waiters r p = record p {
  answers = p.answers ++ map (λ (w : ℕ). (w, r)) p.waiters;
  waiters = [];
}

-- `respondRun`
unfoldable pub respond_run : Reply → Backend → Backend
respond_run r p = elim p.run_caller [
  | none ↦ p
  | some id ↦ record p { answers = p.answers ++ (id, r) ∷ []; run_caller = none }
]

-- `killProcess`: whether the exit was confirmed is an argument.
unfoldable pub kill_process : Bool → Backend → Backend
kill_process true p = record p { instances = p.instances - 1 }
kill_process false p = record p { leaked = true }

-- `recordFailure`
unfoldable pub record_failure : FailureCategory → FailureClass → ℕ → Backend → Backend
record_failure category class now p = record p {
  last_error =
      some
        (record { category = category; at = now; attempts = p.fail_attempts + 1; class = class });
  fail_attempts = p.fail_attempts + 1;
}

-- How the part of `doStart` after the crash-loop check turns out: nothing was started, the backend
-- serves, it exited, or it was started and killed again (is the exit confirmed?), with or without a
-- failed warm-up to count.
pub data StartOutcome : Type 0 where
  not_started serves exits_early : StartOutcome
  aborted warm_up_failed : Bool → StartOutcome

-- What ends the wait for `doStart`: its result, a Stop (its caller, is its kill confirmed?), or the
-- end of the parent context.
pub data Interrupt : Type 0 where
  completes : Interrupt
  stopped_by : ℕ → Bool → Interrupt
  shut_down_by : Bool → Interrupt

-- `doStart`: the backend after it, and whether the result has a live process.
unfoldable pub do_start : ℕ → StartOutcome → Backend → Backend × Bool
unfolding crash_loop_error kill_process record_unexpected_exit
do_start now outcome p = if crash_loop_error now p.crash_times then (p, false) else (elim outcome [
  | not_started ↦ (p, false)
  | serves ↦ (record p { instances = p.instances + 1 }, true)
  | exits_early ↦ (p, false)
  | aborted confirmed ↦ (kill_process confirmed (record p { instances = p.instances + 1 }), false)
  | warm_up_failed confirmed ↦ (
    kill_process confirmed (record p {
      instances = p.instances + 1;
      crash_times = record_unexpected_exit now p.crash_times;
    }),
    false,
  )
])

abbrev pub stop_reply : Bool → Reply
stop_reply true = done
stop_reply false = still_alive

abbrev pub kill_if : Bool → Bool → Backend → Backend
unfolding kill_process
kill_if true confirmed p = kill_process confirmed p
kill_if false confirmed p = p

-- The inner `select` of the Run case, on the result of `doStart`.
unfoldable pub after_start : ℕ → ℕ → FailureClass → Interrupt → Backend × Bool → Backend
unfolding notify_waiters record_failure kill_if respond_run
after_start id now class completes (p, true) = notify_waiters done (record p {
  running = true;
  handler = true;
  fail_attempts = 0;
  state = ready;
  run_caller = some id;
})
after_start id now class completes (p, false) =
    answer id start_failed (
      notify_waiters start_failed (record (record_failure on_start class now p) { state = failed }))
after_start id now class (stopped_by caller confirmed) (p, live) =
    answer caller (stop_reply (not live || confirmed)) (
      answer id start_aborted
        (notify_waiters start_aborted (record (kill_if live confirmed p) { state = stopped })))
after_start id now class (shut_down_by confirmed) (p, live) =
    record (respond_run shut_down
      (notify_waiters shut_down (record (kill_if live confirmed p) { state = shutdown }))) {
        over = true;
      }

pub data Event : Type 0 where
  context_done : Bool → Event
  upstream_exits : ℕ → FailureClass → Event
  asks_ready : ℕ → Event
  asks_run : ℕ → ℕ → FailureClass → StartOutcome → Interrupt → Event
  asks_stop : ℕ → Bool → Event
  reclaimed : Event

-- The WaitReady case.
unfoldable pub wait_ready : ℕ → Backend → Backend
wait_ready id p = elim p.state [
  | ready ↦ answer id done p
  | shutdown ↦ answer id shut_down p
  | failed ↦ answer id last_failure p
  | _ ↦ record p { waiters = p.waiters ++ id ∷ [] }
]

-- The Run case.
unfoldable pub run_request : ℕ → ℕ → FailureClass → StartOutcome → Interrupt → Backend → Backend
unfolding startable_from do_start after_start
run_request id now class outcome interrupt p =
    if not (startable_from p.state)
    then answer id not_startable p
    else (if p.leaked
        then answer id being_reclaimed p
        else after_start id now class interrupt
            (do_start now outcome (record p { state = starting })))

-- The Stop case.
unfoldable pub stop_request : ℕ → Bool → Backend → Backend
unfolding respond_run kill_process
stop_request id confirmed p =
    if p.running
    then answer id (stop_reply confirmed) (
        respond_run done (record (kill_process confirmed p) {
          running = false;
          handler = false;
          state = stopped;
          crash_times = [];
        }))
    else answer id (stop_reply (not p.leaked))
        (respond_run done (record p { state = stopped; crash_times = [] }))

-- The `cmdDone` case; `cmdDone` is nil while no process runs.
unfoldable pub upstream_exit : ℕ → FailureClass → Backend → Backend
unfolding record_failure record_unexpected_exit respond_run
upstream_exit now class p =
    if p.running
    then respond_run upstream_exited (record (record_failure on_crash class now p) {
      running = false;
      handler = false;
      state = failed;
      crash_times = record_unexpected_exit now p.crash_times;
      instances = p.instances - 1;
    })
    else p

-- The `parentCtx.Done()` case.
unfoldable pub shut_down_loop : Bool → Backend → Backend
unfolding notify_waiters respond_run kill_if
shut_down_loop confirmed p =
    record (respond_run shut_down (
      notify_waiters shut_down (record (kill_if p.running confirmed p) {
        running = false;
        handler = false;
        state = shutdown;
      }))) { over = true }

-- `reapLeaked`, where the process has exited.
unfoldable pub reap_leaked : Backend → Backend
reap_leaked p = if p.leaked then record p { leaked = false; instances = p.instances - 1 } else p

-- The cases of the `select` of `run`.
unfoldable pub event_turn : Event → Backend → Backend
unfolding wait_ready run_request stop_request upstream_exit shut_down_loop reap_leaked
event_turn (context_done confirmed) p = shut_down_loop confirmed p
event_turn (upstream_exits now class) p = upstream_exit now class p
event_turn (asks_ready id) p = wait_ready id p
event_turn (asks_run id now class outcome interrupt) p =
    run_request id now class outcome interrupt p
event_turn (asks_stop id confirmed) p = stop_request id confirmed p
event_turn reclaimed p = reap_leaked p

-- One turn of the loop of `run`, unless it has returned.
unfoldable pub turn : Event → Backend → Backend
unfolding event_turn
turn e p = if p.over then p else event_turn e p

-- A history of events.
unfoldable pub turns : List Event → Backend → Backend
unfolding turn
turns [] p = p
turns (e ∷ es) p = turns es (turn e p)
