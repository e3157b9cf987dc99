-- ===== src/Process/Crashes.antt =====
-- internal/process/process_command.go: the exits on record for the crash-loop breaker.
use llama_skein.Base.{
  ℕ, ◌+◌, ◌≡◌, ◌≤◌, refl, sym, ◌∙◌, Bool, true, false, not, ◌&&◌, Option, none, some, List, [], ◌∷◌,
  arith, Bool-cases, subst, inl, inr, ◌⊎◌, if◌then◌else◌,
}
use llama_skein.Process.{
  Backend, FailureClass, StartOutcome, Interrupt, Reply, completes, stopped_by, shut_down_by,
  not_started, serves, exits_early, aborted, warm_up_failed, do_start, crash_loop_error,
  record_unexpected_exit, Event, context_done, upstream_exits, asks_ready, asks_run, asks_stop,
  reclaimed, starting, not_startable, being_reclaimed, respond_run, kill_process, kill_if,
  after_start, run_request, upstream_exit, shut_down_loop, reap_leaked, wait_ready, notify_waiters,
  answer, event_turn, turn, startable_from, record_failure,
}

-- The time at which a running backend exits by itself in this turn.
abbrev pub exit_in : Event → Backend → Option ℕ
exit_in (upstream_exits t class) p = if p.running && not p.over then some t else none
exit_in _ p = none

abbrev pub with_exit : Option ℕ → List ℕ → List ℕ
with_exit none ts = ts
with_exit (some t) ts = t ∷ ts

-- The times at which a running backend exited by itself in a history.
abbrev pub exits : List Event → Backend → List ℕ
exits [] p = []
exits (e ∷ es) p = with_exit (exit_in e p) (exits es (turn e p))

-- The event is no Stop request, and its time is not after `now`.
abbrev pub Calm : ℕ → Event → Type 0
Calm now (asks_stop id confirmed) = ⊥
Calm now (upstream_exits t class) = t ≤ now
Calm now (asks_run id t class outcome interrupt) = t ≤ now
Calm now _ = Unit

-- What one turn does to the record: nothing, or it adds a time, that of the exit if there is one.
abbrev pub Records : ℕ → Option ℕ → List ℕ → List ℕ → Type 0
Records now o times times' =
    ((times' ≡ times) × (o ≡ none))
    ⊎ ((t : ℕ) × (t ≤ now)
        × (times' ≡ record_unexpected_exit t times)
        × ((o ≡ none) ⊎ (o ≡ some t)))

respond_run-times : (r : Reply) (p : Backend) → (respond_run r p).crash_times ≡ p.crash_times
unfolding respond_run
respond_run-times r p = ground arith

kill_if-times : (b c : Bool) (p : Backend) → (kill_if b c p).crash_times ≡ p.crash_times
unfolding kill_process
kill_if-times true true p = refl
kill_if-times true false p = refl
kill_if-times false c p = refl

wait_ready-times : (id : ℕ) (p : Backend) → (wait_ready id p).crash_times ≡ p.crash_times
unfolding wait_ready
wait_ready-times id p = ground arith

reap_leaked-times : (p : Backend) → (reap_leaked p).crash_times ≡ p.crash_times
unfolding reap_leaked
reap_leaked-times p = ground arith

shut_down_loop-times :
    (confirmed : Bool) (p : Backend) → (shut_down_loop confirmed p).crash_times ≡ p.crash_times
unfolding shut_down_loop notify_waiters
shut_down_loop-times confirmed p = respond_run-times _ _ ∙ kill_if-times p.running confirmed p

after_start-times :
    (id now : ℕ) (class : FailureClass) (interrupt : Interrupt) (p : Backend) (live : Bool)
    → (after_start id now class interrupt (p, live)).crash_times ≡ p.crash_times
unfolding after_start notify_waiters record_failure
after_start-times id now class completes p true = refl
after_start-times id now class completes p false = refl
after_start-times id now class (stopped_by caller confirmed) p live = kill_if-times live confirmed p
after_start-times id now class (shut_down_by confirmed) p live =
    respond_run-times _ _ ∙ kill_if-times live confirmed p

do_start-Records :
    (limit now : ℕ) (outcome : StartOutcome) (p : Backend)
    → now ≤ limit
    → Records limit none p.crash_times (do_start now outcome p).0.crash_times
unfolding do_start kill_process
do_start-Records limit now outcome p l =
    guard (crash_loop_error now p.crash_times) _ (by_outcome outcome)
  where
    guard :
        (b : Bool) (r : Backend × Bool)
        → Records limit none p.crash_times r.0.crash_times
        → Records limit none p.crash_times (if b then (p, false) else r).0.crash_times
    guard true r h = inl (refl, refl)
    guard false r h = h

    by_outcome :
        (o : StartOutcome)
        → Records limit none p.crash_times
            (elim o as (λ x. Backend × Bool) [
              | not_started ↦ (p, false)
              | serves ↦ (record p { instances = p.instances + 1 }, true)
              | exits_early ↦ (p, false)
              | aborted confirmed ↦
                  (kill_process confirmed (record p { instances = p.instances + 1 }), false)
              | warm_up_failed confirmed ↦ (
                kill_process confirmed (record p {
                  instances = p.instances + 1;
                  crash_times = record_unexpected_exit now p.crash_times;
                }),
                false,
              )
            ]).0.crash_times
    by_outcome not_started = inl (refl, refl)
    by_outcome serves = inl (refl, refl)
    by_outcome exits_early = inl (refl, refl)
    by_outcome (aborted true) = inl (refl, refl)
    by_outcome (aborted false) = inl (refl, refl)
    by_outcome (warm_up_failed true) = inr (now, l, refl, inl refl)
    by_outcome (warm_up_failed false) = inr (now, l, refl, inl refl)

run_request-Records :
    (limit id now : ℕ) (class : FailureClass) (outcome : StartOutcome) (interrupt : Interrupt)
    (p : Backend)
    → now ≤ limit
    → Records limit none p.crash_times (run_request id now class outcome interrupt p).crash_times
unfolding run_request
run_request-Records limit id now class outcome interrupt p l =
    guard (startable_from p.state) p.leaked _ (
      started (do_start now outcome (record p { state = starting }))
        (do_start-Records limit now outcome (record p { state = starting }) l))
  where
    guard :
        (s k : Bool) (q : Backend)
        → Records limit none p.crash_times q.crash_times
        → Records limit none p.crash_times
            (if not s
              then answer id not_startable p
              else (if k then answer id being_reclaimed p else q)).crash_times
    guard false k q h = inl (refl, refl)
    guard true true q h = inl (refl, refl)
    guard true false q h = h

    started :
        (r : Backend × Bool)
        → Records limit none p.crash_times r.0.crash_times
        → Records limit none p.crash_times (after_start id now class interrupt r).crash_times
    started (q, live) h =
        subst (Records limit none p.crash_times)
          (sym (after_start-times id now class interrupt q live)) h

upstream_exit-Records :
    (limit now : ℕ) (class : FailureClass) (p : Backend)
    → now ≤ limit
    → Records limit
        (if p.running then some now else none)
        p.crash_times
        (upstream_exit now class p).crash_times
unfolding upstream_exit record_failure
upstream_exit-Records limit now class p l = elim (Bool-cases p.running) [
  | inl r ↦ rw r (inr (now, l, respond_run-times _ _, inr refl))
  | inr r ↦ rw r (inl (refl, refl))
]

pub turn-Records :
    (now : ℕ) (e : Event) (p : Backend)
    → Calm now e
    → Records now (exit_in e p) p.crash_times (turn e p).crash_times
unfolding turn event_turn
turn-Records now e p h = by_over p.over refl
  where
    over_exit : (e : Event) → p.over ≡ true → exit_in e p ≡ none
    over_exit (context_done confirmed) o = refl
    over_exit (upstream_exits t class) o = ground (arith, o)
    over_exit (asks_ready id) o = refl
    over_exit (asks_run id t class outcome interrupt) o = refl
    over_exit (asks_stop id confirmed) o = refl
    over_exit reclaimed o = refl

    by_event :
        (e : Event)
        → Calm now e
        → p.over ≡ false
        → Records now (exit_in e p) p.crash_times (event_turn e p).crash_times
    by_event (context_done confirmed) h o = inl (shut_down_loop-times confirmed p, refl)
    by_event (upstream_exits t class) h o =
        subst
          (λ b.
            Records now (if p.running && not b then some t else none) p.crash_times
              (upstream_exit t class p).crash_times)
          (sym o)
          (subst
            (λ b.
              Records now (if b then some t else none) p.crash_times
                (upstream_exit t class p).crash_times)
            (and_true p.running) (upstream_exit-Records now t class p h))
      where
        and_true : (b : Bool) → b ≡ (b && not false)
        and_true true = refl
        and_true false = refl
    by_event (asks_ready id) h o = inl (wait_ready-times id p, refl)
    by_event (asks_run id t class outcome interrupt) h o =
        run_request-Records now id t class outcome interrupt p h
    by_event (asks_stop id confirmed) h o = elim h [ ]
    by_event reclaimed h o = inl (reap_leaked-times p, refl)

    by_over :
        (b : Bool)
        → p.over ≡ b
        → Records now (exit_in e p) p.crash_times (if b then p else event_turn e p).crash_times
    by_over true o = inl (refl, over_exit e o)
    by_over false o = by_event e h o
