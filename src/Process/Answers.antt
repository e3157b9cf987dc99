-- ===== src/Process/Answers.antt =====
-- internal/process/process_command.go: what becomes of each request that `run` receives.
use llama_skein.Base.{
  ℕ, ◌+◌, ◌≡◌, refl, Bool, true, false, not, ◌||◌, ◌&&◌, none, some, List, [], ◌∷◌, arith,
  if◌then◌else◌,
}
use llama_skein.Router.{stopped, starting, ready, shutdown, failed}
use llama_skein.Router.Outcome.{startable_from}
use llama_skein.Process.Failures.{FailureClass}
use llama_skein.Process.{
  Backend, fresh_backend, done, shut_down, start_failed, start_aborted, not_startable,
  being_reclaimed, notify_waiters, respond_run, kill_if, record_failure, on_start, StartOutcome,
  Interrupt, completes, stopped_by, shut_down_by, do_start, after_start, stop_reply, answer, Event,
  context_done, upstream_exits, asks_ready, asks_run, asks_stop, reclaimed, run_request, event_turn,
  turn, turns,
}
use llama_skein.Process.Single.{turn-Sound}
use llama_skein.Process.Sound.{Sound, fresh-Sound}
use llama_skein.Process.Pending.{
  pending-answer, pending-notify_waiters, pending-wait_ready, Same, pending-Same, kill_if-Same,
  pending-stop_request, pending-upstream_exit, closed, pending-over, pending-shut_down_loop,
  pending-reap_leaked, do_start-Same, pending-parks,
}
use llama_skein.Process.Counts.{
  hits, answered, parked, pending, attempts, stops, drops, asked, cut_off, asked_in, cut_off_in,
}

pending-after_start :
    (x id now : ℕ) (class : FailureClass) (i : Interrupt) (p q : Backend) (live : Bool)
    → Same p q
    → p.run_caller ≡ none
    → pending x (after_start id now class i (q, live)) + drops x id i
      ≡ pending x p + hits x id + stops x i
unfolding after_start record_failure
pending-after_start x id now class completes p q true s n =
    let v = record q {
      running = true;
      handler = true;
      fail_attempts = 0;
      state = ready;
      run_caller = some id;
    } in
    omega (arith, pending-notify_waiters x done v, pending-parks x id p q v s n (refl, refl) refl)
pending-after_start x id now class completes p q false s n =
    let v = record (record_failure on_start class now q) { state = failed } in
    omega (
      arith,
      pending-answer x id start_failed (notify_waiters start_failed v),
      pending-notify_waiters x start_failed v,
      pending-Same x q v (refl, refl, refl),
      pending-Same x p q s,
    )
pending-after_start x id now class (stopped_by caller c) p q live s n =
    let v = record (kill_if live c q) { state = stopped } in
    let u = answer id start_aborted (notify_waiters start_aborted v) in
    omega (
      arith,
      pending-answer x caller (stop_reply (not live || c)) u,
      pending-answer x id start_aborted (notify_waiters start_aborted v),
      pending-notify_waiters x start_aborted v,
      pending-Same x q v (kill_if-Same live c q),
      pending-Same x p q s,
    )
pending-after_start x id now class (shut_down_by c) p q live s n =
    let v = record (kill_if live c q) { state = shutdown } in
    omega (
      arith,
      pending-over x (respond_run shut_down (notify_waiters shut_down v)),
      closed x q v (kill_if-Same live c q),
      pending-Same x p q s,
    )

run_branches :
    (x n dropped extra : ℕ) (startable leaked : Bool) (p q r : Backend)
    → pending x p ≡ n
    → pending x q ≡ n
    → (startable ≡ true → leaked ≡ false → pending x r + dropped ≡ n + extra)
    → pending x (if not startable then p else (if leaked then q else r))
        + (if startable && not leaked then dropped else 0)
      ≡ n + (if startable && not leaked then extra else 0)
run_branches x n dropped extra false leaked p q r hp hq hr = omega (arith, hp)
run_branches x n dropped extra true true p q r hp hq hr = omega (arith, hq)
run_branches x n dropped extra true false p q r hp hq hr = hr refl refl

no_caller : (p : Backend) → Sound p → startable_from p.state ≡ true → p.run_caller ≡ none
unfolding startable_from
no_caller p s h = ground (arith, s.caller_eq, s.ready_eq)

pending-run_request :
    (x id now : ℕ) (class : FailureClass) (outcome : StartOutcome) (i : Interrupt) (p : Backend)
    → Sound p
    → pending x (run_request id now class outcome i p) + (if attempts p then drops x id i else 0)
      ≡ (pending x p + hits x id) + (if attempts p then stops x i else 0)
unfolding run_request attempts
pending-run_request x id now class outcome i p s =
    let q = record p { state = starting } in
    run_branches x (pending x p + hits x id) (drops x id i) (stops x i) (startable_from p.state)
      p.leaked _ _ _ (pending-answer x id not_startable p) (pending-answer x id being_reclaimed p)
      (λ y _.
        pending-after_start x id now class i p (do_start now outcome q).0 (do_start now outcome q).1
          (do_start-Same now outcome q) (no_caller p s y))

over_branches :
    (x : ℕ) (over : Bool) (p q : Backend) (lost got : ℕ)
    → pending x q + lost ≡ pending x p + got
    → pending x (if over then p else q) + (if over then 0 else lost)
      ≡ pending x p + (if over then 0 else got)
over_branches x true p q lost got h = omega arith
over_branches x false p q lost got h = h

event-tally :
    (x : ℕ) (e : Event) (p : Backend)
    → Sound p
    → pending x (event_turn e p) + cut_off x e p ≡ pending x p + asked x e p
unfolding cut_off asked event_turn
event-tally x (context_done c) p s = omega (arith, pending-shut_down_loop x c p)
event-tally x (upstream_exits now class) p s = omega (arith, pending-upstream_exit x now class p)
event-tally x (asks_ready id) p s = omega (arith, pending-wait_ready x id p)
event-tally x (asks_run id now class outcome i) p s =
    omega (arith, pending-run_request x id now class outcome i p s)
event-tally x (asks_stop id c) p s = omega (arith, pending-stop_request x id c p)
event-tally x reclaimed p s = omega (arith, pending-reap_leaked x p)

turn-tally :
    (x : ℕ) (e : Event) (p : Backend)
    → Sound p
    → pending x (turn e p) + (if p.over then 0 else cut_off x e p)
      ≡ pending x p + (if p.over then 0 else asked x e p)
unfolding turn
turn-tally x e p s = over_branches x p.over p _ _ _ (event-tally x e p s)

turns_from :
    (x : ℕ) (es : List Event) (p : Backend)
    → Sound p
    → pending x (turns es p) + cut_off_in x es p ≡ pending x p + asked_in x es p
unfolding turns cut_off_in asked_in
turns_from x [] p s = omega arith
turns_from x (e ∷ es) p s =
    omega (arith, turn-tally x e p s, turns_from x es (turn e p) (turn-Sound e p s))

-- However the events come, every request that `run` receives is answered exactly once, or its
-- caller is parked: the answers to a caller, the places where it is parked, and the starts of its
-- that a shutdown cut off are together as many as the requests of it that were received.
pub turns-tally :
    (x : ℕ) (es : List Event)
    → pending x (turns es fresh_backend) + cut_off_in x es fresh_backend
      ≡ asked_in x es fresh_backend
unfolding fresh_backend pending answered parked
turns-tally x es = omega (arith, turns_from x es fresh_backend fresh-Sound)
