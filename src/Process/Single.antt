-- ===== src/Process/Single.antt =====
-- internal/process/process_command.go: what holds of the state of `run` between two turns.
use llama_skein.Base.{
  ℕ, ◌≡◌, ◌≤◌, refl, ap, ◌∙◌, Bool, true, false, not, List, [], ◌∷◌, arith, if◌then◌else◌,
}
use llama_skein.Router.{starting, ready}
use llama_skein.Router.Outcome.{startable_from}
use llama_skein.Process.Failures.{FailureClass}
use llama_skein.Process.{
  Backend, fresh_backend, Reply, not_startable, being_reclaimed, StartOutcome, Interrupt, do_start,
  answer, Event, context_done, upstream_exits, asks_ready, asks_run, asks_stop, reclaimed,
  run_request, event_turn, turn, turns,
}
use llama_skein.Process.Sound.{
  is_ready, Sound, fresh-Sound, wait_ready-Sound, stop_request-Sound, upstream_exit-Sound,
  shut_down_loop-Sound, reap_leaked-Sound, Free, do_start-Started, after_start-Sound, free,
}

if-Sound :
    (b : Bool) (p q : Backend)
    → (b ≡ true → Sound p)
    → (b ≡ false → Sound q)
    → Sound (if b then p else q)
if-Sound true p q h k = h refl
if-Sound false p q h k = k refl

answered-Sound : (id : ℕ) (r : Reply) (p : Backend) → Sound p → Sound (answer id r p)
answered-Sound id r p s = record {
  settles = s.settles;
  ready_eq = s.ready_eq;
  handler_eq = s.handler_eq;
  caller_eq = s.caller_eq;
  waiting = s.waiting;
  apart = s.apart;
  instances_eq = s.instances_eq;
}

run_request-Sound :
    (id now : ℕ) (class : FailureClass) (outcome : StartOutcome) (i : Interrupt) (p : Backend)
    → Sound p
    → Sound (run_request id now class outcome i p)
unfolding run_request
run_request-Sound id now class outcome i p s =
    if-Sound (not (startable_from p.state)) _ _ (λ _. answered-Sound id not_startable p s)
      (λ y.
        if-Sound p.leaked _ _ (λ _. answered-Sound id being_reclaimed p s)
          (λ l.
            let f = free p s (ground (arith, y)) l in
            let q = record p { state = starting } in
            let g : Free q = record {
              still = f.still;
              no_handler = f.no_handler;
              no_caller = f.no_caller;
              clean = f.clean;
              empty = f.empty;
            } in
            after_start-Sound id now class i (do_start now outcome q).0 (do_start now outcome q).1
              (do_start-Started now outcome q g)))

event-Sound : (e : Event) (p : Backend) → Sound p → Sound (event_turn e p)
unfolding event_turn
event-Sound (context_done c) p s = shut_down_loop-Sound c p s
event-Sound (upstream_exits now class) p s = upstream_exit-Sound now class p s
event-Sound (asks_ready id) p s = wait_ready-Sound id p s
event-Sound (asks_run id now class outcome i) p s = run_request-Sound id now class outcome i p s
event-Sound (asks_stop id c) p s = stop_request-Sound id c p s
event-Sound reclaimed p s = reap_leaked-Sound p s

pub turn-Sound : (e : Event) (p : Backend) → Sound p → Sound (turn e p)
unfolding turn
turn-Sound e p s = if-Sound p.over _ _ (λ _. s) (λ _. event-Sound e p s)

turns_from : (es : List Event) (p : Backend) → Sound p → Sound (turns es p)
unfolding turns
turns_from [] p s = s
turns_from (e ∷ es) p s = turns_from es (turn e p) (turn-Sound e p s)

single : (p : Backend) → Sound p → p.instances ≤ 1
single p s = ground (arith, s.instances_eq, s.apart)

-- Whatever happens to a process from its creation on, in any order, the state of `run` between two
-- turns is sound: it is settled, it is ready exactly where a backend runs, a handler is set and a
-- Run caller is parked, and only in the state stopped are WaitReady callers parked.
pub turns-Sound : (es : List Event) → Sound (turns es fresh_backend)
turns-Sound es = turns_from es fresh_backend fresh-Sound

-- At no time can two instances of a backend be alive, even where kills are not confirmed and starts
-- are cut off: a running instance excludes a leaked one.
pub turns-single :
    (es : List Event)
    → ((turns es fresh_backend).instances ≤ 1)
      × ((turns es fresh_backend).state ≡ ready → (turns es fresh_backend).leaked ≡ false)
turns-single es =
    let s = turns-Sound es in
    (single (turns es fresh_backend) s, λ h. s.apart (s.ready_eq ∙ ap is_ready h))
