-- ===== src/Process/Sound.antt =====
-- What holds between two turns of internal/process/process_command.go, and that each handler keeps it.
use llama_skein.Base.{ℕ, ◌+◌, ◌≡◌, refl, Bool, true, false, Option, none, some, [], arith}
use llama_skein.Router.{ProcessState, stopped, starting, ready, stopping}
use llama_skein.Router.Outcome.{startable_from}
use llama_skein.Process.Failures.{FailureClass}
use llama_skein.Process.{
  Backend, fresh_backend, notify_waiters, respond_run, kill_process, kill_if, record_failure,
  StartOutcome, Interrupt, completes, stopped_by, shut_down_by, do_start, after_start, wait_ready,
  stop_request, upstream_exit, shut_down_loop, reap_leaked,
}

abbrev pub is_ready : ProcessState → Bool
is_ready ready = true
is_ready _ = false

abbrev pub is_stopped : ProcessState → Bool
is_stopped stopped = true
is_stopped _ = false

abbrev pub settled : ProcessState → Bool
settled starting = false
settled stopping = false
settled _ = true

abbrev pub is_some : Option ℕ → Bool
is_some none = false
is_some (some _) = true

abbrev pub bit : Bool → ℕ
bit true = 1
bit false = 0

-- Between two turns no start and no stop is under way; a process runs, has a handler and a parked
-- Run caller exactly in the state ready; WaitReady callers are parked in the state stopped alone;
-- and the backend processes that may be alive are the running one or the leaked one, never both.
pub record Sound (p : Backend) : Type 0 where
  pub settles : settled p.state ≡ true
  pub ready_eq : p.running ≡ is_ready p.state
  pub handler_eq : p.handler ≡ p.running
  pub caller_eq : is_some p.run_caller ≡ p.running
  pub waiting : is_stopped p.state ≡ false → p.waiters ≡ []
  pub apart : p.running ≡ true → p.leaked ≡ false
  pub instances_eq : p.instances ≡ bit p.running + bit p.leaked

pub fresh-Sound : Sound fresh_backend
unfolding fresh_backend
fresh-Sound = record {
  settles = refl;
  ready_eq = refl;
  handler_eq = refl;
  caller_eq = refl;
  waiting = λ _. refl;
  apart = λ h. cc;
  instances_eq = refl;
}

pub wait_ready-Sound : (id : ℕ) (p : Backend) → Sound p → Sound (wait_ready id p)
unfolding wait_ready
wait_ready-Sound id p s = record {
  settles = ground (arith, s.settles);
  ready_eq = ground (arith, s.ready_eq);
  handler_eq = ground (arith, s.handler_eq);
  caller_eq = ground (arith, s.caller_eq);
  waiting = ground (arith, s.waiting);
  apart = ground (arith, s.apart);
  instances_eq = ground (arith, s.instances_eq);
}

pub stop_request-Sound : (id : ℕ) (c : Bool) (p : Backend) → Sound p → Sound (stop_request id c p)
unfolding stop_request respond_run kill_process
stop_request-Sound id c p s = record {
  settles = ground arith;
  ready_eq = ground (arith, s.ready_eq);
  handler_eq = ground (arith, s.handler_eq);
  caller_eq = ground (arith, s.caller_eq);
  waiting = ground (arith, s.waiting);
  apart = ground (arith, s.apart);
  instances_eq = ground (arith, s.instances_eq, s.apart);
}

pub upstream_exit-Sound :
    (now : ℕ) (class : FailureClass) (p : Backend) → Sound p → Sound (upstream_exit now class p)
unfolding upstream_exit respond_run record_failure
upstream_exit-Sound now class p s = record {
  settles = ground (arith, s.settles);
  ready_eq = ground (arith, s.ready_eq);
  handler_eq = ground (arith, s.handler_eq);
  caller_eq = ground (arith, s.caller_eq);
  waiting = ground (arith, s.waiting, s.ready_eq);
  apart = ground (arith, s.apart);
  instances_eq = ground (arith, s.instances_eq, s.apart);
}

pub shut_down_loop-Sound : (c : Bool) (p : Backend) → Sound p → Sound (shut_down_loop c p)
unfolding shut_down_loop respond_run notify_waiters kill_if kill_process
shut_down_loop-Sound c p s = record {
  settles = ground arith;
  ready_eq = ground (arith, s.ready_eq);
  handler_eq = ground (arith, s.handler_eq);
  caller_eq = ground (arith, s.caller_eq);
  waiting = ground (arith, s.waiting);
  apart = ground (arith, s.apart);
  instances_eq = ground (arith, s.instances_eq, s.apart);
}

pub reap_leaked-Sound : (p : Backend) → Sound p → Sound (reap_leaked p)
unfolding reap_leaked
reap_leaked-Sound p s = record {
  settles = ground (arith, s.settles);
  ready_eq = ground (arith, s.ready_eq);
  handler_eq = ground (arith, s.handler_eq);
  caller_eq = ground (arith, s.caller_eq);
  waiting = ground (arith, s.waiting);
  apart = ground (arith, s.apart);
  instances_eq = ground (arith, s.instances_eq, s.apart);
}

-- A backend that is free to start, while `doStart` runs: nothing is running or leaked.
pub record Free (p : Backend) : Type 0 where
  pub still : p.running ≡ false
  pub no_handler : p.handler ≡ false
  pub no_caller : p.run_caller ≡ none
  pub clean : p.leaked ≡ false
  pub empty : p.instances ≡ 0

-- What `doStart` leaves: a live instance that nobody holds yet, or at most a leaked one.
pub record Started (p : Backend) (live : Bool) : Type 0 where
  pub still : p.running ≡ false
  pub no_handler : p.handler ≡ false
  pub no_caller : p.run_caller ≡ none
  pub apart : live ≡ true → p.leaked ≡ false
  pub instances_eq : p.instances ≡ bit live + bit p.leaked

pub do_start-Started :
    (now : ℕ) (outcome : StartOutcome) (p : Backend)
    → Free p
    → Started (do_start now outcome p).0 (do_start now outcome p).1
unfolding do_start kill_process
do_start-Started now outcome p f = record {
  still = ground (arith, f.still);
  no_handler = ground (arith, f.no_handler);
  no_caller = ground (arith, f.no_caller);
  apart = ground (arith, f.clean);
  instances_eq = ground (arith, f.clean, f.empty);
}

pub after_start-Sound :
    (id now : ℕ) (class : FailureClass) (i : Interrupt) (p : Backend) (live : Bool)
    → Started p live
    → Sound (after_start id now class i (p, live))
unfolding after_start notify_waiters record_failure kill_if respond_run kill_process
after_start-Sound id now class completes p true s = record {
  settles = refl;
  ready_eq = refl;
  handler_eq = refl;
  caller_eq = refl;
  waiting = λ _. refl;
  apart = λ _. s.apart refl;
  instances_eq = ground (arith, s.instances_eq);
}
after_start-Sound id now class completes p false s = record {
  settles = refl;
  ready_eq = s.still;
  handler_eq = ground (arith, s.still, s.no_handler);
  caller_eq = ground (arith, s.still, s.no_caller);
  waiting = λ _. refl;
  apart = ground (arith, s.still);
  instances_eq = ground (arith, s.instances_eq, s.still);
}
after_start-Sound id now class (stopped_by caller c) p live s = record {
  settles = refl;
  ready_eq = ground (arith, s.still);
  handler_eq = ground (arith, s.still, s.no_handler);
  caller_eq = ground (arith, s.still, s.no_caller);
  waiting = λ _. refl;
  apart = ground (arith, s.still);
  instances_eq = ground (arith, s.instances_eq, s.still, s.apart);
}
after_start-Sound id now class (shut_down_by c) p live s = record {
  settles = ground arith;
  ready_eq = ground (arith, s.still);
  handler_eq = ground (arith, s.still, s.no_handler);
  caller_eq = ground (arith, s.still, s.no_caller);
  waiting = ground (arith, s.no_caller);
  apart = ground (arith, s.still);
  instances_eq = ground (arith, s.instances_eq, s.still, s.apart);
}

pub free : (p : Backend) → Sound p → startable_from p.state ≡ true → p.leaked ≡ false → Free p
unfolding startable_from
free p s h l = record {
  still = ground (arith, s.ready_eq);
  no_handler = ground (arith, s.ready_eq, s.handler_eq);
  no_caller = ground (arith, s.ready_eq, s.caller_eq);
  clean = l;
  empty = ground (arith, s.ready_eq, s.instances_eq);
}
