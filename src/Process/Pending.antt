-- ===== src/Process/Pending.antt =====
-- The requests that internal/process/process_command.go holds: how each handler changes their number,
-- and what an event adds to them.
use llama_skein.Base.{
  ℕ, ◌+◌, ◌-◌, ◌≡◌, refl, ap, ◌∙◌, Bool, true, false, not, none, some, List, [], ◌∷◌, ◌++◌, arith,
  Option-cases, inl, inr, if◌then◌else◌, map,
}
use llama_skein.Router.{stopped, shutdown, failed}
use llama_skein.Process.Failures.{FailureClass}
use llama_skein.Process.{
  Backend, Reply, done, shut_down, last_failure, upstream_exited, notify_waiters, respond_run,
  kill_process, kill_if, record_failure, on_crash, StartOutcome, do_start, stop_reply, answer,
  wait_ready, stop_request, upstream_exit, shut_down_loop, reap_leaked, record_unexpected_exit,
}
use llama_skein.Process.Counts.{hits, answered, parked, pending}

pub answered-append :
    (x : ℕ) (l m : List (ℕ × Reply)) → answered x (l ++ m) ≡ answered x l + answered x m
unfolding answered
answered-append x [] m = omega arith
answered-append x ((id, r) ∷ l) m = omega (arith, answered-append x l m)

pub parked-append : (x : ℕ) (l m : List ℕ) → parked x (l ++ m) ≡ parked x l + parked x m
unfolding parked
parked-append x [] m = omega arith
parked-append x (id ∷ l) m = omega (arith, parked-append x l m)

pub answered-map :
    (x : ℕ) (r : Reply) (l : List ℕ) → answered x (map (λ (w : ℕ). (w, r)) l) ≡ parked x l
unfolding answered parked
answered-map x r [] = refl
answered-map x r (id ∷ l) = omega (arith, answered-map x r l)

pub pending-answer :
    (x id : ℕ) (r : Reply) (p : Backend) → pending x (answer id r p) ≡ pending x p + hits x id
unfolding pending answered
pending-answer x id r p = omega (arith, answered-append x p.answers ((id, r) ∷ []))

pub pending-notify_waiters :
    (x : ℕ) (r : Reply) (p : Backend) → pending x (notify_waiters r p) ≡ pending x p
unfolding pending notify_waiters answered parked
pending-notify_waiters x r p = omega (
  arith,
  answered-append x p.answers (map (λ (w : ℕ). (w, r)) p.waiters),
  answered-map x r p.waiters,
)

pub pending-respond_run :
    (x : ℕ) (r : Reply) (p : Backend) → pending x (respond_run r p) ≡ pending x p
unfolding pending respond_run answered
pending-respond_run x r p = elim (Option-cases p.run_caller) [
  | inl e ↦ ground (arith, e)
  | inr (id, e) ↦ ground (arith, e, answered-append x p.answers ((id, r) ∷ []))
]

pub pending-wait_ready :
    (x id : ℕ) (p : Backend) → pending x (wait_ready id p) ≡ pending x p + hits x id
unfolding pending wait_ready answered parked
pending-wait_ready x id p = ground (
  arith,
  answered-append x p.answers ((id, done) ∷ []),
  answered-append x p.answers ((id, shut_down) ∷ []),
  answered-append x p.answers ((id, last_failure) ∷ []),
  parked-append x p.waiters (id ∷ []),
)

-- The parts of the state that the callers stand in.
abbrev pub Same : Backend → Backend → Type 0
Same p q = (q.answers ≡ p.answers) × (q.waiters ≡ p.waiters) × (q.run_caller ≡ p.run_caller)

pub pending-Same : (x : ℕ) (p q : Backend) → Same p q → pending x q ≡ pending x p
unfolding pending
pending-Same x p q s = rw (s.0, s.1, s.2)

pub kill_process-Same : (c : Bool) (p : Backend) → Same p (kill_process c p)
unfolding kill_process
kill_process-Same true p = (refl, refl, refl)
kill_process-Same false p = (refl, refl, refl)

pub kill_if-Same : (live c : Bool) (p : Backend) → Same p (kill_if live c p)
unfolding kill_if
kill_if-Same true c p = kill_process-Same c p
kill_if-Same false c p = (refl, refl, refl)

pub if-Same : (b : Bool) (p q r : Backend) → Same p q → Same p r → Same p (if b then q else r)
if-Same true p q r h k = h
if-Same false p q r h k = k

pub if-pending :
    (x n : ℕ) (b : Bool) (p q : Backend)
    → (b ≡ true → pending x p ≡ n)
    → (b ≡ false → pending x q ≡ n)
    → pending x (if b then p else q) ≡ n
if-pending x n true p q h k = h refl
if-pending x n false p q h k = k refl

pub pending-stop_request :
    (x id : ℕ) (c : Bool) (p : Backend) → pending x (stop_request id c p) ≡ pending x p + hits x id
unfolding stop_request
pending-stop_request x id c p =
    let killed = record (kill_process c p) {
      running = false;
      handler = false;
      state = stopped;
      crash_times = [];
    } in
    let idle = record p { state = stopped; crash_times = [] } in
    if-pending x (pending x p + hits x id) p.running _ _
      (λ _.
        pending-answer x id (stop_reply c) (respond_run done killed)
        ∙ ap (λ n. n + hits x id)
            (pending-respond_run x done killed ∙ pending-Same x p killed (kill_process-Same c p)))
      (λ _.
        pending-answer x id (stop_reply (not p.leaked)) (respond_run done idle)
        ∙ ap (λ n. n + hits x id)
            (pending-respond_run x done idle ∙ pending-Same x p idle (refl, refl, refl)))

pub pending-upstream_exit :
    (x now : ℕ) (class : FailureClass) (p : Backend)
    → pending x (upstream_exit now class p) ≡ pending x p
unfolding upstream_exit record_failure
pending-upstream_exit x now class p =
    let q = record (record_failure on_crash class now p) {
      running = false;
      handler = false;
      state = failed;
      crash_times = record_unexpected_exit now p.crash_times;
      instances = p.instances - 1;
    } in
    if-pending x (pending x p) p.running _ _
      (λ _. pending-respond_run x upstream_exited q ∙ pending-Same x p q (refl, refl, refl))
      (λ _. refl)

-- The end of the loop.
pub closed :
    (x : ℕ) (p q : Backend)
    → Same p q
    → pending x (respond_run shut_down (notify_waiters shut_down q)) ≡ pending x p
closed x p q s =
    pending-respond_run x shut_down (notify_waiters shut_down q)
    ∙ pending-notify_waiters x shut_down q
    ∙ pending-Same x p q s

pub pending-over : (x : ℕ) (p : Backend) → pending x (record p { over = true }) ≡ pending x p
pending-over x p = pending-Same x p (record p { over = true }) (refl, refl, refl)

pub pending-shut_down_loop :
    (x : ℕ) (c : Bool) (p : Backend) → pending x (shut_down_loop c p) ≡ pending x p
unfolding shut_down_loop
pending-shut_down_loop x c p =
    let q = record (kill_if p.running c p) { running = false; handler = false; state = shutdown } in
    pending-over x (respond_run shut_down (notify_waiters shut_down q))
    ∙ closed x p q (kill_if-Same p.running c p)

pub pending-reap_leaked : (x : ℕ) (p : Backend) → pending x (reap_leaked p) ≡ pending x p
unfolding reap_leaked
pending-reap_leaked x p =
    if-pending x (pending x p) p.leaked _ _
      (λ _.
        pending-Same x p (record p { leaked = false; instances = p.instances - 1 })
          (refl, refl, refl))
      (λ _. refl)

pub do_start-Same :
    (now : ℕ) (outcome : StartOutcome) (p : Backend) → Same p (do_start now outcome p).0
unfolding do_start kill_process
do_start-Same now outcome p = (ground arith, ground arith, ground arith)

-- The Run caller is parked where nobody was.
pub pending-parks :
    (x id : ℕ) (p q v : Backend)
    → Same p q
    → p.run_caller ≡ none
    → (v.answers ≡ q.answers) × (v.waiters ≡ q.waiters)
    → v.run_caller ≡ some id
    → pending x v ≡ pending x p + hits x id
unfolding pending
pending-parks x id p q v s n h r = rw (h.0, h.1, r, s.0, s.1, n) (omega arith)
