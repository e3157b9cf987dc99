-- ===== src/Process/Counts.antt =====
-- Counting requests and answers of internal/process/process_command.go.
use llama_skein.Base.{
  ℕ, ◌+◌, Bool, not, ◌&&◌, Option, none, some, List, [], ◌∷◌, ◌==◌, if◌then◌else◌,
}
use llama_skein.Router.Outcome.{startable_from}
use llama_skein.Process.{
  Backend, Reply, Interrupt, stopped_by, shut_down_by, Event, asks_ready, asks_run, asks_stop, turn,
}
use llama_skein.Process.Sound.{bit}

abbrev pub hits : ℕ → ℕ → ℕ
hits x id = bit (id == x)

-- How often a caller was answered, is parked as a waiter, and as the Run caller.
unfoldable pub answered : ℕ → List (ℕ × Reply) → ℕ
answered x [] = 0
answered x ((id, _) ∷ l) = hits x id + answered x l

unfoldable pub parked : ℕ → List ℕ → ℕ
parked x [] = 0
parked x (id ∷ l) = hits x id + parked x l

abbrev pub calling : ℕ → Option ℕ → ℕ
calling x none = 0
calling x (some id) = hits x id

unfoldable pub pending : ℕ → Backend → ℕ
unfolding answered parked
pending x p = answered x p.answers + parked x p.waiters + calling x p.run_caller

-- Whether a Run request gets as far as `doStart`.
unfoldable pub attempts : Backend → Bool
unfolding startable_from
attempts p = startable_from p.state && not p.leaked

abbrev pub stops : ℕ → Interrupt → ℕ
stops x (stopped_by caller _) = hits x caller
stops x _ = 0

abbrev pub drops : ℕ → ℕ → Interrupt → ℕ
drops x id (shut_down_by _) = hits x id
drops x id _ = 0

-- How often the turn receives a request of the caller.
unfoldable pub asked : ℕ → Event → Backend → ℕ
unfolding attempts
asked x (asks_ready id) p = hits x id
asked x (asks_run id _ _ _ i) p = hits x id + (if attempts p then stops x i else 0)
asked x (asks_stop id _) p = hits x id
asked x _ p = 0

-- The Run caller whose start the end of the parent context cuts off gets no reply; it leaves on the
-- same context.
unfoldable pub cut_off : ℕ → Event → Backend → ℕ
unfolding attempts
cut_off x (asks_run id _ _ _ i) p = if attempts p then drops x id i else 0
cut_off x _ p = 0

unfoldable pub asked_in : ℕ → List Event → Backend → ℕ
unfolding asked
asked_in x [] p = 0
asked_in x (e ∷ es) p = (if p.over then 0 else asked x e p) + asked_in x es (turn e p)

unfoldable pub cut_off_in : ℕ → List Event → Backend → ℕ
unfolding cut_off
cut_off_in x [] p = 0
cut_off_in x (e ∷ es) p = (if p.over then 0 else cut_off x e p) + cut_off_in x es (turn e p)
