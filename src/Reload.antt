-- ===== src/Reload.antt =====
-- `NewCoalescingRunner` of internal/server/reloadrunner.go: calls of the trigger from any number of
-- goroutines, interleaved in any order. A part of the code under the lock is one step, and a pass
-- (`fn`) is the time between two steps.
pub mod Passes
pub mod Samples
use llama_skein.Base.{ℕ, ◌+◌, Bool, true, false, ◌≡◌, List, [], ◌∷◌, ◌++◌}

-- Where a goroutine in the loop stands: before `fn`, in it, or before the lock after it.
pub data Place : Type 0 where
  before_pass in_pass after_pass : Place

-- The variables that the calls share, and the goroutines in the loop. `calls` and `passes` count the
-- calls and the passes that have begun; `covered` is how many calls there were when the last began.
pub record Runner : Type 0 where
  pub running : Bool
  pub dirty : Bool
  pub loops : List Place
  pub calls : ℕ
  pub passes : ℕ
  pub covered : ℕ

abbrev pub fresh_runner : Runner
fresh_runner = record {
  running = false;
  dirty = false;
  loops = [];
  calls = 0;
  passes = 0;
  covered = 0;
}

-- A step of one goroutine in the loop.
pub data Moves (s : Runner) : Runner → Type 0 where
  begins :
      (xs ys : List Place)
      → s.loops ≡ xs ++ before_pass ∷ ys
      → Moves s (record s { loops = xs ++ in_pass ∷ ys; passes = s.passes + 1; covered = s.calls })
  ends :
      (xs ys : List Place)
      → s.loops ≡ xs ++ in_pass ∷ ys
      → Moves s (record s { loops = xs ++ after_pass ∷ ys })
  repeats :
      (xs ys : List Place)
      → s.loops ≡ xs ++ after_pass ∷ ys
      → s.dirty ≡ true
      → Moves s (record s { loops = xs ++ before_pass ∷ ys; dirty = false })
  rests :
      (xs ys : List Place)
      → s.loops ≡ xs ++ after_pass ∷ ys
      → s.dirty ≡ false
      → Moves s (record s { loops = xs ++ ys; running = false })

-- A step of the program: of a goroutine in the loop, or a call of the trigger.
pub data Step (s : Runner) : Runner → Type 0 where
  moves : {t : Runner} → Moves s t → Step s t
  joins : s.running ≡ true → Step s (record s { dirty = true; calls = s.calls + 1 })
  enters :
      s.running ≡ false
      → Step s
          (record s { running = true; calls = s.calls + 1; loops = s.loops ++ before_pass ∷ [] })

pub data Reach : Runner → Type 0 where
  start : Reach fresh_runner
  later : {s t : Runner} → Reach s → Step s t → Reach t

-- A finite run of the goroutines in the loop, without a further call.
pub data Settles : Runner → Runner → Type 0 where
  done : {s : Runner} → Settles s s
  then_settles : {s t u : Runner} → Moves s t → Settles t u → Settles s u
