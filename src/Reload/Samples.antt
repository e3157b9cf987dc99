-- ===== src/Reload/Samples.antt =====
-- The coalescing runner of internal/server/reloadrunner.go in a concrete run: tests, and the theorems
-- at that run.
use llama_skein.Base.{refl, true, false, [], ◌∷◌}
use llama_skein.Reload.{
  Runner, in_pass, begins, ends, repeats, rests, moves, joins, enters, Reach, start, later,
}
use llama_skein.Reload.Passes.{Coalesced, Settled, Reach-Coalesced, Reach-Settled}

-- A call, and two more while its pass runs.
abbrev busy : Runner
busy = record {
  running = true;
  dirty = true;
  loops = in_pass ∷ [];
  calls = 3;
  passes = 1;
  covered = 1;
}

busy-Reach : Reach busy
busy-Reach =
    later (later (later (later start (enters refl)) (moves (begins [] [] refl))) (joins refl))
      (joins refl)

-- Both calls are served by one pass.
abbrev rested : Runner
rested = record { running = false; dirty = false; loops = []; calls = 3; passes = 2; covered = 3 }

rested-Reach : Reach rested
rested-Reach =
    later
      (later
        (later
          (later (later busy-Reach (moves (ends [] [] refl))) (moves (repeats [] [] refl refl)))
          (moves (begins [] [] refl)))
        (moves (ends [] [] refl)))
      (moves (rests [] [] refl refl))

Reach-Coalesced_example : Coalesced rested
Reach-Coalesced_example = Reach-Coalesced rested-Reach

Reach-Settled_example : Settled 2 busy
Reach-Settled_example = Reach-Settled busy-Reach
