-- ===== src/Router/Outcome.antt =====
-- The goroutine of a swap (`doSwap` of internal/router/base.go): what it starts, and what it reports.
-- The stops run side by side; only whether each one succeeded matters.
use llama_skein.Base.{
  ◌≡◌, refl, String, Bool, true, false, ◌||◌, List, [], ◌∷◌, if◌then◌else◌, In, inl, inr,
  Bool-cases, subst, sym,
}
use llama_skein.Router.{ProcessState, stopped, failed}

-- `process.StartableFrom`
unfoldable pub startable_from : ProcessState → Bool
startable_from stopped = true
startable_from failed = true
startable_from _ = false

-- Whether the target was started, and whether `swapDone` carries no error.
pub record SwapReport : Type 0 where
  pub started : Bool
  pub succeeded : Bool

-- The models whose `Stop` failed, which fill `stopErrs`.
unfoldable pub stop_errors : (String → Bool) → List String → List String
stop_errors stops [] = []
stop_errors stops (m ∷ ms) = if stops m then stop_errors stops ms else m ∷ stop_errors stops ms

abbrev pub report : List String → ProcessState → Bool → SwapReport
report (_ ∷ _) state becomes_ready = record { started = false; succeeded = false }
report [] state becomes_ready = record { started = startable_from state; succeeded = becomes_ready }

-- `doSwap`: `state` is the state of the target once the stops have returned, and `becomes_ready` is
-- whether `WaitReady` then returns no error.
unfoldable pub do_swap : (String → Bool) → List String → ProcessState → Bool → SwapReport
unfolding stop_errors
do_swap stops to_stop state becomes_ready = report (stop_errors stops to_stop) state becomes_ready

stop_errors-In :
    (stops : String → Bool) (ms : List String) (m : String)
    → In m ms
    → stop_errors stops ms ≡ []
    → stops m ≡ true
unfolding stop_errors
stop_errors-In stops [] m i h = elim i [ ]
stop_errors-In stops (k ∷ ms) m i h = elim (Bool-cases (stops k)) [
  | inr p ↦ let h' : k ∷ stop_errors stops ms ≡ [] = rw p at h in cc
  | inl p ↦ elim i [
    | inl e ↦ subst (λ z. stops z ≡ true) (sym e) p
    | inr j ↦ stop_errors-In stops ms m j (rw p at h)
  ]
]

-- A swap starts its target, or reports that the target is ready, only if every model that it had to
-- stop did stop.
pub do_swap-stops :
    (stops : String → Bool) (to_stop : List String) (state : ProcessState) (becomes_ready : Bool)
    (m : String)
    → ((do_swap stops to_stop state becomes_ready).started
        || (do_swap stops to_stop state becomes_ready).succeeded)
      ≡ true
    → In m to_stop
    → stops m ≡ true
unfolding do_swap
do_swap-stops stops to_stop state becomes_ready m h i =
    stop_errors-In stops to_stop m i (none_failed (stop_errors stops to_stop) h)
  where
    none_failed :
        (errors : List String)
        → ((report errors state becomes_ready).started
            || (report errors state becomes_ready).succeeded)
          ≡ true
        → errors ≡ []
    none_failed [] h = refl
    none_failed (x ∷ xs) h = cc
