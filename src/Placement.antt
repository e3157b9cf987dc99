-- ===== src/Placement.antt =====
-- internal/placement/ladder.go and escalateIfMemoryFailure of internal/server/placementretry.go: the
-- ladder of safer placements after a memory failure. The planner `Compute`, which reads
-- floating-point sizes, the building of a command line and the router's answer are arguments.
-- Reasons, which are texts for the log, are left out.
pub mod History
pub mod Ladder
pub mod Samples
use llama_skein.Base.{
  ℕ, zero, suc, ◌+◌, ◌-◌, ◌*◌, ◌/◌, ◌≡◌, ◌↔◌, refl, String, Bool, true, false, not, ◌||◌, ◌&&◌,
  Option, none, some, List, [], ◌∷◌, ◌++◌, ◌==◌, ltb, leb, if◌then◌else◌, length, keep, arith,
  str_eq,
}
use llama_skein.Base.Maps.{Eq, contains}
use llama_skein.Process.Failures.{FailureClass, host_oom, is_memory}

pub data Rung : Type 0 where
  widen_reserve shrink_batch shrink_context full_cpu_moe : Rung

abbrev pub same_rung : Rung → Rung → Bool
same_rung widen_reserve widen_reserve = true
same_rung shrink_batch shrink_batch = true
same_rung shrink_context shrink_context = true
same_rung full_cpu_moe full_cpu_moe = true
same_rung _ _ = false

pub same_rung_iff : (a b : Rung) → (same_rung a b ≡ true) ↔ (a ≡ b)
same_rung_iff a b = ground arith

instance abbrev pub rung_eq : Eq Rung
rung_eq = record { beq = same_rung; beq_iff = same_rung_iff }

abbrev pub ladder_order : List Rung
ladder_order = widen_reserve ∷ shrink_batch ∷ shrink_context ∷ full_cpu_moe ∷ []

pub data Mode : Type 0 where
  on_gpu hybrid on_cpu refuse custom unknown : Mode

pub data PerfClass : Type 0 where
  native_gpu fast_hybrid cpu_bound_hybrid cpu_only : PerfClass

pub data FlagValue : Type 0 where
  number : ℕ → FlagValue
  text : String → FlagValue
  boolean : FlagValue

-- `offload.FlagOp`
pub record FlagOp : Type 0 where
  pub name : String
  pub value : FlagValue
  pub remove : Bool

-- `Plan`, less its estimate and its reason.
pub record Placed : Type 0 where
  pub mode : Mode
  pub flag_ops : List FlagOp
  pub n_cpu_moe : ℕ
  pub perf_class : PerfClass
  pub confident : Bool

-- The fields of `Inputs` that the ladder reads: those of the shape, `MinCtx` of the policy, and
-- budgets, with 0 for values that are not positive.
pub record Inputs : Type 0 where
  pub vram_budget_mb : ℕ
  pub configured_ctx : ℕ
  pub trained_ctx : ℕ
  pub min_ctx : ℕ
  pub is_moe : Bool
  pub expert_bytes_total : ℕ
  pub layer_count : ℕ

abbrev pub retry_batch_size : ℕ
retry_batch_size = 512

abbrev pub retry_ubatch_size : ℕ
retry_ubatch_size = 128

abbrev pub gpu_reserve_growth_mb : ℕ
gpu_reserve_growth_mb = 2048

-- `stripFlag`
abbrev pub strip_flag : List FlagOp → String → List FlagOp
strip_flag ops name = keep (λ (op : FlagOp). not (str_eq op.name name)) ops

abbrev pub numbered : String → ℕ → FlagOp
numbered name n = record { name = name; value = number n; remove = false }

abbrev pub runs_on_host : Mode → Bool
runs_on_host hybrid = true
runs_on_host on_cpu = true
runs_on_host _ = false

-- `current` of the rung that shrinks the context.
abbrev pub current_ctx : Inputs → ℕ
current_ctx inputs =
    if inputs.configured_ctx == 0 then inputs.trained_ctx else inputs.configured_ctx

-- `next`: half of it, and at least the floor.
abbrev pub next_ctx : Inputs → ℕ
next_ctx inputs =
    if ltb (current_ctx inputs / 2) inputs.min_ctx then inputs.min_ctx else current_ctx inputs / 2

-- The rungs that move weight into the memory of the host.
abbrev pub loads_host : Rung → Bool
loads_host widen_reserve = true
loads_host full_cpu_moe = true
loads_host _ = false

abbrev pub is_host_oom : FailureClass → Bool
is_host_oom host_oom = true
is_host_oom _ = false

module _ (compute : Inputs → Placed) where
  -- `applyRung`
  unfoldable pub apply_rung : Rung → Placed → Inputs → ℕ → Option Placed
  apply_rung widen_reserve prev inputs step =
      let cut = gpu_reserve_growth_mb * (step + 1) in
      if leb inputs.vram_budget_mb cut
      then none
      else (let plan = compute (record inputs { vram_budget_mb = inputs.vram_budget_mb - cut }) in
          if runs_on_host plan.mode then some plan else none)
  apply_rung shrink_batch prev inputs step = some (record prev {
    flag_ops =
        prev.flag_ops
        ++ numbered "--batch-size" retry_batch_size
          ∷ numbered "--ubatch-size" retry_ubatch_size
          ∷ [];
  })
  apply_rung shrink_context prev inputs step =
      if leb (current_ctx inputs) (next_ctx inputs)
      then none
      else some
          (record prev { flag_ops = prev.flag_ops ++ numbered "--ctx-size" (next_ctx inputs) ∷ [] })
  apply_rung full_cpu_moe prev inputs step =
      if not inputs.is_moe || inputs.expert_bytes_total == 0
      then none
      else some (record prev {
        n_cpu_moe = inputs.layer_count;
        flag_ops =
            strip_flag prev.flag_ops "--n-cpu-moe"
            ++ record { name = "--cpu-moe"; value = boolean; remove = false } ∷ [];
        mode = hybrid;
        perf_class = cpu_bound_hybrid;
      })

  -- The loop of `NextSaferPlan` over the rungs that are left.
  unfoldable pub next_from : List Rung → Placed → Inputs → Bool → List Rung → Option (Placed × Rung)
  unfolding apply_rung
  next_from [] prev inputs host_side tried = none
  next_from (rung ∷ rungs) prev inputs host_side tried =
      let rest = next_from rungs prev inputs host_side tried in
      if contains tried rung
      then rest
      else (if host_side && loads_host rung
          then rest
          else (elim (apply_rung rung prev inputs (length tried)) [
            | some plan ↦ some (plan, rung)
            | none ↦ rest
          ]))

  -- `NextSaferPlan`
  unfoldable pub next_safer_plan :
      Placed → Inputs → FailureClass → List Rung → Option (Placed × Rung)
  unfolding next_from
  next_safer_plan prev inputs class tried =
      next_from ladder_order prev inputs (is_host_oom class) tried

-- `Attempt`
pub record Attempt : Type 0 where
  pub rung : Rung
  pub plan : Placed
  pub failure : String

-- `retryState`
pub record Retry : Type 0 where
  pub rungs : List Rung
  pub attempts : List Attempt
  pub current : Placed
  pub exhausted : Bool

-- What one call of `escalateIfMemoryFailure` for the model reads: the plan of its placement record,
-- its last error, the inputs of the planner, and whether the command for a plan can be built and the
-- router takes it.
pub record Call : Type 0 where
  pub planned : Option Placed
  pub last_error : Option (FailureClass × String)
  pub inputs : Inputs
  pub accepts : Placed → Bool

-- Whether the last attempt was made for this failure.
unfoldable pub answered_by : List Attempt → String → Bool
answered_by [] message = false
answered_by (a ∷ []) message = str_eq a.failure message
answered_by (_ ∷ a ∷ attempts) message = answered_by (a ∷ attempts) message

-- `Applies`
abbrev pub applies : Placed → Bool
applies plan = leb 1 (length plan.flag_ops)

abbrev pub fresh_retry : Placed → Retry
fresh_retry plan = record { rungs = []; attempts = []; current = plan; exhausted = false }

-- `st`, as it is found or made.
abbrev pub retry_of : Option Retry → Placed → Retry
retry_of none plan = fresh_retry plan
retry_of (some st) plan = st

-- The new rung, its attempt and its plan.
unfoldable pub climb : Retry → Placed → Rung → String → Retry
climb st plan rung message = record st {
  rungs = st.rungs ++ rung ∷ [];
  attempts = st.attempts ++ record { rung = rung; plan = plan; failure = message } ∷ [];
  current = plan;
}

module _ (compute : Inputs → Placed) where
  -- `escalateIfMemoryFailure` from the lock on.
  unfoldable pub escalate : ℕ → Call → FailureClass → String → Retry → Retry
  unfolding answered_by next_safer_plan climb
  escalate budget call class message st =
      if st.exhausted || leb budget (length st.rungs)
      then st
      else (if answered_by st.attempts message
          then st
          else (elim (next_safer_plan compute st.current call.inputs class st.rungs) [
            | none ↦ record st { exhausted = true }
            | some (plan, rung) ↦ if call.accepts plan then climb st plan rung message else st
          ]))

  -- The guards before the lock, and what follows.
  unfoldable pub escalate_if_memory_failure : ℕ → Call → Option Retry → Option Retry
  unfolding escalate is_memory
  escalate_if_memory_failure budget call state = elim call.planned [
    | none ↦ state
    | some plan ↦ elim call.last_error [
      | none ↦ state
      | some (class, message) ↦
          if budget == 0 || not (applies plan) || not (is_memory class)
          then state
          else some (escalate budget call class message (retry_of state plan))
    ]
  ]

  -- The calls for one model, from the start of the server.
  unfoldable pub escalations : ℕ → List Call → Option Retry → Option Retry
  unfolding escalate_if_memory_failure
  escalations budget [] state = state
  escalations budget (call ∷ calls) state =
      escalations budget calls (escalate_if_memory_failure budget call state)
