-- ===== src/Placement/Samples.antt =====
-- The ladder of safer placements at concrete inputs: tests, and the theorems at concrete inputs.
use llama_skein.Base.{
  ◌≡◌, refl, String, true, Option, none, some, List, [], ◌∷◌, ◌++◌, ltb, if◌then◌else◌,
}
use llama_skein.Process.Failures.{FailureClass, gpu_oom, host_oom, crash_other, is_memory}
use llama_skein.Base.Maps.{contains}
use llama_skein.Placement.{
  Rung, widen_reserve, shrink_batch, shrink_context, on_gpu, hybrid, fast_hybrid, native_gpu,
  Placed, Inputs, Retry, Call, numbered, strip_flag, apply_rung, next_from, next_safer_plan,
  answered_by, climb, escalate, escalate_if_memory_failure, escalations,
}
use llama_skein.Placement.Ladder.{Lighter, next_safer_plan-Lighter}
use llama_skein.Placement.History.{AllLaddered, escalations-Laddered}

-- A planner that moves all layers to the host when the budget is under 10 GB.
abbrev planner : Inputs → Placed
planner inputs =
    if ltb inputs.vram_budget_mb 10000
    then record {
      mode = hybrid;
      flag_ops = numbered "--n-cpu-moe" inputs.layer_count ∷ [];
      n_cpu_moe = inputs.layer_count;
      perf_class = fast_hybrid;
      confident = true;
    }
    else record {
      mode = on_gpu;
      flag_ops = [];
      n_cpu_moe = 0;
      perf_class = native_gpu;
      confident = true;
    }

abbrev a_plan : Placed
a_plan = record {
  mode = hybrid;
  flag_ops = numbered "--n-cpu-moe" 8 ∷ [];
  n_cpu_moe = 8;
  perf_class = fast_hybrid;
  confident = true;
}

abbrev some_inputs : Inputs
some_inputs = record {
  vram_budget_mb = 12000;
  configured_ctx = 8192;
  trained_ctx = 32768;
  min_ctx = 4096;
  is_moe = true;
  expert_bytes_total = 9000;
  layer_count = 24;
}

abbrev call_with : FailureClass → String → Call
call_with class message = record {
  planned = some a_plan;
  last_error = some (class, message);
  inputs = some_inputs;
  accepts = λ _. true;
}

abbrev calls : List Call
calls =
    call_with gpu_oom "out of memory at layer 3"
    ∷ call_with gpu_oom "out of memory at layer 3"
    ∷ call_with crash_other "segmentation fault"
    ∷ call_with host_oom "killed"
    ∷ []

abbrev rungs_of : Option Retry → List Rung
rungs_of none = []
rungs_of (some st) = st.rungs

-- The second call has the message of the first, and adds nothing.
same_message : rungs_of (escalations planner 3 calls none) ≡ widen_reserve ∷ shrink_batch ∷ []
unfolding escalations escalate_if_memory_failure escalate next_safer_plan next_from apply_rung
    answered_by climb is_memory contains
same_message = refl

-- A context at the floor is not shrunk.
at_floor :
    apply_rung planner shrink_context a_plan (record some_inputs { configured_ctx = 4096 }) 0 ≡ none
unfolding apply_rung
at_floor = refl

-- All experts on the host: the number of them is no flag any more.
all_experts :
    strip_flag (numbered "--n-cpu-moe" 8 ∷ numbered "--ctx-size" 4096 ∷ []) "--n-cpu-moe"
    ≡ numbered "--ctx-size" 4096 ∷ []
all_experts = refl

escalations-Laddered_example : AllLaddered 3 (escalations planner 3 calls none)
escalations-Laddered_example = escalations-Laddered planner 3 calls none tt

abbrev shorter : Placed
shorter = record a_plan { flag_ops = a_plan.flag_ops ++ numbered "--ctx-size" 4096 ∷ [] }

shorter_plan :
    next_safer_plan planner a_plan some_inputs host_oom (shrink_batch ∷ [])
    ≡ some (shorter, shrink_context)
unfolding next_safer_plan next_from apply_rung contains
shorter_plan = refl

next_safer_plan-Lighter_example : Lighter a_plan some_inputs shrink_context shorter
next_safer_plan-Lighter_example =
    next_safer_plan-Lighter planner a_plan some_inputs (shrink_batch ∷ []) shorter shrink_context
      shorter_plan
