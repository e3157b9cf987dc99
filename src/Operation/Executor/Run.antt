-- ===== src/Operation/Executor/Run.antt =====
-- internal/operation/executor.go: `Run`, its steps in the order of the code.
use llama_skein.Base.{ℕ, String, Option, none, some, List}
use llama_skein.Base.Text.{codes}
use llama_skein.Operation.{
  Operation, preflighting, resolving, downloading, verifying, installing, registering, reloading,
  succeeded, internal, untrusted_source,
}
use llama_skein.Operation.Executor.{
  Host, Settings, World, error, Step, ◌then◌, advance, finish, preflight,
}
use llama_skein.Operation.Executor.Transfer.{
  Resolved, Resolution, resolved, untrusted, resolve_artifacts, download,
}
use llama_skein.Operation.Executor.Content.{verify, install, primary_weights_path}

module _ (host : Host) where
  -- `if e.Register != nil`, and the call.
  unfoldable pub register_step :
      Option (Operation → List ℕ → Option String) → List Resolved → World → Step
  unfolding primary_weights_path
  register_step none rs w = (w, none)
  register_step (some register) rs w =
      elim (register w.op (primary_weights_path w.op.artifacts rs)) [
        | none ↦ (w, none)
        | some message ↦ (w, some (error internal message))
      ]

  -- `Run` from the resolved artifacts on.
  unfoldable pub run_resolved : Settings → Resolution → World → Step
  unfolding download verify install register_step advance
  run_resolved settings untrusted w =
      (w, some (error untrusted_source "operation: untrusted source"))
  run_resolved settings (resolved rs) w =
      advance host downloading w
      then (λ v. download host settings 0 v.op.artifacts rs v)
      then advance host verifying
      then (λ v. verify host v.op.artifacts rs v)
      then advance host installing
      then install host rs
      then advance host registering
      then register_step host.register rs
      then advance host reloading
      then advance host succeeded

  -- `Run` up to its call of `finish`.
  unfoldable pub run_steps : Settings → World → Step
  unfolding run_resolved preflight resolve_artifacts
  run_steps settings w =
      advance host preflighting w
      then preflight host settings
      then advance host resolving
      then (λ v.
          run_resolved settings
            (resolve_artifacts host.abs_models_dir (codes v.op.source_repository)
              (codes v.op.source_revision) v.op.artifacts)
            v)

  abbrev pub finished : Step → World
  finished (w, none) = w
  finished (w, some stop) = finish host stop w

  -- `Run`
  unfoldable pub run : Settings → World → World
  unfolding run_steps
  run settings w = finished (run_steps settings w)
