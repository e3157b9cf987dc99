-- ===== src/Operation/Samples.antt =====
-- An installation of internal/operation, run through its phases, saved and recovered: tests, and the
-- theorems at concrete inputs.
use llama_skein.Base.{
  ℕ, ◌<◌, ◌^◌, ◌≡◌, ◌≢◌, refl, inl, inr, String, Bool, true, false, none, some, List, [], ◌∷◌, In,
  arith,
}
use llama_skein.Base.Maps.{lookup, insert, string_eq}
use llama_skein.Operation.{
  queued, preflighting, resolving, downloading, verifying, installing, registering, reloading,
  succeeded, cancelled, failed, happy_path, terminal, internal, can_transition, happy_path_index,
  ArtifactProgress, weights, projector, Plan, no_registration, Operation, new, ok, transition_to,
  fail, cancel,
}
use llama_skein.Operation.Phases.{
  Call, transitions, fails, apply, step, run, visited, calls, succeeded_visits_all, run-new_error,
}
use llama_skein.Operation.Progress.{downloaded_sum, size_sum}
use llama_skein.Operation.Store.{Store, found, load, save, list, list_files, newer, place, prune}
use llama_skein.Operation.Store.Saves.{saves, saves-terminal}
use llama_skein.Operation.Store.Pruning.{IsValid, load-prune_running}
use llama_skein.Operation.Restart.{
  mark_interrupted, ends_with, recover, recover_from, recover_save, save_if,
}

abbrev half : ArtifactProgress
half = record {
  path = "m.gguf";
  bytes_downloaded = 3;
  bytes_total = some 8;
  role = weights;
  digest = none;
}

abbrev unsized : ArtifactProgress
unsized = record {
  path = "mmproj.gguf";
  bytes_downloaded = 4;
  bytes_total = none;
  role = projector;
  digest = none;
}

abbrev fresh : Operation
fresh = new "op" "repo" "main" "m" (half ∷ unsized ∷ []) 1

abbrev installs : List (ℕ × Call)
installs =
    (2, transitions preflighting)
    ∷ (3, transitions resolving)
    ∷ (4, transitions downloading)
    ∷ (5, transitions verifying)
    ∷ (6, transitions installing)
    ∷ (7, transitions registering)
    ∷ (8, transitions reloading)
    ∷ (9, transitions succeeded)
    ∷ []

abbrev breaks : List (ℕ × Call)
breaks = (2, transitions preflighting) ∷ (3, fails internal "no space") ∷ []

installs_succeeded :
    (run (new "op" "repo" "main" "m" (half ∷ unsized ∷ []) 1) installs).phase ≡ succeeded
unfolding run step apply transition_to can_transition terminal happy_path_index new
installs_succeeded = refl

breaks_failed :
    (run (new "op" "repo" "main" "m" (half ∷ unsized ∷ []) 1) breaks).error
    ≡ some (record { code = internal; message = "no space" })
unfolding run step apply transition_to fail can_transition terminal happy_path_index new
breaks_failed = refl

abbrev stopped_operation : Operation
stopped_operation = record fresh { phase = cancelled; updated_at = 5 }

fresh_cancels : cancel 5 fresh ≡ ok stopped_operation
unfolding cancel transition_to can_transition terminal new
fresh_cancels = refl

stopped_is_terminal : terminal stopped_operation.phase ≡ true
unfolding terminal
stopped_is_terminal = refl

succeeded_visits_all_example :
    queued ∷ visited (new "op" "repo" "main" "m" (half ∷ unsized ∷ []) 1) installs ≡ happy_path
succeeded_visits_all_example =
    succeeded_visits_all "op" "repo" "main" "m" (half ∷ unsized ∷ []) 1 installs installs_succeeded

run-new_error_example :
    ((run (new "op" "repo" "main" "m" (half ∷ unsized ∷ []) 1) breaks).phase ≡ failed)
    × In (fails internal "no space") (calls breaks)
run-new_error_example =
    run-new_error "op" "repo" "main" "m" (half ∷ unsized ∷ []) 1 breaks
      (record { code = internal; message = "no space" }) breaks_failed

small_sum : downloaded_sum (half ∷ unsized ∷ []) < 2 ^ 63
unfolding downloaded_sum
small_sum = omega arith

abbrev plan : Plan
plan = record {
  source_repository = "repo";
  source_revision = "main";
  artifacts = record { path = "m.gguf"; size_bytes = 8; digest = none; role = weights } ∷ [];
  registration = no_registration;
}

plan_is_small : size_sum plan.artifacts < 2 ^ 63
unfolding size_sum
plan_is_small = omega arith

abbrev directory : Store
directory = record {
  files =
      ("op", some fresh)
      ∷ ("done", some (record stopped_operation { id = "done" }))
      ∷ ("old", some (record stopped_operation { id = "old"; created_at = 0 }))
      ∷ [];
  max_terminal = 1;
}

abbrev advanced : Operation
advanced = record fresh { phase = preflighting }

saves_fresh : (save true advanced directory).1 ≡ none
unfolding save load lookup insert terminal new
saves_fresh = refl

op_not_done : ◌≢◌ {A = String} advanced.id "done"
unfolding new
op_not_done e = cc

done_is_terminal : terminal cancelled ≡ true
unfolding terminal
done_is_terminal = refl

fresh_is_running : terminal fresh.phase ≡ false
unfolding terminal new
fresh_is_running = refl

directory-IsValid : IsValid directory
unfolding new
directory-IsValid = record {
  named = (refl, (refl, (refl, tt)));
  distinct = (
    (λ i. elim i [ inl e ↦ cc | inr (inl e) ↦ cc | inr (inr z) ↦ elim z [ ] ]),
    ((λ i. elim i [ inl e ↦ cc | inr z ↦ elim z [ ] ]), ((λ i. elim i [ ]), tt)),
  );
}

abbrev late : List (Bool × Operation)
late = (true, record advanced { id = "done" }) ∷ (true, advanced) ∷ []

done_found : load directory "done" ≡ found (record stopped_operation { id = "done" })
unfolding load lookup
done_found = refl

saves-terminal_example :
    (e : Operation) × (load (saves late directory) "done" ≡ found e) × (e.phase ≡ cancelled)
saves-terminal_example =
    saves-terminal late directory "done" (record stopped_operation { id = "done" }) done_found
      done_is_terminal

op_found : load directory "op" ≡ found fresh
unfolding load lookup
op_found = refl

load-prune_running_example : load (prune directory) "op" ≡ found fresh
load-prune_running_example =
    load-prune_running directory "op" fresh directory-IsValid op_found fresh_is_running

recovers : (recover (λ _. true) 7 directory).error ≡ none
unfolding recover recover_from recover_save save_if mark_interrupted ends_with save load lookup
    insert list list_files place newer terminal new
recovers = refl
