-- ===== src/Operation/Executor/Samples.antt =====
-- A `Run` of internal/operation/executor.go at concrete hosts: tests, and the theorems at concrete
-- inputs.
use llama_skein.Base.{
  ℕ, zero, suc, ◌≡◌, ◌≢◌, refl, inl, inr, String, true, Option, none, some, List, [], ◌∷◌, drop,
  All, In, arith,
}
use llama_skein.Base.Text.{
  codes, text_eq, join, split, same_text, has_prefix, cut_suffix, last_index,
}
use llama_skein.Base.Maps.{lookup, insert, delete}
use llama_skein.Operation.{
  Operation, ArtifactProgress, new, succeeded, failed, cancelled, terminal, weights, projector,
  transition_to, fail, can_transition, happy_path_index, next_index, Phase-discrete,
}
use llama_skein.Operation.Store.{Store, load, found, save}
use llama_skein.Operation.Source.{
  resolve_artifact_url, resolve_artifact_destination, safe_path_segments, slash, repository_parts,
  is_name, is_revision, safe_segments, safe_segment, clean, clean_from, join_path,
}
use llama_skein.Operation.Source.Paths.{Segment, resolve_artifact_destination-plain}
use llama_skein.Operation.Executor.{
  chunk, eof, Response, Host, Settings, World, evaluate_disk_preflight, remaining_bytes, advance,
  stop_if_cancelled, save_op, save_progress, set_downloaded, preflight, check_disk_preflight,
  recorded, terminate, finish, entered,
}
use llama_skein.Operation.Executor.Transfer.{
  Resolved, resolve_artifacts, part, download_one, resolve_one, download, fetch_artifact,
  first_answer, store_body, receive, finish_download,
}
use llama_skein.Operation.Executor.Content.{
  primary_weights_path, verify, install, verify_one, verify_digest, checked_path, cut_prefix,
  equal_fold, install_one, primary_from,
}
use llama_skein.Operation.Executor.Run.{run, run_steps, run_resolved, register_step}
use llama_skein.Operation.Executor.Ends.{run-Ended, run-keeps_ended}
use llama_skein.Operation.Executor.Verified.{claim, Holds, installed}
use llama_skein.Operation.Executor.Success.{run-installs}
use llama_skein.Operation.Executor.Resume.{
  Delivers, ends, reads, Origin, Begun, Fetches, download_one_complete,
}
use llama_skein.Operation.Executor.Cleanup.{cleanup_abandoned_partials, cleanup-lookup, abandoned}
use llama_skein.Operation.Executor.Primary.{paired, Shard, NotBelow, primary_weights_path-lowest}
use llama_skein.Operation.Store.Saves.{saves}
use llama_skein.Shard.{parse_shard_info}
use mathlib.Core.List.{append-nil}
use llama_skein.Base.{subst, ◌⊎◌}
use llama_skein.Base.Maps.{contains, not-In_of_contains, nat_eq}
use llama_skein.Shard.{parse_ascii_digits, digits_value}
use llama_skein.Operation.Store.{list, list_files, place}
use llama_skein.Operation.Executor.Cleanup.{
  remove_file, clean_artifacts, clean_operations, partials,
}

abbrev model : ArtifactProgress
model = record {
  path = "w.gguf";
  bytes_downloaded = 0;
  bytes_total = some 3;
  role = weights;
  digest = some "sha256:AB";
}

abbrev queued_op : Operation
queued_op = new "op" "org/repo" "0123abc" "m" (model ∷ []) 1

abbrev origin : List ℕ → ℕ → ℕ → Option Response
origin url zero tick = some (record { status = 200; body = chunk (7 ∷ 8 ∷ 9 ∷ []) none eof })
origin url (suc n) tick =
    some (record { status = 206; body = chunk (drop (suc n) (7 ∷ 8 ∷ 9 ∷ [])) none eof })

abbrev host : Host
host = record {
  others = λ _. [];
  readable = λ _. true;
  writable = λ _. true;
  clock = λ n. n;
  get = origin;
  succeeds = λ _ _ _. true;
  sha256 = λ _. codes "ab";
  abs_models_dir = some (codes "/models");
  available_bytes = some 100;
  register = some (λ _ _. none);
}

abbrev settings : Settings
settings = record {
  models_dir = codes "/models";
  safety_reserve_bytes = 10;
  progress_save_interval_bytes = 2;
}

abbrev records : Store
records = record { files = ("op", some queued_op) ∷ []; max_terminal = 5 }

abbrev world : World
world = record { files = []; store = records; op = queued_op; tick = 0 }

abbrev destination : List ℕ
destination = codes "/models/org/repo/w.gguf"

-- A run that installs, and one with a stale partial file beside a complete installation: there the
-- download is skipped, and the check of the partial file fails.
abbrev stale : World
stale = record world { files = (destination, 7 ∷ 8 ∷ 9 ∷ []) ∷ (part destination, 7 ∷ []) ∷ [] }

runs :
    ((run host settings world).files ≡ (destination, 7 ∷ 8 ∷ 9 ∷ []) ∷ [])
    × ((run host settings world).op.phase ≡ succeeded)
    × ((run host settings stale).op.phase ≡ failed)
unfolding run run_steps run_resolved register_step advance stop_if_cancelled save_op save_progress
    set_downloaded preflight check_disk_preflight evaluate_disk_preflight remaining_bytes recorded
    terminate finish entered resolve_artifacts resolve_one resolve_artifact_url
    resolve_artifact_destination repository_parts is_name is_revision safe_path_segments
    safe_segments safe_segment clean clean_from join_path download download_one fetch_artifact
    first_answer store_body receive finish_download verify verify_one verify_digest checked_path
    cut_prefix equal_fold install install_one primary_weights_path primary_from load save saves
    lookup insert delete split join same_text has_prefix cut_suffix last_index parse_shard_info new
    transition_to fail can_transition happy_path_index next_index terminal Phase-discrete
runs = (refl, refl, refl)

run-Ended_example :
    (o : Operation) × (load (run host settings world).store "op" ≡ found o)
    × (terminal o.phase ≡ true)
unfolding terminal new
run-Ended_example = run-Ended host settings world (λ _. refl) refl

-- A cancellation that another writer saves at the third round trip, and one that was there before.
abbrev cancelled_op : Operation
cancelled_op = record queued_op { phase = cancelled }

abbrev cancelled_world : World
cancelled_world = record world { store = record records { files = ("op", some cancelled_op) ∷ [] } }

run-keeps_ended_example :
    (o : Operation) × (load (run host settings cancelled_world).store "op" ≡ found o)
    × (o.phase ≡ cancelled)
unfolding load lookup new terminal
run-keeps_ended_example = run-keeps_ended host settings cancelled_world "op" cancelled_op refl refl

abbrev target : Resolved
target = record { url = codes "/org/repo/resolve/0123abc/w.gguf"; dest = destination }

run-installs_example :
    ((run_steps host settings world).0.op.phase ≡ succeeded)
    × Holds host.sha256 installed
        (run_steps host settings world).0.files
        (claim model ∷ [])
        (target ∷ [])
unfolding run_steps run_resolved register_step advance stop_if_cancelled save_op save_progress
    set_downloaded preflight check_disk_preflight evaluate_disk_preflight remaining_bytes entered
    resolve_artifacts resolve_one resolve_artifact_url resolve_artifact_destination repository_parts
    is_name is_revision safe_path_segments safe_segments safe_segment clean clean_from join_path
    download download_one fetch_artifact first_answer store_body receive finish_download verify
    verify_one verify_digest checked_path cut_prefix equal_fold install install_one
    primary_weights_path primary_from load save saves lookup insert delete split join same_text
    has_prefix cut_suffix last_index parse_shard_info new transition_to can_transition
    happy_path_index next_index terminal Phase-discrete
run-installs_example = run-installs host settings world (target ∷ []) refl (tt, tt, tt) refl

abbrev content : List ℕ
content = 7 ∷ 8 ∷ 9 ∷ []

delivers : (bytes : List ℕ) → Delivers (chunk bytes none eof) bytes
delivers bytes = subst (Delivers (chunk bytes none eof)) (append-nil bytes) (reads ends)

serves_range :
    (n tick : ℕ)
    → n ≢ 0
    → (r : Response) × (origin (codes "/w") n tick ≡ some r)
      × (((r.status ≡ 206) × Delivers r.body (drop n content))
          ⊎ (r.status ≡ 200)
          ⊎ (r.status ≡ 416))
serves_range zero tick h = absurd (h refl)
serves_range (suc n) tick h = (_, refl, inl (refl, delivers (drop (suc n) content)))

serves : Origin host (codes "/w") content
serves = record { whole = λ tick. (_, refl, refl, delivers content); range = serves_range }

abbrev resumed : World
resumed = record world { files = (part destination, 7 ∷ []) ∷ [] }

download_one_complete_example :
    Fetches destination content
      (download_one host settings 0 model (record target { url = codes "/w" }) resumed)
unfolding Begun lookup same_text
download_one_complete_example =
    download_one_complete host settings 0 model (record target { url = codes "/w" }) resumed content
      1 (λ _ _ _. refl) serves refl (omega arith) refl (omega arith) (inr refl)

-- Two shards of the weights, the second first, and a projector.
abbrev shard : String → ArtifactProgress
shard path = record model { path = path }

abbrev at : String → Resolved
at path = record { url = codes path; dest = codes path }

abbrev shards : List ArtifactProgress
shards =
    record (shard "mmproj.gguf") { role = projector }
    ∷ shard "m-00002-of-00002.gguf"
    ∷ shard "m-00001-of-00002.gguf"
    ∷ []

abbrev places : List Resolved
places = at "mmproj.gguf" ∷ at "m-00002-of-00002.gguf" ∷ at "m-00001-of-00002.gguf" ∷ []

primary_weights_path-lowest_example :
    (k : ℕ) × All (NotBelow k) (paired shards places)
    × ((p : ArtifactProgress × Resolved) × In p (paired shards places)
        × Shard k p
        × (primary_weights_path shards places ≡ p.1.dest))
unfolding parse_shard_info cut_suffix last_index same_text has_prefix parse_ascii_digits
    digits_value
primary_weights_path-lowest_example =
    primary_weights_path-lowest shards places
      (shard "m-00002-of-00002.gguf", at "m-00002-of-00002.gguf") 2 (inr (inl refl))
      (refl, (_, refl, refl))

cleanup-lookup_example :
    lookup
      (part destination)
      (cleanup_abandoned_partials
        (λ _. true)
        (some (codes "/models"))
        cancelled_world.store
        ((part destination, 7 ∷ []) ∷ [])).files
    ≡ none
unfolding cleanup_abandoned_partials clean_operations clean_artifacts remove_file lookup delete
    same_text abandoned partials contains resolve_artifact_destination repository_parts is_name
    safe_path_segments safe_segments safe_segment clean clean_from join_path split join has_prefix
    list list_files place new
cleanup-lookup_example =
    cleanup-lookup (λ _. true) (some (codes "/models")) cancelled_world.store
      ((part destination, 7 ∷ []) ∷ []) (part destination) refl

models_Segment : All Segment (codes "models" ∷ [])
unfolding safe_segment same_text contains
models_Segment = ((refl, not-In_of_contains (codes "models") slash refl), tt)

resolve_artifact_destination-plain_example :
    resolve_artifact_destination
      (some (slash ∷ join slash (codes "models" ∷ [])))
      (codes "org/repo")
      (codes "w.gguf")
    ≡ some destination
unfolding repository_parts is_name safe_path_segments safe_segments safe_segment split same_text
    join
resolve_artifact_destination-plain_example =
    resolve_artifact_destination-plain (codes "models") [] (codes "org/repo") (codes "w.gguf")
      models_Segment
