-- ===== src/Operation/Executor/Transfer.antt =====
-- internal/operation/executor.go: `resolveArtifacts`, `download`, `downloadOne`, `fetchArtifact`.
use llama_skein.Base.{
  ℕ, suc, ◌+◌, ◌-◌, ◌*◌, String, Bool, true, false, not, ◌||◌, Option, none, some, List, [], ◌∷◌,
  ◌++◌, ◌==◌, ltb, leb, if◌then◌else◌, length, take,
}
use llama_skein.Base.Text.{codes, text_eq}
use llama_skein.Base.Maps.{lookup, insert}
use llama_skein.Operation.{Operation, ArtifactProgress, internal, cancelled_code}
use llama_skein.Operation.Source.{resolve_artifact_url, resolve_artifact_destination}
use llama_skein.Operation.Executor.{
  Body, chunk, eof, broken, context_done, Response, make_dir, stat_partial, open_partial,
  sync_partial, close_partial, Host, Settings, World, externally_cancelled, error, Step, ◌then◌,
  stop_if_cancelled, save_progress,
}

-- `resolvedArtifact`
pub record Resolved : Type 0 where
  pub url : List ℕ
  pub dest : List ℕ

pub data Resolution : Type 0 where
  resolved : List Resolved → Resolution
  untrusted : Resolution

abbrev pub resolved_cons : Resolved → Resolution → Resolution
resolved_cons r (resolved rs) = resolved (r ∷ rs)
resolved_cons r untrusted = untrusted

-- The body of the loop of `resolveArtifacts`.
unfoldable pub resolve_one : Option (List ℕ) → List ℕ → List ℕ → ArtifactProgress → Option Resolved
unfolding resolve_artifact_url resolve_artifact_destination
resolve_one abs_models_dir repository revision a =
    elim (resolve_artifact_url repository revision (codes a.path)) [
      | none ↦ none
      | some url ↦ elim (resolve_artifact_destination abs_models_dir repository (codes a.path)) [
        | none ↦ none
        | some dest ↦ some (record { url = url; dest = dest })
      ]
    ]

unfoldable pub resolve_artifacts :
    Option (List ℕ) → List ℕ → List ℕ → List ArtifactProgress → Resolution
unfolding resolve_one
resolve_artifacts dir repository revision [] = resolved []
resolve_artifacts dir repository revision (a ∷ rest) =
    elim (resolve_one dir repository revision a) [
      | none ↦ untrusted
      | some r ↦ resolved_cons r (resolve_artifacts dir repository revision rest)
    ]

abbrev pub part : List ℕ → List ℕ
part dest = dest ++ codes ".part"

abbrev pub Files : Type 0
Files = List (List ℕ × List ℕ)

-- `progressSaveInterval`
abbrev pub progress_save_interval : Settings → ℕ
progress_save_interval settings =
    if settings.progress_save_interval_bytes == 0
    then 10 * 1024 * 1024
    else settings.progress_save_interval_bytes

-- `httpStatusError` and the errors of `doGet` are one constructor.
pub data Fetched : Type 0 where
  fetched : Body → Bool → Option String → Fetched
  refused : Fetched

abbrev pub size_or_zero : Option (List ℕ) → ℕ
size_or_zero none = 0
size_or_zero (some bytes) = length bytes

-- `want != nil && fi.Size() == *want`, for the file that `os.Stat` finds.
abbrev pub has_wanted_size : Option ℕ → Option (List ℕ) → Bool
has_wanted_size (some want) (some bytes) = length bytes == want
has_wanted_size _ _ = false

abbrev pub reaches_wanted_size : Option ℕ → ℕ → Bool
reaches_wanted_size none size = false
reaches_wanted_size (some want) size = leb want size

-- What `O_TRUNC` or `O_APPEND` leaves of the partial file, created if it is missing.
abbrev pub opened : Bool → Option (List ℕ) → List ℕ
opened true (some bytes) = bytes
opened _ _ = []

abbrev pub append_bytes : List ℕ → List ℕ → Files → Files
append_bytes path bytes files = elim (lookup path files) [
  | none ↦ insert path bytes files
  | some old ↦ insert path (old ++ bytes) files
]

abbrev pub warned : Option String → Operation → Operation
warned none o = o
warned (some warning) o = record o { warnings = o.warnings ++ warning ∷ [] }

abbrev pub ignored : Step → Step
ignored (w, e) = (w, none)

abbrev pub unless_stopped : World × Bool → (World → Step) → Step
unless_stopped (w, true) k = (w, some externally_cancelled)
unless_stopped (w, false) k = k w

abbrev pub written_from : Option String → ℕ → ℕ
written_from none existing = existing
written_from (some _) existing = 0

module _ (host : Host) where
  abbrev pub restarted : Option Response → Fetched
  restarted none = refused
  restarted (some r) =
      if r.status == 200
      then fetched r.body false
          (some "origin did not honor a resume request; restarting the download from the beginning")
      else refused

  unfoldable pub first_answer : List ℕ → ℕ → ℕ → Option Response → Fetched
  first_answer url existing tick none = refused
  first_answer url existing tick (some r) =
      if existing == 0
      then (if r.status == 200 then fetched r.body false none else refused)
      else (if r.status == 206
          then fetched r.body true none
          else (if r.status == 200 || r.status == 416
              then restarted (host.get url 0 tick)
              else refused))

  -- `fetchArtifact`
  unfoldable pub fetch_artifact : List ℕ → ℕ → ℕ → Fetched
  unfolding first_answer
  fetch_artifact url existing tick = first_answer url existing tick (host.get url existing tick)

  -- From the end of the loop of `downloadOne` on: sync, close and the last save.
  unfoldable pub finish_download : ℕ → List ℕ → ℕ → World → Step
  finish_download index dest written w =
      if not (host.succeeds sync_partial dest w.tick)
      then (w, some (error internal "sync partial file"))
      else (if not (host.succeeds close_partial dest w.tick)
          then (w, some (error internal "close partial file"))
          else save_progress host index written w)

  module _ (settings : Settings) (index : ℕ) (dest : List ℕ) where
    -- The loop of `downloadOne`, with `written` and `lastSaved`.
    unfoldable pub receive : Body → ℕ → ℕ → World → Step
    unfolding finish_download
    receive context_done written last w = (w, some (error cancelled_code "context"))
    receive broken written last w = (w, some (error internal "read response body"))
    receive eof written last w = finish_download index dest written w
    receive (chunk [] limit rest) written last w = receive rest written last w
    receive (chunk (b ∷ bytes) (some n) rest) written last w = (
      record w { files = append_bytes (part dest) (take n (b ∷ bytes)) w.files },
      some (error internal "write partial file"),
    )
    receive (chunk (b ∷ bytes) none rest) written last w =
        let w' = record w { files = append_bytes (part dest) (b ∷ bytes) w.files } in
        let written' = written + length (b ∷ bytes) in
        elim (ltb (written' - last) (progress_save_interval settings)) [
          | true ↦ receive rest written' last w'
          | false ↦ unless_stopped (stop_if_cancelled host w') (λ v.
              save_progress host index written' v then (λ u. receive rest written' written' u))
        ]

    -- `downloadOne`, from the answer of `fetchArtifact` on.
    unfoldable pub store_body : ℕ → Fetched → World → Step
    unfolding receive
    store_body existing refused w = (w, some (error internal "download"))
    store_body existing (fetched body resuming warning) w =
        let v = record w { op = warned warning w.op } in
        let start = written_from warning existing in
        if not (host.succeeds open_partial dest w.tick)
        then (v, some (error internal "open partial file"))
        else receive body start start (record v {
          files = insert (part dest) (opened resuming (lookup (part dest) w.files)) w.files;
        })

  -- `downloadOne`
  unfoldable pub download_one : Settings → ℕ → ArtifactProgress → Resolved → World → Step
  unfolding fetch_artifact store_body
  download_one settings index a r w =
      let partial = lookup (part r.dest) w.files in
      let existing = size_or_zero partial in
      if not (host.succeeds make_dir r.dest w.tick)
      then (w, some (error internal "create destination directory"))
      else (if has_wanted_size a.bytes_total (lookup r.dest w.files)
          then ignored (save_progress host index (size_or_zero (lookup r.dest w.files)) w)
          else (if not (host.succeeds stat_partial r.dest w.tick)
              then (w, some (error internal "stat partial file"))
              else (if reaches_wanted_size a.bytes_total existing
                  then ignored (save_progress host index existing w)
                  else store_body settings index r.dest existing
                      (fetch_artifact r.url existing w.tick) w)))

  -- `download`: the artifacts and what they resolved to, from an index on.
  unfoldable pub download : Settings → ℕ → List ArtifactProgress → List Resolved → World → Step
  unfolding download_one
  download settings index (a ∷ artifacts) (r ∷ rs) w =
      download_one settings index a r w then (λ v. download settings (suc index) artifacts rs v)
  download settings index _ _ w = (w, none)
