-- ===== src/Operation/Executor.antt =====
-- internal/operation/executor.go and diskspace.go: the state of one `Run`, its round trips to the
-- store and its preflight. What the host answers is the record `Host`: other writers of the store,
-- the clock, the network, the file system's failures and `Registrar`. Messages keep their literal
-- words and leave out the values that the code formats into them.
pub mod Transfer
pub mod Content
pub mod Run
pub mod Trace
pub mod Steps
pub mod Ends
pub mod Verified
pub mod Installed
pub mod Success
pub mod Resume
pub mod Space
pub mod Primary
pub mod Cleanup
pub mod Samples
use llama_skein.Base.{
  ℕ, zero, suc, ◌+◌, ◌-◌, ◌%◌, ◌^◌, ◌<◌, String, Bool, true, false, not, ◌&&◌, Option, none, some,
  List, [], ◌∷◌, ◌++◌, ltb, leb, if◌then◌else◌, get_elem?, set,
}
use llama_skein.Operation.{
  add64, Phase, cancelled, Operation, ArtifactProgress, ErrorCode, internal, disk_insufficient,
  Outcome, ok, invalid_transition, transition_to, fail, is_cancelled,
}
use llama_skein.Operation.Store.{
  Store, load, found, not_found, unreadable, Loaded, save, SaveError, already_terminal,
  write_failed,
}
use llama_skein.Operation.Store.Saves.{saves}

-- A response body as its reads: bytes (with how many of them a failing write still writes), the
-- end, an error, or a context that is done before the read.
pub data Body : Type 0 where
  chunk : List ℕ → Option ℕ → Body → Body
  eof : Body
  broken : Body
  context_done : Body

pub record Response : Type 0 where
  pub status : ℕ
  pub body : Body

-- The file operations that can fail.
pub data FileStep : Type 0 where
  make_dir stat_partial open_partial sync_partial close_partial : FileStep
  open_digest read_digest rename : FileStep

pub record Host : Type 0 where
  pub others : ℕ → List (Bool × Operation)
  pub readable : ℕ → Bool
  pub writable : ℕ → Bool
  pub clock : ℕ → ℕ
  pub get : List ℕ → ℕ → ℕ → Option Response
  pub succeeds : FileStep → List ℕ → ℕ → Bool
  pub sha256 : List ℕ → List ℕ
  pub abs_models_dir : Option (List ℕ)
  pub available_bytes : Option ℕ
  pub register : Option (Operation → List ℕ → Option String)

-- `Executor`'s own settings.
pub record Settings : Type 0 where
  pub models_dir : List ℕ
  pub safety_reserve_bytes : ℕ
  pub progress_save_interval_bytes : ℕ

-- The files by their paths, the store, `Run`'s own `*Operation`, and how many round trips to the
-- store there have been.
pub record World : Type 0 where
  pub files : List (List ℕ × List ℕ)
  pub store : Store
  pub op : Operation
  pub tick : ℕ

-- The `*Error` of a step; `errExternallyCancelled` is compared by identity.
pub data Stop : Type 0 where
  externally_cancelled : Stop
  error : ErrorCode → String → Stop

-- A step of `Run`: the world after it, and its error or nil.
abbrev pub Step : Type 0
Step = World × Option Stop

-- `if err := step; err != nil { return err }`, then the rest.
abbrev pub and_then : Step → (World → Step) → Step
and_then (w, some stop) k = (w, some stop)
and_then (w, none) k = k w

infixl 5 ◌then◌
abbrev pub ◌then◌ : Step → (World → Step) → Step
step then k = and_then step k

abbrev pub negative64 : ℕ → Bool
negative64 n = leb (2 ^ 63) n

abbrev pub sub64 : ℕ → ℕ → ℕ
sub64 a b = (a + (2 ^ 64 - b % 2 ^ 64)) % 2 ^ 64

-- The loop of `preflight`, on `int64` by its bit patterns.
unfoldable pub remaining_bytes : List ArtifactProgress → ℕ → ℕ
remaining_bytes [] remaining = remaining
remaining_bytes (a ∷ rest) remaining = elim a.bytes_total [
  | none ↦ remaining_bytes rest remaining
  | some total ↦ remaining_bytes rest (add64 remaining (sub64 total a.bytes_downloaded))
]

abbrev pub clamped : ℕ → ℕ
clamped n = if negative64 n then 0 else n

-- `evaluateDiskPreflight`: whether the error is nil.
unfoldable pub evaluate_disk_preflight : ℕ → ℕ → ℕ → Bool
evaluate_disk_preflight available remaining reserve =
    leb (add64 (clamped remaining) (clamped reserve)) available

-- `CheckDiskPreflight`
unfoldable pub check_disk_preflight : Option ℕ → ℕ → ℕ → Bool
unfolding evaluate_disk_preflight
check_disk_preflight none remaining reserve = false
check_disk_preflight (some available) remaining reserve =
    evaluate_disk_preflight available remaining reserve

abbrev pub cancelled_record : Loaded → Bool
cancelled_record (found o) = is_cancelled o.phase
cancelled_record not_found = false
cancelled_record unreadable = false

-- What `advance` and `saveProgress` make of the error of `Save`.
abbrev pub stop_of_save : Option SaveError → Option Stop
stop_of_save none = none
stop_of_save (some already_terminal) = some externally_cancelled
stop_of_save (some write_failed) = none

-- The write to `op.Artifacts[index].BytesDownloaded`.
unfoldable pub set_downloaded : ℕ → ℕ → List ArtifactProgress → List ArtifactProgress
set_downloaded index written [] = []
set_downloaded zero written (a ∷ rest) = record a { bytes_downloaded = written } ∷ rest
set_downloaded (suc index) written (a ∷ rest) = a ∷ set_downloaded index written rest

abbrev pub saved_step : World × Option SaveError → Step
saved_step (w, e) = (w, stop_of_save e)

abbrev pub is_empty : List ℕ → Bool
is_empty [] = true
is_empty (_ ∷ _) = false

module _ (host : Host) where
  -- The other writers save before this process reaches the store.
  abbrev pub reach : World → World
  reach w = record w { store = saves (host.others w.tick) w.store; tick = suc w.tick }

  -- `stopIfCancelled`
  unfoldable pub stop_if_cancelled : World → World × Bool
  stop_if_cancelled w =
      (reach w, host.readable w.tick && cancelled_record (load (reach w).store w.op.id))

  -- `e.Store.Save(op)`
  unfoldable pub save_op : World → World × Option SaveError
  save_op w =
      let (s, e) = save (host.writable w.tick) w.op (reach w).store in
      (record (reach w) { store = s }, e)

  abbrev pub entered : World → Outcome → Step
  unfolding save_op
  entered w (ok o) = saved_step (save_op (record w { op = o }))
  entered w invalid_transition = (w, some (error internal "invalid transition"))

  abbrev pub unless_cancelled : Phase → World × Bool → Step
  unless_cancelled phase (w, true) = (w, some externally_cancelled)
  unless_cancelled phase (w, false) = entered w (transition_to phase (host.clock w.tick) w.op)

  -- `advance`
  unfoldable pub advance : Phase → World → Step
  unfolding stop_if_cancelled
  advance phase w = unless_cancelled phase (stop_if_cancelled w)

  abbrev pub recorded : World → Outcome → World
  unfolding save_op
  recorded w (ok o) = (save_op (record w { op = o })).0
  recorded w invalid_transition = w

  -- `terminate`, for an error that is not nil.
  unfoldable pub terminate : ErrorCode → String → World → World
  unfolding recorded
  terminate code message w = recorded w (fail code message (host.clock w.tick) w.op)

  -- `finish`
  unfoldable pub finish : Stop → World → World
  unfolding terminate
  finish externally_cancelled w = w
  finish (error code message) w = terminate code message w

  -- `preflight`
  unfoldable pub preflight : Settings → World → Step
  unfolding check_disk_preflight remaining_bytes
  preflight settings w =
      if is_empty settings.models_dir
      then (w, some (error internal "operation: executor has no configured models directory"))
      else (if check_disk_preflight host.available_bytes (remaining_bytes w.op.artifacts 0)
            settings.safety_reserve_bytes
          then (w, none)
          else (w, some (error disk_insufficient "operation: insufficient disk space")))

  -- `saveProgress`: the error that its callers return where it answers true.
  unfoldable pub save_progress : ℕ → ℕ → World → Step
  unfolding save_op set_downloaded
  save_progress index written w = saved_step (
      save_op (record w {
        op = record w.op {
          artifacts = set_downloaded index written w.op.artifacts;
          updated_at = host.clock w.tick;
        };
      }))
