-- ===== src/Operation.antt =====
-- internal/operation/operation.go and transitions.go: the record of one model installation and
-- its phases. Times are numbers; `error` is the sum `Outcome`.
pub mod Phases
pub mod Progress
pub mod Store
pub mod Restart
pub mod Source
pub mod Executor
pub mod Samples
use llama_skein.Base.{
  ℕ, zero, suc, ◌+◌, ◌%◌, ◌^◌, String, Bool, true, false, ◌||◌, ◌&&◌, Option, none, some, List, [],
  ◌∷◌, ◌++◌, map, ◌==◌, if◌then◌else◌,
}

pub data Phase : Type 0 where
  queued preflighting resolving downloading verifying installing registering reloading : Phase
  succeeded cancelled failed : Phase

pub Phase-discrete : Discrete Phase
Phase-discrete = hlevel

abbrev pub happy_path : List Phase
happy_path =
    queued ∷ preflighting ∷ resolving ∷ downloading ∷ verifying ∷ installing ∷ registering
    ∷ reloading ∷ succeeded ∷ []

-- `happyPathIndex`: the position of a phase in `happyPath`, if it has one.
unfoldable pub happy_path_index : Phase → Option ℕ
happy_path_index queued = some 0
happy_path_index preflighting = some 1
happy_path_index resolving = some 2
happy_path_index downloading = some 3
happy_path_index verifying = some 4
happy_path_index installing = some 5
happy_path_index registering = some 6
happy_path_index reloading = some 7
happy_path_index succeeded = some 8
happy_path_index cancelled = none
happy_path_index failed = none

-- `Phase.Terminal`
unfoldable pub terminal : Phase → Bool
terminal succeeded = true
terminal cancelled = true
terminal failed = true
terminal _ = false

-- `to == PhaseCancelled || to == PhaseFailed`
abbrev pub is_abort : Phase → Bool
is_abort cancelled = true
is_abort failed = true
is_abort _ = false

-- The comparison of the two indices that `happyPathIndex` gives.
next_index : Option ℕ → Option ℕ → Bool
next_index (some i) (some j) = j == i + 1
next_index none _ = false
next_index (some i) none = false

-- `CanTransition`
unfoldable pub can_transition : Phase → Phase → Bool
unfolding terminal happy_path_index next_index
can_transition from to =
    if terminal from
    then false
    else (if is_abort to then true else next_index (happy_path_index from) (happy_path_index to))

pub data ErrorCode : Type 0 where
  invalid_plan untrusted_source disk_insufficient range_unsupported digest_mismatch : ErrorCode
  shard_incomplete reload_failed cancelled_code internal : ErrorCode

pub record Failure : Type 0 where
  pub code : ErrorCode
  pub message : String

pub data ArtifactRole : Type 0 where
  weights projector draft tokenizer config other : ArtifactRole

pub record ArtifactProgress : Type 0 where
  pub path : String
  pub bytes_downloaded : ℕ
  pub bytes_total : Option ℕ
  pub role : ArtifactRole
  pub digest : Option String

pub record Registration : Type 0 where
  pub model_id : String
  pub display_name : Option String
  pub backend : String
  pub flags : List String
  pub ttl : Option ℕ

pub record Artifact : Type 0 where
  pub path : String
  pub size_bytes : ℕ
  pub digest : Option String
  pub role : ArtifactRole

pub record Plan : Type 0 where
  pub source_repository : String
  pub source_revision : String
  pub artifacts : List Artifact
  pub registration : Registration

pub record Operation : Type 0 where
  pub id : String
  pub phase : Phase
  pub source_repository : String
  pub source_revision : String
  pub model_id : String
  pub artifacts : List ArtifactProgress
  pub registration : Registration
  pub created_at : ℕ
  pub updated_at : ℕ
  pub error : Option Failure
  pub warnings : List String

-- The zero `Registration` of a record that `New` builds.
abbrev pub no_registration : Registration
no_registration = record {
  model_id = "";
  display_name = none;
  backend = "";
  flags = [];
  ttl = none;
}

-- `New`. The host-generated identifier (`uuid.New`) is an argument.
unfoldable pub new : String → String → String → String → List ArtifactProgress → ℕ → Operation
new id repository revision model artifacts now = record {
  id = id;
  phase = queued;
  source_repository = repository;
  source_revision = revision;
  model_id = model;
  artifacts = artifacts;
  registration = no_registration;
  created_at = now;
  updated_at = now;
  error = none;
  warnings = [];
}

-- The body of the loop of `NewFromPlan`.
unfoldable pub planned_artifact : Artifact → ArtifactProgress
planned_artifact a = record {
  path = a.path;
  bytes_downloaded = 0;
  bytes_total = some a.size_bytes;
  role = a.role;
  digest = a.digest;
}

-- `NewFromPlan`
unfoldable pub new_from_plan : String → Plan → ℕ → Operation
unfolding new planned_artifact
new_from_plan id plan now =
    record (new id plan.source_repository plan.source_revision plan.registration.model_id
      (map planned_artifact plan.artifacts) now) { registration = plan.registration }

-- A method that returns an `error`: the operation after it, and whether the error is nil.
pub data Outcome : Type 0 where
  ok : Operation → Outcome
  invalid_transition : Outcome

-- `TransitionTo`
unfoldable pub transition_to : Phase → ℕ → Operation → Outcome
transition_to to now o =
    if can_transition o.phase to
    then ok (record o { phase = to; updated_at = now })
    else invalid_transition

-- `Fail`
unfoldable pub fail : ErrorCode → String → ℕ → Operation → Outcome
unfolding transition_to
fail code message now o = elim (transition_to failed now o) [
  | ok o' ↦ ok (record o' { error = some (record { code = code; message = message }) })
  | invalid_transition ↦ invalid_transition
]

abbrev pub is_cancelled : Phase → Bool
is_cancelled cancelled = true
is_cancelled _ = false

-- `Cancel`
unfoldable pub cancel : ℕ → Operation → Outcome
unfolding transition_to
cancel now o = if is_cancelled o.phase then ok o else transition_to cancelled now o

-- `total += n` on `int64`, whose values are given by their bit patterns.
abbrev pub add64 : ℕ → ℕ → ℕ
add64 a b = (a + b) % 2 ^ 64

-- `BytesDownloaded`: the loop over the artifacts with its accumulator.
unfoldable pub bytes_downloaded : List ArtifactProgress → ℕ → ℕ
bytes_downloaded [] total = total
bytes_downloaded (a ∷ rest) total = bytes_downloaded rest (add64 total a.bytes_downloaded)

-- `BytesTotal`
unfoldable pub bytes_total : List ArtifactProgress → ℕ → Option ℕ
bytes_total [] total = some total
bytes_total (a ∷ rest) total = elim a.bytes_total [
  | none ↦ none
  | some t ↦ bytes_total rest (add64 total t)
]
