-- ===== src/Operation/Executor/Content.antt =====
-- internal/operation/executor.go: `verify`, `verifyDigest`, `install`, `primaryWeightsPath` and
-- `companionPath`. The digest of the host is in hexadecimal, so that `EqualFold` folds ASCII.
use llama_skein.Base.{
  ℕ, ◌+◌, String, Bool, true, false, not, ◌&&◌, Option, none, some, List, [], ◌∷◌, ◌==◌, ltb, leb,
  if◌then◌else◌, length, drop, map,
}
use llama_skein.Base.Text.{codes, text_eq, has_prefix, same_text}
use llama_skein.Base.Maps.{lookup, insert, delete}
use llama_skein.Shard.{ShardInfo, parse_shard_info}
use llama_skein.Operation.{
  ArtifactProgress, ArtifactRole, weights, projector, draft, tokenizer, config, other, internal,
  digest_mismatch,
}
use llama_skein.Operation.Executor.{
  open_digest, read_digest, stat_partial, rename, Host, World, error, Step, ◌then◌,
}
use llama_skein.Operation.Executor.Transfer.{Resolved, part, Files, warned}

abbrev fold_case : ℕ → ℕ
fold_case c = if leb b'A' c && leb c b'Z' then c + 32 else c

-- `strings.CutPrefix(want, "sha256:")`
unfoldable pub cut_prefix : List ℕ → List ℕ → Option (List ℕ)
cut_prefix s p = if has_prefix s p then some (drop (length p) s) else none

-- `strings.EqualFold`
unfoldable pub equal_fold : List ℕ → List ℕ → Bool
equal_fold s t = same_text (map fold_case s) (map fold_case t)

-- The path that `verify` checks.
unfoldable pub checked_path : Files → List ℕ → List ℕ
checked_path files dest = elim (lookup (part dest) files) [
  | some _ ↦ part dest
  | none ↦ elim (lookup dest files) [ some _ ↦ dest | none ↦ part dest ]
]

abbrev pub right_size : Option ℕ → List ℕ → Bool
right_size none bytes = true
right_size (some want) bytes = length bytes == want

module _ (host : Host) where
  -- `verifyDigest`: whether the error is nil.
  unfoldable pub verify_digest : List ℕ → List ℕ → List ℕ → ℕ → Bool
  unfolding cut_prefix equal_fold
  verify_digest path bytes want tick = elim (cut_prefix want (codes "sha256:")) [
    | none ↦ false
    | some hex ↦
        host.succeeds open_digest path tick
        && host.succeeds read_digest path tick
        && equal_fold (host.sha256 bytes) hex
  ]

  abbrev pub digest_step : Option String → List ℕ → List ℕ → World → Step
  digest_step none path bytes w =
      (record w { op = warned (some "verified by size only; no digest was provided") w.op }, none)
  digest_step (some digest) path bytes w =
      if verify_digest path bytes (codes digest) w.tick
      then (w, none)
      else (w, some (error digest_mismatch "digest mismatch"))

  abbrev pub content_step : ArtifactProgress → List ℕ → Option (List ℕ) → World → Step
  content_step a path none w = (w, some (error internal "stat partial file"))
  content_step a path (some bytes) w =
      if not (host.succeeds stat_partial path w.tick)
      then (w, some (error internal "stat partial file"))
      else (if right_size a.bytes_total bytes
          then digest_step a.digest path bytes w
          else (w, some (error digest_mismatch "wrong size")))

  -- The body of the loop of `verify`.
  unfoldable pub verify_one : ArtifactProgress → Resolved → World → Step
  unfolding checked_path
  verify_one a r w =
      let path = checked_path w.files r.dest in content_step a path (lookup path w.files) w

  -- `verify`
  unfoldable pub verify : List ArtifactProgress → List Resolved → World → Step
  unfolding verify_one
  verify (a ∷ artifacts) (r ∷ rs) w = verify_one a r w then (λ v. verify artifacts rs v)
  verify _ _ w = (w, none)

  -- `os.Rename(partial, r.dest)`, for the content of the partial file.
  abbrev pub renamed : List ℕ → Option (List ℕ) → World → Step
  renamed dest none w = (w, some (error internal "install"))
  renamed dest (some bytes) w =
      if host.succeeds rename dest w.tick
      then (record w { files = insert dest bytes (delete (part dest) w.files) }, none)
      else (w, some (error internal "install"))

  -- The body of the loop of `install`.
  unfoldable pub install_one : Resolved → World → Step
  install_one r w = elim (lookup (part r.dest) w.files) [
    | some bytes ↦ renamed r.dest (some bytes) w
    | none ↦ elim (lookup r.dest w.files) [ some _ ↦ (w, none) | none ↦ renamed r.dest none w ]
  ]

  -- `install`
  unfoldable pub install : List Resolved → World → Step
  unfolding install_one
  install [] w = (w, none)
  install (r ∷ rs) w = install_one r w then (λ v. install rs v)

abbrev pub is_weights : ArtifactRole → Bool
is_weights weights = true
is_weights _ = false

abbrev pub better_shard : Option (ℕ × List ℕ) → Option ShardInfo → List ℕ → Option (ℕ × List ℕ)
better_shard best none dest = best
better_shard none (some info) dest = some (info.index, dest)
better_shard (some (i, d)) (some info) dest =
    if ltb info.index i then some (info.index, dest) else some (i, d)

abbrev pub first_of : Option (List ℕ) → List ℕ → Option (List ℕ)
first_of none dest = some dest
first_of (some d) dest = some d

abbrev pub best_path : Option (ℕ × List ℕ) → Option (List ℕ) → List ℕ
best_path (some (i, d)) first = d
best_path none (some d) = d
best_path none none = []

-- The loop of `primaryWeightsPath`, with its best shard and its first weights.
unfoldable pub primary_from :
    Option (ℕ × List ℕ) → Option (List ℕ) → List ArtifactProgress → List Resolved → List ℕ
primary_from best first (a ∷ artifacts) (r ∷ rs) =
    primary_from
      (if is_weights a.role
        then better_shard best (parse_shard_info (codes a.path)) r.dest
        else best)
      (if is_weights a.role then first_of first r.dest else first) artifacts rs
primary_from best first _ _ = best_path best first

-- `primaryWeightsPath`
unfoldable pub primary_weights_path : List ArtifactProgress → List Resolved → List ℕ
unfolding primary_from
primary_weights_path artifacts rs = primary_from none none artifacts rs

abbrev pub same_role : ArtifactRole → ArtifactRole → Bool
same_role weights weights = true
same_role projector projector = true
same_role draft draft = true
same_role tokenizer tokenizer = true
same_role config config = true
same_role other other = true
same_role _ _ = false

-- `companionPath`
unfoldable pub companion_path : ArtifactRole → List ArtifactProgress → List Resolved → List ℕ
companion_path role (a ∷ artifacts) (r ∷ rs) =
    let rest = companion_path role artifacts rs in if same_role a.role role then r.dest else rest
companion_path role _ _ = []
