-- ===== src/Operation/Restart.antt =====
-- internal/operation/recover.go: the pass over the store when the server starts.
use Prim.Native.String.{◌++◌ as append_text}
use mathlib.Core.List.{append-nil, append_assoc}
use llama_skein.Base.{
  inl, inr, Option-cases, ℕ, ◌≡◌, refl, sym, ◌∙◌, String, Bool, true, false, Option, none, some,
  List, [], ◌∷◌, ◌++◌, map, arith, keep, not, if◌then◌else◌, str_eq, eq_refl, Bool-cases,
}
use llama_skein.Operation.{
  Phase, queued, preflighting, resolving, downloading, verifying, installing, registering,
  reloading, succeeded, cancelled, failed, terminal, Operation,
}
use llama_skein.Operation.Store.{Store, save, SaveError, list}

-- The text of a phase, as its Go constant has it.
unfoldable pub phase_text : Phase → String
phase_text queued = "queued"
phase_text preflighting = "preflighting"
phase_text resolving = "resolving"
phase_text downloading = "downloading"
phase_text verifying = "verifying"
phase_text installing = "installing"
phase_text registering = "registering"
phase_text reloading = "reloading"
phase_text succeeded = "succeeded"
phase_text cancelled = "cancelled"
phase_text failed = "failed"

abbrev pub interrupted_warning_prefix : String
interrupted_warning_prefix = "interrupted by a server restart while at phase "

unfoldable pub interrupted_message : Phase → String
unfolding phase_text
interrupted_message p = append_text interrupted_warning_prefix (phase_text p)

-- `len(o.Warnings) > 0 && o.Warnings[len(o.Warnings)-1] == message`
unfoldable pub ends_with : String → List String → Bool
ends_with message [] = false
ends_with message (w ∷ []) = str_eq w message
ends_with message (w ∷ w' ∷ ws) = ends_with message (w' ∷ ws)

-- `markInterrupted`: the operation after it, and whether it changed.
unfoldable pub mark_interrupted : ℕ → Operation → Operation × Bool
unfolding ends_with
mark_interrupted now o =
    if ends_with (interrupted_message o.phase) o.warnings then (o, false) else (
      record o { warnings = o.warnings ++ interrupted_message o.phase ∷ []; updated_at = now },
      true,
    )

-- What `Recover` returns, with the store after it. `writable` says of each identifier whether a
-- write to its file succeeds.
pub record Recovered : Type 0 where
  pub store : Store
  pub recovered : List Operation
  pub error : Option SaveError

-- The save in the loop of `Recover`, made only where the mark changed the record.
unfoldable pub save_if : Bool → Bool → Operation → Store → Store × Option SaveError
save_if changed writable o s = if changed then save writable o s else (s, none)

-- The body of the loop for an operation that is under way.
unfoldable pub recover_save : (String → Bool) → ℕ → Operation → Store → Store × Option SaveError
unfolding save_if
recover_save writable now o s =
    let (o', changed) = mark_interrupted now o in save_if changed (writable o.id) o' s

-- The loop of `Recover`, with the list that it builds.
unfoldable pub recover_from :
    (String → Bool) → ℕ → List Operation → List Operation → Store → Recovered
recover_from writable now done [] s = record { store = s; recovered = done; error = none }
recover_from writable now done (o ∷ os) s =
    let (s', e) = recover_save writable now o s in
    let next = recover_from writable now (done ++ (mark_interrupted now o).0 ∷ []) os s' in
    let skip = recover_from writable now done os s in
    if terminal o.phase
    then skip
    else (elim e [ none ↦ next | some x ↦ record { store = s'; recovered = done; error = some x } ])

-- `Recover`
unfoldable pub recover : (String → Bool) → ℕ → Store → Recovered
unfolding recover_from
recover writable now s = recover_from writable now [] (list s) s

ends_with-append : (m : String) (ws : List String) → ends_with m (ws ++ m ∷ []) ≡ true
unfolding ends_with
ends_with-append m [] = eq_refl m
ends_with-append m (w ∷ []) = eq_refl m
ends_with-append m (w ∷ w' ∷ ws) = ends_with-append m (w' ∷ ws)

-- Marking a marked operation again, at any later time, changes nothing: however often the server
-- restarts at one phase, the warning is written once. The phase never changes.
pub mark_interrupted_idem :
    (now later : ℕ) (o : Operation)
    → (mark_interrupted later (mark_interrupted now o).0 ≡ ((mark_interrupted now o).0, false))
      × ((mark_interrupted now o).0.phase ≡ o.phase)
unfolding mark_interrupted
mark_interrupted_idem now later o =
    elim (Bool-cases (ends_with (interrupted_message o.phase) o.warnings)) [
      | inl b ↦ rw (b, b) (refl, refl)
      | inr b ↦ rw (b, ends_with-append (interrupted_message o.phase) o.warnings) (refl, refl)
    ]

recover_from-list :
    (writable : String → Bool) (now : ℕ) (done os : List Operation) (s : Store)
    → (recover_from writable now done os s).error ≡ none
    → (recover_from writable now done os s).recovered
      ≡ done ++ map (λ o. (mark_interrupted now o).0) (keep (λ o. not (terminal o.phase)) os)
unfolding recover_from
recover_from-list writable now done [] s h = sym (append-nil done)
recover_from-list writable now done (o ∷ os) s h = elim (Bool-cases (terminal o.phase)) [
  | inl b ↦ rw b (recover_from-list writable now done os s (rw b at h))
  | inr b ↦ elim (Option-cases (recover_save writable now o s).1) [
    | inr (x, p) ↦ ground arith
    | inl p ↦
        rw (b, p)
          (recover_from-list writable now (done ++ (mark_interrupted now o).0 ∷ []) os
              (recover_save writable now o s).0 (rw (b, p) at h)
            ∙ append_assoc done ((mark_interrupted now o).0 ∷ [])
                (map (λ o. (mark_interrupted now o).0) (keep (λ o. not (terminal o.phase)) os)))
  ]
]

-- When the pass reports no error it has returned every operation that was under way, in the order
-- of the listing and each with its mark, and no terminal operation.
pub recover-list :
    (writable : String → Bool) (now : ℕ) (s : Store)
    → (recover writable now s).error ≡ none
    → (recover writable now s).recovered
      ≡ map (λ o. (mark_interrupted now o).0) (keep (λ o. not (terminal o.phase)) (list s))
unfolding recover
recover-list writable now s h = recover_from-list writable now [] (list s) s h
