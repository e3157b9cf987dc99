-- ===== src/Operation/Executor/Success.antt =====
-- internal/operation/executor.go: what a `Run` that answers no error has put on the disk.
use llama_skein.Base.{
  ℕ, suc, ◌≡◌, refl, sym, ap, subst, ◌∙◌, inl, inr, String, Bool, true, false, Option, none, some,
  List, [], ◌∷◌, Option-cases, length, map,
}
use llama_skein.Base.Text.{codes}
use llama_skein.Operation.{
  Phase, Operation, ArtifactProgress, Outcome, ok, invalid_transition, transition_to, preflighting,
  resolving, downloading, verifying, installing, registering, reloading, succeeded, terminal,
}
use llama_skein.Operation.Executor.{
  Host, Settings, World, Step, stop_if_cancelled, save_op, entered, unless_cancelled, advance,
  preflight,
}
use llama_skein.Operation.Executor.Transfer.{
  Files, Resolved, Resolution, resolved, untrusted, resolved_cons, resolve_one, resolve_artifacts,
  download,
}
use llama_skein.Operation.Executor.Content.{verify, install, primary_weights_path}
use llama_skein.Operation.Executor.Run.{register_step, run_resolved, run_steps}
use llama_skein.Operation.Executor.Trace.{
  blank, plan_of, Live, advance-Live, preflight-Live, transition_to-keeps,
}
use llama_skein.Operation.Executor.Steps.{some_stop, download-Live}
use llama_skein.Operation.Executor.Verified.{
  claim, Claim, Holds, staged, installed, After, then-After, verify-Holds,
}
use llama_skein.Operation.Executor.Installed.{Apart, install-Holds}

resolve_artifacts-blank :
    (dir : Option (List ℕ)) (repository revision : List ℕ) (l : List ArtifactProgress)
    → resolve_artifacts dir repository revision (map blank l)
      ≡ resolve_artifacts dir repository revision l
unfolding resolve_artifacts resolve_one
resolve_artifacts-blank dir repository revision [] = refl
resolve_artifacts-blank dir repository revision (a ∷ l) =
    ap
      (λ x. elim (resolve_one dir repository revision a) [
        | none ↦ untrusted
        | some r ↦ resolved_cons r x
      ])
      (resolve_artifacts-blank dir repository revision l)

map-claim-blank : (l : List ArtifactProgress) → map claim (map blank l) ≡ map claim l
map-claim-blank [] = refl
map-claim-blank (a ∷ l) = ap (◌∷◌ (claim a)) (map-claim-blank l)

resolved_inj : (l m : List Resolved) → resolved l ≡ resolved m → l ≡ m
resolved_inj l m e = cc

length-resolved_cons :
    (r : Resolved) (x : Resolution) (rs : List Resolved) (n : ℕ)
    → ((l : List Resolved) → x ≡ resolved l → n ≡ length l)
    → resolved_cons r x ≡ resolved rs
    → suc n ≡ length rs
length-resolved_cons r (resolved l) rs n h e =
    ap suc (h l refl) ∙ ap length (resolved_inj (r ∷ l) rs e)
length-resolved_cons r untrusted rs n h e = cc

length-resolved :
    (dir : Option (List ℕ)) (repository revision : List ℕ) (l : List ArtifactProgress)
    (rs : List Resolved)
    → resolve_artifacts dir repository revision l ≡ resolved rs
    → length l ≡ length rs
unfolding resolve_artifacts
length-resolved dir repository revision [] rs h = ap length (resolved_inj [] rs h)
length-resolved dir repository revision (a ∷ l) rs h =
    elim (Option-cases (resolve_one dir repository revision a)) [
      | inl p ↦ let e : untrusted ≡ resolved rs = rw (resolve_artifacts, p) at h in cc
      | inr (r, p) ↦
          length-resolved_cons r (resolve_artifacts dir repository revision l) rs (length l)
            (length-resolved dir repository revision l) (rw (resolve_artifacts, p) at h)
    ]

length-map : (l : List ArtifactProgress) → length (map blank l) ≡ length l
length-map [] = refl
length-map (a ∷ l) = ap suc (length-map l)

-- Where the plan of a record is as given.
Planned : Operation → World → Type 0
Planned o v = plan_of v.op ≡ plan_of o

Live-After : (o : Operation) (w : World) (m : Step) → Live w m → Planned o w → After (Planned o) m
unfolding Planned
Live-After o w m h p e = h.moves.plan_eq ∙ p

-- Where the files are as given, in a phase.
module _ (host : Host) where
  entered-files : (w : World) (c : Outcome) → (entered host w c).0.files ≡ w.files
  unfolding entered save_op
  entered-files w (ok o) = refl
  entered-files w invalid_transition = refl

  entered-phase :
      (w : World) (c : Outcome) (phase : Phase)
      → ((o : Operation) → c ≡ ok o → o.phase ≡ phase)
      → After (λ v. (v.files ≡ w.files) × (v.op.phase ≡ phase)) (entered host w c)
  unfolding entered save_op
  entered-phase w (ok o) phase h = λ e. (refl, h o refl)
  entered-phase w invalid_transition phase h = λ e. absurd (some_stop e)

  unless_cancelled-After :
      (phase : Phase) (w : World) (c : World × Bool)
      → c.0.files ≡ w.files
      → After (λ v. (v.files ≡ w.files) × (v.op.phase ≡ phase)) (unless_cancelled host phase c)
  unless_cancelled-After phase w (v, true) h e = absurd (some_stop e)
  unless_cancelled-After phase w (v, false) h e =
      let (p, q) =
        entered-phase v (transition_to phase (host.clock v.tick) v.op) phase
          (λ o t. (transition_to-keeps host phase (host.clock v.tick) v.op o t).1) e in
      (p ∙ h, q)

  -- `advance` that answers nil changes no file and is in its phase.
  advance-After :
      (phase : Phase) (w : World)
      → After (λ v. (v.files ≡ w.files) × (v.op.phase ≡ phase)) (advance host phase w)
  unfolding advance stop_if_cancelled
  advance-After phase w = unless_cancelled-After phase w (stop_if_cancelled host w) refl

  advance-Planned :
      (o : Operation) (phase : Phase) (w : World)
      → terminal phase ≡ false
      → Planned o w
      → After (Planned o) (advance host phase w)
  advance-Planned o phase w t = Live-After o w (advance host phase w) (advance-Live host phase w t)

  register_step-files :
      (register : Option (Operation → List ℕ → Option String)) (rs : List Resolved) (w : World)
      → (register_step host register rs w).0 ≡ w
  unfolding register_step
  register_step-files none rs w = refl
  register_step-files (some register) rs w =
      elim (Option-cases (register w.op (primary_weights_path w.op.artifacts rs))) [
        | inl p ↦ rw (register_step, p)
        | inr (message, p) ↦ rw (register_step, p)
      ]

  -- The declared content at its place, through steps that change no file.
  Kept : (Files → List ℕ → Option (List ℕ)) → List Claim → List Resolved → World → Type 0
  Kept read cs rs v = Holds host.sha256 read v.files cs rs

  advance-Kept :
      (read : Files → List ℕ → Option (List ℕ)) (cs : List Claim) (rs : List Resolved)
      (phase : Phase) (w : World)
      → Kept read cs rs w
      → After (Kept read cs rs) (advance host phase w)
  unfolding Kept
  advance-Kept read cs rs phase w h e =
      subst (λ f. Holds host.sha256 read f cs rs) (sym (advance-After phase w e).0) h

  register_step-Kept :
      (cs : List Claim) (rs : List Resolved) (w : World)
      → Kept installed cs rs w
      → After (Kept installed cs rs) (register_step host host.register rs w)
  unfolding Kept
  register_step-Kept cs rs w h e =
      subst (λ v. Holds host.sha256 installed v.files cs rs)
        (sym (register_step-files host.register rs w)) h

  verify-Kept :
      (o : Operation) (rs : List Resolved) (w : World)
      → length o.artifacts ≡ length rs
      → Planned o w
      → After (Kept staged (map claim o.artifacts) rs) (verify host w.op.artifacts rs w)
  unfolding Planned Kept
  verify-Kept o rs w n p e =
      let q : map blank w.op.artifacts ≡ map blank o.artifacts = ap (λ t. t.3) p in
      let c : map claim w.op.artifacts ≡ map claim o.artifacts =
        sym (map-claim-blank w.op.artifacts) ∙ ap (map claim) q ∙ map-claim-blank o.artifacts in
      let m : length w.op.artifacts ≡ length rs =
        sym (length-map w.op.artifacts) ∙ ap length q ∙ length-map o.artifacts ∙ n in
      subst (λ cs. Holds host.sha256 staged (verify host w.op.artifacts rs w).0.files cs rs) c
        (verify-Holds host w.op.artifacts rs w m e).2

  -- What `Run` has put on the disk when it ends without an error.
  Installed : Operation → List Resolved → World → Type 0
  Installed o rs v =
      (v.op.phase ≡ succeeded) × Holds host.sha256 installed v.files (map claim o.artifacts) rs

  run_resolved-Installed :
      (settings : Settings) (o : Operation) (rs : List Resolved) (w : World)
      → length o.artifacts ≡ length rs
      → Apart rs
      → Planned o w
      → After (Installed o rs) (run_resolved host settings (resolved rs) w)
  unfolding run_resolved terminal Installed Kept
  run_resolved-Installed settings o rs w n a p =
      let cs = map claim o.artifacts in
      then-After (Kept installed cs rs) (Installed o rs) _ (advance host succeeded)
        (then-After (Kept installed cs rs) (Kept installed cs rs) _ (advance host reloading)
          (then-After (Kept installed cs rs) (Kept installed cs rs) _
            (register_step host host.register rs)
            (then-After (Kept installed cs rs) (Kept installed cs rs) _ (advance host registering)
              (then-After (Kept staged cs rs) (Kept installed cs rs) _ (install host rs)
                (then-After (Kept staged cs rs) (Kept staged cs rs) _ (advance host installing)
                  (then-After (Planned o) (Kept staged cs rs) _
                    (λ v. verify host v.op.artifacts rs v)
                    (then-After (Planned o) (Planned o) _ (advance host verifying)
                      (then-After (Planned o) (Planned o) (advance host downloading w)
                        (λ v. download host settings 0 v.op.artifacts rs v)
                        (advance-Planned o downloading w refl p)
                        (λ v. Live-After o v _ (download-Live host settings 0 v.op.artifacts rs v)))
                      (λ v. advance-Planned o verifying v refl))
                    (λ v. verify-Kept o rs v n))
                  (advance-Kept staged cs rs installing))
                (λ v h e. (install-Holds host host.sha256 cs rs v a h e).1))
              (advance-Kept installed cs rs registering))
            (register_step-Kept cs rs))
          (advance-Kept installed cs rs reloading))
        (λ v h e. ((advance-After succeeded v e).1, advance-Kept installed cs rs succeeded v h e))

  resolution_eq :
      (o : Operation) (w : World)
      → Planned o w
      → resolve_artifacts host.abs_models_dir
          (codes w.op.source_repository)
          (codes w.op.source_revision)
          w.op.artifacts
        ≡ resolve_artifacts host.abs_models_dir
            (codes o.source_repository)
            (codes o.source_revision)
            o.artifacts
  unfolding Planned
  resolution_eq o w p =
      let dir = host.abs_models_dir in
      sym (
        resolve_artifacts-blank dir (codes w.op.source_repository) (codes w.op.source_revision)
          w.op.artifacts)
      ∙ ap
          (λ (t : String × String × String × List ArtifactProgress).
            resolve_artifacts dir (codes t.1) (codes t.2) t.3)
          p
      ∙ resolve_artifacts-blank dir (codes o.source_repository) (codes o.source_revision)
          o.artifacts

-- Where every step of a `Run` answers nil, the record has succeeded, and at the destination of each
-- artifact of the plan lies a file of the declared size and, where a digest was declared, with that
-- SHA-256: for any network, file system and other writers, and whatever files lay there before, so
-- long as the destinations and their partial files are different paths.
pub run-installs :
    (host : Host) (settings : Settings) (w : World) (rs : List Resolved)
    → resolve_artifacts host.abs_models_dir
        (codes w.op.source_repository)
        (codes w.op.source_revision)
        w.op.artifacts
      ≡ resolved rs
    → Apart rs
    → (run_steps host settings w).1 ≡ none
    → ((run_steps host settings w).0.op.phase ≡ succeeded)
      × Holds host.sha256 installed
          (run_steps host settings w).0.files
          (map claim w.op.artifacts)
          rs
unfolding run_steps Planned terminal Installed
run-installs host settings w rs h a =
    then-After (Planned w.op) (Installed host w.op rs) _ _
      (then-After (Planned w.op) (Planned w.op) _ (advance host resolving)
        (then-After (Planned w.op) (Planned w.op) (advance host preflighting w)
          (preflight host settings) (advance-Planned host w.op preflighting w refl refl)
          (λ v. Live-After w.op v _ (preflight-Live host settings v)))
        (λ v. advance-Planned host w.op resolving v refl))
      (λ v p.
        subst (λ x. After (Installed host w.op rs) (run_resolved host settings x v))
          (sym (resolution_eq host w.op v p ∙ h))
          (run_resolved-Installed host settings w.op rs v
            (length-resolved host.abs_models_dir (codes w.op.source_repository)
              (codes w.op.source_revision) w.op.artifacts rs h)
            a p))
