-- ===== src/Operation/Executor/Verified.antt =====
-- internal/operation/executor.go: what `verify` has found where it answers nil.
use llama_skein.Base.{
  ℕ, suc, ◌≡◌, refl, sym, subst, ◌∙◌, inl, inr, String, Bool, true, false, not, Option, none, some,
  List, [], ◌∷◌, arith, Option-cases, if◌then◌else◌, length, map, ==_iff,
}
use llama_skein.Base.Text.{codes, text_eq}
use llama_skein.Base.Maps.{lookup}
use llama_skein.Operation.{ArtifactProgress}
use llama_skein.Operation.Executor.{Host, World, Stop, Step, ◌then◌, stat_partial}
use llama_skein.Operation.Executor.Transfer.{Resolved, Files}
use llama_skein.Operation.Executor.Content.{
  checked_path, right_size, cut_prefix, equal_fold, verify_digest, digest_step, content_step,
  verify_one, verify,
}
use llama_skein.Operation.Executor.Steps.{some_stop}

-- What a plan declares of an artifact: its size and its digest.
abbrev pub Claim : Type 0
Claim = Option ℕ × Option String

abbrev pub claim : ArtifactProgress → Claim
claim a = (a.bytes_total, a.digest)

-- The bytes have the declared size, and their SHA-256 is the declared digest up to case.
pub record Fits (sha256 : List ℕ → List ℕ) (c : Claim) (bytes : List ℕ) : Type 0 where
  pub size : (n : ℕ) → c.0 ≡ some n → length bytes ≡ n
  pub digest :
      (d : String)
      → c.1 ≡ some d
      → (hex : List ℕ) × (cut_prefix (codes d) (codes "sha256:") ≡ some hex)
        × (equal_fold (sha256 bytes) hex ≡ true)

-- A file with the declared content at each destination.
abbrev pub Holds :
    (List ℕ → List ℕ)
    → (Files → List ℕ → Option (List ℕ))
    → Files
    → List Claim
    → List Resolved
    → Type 0
Holds sha256 read files (c ∷ cs) (r ∷ rs) =
    ((bytes : List ℕ) × (read files r.dest ≡ some bytes) × Fits sha256 c bytes)
    × Holds sha256 read files cs rs
Holds sha256 read files [] [] = Unit
Holds sha256 read files _ _ = ⊥

-- What `verify` reads for a destination, and what `install` must leave there.
abbrev pub staged : Files → List ℕ → Option (List ℕ)
staged files dest = lookup (checked_path files dest) files

abbrev pub installed : Files → List ℕ → Option (List ℕ)
installed files dest = lookup dest files

-- What holds of the world after a step that answers nil.
abbrev pub After : (World → Type 0) → Step → Type 0
After Q r = r.1 ≡ none → Q r.0

pub then-After :
    (P Q : World → Type 0) (m : Step) (k : World → Step)
    → After P m
    → ((v : World) → P v → After Q (k v))
    → After Q (m then k)
then-After P Q (v, some stop) k h hk e = absurd (some_stop e)
then-After P Q (v, none) k h hk e = hk v (h refl) e

pub fails_if :
    (Q : World → Type 0) (w : World) (b : Bool) (s : Stop) (y : Step)
    → After Q y
    → After Q (if b then (w, some s) else y)
fails_if Q w true s y h e = absurd (some_stop e)
fails_if Q w false s y h e = h e

pub fails_unless :
    (Q : World → Type 0) (w : World) (b : Bool) (y : Step) (s : Stop)
    → (b ≡ true → After Q y)
    → After Q (if b then y else (w, some s))
fails_unless Q w true y s h e = h refl e
fails_unless Q w false y s h e = absurd (some_stop e)

no_digest : {d : String} → ◌≡◌ {A = Option String} none (some d) → ⊥
no_digest e = cc

same_digest : (d d' : String) → some d ≡ some d' → d ≡ d'
same_digest d d' e = cc

zero_suc : {n : ℕ} → 0 ≡ suc n → ⊥
zero_suc e = omega (arith, e)

module _ (host : Host) where
  verify_digest_fits :
      (path bytes want : List ℕ) (tick : ℕ)
      → verify_digest host path bytes want tick ≡ true
      → (hex : List ℕ) × (cut_prefix want (codes "sha256:") ≡ some hex)
        × (equal_fold (host.sha256 bytes) hex ≡ true)
  unfolding verify_digest
  verify_digest_fits path bytes want tick h =
      elim (Option-cases (cut_prefix want (codes "sha256:"))) [
        | inl p ↦ let e : false ≡ true = rw (verify_digest, p) at h in cc
        | inr (hex, p) ↦ (hex, p, ground (arith, rw (verify_digest, p) at h))
      ]

  -- A step of `verify` that answers nil changes no file and has found the declared content.
  Found : ArtifactProgress → World → Option (List ℕ) → World → Type 0
  Found a w content v =
      (v.files ≡ w.files)
      × (v.op.artifacts ≡ w.op.artifacts)
      × ((bytes : List ℕ) × (content ≡ some bytes) × Fits host.sha256 (claim a) bytes)

  right_size-size :
      (want : Option ℕ) (bytes : List ℕ) (n : ℕ)
      → right_size want bytes ≡ true
      → want ≡ some n
      → length bytes ≡ n
  right_size-size none bytes n h e = cc
  right_size-size (some m) bytes n h e =
      let p : length bytes ≡ m = (==_iff (length bytes) m).0 h in cc

  digest_step-Found :
      (a : ArtifactProgress) (digest : Option String) (path bytes : List ℕ) (w : World)
      → a.digest ≡ digest
      → right_size a.bytes_total bytes ≡ true
      → After (Found a w (some bytes)) (digest_step host digest path bytes w)
  unfolding Found
  digest_step-Found a none path bytes w q h = λ e. (
    refl,
    refl,
    (
      bytes,
      refl,
      record {
        size = λ n p. right_size-size a.bytes_total bytes n h p;
        digest = λ d p. absurd (no_digest (sym q ∙ p));
      },
    ),
  )
  digest_step-Found a (some d) path bytes w q h =
      fails_unless (Found a w (some bytes)) w (verify_digest host path bytes (codes d) w.tick)
        (w, none) _
        (λ y _. (
          refl,
          refl,
          (
            bytes,
            refl,
            record {
              size = λ n p. right_size-size a.bytes_total bytes n h p;
              digest = λ d' p.
                  subst
                    (λ t.
                      (hex : List ℕ) × (cut_prefix (codes t) (codes "sha256:") ≡ some hex)
                      × (equal_fold (host.sha256 bytes) hex ≡ true))
                    (same_digest d d' (sym q ∙ p))
                    (verify_digest_fits path bytes (codes d) w.tick y);
            },
          ),
        ))

  content_step-Found :
      (a : ArtifactProgress) (path : List ℕ) (content : Option (List ℕ)) (w : World)
      → After (Found a w content) (content_step host a path content w)
  content_step-Found a path none w = λ e. absurd (some_stop e)
  content_step-Found a path (some bytes) w =
      fails_if (Found a w (some bytes)) w (not (host.succeeds stat_partial path w.tick)) _ _ (
        fails_unless (Found a w (some bytes)) w (right_size a.bytes_total bytes) _ _
          (digest_step-Found a a.digest path bytes w refl))

  -- `verify` that answers nil has found the declared content of every artifact.
  pub verify-Holds :
      (l : List ArtifactProgress) (rs : List Resolved) (w : World)
      → length l ≡ length rs
      → After
          (λ v.
            (v.files ≡ w.files)
            × (v.op.artifacts ≡ w.op.artifacts)
            × Holds host.sha256 staged v.files (map claim l) rs)
          (verify host l rs w)
  unfolding verify verify_one Found
  verify-Holds [] [] w n = λ e. (refl, refl, tt)
  verify-Holds [] (r ∷ rs) w n = absurd (zero_suc n)
  verify-Holds (a ∷ l) [] w n = absurd (zero_suc (sym n))
  verify-Holds (a ∷ l) (r ∷ rs) w n =
      then-After (Found a w (staged w.files r.dest))
        (λ v.
          (v.files ≡ w.files)
          × (v.op.artifacts ≡ w.op.artifacts)
          × Holds host.sha256 staged v.files (map claim (a ∷ l)) (r ∷ rs))
        (verify_one host a r w) (λ v. verify host l rs v) (content_step-Found a _ _ w)
        (λ v f e.
          let (p, q, h) = verify-Holds l rs v (omega (arith, n)) e in
          (p ∙ f.0, q ∙ f.1, (rw (p ∙ f.0) f.2, h)))
