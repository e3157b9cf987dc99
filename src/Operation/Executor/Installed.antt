-- ===== src/Operation/Executor/Installed.antt =====
-- internal/operation/executor.go: what `install` leaves at the destinations.
use llama_skein.Base.{
  ℕ, ◌≡◌, ◌≢◌, refl, sym, ◌∙◌, inl, inr, Option, none, some, List, [], ◌∷◌, Option-cases, All,
}
use llama_skein.Base.Text.{text_eq}
use llama_skein.Base.Maps.{lookup, insert, delete, =?_self, =?_false, lookup-insert, lookup-delete}
use llama_skein.Operation.Executor.{Host, World, rename}
use llama_skein.Operation.Executor.Transfer.{Resolved, part, Files}
use llama_skein.Operation.Executor.Content.{checked_path, install_one, install}
use llama_skein.Operation.Executor.Steps.{some_stop}
use llama_skein.Operation.Executor.Verified.{
  Claim, Holds, staged, installed, After, then-After, fails_unless,
}

-- A path that is neither a destination nor a partial file of the list.
abbrev pub Clear : List ℕ → List Resolved → Type 0
Clear p = All (λ r. (p ≢ r.dest) × (p ≢ part r.dest))

-- No destination is another's, nor another's partial file, and no two partial files are the same.
abbrev pub Apart : List Resolved → Type 0
Apart [] = Unit
Apart (r ∷ rs) = Clear r.dest rs × Clear (part r.dest) rs × Apart rs

-- A step that moves what `verify` has read to the destination, and nothing else.
record Moved (r : Resolved) (w v : World) : Type 0 where
  op_eq : v.op ≡ w.op
  here : installed v.files r.dest ≡ staged w.files r.dest
  elsewhere : (p : List ℕ) → p ≢ r.dest → p ≢ part r.dest → lookup p v.files ≡ lookup p w.files

-- The partial file where there is one, else the destination.
abbrev first_found : Option (List ℕ) → Option (List ℕ) → Option (List ℕ)
first_found none o = o
first_found (some bytes) o = some bytes

staged_eq :
    (files : Files) (dest : List ℕ)
    → staged files dest ≡ first_found (lookup (part dest) files) (lookup dest files)
unfolding checked_path
staged_eq files dest = elim (Option-cases (lookup (part dest) files)) [
  | inr (bytes, p) ↦ simp (checked_path, p)
  | inl p ↦ elim (Option-cases (lookup dest files)) [
    | inr (bytes, q) ↦ simp (checked_path, p, q)
    | inl q ↦ simp (checked_path, p, q)
  ]
]

Moved-files :
    (r : Resolved) (w : World) (bytes : List ℕ)
    → lookup (part r.dest) w.files ≡ some bytes
    → Moved r w (record w { files = insert r.dest bytes (delete (part r.dest) w.files) })
unfolding checked_path
Moved-files r w bytes h = record {
  op_eq = refl;
  here = simp (lookup-insert, =?_self, checked_path, h);
  elsewhere = λ p n m. simp (
    lookup-insert,
    lookup-delete,
    =?_false r.dest p (λ e. n (sym e)),
    =?_false (part r.dest) p (λ e. m (sym e)),
  );
}

module _ (host : Host) where
  install_one-Moved : (r : Resolved) (w : World) → After (Moved r w) (install_one host r w)
  unfolding install_one checked_path
  install_one-Moved r w = elim (Option-cases (lookup (part r.dest) w.files)) [
    | inr (bytes, p) ↦
        rw (install_one, p)
          (fails_unless (Moved r w) w (host.succeeds rename r.dest w.tick) _ _
            (λ _ _. Moved-files r w bytes p))
    | inl p ↦ elim (Option-cases (lookup r.dest w.files)) [
      | inr (bytes, q) ↦
          rw (install_one, p, q)
            (λ _. record {
              op_eq = refl;
              here = simp (checked_path, p, q);
              elsewhere = λ _ _ _. refl;
            })
      | inl q ↦ rw (install_one, p, q) (λ e. absurd (some_stop e))
    ]
  ]

  -- `install` leaves every path alone that is neither a destination nor a partial file.
  install-elsewhere :
      (rs : List Resolved) (w : World) (p : List ℕ)
      → Clear p rs
      → After (λ v. (v.op ≡ w.op) × (lookup p v.files ≡ lookup p w.files)) (install host rs w)
  unfolding install
  install-elsewhere [] w p c = λ _. (refl, refl)
  install-elsewhere (r ∷ rs) w p c =
      then-After (Moved r w) (λ v. (v.op ≡ w.op) × (lookup p v.files ≡ lookup p w.files))
        (install_one host r w) (install host rs) (install_one-Moved r w)
        (λ v m e.
          let (i, f) = install-elsewhere rs v p c.1 e in
          (i ∙ m.op_eq, f ∙ m.elsewhere p c.0.0 c.0.1))

  staged-Moved :
      (r s : Resolved) (w v : World)
      → Moved r w v
      → s.dest ≢ r.dest
      → s.dest ≢ part r.dest
      → part s.dest ≢ r.dest
      → part s.dest ≢ part r.dest
      → staged v.files s.dest ≡ staged w.files s.dest
  unfolding checked_path
  staged-Moved r s w v m h₀ h₁ h₂ h₃ =
      let p = m.elsewhere (part s.dest) h₂ h₃ in
      let q = m.elsewhere s.dest h₀ h₁ in
      staged_eq v.files s.dest ∙ rw (p, q) (sym (staged_eq w.files s.dest))

  -- The content that was staged for a list is still staged when another artifact is moved.
  Holds-Moved :
      (sha256 : List ℕ → List ℕ) (r : Resolved) (cs : List Claim) (rs : List Resolved) (w v : World)
      → Moved r w v
      → Clear r.dest rs
      → Clear (part r.dest) rs
      → Holds sha256 staged w.files cs rs
      → Holds sha256 staged v.files cs rs
  Holds-Moved sha256 r [] [] w v m c d h = tt
  Holds-Moved sha256 r [] (s ∷ rs) w v m c d h = h
  Holds-Moved sha256 r (k ∷ cs) [] w v m c d h = h
  Holds-Moved sha256 r (k ∷ cs) (s ∷ rs) w v m c d h = (
    rw
        (staged-Moved r s w v m (λ e. c.0.0 (sym e)) (λ e. d.0.0 (sym e)) (λ e. c.0.1 (sym e))
          (λ e. d.0.1 (sym e)))
        h.0,
    Holds-Moved sha256 r cs rs w v m c.1 d.1 h.1,
  )

  -- What was staged for every artifact is at its destination after an `install` that answers nil.
  pub install-Holds :
      (sha256 : List ℕ → List ℕ) (cs : List Claim) (rs : List Resolved) (w : World)
      → Apart rs
      → Holds sha256 staged w.files cs rs
      → After (λ v. (v.op ≡ w.op) × Holds sha256 installed v.files cs rs) (install host rs w)
  unfolding install
  install-Holds sha256 [] [] w a h = λ _. (refl, tt)
  install-Holds sha256 [] (r ∷ rs) w a h = absurd h
  install-Holds sha256 (c ∷ cs) [] w a h = absurd h
  install-Holds sha256 (c ∷ cs) (r ∷ rs) w a h =
      then-After (Moved r w) (λ v. (v.op ≡ w.op) × Holds sha256 installed v.files (c ∷ cs) (r ∷ rs))
        (install_one host r w) (install host rs) (install_one-Moved r w)
        (λ v m e.
          let (i, f) = install-elsewhere rs v r.dest a.0 e in
          let (_, g) =
            install-Holds sha256 cs rs v a.2 (Holds-Moved sha256 r cs rs w v m a.0 a.1 h.1) e in
          (i ∙ m.op_eq, (rw (f ∙ m.here) h.0, g)))
