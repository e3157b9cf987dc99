-- ===== src/Operation/Executor/Cleanup.antt =====
-- internal/operation/cleanup.go: the removal of the partial files of cancelled operations. Whether
-- the removal of a file that exists succeeds is an argument.
use llama_skein.Base.{
  ℕ, ◌+◌, ◌≡◌, refl, sym, ap, subst, ◌∙◌, Bool, true, false, Option, none, some, List, [], ◌∷◌,
  ◌++◌, arith, Bool-cases, Option-cases, if◌then◌else◌, inl, inr,
}
use llama_skein.Base.Text.{codes, text_eq}
use llama_skein.Base.Maps.{lookup, delete, contains, ◌=?◌, eq_cases, lookup-delete}
use llama_skein.Operation.{Operation, ArtifactProgress, is_cancelled}
use llama_skein.Operation.Source.{resolve_artifact_destination}
use llama_skein.Operation.Store.{Store, list}
use llama_skein.Operation.Executor.Transfer.{part, Files}

-- The files, `removed`, and whether the error is nil.
pub record Cleaned : Type 0 where
  pub files : Files
  pub removed : ℕ
  pub fine : Bool

module _ (removable : List ℕ → Bool) (abs_models_dir : Option (List ℕ)) where
  -- `os.Remove(dest + ".part")` and its errors.
  unfoldable pub remove_file : List ℕ → Cleaned → Cleaned
  remove_file path c = elim (lookup path c.files) [
    | none ↦ c
    | some _ ↦
        if removable path
        then record c { files = delete path c.files; removed = c.removed + 1 }
        else record c { fine = false }
  ]

  -- The loop over the artifacts of one operation; an error ends it.
  unfoldable pub clean_artifacts : List ℕ → List ArtifactProgress → Cleaned → Cleaned
  unfolding remove_file
  clean_artifacts repository [] c = c
  clean_artifacts repository (a ∷ rest) c =
      elim (resolve_artifact_destination abs_models_dir repository (codes a.path)) [
        | none ↦ clean_artifacts repository rest c
        | some dest ↦ elim (remove_file (part dest) c).fine [
          | true ↦ clean_artifacts repository rest (remove_file (part dest) c)
          | false ↦ remove_file (part dest) c
        ]
      ]

  unfoldable pub clean_operations : List Operation → Cleaned → Cleaned
  unfolding clean_artifacts
  clean_operations [] c = c
  clean_operations (o ∷ os) c = elim (is_cancelled o.phase) [
    | false ↦ clean_operations os c
    | true ↦ elim (clean_artifacts (codes o.source_repository) o.artifacts c).fine [
      | true ↦ clean_operations os (clean_artifacts (codes o.source_repository) o.artifacts c)
      | false ↦ clean_artifacts (codes o.source_repository) o.artifacts c
    ]
  ]

  -- `CleanupAbandonedPartials`
  unfoldable pub cleanup_abandoned_partials : Store → Files → Cleaned
  unfolding clean_operations
  cleanup_abandoned_partials store files =
      clean_operations (list store) (record { files = files; removed = 0; fine = true })

  -- The partial files of the artifacts of an operation.
  unfoldable pub partials : List ℕ → List ArtifactProgress → List (List ℕ)
  partials repository [] = []
  partials repository (a ∷ rest) =
      elim (resolve_artifact_destination abs_models_dir repository (codes a.path)) [
        | none ↦ partials repository rest
        | some dest ↦ part dest ∷ partials repository rest
      ]

  unfoldable pub abandoned : List Operation → List (List ℕ)
  unfolding partials
  abandoned [] = []
  abandoned (o ∷ os) =
      if is_cancelled o.phase
      then partials (codes o.source_repository) o.artifacts ++ abandoned os
      else abandoned os

  remove_file-lookup :
      (path p : List ℕ) (c : Cleaned)
      → (remove_file path c).fine ≡ true
      → lookup p (remove_file path c).files ≡ (if path =? p then none else lookup p c.files)
  unfolding remove_file
  remove_file-lookup path p c h = elim (Option-cases (lookup path c.files)) [
    | inl q ↦ elim (eq_cases path p) [
      | inl (e, y) ↦ rw (remove_file, q, y) (subst (λ t. lookup t c.files ≡ none) e q)
      | inr (_, n) ↦ rw (remove_file, q, n)
    ]
    | inr (b, q) ↦ elim (Bool-cases (removable path)) [
      | inl y ↦ rw (remove_file, q, y) (lookup-delete path p c.files)
      | inr n ↦ let e : false ≡ true = rw (remove_file, q, n) at h in cc
    ]
  ]

  contains-append :
      (xs ys : List (List ℕ)) (p : List ℕ) (o : Option (List ℕ))
      → (if contains (xs ++ ys) p then none else o)
        ≡ (if contains ys p then none else (if contains xs p then none else o))
  unfolding contains
  contains-append [] ys p o = refl
  contains-append (x ∷ xs) ys p o = ground (arith, contains-append xs ys p o)

  contains-cons :
      (x : List ℕ) (xs : List (List ℕ)) (p : List ℕ) (o : Option (List ℕ))
      → (if contains (x ∷ xs) p then none else o)
        ≡ (if contains xs p then none else (if x =? p then none else o))
  unfolding contains
  contains-cons x xs p o = ground arith

  clean_artifacts-lookup :
      (repository : List ℕ) (l : List ArtifactProgress) (p : List ℕ) (c : Cleaned)
      → (clean_artifacts repository l c).fine ≡ true
      → lookup p (clean_artifacts repository l c).files
        ≡ (if contains (partials repository l) p then none else lookup p c.files)
  unfolding clean_artifacts partials contains
  clean_artifacts-lookup repository [] p c h = refl
  clean_artifacts-lookup repository (a ∷ l) p c h =
      elim (Option-cases (resolve_artifact_destination abs_models_dir repository (codes a.path))) [
        | inl q ↦
            rw (clean_artifacts, partials, q)
              (clean_artifacts-lookup repository l p c (rw (clean_artifacts, q) at h))
        | inr (dest, q) ↦ elim (Bool-cases (remove_file (part dest) c).fine) [
          | inl y ↦
              rw (clean_artifacts, partials, q, y)
                (clean_artifacts-lookup repository l p (remove_file (part dest) c)
                    (rw (clean_artifacts, q, y) at h)
                  ∙ ap (λ o. if contains (partials repository l) p then none else o)
                      (remove_file-lookup (part dest) p c y)
                  ∙ sym (contains-cons (part dest) (partials repository l) p (lookup p c.files)))
          | inr n ↦
              let e : (remove_file (part dest) c).fine ≡ true = rw (clean_artifacts, q, n) at h in
              cc
        ]
      ]

  clean_operations-lookup :
      (os : List Operation) (p : List ℕ) (c : Cleaned)
      → (clean_operations os c).fine ≡ true
      → lookup p (clean_operations os c).files
        ≡ (if contains (abandoned os) p then none else lookup p c.files)
  unfolding clean_operations abandoned contains
  clean_operations-lookup [] p c h = refl
  clean_operations-lookup (o ∷ os) p c h = elim (Bool-cases (is_cancelled o.phase)) [
    | inr n ↦
        rw (clean_operations, abandoned, n)
          (clean_operations-lookup os p c (rw (clean_operations, n) at h))
    | inl y ↦
        let r = codes o.source_repository in
        elim (Bool-cases (clean_artifacts r o.artifacts c).fine) [
          | inl f ↦
              rw (clean_operations, abandoned, y, f)
                (clean_operations-lookup os p (clean_artifacts r o.artifacts c)
                    (rw (clean_operations, y, f) at h)
                  ∙ ap (λ t. if contains (abandoned os) p then none else t)
                      (clean_artifacts-lookup r o.artifacts p c f)
                  ∙ sym (
                      contains-append (partials r o.artifacts) (abandoned os) p (lookup p c.files)))
          | inr f ↦
              let e : (clean_artifacts r o.artifacts c).fine ≡ true =
                rw (clean_operations, y, f) at h in
              cc
        ]
  ]

  -- Where `CleanupAbandonedPartials` answers no error, the partial files of the artifacts of every
  -- cancelled operation in the store are gone, and every other file is as it was.
  pub cleanup-lookup :
      (store : Store) (files : Files) (p : List ℕ)
      → (cleanup_abandoned_partials store files).fine ≡ true
      → lookup p (cleanup_abandoned_partials store files).files
        ≡ (if contains (abandoned (list store)) p then none else lookup p files)
  unfolding cleanup_abandoned_partials
  cleanup-lookup store files p =
      clean_operations-lookup (list store) p (record { files = files; removed = 0; fine = true })
