-- ===== src/Operation/Source/Paths.antt =====
-- internal/operation/source.go: where the composed destination of an artifact lies.
use mathlib.Core.List.{append_assoc}
use llama_skein.Base.{
  ℕ, ◌≡◌, ◌≢◌, refl, sym, ap, ◌∙◌, true, false, ◌||◌, Option, none, some, List, [], ◌∷◌, ◌++◌, ◌==◌,
  All, All-append, keep, arith, Bool-cases, Option-cases, inl, inr,
}
use llama_skein.Base.Text.{
  split, join, has_prefix, same_text, Free, split-join, join-split, split-Free, append_cancel,
  has_prefix-append, split-nonempty,
}
use llama_skein.Operation.Source.{
  slash, is_name, name_pair, repository_parts, safe_segment, safe_segments, safe_path_segments,
  clean_from, clean, reversed, join_path, nonempty, resolve_artifact_destination,
}

-- A name that a directory can hold: not empty, no `.` or `..`, and without a slash.
abbrev pub Segment : List ℕ → Type 0
Segment s = (safe_segment s ≡ true) × Free slash s

safe_segments-Segment :
    (l : List (List ℕ)) → safe_segments l ≡ true → All (Free slash) l → All Segment l
unfolding safe_segments
safe_segments-Segment [] h f = tt
safe_segments-Segment (s ∷ l) h f = elim (Bool-cases (safe_segment s)) [
  | inl y ↦ ((y, f.0), safe_segments-Segment l (rw y at h) f.1)
  | inr n ↦ let e : false ≡ true = rw n at h in cc
]

safe_segment_of_name : (s : List ℕ) → is_name s ≡ true → safe_segment s ≡ true
unfolding is_name safe_segment same_text
safe_segment_of_name [] h = cc
safe_segment_of_name (c ∷ []) h = ground arith
safe_segment_of_name (c ∷ d ∷ []) h = ground arith
safe_segment_of_name (c ∷ d ∷ e ∷ s) h = ground arith

nonempty-Segment : (s : List ℕ) → Segment s → nonempty s ≡ true
unfolding safe_segment same_text
nonempty-Segment [] h = cc
nonempty-Segment (c ∷ s) h = refl

keep-Segments : (l : List (List ℕ)) → All Segment l → keep nonempty l ≡ l
keep-Segments [] h = refl
keep-Segments (s ∷ l) h = rw (nonempty-Segment s h.0, keep-Segments l h.1)

clean_from-Segments :
    (stack l : List (List ℕ)) → All Segment l → clean_from stack l ≡ reversed stack l
unfolding clean_from safe_segment
clean_from-Segments stack [] h = refl
clean_from-Segments stack (s ∷ l) h = ground (arith, h.0.0, clean_from-Segments (s ∷ stack) l h.1)

frees : (l : List (List ℕ)) → All Segment l → All (Free slash) l
frees [] h = tt
frees (s ∷ l) h = (h.0.1, frees l h.1)

join-append :
    (x : List ℕ) (xs : List (List ℕ)) (y : List ℕ) (ys : List (List ℕ))
    → join slash (x ∷ xs ++ y ∷ ys) ≡ join slash (x ∷ xs) ++ slash ∷ join slash (y ∷ ys)
unfolding join
join-append x [] y ys = refl
join-append x (z ∷ xs) y ys = rw (
  join-append z xs y ys,
  append_assoc x (slash ∷ join slash (z ∷ xs)) (slash ∷ join slash (y ∷ ys)),
)

-- A rooted path of proper names is clean.
clean-Segments :
    (x : List ℕ) (xs : List (List ℕ))
    → All Segment (x ∷ xs)
    → clean (slash ∷ join slash (x ∷ xs)) ≡ slash ∷ join slash (x ∷ xs)
unfolding clean clean_from same_text join
clean-Segments x xs h =
    let e : split slash (slash ∷ join slash (x ∷ xs)) ≡ [] ∷ x ∷ xs =
      split-join slash [] (x ∷ xs) (λ i. elim i [ ]) (frees (x ∷ xs) h) in
    rw (e, clean_from-Segments [] (x ∷ xs) h)

repository_split :
    (repository : List ℕ) (l : List (List ℕ))
    → join slash l ≡ repository
    → All (Free slash) l
    → (org repo : List ℕ) → name_pair l ≡ some (org, repo)
    → (repository ≡ org ++ slash ∷ repo) × Segment org × Segment repo
unfolding join
repository_split repository [] e f org repo h = cc
repository_split repository (a ∷ []) e f org repo h = cc
repository_split repository (a ∷ b ∷ c ∷ l) e f org repo h = cc
repository_split repository (a ∷ b ∷ []) e f org repo h = elim (Bool-cases (is_name a)) [
  | inr n ↦ let e : ◌≡◌ {A = Option (List ℕ × List ℕ)} none (some (org, repo)) = rw n at h in cc
  | inl y ↦ elim (Bool-cases (is_name b)) [
    | inr n ↦
        let e : ◌≡◌ {A = Option (List ℕ × List ℕ)} none (some (org, repo)) = rw (y, n) at h in cc
    | inl z ↦
        let p : ◌≡◌ {A = Option (List ℕ × List ℕ)} (some (a, b)) (some (org, repo)) =
          rw (y, z) at h in
        let p₀ : a ≡ org = cc in
        let p₁ : b ≡ repo = cc in
        rw (← p₀, ← p₁) (sym e, (safe_segment_of_name a y, f.0), (safe_segment_of_name b z, f.1.0))
  ]
]

-- What the two checks find in texts that they accept.
repository_parts_eq :
    (repository org repo : List ℕ)
    → repository_parts repository ≡ some (org, repo)
    → (repository ≡ org ++ slash ∷ repo) × Segment org × Segment repo
unfolding repository_parts
repository_parts_eq repository org repo h =
    repository_split repository (split slash repository) (join-split slash repository)
      (split-Free slash repository) org repo h

safe_path_segments_eq :
    (path : List ℕ) (l : List (List ℕ))
    → safe_path_segments path ≡ some l
    → (join slash l ≡ path) × All Segment l × (l ≢ [])
unfolding safe_path_segments
safe_path_segments_eq [] l h = cc
safe_path_segments_eq (c ∷ p) l h = elim (Bool-cases (c == slash)) [
  | inl y ↦ let e : ◌≡◌ {A = Option (List (List ℕ))} none (some l) = rw y at h in cc
  | inr n ↦ elim (Bool-cases (safe_segments (split slash (c ∷ p)))) [
    | inl y ↦
        let e : some (split slash (c ∷ p)) ≡ some l = rw (n, y) at h in
        let e' : split slash (c ∷ p) ≡ l = cc in
        rw (← e') (
          join-split slash (c ∷ p),
          safe_segments-Segment (split slash (c ∷ p)) y (split-Free slash (c ∷ p)),
          split-nonempty slash (c ∷ p),
        )
    | inr m ↦ let e : ◌≡◌ {A = Option (List (List ℕ))} none (some l) = rw (n, m) at h in cc
  ]
]

-- The plain join, without cleaning and without the containment check.
abbrev pub plain_destination : List ℕ → List ℕ → List ℕ → Option (List ℕ)
plain_destination dir repository path = elim (repository_parts repository) [
  | none ↦ none
  | some _ ↦ elim (safe_path_segments path) [
    | none ↦ none
    | some _ ↦ some (dir ++ slash ∷ (repository ++ slash ∷ path))
  ]
]

plain_destination_eq :
    (dir repository path dest : List ℕ)
    → plain_destination dir repository path ≡ some dest
    → dest ≡ dir ++ slash ∷ (repository ++ slash ∷ path)
plain_destination_eq dir repository path dest h = ground arith

join_path-Segments :
    (x : List ℕ) (xs : List (List ℕ)) (y : List ℕ) (ys : List (List ℕ))
    → All Segment (x ∷ xs)
    → All Segment (y ∷ ys)
    → join_path ((slash ∷ join slash (x ∷ xs)) ∷ y ∷ ys)
      ≡ (slash ∷ join slash (x ∷ xs)) ++ slash ∷ join slash (y ∷ ys)
unfolding join_path join
join_path-Segments x xs y ys hx hy =
    rw (keep-Segments (y ∷ ys) hy, ← join-append x xs y ys)
      (clean-Segments x (xs ++ y ∷ ys) (All-append Segment (x ∷ xs) (y ∷ ys) hx hy))

joined_names :
    (org repo path : List ℕ) (segments : List (List ℕ))
    → join slash segments ≡ path
    → segments ≢ []
    → join slash (org ∷ repo ∷ segments) ≡ (org ++ slash ∷ repo) ++ slash ∷ path
unfolding join
joined_names org repo path [] e n = absurd (n refl)
joined_names org repo path (s ∷ segments) e n =
    rw (e, append_assoc org (slash ∷ repo) (slash ∷ path))

destination_inside :
    (dir tail : List ℕ)
    → (same_text (dir ++ slash ∷ tail) dir || has_prefix (dir ++ slash ∷ tail) (dir ++ slash ∷ []))
      ≡ true
destination_inside dir tail =
    let e : has_prefix (dir ++ slash ∷ tail) (dir ++ slash ∷ []) ≡ true =
      rw (← append_assoc dir (slash ∷ []) tail) (has_prefix-append (dir ++ slash ∷ []) tail) in
    elim (Bool-cases (same_text (dir ++ slash ∷ tail) dir)) [ inl y ↦ rw y | inr n ↦ rw (n, e) ]

-- For a models directory that is a clean absolute path below the root, the checks of
-- `ResolveArtifactDestination` after the two on names never refuse and never move the path: the
-- answer is the directory, the repository and the artifact's path joined by slashes, for exactly
-- the repositories of the form org/repo and the paths of proper names.
pub resolve_artifact_destination-plain :
    (x : List ℕ) (xs : List (List ℕ)) (repository path : List ℕ)
    → All Segment (x ∷ xs)
    → resolve_artifact_destination (some (slash ∷ join slash (x ∷ xs))) repository path
      ≡ plain_destination (slash ∷ join slash (x ∷ xs)) repository path
unfolding resolve_artifact_destination
resolve_artifact_destination-plain x xs repository path h =
    elim (Option-cases (repository_parts repository)) [
      | inl n ↦ rw (resolve_artifact_destination, plain_destination, n)
      | inr ((org, repo), p) ↦ elim (Option-cases (safe_path_segments path)) [
        | inl n ↦ rw (resolve_artifact_destination, plain_destination, p, n)
        | inr (segments, q) ↦
            let (r, so, sr) = repository_parts_eq repository org repo p in
            let (j, sp, n) = safe_path_segments_eq path segments q in
            let d : join_path ((slash ∷ join slash (x ∷ xs)) ∷ org ∷ repo ∷ segments)
                ≡ (slash ∷ join slash (x ∷ xs)) ++ slash ∷ (repository ++ slash ∷ path) =
              join_path-Segments x xs org (repo ∷ segments) h (so, (sr, sp))
              ∙ ap (λ t. (slash ∷ join slash (x ∷ xs)) ++ slash ∷ t)
                  (joined_names org repo path segments j n ∙ ap (λ t. t ++ slash ∷ path) (sym r)) in
            rw (
              resolve_artifact_destination,
              plain_destination,
              p,
              q,
              d,
              destination_inside (slash ∷ join slash (x ∷ xs)) (repository ++ slash ∷ path),
            )
      ]
    ]

-- In one models directory and one repository, different artifact paths get different destinations.
pub destination_injective :
    (x : List ℕ) (xs : List (List ℕ)) (repository path path' dest : List ℕ)
    → All Segment (x ∷ xs)
    → resolve_artifact_destination (some (slash ∷ join slash (x ∷ xs))) repository path ≡ some dest
    → resolve_artifact_destination (some (slash ∷ join slash (x ∷ xs))) repository path' ≡ some dest
    → path ≡ path'
destination_injective x xs repository path path' dest h e e' =
    let dir = slash ∷ join slash (x ∷ xs) in
    let p =
      plain_destination_eq dir repository path dest
        (sym (resolve_artifact_destination-plain x xs repository path h) ∙ e) in
    let p' =
      plain_destination_eq dir repository path' dest
        (sym (resolve_artifact_destination-plain x xs repository path' h) ∙ e') in
    let q =
      append_cancel dir (slash ∷ (repository ++ slash ∷ path))
        (slash ∷ (repository ++ slash ∷ path')) (sym p ∙ p') in
    let r = append_cancel (slash ∷ repository) (slash ∷ path) (slash ∷ path') q in
    append_cancel (slash ∷ []) path path' r
