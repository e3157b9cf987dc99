-- ===== src/Operation/Source.antt =====
-- internal/operation/source.go: the address and the destination of an artifact. Texts are lists of
-- bytes; an address is the path of the URL on the one allowed host, before its percent-encoding.
-- What `filepath.Abs` answers for the models directory is an argument.
pub mod Paths
use llama_skein.Base.{
  ℕ, ◌≤◌, Bool, true, false, not, ◌||◌, ◌&&◌, Option, none, some, List, [], ◌∷◌, ◌++◌, ◌==◌, leb,
  if◌then◌else◌, length, keep,
}
use llama_skein.Base.Text.{codes, split, join, has_prefix, same_text}

abbrev pub slash : ℕ
slash = b'/'

abbrev pub is_alphanumeric : ℕ → Bool
is_alphanumeric c =
    (leb b'A' c && leb c b'Z') || (leb b'a' c && leb c b'z') || (leb b'0' c && leb c b'9')

abbrev pub is_name_byte : ℕ → Bool
is_name_byte c = is_alphanumeric c || c == b'.' || c == b'_' || c == b'-'

abbrev is_hex : ℕ → Bool
is_hex c = (leb b'0' c && leb c b'9') || (leb b'a' c && leb c b'f') || (leb b'A' c && leb c b'F')

abbrev pub all : (ℕ → Bool) → List ℕ → Bool
all f [] = true
all f (c ∷ s) = f c && all f s

-- One side of `repositoryRe`: `[A-Za-z0-9][A-Za-z0-9._-]*`.
unfoldable pub is_name : List ℕ → Bool
is_name [] = false
is_name (c ∷ s) = is_alphanumeric c && all is_name_byte s

abbrev pub name_pair : List (List ℕ) → Option (List ℕ × List ℕ)
name_pair (org ∷ repo ∷ []) = if is_name org && is_name repo then some (org, repo) else none
name_pair _ = none

-- `strings.SplitN(repository, "/", 2)` where `repositoryRe` matches: the two sides of the slash.
unfoldable pub repository_parts : List ℕ → Option (List ℕ × List ℕ)
repository_parts repository = name_pair (split slash repository)

-- `revisionRe`: `^[0-9a-fA-F]{7,40}$`
unfoldable pub is_revision : List ℕ → Bool
is_revision s = leb 7 (length s) && leb (length s) 40 && all is_hex s

-- The switch in the loop of `safePathSegments`, over every segment.
unfoldable pub safe_segment : List ℕ → Bool
safe_segment s =
    not (same_text s []) && not (same_text s (codes ".")) && not (same_text s (codes ".."))

unfoldable pub safe_segments : List (List ℕ) → Bool
unfolding safe_segment
safe_segments [] = true
safe_segments (s ∷ rest) = safe_segment s && safe_segments rest

-- `safePathSegments`
unfoldable pub safe_path_segments : List ℕ → Option (List (List ℕ))
unfolding safe_segments
safe_path_segments [] = none
safe_path_segments (c ∷ p) =
    if c == slash
    then none
    else (let segments = split slash (c ∷ p) in
        if safe_segments segments then some segments else none)

-- `ResolveArtifactURL`: the path that it gives to the URL.
unfoldable pub resolve_artifact_url : List ℕ → List ℕ → List ℕ → Option (List ℕ)
unfolding repository_parts is_revision safe_path_segments
resolve_artifact_url repository revision path = elim (repository_parts repository) [
  | none ↦ none
  | some (org, repo) ↦
      if is_revision revision
      then (elim (safe_path_segments path) [
        | none ↦ none
        | some segments ↦
            some (join slash ([] ∷ org ∷ repo ∷ codes "resolve" ∷ revision ∷ segments))
      ])
      else none
]

abbrev pub reversed : List (List ℕ) → List (List ℕ) → List (List ℕ)
reversed [] acc = acc
reversed (s ∷ rest) acc = reversed rest (s ∷ acc)

abbrev tail : List (List ℕ) → List (List ℕ)
tail [] = []
tail (s ∷ rest) = rest

-- The elements of a rooted path after `filepath.Clean`: the stack holds those before, last first.
unfoldable pub clean_from : List (List ℕ) → List (List ℕ) → List (List ℕ)
clean_from stack [] = reversed stack []
clean_from stack (s ∷ rest) =
    if same_text s [] || same_text s (codes ".")
    then clean_from stack rest
    else (if same_text s (codes "..")
        then clean_from (tail stack) rest
        else clean_from (s ∷ stack) rest)

-- `filepath.Clean` of a rooted path.
unfoldable pub clean : List ℕ → List ℕ
unfolding clean_from
clean p = slash ∷ join slash (clean_from [] (split slash p))

abbrev nonempty : List ℕ → Bool
nonempty [] = false
nonempty (_ ∷ _) = true

-- `filepath.Join`, for elements of which the first is rooted.
unfoldable pub join_path : List (List ℕ) → List ℕ
unfolding clean
join_path elements = clean (join slash (keep nonempty elements))

-- `ResolveArtifactDestination`
unfoldable pub resolve_artifact_destination : Option (List ℕ) → List ℕ → List ℕ → Option (List ℕ)
unfolding repository_parts safe_path_segments join_path
resolve_artifact_destination abs_models_dir repository path = elim (repository_parts repository) [
  | none ↦ none
  | some (org, repo) ↦ elim (safe_path_segments path) [
    | none ↦ none
    | some segments ↦ elim abs_models_dir [
      | none ↦ none
      | some dir ↦
          let dest = join_path (dir ∷ org ∷ repo ∷ segments) in
          if same_text dest dir || has_prefix dest (dir ++ slash ∷ []) then some dest else none
    ]
  ]
]
