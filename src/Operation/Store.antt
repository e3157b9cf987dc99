-- ===== src/Operation/Store.antt =====
-- internal/operation/store.go: operation records in a directory, one JSON file each. A file holds
-- a record that decodes, or does not (`none`). Whether a write reaches the disk is an argument.
pub mod Saves
pub mod Pruning
use text.Mathlib.Text.{is_lt}
use Prim.Native.String.{compare as compare_text}
use llama_skein.Base.{
  ℕ, zero, suc, ◌+◌, ◌≡◌, String, Bool, true, false, not, ◌&&◌, Option, none, some, List, [], ◌∷◌,
  ◌==◌, ltb, leb, if◌then◌else◌,
}
use llama_skein.Base.Maps.{lookup, insert, delete, string_eq}
use llama_skein.Operation.{Phase, Phase-discrete, terminal, Operation}

-- `dir` with its files by the identifier that names them, and `maxTerminal`.
pub record Store : Type 0 where
  pub files : List (String × Option Operation)
  pub max_terminal : ℕ

pub data Loaded : Type 0 where
  found : Operation → Loaded
  not_found : Loaded
  unreadable : Loaded

abbrev pub decoded : Option (Option Operation) → Loaded
decoded none = not_found
decoded (some none) = unreadable
decoded (some (some o)) = found o

-- `Load`
unfoldable pub load : Store → String → Loaded
load s id = decoded (lookup id s.files)

pub data SaveError : Type 0 where
  already_terminal : SaveError
  write_failed : SaveError

abbrev pub same_phase : Phase → Phase → Bool
same_phase p q = elim (Phase-discrete p q) [ yes _ ↦ true | no _ ↦ false ]

-- The guard of `Save`: `existing.Phase.Terminal() && existing.Phase != op.Phase`.
abbrev pub finalized : Loaded → Operation → Bool
finalized (found existing) o = terminal existing.phase && not (same_phase existing.phase o.phase)
finalized not_found o = false
finalized unreadable o = false

-- `Save`: the store after it, and the error. `writable` says whether `atomicWriteFile` succeeds.
unfoldable pub save : Bool → Operation → Store → Store × Option SaveError
save writable o s =
    if finalized (load s o.id) o
    then (s, some already_terminal)
    else (if writable
        then (record s { files = insert o.id (some o) s.files }, none)
        else (s, some write_failed))

-- The order of `List`: newest first, the larger identifier first among equal times.
unfoldable pub newer : Operation → Operation → Bool
newer a b =
    if a.created_at == b.created_at
    then is_lt (compare_text b.id a.id)
    else ltb b.created_at a.created_at

unfoldable pub place : Operation → List Operation → List Operation
place o [] = o ∷ []
place o (x ∷ xs) = if newer x o then x ∷ place o xs else o ∷ x ∷ xs

-- The loop of `List` over the directory, and its sort.
unfoldable pub list_files : List (String × Option Operation) → List Operation
unfolding place
list_files [] = []
list_files ((id, none) ∷ rest) = list_files rest
list_files ((id, some o) ∷ rest) = place o (list_files rest)

-- `List`
unfoldable pub list : Store → List Operation
unfolding list_files
list s = list_files s.files

-- The loop of `Prune` over the listed operations, with its counter.
unfoldable pub prune_from :
    ℕ → ℕ → List Operation → List (String × Option Operation) → List (String × Option Operation)
prune_from max kept [] files = files
prune_from max kept (o ∷ os) files =
    prune_from max (if terminal o.phase then kept + 1 else kept) os
      (if terminal o.phase && ltb max (kept + 1) then delete o.id files else files)

-- `Prune`
unfoldable pub prune : Store → Store
unfolding prune_from list
prune s = record s { files = prune_from s.max_terminal 0 (list s) s.files }
