-- ===== src/Operation/Store/Pruning.antt =====
-- `Prune` of internal/operation/store.go: which records a pass may remove.
use llama_skein.Base.{
  ℕ, ◌+◌, ◌≡◌, ◌≢◌, refl, sym, ap, subst, ◌∙◌, ◌⊎◌, inl, inr, String, true, false, Option, none,
  some, List, [], ◌∷◌, arith, In, All, All-of_In, Bool-cases, ltb,
}
use llama_skein.Base.Maps.{
  lookup, delete, lookup-delete, Distinct, lookup_of_In, string_eq, =?_false,
}
use llama_skein.Operation.{Operation, terminal}
use llama_skein.Operation.Store.{
  Store, found, decoded, load, newer, place, list_files, list, prune_from, prune,
}

-- A directory holds one file of each name, and a record is stored under its own identifier.
abbrev pub Named : String × Option Operation → Type 0
Named (id, none) = Unit
Named (id, some o) = o.id ≡ id

pub record IsValid (s : Store) : Type 0 where
  pub named : All Named s.files
  pub distinct : Distinct s.files

In-place_under :
    (x o y : Operation) (l : List Operation)
    → (In x (place o l) → (x ≡ o) ⊎ In x l)
    → In x (y ∷ place o l)
    → (x ≡ o) ⊎ In x (y ∷ l)
In-place_under x o y l ih (inl e) = inr (inl e)
In-place_under x o y l ih (inr i) = elim (ih i) [ inl e ↦ inl e | inr j ↦ inr (inr j) ]

In-place : (x o : Operation) (l : List Operation) → In x (place o l) → (x ≡ o) ⊎ In x l
unfolding place
In-place x o [] (inl e) = inl e
In-place x o [] (inr i) = inr i
In-place x o (y ∷ l) i = elim (Bool-cases (newer y o)) [
  | inl b ↦ In-place_under x o y l (In-place x o l) (rw b at i)
  | inr b ↦ rw b at i
]

In-list_files :
    (o : Operation) (files : List (String × Option Operation))
    → In o (list_files files)
    → All Named files
    → In (o.id, some o) files
unfolding list_files
In-list_files o [] i n = elim i [ ]
In-list_files o ((id, none) ∷ rest) i n = inr (In-list_files o rest i n.1)
In-list_files o ((id, some x) ∷ rest) i n = elim (In-place o x (list_files rest) i) [
  | inl e ↦ inl (ap (λ (t : Operation). (t.id, some t)) e ∙ ap (λ (t : String). (t, some x)) n.0)
  | inr j ↦ inr (In-list_files o rest j n.1)
]

lookup-prune_from :
    (max kept : ℕ) (os : List Operation) (files : List (String × Option Operation)) (id : String)
    → All (λ (o : Operation). terminal o.phase ≡ true → o.id ≢ id) os
    → lookup id (prune_from max kept os files) ≡ lookup id files
unfolding prune_from
lookup-prune_from max kept [] files id h = refl
lookup-prune_from max kept (o ∷ os) files id h = elim (Bool-cases (terminal o.phase)) [
  | inr b ↦ rw b (lookup-prune_from max kept os files id h.1)
  | inl b ↦ rw b (elim (Bool-cases (ltb max (kept + 1))) [
    | inl c ↦ rw c (
        lookup-prune_from max (kept + 1) os (delete o.id files) id h.1
        ∙ lookup-delete o.id id files
        ∙ rw (=?_false o.id id (h.0 b)))
    | inr c ↦ rw c (lookup-prune_from max (kept + 1) os files id h.1)
  ])
]

-- In a store where each record is kept under its own id, each id once: a pass of `Prune` never removes
-- or changes an operation that is still under way, whatever the bound is and however many terminal
-- records there are.
pub load-prune_running :
    (s : Store) (id : String) (o : Operation)
    → IsValid s
    → load s id ≡ found o
    → terminal o.phase ≡ false
    → load (prune s) id ≡ found o
unfolding load prune list
load-prune_running s id o v h t =
    rw (lookup-prune_from s.max_terminal 0 (list_files s.files) s.files id (All-of_In _ _ other)) h
  where
    other : (x : Operation) → In x (list_files s.files) → terminal x.phase ≡ true → x.id ≢ id
    other x i b e =
        let stored =
          subst (λ k. lookup k s.files ≡ some (some x)) e
            (lookup_of_In x.id (some x) s.files (In-list_files x s.files i v.named) v.distinct) in
        ground (arith, sym (ap decoded stored) ∙ h)
