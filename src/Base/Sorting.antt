-- ===== src/Base/Sorting.antt =====
-- `sort.Strings`, by insertion.
use llama_skein.Base.{
  inl, inr, String, Bool, true, false, List, [], ◌∷◌, if◌then◌else◌, In, Bool-cases,
}
use Prim.Native.Nat.{Ordering}
use Prim.Native.String.{compare}

abbrev pub string_leb : String → String → Bool
string_leb s t = elim (compare s t) [ Ordering.gt ↦ false | _ ↦ true ]

unfoldable pub insert_sorted : String → List String → List String
insert_sorted s [] = s ∷ []
insert_sorted s (t ∷ ts) = if string_leb s t then s ∷ t ∷ ts else t ∷ insert_sorted s ts

unfoldable pub sort : List String → List String
sort [] = []
sort (s ∷ ss) = insert_sorted s (sort ss)

In-insert_sorted : (a s : String) (ts : List String) → In a (s ∷ ts) → In a (insert_sorted s ts)
unfolding insert_sorted
In-insert_sorted a s [] h = h
In-insert_sorted a s (t ∷ ts) h = elim (Bool-cases (string_leb s t)) [
  | inl p ↦ rw p h
  | inr p ↦ elim h [
    | inl e ↦ rw p (inr (In-insert_sorted a s ts (inl e)))
    | inr (inl e) ↦ rw p (inl e)
    | inr (inr i) ↦ rw p (inr (In-insert_sorted a s ts (inr i)))
  ]
]

insert_sorted-In : (a s : String) (ts : List String) → In a (insert_sorted s ts) → In a (s ∷ ts)
unfolding insert_sorted
insert_sorted-In a s [] h = h
insert_sorted-In a s (t ∷ ts) h = elim (Bool-cases (string_leb s t)) [
  | inl p ↦ rw p at h
  | inr p ↦ elim (rw p at h) [
    | inl e ↦ inr (inl e)
    | inr i ↦ elim (insert_sorted-In a s ts i) [ inl e ↦ inl e | inr j ↦ inr (inr j) ]
  ]
]

pub In-sort : (a : String) (ss : List String) → In a ss → In a (sort ss)
unfolding sort
In-sort a [] h = h
In-sort a (s ∷ ss) (inl e) = In-insert_sorted a s (sort ss) (inl e)
In-sort a (s ∷ ss) (inr h) = In-insert_sorted a s (sort ss) (inr (In-sort a ss h))

pub sort-In : (a : String) (ss : List String) → In a (sort ss) → In a ss
unfolding sort
sort-In a [] h = h
sort-In a (s ∷ ss) h = elim (insert_sorted-In a s (sort ss) h) [
  | inl e ↦ inl e
  | inr i ↦ inr (sort-In a ss i)
]
