-- ===== src/Shard/Complete.antt =====
-- `ShardSetComplete` of internal/operation/shard.go against its specification: one file for every
-- index.
use llama_skein.Base.{
  ℕ, suc, ◌+◌, ◌≤◌, ◌≡◌, ◌≢◌, refl, sym, ap, subst, ◌∙◌, ◌⊎◌, inl, inr, true, false, some, List, [],
  ◌∷◌, arith, length, In, Option-cases,
}
use llama_skein.Base.Maps.{contains, nat_eq, not-In_of_contains}
use llama_skein.Base.Pigeonhole.{Nodup, In-of_full}
use llama_skein.Shard.{
  ShardInfo, parse_shard_info, agrees, Verdict, incoherent, coherent, scan_group, count_verdict,
  shard_set_complete,
}

-- Each file of the group is the shard of one index, all of one declared total.
abbrev pub Indices : ℕ → List (List ℕ) → List ℕ → Type 0
Indices n [] [] = Unit
Indices n [] (i ∷ is) = ⊥
Indices n (f ∷ group) [] = ⊥
Indices n (f ∷ group) (i ∷ is) =
    (parse_shard_info f ≡ some (record { index = i; total = n })) × Indices n group is

parse_bounds :
    (f : List ℕ) (info : ShardInfo)
    → parse_shard_info f ≡ some info
    → (1 ≤ info.index) × (info.index ≤ info.total)
unfolding parse_shard_info
parse_bounds f info h = ground arith

-- Where a file of the loop is accepted: what it parses to, and what it passed.
scan_step :
    (seen : List ℕ) (total : ℕ) (f : List ℕ) (group : List (List ℕ)) (n : ℕ) (s : List ℕ)
    → scan_group seen total (f ∷ group) ≡ coherent n s
    → (info : ShardInfo) × (parse_shard_info f ≡ some info)
      × (agrees info total ≡ true)
      × (contains seen info.index ≡ false)
      × (scan_group (info.index ∷ seen) info.total group ≡ coherent n s)
unfolding scan_group
scan_step seen total f group n s h = elim (Option-cases (parse_shard_info f)) [
  | inl p ↦ absurd (ground arith)
  | inr (info, p) ↦ (info, p, ground arith, ground arith, ground arith)
]

total_kept :
    (seen : List ℕ) (total : ℕ) (group : List (List ℕ)) (n : ℕ) (s : List ℕ)
    → scan_group seen total group ≡ coherent n s
    → total ≢ 0
    → n ≡ total
unfolding scan_group agrees
total_kept seen total [] n s h t = ground arith
total_kept seen total (f ∷ group) n s h t =
    let (info, p, a, c, rest) = scan_step seen total f group n s h in
    ground (arith, parse_bounds f info p, total_kept (info.index ∷ seen) info.total group n s rest)

-- The loop succeeds exactly by collecting the indices of the files in front of those seen.
abbrev onto : List ℕ → List ℕ → List ℕ
onto [] seen = seen
onto (i ∷ is) seen = onto is (i ∷ seen)

scan_sound :
    (seen : List ℕ) (total : ℕ) (group : List (List ℕ)) (n : ℕ) (s : List ℕ)
    → scan_group seen total group ≡ coherent n s
    → Nodup seen
    → (is : List ℕ) × Indices n group is × (s ≡ onto is seen) × Nodup s
unfolding scan_group
scan_sound seen total [] n s h d =
    let e : seen ≡ s = ground arith in ([], tt, sym e, subst Nodup e d)
scan_sound seen total (f ∷ group) n s h d =
    let (info, p, a, c, rest) = scan_step seen total f group n s h in
    let (is, ix, e, d') =
      scan_sound (info.index ∷ seen) info.total group n s rest
        (not-In_of_contains seen info.index c, d) in
    let same =
      total_kept (info.index ∷ seen) info.total group n s rest
        (λ z. omega (arith, parse_bounds f info p)) in
    (
      info.index ∷ is,
      (
        subst (λ t. parse_shard_info f ≡ some (record { index = info.index; total = t })) (sym same)
            p,
        ix,
      ),
      e,
      d',
    )

length-onto : (is seen : List ℕ) → length (onto is seen) ≡ length is + length seen
length-onto [] seen = omega arith
length-onto (i ∷ is) seen = omega (arith, length-onto is (i ∷ seen))

In-onto : (x : ℕ) (is seen : List ℕ) → In x (onto is seen) → In x is ⊎ In x seen
In-onto x [] seen h = inr h
In-onto x (i ∷ is) seen h = elim (In-onto x is (i ∷ seen) h) [
  | inl a ↦ inl (inr a)
  | inr (inl e) ↦ inl (inl e)
  | inr (inr b) ↦ inr b
]

onto-In : (x : ℕ) (is seen : List ℕ) → In x seen → In x (onto is seen)
onto-In x [] seen h = h
onto-In x (i ∷ is) seen h = onto-In x is (i ∷ seen) (inr h)

onto-Nodup : (is seen : List ℕ) → Nodup (onto is seen) → Nodup seen
onto-Nodup [] seen d = d
onto-Nodup (i ∷ is) seen d = (onto-Nodup is (i ∷ seen) d).1

file_of :
    (n k : ℕ) (group : List (List ℕ)) (is : List ℕ)
    → Indices n group is
    → In k is
    → (f : List ℕ) × In f group × (parse_shard_info f ≡ some (record { index = k; total = n }))
file_of n k [] [] ix i = elim i [ ]
file_of n k [] (j ∷ is) ix i = elim ix [ ]
file_of n k (f ∷ group) [] ix i = elim i [ ]
file_of n k (f ∷ group) (j ∷ is) ix (inl e) = (f, inl refl, rw e ix.0)
file_of n k (f ∷ group) (j ∷ is) ix (inr i) =
    let (f', a, b) = file_of n k group is ix.1 i in (f', inr a, b)

-- The specification: the files are shards of distinct indices, all of the total n, and n in number.
pub record IsComplete (n : ℕ) (group : List (List ℕ)) : Type 0 where
  pub nonempty : group ≢ []
  pub indices : List ℕ
  pub shards : Indices n group indices
  pub distinct : Nodup indices
  pub full : length indices ≡ n

onto_disjoint : (x : ℕ) (is seen : List ℕ) → Nodup (onto is seen) → In x is → ¬ In x seen
onto_disjoint x [] seen d i = elim i [ ]
onto_disjoint x (j ∷ is) seen d (inl e) =
    λ s. (onto-Nodup is (j ∷ seen) d).0 (subst (λ y. In y seen) e s)
onto_disjoint x (j ∷ is) seen d (inr i) = λ s. onto_disjoint x is (j ∷ seen) d i (inr s)

Nodup-of_onto : (is seen : List ℕ) → Nodup (onto is seen) → Nodup is
Nodup-of_onto [] seen d = tt
Nodup-of_onto (i ∷ is) seen d =
    (λ h. onto_disjoint i is (i ∷ seen) d h (inl refl), Nodup-of_onto is (i ∷ seen) d)

IsComplete-of_coherent :
    (n : ℕ) (f : List ℕ) (group : List (List ℕ)) (s : List ℕ)
    → scan_group [] 0 (f ∷ group) ≡ coherent n s
    → length s ≡ n
    → IsComplete n (f ∷ group)
IsComplete-of_coherent n f group s e k =
    let (is, ix, at_end, d) = scan_sound [] 0 (f ∷ group) n s e tt in
    record {
      nonempty = λ z. cc;
      indices = is;
      shards = ix;
      distinct = Nodup-of_onto is [] (subst Nodup at_end d);
      full = omega (arith, length-onto is [], ap length at_end);
    }

-- What the loop ends with, by its count.
count_verdict-true :
    (v : Verdict) (n : ℕ)
    → count_verdict v ≡ (true, n)
    → (s : List ℕ) × (v ≡ coherent n s) × (length s ≡ n)
count_verdict-true incoherent n h = absurd (ground arith)
count_verdict-true (coherent t s) n h = (s, ground arith, ground arith)

IsComplete-of_true :
    (n : ℕ) (group : List (List ℕ)) → shard_set_complete group ≡ (true, n) → IsComplete n group
unfolding shard_set_complete
IsComplete-of_true n [] h = absurd (ground arith)
IsComplete-of_true n (f ∷ group) h =
    let (s, e, k) = count_verdict-true (scan_group [] 0 (f ∷ group)) n h in
    IsComplete-of_coherent n f group s e k

index_bounds :
    (n x : ℕ) (group : List (List ℕ)) (is : List ℕ)
    → Indices n group is
    → In x is
    → (1 ≤ x) × (x ≤ n)
index_bounds n x group is ix i =
    let (f, a, p) = file_of n x group is ix i in parse_bounds f (record { index = x; total = n }) p

length-Indices :
    (n : ℕ) (group : List (List ℕ)) (is : List ℕ) → Indices n group is → length group ≡ length is
length-Indices n [] [] ix = refl
length-Indices n [] (i ∷ is) ix = elim ix [ ]
length-Indices n (f ∷ group) [] ix = elim ix [ ]
length-Indices n (f ∷ group) (i ∷ is) ix = ap suc (length-Indices n group is ix.1)

-- So a group that `ShardSetComplete` accepts with the total n has n files, and for every index from
-- 1 to n a file of that index which declares the total n: no gap is possible.
pub shard_set_complete-covers :
    (n k : ℕ) (group : List (List ℕ))
    → shard_set_complete group ≡ (true, n)
    → 1 ≤ k
    → k ≤ n
    → (length group ≡ n)
      × ((f : List ℕ) × In f group × (parse_shard_info f ≡ some (record { index = k; total = n })))
shard_set_complete-covers n k group h a b =
    let c = IsComplete-of_true n group h in
    (
      length-Indices n group c.indices c.shards ∙ c.full,
      file_of n k group c.indices c.shards (
          In-of_full n k c.indices c.distinct (λ x i. index_bounds n x group c.indices c.shards i)
            c.full a b),
    )
