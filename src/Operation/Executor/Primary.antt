-- ===== src/Operation/Executor/Primary.antt =====
-- internal/operation/executor.go: which file `primaryWeightsPath` hands to the registrar.
use llama_skein.Base.{
  ℕ, ◌≡◌, ◌≤◌, refl, sym, ap, ◌∙◌, ◌⊎◌, inl, inr, true, false, Option, none, some, List, [], ◌∷◌,
  arith, Bool-cases, Option-cases, ltb, ltb→lt, ltb-false, In, In-tail, All, subst, suc,
}
use llama_skein.Base.Text.{codes}
use llama_skein.Shard.{ShardInfo, parse_shard_info}
use llama_skein.Operation.{ArtifactProgress}
use llama_skein.Operation.Executor.Transfer.{Resolved}
use llama_skein.Operation.Executor.Content.{
  is_weights, first_of, primary_from, primary_weights_path,
}

-- Each artifact with what it resolved to.
abbrev pub paired : List ArtifactProgress → List Resolved → List (ArtifactProgress × Resolved)
paired (a ∷ l) (r ∷ rs) = (a, r) ∷ paired l rs
paired _ _ = []

-- A shard of the weights, by the index in its file name.
abbrev pub Shard : ℕ → ArtifactProgress × Resolved → Type 0
Shard i p =
    (is_weights p.0.role ≡ true)
    × ((info : ShardInfo) × (parse_shard_info (codes p.0.path) ≡ some info) × (info.index ≡ i))

abbrev pub NotBelow : ℕ → ArtifactProgress × Resolved → Type 0
NotBelow i p = (j : ℕ) → Shard j p → i ≤ j

-- The lowest shard so far, of index `i`, and what the rest of the loop makes of it.
Lowest : ℕ → List ℕ → List (ArtifactProgress × Resolved) → List ℕ → Type 0
Lowest i d l result =
    (k : ℕ) × (k ≤ i)
    × All (NotBelow k) l
    × (((k ≡ i) × (result ≡ d))
        ⊎ ((p : ArtifactProgress × Resolved) × In p l × Shard k p × (result ≡ p.1.dest)))

info_inj : (x y : ShardInfo) → some x ≡ some y → x ≡ y
info_inj x y e = cc

Shard-index :
    (a : ArtifactProgress) (r : Resolved) (info : ShardInfo) (j : ℕ)
    → parse_shard_info (codes a.path) ≡ some info
    → Shard j (a, r)
    → info.index ≡ j
Shard-index a r info j h (w, (info', p, e)) =
    let q : some info ≡ some info' = sym h ∙ p in
    ap (λ (x : ShardInfo). x.index) (info_inj info info' q) ∙ e

skip_Lowest :
    (i : ℕ) (d result : List ℕ) (a : ArtifactProgress) (r : Resolved)
    (l : List (ArtifactProgress × Resolved))
    → NotBelow i (a, r)
    → Lowest i d l result
    → Lowest i d ((a, r) ∷ l) result
unfolding Lowest
skip_Lowest i d result a r l n (k, le, all, inl e) =
    (k, le, ((λ j s. omega (arith, le, n j s)), all), inl e)
skip_Lowest i d result a r l n (k, le, all, inr (p, m, s, e)) =
    (k, le, ((λ j s'. omega (arith, le, n j s')), all), inr (p, inr m, s, e))

Lowest-nil : (i : ℕ) (d : List ℕ) → Lowest i d [] d
unfolding Lowest
Lowest-nil i d = (i, omega arith, tt, inl (refl, refl))

not_weights :
    (a : ArtifactProgress) (r : Resolved) (i : ℕ) → is_weights a.role ≡ false → NotBelow i (a, r)
not_weights a r i n j (w, _) = let e : true ≡ false = sym w ∙ n in cc

not_shard :
    (a : ArtifactProgress) (r : Resolved) (i : ℕ)
    → parse_shard_info (codes a.path) ≡ none
    → NotBelow i (a, r)
not_shard a r i n j (_, (info, p, _)) =
    let e : ◌≡◌ {A = Option ShardInfo} none (some info) = sym n ∙ p in cc

higher_shard :
    (a : ArtifactProgress) (r : Resolved) (i : ℕ) (info : ShardInfo)
    → parse_shard_info (codes a.path) ≡ some info
    → i ≤ info.index
    → NotBelow i (a, r)
higher_shard a r i info p h j s = omega (arith, h, Shard-index a r info j p s)

-- The new lowest shard.
take_Lowest :
    (i : ℕ) (d result : List ℕ) (a : ArtifactProgress) (r : Resolved) (info : ShardInfo)
    (l : List (ArtifactProgress × Resolved))
    → is_weights a.role ≡ true
    → parse_shard_info (codes a.path) ≡ some info
    → info.index ≤ i
    → Lowest info.index r.dest l result
    → Lowest i d ((a, r) ∷ l) result
unfolding Lowest
take_Lowest i d result a r info l w p h (k, le, all, c) = (
  k,
  omega (arith, le, h),
  (higher_shard a r k info p le, all),
  elim c [
    | inl (e, q) ↦ inr ((a, r), inl refl, (w, (info, p, sym e)), q)
    | inr (x, m, s, q) ↦ inr (x, inr m, s, q)
  ],
)

primary_from-Lowest :
    (i : ℕ) (d : List ℕ) (first : Option (List ℕ)) (l : List ArtifactProgress) (rs : List Resolved)
    → Lowest i d (paired l rs) (primary_from (some (i, d)) first l rs)
unfolding primary_from
primary_from-Lowest i d first [] rs = Lowest-nil i d
primary_from-Lowest i d first (a ∷ l) [] = Lowest-nil i d
primary_from-Lowest i d first (a ∷ l) (r ∷ rs) = elim (Bool-cases (is_weights a.role)) [
  | inr n ↦
      rw (primary_from, n)
        (skip_Lowest i d _ a r (paired l rs) (not_weights a r i n)
          (primary_from-Lowest i d first l rs))
  | inl w ↦ elim (Option-cases (parse_shard_info (codes a.path))) [
    | inl n ↦
        rw (primary_from, w, n)
          (skip_Lowest i d _ a r (paired l rs) (not_shard a r i n)
            (primary_from-Lowest i d (first_of first r.dest) l rs))
    | inr (info, p) ↦ elim (Bool-cases (ltb info.index i)) [
      | inl y ↦
          rw (primary_from, w, p, y)
            (take_Lowest i d _ a r info (paired l rs) w p (omega (arith, ltb→lt info.index i y))
              (primary_from-Lowest info.index r.dest (first_of first r.dest) l rs))
      | inr m ↦
          rw (primary_from, w, p, m)
            (skip_Lowest i d _ a r (paired l rs)
              (higher_shard a r i info p (ltb-false info.index i m))
              (primary_from-Lowest i d (first_of first r.dest) l rs))
    ]
  ]
]

Found : ℕ → List (ArtifactProgress × Resolved) → List ℕ → Type 0
Found k l result = (p : ArtifactProgress × Resolved) × In p l × Shard k p × (result ≡ p.1.dest)

Best : List (ArtifactProgress × Resolved) → List ℕ → Type 0
Best l result = (k : ℕ) × All (NotBelow k) l × Found k l result

no_Shard :
    (a : ArtifactProgress) (r : Resolved) (x : ArtifactProgress × Resolved) (j : ℕ)
    → ((k : ℕ) → NotBelow k (a, r))
    → x ≡ (a, r)
    → Shard j x
    → ⊥
no_Shard a r x j n e s = omega (arith, n (suc j) j (subst (Shard j) e s))

skip_Found :
    (a : ArtifactProgress) (r : Resolved) (l : List (ArtifactProgress × Resolved)) (result : List ℕ)
    → ((k : ℕ) → NotBelow k (a, r))
    → Best l result
    → Best ((a, r) ∷ l) result
unfolding Best Found
skip_Found a r l result n (k, all, (p, m, s, q)) = (k, (n k, all), (p, inr m, s, q))

head_Found :
    (a : ArtifactProgress) (r : Resolved) (info : ShardInfo)
    (l : List (ArtifactProgress × Resolved)) (result : List ℕ)
    → is_weights a.role ≡ true
    → parse_shard_info (codes a.path) ≡ some info
    → Lowest info.index r.dest l result
    → Best ((a, r) ∷ l) result
unfolding Best Lowest Found
head_Found a r info l result w p (k, le, all, c) = (
  k,
  (higher_shard a r k info p le, all),
  elim c [
    | inl (e, q) ↦ ((a, r), inl refl, (w, (info, p, sym e)), q)
    | inr (x, m, s, q) ↦ (x, inr m, s, q)
  ],
)

lowest_from :
    (first : Option (List ℕ)) (l : List ArtifactProgress) (rs : List Resolved)
    (x : ArtifactProgress × Resolved) (j : ℕ)
    → In x (paired l rs)
    → Shard j x
    → Best (paired l rs) (primary_from none first l rs)
unfolding primary_from
lowest_from first [] rs x j i s = elim i [ ]
lowest_from first (a ∷ l) [] x j i s = elim i [ ]
lowest_from first (a ∷ l) (r ∷ rs) x j i s = elim (Bool-cases (is_weights a.role)) [
  | inr n ↦
      rw (primary_from, n)
        (skip_Found a r (paired l rs) _ (λ k. not_weights a r k n)
          (lowest_from first l rs x j
            (In-tail x (a, r) (paired l rs) (λ e. no_Shard a r x j (λ k. not_weights a r k n) e s)
              i)
            s))
  | inl w ↦ elim (Option-cases (parse_shard_info (codes a.path))) [
    | inl n ↦
        rw (primary_from, w, n)
          (skip_Found a r (paired l rs) _ (λ k. not_shard a r k n)
            (lowest_from (first_of first r.dest) l rs x j
              (In-tail x (a, r) (paired l rs) (λ e. no_Shard a r x j (λ k. not_shard a r k n) e s)
                i)
              s))
    | inr (info, p) ↦
        rw (primary_from, w, p)
          (head_Found a r info (paired l rs) _ w p
            (primary_from-Lowest info.index r.dest (first_of first r.dest) l rs))
  ]
]

-- Where a shard of the weights is among the artifacts, the path that `Registrar` is given is the
-- destination of a shard of the weights whose index is the lowest of all, whatever the order of the
-- artifacts.
pub primary_weights_path-lowest :
    (l : List ArtifactProgress) (rs : List Resolved) (x : ArtifactProgress × Resolved) (j : ℕ)
    → In x (paired l rs)
    → Shard j x
    → (k : ℕ) × All (NotBelow k) (paired l rs)
      × ((p : ArtifactProgress × Resolved) × In p (paired l rs)
          × Shard k p
          × (primary_weights_path l rs ≡ p.1.dest))
unfolding primary_weights_path Best Found
primary_weights_path-lowest l rs x j i s = lowest_from none l rs x j i s
