-- ===== src/Placement/Ladder.antt =====
-- The ladder of safer placements: which rung comes next, and what a history of calls of
-- escalateIfMemoryFailure (internal/server/placementretry.go) keeps.
use llama_skein.Base.{
  ℕ, suc, ◌≤◌, ◌≡◌, ◌↔◌, ◌⊎◌, inl, inr, refl, sym, ap, subst, Bool, true, false, ◌&&◌, Option, none,
  some, List, [], ◌∷◌, ◌++◌, leb, length, In, arith, Bool-cases,
}
use llama_skein.Base.Maps.{contains, In-contains, contains-In}
use llama_skein.Process.Failures.{FailureClass, host_oom}
use llama_skein.Placement.{
  Rung, widen_reserve, shrink_batch, shrink_context, full_cpu_moe, rung_eq, ladder_order, Placed,
  Inputs, apply_rung, loads_host, next_from, is_host_oom, next_safer_plan, next_ctx, current_ctx,
  numbered,
}

-- Why a rung is passed over.
abbrev pub Passed : (Inputs → Placed) → Placed → Inputs → FailureClass → List Rung → Rung → Type 0
Passed compute prev inputs class tried rung =
    In rung tried
    ⊎ ((is_host_oom class && loads_host rung) ≡ true)
    ⊎ (apply_rung compute rung prev inputs (length tried) ≡ none)

-- What the search gives: the first rung that is not passed over.
abbrev pub First :
    (Inputs → Placed)
    → Placed
    → Inputs
    → Bool
    → List Rung
    → List Rung
    → Option (Placed × Rung)
    → Type 0
First compute prev inputs host tried rungs none =
    (r : Rung)
    → In r rungs
    → In r tried
      ⊎ ((host && loads_host r) ≡ true)
      ⊎ (apply_rung compute r prev inputs (length tried) ≡ none)
First compute prev inputs host tried rungs (some (plan, r)) =
    In r rungs
    × (contains tried r ≡ false)
    × ((host && loads_host r) ≡ false)
    × (apply_rung compute r prev inputs (length tried) ≡ some plan)

module _ (compute : Inputs → Placed) (prev : Placed) (inputs : Inputs) (host : Bool)
    (tried : List Rung) where
  later :
      (r : Rung) (rungs : List Rung) (found : Option (Placed × Rung))
      → (In r tried
          ⊎ ((host && loads_host r) ≡ true)
          ⊎ (apply_rung compute r prev inputs (length tried) ≡ none))
      → First compute prev inputs host tried rungs found
      → First compute prev inputs host tried (r ∷ rungs) found
  later r rungs none p f = λ x i. elim i [ inl e ↦ rw e p | inr j ↦ f x j ]
  later r rungs (some (plan, x)) p f = (inr f.0, f.1, f.2, f.3)

  at_rung :
      (r : Rung) (rungs : List Rung) (rest : Option (Placed × Rung))
      → contains tried r ≡ false
      → (host && loads_host r) ≡ false
      → First compute prev inputs host tried rungs rest
      → (placed : Option Placed) → apply_rung compute r prev inputs (length tried) ≡ placed
      → First compute prev inputs host tried
          (r ∷ rungs)
          (elim placed [ some plan ↦ some (plan, r) | none ↦ rest ])
  at_rung r rungs rest c h f none e = later r rungs rest (inr (inr e)) f
  at_rung r rungs rest c h f (some plan) e = (inl refl, c, h, e)

  next_from-First :
      (rungs : List Rung)
      → First compute prev inputs host tried rungs (next_from compute rungs prev inputs host tried)
  unfolding next_from
  next_from-First [] = λ r i. elim i [ ]
  next_from-First (r ∷ rungs) =
      let found = next_from-First rungs in
      elim (Bool-cases (contains tried r)) [
        | inl c ↦ rw c (later r rungs _ (inl (In-contains tried r c)) found)
        | inr c ↦ elim (Bool-cases (host && loads_host r)) [
          | inl h ↦ rw (c, h) (later r rungs _ (inr (inl h)) found)
          | inr h ↦ rw (c, h) (at_rung r rungs _ c h found _ refl)
        ]
      ]

every_rung : (r : Rung) → In r ladder_order
every_rung widen_reserve = inl refl
every_rung shrink_batch = inr (inl refl)
every_rung shrink_context = inr (inr (inl refl))
every_rung full_cpu_moe = inr (inr (inr (inl refl)))

pub next_safer_plan-First :
    (compute : Inputs → Placed) (prev : Placed) (inputs : Inputs) (class : FailureClass)
    (tried : List Rung)
    → First compute prev inputs
        (is_host_oom class)
        tried
        ladder_order
        (next_safer_plan compute prev inputs class tried)
unfolding next_safer_plan
next_safer_plan-First compute prev inputs class tried =
    next_from-First compute prev inputs (is_host_oom class) tried ladder_order

-- `NextSaferPlan` gives up exactly when each of the four rungs has been tried, or would move weight
-- into the memory of a host that ran out of it, or cannot help this model.
pub next_safer_plan-none_iff :
    (compute : Inputs → Placed) (prev : Placed) (inputs : Inputs) (class : FailureClass)
    (tried : List Rung)
    → (next_safer_plan compute prev inputs class tried ≡ none)
      ↔ ((r : Rung) → Passed compute prev inputs class tried r)
next_safer_plan-none_iff compute prev inputs class tried = both _ refl
  where
    both :
        (found : Option (Placed × Rung))
        → next_safer_plan compute prev inputs class tried ≡ found
        → (found ≡ none) ↔ ((r : Rung) → Passed compute prev inputs class tried r)
    both none e = (
      λ _ r.
          subst (First compute prev inputs (is_host_oom class) tried ladder_order) e
            (next_safer_plan-First compute prev inputs class tried) r (every_rung r),
      λ _. refl,
    )
    both (some (plan, r)) e = (
      λ n. cc,
      λ h.
          let f =
            subst (First compute prev inputs (is_host_oom class) tried ladder_order) e
              (next_safer_plan-First compute prev inputs class tried) in
          elim (h r) [
            | inl i ↦ cc (contains-In tried r i, f.1)
            | inr (inl b) ↦ cc (b, f.2)
            | inr (inr n) ↦ cc (n, f.3)
          ],
    )

-- A plan that gives up batch size or context, and moves nothing to the host.
abbrev pub Lighter : Placed → Inputs → Rung → Placed → Type 0
Lighter prev inputs rung plan =
    (plan.mode ≡ prev.mode)
    × (plan.n_cpu_moe ≡ prev.n_cpu_moe)
    × (((rung ≡ shrink_batch)
          × (plan.flag_ops
              ≡ prev.flag_ops ++ numbered "--batch-size" 512 ∷ numbered "--ubatch-size" 128 ∷ []))
        ⊎ ((rung ≡ shrink_context)
            × (plan.flag_ops ≡ prev.flag_ops ++ numbered "--ctx-size" (next_ctx inputs) ∷ [])
            × (inputs.min_ctx ≤ next_ctx inputs)
            × (suc (next_ctx inputs) ≤ current_ctx inputs)))

some_inj : {p q : Placed} → some p ≡ some q → p ≡ q
some_inj p = cc p

apply_rung-Lighter :
    (compute : Inputs → Placed) (prev : Placed) (inputs : Inputs) (step : ℕ) (rung : Rung)
    (plan : Placed)
    → loads_host rung ≡ false
    → apply_rung compute rung prev inputs step ≡ some plan
    → Lighter prev inputs rung plan
unfolding apply_rung
apply_rung-Lighter compute prev inputs step widen_reserve plan h e = cc
apply_rung-Lighter compute prev inputs step full_cpu_moe plan h e = cc
apply_rung-Lighter compute prev inputs step shrink_batch plan h e =
    let p = some_inj e in
    (
      sym (ap (λ (q : Placed). q.mode) p),
      sym (ap (λ (q : Placed). q.n_cpu_moe) p),
      inl (refl, sym (ap (λ (q : Placed). q.flag_ops) p)),
    )
apply_rung-Lighter compute prev inputs step shrink_context plan h e =
    elim (Bool-cases (leb (current_ctx inputs) (next_ctx inputs))) [
      | inl b ↦ cc (rw b at e)
      | inr b ↦
          let p = some_inj (rw b at e) in
          (
            sym (ap (λ (q : Placed). q.mode) p),
            sym (ap (λ (q : Placed). q.n_cpu_moe) p),
            inr (refl, sym (ap (λ (q : Placed). q.flag_ops) p), ground arith, ground arith),
          )
    ]

-- After the host ran out of memory, the plan that `NextSaferPlan` gives keeps the mode and the
-- number of experts on the host, and adds either the smaller batches or a context below the present
-- one and not below the floor of the policy.
pub next_safer_plan-Lighter :
    (compute : Inputs → Placed) (prev : Placed) (inputs : Inputs) (tried : List Rung)
    (plan : Placed) (rung : Rung)
    → next_safer_plan compute prev inputs host_oom tried ≡ some (plan, rung)
    → Lighter prev inputs rung plan
next_safer_plan-Lighter compute prev inputs tried plan rung e =
    let f =
      subst (First compute prev inputs true tried ladder_order) e
        (next_safer_plan-First compute prev inputs host_oom tried) in
    apply_rung-Lighter compute prev inputs (length tried) rung plan f.2 f.3
