-- ===== src/Group/Evictions.antt =====
-- Which models the planners of internal/router/group.go and matrix.go have stopped.
use llama_skein.Base.{
  ◌≡◌, ◌≢◌, ◌⊎◌, ◌↔◌, inl, inr, refl, sym, ap, subst, ◌∙◌, String, Bool, true, false, not, ◌&&◌,
  List, [], ◌∷◌, ◌++◌, In, In-append_left, In-append_right, In-append_cases, Bool-cases,
}
use llama_skein.Base.Maps.{contains, In-contains, string_eq, eq_cases}
use llama_skein.Base.Sorting.{In-sort, sort-In}
use llama_skein.Router.{ProcessState, stopped, starting, ready, stopping, shutdown, failed}
use llama_skein.Group.{
  Groups, group_id, group_config, is_live, evicts, consider, consider_all, live_models,
  group_eviction, add_running, running_set,
}

consider_iff :
    (g : Groups) (target m : String) (result : List String) (x : String)
    → In x (consider g target m result)
      ↔ (In x result ⊎ ((x ≡ m) × (x ≢ target) × (evicts g target x ≡ true)))
unfolding consider
consider_iff g target m result x = elim (eq_cases m target) [
  | inl p ↦ rw p.1 (
    (λ h. inl h),
    λ h. elim h [ inl i ↦ i | inr (e, n, _) ↦ absurd (n (subst (λ z. z ≡ target) (sym e) p.0)) ],
  )
  | inr p ↦ elim (Bool-cases (contains result m)) [
    | inl q ↦
        rw (p.1, q)
          (
            (λ h. inl h),
            λ h. elim h [
              | inl i ↦ i
              | inr (e, _, _) ↦ subst (λ z. In z result) (sym e) (In-contains result m q)
            ],
          )
    | inr q ↦ elim (Bool-cases (evicts g target m)) [
      | inl r ↦
          rw (p.1, q, r)
            (
              (λ h. elim (In-append_cases x result (m ∷ []) h) [
                | inl i ↦ inl i
                | inr (inl e) ↦ inr (
                  e,
                  (λ t. p.0 (subst (λ z. z ≡ target) e t)),
                  subst (λ z. evicts g target z ≡ true) (sym e) r,
                )
                | inr (inr i) ↦ elim i [ ]
              ]),
              λ h. elim h [
                | inl i ↦ In-append_left x result _ i
                | inr (e, _, _) ↦ In-append_right x result _ (inl e)
              ],
            )
      | inr r ↦
          rw (p.1, q, r)
            (
              (λ h. inl h),
              λ h. elim h [
                | inl i ↦ i
                | inr (e, _, t) ↦ let t' = subst (λ z. evicts g target z ≡ true) e t in cc
              ],
            )
    ]
  ]
]

consider_all_iff :
    (g : Groups) (target : String) (ms result : List String) (x : String)
    → In x (consider_all g target ms result)
      ↔ (In x result ⊎ (In x ms × (x ≢ target) × (evicts g target x ≡ true)))
unfolding consider_all
consider_all_iff g target [] result x =
    ((λ h. inl h), λ h. elim h [ inl i ↦ i | inr (i, _, _) ↦ elim i [ ] ])
consider_all_iff g target (m ∷ ms) result x =
    let (to, from) = consider_all_iff g target ms (consider g target m result) x in
    let (one, back) = consider_iff g target m result x in
    (
      (λ h. elim (to h) [
        | inl i ↦ elim (one i) [ inl j ↦ inl j | inr (e, n, r) ↦ inr (inl e, n, r) ]
        | inr (i, n, r) ↦ inr (inr i, n, r)
      ]),
      λ h. elim h [
        | inl i ↦ from (inl (back (inl i)))
        | inr (inl e, n, r) ↦ from (inl (back (inr (e, n, r))))
        | inr (inr i, n, r) ↦ from (inr (i, n, r))
      ],
    )

-- The process of the model is neither stopped, shut down nor failed.
abbrev pub IsUp : List (String × ProcessState) → String → Type 0
IsUp processes m =
    (st : ProcessState) × In (m, st) processes × (st ≢ stopped) × (st ≢ shutdown) × (st ≢ failed)

-- The model is of the target's group, which swaps; or it is of another group that is not persistent,
-- and the target's group is exclusive.
abbrev pub MakesWay : Groups → String → String → Type 0
MakesWay g target m =
    ((group_id g m ≡ group_id g target) × ((group_config g (group_id g target)).swap ≡ true))
    ⊎ ((group_id g m ≢ group_id g target)
        × ((group_config g (group_id g target)).exclusive ≡ true)
        × ((group_config g (group_id g m)).persistent ≡ false))

evicts_iff : (g : Groups) (target m : String) → (evicts g target m ≡ true) ↔ MakesWay g target m
unfolding evicts
evicts_iff g target m = elim (eq_cases (group_id g m) (group_id g target)) [
  | inl (e, p) ↦ rw p ((λ h. inl (e, h)), λ h. elim h [ inl (_, s) ↦ s | inr k ↦ absurd (k.0 e) ])
  | inr (n, p) ↦ rw p (
      exclusive_iff (group_config g (group_id g target)).exclusive
        (group_config g (group_id g m)).persistent _ _ _ n)
]
  where
    exclusive_iff :
        (x p : Bool) (S : Type 0) (i j : String)
        → i ≢ j
        → ((x && not p) ≡ true) ↔ (((i ≡ j) × S) ⊎ ((i ≢ j) × (x ≡ true) × (p ≡ false)))
    exclusive_iff true false S i j n = ((λ _. inr (n, refl, refl)), λ _. refl)
    exclusive_iff true true S i j n = (
      (λ h. absurd (cc h)),
      λ h. elim h [ inl (e, _) ↦ absurd (n e) | inr k ↦ absurd (cc (k.2)) ],
    )
    exclusive_iff false p S i j n = (
      (λ h. absurd (cc h)),
      λ h. elim h [ inl (e, _) ↦ absurd (n e) | inr k ↦ absurd (cc (k.1)) ],
    )

is_live_iff :
    (st : ProcessState) → (is_live st ≡ true) ↔ ((st ≢ stopped) × (st ≢ shutdown) × (st ≢ failed))
is_live_iff stopped = ((λ h. absurd (cc h)), λ h. absurd (h.0 refl))
is_live_iff shutdown = ((λ h. absurd (cc h)), λ h. absurd (h.1 refl))
is_live_iff failed = ((λ h. absurd (cc h)), λ h. absurd (h.2 refl))
is_live_iff starting = ((λ h. ((λ e. cc e), (λ e. cc e), λ e. cc e)), λ h. refl)
is_live_iff ready = ((λ h. ((λ e. cc e), (λ e. cc e), λ e. cc e)), λ h. refl)
is_live_iff stopping = ((λ h. ((λ e. cc e), (λ e. cc e), λ e. cc e)), λ h. refl)

live_models_iff :
    (processes : List (String × ProcessState)) (m : String)
    → In m (live_models processes) ↔ IsUp processes m
unfolding live_models
live_models_iff [] m = ((λ h. elim h [ ]), λ h. elim (h.1) [ ])
live_models_iff ((k, st) ∷ rest) m =
    let (to, from) = live_models_iff rest m in
    let (up, live) = is_live_iff st in
    elim (Bool-cases (is_live st)) [
      | inl p ↦ rw p (
        (λ h. elim h [
          | inl e ↦ let (a, b, c) = up p in (st, inl (ap (λ z. (z, st)) e), a, b, c)
          | inr i ↦ let (st', j, a, b, c) = to i in (st', inr j, a, b, c)
        ]),
        λ (st', i, a, b, c). elim i [
          | inl e ↦ inl (ap (λ q. q.0) e)
          | inr j ↦ inr (from (st', j, a, b, c))
        ],
      )
      | inr p ↦ rw p (
        (λ i. let (st', j, a, b, c) = to i in (st', inr j, a, b, c)),
        λ (st', i, a, b, c). elim i [
          | inl e ↦ absurd (
              true-false (
                sym (
                  live (
                    subst (λ z. (z ≢ stopped) × (z ≢ shutdown) × (z ≢ failed)) (ap (λ q. q.1) e)
                      (a, b, c)))
                ∙ p))
          | inr j ↦ from (st', j, a, b, c)
        ],
      )
    ]
  where
    true-false : true ≡ false → ⊥
    true-false e = cc e

-- The planner of the groups stops a model exactly when its process is neither stopped, shut down nor
-- failed or the loop has committed to loading it, it is not the target, and the groups say so: it is
-- of the target's group, which swaps; or it is of another group that is not persistent, and the
-- target's group is exclusive.
pub group_eviction_iff :
    (g : Groups) (processes : List (String × ProcessState)) (target : String)
    (also_running : List String) (m : String)
    → In m (group_eviction g processes target also_running)
      ↔ ((IsUp processes m ⊎ In m also_running) × (m ≢ target) × MakesWay g target m)
unfolding group_eviction
group_eviction_iff g processes target also_running m =
    let (to2, from2) =
      consider_all_iff g target also_running (consider_all g target (live_models processes) []) m in
    let (to1, from1) = consider_all_iff g target (live_models processes) [] m in
    let (way, evict) = evicts_iff g target m in
    let (up, live) = live_models_iff processes m in
    (
      (λ h. elim (to2 h) [
        | inl i ↦ elim (to1 i) [ inl z ↦ elim z [ ] | inr (l, n, r) ↦ (inl (up l), n, way r) ]
        | inr (l, n, r) ↦ (inr l, n, way r)
      ]),
      λ h. elim h.0 [
        | inl l ↦ from2 (inl (from1 (inr (live l, h.1, evict h.2))))
        | inr l ↦ from2 (inr (l, h.1, evict h.2))
      ],
    )

add_running_iff :
    (running also : List String) (m : String)
    → In m (add_running running also) ↔ (In m running ⊎ In m also)
unfolding add_running
add_running_iff running [] m = ((λ h. inl h), λ h. elim h [ inl i ↦ i | inr i ↦ elim i [ ] ])
add_running_iff running (k ∷ also) m = elim (Bool-cases (contains running k)) [
  | inl p ↦
      let (to, from) = add_running_iff running also m in
      rw p (
        (λ h. elim (to h) [ inl i ↦ inl i | inr i ↦ inr (inr i) ]),
        λ h. elim h [
          | inl i ↦ from (inl i)
          | inr (inl e) ↦ from (inl (subst (λ z. In z running) (sym e) (In-contains running k p)))
          | inr (inr i) ↦ from (inr i)
        ],
      )
  | inr p ↦
      let (to, from) = add_running_iff (running ++ k ∷ []) also m in
      rw p (
        (λ h. elim (to h) [
          | inl i ↦ elim (In-append_cases m running (k ∷ []) i) [
            | inl j ↦ inl j
            | inr (inl e) ↦ inr (inl e)
            | inr (inr z) ↦ elim z [ ]
          ]
          | inr i ↦ inr (inr i)
        ]),
        λ h. elim h [
          | inl i ↦ from (inl (In-append_left m running _ i))
          | inr (inl e) ↦ from (inl (In-append_right m running _ (inl e)))
          | inr (inr i) ↦ from (inr i)
        ],
      )
]

-- The running set is the live processes and the models that the loop has committed to loading.
pub running_set_iff :
    (processes : List (String × ProcessState)) (also_running : List String) (m : String)
    → In m (running_set processes also_running) ↔ (In m (live_models processes) ⊎ In m also_running)
unfolding running_set
running_set_iff processes also_running m =
    let (to, from) = add_running_iff (live_models processes) also_running m in
    ((λ h. to (sort-In m _ h)), λ h. In-sort m _ (from h))
