-- ===== src/Router/Departures.antt =====
-- Where the requests go that internal/router/base.go expires, or drops when a model is unloaded.
use llama_skein.Base.{
  ℕ, ◌+◌, ◌-◌, ◌≡◌, refl, ap, ◌∙◌, String, List, [], ◌∷◌, ◌++◌, ◌==◌, ltb, arith, inl, inr,
  Bool-cases, Option-cases,
}
use llama_skein.Base.Maps.{lookup, delete, contains, Distinct, string_eq}
use llama_skein.Router.{
  Request, Router, ProcessState, Alive, Planner, Refusal, grant, expire_from, expire_list,
  expire_stale_queued, refuse_all, release_swaps, drop_queued, handle_unload, unloaded,
  queue_timeout,
}
use llama_skein.Router.Cases.{grant-queued, grant-active}
use llama_skein.Router.Counts.{
  count, waiting, count-append, count_one, waiting-delete, Distinct-delete,
}
use llama_skein.Router.Conservation.{settled, tally, Gains, settled-grant, drain_queue-Gains}

expire_from-Gains :
    (id : ℕ) (alive : Alive) (now timeout : ℕ) (remaining pending : List Request) (s : Router)
    → Distinct s.active
    → (tally id (expire_from alive now timeout remaining pending s)
        ≡ count id remaining + count id pending + settled id s)
      × Distinct (expire_from alive now timeout remaining pending s).active
unfolding expire_from count
expire_from-Gains id alive now timeout remaining [] s d = (omega arith, d)
expire_from-Gains id alive now timeout remaining (req ∷ pending) s d =
    elim (Bool-cases (ltb (now - req.queued_at) timeout)) [
      | inl p ↦
          let (e, d') =
            expire_from-Gains id alive now timeout (remaining ++ req ∷ []) pending s d in
          rw (expire_from, p)
            (omega (arith, e, count-append id remaining (req ∷ []), count_one id req), d')
      | inr p ↦
          let (e, d') =
            expire_from-Gains id alive now timeout remaining pending
              (grant alive req queue_timeout s) (rw (grant-active alive req queue_timeout s) d) in
          rw (expire_from, p) (omega (arith, e, settled-grant id alive req queue_timeout s), d')
    ]

expire_list-Gains :
    (id : ℕ) (alive : Alive) (now timeout : ℕ) (q : List Request) (s : Router)
    → s.queued ≡ q
    → Distinct s.active
    → Gains id 0 s (expire_list alive now timeout q s)
unfolding expire_list count
expire_list-Gains id alive now timeout [] s e d = (omega arith, d)
expire_list-Gains id alive now timeout (req ∷ pending) s e d =
    let (f, d') = expire_from-Gains id alive now timeout [] (req ∷ pending) s d in
    (omega (arith, f, ap (count id) e), d')

pub expire_stale_queued-Gains :
    (id : ℕ) (alive : Alive) (now timeout : ℕ) (s : Router)
    → Distinct s.active
    → Gains id 0 s (expire_stale_queued alive now timeout s)
unfolding expire_stale_queued
expire_stale_queued-Gains id alive now timeout s d = elim (Bool-cases (timeout == 0)) [
  | inl p ↦ rw p (omega arith, d)
  | inr p ↦ rw p (expire_list-Gains id alive now timeout s.queued s refl d)
]

refuse_all-settled :
    (id : ℕ) (alive : Alive) (r : Refusal) (ws : List Request) (s : Router)
    → settled id (refuse_all alive r ws s) ≡ count id ws + settled id s
unfolding refuse_all count
refuse_all-settled id alive r [] s = omega arith
refuse_all-settled id alive r (w ∷ ws) s =
    omega
      (arith, refuse_all-settled id alive r ws (grant alive w r s), settled-grant id alive w r s)

pub refuse_all-active :
    (alive : Alive) (r : Refusal) (ws : List Request) (s : Router)
    → (refuse_all alive r ws s).active ≡ s.active
unfolding refuse_all
refuse_all-active alive r [] s = refl
refuse_all-active alive r (w ∷ ws) s = refuse_all-active alive r ws _ ∙ grant-active alive w r s

refuse_all-queued :
    (alive : Alive) (r : Refusal) (ws : List Request) (s : Router)
    → (refuse_all alive r ws s).queued ≡ s.queued
unfolding refuse_all
refuse_all-queued alive r [] s = refl
refuse_all-queued alive r (w ∷ ws) s = refuse_all-queued alive r ws _ ∙ grant-queued alive w r s

release_swaps-Gains :
    (id : ℕ) (alive : Alive) (targets : List String) (s : Router)
    → Distinct s.active
    → Gains id 0 s (release_swaps alive targets s)
unfolding release_swaps
release_swaps-Gains id alive [] s d = (omega arith, d)
release_swaps-Gains id alive (m ∷ targets) s d = elim (Option-cases (lookup m s.active)) [
  | inl p ↦ rw (release_swaps, p) (release_swaps-Gains id alive targets s d)
  | inr (swap, p) ↦
      let refused = refuse_all alive unloaded swap.waiters s in
      let (e, d') =
        release_swaps-Gains id alive targets (record refused { active = delete m s.active })
          (Distinct-delete m s.active d) in
      rw (release_swaps, p)
        (
          omega (
            arith,
            e,
            refuse_all-settled id alive unloaded swap.waiters s,
            ap (count id) (refuse_all-queued alive unloaded swap.waiters s),
            ap (waiting id) (refuse_all-active alive unloaded swap.waiters s),
            waiting-delete id m swap s.active p d,
          ),
          d',
        )
]

drop_queued-Gains :
    (id : ℕ) (alive : Alive) (targets : List String) (kept pending : List Request) (s : Router)
    → Distinct s.active
    → (tally id (drop_queued alive targets kept pending s)
        ≡ count id kept + count id pending + settled id s)
      × Distinct (drop_queued alive targets kept pending s).active
unfolding drop_queued count
drop_queued-Gains id alive targets kept [] s d = (omega arith, d)
drop_queued-Gains id alive targets kept (req ∷ pending) s d =
    elim (Bool-cases (contains targets req.model)) [
      | inl p ↦
          let (e, d') =
            drop_queued-Gains id alive targets kept pending (grant alive req unloaded s)
              (rw (grant-active alive req unloaded s) d) in
          rw (drop_queued, p) (omega (arith, e, settled-grant id alive req unloaded s), d')
      | inr p ↦
          let (e, d') = drop_queued-Gains id alive targets (kept ++ req ∷ []) pending s d in
          rw (drop_queued, p)
            (omega (arith, e, count-append id kept (req ∷ []), count_one id req), d')
    ]

pub handle_unload-Gains :
    (eviction_for : Planner) (id : ℕ) (alive : Alive) (targets : List String)
    (processes : List (String × ProcessState)) (s : Router)
    → Distinct s.active
    → Gains id 0 s (handle_unload eviction_for alive targets processes s)
unfolding handle_unload count
handle_unload-Gains eviction_for id alive targets processes s d =
    let (e, d1) = release_swaps-Gains id alive targets s d in
    let released = release_swaps alive targets s in
    let (f, d2) = drop_queued-Gains id alive targets [] released.queued released d1 in
    let dropped = drop_queued alive targets [] released.queued released in
    let (g, d3) =
      drain_queue-Gains eviction_for id alive (record dropped { processes = processes }) d2 in
    (omega (arith, e, f, g), d3)
