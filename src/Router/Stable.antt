-- ===== src/Router/Stable.antt =====
-- What the handlers of internal/router/base.go preserve, from what their steps preserve.
use llama_skein.Base.{
  ℕ, ◌-◌, ◌≡◌, refl, sym, String, Bool, true, false, none, some, List, [], ◌∷◌, ◌++◌, ◌==◌, ltb,
  if◌then◌else◌, inl, inr, Bool-cases, Option-cases,
}
use llama_skein.Base.Maps.{lookup, delete, contains, string_eq}
use llama_skein.Router.{
  Request, ActiveSwap, Router, ProcessState, Alive, Planner, Refusal, grant, grant_handler,
  start_swap, join_swap, enqueue, handle_request, drain_one, drain_from, drain_list, drain_queue,
  fan_out, handle_swap_done, expire_from, expire_list, expire_stale_queued, refuse_all,
  release_swaps, drop_queued, handle_unload, unloaded, no_local_model, load_failed, queue_timeout,
  session_cap, collides_with,
}
use llama_skein.Router.Departures.{refuse_all-active}
use llama_skein.Router.Cases.{Free, drain_one_cases, handle_request_cases}

-- `P` survives every change a handler makes to the state; `U m` is what allows a handler to be granted
-- for the model `m`.
pub record Stable (P : Router → Type 0) (U : String → Router → Type 0) : Type 0 where
  pub grants :
      (alive : Alive) (req : Request) (r : Refusal) (s : Router) → P s → P (grant alive req r s)
  pub serves :
      (alive : Alive) (req : Request) (m : String) (s : Router)
      → U m s
      → P s
      → P (grant_handler alive req m s)
  pub frees :
      (m : String) (evict : List String) (s : Router)
      → collides_with m evict s.active ≡ false
      → lookup m s.active ≡ none
      → U m s
  pub serves_on :
      (alive : Alive) (req : Request) (m : String) (s : Router)
      → U m s
      → U m (grant_handler alive req m s)
  pub joins :
      (req : Request) (swap : ActiveSwap) (s : Router)
      → lookup req.model s.active ≡ some swap
      → P s
      → P (join_swap req swap s)
  pub starts :
      (req : Request) (evict : List String) (s : Router)
      → Free req.model evict s
      → lookup req.model s.active ≡ none
      → P s
      → P (start_swap req evict s)
  pub removes :
      (m : String) (a : List (String × ActiveSwap)) (s : Router)
      → a ≡ s.active
      → P s
      → P (record s { active = delete m a })
  pub ends :
      (m : String) (swap : ActiveSwap) (s : Router)
      → lookup m s.active ≡ some swap
      → P s
      → U m (record s { active = delete m s.active })
  pub requeues :
      (q : List Request) (positions : List (ℕ × ℕ)) (s : Router)
      → P s
      → P (record s { queued = q; positions = positions })
  pub observes :
      (ps : List (String × ProcessState)) (s : Router) → P s → P (record s { processes = ps })

module _ {P : Router → Type 0} {U : String → Router → Type 0} (stable : Stable P U) where
  drain_one-P :
      (eviction_for : Planner) (alive : Alive) (req : Request) (s : Router)
      → P s
      → P (drain_one eviction_for alive req s).0
  drain_one-P eviction_for alive req s h =
      drain_one_cases (λ r. P r.0) alive req s eviction_for
        (stable.grants alive req no_local_model s h) (λ swap q. stable.joins req swap s q h)
        (λ evict c q. stable.serves alive req req.model s (stable.frees req.model evict s c q) h)
        (λ evict b. h) (λ evict f q. stable.starts req evict s f q h)

  drain_from-P :
      (eviction_for : Planner) (alive : Alive) (remaining pending : List Request) (s : Router)
      → P s
      → P (drain_from eviction_for alive remaining pending s)
  unfolding drain_from
  drain_from-P eviction_for alive remaining [] s h = stable.requeues remaining _ s h
  drain_from-P eviction_for alive remaining (req ∷ pending) s h =
      let r = drain_one eviction_for alive req s in
      drain_from-P eviction_for alive (if r.1 then remaining ++ req ∷ [] else remaining) pending r.0
        (drain_one-P eviction_for alive req s h)

  drain_list-P :
      (eviction_for : Planner) (alive : Alive) (q : List Request) (s : Router)
      → P s
      → P (drain_list eviction_for alive q s)
  unfolding drain_list
  drain_list-P eviction_for alive [] s h = h
  drain_list-P eviction_for alive (req ∷ pending) s h = drain_from-P eviction_for alive [] _ s h

  pub drain_queue-P :
      (eviction_for : Planner) (alive : Alive) (s : Router)
      → P s
      → P (drain_queue eviction_for alive s)
  unfolding drain_queue
  drain_queue-P eviction_for alive s h = drain_list-P eviction_for alive s.queued s h

  fan_out-P :
      (alive : Alive) (ok : Bool) (m : String) (ws : List Request) (s : Router)
      → U m s
      → P s
      → P (fan_out alive ok m ws s)
  unfolding fan_out
  fan_out-P alive ok m [] s u h = h
  fan_out-P alive true m (w ∷ ws) s u h =
      fan_out-P alive true m ws _ (stable.serves_on alive w m s u) (stable.serves alive w m s u h)
  fan_out-P alive false m (w ∷ ws) s u h = refusals ws _ (stable.grants alive w load_failed s h)
    where
      refusals : (ws : List Request) (s : Router) → P s → P (fan_out alive false m ws s)
      refusals [] s h = h
      refusals (w ∷ ws) s h = refusals ws _ (stable.grants alive w load_failed s h)

  pub handle_request-P :
      (eviction_for : Planner) (alive : Alive) (now : ℕ) (req : Request) (s : Router)
      → P s
      → P (handle_request eviction_for alive now req s)
  unfolding enqueue
  handle_request-P eviction_for alive now req s h =
      handle_request_cases P alive now req s eviction_for
        (stable.grants alive req no_local_model s h) (stable.grants alive req session_cap s h)
        (λ swap q. stable.joins req swap s q h)
        (λ evict c q l. stable.serves alive req req.model s (stable.frees req.model evict s c q) h)
        (λ evict b. stable.requeues _ _ s h) (λ evict f q. stable.starts req evict s f q h)

  pub handle_swap_done-P :
      (eviction_for : Planner) (alive : Alive) (m : String) (ok : Bool) (s : Router)
      → P s
      → P (handle_swap_done eviction_for alive m ok s)
  unfolding handle_swap_done
  handle_swap_done-P eviction_for alive m ok s h = elim (Option-cases (lookup m s.active)) [
    | inl p ↦ rw (handle_swap_done, p) h
    | inr (swap, p) ↦
        rw (handle_swap_done, p)
          (drain_queue-P eviction_for alive _ (
            fan_out-P alive ok m swap.waiters _ (stable.ends m swap s p h)
              (stable.removes m s.active s refl h)))
  ]

  expire_from-P :
      (alive : Alive) (now timeout : ℕ) (remaining pending : List Request) (s : Router)
      → P s
      → P (expire_from alive now timeout remaining pending s)
  unfolding expire_from
  expire_from-P alive now timeout remaining [] s h = stable.requeues remaining _ s h
  expire_from-P alive now timeout remaining (req ∷ pending) s h =
      elim (Bool-cases (ltb (now - req.queued_at) timeout)) [
        | inl p ↦
            rw (expire_from, p)
              (expire_from-P alive now timeout (remaining ++ req ∷ []) pending s h)
        | inr p ↦
            rw (expire_from, p)
              (expire_from-P alive now timeout remaining pending _
                (stable.grants alive req queue_timeout s h))
      ]

  expire_list-P :
      (alive : Alive) (now timeout : ℕ) (q : List Request) (s : Router)
      → P s
      → P (expire_list alive now timeout q s)
  unfolding expire_list
  expire_list-P alive now timeout [] s h = h
  expire_list-P alive now timeout (req ∷ pending) s h = expire_from-P alive now timeout [] _ s h

  pub expire_stale_queued-P :
      (alive : Alive) (now timeout : ℕ) (s : Router)
      → P s
      → P (expire_stale_queued alive now timeout s)
  unfolding expire_stale_queued
  expire_stale_queued-P alive now timeout s h = elim (Bool-cases (timeout == 0)) [
    | inl p ↦ rw p h
    | inr p ↦ rw p (expire_list-P alive now timeout s.queued s h)
  ]

  refuse_all-P :
      (alive : Alive) (r : Refusal) (ws : List Request) (s : Router)
      → P s
      → P (refuse_all alive r ws s)
  unfolding refuse_all
  refuse_all-P alive r [] s h = h
  refuse_all-P alive r (w ∷ ws) s h = refuse_all-P alive r ws _ (stable.grants alive w r s h)

  release_swaps-P :
      (alive : Alive) (targets : List String) (s : Router) → P s → P (release_swaps alive targets s)
  unfolding release_swaps
  release_swaps-P alive [] s h = h
  release_swaps-P alive (m ∷ targets) s h = elim (Option-cases (lookup m s.active)) [
    | inl p ↦ rw (release_swaps, p) (release_swaps-P alive targets s h)
    | inr (swap, p) ↦
        let refused = refuse_all alive unloaded swap.waiters s in
        rw (release_swaps, p)
          (release_swaps-P alive targets _ (
            stable.removes m s.active refused
              (sym (refuse_all-active alive unloaded swap.waiters s))
              (refuse_all-P alive unloaded swap.waiters s h)))
  ]

  drop_queued-P :
      (alive : Alive) (targets : List String) (kept pending : List Request) (s : Router)
      → P s
      → P (drop_queued alive targets kept pending s)
  unfolding drop_queued
  drop_queued-P alive targets kept [] s h = stable.requeues kept s.positions s h
  drop_queued-P alive targets kept (w ∷ pending) s h =
      elim (Bool-cases (contains targets w.model)) [
        | inl p ↦
            rw (drop_queued, p)
              (drop_queued-P alive targets kept pending _ (stable.grants alive w unloaded s h))
        | inr p ↦ rw (drop_queued, p) (drop_queued-P alive targets (kept ++ w ∷ []) pending s h)
      ]

  pub handle_unload-P :
      (eviction_for : Planner) (alive : Alive) (targets : List String)
      (processes : List (String × ProcessState)) (s : Router)
      → P s
      → P (handle_unload eviction_for alive targets processes s)
  unfolding handle_unload
  handle_unload-P eviction_for alive targets processes s h = drain_queue-P eviction_for alive _ (
      stable.observes processes _ (
        drop_queued-P alive targets [] (release_swaps alive targets s).queued _
          (release_swaps-P alive targets s h)))
