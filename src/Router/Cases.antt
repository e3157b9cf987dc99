-- ===== src/Router/Cases.antt =====
-- The branches of the decision tree of internal/router/base.go, as principles: what holds on every
-- branch holds of the handler.
use llama_skein.Base.{
  ℕ, ◌≡◌, ◌⊎◌, inl, inr, ◌<◌, String, Bool, true, false, none, some, List, refl, arith, Bool-cases,
  Option-cases, leb, leb-false,
}
use llama_skein.Base.Maps.{lookup, string_eq}
use llama_skein.Router.{
  Request, ActiveSwap, Router, ProcessState, Alive, Planner, Refusal, no_local_model, session_cap,
  grant, grant_handler, start_swap, join_swap, enqueue, can_serve, collides_with,
  conflicts_with_in_flight, decide_request, decide_queued, handle_request, drain_one, eviction,
  effective_limit, in_flight_of,
}

-- The two reasons for which a request waits in the queue.
abbrev pub Blocked : String → List String → Router → Type 0
Blocked model evict s =
    (collides_with model evict s.active ≡ true) ⊎ (conflicts_with_in_flight evict s ≡ true)

-- Neither holds.
abbrev pub Free : String → List String → Router → Type 0
Free model evict s =
    (collides_with model evict s.active ≡ false) × (conflicts_with_in_flight evict s ≡ false)

-- What the fast path has checked.
pub can_serve-collides :
    (st : ProcessState) (model : String) (evict : List String) (s : Router)
    → can_serve st model evict s ≡ true
    → collides_with model evict s.active ≡ false
unfolding can_serve
can_serve-collides st model evict s h = ground arith

module _ {ℓ} (P : Router × Bool → Type ℓ) (alive : Alive) (req : Request) (s : Router) where
  decide_queued_cases :
      (st : ProcessState) (evict : List String)
      → (collides_with req.model evict s.active ≡ false
          → P (grant_handler alive req req.model s, false))
      → (Blocked req.model evict s → P (s, true))
      → (Free req.model evict s → P (start_swap req evict s, false))
      → P (decide_queued alive req st evict s)
  unfolding decide_queued
  decide_queued_cases st evict serve stay start =
      elim (Bool-cases (can_serve st req.model evict s)) [
        | inl a ↦ rw a (serve (can_serve-collides st req.model evict s a))
        | inr a ↦ elim (Bool-cases (collides_with req.model evict s.active)) [
          | inl b ↦ rw (a, b) (stay (inl b))
          | inr b ↦ elim (Bool-cases (conflicts_with_in_flight evict s)) [
            | inl c ↦ rw (a, b, c) (stay (inr c))
            | inr c ↦ rw (a, b, c) (start (b, c))
          ]
        ]
      ]

  pub drain_one_cases :
      (eviction_for : Planner)
      → P (grant alive req no_local_model s, false)
      → ((swap : ActiveSwap)
          → lookup req.model s.active ≡ some swap
          → P (join_swap req swap s, false))
      → ((evict : List String)
          → collides_with req.model evict s.active ≡ false
          → lookup req.model s.active ≡ none
          → P (grant_handler alive req req.model s, false))
      → ((evict : List String) → Blocked req.model evict s → P (s, true))
      → ((evict : List String)
          → Free req.model evict s
          → lookup req.model s.active ≡ none
          → P (start_swap req evict s, false))
      → P (drain_one eviction_for alive req s)
  unfolding drain_one
  drain_one_cases eviction_for unknown join serve stay start =
      elim (Option-cases (lookup req.model s.processes)) [
        | inl p ↦ rw (p, drain_one) unknown
        | inr (st, p) ↦ elim (Option-cases (lookup req.model s.active)) [
          | inr (swap, q) ↦ rw (p, drain_one, q) (join swap q)
          | inl q ↦
              let evict = eviction eviction_for req.model s in
              rw (p, drain_one, q)
                (decide_queued_cases st evict (λ c. serve evict c q) (stay evict)
                  (λ free. start evict free q))
        ]
      ]

module _ {ℓ} (P : Router → Type ℓ) (alive : Alive) (now : ℕ) (req : Request) (s : Router) where
  decide_request_cases :
      (st : ProcessState) (evict : List String)
      → P (grant alive req session_cap s)
      → (collides_with req.model evict s.active ≡ false
          → in_flight_of req.model s < effective_limit (lookup req.model s.limits)
          → P (grant_handler alive req req.model s))
      → (Blocked req.model evict s → P (enqueue now req s))
      → (Free req.model evict s → P (start_swap req evict s))
      → P (decide_request alive now req st evict s)
  unfolding decide_request
  decide_request_cases st evict full serve park start =
      elim (Bool-cases (can_serve st req.model evict s)) [
        | inl a ↦
            elim (Bool-cases
              (leb (effective_limit (lookup req.model s.limits)) (in_flight_of req.model s))) [
                | inl b ↦ rw (a, b) full
                | inr b ↦
                    rw (a, b) (serve (can_serve-collides st req.model evict s a) (leb-false _ _ b))
              ]
        | inr a ↦ elim (Bool-cases (collides_with req.model evict s.active)) [
          | inl b ↦ rw (a, b) (park (inl b))
          | inr b ↦ elim (Bool-cases (conflicts_with_in_flight evict s)) [
            | inl c ↦ rw (a, b, c) (park (inr c))
            | inr c ↦ rw (a, b, c) (start (b, c))
          ]
        ]
      ]

  pub handle_request_cases :
      (eviction_for : Planner)
      → P (grant alive req no_local_model s)
      → P (grant alive req session_cap s)
      → ((swap : ActiveSwap) → lookup req.model s.active ≡ some swap → P (join_swap req swap s))
      → ((evict : List String)
          → collides_with req.model evict s.active ≡ false
          → lookup req.model s.active ≡ none
          → in_flight_of req.model s < effective_limit (lookup req.model s.limits)
          → P (grant_handler alive req req.model s))
      → ((evict : List String) → Blocked req.model evict s → P (enqueue now req s))
      → ((evict : List String)
          → Free req.model evict s
          → lookup req.model s.active ≡ none
          → P (start_swap req evict s))
      → P (handle_request eviction_for alive now req s)
  unfolding handle_request
  handle_request_cases eviction_for unknown full join serve park start =
      elim (Option-cases (lookup req.model s.processes)) [
        | inl p ↦ rw (p, handle_request) unknown
        | inr (st, p) ↦ elim (Option-cases (lookup req.model s.active)) [
          | inr (swap, q) ↦ rw (p, handle_request, q) (join swap q)
          | inl q ↦
              let evict = eviction eviction_for req.model s in
              rw (p, handle_request, q)
                (decide_request_cases st evict full (λ c l. serve evict c q l) (park evict)
                  (λ free. start evict free q))
        ]
      ]

-- What an answer leaves alone.
pub grant_handler-active :
    (alive : Alive) (req : Request) (m : String) (s : Router)
    → (grant_handler alive req m s).active ≡ s.active
unfolding grant_handler
grant_handler-active alive req m s = ground arith

pub grant_handler-queued :
    (alive : Alive) (req : Request) (m : String) (s : Router)
    → (grant_handler alive req m s).queued ≡ s.queued
unfolding grant_handler
grant_handler-queued alive req m s = ground arith

pub grant-active :
    (alive : Alive) (req : Request) (r : Refusal) (s : Router)
    → (grant alive req r s).active ≡ s.active
unfolding grant
grant-active alive req r s = refl

pub grant-queued :
    (alive : Alive) (req : Request) (r : Refusal) (s : Router)
    → (grant alive req r s).queued ≡ s.queued
unfolding grant
grant-queued alive req r s = refl
