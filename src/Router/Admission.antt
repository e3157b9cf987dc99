-- ===== src/Router/Admission.antt =====
-- The limit on the requests of a model in internal/router/base.go.
use llama_skein.Base.{ℕ, ◌+◌, ◌≤◌, ◌<◌, String, max, arith, subst, inl, inr, Bool-cases}
use llama_skein.Base.Maps.{lookup, string_eq, lookup-insert, eq_cases}
use llama_skein.Router.{
  Request, Router, Alive, Planner, grant, grant_handler, start_swap, join_swap, enqueue,
  handle_request, effective_limit, in_flight_of,
}
use llama_skein.Router.Cases.{handle_request_cases}

-- A state in which the count of the model is no higher than both the old one and the limit allow.
abbrev pub Within : String → Router → Router → Type 0
Within m s s' = in_flight_of m s' ≤ max (in_flight_of m s) (effective_limit (lookup m s.limits))

grant_handler-Within :
    (alive : Alive) (req : Request) (m : String) (s : Router)
    → in_flight_of req.model s < effective_limit (lookup req.model s.limits)
    → Within m s (grant_handler alive req req.model s)
unfolding grant_handler
grant_handler-Within alive req m s l = elim (Bool-cases (alive req.id)) [
  | inr p ↦ rw p (omega arith)
  | inl p ↦ elim (eq_cases req.model m) [
    | inl q ↦
        rw (p, lookup-insert req.model m (in_flight_of req.model s + 1) s.in_flight, q.1)
          (subst
            (λ z.
              in_flight_of req.model s + 1
              ≤ max (in_flight_of z s) (effective_limit (lookup z s.limits)))
            q.0 (omega (arith, l)))
    | inr q ↦
        rw (p, lookup-insert req.model m (in_flight_of req.model s + 1) s.in_flight, q.1)
          (omega arith)
  ]
]

-- A new request never takes the count of any model over its limit: after `handleRequest` the count is
-- at most the larger of the count before and the limit.
pub handle_request-in_flight_of :
    (eviction_for : Planner) (alive : Alive) (now : ℕ) (req : Request) (m : String) (s : Router)
    → in_flight_of m (handle_request eviction_for alive now req s)
      ≤ max (in_flight_of m s) (effective_limit (lookup m s.limits))
unfolding grant join_swap start_swap enqueue
handle_request-in_flight_of eviction_for alive now req m s =
    handle_request_cases (Within m s) alive now req s eviction_for (omega arith) (omega arith)
      (λ swap q. omega arith) (λ evict c q l. grant_handler-Within alive req m s l)
      (λ evict b. omega arith) (λ evict f q. omega arith)
