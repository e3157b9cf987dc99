-- ===== src/Router/Wakeups.antt =====
-- The requests that internal/router/base.go parks are woken: something is still to come for them.
use llama_skein.Base.{
  ℕ, ◌+◌, ◌-◌, ◌<◌, ◌≡◌, ◌≢◌, ◌⊎◌, refl, String, Bool, true, false, List, [], ◌∷◌, ◌++◌, ◌==◌,
  if◌then◌else◌, arith, inl, inr, Bool-cases, Option-cases, ltb,
}
use llama_skein.Base.Maps.{lookup, insert, string_eq, ◌=?◌, lookup-insert, eq_cases, =?_self}
use llama_skein.Router.{
  Request, ActiveSwap, Router, ProcessState, Alive, Planner, Event, requests, swap_done, serve_done,
  ticks, unloads, observes, grant, grant_handler, start_swap, join_swap, enqueue, handle_request,
  drain_one, drain_from, drain_list, drain_queue, handle_swap_done, handle_serve_done, expire_from,
  expire_list, expire_stale_queued, handle_unload, step, run, init, in_flight_of, collides_with,
  conflicts_with_in_flight, queue_timeout,
}
use llama_skein.Router.Cases.{Blocked, drain_one_cases, handle_request_cases, grant_handler-queued}

-- A swap is running, or a request is being served: an event that drains the queue is to come.
abbrev pub Awaits : Router → Type 0
Awaits s = (s.active ≢ []) ⊎ ((m : String) × (0 < in_flight_of m s))

abbrev pub Quiet : Router → Type 0
Quiet s = (s.queued ≡ []) ⊎ Awaits s

insert_not_empty :
    (k : String) (x : ActiveSwap) (a : List (String × ActiveSwap)) → insert k x a ≢ []
unfolding insert
insert_not_empty k x [] = λ e. cc
insert_not_empty k x ((j, y) ∷ a) = elim (Bool-cases (j =? k)) [
  | inl p ↦ rw p (λ e. cc)
  | inr p ↦ rw p (λ e. cc)
]

collides-Awaits :
    (target : String) (evict : List String) (a : List (String × ActiveSwap))
    → collides_with target evict a ≡ true
    → a ≢ []
unfolding collides_with
collides-Awaits target evict [] h = cc
collides-Awaits target evict (x ∷ a) h = λ e. cc

conflicts-Awaits :
    (evict : List String) (s : Router)
    → conflicts_with_in_flight evict s ≡ true
    → (m : String) × (0 < in_flight_of m s)
unfolding conflicts_with_in_flight
conflicts-Awaits [] s h = cc
conflicts-Awaits (j ∷ evict) s h = elim (Bool-cases (ltb 0 (in_flight_of j s))) [
  | inl p ↦ (j, ground (arith, p))
  | inr p ↦ conflicts-Awaits evict s (rw p at h)
]

Blocked-Awaits :
    (model : String) (evict : List String) (s : Router) → Blocked model evict s → Awaits s
Blocked-Awaits model evict s (inl c) = inl (collides-Awaits model evict s.active c)
Blocked-Awaits model evict s (inr c) = inr (conflicts-Awaits evict s c)

grant_handler-Awaits :
    (alive : Alive) (req : Request) (m : String) (s : Router)
    → Awaits s
    → Awaits (grant_handler alive req m s)
unfolding grant_handler
grant_handler-Awaits alive req m s w = elim (Bool-cases (alive req.id)) [
  | inr p ↦ rw p w
  | inl p ↦ elim w [
    | inl n ↦ rw p (inl n)
    | inr (j, l) ↦ elim (eq_cases m j) [
      | inl q ↦
          rw p
            (inr (j, rw (lookup-insert m j (in_flight_of m s + 1) s.in_flight, q.1) (omega arith)))
      | inr q ↦ rw p (inr (j, rw (lookup-insert m j (in_flight_of m s + 1) s.in_flight, q.1) l))
    ]
  ]
]

abbrev pub WaitsOn : Router → Router × Bool → Type 0
WaitsOn s r = (Awaits s → Awaits r.0) × (r.1 ≡ true → Awaits r.0)

drain_one-WaitsOn :
    (eviction_for : Planner) (alive : Alive) (req : Request) (s : Router)
    → WaitsOn s (drain_one eviction_for alive req s)
unfolding grant join_swap start_swap
drain_one-WaitsOn eviction_for alive req s =
    drain_one_cases (WaitsOn s) alive req s eviction_for (λ w. w, λ (e : false ≡ true). cc)
      (λ swap q. (λ w. inl (insert_not_empty _ _ s.active), λ (e : false ≡ true). cc))
      (λ evict c q. (grant_handler-Awaits alive req req.model s, λ (e : false ≡ true). cc))
      (λ evict b. (λ w. w, λ e. Blocked-Awaits req.model evict s b))
      (λ evict f q. (λ w. inl (insert_not_empty _ _ s.active), λ (e : false ≡ true). cc))

drain_from-Quiet :
    (eviction_for : Planner) (alive : Alive) (remaining pending : List Request) (s : Router)
    → (remaining ≡ []) ⊎ Awaits s
    → Quiet (drain_from eviction_for alive remaining pending s)
unfolding drain_from
drain_from-Quiet eviction_for alive remaining [] s h = h
drain_from-Quiet eviction_for alive remaining (req ∷ pending) s h =
    let r = drain_one eviction_for alive req s in
    let (on, stays) = drain_one-WaitsOn eviction_for alive req s in
    drain_from-Quiet eviction_for alive (if r.1 then remaining ++ req ∷ [] else remaining) pending
      r.0
      (elim (Bool-cases r.1) [
        | inl p ↦ inr (stays p)
        | inr p ↦ elim h [ inl e ↦ rw p (inl e) | inr w ↦ inr (on w) ]
      ])

drain_list-Quiet :
    (eviction_for : Planner) (alive : Alive) (q : List Request) (s : Router)
    → s.queued ≡ q
    → Quiet (drain_list eviction_for alive q s)
unfolding drain_list
drain_list-Quiet eviction_for alive [] s e = inl e
drain_list-Quiet eviction_for alive (req ∷ pending) s e =
    drain_from-Quiet eviction_for alive [] (req ∷ pending) s (inl refl)

drain_queue-Quiet :
    (eviction_for : Planner) (alive : Alive) (s : Router) → Quiet (drain_queue eviction_for alive s)
unfolding drain_queue
drain_queue-Quiet eviction_for alive s = drain_list-Quiet eviction_for alive s.queued s refl

handle_request-Quiet :
    (eviction_for : Planner) (alive : Alive) (now : ℕ) (req : Request) (s : Router)
    → Quiet s
    → Quiet (handle_request eviction_for alive now req s)
unfolding grant join_swap start_swap enqueue
handle_request-Quiet eviction_for alive now req s h =
    handle_request_cases Quiet alive now req s eviction_for h h
      (λ swap q. inr (inl (insert_not_empty _ _ s.active)))
      (λ evict c q l. elim h [
        | inl e ↦ rw (grant_handler-queued alive req req.model s) (inl e)
        | inr w ↦ inr (grant_handler-Awaits alive req req.model s w)
      ])
      (λ evict b. inr (Blocked-Awaits req.model evict s b))
      (λ evict f q. inr (inl (insert_not_empty _ _ s.active)))

handle_swap_done-Quiet :
    (eviction_for : Planner) (alive : Alive) (m : String) (ok : Bool) (s : Router)
    → Quiet s
    → Quiet (handle_swap_done eviction_for alive m ok s)
unfolding handle_swap_done
handle_swap_done-Quiet eviction_for alive m ok s h = elim (Option-cases (lookup m s.active)) [
  | inl p ↦ rw (handle_swap_done, p) h
  | inr (swap, p) ↦ rw (handle_swap_done, p) (drain_queue-Quiet eviction_for alive _)
]

handle_serve_done-Quiet :
    (eviction_for : Planner) (alive : Alive) (m : String) (s : Router)
    → Quiet s
    → Quiet (handle_serve_done eviction_for alive m s)
unfolding handle_serve_done
handle_serve_done-Quiet eviction_for alive m s h = elim (Bool-cases ((in_flight_of m s - 1) == 0)) [
  | inl p ↦ rw p (drain_queue-Quiet eviction_for alive _)
  | inr p ↦ rw p (
      inr (
        inr (
          m,
          rw (lookup-insert m m (in_flight_of m s - 1) s.in_flight, =?_self m) (ground (arith, p)),
        )))
]

expire_from-Quiet :
    (alive : Alive) (now timeout : ℕ) (remaining pending : List Request) (s : Router)
    → Awaits s
    → Quiet (expire_from alive now timeout remaining pending s)
unfolding expire_from grant
expire_from-Quiet alive now timeout remaining [] s w = inr w
expire_from-Quiet alive now timeout remaining (req ∷ pending) s w =
    elim (Bool-cases (ltb (now - req.queued_at) timeout)) [
      | inl p ↦
          rw (expire_from, p)
            (expire_from-Quiet alive now timeout (remaining ++ req ∷ []) pending s w)
      | inr p ↦
          rw (expire_from, p)
            (expire_from-Quiet alive now timeout remaining pending (grant alive req queue_timeout s)
              w)
    ]

expire_list-Quiet :
    (alive : Alive) (now timeout : ℕ) (q : List Request) (s : Router)
    → s.queued ≡ q
    → Quiet s
    → Quiet (expire_list alive now timeout q s)
unfolding expire_list
expire_list-Quiet alive now timeout [] s e h = h
expire_list-Quiet alive now timeout (req ∷ pending) s e (inl e') = cc
expire_list-Quiet alive now timeout (req ∷ pending) s e (inr w) =
    expire_from-Quiet alive now timeout [] (req ∷ pending) s w

expire_stale_queued-Quiet :
    (alive : Alive) (now timeout : ℕ) (s : Router)
    → Quiet s
    → Quiet (expire_stale_queued alive now timeout s)
unfolding expire_stale_queued
expire_stale_queued-Quiet alive now timeout s h = elim (Bool-cases (timeout == 0)) [
  | inl p ↦ rw p h
  | inr p ↦ rw p (expire_list-Quiet alive now timeout s.queued s refl h)
]

step-Quiet :
    (eviction_for : Planner) (alive : Alive) (e : Event) (s : Router)
    → Quiet s
    → Quiet (step eviction_for alive e s)
unfolding step handle_unload
step-Quiet eviction_for alive (requests now req) s h =
    handle_request-Quiet eviction_for alive now req s h
step-Quiet eviction_for alive (swap_done m ok) s h =
    handle_swap_done-Quiet eviction_for alive m ok s h
step-Quiet eviction_for alive (serve_done m) s h = handle_serve_done-Quiet eviction_for alive m s h
step-Quiet eviction_for alive (ticks now timeout) s h =
    expire_stale_queued-Quiet alive now timeout s h
step-Quiet eviction_for alive (unloads targets ps) s h = drain_queue-Quiet eviction_for alive _
step-Quiet eviction_for alive (observes ps) s h = h

run_from-Quiet :
    (eviction_for : Planner) (es : List (Alive × Event)) (s : Router)
    → Quiet s
    → Quiet (run eviction_for es s)
unfolding run
run_from-Quiet eviction_for [] s h = h
run_from-Quiet eviction_for ((alive, e) ∷ es) s h =
    run_from-Quiet eviction_for es (step eviction_for alive e s)
      (step-Quiet eviction_for alive e s h)

-- Whatever the planner, the callers and the events: when a request is in the queue, a swap is active
-- or a model has a request in flight.
pub run-Quiet :
    (eviction_for : Planner) (es : List (Alive × Event)) (processes : List (String × ProcessState))
    (limits : List (String × ℕ))
    → Quiet (run eviction_for es (init processes limits))
unfolding init
run-Quiet eviction_for es processes limits =
    run_from-Quiet eviction_for es (init processes limits) (inl refl)
