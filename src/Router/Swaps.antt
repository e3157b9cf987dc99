-- ===== src/Router/Swaps.antt =====
-- The swaps that internal/router/base.go runs side by side do not get in each other's way, nor in the
-- way of a request that is being served.
use llama_skein.Base.{
  ℕ, ◌-◌, ◌≡◌, ◌≢◌, refl, sym, String, true, false, none, some, List, [], ◌∷◌, ◌==◌, arith, inl,
  inr, Bool-cases, subst,
}
use llama_skein.Base.Maps.{
  lookup, delete, contains, string_eq, lookup-insert, lookup-delete, eq_cases,
}
use llama_skein.Router.{
  ActiveSwap, Router, ProcessState, Alive, Planner, Event, requests, swap_done, serve_done, ticks,
  unloads, observes, grant, handle_serve_done, step, run, init, in_flight_of,
}
use llama_skein.Router.Stable.{
  Stable, drain_queue-P, handle_request-P, handle_swap_done-P, expire_stale_queued-P,
  handle_unload-P,
}
use llama_skein.Router.Compatible.{
  Safe, Unevicted, frees-Unevicted, grant_handler-Safe, grant_handler-Unevicted, start_swap-Safe,
  join_swap-Safe,
}

lookup_before_delete :
    (m k : String) (a : List (String × ActiveSwap)) (x : ActiveSwap)
    → lookup k (delete m a) ≡ some x
    → (m ≢ k) × (lookup k a ≡ some x)
lookup_before_delete m k a x h = elim (eq_cases m k) [
  | inl p ↦ let h' : none ≡ some x = rw (lookup-delete m k a, p.1) at h in cc
  | inr p ↦ (p.0, rw (lookup-delete m k a, p.1) at h)
]

remove-Safe : (m : String) (s : Router) → Safe s → Safe (record s { active = delete m s.active })
remove-Safe m s (c, i) = (
  λ k j x y h1 h2 n.
      c k j x y (lookup_before_delete m k s.active x h1).1
        (lookup_before_delete m j s.active y h2).1 n,
  λ k j x h e. i k j x (lookup_before_delete m k s.active x h).1 e,
)

Safe-Stable : Stable Safe Unevicted
unfolding grant
Safe-Stable = record {
  grants = λ alive req r s h. h;
  serves = grant_handler-Safe;
  frees = frees-Unevicted;
  serves_on = grant_handler-Unevicted;
  joins = join_swap-Safe;
  starts = start_swap-Safe;
  removes =
      λ m a s e h. subst (λ z. Safe (record s { active = delete m z })) (sym e) (remove-Safe m s h);
  ends = λ m swap s q h k x l.
      let (n, l') = lookup_before_delete m k s.active x l in h.0 k m x swap l' q (λ e. n (sym e));
  requeues = λ _ _ _ h. h;
  observes = λ _ _ h. h;
}

handle_serve_done-Safe :
    (eviction_for : Planner) (alive : Alive) (m : String) (s : Router)
    → Safe s
    → Safe (handle_serve_done eviction_for alive m s)
unfolding handle_serve_done
handle_serve_done-Safe eviction_for alive m s (c, i) =
    elim (Bool-cases ((in_flight_of m s - 1) == 0)) [
      | inl p ↦ rw p (
          drain_queue-P Safe-Stable eviction_for alive
            (record s { in_flight = delete m s.in_flight })
            (
              c,
              λ k j x h e. elim (eq_cases m j) [
                | inl q ↦ rw (lookup-delete m j s.in_flight, q.1) refl
                | inr q ↦ rw (lookup-delete m j s.in_flight, q.1) (i k j x h e)
              ],
            ))
      | inr p ↦ rw p (
        c,
        λ k j x h e. elim (eq_cases m j) [
          | inl q ↦
              let z = subst (λ y. in_flight_of y s ≡ 0) (sym q.0) (i k j x h e) in
              absurd (ground (arith, p, z))
          | inr q ↦ rw (lookup-insert m j (in_flight_of m s - 1) s.in_flight, q.1) (i k j x h e)
        ],
      )
    ]

step-Safe :
    (eviction_for : Planner) (alive : Alive) (e : Event) (s : Router)
    → Safe s
    → Safe (step eviction_for alive e s)
unfolding step
step-Safe eviction_for alive (requests now req) s h =
    handle_request-P Safe-Stable eviction_for alive now req s h
step-Safe eviction_for alive (swap_done m ok) s h =
    handle_swap_done-P Safe-Stable eviction_for alive m ok s h
step-Safe eviction_for alive (serve_done m) s h = handle_serve_done-Safe eviction_for alive m s h
step-Safe eviction_for alive (ticks now timeout) s h =
    expire_stale_queued-P Safe-Stable alive now timeout s h
step-Safe eviction_for alive (unloads targets ps) s h =
    handle_unload-P Safe-Stable eviction_for alive targets ps s h
step-Safe eviction_for alive (observes ps) s h = h

run_from-Safe :
    (eviction_for : Planner) (es : List (Alive × Event)) (s : Router)
    → Safe s
    → Safe (run eviction_for es s)
unfolding run
run_from-Safe eviction_for [] s h = h
run_from-Safe eviction_for ((alive, e) ∷ es) s h =
    run_from-Safe eviction_for es (step eviction_for alive e s) (step-Safe eviction_for alive e s h)

run-Safe :
    (eviction_for : Planner) (es : List (Alive × Event)) (processes : List (String × ProcessState))
    (limits : List (String × ℕ))
    → Safe (run eviction_for es (init processes limits))
unfolding init lookup
run-Safe eviction_for es processes limits =
    run_from-Safe eviction_for es (init processes limits) (λ k j x y h. cc, λ k m x h. cc)

-- Whatever the planner, the callers and the events: of two active swaps to different models, neither
-- stops the model that the other one loads.
pub run-contains_evict :
    (eviction_for : Planner) (es : List (Alive × Event)) (processes : List (String × ProcessState))
    (limits : List (String × ℕ)) (k j : String) (x y : ActiveSwap)
    → lookup k (run eviction_for es (init processes limits)).active ≡ some x
    → lookup j (run eviction_for es (init processes limits)).active ≡ some y
    → k ≢ j
    → (contains x.evict j ≡ false) × (contains y.evict k ≡ false)
run-contains_evict eviction_for es processes limits k j x y h1 h2 n =
    let (compatible, _) = run-Safe eviction_for es processes limits in
    (compatible k j x y h1 h2 n, compatible j k y x h2 h1 (λ e. n (sym e)))

-- Whatever the planner, the callers and the events: no request is in flight on a model that an active
-- swap stops.
pub run-in_flight_of :
    (eviction_for : Planner) (es : List (Alive × Event)) (processes : List (String × ProcessState))
    (limits : List (String × ℕ)) (k m : String) (x : ActiveSwap)
    → lookup k (run eviction_for es (init processes limits)).active ≡ some x
    → contains x.evict m ≡ true
    → in_flight_of m (run eviction_for es (init processes limits)) ≡ 0
run-in_flight_of eviction_for es processes limits k m x h e =
    (run-Safe eviction_for es processes limits).1 k m x h e
