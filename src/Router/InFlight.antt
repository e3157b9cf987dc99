-- ===== src/Router/InFlight.antt =====
-- The in-flight counts of internal/router/base.go, against the handlers granted and finished.
use llama_skein.Base.{
  ℕ, ◌+◌, ◌-◌, ◌≤◌, ◌≡◌, String, true, List, [], ◌∷◌, ◌==◌, if◌then◌else◌, arith, inl, inr,
  Bool-cases, subst, ==_iff,
}
use llama_skein.Base.Maps.{lookup, delete, string_eq, ◌=?◌, lookup-insert, lookup-delete, eq_cases}
use llama_skein.Router.{
  Request, Router, ProcessState, Alive, Planner, Refusal, Event, requests, swap_done, serve_done,
  ticks, unloads, observes, Answer, served, refused, gone, grant, grant_handler, start_swap,
  join_swap, handle_serve_done, step, run, init, in_flight_of,
}
use llama_skein.Router.Stable.{
  Stable, drain_queue-P, handle_request-P, handle_swap_done-P, expire_stale_queued-P,
  handle_unload-P,
}

-- The answers that handed out a handler of the model.
unfoldable pub granted : String → List (ℕ × Answer) → ℕ
granted m [] = 0
granted m ((_, served k) ∷ rest) = (if k =? m then 1 else 0) + granted m rest
granted m ((_, refused _) ∷ rest) = granted m rest
granted m ((_, gone) ∷ rest) = granted m rest

-- A handler of the model has returned.
abbrev pub finishes : String → Event → ℕ
finishes m (serve_done k) = if k =? m then 1 else 0
finishes m _ = 0

unfoldable pub finished : String → List (Alive × Event) → ℕ
finished m [] = 0
finished m ((_, e) ∷ es) = finishes m e + finished m es

-- The count is right when `n` handlers have returned.
abbrev pub Counted : String → ℕ → Router → Type 0
Counted m n s =
    (granted m s.answers ≤ in_flight_of m s + n) × (in_flight_of m s ≤ granted m s.answers)

grant_handler-Counted :
    (m : String) (n : ℕ) (alive : Alive) (req : Request) (k : String) (s : Router)
    → Counted m n s
    → Counted m n (grant_handler alive req k s)
unfolding grant_handler granted
grant_handler-Counted m n alive req k s h = elim (Bool-cases (alive req.id)) [
  | inr p ↦ rw p h
  | inl p ↦ elim (eq_cases k m) [
    | inl q ↦
        rw (p, lookup-insert k m (in_flight_of k s + 1) s.in_flight, q.1, q.0)
          (omega (arith, h), omega (arith, h))
    | inr q ↦
        rw (p, lookup-insert k m (in_flight_of k s + 1) s.in_flight, q.1)
          (omega (arith, h), omega (arith, h))
  ]
]

grant-Counted :
    (m : String) (n : ℕ) (alive : Alive) (req : Request) (r : Refusal) (s : Router)
    → Counted m n s
    → Counted m n (grant alive req r s)
unfolding grant granted
grant-Counted m n alive req r s h = elim (Bool-cases (alive req.id)) [
  | inl p ↦ rw p h
  | inr p ↦ rw p h
]

Counted-Stable : (m : String) (n : ℕ) → Stable (Counted m n) (λ _ _. Unit)
unfolding start_swap join_swap
Counted-Stable m n = record {
  grants = grant-Counted m n;
  serves = λ alive req k s _ h. grant_handler-Counted m n alive req k s h;
  frees = λ _ _ _ _ _. tt;
  serves_on = λ _ _ _ _ _. tt;
  joins = λ _ _ _ _ h. h;
  starts = λ _ _ _ _ _ h. h;
  removes = λ _ _ _ _ h. h;
  ends = λ _ _ _ _ _. tt;
  requeues = λ _ _ _ h. h;
  observes = λ _ _ h. h;
}

handle_serve_done-Counted :
    (eviction_for : Planner) (m : String) (n : ℕ) (alive : Alive) (k : String) (s : Router)
    → Counted m n s
    → Counted m ((if k =? m then 1 else 0) + n) (handle_serve_done eviction_for alive k s)
unfolding handle_serve_done
handle_serve_done-Counted eviction_for m n alive k s h =
    elim (Bool-cases ((in_flight_of k s - 1) == 0)) [
      | inl p ↦ rw p (
          drain_queue-P (Counted-Stable m ((if k =? m then 1 else 0) + n)) eviction_for alive
            (record s { in_flight = delete k s.in_flight }) (lowered p))
      | inr p ↦ elim (eq_cases k m) [
        | inl q ↦
            rw (p, lookup-insert k m (in_flight_of k s - 1) s.in_flight, q.1, q.0)
              (omega (arith, h), omega (arith, h))
        | inr q ↦
            rw (p, lookup-insert k m (in_flight_of k s - 1) s.in_flight, q.1)
              (omega (arith, h), omega (arith, h))
      ]
    ]
  where
    lowered :
        ((in_flight_of k s - 1) == 0) ≡ true
        → Counted m ((if k =? m then 1 else 0) + n) (record s { in_flight = delete k s.in_flight })
    lowered p = elim (eq_cases k m) [
      | inl q ↦
          let p' =
            (==_iff (in_flight_of m s - 1) 0).0
              (subst (λ x. ((in_flight_of x s - 1) == 0) ≡ true) q.0 p) in
          rw (lookup-delete k m s.in_flight, q.1) (omega (arith, h, p'), omega (arith, h))
      | inr q ↦ rw (lookup-delete k m s.in_flight, q.1) (omega (arith, h), omega (arith, h))
    ]

Counted-on : (m : String) (n : ℕ) (s : Router) → Counted m n s → Counted m (0 + n) s
Counted-on m n s h = (omega (arith, h.0), h.1)

step-Counted :
    (eviction_for : Planner) (m : String) (n : ℕ) (alive : Alive) (e : Event) (s : Router)
    → Counted m n s
    → Counted m (finishes m e + n) (step eviction_for alive e s)
unfolding step
step-Counted eviction_for m n alive (requests now req) s h =
    Counted-on m n (step eviction_for alive (requests now req) s)
      (handle_request-P (Counted-Stable m n) eviction_for alive now req s h)
step-Counted eviction_for m n alive (swap_done k ok) s h =
    Counted-on m n (step eviction_for alive (swap_done k ok) s)
      (handle_swap_done-P (Counted-Stable m n) eviction_for alive k ok s h)
step-Counted eviction_for m n alive (serve_done k) s h =
    handle_serve_done-Counted eviction_for m n alive k s h
step-Counted eviction_for m n alive (ticks now timeout) s h =
    Counted-on m n (step eviction_for alive (ticks now timeout) s)
      (expire_stale_queued-P (Counted-Stable m n) alive now timeout s h)
step-Counted eviction_for m n alive (unloads targets ps) s h =
    Counted-on m n (step eviction_for alive (unloads targets ps) s)
      (handle_unload-P (Counted-Stable m n) eviction_for alive targets ps s h)
step-Counted eviction_for m n alive (observes ps) s h =
    Counted-on m n (record s { processes = ps }) h

run-Counted_from :
    (eviction_for : Planner) (m : String) (n : ℕ) (es : List (Alive × Event)) (s : Router)
    → Counted m n s
    → Counted m (finished m es + n) (run eviction_for es s)
unfolding run finished
run-Counted_from eviction_for m n [] s h = Counted-on m n s h
run-Counted_from eviction_for m n ((alive, e) ∷ es) s h =
    let (lo, hi) =
      run-Counted_from eviction_for m (finishes m e + n) es (step eviction_for alive e s)
        (step-Counted eviction_for m n alive e s h) in
    (omega (arith, lo), hi)

-- Whatever the planner, the callers and the events: the in-flight count of a model is never below the
-- handlers granted for it less those that have returned, and never above the handlers granted. A model
-- whose count is 0 has no request running.
pub run-in_flight :
    (eviction_for : Planner) (m : String) (es : List (Alive × Event))
    (processes : List (String × ProcessState)) (limits : List (String × ℕ))
    → (granted m (run eviction_for es (init processes limits)).answers
        ≤ in_flight_of m (run eviction_for es (init processes limits)) + finished m es)
      × (in_flight_of m (run eviction_for es (init processes limits))
          ≤ granted m (run eviction_for es (init processes limits)).answers)
unfolding init granted lookup
run-in_flight eviction_for m es processes limits =
    let (lo, hi) =
      run-Counted_from eviction_for m 0 es (init processes limits) (omega arith, omega arith) in
    (omega (arith, lo), hi)
