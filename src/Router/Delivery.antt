-- ===== src/Router/Delivery.antt =====
-- No request is lost or answered twice by the run loop of internal/router/base.go.
use llama_skein.Base.{ℕ, ◌+◌, ◌≡◌, String, List, [], ◌∷◌, arith}
use llama_skein.Base.Maps.{Distinct, string_eq}
use llama_skein.Router.{
  Router, ProcessState, Alive, Planner, Event, requests, swap_done, serve_done, ticks, unloads,
  observes, step, run, init,
}
use llama_skein.Router.Counts.{hit, count, waiting, answered}
use llama_skein.Router.Conservation.{
  Gains, handle_request-Gains, handle_swap_done-Gains, handle_serve_done-Gains,
}
use llama_skein.Router.Departures.{expire_stale_queued-Gains, handle_unload-Gains}

-- How often the request arrives.
abbrev pub arrives : ℕ → Event → ℕ
arrives id (requests now req) = hit id req.id
arrives id _ = 0

unfoldable pub arrivals : ℕ → List (Alive × Event) → ℕ
arrivals id [] = 0
arrivals id ((_, e) ∷ es) = arrives id e + arrivals id es

step-Gains :
    (eviction_for : Planner) (id : ℕ) (alive : Alive) (e : Event) (s : Router)
    → Distinct s.active
    → Gains id (arrives id e) s (step eviction_for alive e s)
unfolding step
step-Gains eviction_for id alive (requests now req) s d =
    handle_request-Gains eviction_for id alive now req s d
step-Gains eviction_for id alive (swap_done m ok) s d =
    handle_swap_done-Gains eviction_for id alive m ok s d
step-Gains eviction_for id alive (serve_done m) s d =
    handle_serve_done-Gains eviction_for id alive m s d
step-Gains eviction_for id alive (ticks now timeout) s d =
    expire_stale_queued-Gains id alive now timeout s d
step-Gains eviction_for id alive (unloads targets processes) s d =
    handle_unload-Gains eviction_for id alive targets processes s d
step-Gains eviction_for id alive (observes processes) s d = (omega arith, d)

run-Gains :
    (eviction_for : Planner) (id : ℕ) (es : List (Alive × Event)) (s : Router)
    → Distinct s.active
    → Gains id (arrivals id es) s (run eviction_for es s)
unfolding run arrivals
run-Gains eviction_for id [] s d = (omega arith, d)
run-Gains eviction_for id ((alive, e) ∷ es) s d =
    let (f, d') = step-Gains eviction_for id alive e s d in
    let (g, d'') = run-Gains eviction_for id es (step eviction_for alive e s) d' in
    (omega (arith, f, g), d'')

-- Whatever the planner, the callers and the events: a request stands in the queue, among the waiters
-- of the active swaps and in the answers exactly as often as it arrived, all three taken together. A
-- request that arrived once is therefore never lost, never answered twice, and never answered while
-- it still waits.
pub run-tally :
    (eviction_for : Planner) (id : ℕ) (es : List (Alive × Event))
    (processes : List (String × ProcessState)) (limits : List (String × ℕ))
    → count id (run eviction_for es (init processes limits)).queued
        + waiting id (run eviction_for es (init processes limits)).active
        + answered id (run eviction_for es (init processes limits)).answers
      ≡ arrivals id es
unfolding init count waiting answered
run-tally eviction_for id es processes limits =
    let (e, _) = run-Gains eviction_for id es (init processes limits) tt in omega (arith, e)
