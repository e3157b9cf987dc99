-- ===== src/Router/Shutdown.antt =====
-- Nobody is left waiting when the run loop of internal/router/base.go shuts down.
use llama_skein.Base.{ℕ, ◌+◌, ◌≡◌, String, List, [], ◌∷◌, arith}
use llama_skein.Router.{
  Request, ActiveSwap, Router, ProcessState, Alive, Planner, Event, Refusal, grant, refuse_all,
  shut_swaps, handle_shutdown, run, init, shutting_down,
}
use llama_skein.Router.Counts.{count, waiting, answered}
use llama_skein.Router.Delivery.{arrivals, run-tally}

refuse_all-answered :
    (id : ℕ) (alive : Alive) (r : Refusal) (ws : List Request) (s : Router)
    → answered id (refuse_all alive r ws s).answers ≡ count id ws + answered id s.answers
unfolding refuse_all count grant answered
refuse_all-answered id alive r [] s = omega arith
refuse_all-answered id alive r (w ∷ ws) s =
    omega (arith, refuse_all-answered id alive r ws (grant alive w r s))

shut_swaps-answered :
    (id : ℕ) (alive : Alive) (a : List (String × ActiveSwap)) (s : Router)
    → answered id (shut_swaps alive a s).answers ≡ waiting id a + answered id s.answers
unfolding shut_swaps waiting
shut_swaps-answered id alive [] s = omega arith
shut_swaps-answered id alive ((m, swap) ∷ a) s = omega (
  arith,
  shut_swaps-answered id alive a (refuse_all alive shutting_down swap.waiters s),
  refuse_all-answered id alive shutting_down swap.waiters s,
)

-- Whatever happened before, once the loop has shut down a request has been answered as often as it
-- arrived: exactly once, if it arrived once. The requests in the queue and the waiters of the swaps
-- are answered by the shutdown.
pub handle_shutdown-answered :
    (eviction_for : Planner) (id : ℕ) (alive : Alive) (es : List (Alive × Event))
    (processes : List (String × ProcessState)) (limits : List (String × ℕ))
    → answered id (handle_shutdown alive (run eviction_for es (init processes limits))).answers
      ≡ arrivals id es
unfolding handle_shutdown
handle_shutdown-answered eviction_for id alive es processes limits =
    let s = run eviction_for es (init processes limits) in
    omega (
      arith,
      refuse_all-answered id alive shutting_down s.queued (shut_swaps alive s.active s),
      shut_swaps-answered id alive s.active s,
      run-tally eviction_for id es processes limits,
    )
