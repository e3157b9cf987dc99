-- ===== src/Router/Conservation.antt =====
-- No request is lost or answered twice by the run loop of internal/router/base.go.
use llama_skein.Base.{
  ℕ, ◌+◌, ◌-◌, ◌≡◌, refl, ap, ◌∙◌, String, Bool, true, false, none, some, List, [], ◌∷◌, ◌++◌, ◌==◌,
  if◌then◌else◌, arith, inl, inr, Bool-cases, Option-cases,
}
use llama_skein.Base.Maps.{lookup, delete, Distinct, string_eq}
use llama_skein.Router.{
  Request, ActiveSwap, Router, Alive, Planner, Refusal, grant, grant_handler, start_swap, join_swap,
  enqueue, handle_request, drain_one, drain_from, drain_list, drain_queue, fan_out,
  handle_swap_done, handle_serve_done, session_cap, in_flight_of, no_local_model, load_failed,
}
use llama_skein.Router.Cases.{
  drain_one_cases, handle_request_cases, grant_handler-active, grant_handler-queued, grant-queued,
  grant-active,
}
use llama_skein.Router.Counts.{
  hit, count, waiting, answered, count-append, count_one, waiting-insert_new, waiting-insert_old,
  waiting-delete, Distinct-insert, Distinct-delete,
}

-- A request outside the queue: it waits for a swap, or has been answered.
abbrev pub settled : ℕ → Router → ℕ
settled id s = waiting id s.active + answered id s.answers

-- Where a request is, all told.
abbrev pub tally : ℕ → Router → ℕ
tally id s = count id s.queued + settled id s

pub settled-grant :
    (id : ℕ) (alive : Alive) (req : Request) (r : Refusal) (s : Router)
    → settled id (grant alive req r s) ≡ hit id req.id + settled id s
unfolding grant answered
settled-grant id alive req r s = omega arith

settled-grant_handler :
    (id : ℕ) (alive : Alive) (req : Request) (m : String) (s : Router)
    → settled id (grant_handler alive req m s) ≡ hit id req.id + settled id s
unfolding grant_handler answered
settled-grant_handler id alive req m s = ground arith

settled-start_swap :
    (id : ℕ) (req : Request) (evict : List String) (s : Router)
    → lookup req.model s.active ≡ none
    → settled id (start_swap req evict s) ≡ hit id req.id + settled id s
unfolding start_swap
settled-start_swap id req evict s h = omega (
  arith,
  waiting-insert_new id req.model (record { evict = evict; waiters = req ∷ [] }) s.active h,
  count_one id req,
)

settled-join_swap :
    (id : ℕ) (req : Request) (swap : ActiveSwap) (s : Router)
    → lookup req.model s.active ≡ some swap
    → settled id (join_swap req swap s) ≡ hit id req.id + settled id s
unfolding join_swap
settled-join_swap id req swap s h = omega (
  arith,
  waiting-insert_old id req.model (record swap { waiters = swap.waiters ++ req ∷ [] }) swap s.active
      h,
  count-append id swap.waiters (req ∷ []),
  count_one id req,
)

abbrev pub stays_hit : ℕ → Request → Router × Bool → ℕ
stays_hit id req (s, true) = hit id req.id
stays_hit id req (s, false) = 0

-- The swaps stay one to a model, and the request is where the tally has it.
abbrev pub DrainedOne : ℕ → Request → Router → Router × Bool → Type 0
DrainedOne id req s r =
    (settled id r.0 + stays_hit id req r ≡ hit id req.id + settled id s) × Distinct r.0.active

drain_one-DrainedOne :
    (eviction_for : Planner) (id : ℕ) (alive : Alive) (req : Request) (s : Router)
    → Distinct s.active
    → DrainedOne id req s (drain_one eviction_for alive req s)
unfolding grant start_swap join_swap
drain_one-DrainedOne eviction_for id alive req s d =
    drain_one_cases (DrainedOne id req s) alive req s eviction_for
      (omega (arith, settled-grant id alive req no_local_model s), d)
      (λ swap q. (omega (arith, settled-join_swap id req swap s q), Distinct-insert _ _ s.active d))
      (λ evict c q. (
        omega (arith, settled-grant_handler id alive req req.model s),
        rw (grant_handler-active alive req req.model s) d,
      ))
      (λ evict b. (omega arith, d))
      (λ evict f q.
        (omega (arith, settled-start_swap id req evict s q), Distinct-insert _ _ s.active d))

-- A state that holds `n` requests more, and its swaps one to a model.
abbrev pub Gains : ℕ → ℕ → Router → Router → Type 0
Gains id n s s' = (tally id s' ≡ n + tally id s) × Distinct s'.active

count_stays :
    (id : ℕ) (req : Request) (remaining : List Request) (r : Router × Bool)
    → count id (if r.1 then remaining ++ req ∷ [] else remaining)
      ≡ count id remaining + stays_hit id req r
count_stays id req remaining (s, true) =
    omega (arith, count-append id remaining (req ∷ []), count_one id req)
count_stays id req remaining (s, false) = omega arith

drain_from-Gains :
    (eviction_for : Planner) (id : ℕ) (alive : Alive) (remaining pending : List Request)
    (s : Router)
    → Distinct s.active
    → (tally id (drain_from eviction_for alive remaining pending s)
        ≡ count id remaining + count id pending + settled id s)
      × Distinct (drain_from eviction_for alive remaining pending s).active
unfolding drain_from count
drain_from-Gains eviction_for id alive remaining [] s d = (omega arith, d)
drain_from-Gains eviction_for id alive remaining (req ∷ pending) s d =
    let r = drain_one eviction_for alive req s in
    let one = drain_one-DrainedOne eviction_for id alive req s d in
    let rest =
      drain_from-Gains eviction_for id alive (if r.1 then remaining ++ req ∷ [] else remaining)
        pending r.0 one.1 in
    (omega (arith, count_stays id req remaining r, one.0, rest.0), rest.1)

drain_list-Gains :
    (eviction_for : Planner) (id : ℕ) (alive : Alive) (q : List Request) (s : Router)
    → s.queued ≡ q
    → Distinct s.active
    → (tally id (drain_list eviction_for alive q s) ≡ count id q + settled id s)
      × Distinct (drain_list eviction_for alive q s).active
unfolding drain_list count
drain_list-Gains eviction_for id alive [] s e d = (omega (arith, ap (count id) e), d)
drain_list-Gains eviction_for id alive (req ∷ pending) s e d =
    let (f, d') = drain_from-Gains eviction_for id alive [] (req ∷ pending) s d in
    (omega (arith, f), d')

pub drain_queue-Gains :
    (eviction_for : Planner) (id : ℕ) (alive : Alive) (s : Router)
    → Distinct s.active
    → Gains id 0 s (drain_queue eviction_for alive s)
unfolding drain_queue
drain_queue-Gains eviction_for id alive s d =
    let (e, d') = drain_list-Gains eviction_for id alive s.queued s refl d in (omega (arith, e), d')

fan_out-Gains :
    (id : ℕ) (alive : Alive) (ok : Bool) (m : String) (ws : List Request) (s : Router)
    → tally id (fan_out alive ok m ws s) ≡ count id ws + tally id s
unfolding fan_out count
fan_out-Gains id alive ok m [] s = omega arith
fan_out-Gains id alive true m (w ∷ ws) s = omega (
  arith,
  fan_out-Gains id alive true m ws (grant_handler alive w m s),
  settled-grant_handler id alive w m s,
  ap (count id) (grant_handler-queued alive w m s),
)
fan_out-Gains id alive false m (w ∷ ws) s = omega (
  arith,
  fan_out-Gains id alive false m ws (grant alive w load_failed s),
  settled-grant id alive w load_failed s,
  ap (count id) (grant-queued alive w load_failed s),
)

-- The swaps stay one to a model when the handlers of the waiters are granted.
fan_out-active :
    (alive : Alive) (ok : Bool) (m : String) (ws : List Request) (s : Router)
    → (fan_out alive ok m ws s).active ≡ s.active
unfolding fan_out
fan_out-active alive ok m [] s = refl
fan_out-active alive true m (w ∷ ws) s =
    fan_out-active alive true m ws _ ∙ grant_handler-active alive w m s
fan_out-active alive false m (w ∷ ws) s =
    fan_out-active alive false m ws _ ∙ grant-active alive w load_failed s

pub handle_swap_done-Gains :
    (eviction_for : Planner) (id : ℕ) (alive : Alive) (m : String) (ok : Bool) (s : Router)
    → Distinct s.active
    → Gains id 0 s (handle_swap_done eviction_for alive m ok s)
unfolding handle_swap_done
handle_swap_done-Gains eviction_for id alive m ok s d = elim (Option-cases (lookup m s.active)) [
  | inl p ↦ rw (handle_swap_done, p) (omega arith, d)
  | inr (swap, p) ↦
      let s' = record s { active = delete m s.active } in
      let f = fan_out alive ok m swap.waiters s' in
      let d' : Distinct f.active =
        rw (fan_out-active alive ok m swap.waiters s') (Distinct-delete m s.active d) in
      let (e, d'') = drain_queue-Gains eviction_for id alive f d' in
      rw (handle_swap_done, p)
        (
          omega (
            arith,
            e,
            fan_out-Gains id alive ok m swap.waiters s',
            waiting-delete id m swap s.active p d,
          ),
          d'',
        )
]

pub handle_serve_done-Gains :
    (eviction_for : Planner) (id : ℕ) (alive : Alive) (m : String) (s : Router)
    → Distinct s.active
    → Gains id 0 s (handle_serve_done eviction_for alive m s)
unfolding handle_serve_done
handle_serve_done-Gains eviction_for id alive m s d =
    elim (Bool-cases ((in_flight_of m s - 1) == 0)) [
      | inl p ↦ rw p (drain_queue-Gains eviction_for id alive _ d)
      | inr p ↦ rw p (omega arith, d)
    ]

pub handle_request-Gains :
    (eviction_for : Planner) (id : ℕ) (alive : Alive) (now : ℕ) (req : Request) (s : Router)
    → Distinct s.active
    → Gains id (hit id req.id) s (handle_request eviction_for alive now req s)
unfolding enqueue start_swap join_swap
handle_request-Gains eviction_for id alive now req s d =
    handle_request_cases (Gains id (hit id req.id) s) alive now req s eviction_for
      (granted no_local_model) (granted session_cap)
      (λ swap q. (omega (arith, settled-join_swap id req swap s q), Distinct-insert _ _ s.active d))
      (λ evict c q l. (
        omega (
          arith,
          settled-grant_handler id alive req req.model s,
          ap (count id) (grant_handler-queued alive req req.model s),
        ),
        rw (grant_handler-active alive req req.model s) d,
      ))
      (λ evict b. (
        omega (
          arith,
          count-append id s.queued (record req { queued_at = now } ∷ []),
          count_one id (record req { queued_at = now }),
        ),
        d,
      ))
      (λ evict f q.
        (omega (arith, settled-start_swap id req evict s q), Distinct-insert _ _ s.active d))
  where
    granted : (r : Refusal) → Gains id (hit id req.id) s (grant alive req r s)
    granted r = (
      omega (arith, settled-grant id alive req r s, ap (count id) (grant-queued alive req r s)),
      rw (grant-active alive req r s) d,
    )
