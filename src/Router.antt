-- ===== src/Router.antt =====
-- internal/router/base.go: the run loop that owns the swaps, the queue and the in-flight counts.
-- A handler takes the state of the loop and returns the next one; `eviction_for` is the planner.
pub mod Counts
pub mod Cases
pub mod Conservation
pub mod Departures
pub mod Delivery
pub mod Shutdown
pub mod Outcome
pub mod Stable
pub mod Compatible
pub mod Swaps
pub mod Wakeups
pub mod InFlight
pub mod Admission
pub mod Samples
use llama_skein.Base.{
  ℕ, zero, suc, ◌+◌, ◌-◌, String, Bool, true, false, not, ◌&&◌, Option, none, some, List, [], ◌∷◌,
  ◌++◌, ◌==◌, ltb, leb, if◌then◌else◌,
}
use llama_skein.Base.Maps.{lookup, insert, delete, contains, string_eq, nat_eq, ◌=?◌}

-- process.ProcessState
pub data ProcessState : Type 0 where
  stopped starting ready stopping shutdown failed : ProcessState

-- `handlerReq`. The identifier stands for the channels of the caller.
pub record Request : Type 0 where
  pub id : ℕ
  pub model : String
  pub queued_at : ℕ

pub data Refusal : Type 0 where
  no_local_model session_cap load_failed queue_timeout unloaded shutting_down : Refusal

-- What became of a request: its handler was granted, an error was sent, or the caller was gone.
pub data Answer : Type 0 where
  served : String → Answer
  refused : Refusal → Answer
  gone : Answer

-- `activeSwap`, under its model in the map `active`.
pub record ActiveSwap : Type 0 where
  pub evict : List String
  pub waiters : List Request

-- The variables of `run`, the snapshot of the processes' states, the configured limits, the
-- positions last sent to the queued callers, and the answers given so far, newest first.
pub record Router : Type 0 where
  pub processes : List (String × ProcessState)
  pub limits : List (String × ℕ)
  pub active : List (String × ActiveSwap)
  pub in_flight : List (String × ℕ)
  pub queued : List Request
  pub positions : List (ℕ × ℕ)
  pub answers : List (ℕ × Answer)

-- Which callers still receive when the loop sends to them.
abbrev pub Alive : Type 0
Alive = ℕ → Bool

-- `swapPlanner.EvictionFor`, given the snapshot of the processes.
abbrev pub Planner : Type 0
Planner = List (String × ProcessState) → String → List String → List String

abbrev pub count_or_zero : Option ℕ → ℕ
count_or_zero none = 0
count_or_zero (some n) = n

-- `inFlight[m]`
abbrev pub in_flight_of : String → Router → ℕ
in_flight_of m s = count_or_zero (lookup m s.in_flight)

-- `effectiveLimit`
unfoldable pub effective_limit : Option ℕ → ℕ
effective_limit none = 10
effective_limit (some zero) = 10
effective_limit (some (suc n)) = suc n

abbrev pub answer : ℕ → Answer → Router → Router
answer id a s = record s { answers = (id, a) ∷ s.answers }

-- `grant` of an error.
unfoldable pub grant : Alive → Request → Refusal → Router → Router
grant alive req r s = answer req.id (if alive req.id then refused r else gone) s

-- `grantHandler`: the count goes up only if the caller received the handler.
unfoldable pub grant_handler : Alive → Request → String → Router → Router
grant_handler alive req model s =
    if alive req.id
    then record (answer req.id (served model) s) {
      in_flight = insert model (in_flight_of model s + 1) s.in_flight;
    }
    else answer req.id gone s

-- `activeTargets`
unfoldable pub active_targets : List (String × ActiveSwap) → String → List String
active_targets [] exclude = []
active_targets ((id, _) ∷ rest) exclude =
    if id =? exclude then active_targets rest exclude else id ∷ active_targets rest exclude

-- `collidesWith`
unfoldable pub collides_with : String → List String → List (String × ActiveSwap) → Bool
collides_with target evict [] = false
collides_with target evict ((id, swap) ∷ rest) =
    let others = collides_with target evict rest in
    if id =? target
    then others
    else (if contains evict id then true else (if contains swap.evict target then true else others))

-- `conflictsWithInFlight`
unfoldable pub conflicts_with_in_flight : List String → Router → Bool
conflicts_with_in_flight [] s = false
conflicts_with_in_flight (m ∷ evict) s =
    if ltb 0 (in_flight_of m s) then true else conflicts_with_in_flight evict s

-- `startSwap`, and its entry in `active`.
unfoldable pub start_swap : Request → List String → Router → Router
start_swap req evict s = record s {
  active = insert req.model (record { evict = evict; waiters = req ∷ [] }) s.active;
}

-- The caller joins the waiters of a swap to its model.
unfoldable pub join_swap : Request → ActiveSwap → Router → Router
join_swap req swap s = record s {
  active = insert req.model (record swap { waiters = swap.waiters ++ req ∷ [] }) s.active;
}

unfoldable pub number_from : ℕ → List Request → List (ℕ × ℕ)
number_from n [] = []
number_from n (r ∷ rs) = (r.id, n) ∷ number_from (n + 1) rs

-- `broadcastQueuePositions`
abbrev pub broadcast : Router → Router
broadcast s = record s { positions = number_from 1 s.queued }

-- The request is parked at the end of the queue.
unfoldable pub enqueue : ℕ → Request → Router → Router
unfolding number_from
enqueue now req s =
    broadcast (record s { queued = s.queued ++ record req { queued_at = now } ∷ [] })

abbrev pub is_ready : ProcessState → Bool
is_ready ready = true
is_ready _ = false

abbrev pub is_empty : List String → Bool
is_empty [] = true
is_empty (_ ∷ _) = false

-- `p.State() == process.StateReady && len(evict) == 0 && !collidesWith(model, evict, active)`
unfoldable pub can_serve : ProcessState → String → List String → Router → Bool
can_serve st model evict s =
    is_ready st && is_empty evict && not (collides_with model evict s.active)

-- The rest of `handleRequest`, for a known model that no swap is loading.
unfoldable pub decide_request : Alive → ℕ → Request → ProcessState → List String → Router → Router
decide_request alive now req st evict s =
    if can_serve st req.model evict s
    then (if leb (effective_limit (lookup req.model s.limits)) (in_flight_of req.model s)
        then grant alive req session_cap s
        else grant_handler alive req req.model s)
    else (if collides_with req.model evict s.active
        then enqueue now req s
        else (if conflicts_with_in_flight evict s
            then enqueue now req s
            else start_swap req evict s))

-- The rest of the body of the loop of `drainQueue`: the state, and whether the request stays.
unfoldable pub decide_queued : Alive → Request → ProcessState → List String → Router → Router × Bool
decide_queued alive req st evict s =
    if can_serve st req.model evict s
    then (grant_handler alive req req.model s, false)
    else (if collides_with req.model evict s.active
        then (s, true)
        else (if conflicts_with_in_flight evict s
            then (s, true)
            else (start_swap req evict s, false)))

-- The loop of `handleSwapDone` over the waiters.
unfoldable pub fan_out : Alive → Bool → String → List Request → Router → Router
fan_out alive ok model [] s = s
fan_out alive ok model (w ∷ ws) s =
    fan_out alive ok model ws
      (if ok then grant_handler alive w model s else grant alive w load_failed s)

-- The loop of `expireStaleQueued`, with the list `remaining`.
unfoldable pub expire_from : Alive → ℕ → ℕ → List Request → List Request → Router → Router
expire_from alive now timeout remaining [] s = broadcast (record s { queued = remaining })
expire_from alive now timeout remaining (req ∷ pending) s =
    let fresh = ltb (now - req.queued_at) timeout in
    expire_from alive now timeout (if fresh then remaining ++ req ∷ [] else remaining) pending
      (if fresh then s else grant alive req queue_timeout s)

unfoldable pub expire_list : Alive → ℕ → ℕ → List Request → Router → Router
expire_list alive now timeout [] s = s
expire_list alive now timeout (req ∷ pending) s = expire_from alive now timeout [] (req ∷ pending) s

-- `expireStaleQueued`
unfoldable pub expire_stale_queued : Alive → ℕ → ℕ → Router → Router
unfolding expire_list
expire_stale_queued alive now timeout s =
    if timeout == 0 then s else expire_list alive now timeout s.queued s

unfoldable pub refuse_all : Alive → Refusal → List Request → Router → Router
refuse_all alive r [] s = s
refuse_all alive r (w ∷ ws) s = refuse_all alive r ws (grant alive w r s)

-- The first loop of `handleUnload`: the waiters of the targets' swaps.
unfoldable pub release_swaps : Alive → List String → Router → Router
unfolding refuse_all
release_swaps alive [] s = s
release_swaps alive (id ∷ targets) s = release_swaps alive targets (elim (lookup id s.active) [
  | none ↦ s
  | some swap ↦ record (refuse_all alive unloaded swap.waiters s) { active = delete id s.active }
])

-- The second loop of `handleUnload`: the queued requests for the targets.
unfoldable pub drop_queued : Alive → List String → List Request → List Request → Router → Router
drop_queued alive targets kept [] s = record s { queued = kept }
drop_queued alive targets kept (w ∷ ws) s =
    let drops = contains targets w.model in
    drop_queued alive targets (if drops then kept else kept ++ w ∷ []) ws
      (if drops then grant alive w unloaded s else s)

-- The loop of `handleShutdown` over the active swaps.
unfoldable pub shut_swaps : Alive → List (String × ActiveSwap) → Router → Router
unfolding refuse_all
shut_swaps alive [] s = s
shut_swaps alive ((_, swap) ∷ rest) s =
    shut_swaps alive rest (refuse_all alive shutting_down swap.waiters s)

-- `handleShutdown`, up to the stops of the processes: the last turn of `run`.
unfoldable pub handle_shutdown : Alive → Router → Router
unfolding shut_swaps refuse_all
handle_shutdown alive s = refuse_all alive shutting_down s.queued (shut_swaps alive s.active s)

module _ (eviction_for : Planner) where
  -- `EvictionFor(req.model, activeTargets(active, req.model))`
  abbrev pub eviction : String → Router → List String
  eviction model s = eviction_for s.processes model (active_targets s.active model)

  -- `handleRequest`
  unfoldable pub handle_request : Alive → ℕ → Request → Router → Router
  handle_request alive now req s = elim (lookup req.model s.processes) [
    | none ↦ grant alive req no_local_model s
    | some st ↦ elim (lookup req.model s.active) [
      | some swap ↦ join_swap req swap s
      | none ↦ decide_request alive now req st (eviction req.model s) s
    ]
  ]

  -- The body of the loop of `drainQueue`.
  unfoldable pub drain_one : Alive → Request → Router → Router × Bool
  drain_one alive req s = elim (lookup req.model s.processes) [
    | none ↦ (grant alive req no_local_model s, false)
    | some st ↦ elim (lookup req.model s.active) [
      | some swap ↦ (join_swap req swap s, false)
      | none ↦ decide_queued alive req st (eviction req.model s) s
    ]
  ]

  -- The loop of `drainQueue`, with the list `remaining`.
  unfoldable pub drain_from : Alive → List Request → List Request → Router → Router
  drain_from alive remaining [] s = broadcast (record s { queued = remaining })
  drain_from alive remaining (req ∷ pending) s =
      let (s', stays) = drain_one alive req s in
      drain_from alive (if stays then remaining ++ req ∷ [] else remaining) pending s'

  -- `drainQueue`, with its early return on an empty queue.
  unfoldable pub drain_list : Alive → List Request → Router → Router
  drain_list alive [] s = s
  drain_list alive (req ∷ pending) s = drain_from alive [] (req ∷ pending) s

  unfoldable pub drain_queue : Alive → Router → Router
  unfolding drain_list
  drain_queue alive s = drain_list alive s.queued s

  -- `handleSwapDone`; `ok` says that the swap reported no error.
  unfoldable pub handle_swap_done : Alive → String → Bool → Router → Router
  handle_swap_done alive model ok s = elim (lookup model s.active) [
    | none ↦ s
    | some swap ↦
        drain_queue alive
          (fan_out alive ok model swap.waiters (record s { active = delete model s.active }))
  ]

  -- `handleServeDone`
  unfoldable pub handle_serve_done : Alive → String → Router → Router
  handle_serve_done alive model s =
      let n = in_flight_of model s - 1 in
      if n == 0
      then drain_queue alive (record s { in_flight = delete model s.in_flight })
      else record s { in_flight = insert model n s.in_flight }

  -- `handleUnload`; `processes` is the snapshot when every `Stop` has returned.
  unfoldable pub handle_unload :
      Alive → List String → List (String × ProcessState) → Router → Router
  unfolding release_swaps drop_queued
  handle_unload alive targets processes s =
      let released = release_swaps alive targets s in
      let dropped = drop_queued alive targets [] released.queued released in
      drain_queue alive (record dropped { processes = processes })

-- What the run loop receives. `observes` is a change of the processes' states between two events.
pub data Event : Type 0 where
  requests : ℕ → Request → Event
  swap_done : String → Bool → Event
  serve_done : String → Event
  ticks : ℕ → ℕ → Event
  unloads : List String → List (String × ProcessState) → Event
  observes : List (String × ProcessState) → Event

module _ (eviction_for : Planner) where
  -- One turn of `run`, other than a shutdown.
  unfoldable pub step : Alive → Event → Router → Router
  step alive (requests now req) s = handle_request eviction_for alive now req s
  step alive (swap_done model ok) s = handle_swap_done eviction_for alive model ok s
  step alive (serve_done model) s = handle_serve_done eviction_for alive model s
  step alive (ticks now timeout) s = expire_stale_queued alive now timeout s
  step alive (unloads targets processes) s = handle_unload eviction_for alive targets processes s
  step alive (observes processes) s = record s { processes = processes }

  unfoldable pub run : List (Alive × Event) → Router → Router
  unfolding step
  run [] s = s
  run ((alive, e) ∷ es) s = run es (step alive e s)

-- The state in which `run` starts.
unfoldable pub init : List (String × ProcessState) → List (String × ℕ) → Router
init processes limits = record {
  processes = processes;
  limits = limits;
  active = [];
  in_flight = [];
  queued = [];
  positions = [];
  answers = [];
}
