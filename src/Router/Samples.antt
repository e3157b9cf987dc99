-- ===== src/Router/Samples.antt =====
-- Runs of the loop of internal/router/base.go with the planner of the groups: tests, and the theorems
-- at concrete inputs.
use llama_skein.Base.{ℕ, ◌+◌, ◌≤◌, ◌≡◌, ◌≢◌, refl, String, true, false, some, List, [], ◌∷◌, max}
use llama_skein.Base.Maps.{lookup, insert, delete, contains, string_eq}
use llama_skein.Base.{◌||◌, Bool}
use llama_skein.Router.{handle_shutdown}
use llama_skein.Router.{
  ActiveSwap, ProcessState, stopped, ready, Alive, Planner, Event, requests, serve_done, step, run,
  init, effective_limit, in_flight_of, handle_request, active_targets, collides_with,
  conflicts_with_in_flight, start_swap, enqueue, can_serve, decide_request, decide_queued,
  drain_one, drain_from, drain_list, drain_queue, handle_serve_done, grant_handler, number_from,
}
use llama_skein.Router.Counts.{count, waiting, answered}
use llama_skein.Router.Delivery.{arrivals, run-tally}
use llama_skein.Router.Shutdown.{handle_shutdown-answered}
use llama_skein.Router.Outcome.{do_swap, stop_errors, startable_from}
use llama_skein.Router.InFlight.{granted, finished, run-in_flight}
use llama_skein.Router.Swaps.{run-contains_evict, run-in_flight_of}
use llama_skein.Router.Wakeups.{Quiet, run-Quiet}
use llama_skein.Router.Admission.{handle_request-in_flight_of}
use llama_skein.Group.{
  GroupConfig, Groups, group_eviction, consider, consider_all, evicts, live_models,
}

abbrev swapping : GroupConfig
swapping = record { swap = true; exclusive = false; persistent = false }

abbrev side_by_side : GroupConfig
side_by_side = record { swap = false; exclusive = false; persistent = false }

-- `chat` and `code` take turns; `embed` runs beside them.
abbrev groups : Groups
groups = record {
  configs = ("large", swapping) ∷ ("small", side_by_side) ∷ [];
  group_of = ("chat", "large") ∷ ("code", "large") ∷ ("embed", "small") ∷ [];
}

abbrev planner : Planner
planner = group_eviction groups

abbrev all_alive : Alive
all_alive _ = true

abbrev asks : ℕ → String → Alive × Event
asks id model = (all_alive, requests 5 (record { id = id; model = model; queued_at = 0 }))

abbrev cold : List (String × ProcessState)
cold = ("chat", stopped) ∷ ("code", stopped) ∷ ("embed", stopped) ∷ []

abbrev warm : List (String × ProcessState)
warm = ("chat", ready) ∷ ("code", stopped) ∷ ("embed", stopped) ∷ []

-- The model `chat` is ready and serves a request; one for `code` waits, and its swap starts when the
-- first has been served.
abbrev busy : List (Alive × Event)
busy = asks 1 "chat" ∷ asks 2 "code" ∷ []

abbrev turn : List (Alive × Event)
turn = asks 1 "chat" ∷ asks 2 "code" ∷ (all_alive, serve_done "chat") ∷ []

-- Two swaps side by side.
abbrev both : List (Alive × Event)
both = asks 1 "chat" ∷ asks 2 "embed" ∷ []

busy_waits : (run planner busy (init warm [])).positions ≡ (2, 1) ∷ []
unfolding run step init handle_request decide_request can_serve collides_with
    conflicts_with_in_flight grant_handler enqueue number_from active_targets group_eviction
    consider consider_all evicts live_models lookup insert contains effective_limit
busy_waits = refl

abbrev code_swap : ActiveSwap
code_swap = record {
  evict = "chat" ∷ [];
  waiters = record { id = 2; model = "code"; queued_at = 5 } ∷ [];
}

turn_swaps : lookup "code" (run planner turn (init warm [])).active ≡ some code_swap
unfolding run step init handle_request decide_request can_serve collides_with
    conflicts_with_in_flight grant_handler enqueue number_from active_targets group_eviction
    consider consider_all evicts live_models lookup insert delete contains effective_limit
    handle_serve_done drain_queue drain_list drain_from drain_one decide_queued start_swap
turn_swaps = refl

abbrev waits_for : ℕ → String → ActiveSwap
waits_for id model = record {
  evict = [];
  waiters = record { id = id; model = model; queued_at = 0 } ∷ [];
}

both_chat : lookup "chat" (run planner both (init cold [])).active ≡ some (waits_for 1 "chat")
unfolding run step init handle_request decide_request can_serve collides_with
    conflicts_with_in_flight active_targets group_eviction consider consider_all evicts live_models
    lookup insert contains start_swap
both_chat = refl

both_embed : lookup "embed" (run planner both (init cold [])).active ≡ some (waits_for 2 "embed")
unfolding run step init handle_request decide_request can_serve collides_with
    conflicts_with_in_flight active_targets group_eviction consider consider_all evicts live_models
    lookup insert contains start_swap
both_embed = refl

chat_not_embed : ◌≢◌ {A = String} "chat" "embed"
chat_not_embed e = cc

chat_evicted : contains code_swap.evict "chat" ≡ true
unfolding contains
chat_evicted = refl

run-tally_example :
    count 2 (run planner turn (init warm [])).queued
      + waiting 2 (run planner turn (init warm [])).active
      + answered 2 (run planner turn (init warm [])).answers
    ≡ arrivals 2 turn
run-tally_example = run-tally planner 2 turn warm []

run-in_flight_example :
    (granted "chat" (run planner turn (init warm [])).answers
      ≤ in_flight_of "chat" (run planner turn (init warm [])) + finished "chat" turn)
    × (in_flight_of "chat" (run planner turn (init warm []))
        ≤ granted "chat" (run planner turn (init warm [])).answers)
run-in_flight_example = run-in_flight planner "chat" turn warm []

run-contains_evict_example :
    (contains (waits_for 1 "chat").evict "embed" ≡ false)
    × (contains (waits_for 2 "embed").evict "chat" ≡ false)
run-contains_evict_example =
    run-contains_evict planner both cold [] "chat" "embed" (waits_for 1 "chat")
      (waits_for 2 "embed") both_chat both_embed chat_not_embed

run-in_flight_of_example : in_flight_of "chat" (run planner turn (init warm [])) ≡ 0
run-in_flight_of_example =
    run-in_flight_of planner turn warm [] "code" "chat" code_swap turn_swaps chat_evicted

run-Quiet_example : Quiet (run planner busy (init warm []))
run-Quiet_example = run-Quiet planner busy warm []

handle_request-in_flight_of_example :
    in_flight_of "chat" (
      handle_request planner all_alive 5
        (record { id = 1; model = "chat"; queued_at = 0 })
        (init warm []))
    ≤ max
        (in_flight_of "chat" (init warm []))
        (effective_limit (lookup "chat" (init warm []).limits))
handle_request-in_flight_of_example =
    handle_request-in_flight_of planner all_alive 5
      (record { id = 1; model = "chat"; queued_at = 0 }) "chat" (init warm [])

handle_shutdown-answered_example :
    answered 2 (handle_shutdown all_alive (run planner busy (init warm []))).answers
    ≡ arrivals 2 busy
handle_shutdown-answered_example = handle_shutdown-answered planner 2 all_alive busy warm []

abbrev stops_all : String → Bool
stops_all _ = true

swap_reports :
    do_swap stops_all ("chat" ∷ []) stopped true ≡ record { started = true; succeeded = true }
unfolding do_swap stop_errors startable_from
swap_reports = refl

failed_stop :
    do_swap (λ _. false) ("chat" ∷ []) stopped true ≡ record { started = false; succeeded = false }
unfolding do_swap stop_errors startable_from
failed_stop = refl

swap_started :
    ((do_swap stops_all ("chat" ∷ []) stopped true).started
      || (do_swap stops_all ("chat" ∷ []) stopped true).succeeded)
    ≡ true
unfolding do_swap stop_errors startable_from
swap_started = refl
