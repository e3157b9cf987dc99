-- ===== src/Placement/History.antt =====
-- What a history of calls of escalateIfMemoryFailure (internal/server/placementretry.go) keeps.
use llama_skein.Base.{
  ℕ, suc, ◌≤◌, ◌≡◌, ◌⊎◌, inl, inr, refl, sym, ap, String, true, not, ◌||◌, Option, none, some, List,
  [], ◌∷◌, ◌++◌, ◌==◌, leb, if◌then◌else◌, length, length-append, map, In, arith, Bool-cases,
}
use llama_skein.Base.Maps.{contains-In}
use llama_skein.Base.Pigeonhole.{Nodup, length-le_of_Nodup}
use llama_skein.Process.Failures.{FailureClass, is_memory}
use llama_skein.Placement.{
  Rung, widen_reserve, shrink_batch, shrink_context, full_cpu_moe, Placed, Inputs, rung_eq,
  ladder_order, Attempt, Retry, Call, escalate, climb, escalate_if_memory_failure, escalations,
  retry_of, answered_by, applies, is_host_oom,
}
use llama_skein.Placement.Ladder.{First, next_safer_plan-First}

abbrev rank : Rung → ℕ
rank widen_reserve = 1
rank shrink_batch = 2
rank shrink_context = 3
rank full_cpu_moe = 4

rank_inj : (a b : Rung) → rank a ≡ rank b → a ≡ b
rank_inj a b e = ground arith

rank_bounds : (l : List Rung) (x : ℕ) → In x (map rank l) → (1 ≤ x) × (x ≤ 4)
rank_bounds [] x i = elim i [ ]
rank_bounds (widen_reserve ∷ l) x (inl e) = ground arith
rank_bounds (shrink_batch ∷ l) x (inl e) = ground arith
rank_bounds (shrink_context ∷ l) x (inl e) = ground arith
rank_bounds (full_cpu_moe ∷ l) x (inl e) = ground arith
rank_bounds (r ∷ l) x (inr i) = rank_bounds l x i

In-rank : (r : Rung) (l : List Rung) → In (rank r) (map rank l) → In r l
In-rank r [] i = elim i [ ]
In-rank r (x ∷ l) (inl e) = inl (rank_inj r x e)
In-rank r (x ∷ l) (inr i) = inr (In-rank r l i)

In-map_append :
    (x : ℕ) (l : List Rung) (r : Rung)
    → In x (map rank (l ++ r ∷ []))
    → In x (map rank l) ⊎ (x ≡ rank r)
In-map_append x [] r (inl e) = inr e
In-map_append x [] r (inr i) = elim i [ ]
In-map_append x (y ∷ l) r (inl e) = inl (inl e)
In-map_append x (y ∷ l) r (inr i) = elim (In-map_append x l r i) [
  | inl j ↦ inl (inr j)
  | inr e ↦ inr e
]

-- The rungs are distinct.
abbrev pub Distinct : List Rung → Type 0
Distinct l = Nodup (map rank l)

append-Distinct : (l : List Rung) (r : Rung) → Distinct l → ¬ In r l → Distinct (l ++ r ∷ [])
append-Distinct [] r d n = (λ i. elim i [ ], tt)
append-Distinct (x ∷ l) r d n = (
  λ i. elim (In-map_append (rank x) l r i) [
    | inl j ↦ d.0 j
    | inr e ↦ n (inl (sym (rank_inj x r e)))
  ],
  append-Distinct l r d.1 (λ i. n (inr i)),
)

map-append_rung :
    (l : List Attempt) (a : Attempt)
    → map (λ (a : Attempt). a.rung) (l ++ a ∷ []) ≡ map (λ (a : Attempt). a.rung) l ++ a.rung ∷ []
map-append_rung [] a = refl
map-append_rung (x ∷ l) a = ap (λ m. x.rung ∷ m) (map-append_rung l a)

-- What holds of the history of a model.
pub record Laddered (budget : ℕ) (st : Retry) : Type 0 where
  pub distinct : Distinct st.rungs
  pub in_budget : length st.rungs ≤ budget
  pub at_most_four : length st.rungs ≤ 4
  pub recorded : map (λ (a : Attempt). a.rung) st.attempts ≡ st.rungs

abbrev pub AllLaddered : ℕ → Option Retry → Type 0
AllLaddered budget none = Unit
AllLaddered budget (some st) = Laddered budget st

-- Distinct rungs are at most four.
length-map-rank : (l : List Rung) → length (map rank l) ≡ length l
length-map-rank [] = refl
length-map-rank (r ∷ l) = ap suc (length-map-rank l)

length_bound : (l : List Rung) → Distinct l → length l ≤ 4
length_bound l d =
    omega (arith, length-map-rank l, length-le_of_Nodup 4 (map rank l) d (rank_bounds l))

climb-Laddered :
    (budget : ℕ) (st : Retry) (plan : Placed) (rung : Rung) (message : String)
    → Laddered budget st
    → suc (length st.rungs) ≤ budget
    → ¬ In rung st.rungs
    → Laddered budget (climb st plan rung message)
unfolding climb
climb-Laddered budget st plan rung message l b n =
    let d = append-Distinct st.rungs rung l.distinct n in
    record {
      distinct = d;
      in_budget = omega (arith, b, length-append st.rungs (rung ∷ []));
      at_most_four = length_bound (st.rungs ++ rung ∷ []) d;
      recorded =
          rw
            (
              map-append_rung st.attempts (record { rung = rung; plan = plan; failure = message }),
              l.recorded,
            )
            refl;
    }

module _ (compute : Inputs → Placed) (budget : ℕ) where
  from_next :
      (call : Call) (class : FailureClass) (message : String) (st : Retry)
      → Laddered budget st
      → suc (length st.rungs) ≤ budget
      → (found : Option (Placed × Rung))
      → First compute st.current call.inputs (is_host_oom class) st.rungs ladder_order found
      → Laddered budget (elim found [
        | none ↦ record st { exhausted = true }
        | some (plan, rung) ↦ if call.accepts plan then climb st plan rung message else st
      ])
  from_next call class message st l b none f = record {
    distinct = l.distinct;
    in_budget = l.in_budget;
    at_most_four = l.at_most_four;
    recorded = l.recorded;
  }
  from_next call class message st l b (some (plan, rung)) f =
      elim (Bool-cases (call.accepts plan)) [
        | inl y ↦ rw y (
            climb-Laddered budget st plan rung message l b
              (λ i. cc (contains-In st.rungs rung i, f.1)))
        | inr y ↦ rw y l
      ]

  escalate-Laddered :
      (call : Call) (class : FailureClass) (message : String) (st : Retry)
      → Laddered budget st
      → Laddered budget (escalate compute budget call class message st)
  unfolding escalate
  escalate-Laddered call class message st l =
      elim (Bool-cases (st.exhausted || leb budget (length st.rungs))) [
        | inl b ↦ rw b l
        | inr b ↦ elim (Bool-cases (answered_by st.attempts message)) [
          | inl a ↦ rw (b, a) l
          | inr a ↦
              rw (b, a)
                (from_next call class message st l (ground (arith, b)) _
                  (next_safer_plan-First compute st.current call.inputs class st.rungs))
        ]
      ]

  retry_of-Laddered :
      (state : Option Retry) (plan : Placed)
      → AllLaddered budget state
      → Laddered budget (retry_of state plan)
  retry_of-Laddered none plan l = record {
    distinct = tt;
    in_budget = omega arith;
    at_most_four = omega arith;
    recorded = refl;
  }
  retry_of-Laddered (some st) plan l = l

  call-Laddered :
      (call : Call) (state : Option Retry)
      → AllLaddered budget state
      → AllLaddered budget (escalate_if_memory_failure compute budget call state)
  unfolding escalate_if_memory_failure
  call-Laddered call state l = by_plan call.planned call.last_error
    where
      by_plan :
          (planned : Option Placed) (failure : Option (FailureClass × String))
          → AllLaddered budget (elim planned [
            | none ↦ state
            | some plan ↦ elim failure [
              | none ↦ state
              | some (class, message) ↦
                  if budget == 0 || not (applies plan) || not (is_memory class)
                  then state
                  else some (escalate compute budget call class message (retry_of state plan))
            ]
          ])
      by_plan none failure = l
      by_plan (some plan) none = l
      by_plan (some plan) (some (class, message)) =
          elim (Bool-cases (budget == 0 || not (applies plan) || not (is_memory class))) [
            | inl b ↦ rw b l
            | inr b ↦ rw b (
                escalate-Laddered call class message (retry_of state plan)
                  (retry_of-Laddered state plan l))
          ]

  -- Whatever calls reach a model, its retry state has no rung twice, at most four of them and at most
  -- as many as the budget allows, and each rung has its attempt, in order.
  pub escalations-Laddered :
      (calls : List Call) (state : Option Retry)
      → AllLaddered budget state
      → AllLaddered budget (escalations compute budget calls state)
  unfolding escalations
  escalations-Laddered [] state l = l
  escalations-Laddered (call ∷ calls) state l =
      escalations-Laddered calls _ (call-Laddered call state l)
