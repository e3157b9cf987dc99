-- ===== src/Operation/Phases.antt =====
-- internal/operation/transitions.go: the histories of one operation under any sequence of calls.
use mathlib.Core.List.{append-nil, append_assoc}
use llama_skein.Base.{
  ℕ, suc, ◌+◌, ◌≤◌, ◌<◌, ◌≡◌, refl, sym, ap, subst, In, In-append_left, In-append_right, map, ◌⊎◌,
  ◌↔◌, ite, inl, inr, String, true, false, Option, none, some, List, [], ◌∷◌, ◌++◌, arith, length,
  drop, if_pos, if_neg, if◌then◌else◌,
}
use llama_skein.Operation.{
  Phase, Phase-discrete, happy_path, ArtifactProgress, new, queued, preflighting, resolving,
  downloading, verifying, installing, registering, reloading, succeeded, cancelled, failed,
  happy_path_index, terminal, is_abort, can_transition, ErrorCode, Failure, Operation, Outcome, ok,
  invalid_transition, transition_to, fail, cancel,
}

-- The calls that a client of the record makes.
pub data Call : Type 0 where
  transitions : Phase → Call
  fails : ErrorCode → String → Call
  cancels : Call

unfoldable pub apply : Call → ℕ → Operation → Outcome
unfolding transition_to fail cancel
apply (transitions to) now o = transition_to to now o
apply (fails code message) now o = fail code message now o
apply cancels now o = cancel now o

-- A refused call leaves the operation as it was.
abbrev pub after : Operation → Outcome → Operation
after o (ok o') = o'
after o invalid_transition = o

unfoldable pub step : Operation → ℕ × Call → Operation
unfolding apply
step o (now, c) = after o (apply c now o)

unfoldable pub run : Operation → List (ℕ × Call) → Operation
run o [] = o
run o (c ∷ cs) = run (step o c) cs

-- The diagram of the phases, written independently of the indices.
pub data Edge : Phase → Phase → Type 0 where
  preflight : Edge queued preflighting
  resolve : Edge preflighting resolving
  download : Edge resolving downloading
  verify : Edge downloading verifying
  install : Edge verifying installing
  register : Edge installing registering
  reload : Edge registering reloading
  succeed : Edge reloading succeeded
  stop : {p : Phase} → terminal p ≡ false → Edge p cancelled
  break : {p : Phase} → terminal p ≡ false → Edge p failed

ruleset edges = (preflight, resolve, download, verify, install, register, reload, succeed)

can_transition-Edge : (p q : Phase) → can_transition p q ≡ true → Edge p q
unfolding can_transition
can_transition-Edge p q h = grind (arith, edges, stop, break)

Edge-can_transition : {p q : Phase} → Edge p q → can_transition p q ≡ true
unfolding can_transition
Edge-can_transition preflight = refl
Edge-can_transition resolve = refl
Edge-can_transition download = refl
Edge-can_transition verify = refl
Edge-can_transition install = refl
Edge-can_transition register = refl
Edge-can_transition reload = refl
Edge-can_transition succeed = refl
Edge-can_transition (stop h) = rw h
Edge-can_transition (break h) = rw h

-- `CanTransition` answers true for exactly the edges of the diagram.
pub can_transition-iff-Edge : (p q : Phase) → (can_transition p q ≡ true) ↔ Edge p q
can_transition-iff-Edge p q = (can_transition-Edge p q, Edge-can_transition)

-- The phases that a run moves to, in order; a call that keeps the phase adds none.
abbrev moved : Phase → Phase → List Phase
moved p q = ite (Phase-discrete p q) [] (q ∷ [])

unfoldable pub visited : Operation → List (ℕ × Call) → List Phase
visited o [] = []
visited o (c ∷ cs) = moved o.phase (step o c).phase ++ visited (step o c) cs

-- A walk along the edges of the diagram.
pub data Walk : Phase → List Phase → Phase → Type 0 where
  rest : {p : Phase} → Walk p [] p
  move : {p q r : Phase} {l : List Phase} → Edge p q → Walk q l r → Walk p (q ∷ l) r

step-Edge :
    (o : Operation) (c : ℕ × Call) → ((step o c).phase ≡ o.phase) ⊎ Edge o.phase (step o c).phase
unfolding step
step-Edge o (now, transitions to) = ground (arith, can_transition-Edge o.phase to)
step-Edge o (now, fails code message) = ground (arith, can_transition-Edge o.phase failed)
step-Edge o (now, cancels) = ground (arith, can_transition-Edge o.phase cancelled)

visited-Walk : (o : Operation) (cs : List (ℕ × Call)) → Walk o.phase (visited o cs) (run o cs).phase
unfolding visited run
visited-Walk o [] = rest
visited-Walk o (c ∷ cs) = elim (Phase-discrete o.phase (step o c).phase) [
  | yes e ↦ rw (if_pos _ e) (
      subst (λ p. Walk p (visited (step o c) cs) (run (step o c) cs).phase) (sym e)
        (visited-Walk (step o c) cs))
  | no n ↦ rw (if_neg _ n) (elim (step-Edge o c) [
    | inl e ↦ absurd (n (sym e))
    | inr e ↦ move e (visited-Walk (step o c) cs)
  ])
]

-- What is left of the happy path after a phase of it.
abbrev pub ahead_of : Option ℕ → List Phase
ahead_of none = []
ahead_of (some i) = drop (suc i) happy_path

pub ahead : Phase → List Phase
unfolding happy_path_index
ahead p = ahead_of (happy_path_index p)

terminal_no_Edge : {p q : Phase} → Edge p q → terminal p ≡ true → ⊥
unfolding can_transition
terminal_no_Edge e h = ground (arith, Edge-can_transition e)

abort-terminal : (p : Phase) → is_abort p ≡ true → terminal p ≡ true
unfolding terminal
abort-terminal p h = ground arith

abort_ends : {p r : Phase} {l : List Phase} → Walk p l r → is_abort p ≡ true → r ≡ succeeded → ⊥
abort_ends rest h e = ground arith
abort_ends (move {p = p} e w) h _ = terminal_no_Edge e (abort-terminal p h)

Walk-succeeded : {p r : Phase} {l : List Phase} → Walk p l r → r ≡ succeeded → l ≡ ahead p
unfolding ahead
Walk-succeeded rest e = rw e
Walk-succeeded (move preflight w) e = ap (◌∷◌ preflighting) (Walk-succeeded w e)
Walk-succeeded (move resolve w) e = ap (◌∷◌ resolving) (Walk-succeeded w e)
Walk-succeeded (move download w) e = ap (◌∷◌ downloading) (Walk-succeeded w e)
Walk-succeeded (move verify w) e = ap (◌∷◌ verifying) (Walk-succeeded w e)
Walk-succeeded (move install w) e = ap (◌∷◌ installing) (Walk-succeeded w e)
Walk-succeeded (move register w) e = ap (◌∷◌ registering) (Walk-succeeded w e)
Walk-succeeded (move reload w) e = ap (◌∷◌ reloading) (Walk-succeeded w e)
Walk-succeeded (move succeed w) e = ap (◌∷◌ succeeded) (Walk-succeeded w e)
Walk-succeeded (move (stop _) w) e = absurd (abort_ends w refl e)
Walk-succeeded (move (break _) w) e = absurd (abort_ends w refl e)

-- A run that has succeeded passed through every phase of the happy path, in order, and through no
-- other: nothing is skipped, repeated or reordered, whatever calls were made.
pub succeeded_visits_all :
    (id repository revision model : String) (artifacts : List ArtifactProgress) (created : ℕ)
    (cs : List (ℕ × Call))
    → (run (new id repository revision model artifacts created) cs).phase ≡ succeeded
    → queued ∷ visited (new id repository revision model artifacts created) cs ≡ happy_path
unfolding new ahead
succeeded_visits_all id repository revision model artifacts created cs h =
    let o = new id repository revision model artifacts created in
    ap (◌∷◌ queued) (Walk-succeeded (visited-Walk o cs) h)

-- How many moves are possible at most from a phase.
pub rank : Phase → ℕ
unfolding terminal ahead
rank p = if terminal p then 0 else length (ahead p)

Edge-rank : {p q : Phase} → Edge p q → rank q < rank p
unfolding rank
Edge-rank preflight = omega arith
Edge-rank resolve = omega arith
Edge-rank download = omega arith
Edge-rank verify = omega arith
Edge-rank install = omega arith
Edge-rank register = omega arith
Edge-rank reload = omega arith
Edge-rank succeed = omega arith
Edge-rank (stop {p = p} h) = ground arith
Edge-rank (break {p = p} h) = ground arith

Walk-rank : {p r : Phase} {l : List Phase} → Walk p l r → length l + rank r ≤ rank p
Walk-rank rest = omega arith
Walk-rank (move e w) = omega (arith, Edge-rank e, Walk-rank w)

rank-le : (p : Phase) → rank p ≤ 8
unfolding rank
rank-le p = ground arith

failed-terminal : (o : Operation) → o.phase ≡ failed → terminal o.phase ≡ true
unfolding terminal
failed-terminal o h = rw h

step-terminal : (o : Operation) (c : ℕ × Call) → terminal o.phase ≡ true → step o c ≡ o
unfolding step can_transition
step-terminal o (now, transitions to) h = ground arith
step-terminal o (now, fails code message) h = ground arith
step-terminal o (now, cancels) h = ground arith

-- However the calls go, an operation changes its phase at most eight times.
pub visited-le : (o : Operation) (cs : List (ℕ × Call)) → length (visited o cs) ≤ 8
visited-le o cs = omega (arith, Walk-rank (visited-Walk o cs), rank-le o.phase)

-- A terminal operation is final: no sequence of calls changes any field of it.
pub run-terminal : (o : Operation) (cs : List (ℕ × Call)) → terminal o.phase ≡ true → run o cs ≡ o
unfolding run
run-terminal o [] h = refl
run-terminal o (c ∷ cs) h = rw (step-terminal o c h) (run-terminal o cs h)

abbrev pub calls : List (ℕ × Call) → List Call
calls = map (λ c. c.1)

step_error :
    (o : Operation) (c : ℕ × Call) (f : Failure)
    → (step o c).error ≡ some f
    → (o.error ≡ some f) ⊎ ((step o c).phase ≡ failed) × (c.1 ≡ fails f.code f.message)
unfolding step
step_error o (now, transitions to) f h = ground arith
step_error o (now, fails code message) f h = ground arith
step_error o (now, cancels) f h = ground arith

-- `Fail` is the only source of an error, and an operation with one stays failed.
abbrev pub FailedBy : Operation → List Call → Type 0
FailedBy o cs =
    (f : Failure) → o.error ≡ some f → (o.phase ≡ failed) × In (fails f.code f.message) cs

step-FailedBy :
    (o : Operation) (c : ℕ × Call) (cs : List Call)
    → FailedBy o cs
    → FailedBy (step o c) (cs ++ c.1 ∷ [])
step-FailedBy o c cs v f h = elim (step_error o c f h) [
  | inl old ↦
      let (phase, source) = v f old in
      (
        rw (step-terminal o c (failed-terminal o phase)) phase,
        In-append_left (fails f.code f.message) cs (c.1 ∷ []) source,
      )
  | inr (phase, source) ↦
      (phase, In-append_right (fails f.code f.message) cs (c.1 ∷ []) (inl (sym source)))
]

run-FailedBy :
    (o : Operation) (done : List Call) (cs : List (ℕ × Call))
    → FailedBy o done
    → FailedBy (run o cs) (done ++ calls cs)
unfolding run
run-FailedBy o done [] v = rw (append-nil done) v
run-FailedBy o done (c ∷ cs) v =
    rw (← append_assoc done (c.1 ∷ []) (calls cs))
      (run-FailedBy (step o c) (done ++ c.1 ∷ []) cs (step-FailedBy o c done v))

-- After any calls on a new operation: if it carries an error, its phase is failed, and the error is
-- the code and the message of a `Fail` among the calls.
pub run-new_error :
    (id repository revision model : String) (artifacts : List ArtifactProgress) (created : ℕ)
    (cs : List (ℕ × Call)) (f : Failure)
    → (run (new id repository revision model artifacts created) cs).error ≡ some f
    → ((run (new id repository revision model artifacts created) cs).phase ≡ failed)
      × In (fails f.code f.message) (calls cs)
unfolding new
run-new_error id repository revision model artifacts created cs =
    run-FailedBy (new id repository revision model artifacts created) [] cs (λ f h. cc)

-- After a cancellation that is accepted the phase is cancelled, the error is as before, and another
-- cancellation, at any later time, is accepted and changes nothing.
pub cancel_twice :
    (o o' : Operation) (now later : ℕ)
    → cancel now o ≡ ok o'
    → (o'.phase ≡ cancelled) × (cancel later o' ≡ ok o') × (o'.error ≡ o.error)
unfolding cancel
cancel_twice o o' now later h = ground arith
