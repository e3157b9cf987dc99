-- ===== src/Reload/Passes.antt =====
-- The passes of internal/server/reloadrunner.go: one at a time, and after every call.
use llama_skein.Base.{
  ℕ, ◌+◌, ◌≤◌, ◌≡◌, ◌⊎◌, inl, inr, refl, ap, subst, ◌∙◌, Bool, true, false, List, [], ◌∷◌, ◌++◌,
  length, arith, Bool-cases,
}
use llama_skein.Reload.{
  Place, before_pass, in_pass, after_pass, Runner, Moves, begins, ends, repeats, rests, Step, moves,
  joins, enters, Reach, start, later, Settles, done, then_settles,
}

abbrev first : Place → ℕ
first before_pass = 1
first _ = 0

abbrev owed : Bool → ℕ
owed true = 1
owed false = 0

-- The passes that still begin when no call comes.
abbrev pub pending : Place → Bool → ℕ
pending p d = first p + owed d

-- Whether a goroutine there has begun a pass that covers all calls, unless there is another to come.
abbrev Covers : Place → Runner → Type 0
Covers before_pass s = Unit
Covers in_pass s = (s.dirty ≡ true) ⊎ (s.covered ≡ s.calls)
Covers after_pass s = (s.dirty ≡ true) ⊎ (s.covered ≡ s.calls)

abbrev At : List Place → Runner → Type 0
At [] s = (s.running ≡ false) × (s.dirty ≡ false) × (s.covered ≡ s.calls) × (s.passes ≤ s.calls)
At (p ∷ []) s = (s.running ≡ true) × Covers p s × (s.passes + pending p s.dirty ≤ s.calls)
At (p ∷ q ∷ ps) s = ⊥

-- What holds in each state that the program reaches.
abbrev Sound : Runner → Type 0
Sound s = At s.loops s

-- One goroutine in the loop, if there is one.
only :
    (s : Runner) (p : Place) (xs ys : List Place)
    → Sound s
    → s.loops ≡ xs ++ p ∷ ys
    → (xs ≡ []) × (ys ≡ []) × (s.loops ≡ p ∷ [])
only s p [] [] h e = (refl, refl, e)
only s p [] (y ∷ ys) h e = absurd (subst (λ l. At l s) e h)
only s p (x ∷ []) ys h e = absurd (subst (λ l. At l s) e h)
only s p (x ∷ y ∷ xs) ys h e = absurd (subst (λ l. At l s) e h)

here : (s : Runner) (p : Place) → Sound s → s.loops ≡ p ∷ [] → At (p ∷ []) s
here s p h e = subst (λ l. At l s) e h

owed-true : {d : Bool} → d ≡ true → owed d ≡ 1
owed-true e = ap owed e

-- A clean flag after a pass: that pass covers all calls.
covered : (s : Runner) → s.dirty ≡ false → Covers after_pass s → s.covered ≡ s.calls
covered s d (inl e) = cc (d, e)
covered s d (inr e) = e

Moves-Sound : {s t : Runner} → Moves s t → Sound s → Sound t
Moves-Sound {s} (begins xs ys e) h =
    let (a, b, c) = only s before_pass xs ys h e in
    let k = here s before_pass h c in rw (a, b) (k.0, inr refl, omega (arith, k.2))
Moves-Sound {s} (ends xs ys e) h =
    let (a, b, c) = only s in_pass xs ys h e in
    let k = here s in_pass h c in rw (a, b) (k.0, k.1, omega (arith, k.2))
Moves-Sound {s} (repeats xs ys e d) h =
    let (a, b, c) = only s after_pass xs ys h e in
    let k = here s after_pass h c in rw (a, b) (k.0, tt, omega (arith, owed-true d, k.2))
Moves-Sound {s} (rests xs ys e d) h =
    let (a, b, c) = only s after_pass xs ys h e in
    let k = here s after_pass h c in rw (a, b) (refl, d, covered s d k.1, omega (arith, k.2))

joined-Covers : (p : Place) (s : Runner) → Covers p (record s { dirty = true; calls = s.calls + 1 })
joined-Covers before_pass s = tt
joined-Covers in_pass s = inl refl
joined-Covers after_pass s = inl refl

joined-At :
    (l : List Place) (s : Runner)
    → At l s
    → s.running ≡ true
    → At l (record s { dirty = true; calls = s.calls + 1 })
joined-At [] s h r = cc (h.0, r)
joined-At (p ∷ []) s h r = (r, joined-Covers p s, omega (arith, h.2))
joined-At (p ∷ q ∷ l) s h r = h

entered-At :
    (l : List Place) (s : Runner)
    → At l s
    → s.running ≡ false
    → At
        (l ++ before_pass ∷ [])
        (record s { running = true; calls = s.calls + 1; loops = l ++ before_pass ∷ [] })
entered-At [] s h r = (refl, tt, omega (arith, ap owed h.1, h.3))
entered-At (p ∷ []) s h r = cc (h.0, r)
entered-At (p ∷ q ∷ l) s h r = absurd h

Step-Sound : {s t : Runner} → Step s t → Sound s → Sound t
Step-Sound (moves m) h = Moves-Sound m h
Step-Sound {s} (joins r) h = joined-At s.loops s h r
Step-Sound {s} (enters r) h = entered-At s.loops s h r

Reach-Sound : {s : Runner} → Reach s → Sound s
Reach-Sound start = (refl, refl, refl, omega arith)
Reach-Sound (later r st) = Step-Sound st (Reach-Sound r)

-- What a state of the program shows: at most one goroutine is in the loop, so passes never overlap,
-- and there were no more passes than calls. When no goroutine is in the loop, the last pass began
-- after the last call.
abbrev pub Coalesced : Runner → Type 0
Coalesced s = (length s.loops ≤ 1) × (s.passes ≤ s.calls) × (s.loops ≡ [] → s.covered ≡ s.calls)

At-Coalesced :
    (l : List Place) (s : Runner)
    → At l s
    → (length l ≤ 1) × (s.passes ≤ s.calls) × (l ≡ [] → s.covered ≡ s.calls)
At-Coalesced [] s h = (omega arith, h.3, λ e. h.2)
At-Coalesced (p ∷ []) s h = (omega arith, omega (arith, h.2), λ e. cc e)
At-Coalesced (p ∷ q ∷ l) s h = absurd h

-- In every state that calls of the trigger and the goroutines in the loop reach, in any order: at
-- most one goroutine is in the loop, there are no more passes than calls, and when no goroutine is in
-- the loop the last pass began after the last call.
pub Reach-Coalesced : {s : Runner} → Reach s → Coalesced s
Reach-Coalesced {s} r = At-Coalesced s.loops s (Reach-Sound r)

-- The end of a run without a further call, in which at most `n` passes begin.
abbrev pub Settled : ℕ → Runner → Type 0
Settled n s =
    (t : Runner) × Settles s t × (t.loops ≡ []) × (t.covered ≡ s.calls) × (t.passes ≤ s.passes + n)

prepend :
    (n m : ℕ) (s t : Runner)
    → Moves s t
    → t.calls ≡ s.calls
    → t.passes + n ≤ s.passes + m
    → Settled n t
    → Settled m s
prepend n m s t step c l (u, r, e, d, k) = (u, then_settles step r, e, d ∙ c, omega (arith, l, k))

after_clean :
    (s : Runner) → s.loops ≡ after_pass ∷ [] → s.dirty ≡ false → s.covered ≡ s.calls → Settled 0 s
after_clean s e d c = (_, then_settles (rests [] [] e d) done, refl, c, omega arith)

in_clean :
    (s : Runner) → s.loops ≡ in_pass ∷ [] → s.dirty ≡ false → s.covered ≡ s.calls → Settled 0 s
in_clean s e d c =
    prepend 0 0 s _ (ends [] [] e) refl (omega arith)
      (after_clean (record s { loops = after_pass ∷ [] }) refl d c)

before_clean : (s : Runner) → s.loops ≡ before_pass ∷ [] → s.dirty ≡ false → Settled 1 s
before_clean s e d = prepend 0 1 s _ (begins [] [] e) refl (omega arith) (
    in_clean (record s { loops = in_pass ∷ []; passes = s.passes + 1; covered = s.calls }) refl d
      refl)

after_dirty : (s : Runner) → s.loops ≡ after_pass ∷ [] → s.dirty ≡ true → Settled 1 s
after_dirty s e d =
    prepend 1 1 s _ (repeats [] [] e d) refl (omega arith)
      (before_clean (record s { loops = before_pass ∷ []; dirty = false }) refl refl)

in_dirty : (s : Runner) → s.loops ≡ in_pass ∷ [] → s.dirty ≡ true → Settled 1 s
in_dirty s e d =
    prepend 1 1 s _ (ends [] [] e) refl (omega arith)
      (after_dirty (record s { loops = after_pass ∷ [] }) refl d)

before_dirty : (s : Runner) → s.loops ≡ before_pass ∷ [] → s.dirty ≡ true → Settled 2 s
before_dirty s e d =
    prepend 1 2 s _ (begins [] [] e) refl (omega arith) (
      in_dirty (record s { loops = in_pass ∷ []; passes = s.passes + 1; covered = s.calls }) refl d)

fewer : (n : ℕ) (s : Runner) → n ≤ 2 → Settled n s → Settled 2 s
fewer n s h (t, r, e, d, k) = (t, r, e, d, omega (arith, h, k))

settle : (l : List Place) (s : Runner) → s.loops ≡ l → At l s → Settled 2 s
settle [] s e h = (s, done, e, h.2, omega arith)
settle (p ∷ q ∷ l) s e h = absurd h
settle (before_pass ∷ []) s e h = elim (Bool-cases s.dirty) [
  | inl d ↦ before_dirty s e d
  | inr d ↦ fewer 1 s (omega arith) (before_clean s e d)
]
settle (in_pass ∷ []) s e h = elim (Bool-cases s.dirty) [
  | inl d ↦ fewer 1 s (omega arith) (in_dirty s e d)
  | inr d ↦ fewer 0 s (omega arith) (in_clean s e d (covered s d h.1))
]
settle (after_pass ∷ []) s e h = elim (Bool-cases s.dirty) [
  | inl d ↦ fewer 1 s (omega arith) (after_dirty s e d)
  | inr d ↦ fewer 0 s (omega arith) (after_clean s e d (covered s d h.1))
]

-- From every state that the program reaches there is a run of the goroutine in the loop, without a
-- further call, that brings it to rest: at most two more passes begin in it, and the last of all
-- passes began after the last call.
pub Reach-Settled : {s : Runner} → Reach s → Settled 2 s
Reach-Settled {s} r = settle s.loops s refl (Reach-Sound r)
