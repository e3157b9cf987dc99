-- ===== src/MemGuard/Trips.antt =====
-- When the memory guard of internal/server/memguard.go unloads.
use llama_skein.Base.{
  ℕ, ◌+◌, ◌*◌, ◌≤◌, ◌<◌, ◌≡◌, ◌⊎◌, ◌↔◌, inl, inr, refl, sym, Bool, true, false, Option, none, some,
  List, [], ◌∷◌, subst, ◌∙◌, if◌then◌else◌, arith, Option-cases,
}
use native.Mathlib.Nat.{mod-eq_of_lt}
use llama_skein.MemGuard.{
  MemGuardState, Sample, needed, duration_bits, within, cooling, observe, watch,
}

-- The guard unloads exactly when the host is under pressure, enough samples in a row were (one when it
-- is critical), there is a model to unload, and the cooldown since the last unload is over.
pub observe_iff :
    (pressured critical : Bool) (unloadable now : ℕ) (g : MemGuardState)
    → ((observe pressured critical unloadable now g).1 ≡ true) ↔ (
        (pressured ≡ true)
        × (needed critical g ≤ g.consecutive + 1)
        × (0 < unloadable)
        × (cooling now g ≡ false))
unfolding observe cooling
observe_iff pressured critical unloadable now g = ground arith

-- Two unloads in a row are a cooldown apart, both in nanoseconds.
abbrev pub Spaced : ℕ → Option ℕ → List ℕ → Type 0
Spaced cooldown last [] = Unit
Spaced cooldown none (t ∷ ts) = Spaced cooldown (some t) ts
Spaced cooldown (some last) (t ∷ ts) = (last + cooldown ≤ t) × Spaced cooldown (some t) ts

observe-last :
    (x : Sample) (g : MemGuardState) (r : MemGuardState × Bool)
    → r ≡ observe x.pressured x.critical x.unloadable x.now g
    → (r.0.cooldown_seconds ≡ g.cooldown_seconds)
      × (((r.1 ≡ true) × (r.0.last_trigger ≡ some x.now) × (cooling x.now g ≡ false))
          ⊎ ((r.1 ≡ false) × (r.0.last_trigger ≡ g.last_trigger)))
unfolding observe cooling
observe-last x g r e = ground arith

duration_bits-same :
    (seconds : ℕ)
    → seconds * 1000000000 < 9223372036854775808
    → duration_bits seconds ≡ seconds * 1000000000
unfolding duration_bits
duration_bits-same seconds b = mod-eq_of_lt (omega (arith, b))

not_within-le :
    (now last seconds : ℕ)
    → seconds * 1000000000 < 9223372036854775808
    → within now last seconds ≡ false
    → last + seconds * 1000000000 ≤ now
unfolding within
not_within-le now last seconds b h = ground (arith, duration_bits-same seconds b)

not_cooling-le :
    (now last : ℕ) (g : MemGuardState)
    → g.last_trigger ≡ some last
    → g.cooldown_seconds * 1000000000 < 9223372036854775808
    → cooling now g ≡ false
    → last + g.cooldown_seconds * 1000000000 ≤ now
unfolding cooling
not_cooling-le now last g e b h = not_within-le now last g.cooldown_seconds b (rw e at h)

-- Whatever the samples, when the cooldown is less than 2^63 nanoseconds, that is, fits into a
-- `time.Duration`: two unloads that follow each other are at least the cooldown apart, and the first
-- is a cooldown behind the last unload before the samples, if there was one.
pub watch-Spaced :
    (xs : List Sample) (g : MemGuardState)
    → g.cooldown_seconds * 1000000000 < 9223372036854775808
    → Spaced (g.cooldown_seconds * 1000000000) g.last_trigger (watch xs g)
unfolding watch
watch-Spaced [] g b = tt
watch-Spaced (x ∷ xs) g b =
    let r = observe x.pressured x.critical x.unloadable x.now g in
    let (same, trips) = observe-last x g r refl in
    let rest =
      watch-Spaced xs r.0 (subst (λ c. c * 1000000000 < 9223372036854775808) (sym same) b) in
    elim trips [
      | inr (p, l) ↦ rw p (
          subst (λ c. Spaced (c * 1000000000) g.last_trigger (watch xs r.0)) same
            (subst (λ l'. Spaced (r.0.cooldown_seconds * 1000000000) l' (watch xs r.0)) l rest))
      | inl (p, l, c) ↦
          let on =
            subst (λ c'. Spaced (c' * 1000000000) (some x.now) (watch xs r.0)) same
              (subst (λ l'. Spaced (r.0.cooldown_seconds * 1000000000) l' (watch xs r.0)) l rest) in
          rw p (elim (Option-cases g.last_trigger) [
            | inl e ↦ rw e on
            | inr (last, e) ↦ rw e (not_cooling-le x.now last g e b c, on)
          ])
    ]

-- The state after the samples, the newest first.
abbrev pub after : List Sample → MemGuardState → MemGuardState
after [] g = g
after (x ∷ xs) g = (observe x.pressured x.critical x.unloadable x.now (after xs g)).0

-- How many of the newest samples were under pressure in a row.
abbrev pub streak : List Sample → ℕ
streak [] = 0
streak (x ∷ xs) = if x.pressured then streak xs + 1 else 0

observe-consecutive :
    (x : Sample) (g : MemGuardState) (n : ℕ)
    → g.consecutive ≤ n
    → (observe x.pressured x.critical x.unloadable x.now g).0.consecutive
      ≤ (if x.pressured then n + 1 else 0)
unfolding observe cooling
observe-consecutive x g n h = ground arith

consecutive-streak :
    (xs : List Sample) (g : MemGuardState)
    → g.consecutive ≡ 0
    → (after xs g).consecutive ≤ streak xs
consecutive-streak [] g e = omega (arith, e)
consecutive-streak (x ∷ xs) g e =
    observe-consecutive x (after xs g) (streak xs) (consecutive-streak xs g e)

observe-samples :
    (x : Sample) (g : MemGuardState)
    → (observe x.pressured x.critical x.unloadable x.now g).0.consecutive_samples
      ≡ g.consecutive_samples
unfolding observe cooling
observe-samples x g = ground arith

after-samples :
    (xs : List Sample) (g : MemGuardState)
    → (after xs g).consecutive_samples ≡ g.consecutive_samples
after-samples [] g = refl
after-samples (x ∷ xs) g = observe-samples x (after xs g) ∙ after-samples xs g

-- From a state that has counted no sample: when the guard unloads on a sample that is not critical,
-- the newest `consecutive_samples` samples, this one among them, were all under pressure.
pub unload-streak :
    (x : Sample) (xs : List Sample) (g : MemGuardState)
    → g.consecutive ≡ 0
    → x.critical ≡ false
    → (observe x.pressured x.critical x.unloadable x.now (after xs g)).1 ≡ true
    → g.consecutive_samples ≤ streak (x ∷ xs)
unload-streak x xs g e c h =
    let (p, n, _, _) = (observe_iff x.pressured x.critical x.unloadable x.now (after xs g)).0 h in
    let n' : (after xs g).consecutive_samples ≤ (after xs g).consecutive + 1 =
      subst
        (λ b. (if b then 1 else (after xs g).consecutive_samples) ≤ (after xs g).consecutive + 1) c
        n in
    rw p (omega (arith, n', consecutive-streak xs g e, after-samples xs g))
