-- ===== src/MemGuard.antt =====
-- internal/server/memguard.go: when the memory guard unloads the models, and when a load is refused.
-- A time is a number of nanoseconds, and the zero time is none.
pub mod Trips
pub mod Samples
use llama_skein.Base.{
  ℕ, zero, suc, ◌+◌, ◌-◌, ◌*◌, ◌%◌, Bool, true, false, not, ◌&&◌, ◌||◌, Option, none, some, List,
  [], ◌∷◌, ltb, leb, ◌==◌, if◌then◌else◌,
}

-- `memGuardState`, with the fields of its configuration that it reads.
pub record MemGuardState : Type 0 where
  pub consecutive_samples : ℕ
  pub cooldown_seconds : ℕ
  pub consecutive : ℕ
  pub last_trigger : Option ℕ

-- The samples that must be under pressure in a row.
abbrev pub needed : Bool → MemGuardState → ℕ
needed critical g = if critical then 1 else g.consecutive_samples

-- `time.Duration(seconds) * time.Second`, in nanoseconds, as the 64 bits of an int64.
unfoldable pub duration_bits : ℕ → ℕ
duration_bits seconds = (seconds * 1000000000) % 18446744073709551616

-- `now.Sub(last) < time.Duration(seconds)*time.Second`: the product is negative from 2^63 on.
unfoldable pub within : ℕ → ℕ → ℕ → Bool
unfolding duration_bits
within now last seconds =
    let d = duration_bits seconds in
    if ltb d 9223372036854775808
    then ltb now (last + d)
    else ltb (now + 18446744073709551616) (last + d)

-- `!g.lastTrigger.IsZero() && now.Sub(g.lastTrigger) < …`
unfoldable pub cooling : ℕ → MemGuardState → Bool
unfolding within
cooling now g = elim g.last_trigger [
  | none ↦ false
  | some last ↦ within now last g.cooldown_seconds
]

-- `Observe`: the next state, and whether to unload.
unfoldable pub observe : Bool → Bool → ℕ → ℕ → MemGuardState → MemGuardState × Bool
observe pressured critical unloadable now g =
    if not pressured
    then (record g { consecutive = 0 }, false)
    else (let counted = record g { consecutive = g.consecutive + 1 } in
        if ltb counted.consecutive (needed critical g)
        then (counted, false)
        else (if unloadable == 0
            then (counted, false)
            else (if cooling now counted
                then (counted, false)
                else (record counted { last_trigger = some now; consecutive = 0 }, true))))

-- One sample of `hostUnderPressure`, with what the caller passes on.
pub record Sample : Type 0 where
  pub pressured : Bool
  pub critical : Bool
  pub unloadable : ℕ
  pub now : ℕ

-- The loop of `startMemoryGuard`: the times at which it unloads.
unfoldable pub watch : List Sample → MemGuardState → List ℕ
watch [] g = []
watch (x ∷ xs) g =
    let r = observe x.pressured x.critical x.unloadable x.now g in
    let rest = watch xs r.0 in if r.1 then x.now ∷ rest else rest
