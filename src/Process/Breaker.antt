-- ===== src/Process/Breaker.antt =====
-- internal/process/process_command.go: when the crash-loop breaker refuses a start.
use llama_skein.Base.{
  ℕ, ◌-◌, ◌≡◌, ◌≤◌, ◌<◌, sym, true, List, [], ◌∷◌, arith, Bool-cases, keep, keep-In, length, leb,
  leb→le, leb-false, subst, max, In, inl, inr, ◌⊎◌,
}
use llama_skein.Process.{crash_loop_error, crash_loop_window, crash_loop_cooldown, recent, latest}
use llama_skein.Process.Window.{counted}

-- A backend that exits by itself three times in ten minutes loops.
abbrev pub last_ten_minutes : ℕ → List ℕ → List ℕ
last_ten_minutes now times = keep (λ t. leb (now - t) 600000000000) times

max_cases : (a b : ℕ) → (max a b ≡ a) ⊎ (max a b ≡ b)
max_cases a b = elim (Bool-cases (leb b a)) [
  | inl y ↦ inl (omega (arith, leb→le b a y))
  | inr n ↦ inr (omega (arith, leb-false b a n))
]

latest-In : (xs : List ℕ) → 0 < length xs → In (latest xs) xs
latest-In [] h = absurd (omega (arith, h))
latest-In (x ∷ []) h = inl (omega arith)
latest-In (x ∷ y ∷ xs) h = elim (max_cases x (latest (y ∷ xs))) [
  | inl e ↦ inl e
  | inr e ↦ inr (subst (λ t. In t (y ∷ xs)) (sym e) (latest-In (y ∷ xs) (omega arith)))
]

-- A start is refused only where at least three exits are on record in the last ten minutes, and one
-- of those on record is less than a minute old.
pub crash_loop_error_needs :
    (now : ℕ) (times : List ℕ)
    → crash_loop_error now times ≡ true
    → (3 ≤ length (keep (recent now) times))
      × ((t : ℕ) × In t times × (now - t ≤ crash_loop_window) × (now - t < crash_loop_cooldown))
unfolding crash_loop_error
crash_loop_error_needs now times h =
    let counted = keep (recent now) times in
    let enough : 3 ≤ length counted = ground (arith, h) in
    let cool : now - latest counted < crash_loop_cooldown = ground (arith, h) in
    let (i, r) =
      keep-In (latest counted) (recent now) times (latest-In counted (omega (arith, enough))) in
    (enough, (latest counted, i, leb→le (now - latest counted) crash_loop_window r, cool))
