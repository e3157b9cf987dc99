-- ===== src/LogMonitor/History.antt =====
-- What `GetHistory` of internal/logmon/logging.go returns after writes.
use mathlib.Core.List.{append-nil}
use llama_skein.Base.{
  ℕ, zero, suc, ◌-◌, ◌≤◌, ◌≡◌, refl, sym, ap, subst, ◌∙◌, Bool, true, false, Option, none, some,
  List, [], ◌∷◌, ◌++◌, ltb, ◌==◌, length, length-append, drop, replicate, if◌then◌else◌, arith,
}
use llama_skein.LogMonitor.{
  CircularBuffer, new_circular_buffer, write, get_history, Monitor, buffer_or_new, monitor_write,
  monitor_history, Use, logs, writes, clears, sets_level, log_at, use_monitor, use_all,
}
use llama_skein.LogMonitor.Lists.{drop-append_le, drop_all, length-drop, drop-drop}
use llama_skein.LogMonitor.Unrolled.{last, IsValid, content, get_history-content}
use llama_skein.LogMonitor.Written.{write-Written}

last-last : (n : ℕ) (x p : List ℕ) → last n (last n x ++ p) ≡ last n (x ++ p)
last-last n x p =
    let k = length x - n in
    ap (λ l. drop (length l - n) l) (sym (drop-append_le k x p (omega arith)))
    ∙ drop-drop (length (drop k (x ++ p)) - n) k (x ++ p)
    ∙ ap (λ m. drop m (x ++ p)) (omega (arith, length-drop k (x ++ p), length-append x p))

-- What was written since the last clearing, by the writes that count at the level of their time.
abbrev pub said : ℕ → List Use → List ℕ → List ℕ
said level [] sofar = sofar
said level (logs l message written ∷ uses) sofar =
    said level uses (if ltb l level then sofar else (if written then sofar ++ message else sofar))
said level (writes p written ∷ uses) sofar = said level uses (if written then sofar ++ p else sofar)
said level (clears ∷ uses) sofar = said level uses []
said level (sets_level l ∷ uses) sofar = said l uses sofar

abbrev HoldsIn : ℕ → List ℕ → Option CircularBuffer → Type 0
HoldsIn n sofar none = sofar ≡ []
HoldsIn n sofar (some cb) = IsValid cb × (length cb.bytes ≡ n) × (content cb ≡ last n sofar)

-- The buffer holds the last bytes of what was said.
abbrev pub Holds : Monitor → List ℕ → Type 0
Holds w sofar = HoldsIn w.buffer_size sofar w.buffer

length-replicate : (n : ℕ) → length {A = ℕ} (replicate n 0) ≡ n
length-replicate zero = refl
length-replicate (suc n) = ap suc (length-replicate n)

new-HoldsIn : (n : ℕ) → HoldsIn n [] (some (new_circular_buffer n))
new-HoldsIn n = (
  (omega arith, omega arith),
  length-replicate n,
  drop_all (length (replicate n 0) - 0) (replicate n 0 ++ [])
        (omega (arith, length-append {A = ℕ} (replicate n 0) []))
      ∙ sym (drop_all (0 - n) [] (omega arith)),
)

made-HoldsIn :
    (n : ℕ) (sofar : List ℕ) (o : Option CircularBuffer)
    → HoldsIn n sofar o
    → HoldsIn n sofar (some (buffer_or_new n o))
made-HoldsIn n sofar none h =
    subst (λ l. HoldsIn n l (some (new_circular_buffer n))) (sym h) (new-HoldsIn n)
made-HoldsIn n sofar (some cb) h = h

written-HoldsIn :
    (n : ℕ) (sofar p : List ℕ) (cb : CircularBuffer)
    → 1 ≤ length p
    → HoldsIn n sofar (some cb)
    → HoldsIn n (sofar ++ p) (some (write p cb))
written-HoldsIn n sofar p cb l (v, e, c) =
    let w = write-Written p cb v l in
    (
      w.0,
      w.1 ∙ e,
      w.2
          ∙ ap (λ k. last k (content cb ++ p)) e
          ∙ ap (λ x. last n (x ++ p)) c
          ∙ last-last n sofar p,
    )

empty_list : (p : List ℕ) → (length p == 0) ≡ true → p ≡ []
empty_list [] h = refl
empty_list (x ∷ p) h = ground (arith, h)

monitor_write-Holds :
    (p : List ℕ) (written : Bool) (w : Monitor) (sofar : List ℕ)
    → Holds w sofar
    → Holds (monitor_write p written w) (if written then sofar ++ p else sofar)
unfolding monitor_write
monitor_write-Holds p written w sofar h = by_length (length p == 0) refl
  where
    nothing : (length p == 0) ≡ true → (b : Bool) → sofar ≡ (if b then sofar ++ p else sofar)
    nothing z true = sym (ap (λ l. sofar ++ l) (empty_list p z) ∙ append-nil _)
    nothing z false = refl

    by_output :
        1 ≤ length p
        → (b : Bool)
        → Holds
            (if b
              then record w {
                buffer = some (write p (buffer_or_new w.buffer_size w.buffer));
                broadcasts = w.broadcasts ++ p ∷ [];
              }
              else w)
            (if b then sofar ++ p else sofar)
    by_output l true =
        written-HoldsIn w.buffer_size sofar p _ l (made-HoldsIn w.buffer_size sofar w.buffer h)
    by_output l false = h

    by_length :
        (z : Bool)
        → (length p == 0) ≡ z
        → Holds
            (if z
              then w
              else (if written
                  then record w {
                    buffer = some (write p (buffer_or_new w.buffer_size w.buffer));
                    broadcasts = w.broadcasts ++ p ∷ [];
                  }
                  else w))
            (if written then sofar ++ p else sofar)
    by_length true e = subst (Holds w) (nothing e written) h
    by_length false e = by_output (ground (arith, e)) written

-- Writing does not touch the level or the size of the buffer.
monitor_write-same :
    (p : List ℕ) (written : Bool) (w : Monitor)
    → ((monitor_write p written w).level ≡ w.level)
      × ((monitor_write p written w).buffer_size ≡ w.buffer_size)
unfolding monitor_write
monitor_write-same p written w = by_length (length p == 0) written
  where
    by_length :
        (z b : Bool)
        → ((if z
              then w
              else (if b
                  then record w {
                    buffer = some (write p (buffer_or_new w.buffer_size w.buffer));
                    broadcasts = w.broadcasts ++ p ∷ [];
                  }
                  else w)).level
            ≡ w.level)
          × ((if z
                then w
                else (if b
                    then record w {
                      buffer = some (write p (buffer_or_new w.buffer_size w.buffer));
                      broadcasts = w.broadcasts ++ p ∷ [];
                    }
                    else w)).buffer_size
              ≡ w.buffer_size)
    by_length true b = (refl, refl)
    by_length false true = (refl, refl)
    by_length false false = (refl, refl)

-- Whatever a monitor is used for, its buffer holds the last bytes of what was said.
use_all-Holds :
    (uses : List Use) (w : Monitor) (level : ℕ) (sofar : List ℕ)
    → w.level ≡ level
    → Holds w sofar
    → Holds (use_all uses w) (said level uses sofar)
unfolding use_all use_monitor
use_all-Holds [] w level sofar e h = h
use_all-Holds (writes p written ∷ uses) w level sofar e h =
    use_all-Holds uses (monitor_write p written w) level _ ((monitor_write-same p written w).0 ∙ e)
      (monitor_write-Holds p written w sofar h)
use_all-Holds (clears ∷ uses) w level sofar e h =
    use_all-Holds uses (record w { buffer = none }) level [] e refl
use_all-Holds (sets_level l ∷ uses) w level sofar e h =
    use_all-Holds uses (record w { level = l }) l sofar refl h
use_all-Holds (logs l message written ∷ uses) w level sofar e h =
    use_all-Holds uses (log_at l message written w) level _ (by_level (ltb l w.level)).0 (
      subst
        (λ k.
          Holds (log_at l message written w)
            (if ltb l k then sofar else (if written then sofar ++ message else sofar)))
        e (by_level (ltb l w.level)).1)
  where
    by_level :
        (b : Bool)
        → ((if b then w else monitor_write message written w).level ≡ level)
          × Holds
              (if b then w else monitor_write message written w)
              (if b then sofar else (if written then sofar ++ message else sofar))
    by_level true = (e, h)
    by_level false = (
      (monitor_write-same message written w).0 ∙ e,
      monitor_write-Holds message written w sofar h,
    )

log_at-size :
    (b : Bool) (message : List ℕ) (written : Bool) (w : Monitor)
    → (if b then w else monitor_write message written w).buffer_size ≡ w.buffer_size
log_at-size true message written w = refl
log_at-size false message written w = (monitor_write-same message written w).1

use_all-size : (uses : List Use) (w : Monitor) → (use_all uses w).buffer_size ≡ w.buffer_size
unfolding use_all use_monitor
use_all-size [] w = refl
use_all-size (writes p written ∷ uses) w =
    use_all-size uses (monitor_write p written w) ∙ (monitor_write-same p written w).1
use_all-size (clears ∷ uses) w = use_all-size uses (record w { buffer = none })
use_all-size (sets_level l ∷ uses) w = use_all-size uses (record w { level = l })
use_all-size (logs l message written ∷ uses) w =
    use_all-size uses (log_at l message written w) ∙ log_at-size (ltb l w.level) message written w

-- What a buffer that holds the last bytes returns.
HoldsIn-history :
    (n : ℕ) (sofar : List ℕ) (o : Option CircularBuffer)
    → HoldsIn n sofar o
    → elim o [ none ↦ [] | some cb ↦ get_history cb ] ≡ last n sofar
HoldsIn-history n sofar none h = rw h (sym (drop_all (0 - n) [] (omega arith)))
HoldsIn-history n sofar (some cb) (v, e, c) = get_history-content cb v ∙ c

-- A new monitor, as `NewWriter` makes it.
abbrev pub new_monitor : ℕ → ℕ → Monitor
new_monitor size level = record {
  buffer_size = size;
  buffer = none;
  level = level;
  broadcasts = [];
}

-- Log to a new monitor, write to it, clear it and set its level, in any order. What `GetHistory`
-- returns then is the end of what was said since the last clearing, in its order and as much as fits
-- into the buffer: of the messages at or above the level that was set when they came, and of the bytes
-- written, those that the output took.
pub use_all-history :
    (size level : ℕ) (uses : List Use)
    → monitor_history (use_all uses (new_monitor size level)) ≡ last size (said level uses [])
unfolding monitor_history
use_all-history size level uses =
    let w = use_all uses (new_monitor size level) in
    HoldsIn-history w.buffer_size (said level uses []) w.buffer
      (use_all-Holds uses (new_monitor size level) level [] refl refl)
    ∙ ap (λ n. last n (said level uses [])) (use_all-size uses (new_monitor size level))
