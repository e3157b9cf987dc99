-- ===== src/LogMonitor.antt =====
-- internal/logmon/logging.go: the circular buffer of a log monitor, and the monitor's writes. The
-- size of the buffer (`BufferSize` in the source) is a field of the monitor, for it may be any; the
-- output is a flag for each write. Prefixes, time stamps and formats, `SetPrefix` and
-- `SetLogTimeFormat` with them, are not modelled: a message is what `formatMessage` made of it.
pub mod Lists
pub mod Unrolled
pub mod Written
pub mod History
pub mod Samples
use llama_skein.Base.{
  ℕ, zero, suc, ◌+◌, ◌-◌, ◌%◌, Bool, true, false, Option, none, some, List, [], ◌∷◌, ◌++◌, leb, ltb,
  ◌==◌, length, take, drop, replicate, if◌then◌else◌,
}

-- `circularBuffer`
pub record CircularBuffer : Type 0 where
  pub bytes : List ℕ
  pub head : ℕ
  pub size : ℕ

-- `newCircularBuffer`
abbrev pub new_circular_buffer : ℕ → CircularBuffer
new_circular_buffer capacity = record { bytes = replicate capacity 0; head = 0; size = 0 }

-- `copy(dst, src)`
unfoldable pub overlay : List ℕ → List ℕ → List ℕ
overlay [] dst = dst
overlay (b ∷ src) [] = []
overlay (b ∷ src) (d ∷ dst) = b ∷ overlay src dst

-- `copy(dst[at:], src)`
unfoldable pub copy_at : ℕ → List ℕ → List ℕ → List ℕ
unfolding overlay
copy_at zero src dst = overlay src dst
copy_at (suc n) src [] = []
copy_at (suc n) src (d ∷ dst) = d ∷ copy_at n src dst

-- The bound on the size at the end of `Write`.
abbrev pub grown : ℕ → ℕ → ℕ
grown size cap = if ltb cap size then cap else size

-- `Write`
unfoldable pub write : List ℕ → CircularBuffer → CircularBuffer
unfolding copy_at
write p cb =
    let cap = length cb.bytes in
    let first = cap - cb.head in
    if length p == 0
    then cb
    else (if leb cap (length p)
        then record { bytes = overlay (drop (length p - cap) p) cb.bytes; head = 0; size = cap }
        else (if leb (length p) first
            then record {
              bytes = copy_at cb.head p cb.bytes;
              head = (cb.head + length p) % cap;
              size = grown (cb.size + length p) cap;
            }
            else record {
              bytes = overlay (drop first p) (copy_at cb.head (take first p) cb.bytes);
              head = length p - first;
              size = grown (cb.size + length p) cap;
            }))

-- `GetHistory`
unfoldable pub get_history : CircularBuffer → List ℕ
get_history cb =
    let cap = length cb.bytes in
    let start = (cb.head + cap - cb.size) % cap in
    if cb.size == 0
    then []
    else (if leb (start + cb.size) cap
        then take cb.size (drop start cb.bytes)
        else drop start cb.bytes ++ take (cb.size - (cap - start)) cb.bytes)

-- `Monitor`, with the messages that were broadcast.
pub record Monitor : Type 0 where
  pub buffer_size : ℕ
  pub buffer : Option CircularBuffer
  pub level : ℕ
  pub broadcasts : List (List ℕ)

-- The buffer, made on the first write.
abbrev pub buffer_or_new : ℕ → Option CircularBuffer → CircularBuffer
buffer_or_new n none = new_circular_buffer n
buffer_or_new n (some cb) = cb

-- `Monitor.Write`; the flag says whether the output took the bytes.
unfoldable pub monitor_write : List ℕ → Bool → Monitor → Monitor
unfolding write
monitor_write p written w =
    if length p == 0
    then w
    else (if written
        then record w {
          buffer = some (write p (buffer_or_new w.buffer_size w.buffer));
          broadcasts = w.broadcasts ++ p ∷ [];
        }
        else w)

-- `Monitor.GetHistory`
unfoldable pub monitor_history : Monitor → List ℕ
unfolding get_history
monitor_history w = elim w.buffer [ none ↦ [] | some cb ↦ get_history cb ]

-- `Clear`
abbrev pub clear_history : Monitor → Monitor
clear_history w = record w { buffer = none }

-- `log`, with the formatted message.
abbrev pub log_at : ℕ → List ℕ → Bool → Monitor → Monitor
log_at level message written w = if ltb level w.level then w else monitor_write message written w

-- `SetLogLevel`
abbrev pub set_log_level : ℕ → Monitor → Monitor
set_log_level level w = record w { level = level }

-- What reaches a monitor.
pub data Use : Type 0 where
  logs : ℕ → List ℕ → Bool → Use
  writes : List ℕ → Bool → Use
  clears : Use
  sets_level : ℕ → Use

unfoldable pub use_monitor : Use → Monitor → Monitor
unfolding monitor_write
use_monitor (logs level message written) w = log_at level message written w
use_monitor (writes p written) w = monitor_write p written w
use_monitor clears w = clear_history w
use_monitor (sets_level level) w = set_log_level level w

unfoldable pub use_all : List Use → Monitor → Monitor
unfolding use_monitor
use_all [] w = w
use_all (x ∷ xs) w = use_all xs (use_monitor x w)
