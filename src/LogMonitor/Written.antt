-- ===== src/LogMonitor/Written.antt =====
-- What one write of internal/logmon/logging.go gives, on each branch.
use native.Mathlib.Nat.{mod-lt}
use mathlib.Core.List.{append-nil}
use llama_skein.Base.{
  ℕ, ◌+◌, ◌-◌, ◌%◌, ◌≤◌, ◌<◌, ◌≡◌, inl, inr, refl, sym, ap, ◌∙◌, false, List, [], ◌++◌, leb, ltb,
  ◌==◌, length, length-append, drop, arith, Bool-cases,
}
use llama_skein.LogMonitor.{CircularBuffer, overlay, grown, write, get_history}
use llama_skein.LogMonitor.Lists.{
  drop-append_le, drop-append_ge, drop_all, length-drop, drop-drop, overlay_lem,
}
use llama_skein.LogMonitor.Unrolled.{
  last, IsValid, unrolled, content, get_history-content, straight, wrapped, unrolled-straight,
  unrolled-wrapped, length-copied, length-wrapped, length-unrolled,
}

-- What one write gives, whichever branch it takes.
abbrev pub Written : List ℕ → CircularBuffer → CircularBuffer → Type 0
Written p cb cb' =
    IsValid cb'
    × (length cb'.bytes ≡ length cb.bytes)
    × (content cb' ≡ last (length cb.bytes) (content cb ++ p))

-- The oldest bytes go when there is no room.
pub kept :
    (n size : ℕ) (u p : List ℕ)
    → length u ≡ n
    → size ≤ n
    → length p < n
    → drop (n - grown (size + length p) n) (drop (length p) u ++ p)
      ≡ last n (drop (n - size) u ++ p)
kept n size u p e h l = elim (Bool-cases (ltb n (size + length p))) [
  | inl t ↦
      let more : n < size + length p = ground (arith, t) in
      rw t (
        ap (λ k. drop k (drop (length p) u ++ p)) {y = 0} (omega arith)
        ∙ ap (λ k. drop k u ++ p) {y = n - size + (size + length p - n)} (omega (arith, more, h))
        ∙ sym (
            ap (λ k. drop k (drop (n - size) u ++ p)) {y = size + length p - n}
              (omega (arith, length-append (drop (n - size) u) p, length-drop (n - size) u, e, h))
            ∙ drop-append_le (size + length p - n) (drop (n - size) u) p
                (omega (arith, length-drop (n - size) u, e, h, l))
            ∙ ap (λ x. x ++ p) (drop-drop (size + length p - n) (n - size) u)))
  | inr t ↦
      let room : size + length p ≤ n = ground (arith, t) in
      rw t (
        drop-append_le (n - (size + length p)) (drop (length p) u) p
          (omega (arith, length-drop (length p) u, e, room))
        ∙ ap (λ x. x ++ p)
            (drop-drop (n - (size + length p)) (length p) u
              ∙ ap (λ k. drop k u) {y = n - size} (omega (arith, room)))
        ∙ sym (
            ap (λ k. drop k (drop (n - size) u ++ p)) {y = 0}
              (omega (
                arith,
                length-append (drop (n - size) u) p,
                length-drop (n - size) u,
                e,
                h,
                room,
              ))))
]

pub grown-le : (size n : ℕ) → grown size n ≤ n
grown-le size n = ground arith

-- A short write, with the sizes worked out.
pub short-Written :
    (p : List ℕ) (cb cb' : CircularBuffer)
    → IsValid cb
    → cb'.head ≤ length cb.bytes
    → length p < length cb.bytes
    → length cb'.bytes ≡ length cb.bytes
    → cb'.size ≡ grown (cb.size + length p) (length cb.bytes)
    → unrolled cb' ≡ drop (length p) (unrolled cb) ++ p
    → Written p cb cb'
short-Written p cb cb' v h l n s e = (
  (omega (arith, h, n), omega (arith, s, n, grown-le (cb.size + length p) (length cb.bytes))),
  n,
  ap (λ k. drop (k - cb'.size) (unrolled cb')) n
      ∙ ap (λ k. drop (length cb.bytes - k) (unrolled cb')) s
      ∙ ap (drop (length cb.bytes - grown (cb.size + length p) (length cb.bytes))) e
      ∙ kept (length cb.bytes) cb.size (unrolled cb) p (length-unrolled cb v) v.1 l,
)

-- A write of as much as the buffer holds, or more.
pub long-Written :
    (p : List ℕ) (cb : CircularBuffer)
    → IsValid cb
    → length cb.bytes ≤ length p
    → Written p cb (record {
      bytes = overlay (drop (length p - length cb.bytes) p) cb.bytes;
      head = 0;
      size = length cb.bytes;
    })
long-Written p cb v h =
    let e = whole in
    rw e (
      (omega arith, omega (arith, length-drop (length p - length cb.bytes) p, h)),
      omega (arith, length-drop (length p - length cb.bytes) p, h),
      ap (λ k. drop k (drop (length p - length cb.bytes) p ++ [])) {y = 0}
            (omega (arith, length-drop (length p - length cb.bytes) p, h))
          ∙ append-nil _
          ∙ sym (
              drop-append_ge (length (content cb ++ p) - length cb.bytes) (content cb) p
                (omega (arith, length-append (content cb) p, h))
              ∙ ap (λ k. drop k p) (omega (arith, length-append (content cb) p, h))),
    )
  where
    whole :
        overlay (drop (length p - length cb.bytes) p) cb.bytes ≡ drop (length p - length cb.bytes) p
    whole =
        overlay_lem (drop (length p - length cb.bytes) p) cb.bytes
          (omega (arith, length-drop (length p - length cb.bytes) p))
        ∙ ap (λ x. drop (length p - length cb.bytes) p ++ x)
            (drop_all (length (drop (length p - length cb.bytes) p)) cb.bytes
              (omega (arith, length-drop (length p - length cb.bytes) p, h)))
        ∙ append-nil _

pub mod-le : (m n : ℕ) → 1 ≤ n → m % n ≤ n
mod-le m n h = let l : m % n < n = mod-lt m h in omega (arith, l)

pub write-Written :
    (p : List ℕ) (cb : CircularBuffer) → IsValid cb → 1 ≤ length p → Written p cb (write p cb)
unfolding write
write-Written p cb v h =
    let z : (length p == 0) ≡ false = ground (arith, h) in
    elim (Bool-cases (leb (length cb.bytes) (length p))) [
      | inl t ↦ rw (z, t) (long-Written p cb v (ground (arith, t)))
      | inr t ↦
          let l : length p < length cb.bytes = ground (arith, t) in
          elim (Bool-cases (leb (length p) (length cb.bytes - cb.head))) [
            | inl k ↦
                let k' : length p ≤ length cb.bytes - cb.head = ground (arith, k) in
                rw (z, t, k)
                  (short-Written p cb (straight cb v p) v
                    (mod-le (cb.head + length p) (length cb.bytes) (omega (arith, l))) l
                    (length-copied cb v p k') refl (unrolled-straight cb v p k' l))
            | inr k ↦
                let k' : length cb.bytes - cb.head < length p = ground (arith, k) in
                rw (z, t, k)
                  (short-Written p cb (wrapped cb v p) v (omega (arith, l)) l
                    (length-wrapped cb v p k' l) refl (unrolled-wrapped cb v p k' l))
          ]
    ]

-- After a write `GetHistory` returns the last bytes of what it returned before and of what was
-- written, as many as the buffer holds.
pub get_history-write :
    (p : List ℕ) (cb : CircularBuffer)
    → IsValid cb
    → 1 ≤ length p
    → get_history (write p cb) ≡ last (length cb.bytes) (get_history cb ++ p)
get_history-write p cb v h =
    let w = write-Written p cb v h in
    get_history-content (write p cb) w.0
    ∙ w.2
    ∙ ap (λ x. last (length cb.bytes) (x ++ p)) (sym (get_history-content cb v))
