-- ===== src/LogMonitor/Unrolled.antt =====
-- The circular buffer of internal/logmon/logging.go, read from its oldest byte on.
use native.Mathlib.Nat.{mod-eq_of_lt, mod-eq-sub-mod, mod_self}
use mathlib.Core.List.{append-nil, append_assoc}
use llama_skein.Base.{
  ℕ, ◌+◌, ◌-◌, ◌%◌, ◌≤◌, ◌<◌, ◌≡◌, inl, inr, sym, ap, ◌∙◌, true, List, ◌++◌, leb, ltb, ◌==◌, length,
  length-append, take, drop, arith, Bool-cases,
}
use llama_skein.LogMonitor.{CircularBuffer, overlay, copy_at, grown, get_history}
use llama_skein.LogMonitor.Lists.{
  drop-append_le, drop-append_ge, take-append_le, take_all, drop_all, take-drop, length-take,
  length-drop, overlay_lem, copy_at_lem,
}

-- The last entries of a list, `n` at most.
abbrev pub last : ℕ → List ℕ → List ℕ
last n l = drop (length l - n) l

abbrev pub IsValid : CircularBuffer → Type 0
IsValid cb = (cb.head ≤ length cb.bytes) × (cb.size ≤ length cb.bytes)

-- The bytes in the order in which they were written.
abbrev pub unrolled : CircularBuffer → List ℕ
unrolled cb = drop cb.head cb.bytes ++ take cb.head cb.bytes

abbrev pub content : CircularBuffer → List ℕ
content cb = drop (length cb.bytes - cb.size) (unrolled cb)

module _ (cb : CircularBuffer) (v : IsValid cb) where
  abbrev a : List ℕ
  a = take cb.head cb.bytes

  abbrev b : List ℕ
  b = drop cb.head cb.bytes

  a_b : a ++ b ≡ cb.bytes
  a_b = take-drop cb.head cb.bytes

  pub length-a : length a ≡ cb.head
  length-a = length-take cb.head cb.bytes v.0

  pub length-b : length b ≡ length cb.bytes - cb.head
  length-b = length-drop cb.head cb.bytes

  -- The start, reduced.
  start_high :
      cb.size ≤ cb.head
      → 1 ≤ cb.size
      → (cb.head + length cb.bytes - cb.size) % length cb.bytes ≡ cb.head - cb.size
  start_high h p =
      mod-eq-sub-mod (omega (arith, v, h))
      ∙ ap (λ z. z % length cb.bytes) {y = cb.head - cb.size} (omega (arith, v, h))
      ∙ mod-eq_of_lt (omega (arith, v, h, p))

  start_low :
      cb.head < cb.size
      → (cb.head + length cb.bytes - cb.size) % length cb.bytes
        ≡ cb.head + length cb.bytes - cb.size
  start_low h = mod-eq_of_lt (omega (arith, v, h))

  high : cb.size ≤ cb.head → take cb.size (drop (cb.head - cb.size) cb.bytes) ≡ content cb
  high h =
      ap (λ l. take cb.size (drop (cb.head - cb.size) l)) (sym a_b)
      ∙ ap (take cb.size) (drop-append_le (cb.head - cb.size) a b (omega (arith, length-a)))
      ∙ take-append_le cb.size (drop (cb.head - cb.size) a) b
          (omega (arith, length-drop (cb.head - cb.size) a, length-a, h))
      ∙ take_all cb.size (drop (cb.head - cb.size) a)
          (omega (arith, length-drop (cb.head - cb.size) a, length-a, h))
      ∙ sym (
          drop-append_ge (length cb.bytes - cb.size) b a (omega (arith, length-b, v, h))
          ∙ ap (λ k. drop k a) (omega (arith, length-b, v, h)))

  low :
      cb.head < cb.size
      → drop (cb.head + length cb.bytes - cb.size) cb.bytes ++ take cb.head cb.bytes ≡ content cb
  low h =
      ap (λ l. drop (cb.head + length cb.bytes - cb.size) l ++ a) (sym a_b)
      ∙ ap (λ l. l ++ a)
          (drop-append_ge (cb.head + length cb.bytes - cb.size) a b (omega (arith, length-a, v)))
      ∙ ap (λ k. drop k b ++ a) {y = length cb.bytes - cb.size} (omega (arith, length-a, v, h))
      ∙ sym (drop-append_le (length cb.bytes - cb.size) b a (omega (arith, length-b, v, h)))

  rest :
      cb.head < cb.size
      → drop (cb.head + length cb.bytes - cb.size) cb.bytes
          ++ take (cb.size - (length cb.bytes - (cb.head + length cb.bytes - cb.size))) cb.bytes
        ≡ content cb
  rest h =
      ap (λ k. drop (cb.head + length cb.bytes - cb.size) cb.bytes ++ take k cb.bytes) {y = cb.head}
        (omega (arith, v, h))
      ∙ low h

  at_start :
      cb.head ≡ 0 → take cb.size (drop (cb.head + length cb.bytes - cb.size) cb.bytes) ≡ content cb
  at_start e = rw e (
      take_all cb.size (drop (0 + length cb.bytes - cb.size) cb.bytes)
        (omega (arith, length-drop (0 + length cb.bytes - cb.size) cb.bytes, v))
      ∙ ap (λ k. drop k cb.bytes) {y = length cb.bytes - cb.size} (omega arith)
      ∙ ap (drop (length cb.bytes - cb.size)) (sym (append-nil _)))

  pub get_history-content : get_history cb ≡ content cb
  unfolding get_history
  get_history-content = elim (Bool-cases (cb.size == 0)) [
    | inl z ↦
        let e : cb.size ≡ 0 = ground (arith, z) in
        rw z (
          sym (
            drop_all (length cb.bytes - cb.size) (unrolled cb)
              (omega (arith, e, length-append b a, length-a, length-b, v))))
    | inr z ↦
        let p : 1 ≤ cb.size = ground (arith, z) in
        elim (Bool-cases (leb cb.size cb.head)) [
          | inl h ↦
              let k : cb.size ≤ cb.head = ground (arith, h) in
              let t : leb (cb.head - cb.size + cb.size) (length cb.bytes) ≡ true =
                ground (arith, k, v) in
              rw (z, start_high k p, t) (high k)
          | inr h ↦
              let k : cb.head < cb.size = ground (arith, h) in
              elim (Bool-cases
                (leb (cb.head + length cb.bytes - cb.size + cb.size) (length cb.bytes))) [
                  | inl t ↦ rw (z, start_low k, t) (at_start (ground (arith, t, v)))
                  | inr t ↦ rw (z, start_low k, t) (rest k)
                ]
        ]
  ]

  -- The two branches of a short write.
  abbrev pub straight : List ℕ → CircularBuffer
  straight p = record {
    bytes = copy_at cb.head p cb.bytes;
    head = (cb.head + length p) % length cb.bytes;
    size = grown (cb.size + length p) (length cb.bytes);
  }

  abbrev pub wrapped : List ℕ → CircularBuffer
  wrapped p = record {
    bytes =
        overlay (drop (length cb.bytes - cb.head) p)
          (copy_at cb.head (take (length cb.bytes - cb.head) p) cb.bytes);
    head = length p - (length cb.bytes - cb.head);
    size = grown (cb.size + length p) (length cb.bytes);
  }

  copied :
      (p : List ℕ)
      → length p ≤ length cb.bytes - cb.head
      → copy_at cb.head p cb.bytes ≡ a ++ p ++ drop (length p) b
  copied p h =
      ap (λ k. copy_at k p cb.bytes) (sym length-a)
      ∙ ap (copy_at (length a) p) (sym a_b)
      ∙ copy_at_lem a p b
      ∙ ap (λ l. a ++ l) (overlay_lem p b (omega (arith, h, length-b)))
      ∙ sym (append_assoc a p (drop (length p) b))

  pub length-copied :
      (p : List ℕ)
      → length p ≤ length cb.bytes - cb.head
      → length (copy_at cb.head p cb.bytes) ≡ length cb.bytes
  length-copied p h =
      ap length (copied p h)
      ∙ omega (
        arith,
        length-append (a ++ p) (drop (length p) b),
        length-append a p,
        length-drop (length p) b,
        length-a,
        length-b,
        h,
        v,
      )

  wrapped_head : {n : ℕ} → n ≡ length cb.bytes → n % length cb.bytes ≡ 0
  wrapped_head e = ap (λ k. k % length cb.bytes) e ∙ mod_self (length cb.bytes)

  -- The old bytes without the oldest, then the new ones.
  pub unrolled-straight :
      (p : List ℕ)
      → length p ≤ length cb.bytes - cb.head
      → length p < length cb.bytes
      → unrolled (straight p) ≡ drop (length p) (unrolled cb) ++ p
  unrolled-straight p h l = elim (Bool-cases (ltb (cb.head + length p) (length cb.bytes))) [
    | inl t ↦
        let e : (cb.head + length p) % length cb.bytes ≡ cb.head + length p =
          mod-eq_of_lt (ground (arith, t)) in
        rw (e, copied p h)
          (ap (λ x. x ++ take (cb.head + length p) ((a ++ p) ++ drop (length p) b))
              (drop-append_ge (cb.head + length p) (a ++ p) (drop (length p) b)
                  (omega (arith, length-append a p, length-a))
                ∙ ap (λ k. drop k (drop (length p) b)) {y = 0}
                    (omega (arith, length-append a p, length-a)))
            ∙ ap (λ x. drop (length p) b ++ x)
                (take-append_le (cb.head + length p) (a ++ p) (drop (length p) b)
                    (omega (arith, length-append a p, length-a))
                  ∙ take_all (cb.head + length p) (a ++ p)
                      (omega (arith, length-append a p, length-a)))
            ∙ sym (append_assoc (drop (length p) b) a p)
            ∙ ap (λ x. x ++ p) (sym (drop-append_le (length p) b a (omega (arith, h, length-b)))))
    | inr t ↦
        let full : cb.head + length p ≡ length cb.bytes = ground (arith, t, h, v) in
        let e : (cb.head + length p) % length cb.bytes ≡ 0 = wrapped_head full in
        rw (e, copied p h)
          (append-nil _
            ∙ ap (λ x. (a ++ p) ++ x) (drop_all (length p) b (omega (arith, length-b, full)))
            ∙ append-nil _
            ∙ ap (λ x. x ++ p)
                (sym (
                  drop-append_le (length p) b a (omega (arith, h, length-b))
                  ∙ ap (λ x. x ++ a) (drop_all (length p) b (omega (arith, length-b, full))))))
  ]

  module _ (p : List ℕ) (h : length cb.bytes - cb.head < length p)
      (l : length p < length cb.bytes) where
    abbrev q : List ℕ
    q = take (length cb.bytes - cb.head) p

    abbrev r : List ℕ
    r = drop (length cb.bytes - cb.head) p

    length-q : length q ≡ length cb.bytes - cb.head
    length-q = length-take (length cb.bytes - cb.head) p (omega (arith, h))

    length-r : length r ≡ length p - (length cb.bytes - cb.head)
    length-r = length-drop (length cb.bytes - cb.head) p

    wrapped_bytes : overlay r (copy_at cb.head q cb.bytes) ≡ r ++ drop (length r) (a ++ q)
    wrapped_bytes =
        ap (overlay r) (
          copied q (omega (arith, length-q))
          ∙ ap (λ x. (a ++ q) ++ x) (drop_all (length q) b (omega (arith, length-q, length-b)))
          ∙ append-nil _)
        ∙ overlay_lem r (a ++ q)
            (omega (arith, length-append a q, length-a, length-q, length-r, h, l, v))

    pub length-wrapped : length (overlay r (copy_at cb.head q cb.bytes)) ≡ length cb.bytes
    length-wrapped =
        ap length wrapped_bytes
        ∙ omega (
          arith,
          length-append r (drop (length r) (a ++ q)),
          length-drop (length r) (a ++ q),
          length-append a q,
          length-a,
          length-q,
          length-r,
          h,
          l,
          v,
        )

    pub unrolled-wrapped : unrolled (wrapped p) ≡ drop (length p) (unrolled cb) ++ p
    unrolled-wrapped = rw wrapped_bytes (
        ap (λ x. x ++ take (length p - (length cb.bytes - cb.head)) (r ++ drop (length r) (a ++ q)))
          (drop-append_ge (length p - (length cb.bytes - cb.head)) r (drop (length r) (a ++ q))
              (omega (arith, length-r))
            ∙ ap (λ k. drop k (drop (length r) (a ++ q))) {y = 0} (omega (arith, length-r)))
        ∙ ap (λ x. drop (length r) (a ++ q) ++ x)
            (take-append_le (length p - (length cb.bytes - cb.head)) r (drop (length r) (a ++ q))
                (omega (arith, length-r))
              ∙ take_all (length p - (length cb.bytes - cb.head)) r (omega (arith, length-r)))
        ∙ ap (λ x. x ++ r)
            (drop-append_le (length r) a q (omega (arith, length-a, length-r, h, l, v)))
        ∙ append_assoc (drop (length r) a) q r
        ∙ ap (λ x. drop (length r) a ++ x) (take-drop (length cb.bytes - cb.head) p)
        ∙ ap (λ x. x ++ p)
            (ap (λ k. drop k a) {y = length p - length b} (omega (arith, length-b, length-r))
              ∙ sym (drop-append_ge (length p) b a (omega (arith, length-b, h)))))

pub length-unrolled : (cb : CircularBuffer) → IsValid cb → length (unrolled cb) ≡ length cb.bytes
length-unrolled cb v =
    length-append (drop cb.head cb.bytes) (take cb.head cb.bytes)
    ∙ omega (arith, length-a cb v, length-b cb v, v)
