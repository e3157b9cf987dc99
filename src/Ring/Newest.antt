-- ===== src/Ring/Newest.antt =====
-- What `Slice` of internal/ring/buffer.go returns after a `Push`.
use native.Mathlib.Nat.{mod-lt, mod-eq_of_lt, mod-eq-sub-mod, mod-add-mod, add-mod_right}
use mathlib.Core.List.{append-nil, append_assoc}
use llama_skein.Base.{
  Option-cases, ℕ, zero, suc, ◌+◌, ◌-◌, ◌%◌, ◌≤◌, ◌<◌, ◌≡◌, ◌≢◌, refl, sym, ap, ◌∙◌, Option, none,
  some, List, [], ◌∷◌, ◌++◌, ltb, length, set, get_elem?, drop, ◌⊎◌, if◌then◌else◌, arith,
  Bool-cases, inl, inr, ltb→lt, lt→ltb, false, ltb-false,
}
use llama_skein.Ring.{Buffer, push, slice_from, slice}

-- The head is a position of the buffer, and no more entries are held than fit.
abbrev pub IsValid : {A : Type 0} → Buffer A → Type 0
IsValid r = (r.head < length r.buf) × (r.size ≤ length r.buf)

module _ {A : Type 0} where
  length-set : (xs : List A) (i : ℕ) (v : A) → length (set xs i v) ≡ length xs
  length-set [] i v = refl
  length-set (x ∷ xs) zero v = refl
  length-set (x ∷ xs) (suc i) v = ap suc (length-set xs i v)

  get_set_same : (xs : List A) (i : ℕ) (v : A) → i < length xs → get_elem? (set xs i v) i ≡ some v
  get_set_same [] i v h = absurd (omega (arith, h))
  get_set_same (x ∷ xs) zero v h = refl
  get_set_same (x ∷ xs) (suc i) v h = get_set_same xs i v (omega (arith, h))

  get_set_other :
      (xs : List A) (i j : ℕ) (v : A) → i ≢ j → get_elem? (set xs i v) j ≡ get_elem? xs j
  get_set_other [] i j v n = refl
  get_set_other (x ∷ xs) zero zero v n = absurd (n refl)
  get_set_other (x ∷ xs) zero (suc j) v n = refl
  get_set_other (x ∷ xs) (suc i) zero v n = refl
  get_set_other (x ∷ xs) (suc i) (suc j) v n = get_set_other xs i j v (λ e. n (ap suc e))

-- A position of the buffer, reduced by hand.
wraps :
    (a b n : ℕ)
    → a < n
    → b ≤ n
    → (((a + b) % n ≡ a + b) × (a + b < n)) ⊎ (((a + b) % n ≡ a + b - n) × (n ≤ a + b))
wraps a b n h l = elim (Bool-cases (ltb (a + b) n)) [
  | inl p ↦ let q = ltb→lt _ _ p in inl (mod-eq_of_lt q, q)
  | inr p ↦
      let q = ltb-false _ _ p in inr (mod-eq-sub-mod q ∙ mod-eq_of_lt (omega (arith, h, l, q)), q)
]

-- Different distances from the head are different positions.
positions_apart : (a b c n : ℕ) → a < n → b < c → c < n → (a + b) % n ≢ (a + c) % n
positions_apart a b c n h l k e = elim (wraps a b n h (omega (arith, l, k))) [
  | inl (p, p') ↦ elim (wraps a c n h (omega (arith, k))) [
    | inl (q, q') ↦ omega (arith, e, p, q, l)
    | inr (q, q') ↦ omega (arith, e, p, q, l, k, p', q')
  ]
  | inr (p, p') ↦ elim (wraps a c n h (omega (arith, k))) [
    | inl (q, q') ↦ omega (arith, e, p, q, l, p', q')
    | inr (q, q') ↦ omega (arith, e, p, q, l, p', q')
  ]
]

-- The place of the oldest entry is the last one from the moved head.
last_place : (head n : ℕ) → head < suc n → ((head + 1) % suc n + (0 + n)) % suc n ≡ head
last_place head n h =
    mod-add-mod (head + 1) (suc n) (0 + n)
    ∙ ap (λ z. z % suc n) {y = head + suc n} (omega arith)
    ∙ add-mod_right head (suc n)
    ∙ mod-eq_of_lt h

module _ {A : Type 0} where
  -- The entry at an index, if it is in range.
  abbrev of_option : Option A → List A
  of_option none = []
  of_option (some v) = v ∷ []

  abbrev entry : List A → ℕ → List A
  entry buf k = of_option (get_elem? buf k)

  slice_from-suc :
      (buf : List A) (head i n : ℕ)
      → slice_from buf head i (suc n)
        ≡ entry buf ((head + i) % length buf) ++ slice_from buf head (i + 1) n
  unfolding slice_from
  slice_from-suc buf head i n = elim (Option-cases (get_elem? buf ((head + i) % length buf))) [
    | inl p ↦ rw (slice_from, p) refl
    | inr (v, p) ↦ rw (slice_from, p) refl
  ]

  slice_from_snoc :
      (buf : List A) (head i n : ℕ)
      → slice_from buf head i (suc n)
        ≡ slice_from buf head i n ++ entry buf ((head + (i + n)) % length buf)
  unfolding slice_from
  slice_from_snoc buf head i zero =
      slice_from-suc buf head i zero
      ∙ append-nil _
      ∙ ap (λ k. entry buf ((head + k) % length buf)) (omega arith)
  slice_from_snoc buf head i (suc n) =
      slice_from-suc buf head i (suc n)
      ∙ ap (λ l. entry buf ((head + i) % length buf) ++ l) (slice_from_snoc buf head (i + 1) n)
      ∙ sym (append_assoc (entry buf ((head + i) % length buf)) (slice_from buf head (i + 1) n) _)
      ∙ ap (λ l. l ++ entry buf ((head + (i + 1 + n)) % length buf))
          (sym (slice_from-suc buf head i n))
      ∙ ap (λ k. slice_from buf head i (suc n) ++ entry buf ((head + k) % length buf)) (omega arith)

  slice_from-set :
      (buf : List A) (head i n p : ℕ) (v : A)
      → ((k : ℕ) → i ≤ k → k < i + n → p ≢ (head + k) % length buf)
      → slice_from (set buf p v) head i n ≡ slice_from buf head i n
  unfolding slice_from
  slice_from-set buf head i zero p v h = refl
  slice_from-set buf head i (suc n) p v h =
      slice_from-suc (set buf p v) head i n
      ∙ ap (λ m. entry (set buf p v) ((head + i) % m) ++ slice_from (set buf p v) head (i + 1) n)
          (length-set buf p v)
      ∙ ap (λ o. of_option o ++ slice_from (set buf p v) head (i + 1) n)
          (get_set_other buf p ((head + i) % length buf) v (h i (omega arith) (omega arith)))
      ∙ ap (λ l. entry buf ((head + i) % length buf) ++ l)
          (slice_from-set buf head (i + 1) n p v
            (λ k a b. h k (omega (arith, a)) (omega (arith, b))))
      ∙ sym (slice_from-suc buf head i n)

  get_in_range : (xs : List A) (k : ℕ) → k < length xs → (v : A) × (get_elem? xs k ≡ some v)
  get_in_range [] k h = absurd (omega (arith, h))
  get_in_range (x ∷ xs) zero h = (x, refl)
  get_in_range (x ∷ xs) (suc k) h = get_in_range xs k (omega (arith, h))

  -- Moving the head by one is starting the loop one later.
  slice_from_head :
      (buf : List A) (head i n : ℕ)
      → slice_from buf ((head + 1) % length buf) i n ≡ slice_from buf head (i + 1) n
  unfolding slice_from
  slice_from_head buf head i zero = refl
  slice_from_head buf head i (suc n) =
      slice_from-suc buf ((head + 1) % length buf) i n
      ∙ ap (λ k. entry buf k ++ slice_from buf ((head + 1) % length buf) (i + 1) n)
          (mod-add-mod (head + 1) (length buf) i ∙ ap (λ z. z % length buf) (omega arith))
      ∙ ap (λ l. entry buf ((head + (i + 1)) % length buf) ++ l)
          (slice_from_head buf head (i + 1) n)
      ∙ sym (slice_from-suc buf head (i + 1) n)

  push_room :
      (v : A) (r : Buffer A)
      → IsValid r
      → r.size < length r.buf
      → slice (push v r) ≡ slice r ++ v ∷ []
  unfolding push slice
  push_room v r (h, s) l =
      let p = (r.head + r.size) % length r.buf in
      rw (lt→ltb _ _ l) (
        ap (λ n. slice_from (set r.buf p v) r.head 0 n) {y = suc r.size} (omega arith)
        ∙ slice_from_snoc (set r.buf p v) r.head 0 r.size
        ∙ ap (λ xs. xs ++ entry (set r.buf p v) ((r.head + (0 + r.size)) % length (set r.buf p v)))
            (slice_from-set r.buf r.head 0 r.size p v (λ k a b e.
              positions_apart r.head k r.size (length r.buf) h (omega (arith, b)) l (sym e)))
        ∙ ap
            (λ m.
              slice_from r.buf r.head 0 r.size
              ++ entry (set r.buf p v) ((r.head + (0 + r.size)) % m))
            (length-set r.buf p v)
        ∙ ap
            (λ m.
              slice_from r.buf r.head 0 r.size
              ++ entry (set r.buf p v) ((r.head + m) % length r.buf))
            {y = r.size} (omega arith)
        ∙ ap (λ o. slice_from r.buf r.head 0 r.size ++ of_option o)
            (get_set_same r.buf p v (mod-lt (r.head + r.size) (omega (arith, h)))))

  full_slice :
      (v : A) (buf : List A) (head m : ℕ)
      → length buf ≡ suc m
      → head < suc m
      → slice_from (set buf head v) ((head + 1) % length buf) 0 (suc m)
        ≡ slice_from buf head 1 m ++ v ∷ []
  unfolding slice_from
  full_slice v buf head m e h =
      let next = (head + 1) % length buf in
      slice_from_snoc (set buf head v) next 0 m
      ∙ ap (λ xs. xs ++ entry (set buf head v) ((next + (0 + m)) % length (set buf head v)))
          (slice_from-set buf next 0 m head v (λ k a b q.
              positions_apart head 0 (1 + k) (suc m) h (omega arith) (omega (arith, b)) (
                ap (λ z. z % suc m) (omega arith)
                ∙ mod-eq_of_lt h
                ∙ q
                ∙ mod-add-mod (head + 1) (length buf) k
                ∙ ap (λ z. z % length buf) {y = head + (1 + k)} (omega arith)
                ∙ ap (λ z. (head + (1 + k)) % z) e))
            ∙ slice_from_head buf head 0 m)
      ∙ ap (λ k. slice_from buf head 1 m ++ entry (set buf head v) k)
          (ap (λ z. (next + (0 + m)) % z) (length-set buf head v ∙ e)
            ∙ ap (λ z. ((head + 1) % z + (0 + m)) % suc m) e
            ∙ last_place head m h)
      ∙ ap (λ o. slice_from buf head 1 m ++ of_option o)
          (get_set_same buf head v (omega (arith, e, h)))

  push_full :
      (v : A) (r : Buffer A) (m : ℕ)
      → IsValid r
      → r.size ≡ suc m
      → length r.buf ≡ suc m
      → slice (push v r) ≡ drop 1 (slice r) ++ v ∷ []
  unfolding push slice
  push_full v r m (h, s) e l =
      let below : r.head < suc m = omega (arith, h, l) in
      let full : ltb r.size (length r.buf) ≡ false = ground (arith, e, l) in
      let (x, g) =
        get_in_range r.buf ((r.head + 0) % length r.buf) (mod-lt (r.head + 0) (omega (arith, l))) in
      let whole : slice_from r.buf r.head 0 r.size ≡ x ∷ slice_from r.buf r.head 1 m =
        ap (λ n. slice_from r.buf r.head 0 n) e
        ∙ slice_from-suc r.buf r.head 0 m
        ∙ ap (λ o. of_option o ++ slice_from r.buf r.head (0 + 1) m) g
        ∙ ap (λ k. x ∷ slice_from r.buf r.head k m) {y = 1} (omega arith) in
      rw full (
        ap (λ n. slice_from (set r.buf r.head v) ((r.head + 1) % length r.buf) 0 n) e
        ∙ full_slice v r.buf r.head m l below
        ∙ ap (λ xs. drop 1 xs ++ v ∷ []) (sym whole))

-- In a valid buffer `Push` adds the entry at the end of what `Slice` returns; when the buffer is full
-- the oldest entry is dropped first.
pub slice-push :
    {A : Type 0} (v : A) (r : Buffer A)
    → IsValid r
    → slice (push v r) ≡ (if ltb r.size (length r.buf) then slice r else drop 1 (slice r)) ++ v ∷ []
slice-push v r (h, s) = elim (Bool-cases (ltb r.size (length r.buf))) [
  | inl p ↦ rw p (push_room v r (h, s) (ltb→lt _ _ p))
  | inr p ↦
      let q = ltb-false _ _ p in
      rw p (push_full v r (r.size - 1) (h, s) (omega (arith, h, s, q)) (omega (arith, h, s, q)))
]

-- `Push` keeps a buffer valid: the head stays a position, and no more entries are held than fit.
pub push-IsValid : {A : Type 0} (v : A) (r : Buffer A) → IsValid r → IsValid (push v r)
unfolding push
push-IsValid v r (h, s) = elim (Bool-cases (ltb r.size (length r.buf))) [
  | inl p ↦
      let q = ltb→lt _ _ p in
      let l = length-set r.buf ((r.head + r.size) % length r.buf) v in
      rw p (omega (arith, h, l), omega (arith, q, l))
  | inr p ↦
      let l = length-set r.buf r.head v in
      let b = mod-lt (r.head + 1) {m = length r.buf} (omega (arith, h)) in
      rw p (omega (arith, b, l), omega (arith, s, l))
]
