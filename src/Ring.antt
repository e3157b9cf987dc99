-- ===== src/Ring.antt =====
-- internal/ring/buffer.go: a buffer that keeps the newest entries. The zero value of the entries is an
-- argument of `new`; a read out of range gives the entry that stands for it.
pub mod Newest
pub mod Samples
use llama_skein.Base.{
  ℕ, zero, suc, ◌+◌, ◌%◌, Option, none, some, List, [], ◌∷◌, ltb, length, replicate, set, get_elem?,
  if◌then◌else◌,
}

pub record Buffer (A : Type 0) : Type 0 where
  pub buf : List A
  pub head : ℕ
  pub size : ℕ

-- `NewBuffer`
unfoldable pub new : {A : Type 0} → A → ℕ → Buffer A
new z capacity = record {
  buf = replicate (if ltb capacity 1 then 1 else capacity) z;
  head = 0;
  size = 0;
}

-- `Push`
unfoldable pub push : {A : Type 0} → A → Buffer A → Buffer A
push v r =
    if ltb r.size (length r.buf)
    then record r { buf = set r.buf ((r.head + r.size) % length r.buf) v; size = r.size + 1 }
    else record r { buf = set r.buf r.head v; head = (r.head + 1) % length r.buf }

-- The loop of `Slice` from the index `i`, for `n` more entries; an index is never out of range.
unfoldable pub slice_from : {A : Type 0} → List A → ℕ → ℕ → ℕ → List A
slice_from buf head i zero = []
slice_from buf head i (suc n) =
    let rest = slice_from buf head (i + 1) n in
    elim (get_elem? buf ((head + i) % length buf)) [ none ↦ rest | some v ↦ v ∷ rest ]

-- `Slice`
unfoldable pub slice : {A : Type 0} → Buffer A → List A
unfolding slice_from
slice r = slice_from r.buf r.head 0 r.size
