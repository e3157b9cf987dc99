-- ===== src/Process/Window.antt =====
-- internal/process/process_command.go: the exits of a history that are still on record at its end.
use llama_skein.Base.{
  ℕ, ◌+◌, ◌≡◌, ◌≤◌, refl, sym, ap, ◌∙◌, Bool, true, List, [], ◌∷◌, ◌++◌, arith, Bool-cases, keep,
  length, subst, In, In-append_left, In-append_right, length-append, All, inl, inr, ◌⊎◌,
}
use llama_skein.Process.{Backend, recent, record_unexpected_exit, Event, turn, turns}
use llama_skein.Process.Crashes.{Calm, exits, turn-Records}

-- Counting and finding the times that are still in the window.
abbrev pub counted : ℕ → List ℕ → List ℕ
counted now times = keep (recent now) times

-- A time in the window at `now` was in it before.
recent_before : (now t x : ℕ) → t ≤ now → recent now x ≡ true → recent t x ≡ true
recent_before now t x l h = ground arith

keep-counted :
    (now t : ℕ) (times : List ℕ) → t ≤ now → counted now (keep (recent t) times) ≡ counted now times
keep-counted now t [] l = refl
keep-counted now t (x ∷ times) l = elim (Bool-cases (recent now x)) [
  | inl y ↦ rw (recent_before now t x l y, y) (ap (λ z. x ∷ z) (keep-counted now t times l))
  | inr n ↦ elim (Bool-cases (recent t x)) [
    | inl y ↦ rw (y, n) (keep-counted now t times l)
    | inr m ↦ rw (m, n) (keep-counted now t times l)
  ]
]

keep-snoc :
    (f : ℕ → Bool) (xs : List ℕ) (t : ℕ) → keep f (xs ++ t ∷ []) ≡ keep f xs ++ keep f (t ∷ [])
keep-snoc f [] t = refl
keep-snoc f (x ∷ xs) t = elim (Bool-cases (f x)) [
  | inl y ↦ rw (y, keep-snoc f xs t) refl
  | inr n ↦ rw (n, keep-snoc f xs t) refl
]

record-counted :
    (now t : ℕ) (times : List ℕ)
    → t ≤ now
    → counted now (record_unexpected_exit t times) ≡ counted now times ++ counted now (t ∷ [])
unfolding record_unexpected_exit
record-counted now t times l =
    keep-snoc (recent now) (keep (recent t) times) t
    ∙ ap (λ z. z ++ counted now (t ∷ [])) (keep-counted now t times l)

-- In a history without a Stop request, every exit whose time is still in the window is on record at
-- the end, and so is what was on record before.
pub exits-counted :
    (now : ℕ) (es : List Event) (p : Backend)
    → All (Calm now) es
    → length (counted now (exits es p)) + length (counted now p.crash_times)
      ≤ length (counted now (turns es p).crash_times)
unfolding turns
exits-counted now [] p c = omega arith
exits-counted now (e ∷ es) p (h, c) =
    let rest = exits-counted now es (turn e p) c in
    elim (turn-Records now e p h) [
      | inl (q, o) ↦ rw o (omega (arith, rest, ap (λ z. length (counted now z)) q))
      | inr (t, l, q, o) ↦
          let n =
            ap (λ z. length (counted now z)) q
            ∙ ap length (record-counted now t p.crash_times l)
            ∙ length-append (counted now p.crash_times) (counted now (t ∷ [])) in
          elim o [ inl k ↦ rw k (omega (arith, rest, n)) | inr k ↦ rw k (with_time t n rest) ]
    ]
  where
    with_time :
        (t : ℕ)
        → length (counted now (turn e p).crash_times)
          ≡ length (counted now p.crash_times) + length (counted now (t ∷ []))
        → length (counted now (exits es (turn e p))) + length (counted now (turn e p).crash_times)
          ≤ length (counted now (turns es (turn e p)).crash_times)
        → length (counted now (t ∷ exits es (turn e p))) + length (counted now p.crash_times)
          ≤ length (counted now (turns es (turn e p)).crash_times)
    with_time t n rest = elim (Bool-cases (recent now t)) [
      | inl y ↦ rw y (omega (arith, rest, rw y at n))
      | inr y ↦ rw y (omega (arith, rest, rw y at n))
    ]

-- The exit is found there.
pub exits-In :
    (now t : ℕ) (es : List Event) (p : Backend)
    → All (Calm now) es
    → In t (counted now (exits es p)) ⊎ In t (counted now p.crash_times)
    → In t (counted now (turns es p).crash_times)
unfolding turns
exits-In now t [] p c i = elim i [ inl z ↦ elim z [ ] | inr j ↦ j ]
exits-In now t (e ∷ es) p (h, c) i = exits-In now t es (turn e p) c (elim (turn-Records now e p h) [
  | inl (q, o) ↦ elim i [
    | inl j ↦ inl (rw o at j)
    | inr j ↦ inr (subst (λ z. In t (counted now z)) (sym q) j)
  ]
  | inr (u, l, q, o) ↦
      let n = ap (counted now) q ∙ record-counted now u p.crash_times l in
      elim i [
        | inr j ↦ inr (
            subst (In t) (sym n)
              (In-append_left t (counted now p.crash_times) (counted now (u ∷ [])) j))
        | inl j ↦ elim o [
          | inl k ↦ inl (rw k at j)
          | inr k ↦ elim (split u (exits es (turn e p)) (rw k at j)) [
            | inl j' ↦ inr (
                subst (In t) (sym n)
                  (In-append_right t (counted now p.crash_times) (counted now (u ∷ [])) j'))
            | inr j' ↦ inl j'
          ]
        ]
      ]
])
  where
    split :
        (u : ℕ) (ts : List ℕ)
        → In t (counted now (u ∷ ts))
        → In t (counted now (u ∷ [])) ⊎ In t (counted now ts)
    split u ts j = elim (Bool-cases (recent now u)) [
      | inl y ↦ elim (rw y at j) [ inl e ↦ inl (rw y (inl e)) | inr k ↦ inr k ]
      | inr y ↦ inr (rw y at j)
    ]
