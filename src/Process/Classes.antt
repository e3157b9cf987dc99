-- ===== src/Process/Classes.antt =====
-- internal/process/failureclass.go: which failures are put into a class of memory.
use llama_skein.Base.{
  ℕ, ◌≡◌, ◌↔◌, ◌⊎◌, refl, sym, ap, subst, ◌∙◌, inl, inr, Bool, true, false, ◌||◌, ◌++◌, List, [],
  ◌∷◌, String, Option, none, some, ◌==◌, ==_iff, Bool-cases, arith, if◌then◌else◌, In,
}
use llama_skein.Base.Text.{codes, has_prefix, split}
use llama_skein.Process.Failures.{
  FailureClass, gpu_oom, host_oom, crash_other, output_class, is_memory, ExitInfo, lower,
  contains_text, contains_any, oom_patterns, is_137, device_words, class_rules, rule_class,
  lines_class, was_killed, classify_failure,
}

-- The text has the other one inside of it.
abbrev pub Has : List ℕ → String → Type 0
Has text sub = (before after : List ℕ) × (text ≡ before ++ codes sub ++ after)

-- What an allocator that ran out of memory writes.
abbrev pub allocation_failures : List String
allocation_failures =
    "out of memory" ∷ "outofmemory" ∷ "failed to allocate" ∷ "cannot allocate memory"
    ∷ "std::bad_alloc" ∷ "buffer allocation failed" ∷ "insufficient memory" ∷ "oom" ∷ []

abbrev pub FailedAllocation : List ℕ → Type 0
FailedAllocation line = (text : String) × In text allocation_failures × Has line text

-- One of the lines has the text of a failed allocation.
abbrev pub Reports : List (List ℕ) → Type 0
Reports lines = (line : List ℕ) × In line lines × FailedAllocation line

-- The kernel killed the process: status 137, or an error that says so.
abbrev pub WasKilled : ExitInfo → Type 0
WasKilled exit = (exit.code ≡ some 137) ⊎ Has (lower exit.err) "signal: killed"

false-true : false ≡ true → ⊥
false-true e = cc

rule_class_no_memory : (text : List ℕ) → is_memory (rule_class text class_rules) ≡ false
unfolding rule_class is_memory
rule_class_no_memory text = ground arith

is_memory-if :
    (o d : Bool) (k : FailureClass)
    → is_memory (if o then (if d then gpu_oom else host_oom) else k)
      ≡ (if o then true else is_memory k)
unfolding is_memory
is_memory-if true true k = refl
is_memory-if true false k = refl
is_memory-if false d k = refl

either_iff :
    (o m r : Bool) (A : Type 0)
    → m ≡ (if o then true else r)
    → (r ≡ true) ↔ A
    → (m ≡ true) ↔ ((o ≡ true) ⊎ A)
either_iff true m r A e h = (λ _. inl refl, λ _. e)
either_iff false m r A e h =
    (λ p. inr (h.0 (sym e ∙ p)), λ c. e ∙ elim c [ inl q ↦ absurd (false-true q) | inr a ↦ h.1 a ])

tail_eq : {x y : ℕ} → {l m : List ℕ} → (x ∷ l) ≡ (y ∷ m) → l ≡ m
tail_eq e = cc

cons_eq : {x y : ℕ} → {l m : List ℕ} → x ≡ y → l ≡ m → (x ∷ l) ≡ (y ∷ m)
cons_eq e d = cc

head_eq : {x y : ℕ} → {l m : List ℕ} → (x ∷ l) ≡ (y ∷ m) → x ≡ y
head_eq e = cc

has_prefix_iff : (s p : List ℕ) → (has_prefix s p ≡ true) ↔ ((after : List ℕ) × (s ≡ p ++ after))
unfolding has_prefix
has_prefix_iff s [] = ((λ h. (s, refl)), λ h. refl)
has_prefix_iff [] (c ∷ p) = ((λ h. absurd (false-true h)), λ (after, e). cc)
has_prefix_iff (b ∷ s) (c ∷ p) =
    let (to, from) = has_prefix_iff s p in
    elim (Bool-cases (b == c)) [
      | inl q ↦ rw q (
        (λ h. let (after, e) = to h in (after, cons_eq ((==_iff b c).0 q) e)),
        λ (after, e). from (after, tail_eq e),
      )
      | inr q ↦ rw q (
        (λ h. absurd (false-true h)),
        λ (after, e). absurd (false-true (sym q ∙ (==_iff b c).1 (head_eq e))),
      )
    ]

or_iff :
    {A B : Type 0} → (a b : Bool) → (a ≡ true) ↔ A → (b ≡ true) ↔ B → ((a || b) ≡ true) ↔ (A ⊎ B)
or_iff true b p q = ((λ h. inl (p.0 refl)), λ h. refl)
or_iff false b p q =
    ((λ h. inr (q.0 h)), λ h. elim h [ inl x ↦ absurd (false-true (p.1 x)) | inr y ↦ q.1 y ])

contains_text_iff : (s : List ℕ) (sub : String) → (contains_text s (codes sub) ≡ true) ↔ Has s sub
unfolding contains_text
contains_text_iff [] sub =
    let (to, from) = has_prefix_iff [] (codes sub) in
    (
      (λ h. let (after, e) = to h in ([], after, e)),
      λ (before, after, e). from (after, front before after e),
    )
  where
    front : (before after : List ℕ) → [] ≡ before ++ codes sub ++ after → [] ≡ codes sub ++ after
    front [] after e = e
    front (b ∷ before) after e = absurd (cc e)
contains_text_iff (c ∷ s) sub =
    let (to, from) = or_iff _ _ (has_prefix_iff (c ∷ s) (codes sub)) (contains_text_iff s sub) in
    (
      (λ h. elim (to h) [
        | inl (after, e) ↦ ([], after, e)
        | inr (before, after, e) ↦ (c ∷ before, after, ap (λ l. c ∷ l) e)
      ]),
      λ (before, after, e). from (front before after e),
    )
  where
    front :
        (before after : List ℕ)
        → (c ∷ s) ≡ before ++ codes sub ++ after
        → ((rest : List ℕ) × ((c ∷ s) ≡ codes sub ++ rest)) ⊎ Has s sub
    front [] after e = inl (after, e)
    front (b ∷ before) after e = inr (before, after, tail_eq e)

contains_any_iff :
    (s : List ℕ) (needles : List String)
    → (contains_any s needles ≡ true) ↔ ((text : String) × In text needles × Has s text)
unfolding contains_any
contains_any_iff s [] = ((λ h. absurd (false-true h)), λ h. elim (h.1) [ ])
contains_any_iff s (n ∷ needles) =
    let (to, from) = or_iff _ _ (contains_text_iff s n) (contains_any_iff s needles) in
    (
      (λ h. elim (to h) [ inl t ↦ (n, inl refl, t) | inr r ↦ (r.0, inr r.1, r.2) ]),
      λ r. elim (r.1) [
        | inl p ↦ from (inl (subst (Has s) p r.2))
        | inr j ↦ from (inr (r.0, j, r.2))
      ],
    )

Reports-iff :
    (line : List ℕ) (lines : List (List ℕ))
    → (FailedAllocation line ⊎ Reports lines) ↔ Reports (line ∷ lines)
Reports-iff line lines = (
  λ c. elim c [ inl y ↦ (line, inl refl, y) | inr r ↦ (r.0, inr r.1, r.2) ],
  λ r. elim (r.1) [ inl e ↦ inl (subst FailedAllocation e r.2) | inr j ↦ inr (r.0, j, r.2) ],
)

Reports-lines :
    (line : List ℕ) (lines : List (List ℕ))
    → ((contains_any line oom_patterns ≡ true) ⊎ Reports lines) ↔ Reports (line ∷ lines)
Reports-lines line lines =
    let (to, from) = contains_any_iff line oom_patterns in
    let (up, down) = Reports-iff line lines in
    (
      (λ h. elim h [ inl p ↦ up (inl (to p)) | inr r ↦ up (inr r) ]),
      λ r. elim (down r) [ inl p ↦ inl (from p) | inr q ↦ inr q ],
    )

lines_class_iff :
    (text : List ℕ) (lines : List (List ℕ))
    → (is_memory (lines_class text lines) ≡ true) ↔ Reports lines
unfolding lines_class
lines_class_iff text [] =
    (λ h. absurd (false-true (sym (rule_class_no_memory text) ∙ h)), λ r. elim (r.1) [ ])
lines_class_iff text (line ∷ lines) =
    let h =
      either_iff (contains_any line oom_patterns) (is_memory (lines_class text (line ∷ lines)))
        (is_memory (lines_class text lines)) (Reports lines)
        (is_memory-if (contains_any line oom_patterns) (contains_any line device_words)
          (lines_class text lines))
        (lines_class_iff text lines) in
    let k = Reports-lines line lines in (λ p. k.0 (h.0 p), λ r. h.1 (k.1 r))

is_memory-killed :
    (o : Bool) (k : FailureClass)
    → is_memory (if o then host_oom else k) ≡ (if o then true else is_memory k)
unfolding is_memory
is_memory-killed true k = refl
is_memory-killed false k = refl

no_line : (line : List ℕ) → In line (split 10 []) → line ≡ []
unfolding split
no_line line (inl e) = e
no_line line (inr j) = elim j [ ]

empty_iff : (is_memory crash_other ≡ true) ↔ Reports (split 10 [])
unfolding is_memory contains_any contains_text has_prefix
empty_iff = (
  λ h. absurd (false-true h),
  λ r. absurd (
      false-true
        ((contains_any_iff [] oom_patterns).1 (subst FailedAllocation (no_line r.0 r.1) r.2))),
)

output_class_iff :
    (text : List ℕ) → (is_memory (output_class text) ≡ true) ↔ Reports (split 10 text)
unfolding output_class
output_class_iff [] = empty_iff
output_class_iff (c ∷ text) = lines_class_iff (c ∷ text) (split 10 (c ∷ text))

was_killed_iff : (exit : ExitInfo) → (was_killed exit ≡ true) ↔ WasKilled exit
was_killed_iff exit =
    or_iff _ _ (status_iff exit.code) (contains_text_iff (lower exit.err) "signal: killed")
  where
    status_iff : (code : Option ℕ) → (is_137 code ≡ true) ↔ (code ≡ some 137)
    status_iff none = ((λ h. absurd (false-true h)), λ h. cc)
    status_iff (some code) = ((λ h. ap some ((==_iff code 137).0 h)), λ h. (==_iff code 137).1 cc)

-- A failure is put into a class of memory, and so may be retried with another placement, exactly
-- where the process exited with status 137, its error has `signal: killed` inside of it, or some line
-- of its output has one of the eight texts of a failed allocation inside of it; the error and the
-- output are taken in lower case, as far as they are ASCII. The last of the texts, `oom`, counts
-- inside a word as well, as in `bloom`.
pub classify_failure-is_memory :
    (exit : ExitInfo) (output : List ℕ)
    → (is_memory (classify_failure exit output) ≡ true)
      ↔ (WasKilled exit ⊎ Reports (split 10 (lower output)))
unfolding classify_failure
classify_failure-is_memory exit output =
    let (to, from) =
      either_iff (was_killed exit) (is_memory (classify_failure exit output))
        (is_memory (output_class (lower output))) (Reports (split 10 (lower output)))
        (is_memory-killed (was_killed exit) (output_class (lower output)))
        (output_class_iff (lower output)) in
    let (kill, spare) = was_killed_iff exit in
    (
      (λ h. elim (to h) [ inl k ↦ inl (kill k) | inr r ↦ inr r ]),
      λ h. elim h [ inl k ↦ from (inl (spare k)) | inr r ↦ from (inr r) ],
    )
