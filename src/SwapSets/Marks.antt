-- ===== src/SwapSets/Marks.antt =====
-- `topologicalSort` of internal/config/matrix.go: the marks on the names, and what holds of them
-- between two visits.
use llama_skein.Base.{
  ℕ, suc, ◌≤◌, ◌≡◌, ◌≢◌, ◌⊎◌, inl, inr, refl, sym, ap, ◌∙◌, String, Option, none, some, List, [],
  ◌∷◌, ◌++◌, if◌then◌else◌, In, In-append_cases, In-tail, arith,
}
use llama_skein.Base.Maps.{lookup, insert, lookup-insert, eq_cases, =?_false, string_eq}
use llama_skein.SwapSets.{Mark, visiting, visited, Walk, deps_of}

-- A path of references from one set to another, of one step at least.
pub data Refers (deps : List (String × List String)) : String → String → Type 0 where
  direct : {a b : String} → In b (deps_of deps a) → Refers deps a b
  further : {a b c : String} → Refers deps a b → In c (deps_of deps b) → Refers deps a c

-- Each set refers only to sets that are seen or stand before it.
abbrev pub IsOrdered : List (String × List String) → List String → List String → Type 0
IsOrdered deps seen [] = Unit
IsOrdered deps seen (name ∷ names) =
    ((ref : String) → In ref (deps_of deps name) → In ref seen) × IsOrdered deps (name ∷ seen) names

-- No name stands twice.
abbrev pub Nodup : List String → Type 0
Nodup [] = Unit
Nodup (name ∷ names) = (¬ In name names) × Nodup names

pub append-Nodup : (l : List String) (x : String) → Nodup l → ¬ In x l → Nodup (l ++ x ∷ [])
append-Nodup [] x d n = (λ i. elim i [ ], tt)
append-Nodup (y ∷ l) x d n = (
  λ i. elim (In-append_cases y l (x ∷ []) i) [
    | inl j ↦ d.0 j
    | inr (inl e) ↦ n (inl (sym e))
    | inr (inr j) ↦ elim j [ ]
  ],
  append-Nodup l x d.1 (λ i. n (inr i)),
)

pub append-IsOrdered :
    (deps : List (String × List String)) (seen l : List String) (x : String)
    → IsOrdered deps seen l
    → ((ref : String) → In ref (deps_of deps x) → In ref seen ⊎ In ref l)
    → IsOrdered deps seen (l ++ x ∷ [])
append-IsOrdered deps seen [] x o h =
    (λ ref i. elim (h ref i) [ inl s ↦ s | inr j ↦ elim j [ ] ], tt)
append-IsOrdered deps seen (y ∷ l) x o h = (
  o.0,
  append-IsOrdered deps (y ∷ seen) l x o.1 (λ ref i. elim (h ref i) [
    | inl s ↦ inl (inr s)
    | inr (inl e) ↦ inl (inl e)
    | inr (inr j) ↦ inr j
  ]),
)

-- How many of the names have no mark.
abbrev unseen : String → Option Mark → ℕ → ℕ
unseen name none n = suc n
unseen name (some m) n = n

abbrev pub unmarked : List String → List (String × Mark) → ℕ
unmarked [] state = 0
unmarked (name ∷ names) state = unseen name (lookup name state) (unmarked names state)

-- What holds between two visits.
pub record Sound (deps : List (String × List String)) (all : List String) (w : Walk) : Type 0 where
  pub ordered : IsOrdered deps [] w.order
  pub distinct : Nodup w.order
  pub placed : (v : String) → lookup v w.state ≡ some visited → In v w.order
  pub marked : (v : String) → In v w.order → lookup v w.state ≡ some visited
  pub listed : (v : String) → In v w.order → In v all

-- What a visit changes.
pub record Extends (w w' : Walk) : Type 0 where
  pub started : (v : String) → lookup v w.state ≡ some visiting → lookup v w'.state ≡ some visiting
  pub open_before :
      (v : String) → lookup v w'.state ≡ some visiting → lookup v w.state ≡ some visiting
  pub kept : (v : String) → In v w.order → In v w'.order
  pub fresh : (v : String) → lookup v w'.state ≡ none → lookup v w.state ≡ none

pub Extends-refl : (w : Walk) → Extends w w
Extends-refl w = record {
  started = λ v h. h;
  open_before = λ v h. h;
  kept = λ v h. h;
  fresh = λ v h. h;
}

pub Extends-trans : {a b c : Walk} → Extends a b → Extends b c → Extends a c
Extends-trans f g = record {
  started = λ v h. g.started v (f.started v h);
  open_before = λ v h. f.open_before v (g.open_before v h);
  kept = λ v h. g.kept v (f.kept v h);
  fresh = λ v h. f.fresh v (g.fresh v h);
}

pub insert_same :
    (v : String) (m : Mark) (s : List (String × Mark)) → lookup v (insert v m s) ≡ some m
insert_same v m s = ground (arith, lookup-insert v v m s, string_eq.beq_iff v v)

pub insert_other :
    (x v : String) (m : Mark) (s : List (String × Mark))
    → v ≢ x
    → lookup v (insert x m s) ≡ lookup v s
insert_other x v m s n =
    lookup-insert x v m s
    ∙ ap (λ b. if b then some m else lookup v s) (=?_false x v (λ e. n (sym e)))

-- A name with another mark than the one written is another name.
pub inserted_other :
    (x v : String) (m : Mark) (o : Option Mark) (s : List (String × Mark))
    → lookup v (insert x m s) ≡ o
    → o ≢ some m
    → (v ≢ x) × (lookup v s ≡ o)
inserted_other x v m o s h n =
    let apart : v ≢ x = λ e. n (sym h ∙ ap (λ y. lookup y (insert x m s)) e ∙ insert_same x m s) in
    (apart, sym (insert_other x v m s apart) ∙ h)

unmarked-le :
    (x : String) (o o' : Option Mark) (n n' : ℕ)
    → (o' ≡ none → o ≡ none)
    → n' ≤ n
    → unseen x o' n' ≤ unseen x o n
unmarked-le x none none n n' h l = omega (arith, l)
unmarked-le x none (some m) n n' h l = omega (arith, l)
unmarked-le x (some m) none n n' h l = cc (h refl)
unmarked-le x (some m) (some m') n n' h l = l

pub unmarked_mono :
    (names : List String) (s s' : List (String × Mark))
    → ((v : String) → lookup v s' ≡ none → lookup v s ≡ none)
    → unmarked names s' ≤ unmarked names s
unmarked_mono [] s s' h = omega arith
unmarked_mono (x ∷ names) s s' h =
    unmarked-le x (lookup x s) (lookup x s') _ _ (h x) (unmarked_mono names s s' h)

pub insert_fresh :
    (x v : String) (m : Mark) (s : List (String × Mark))
    → lookup v (insert x m s) ≡ none
    → lookup v s ≡ none
insert_fresh x v m s h = (inserted_other x v m none s h (λ e. cc e)).1

-- A name that gets its first mark.
pub unmarked-insert :
    (names : List String) (x : String) (m : Mark) (s : List (String × Mark))
    → In x names
    → lookup x s ≡ none
    → suc (unmarked names (insert x m s)) ≤ unmarked names s
unmarked-insert [] x m s i e = elim i [ ]
unmarked-insert (y ∷ names) x m s i e = elim (eq_cases y x) [
  | inl p ↦
      rw (p.0, insert_same x m s, e)
        (omega (arith, unmarked_mono names s (insert x m s) (λ v. insert_fresh x v m s)))
  | inr p ↦ rw (insert_other x y m s p.0) (
      more (lookup y s) _ _
        (unmarked-insert names x m s (In-tail x y names (λ q. p.0 (sym q)) i) e))
]
  where
    more : (o : Option Mark) (n n' : ℕ) → suc n' ≤ n → suc (unseen y o n') ≤ unseen y o n
    more none n n' l = omega (arith, l)
    more (some _) n n' l = l
