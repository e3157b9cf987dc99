-- ===== src/SwapSets/Sorted.antt =====
-- What `topologicalSort` of internal/config/matrix.go returns.
use llama_skein.Base.{
  suc, ◌≡◌, ◌↔◌, inl, inr, refl, ap, subst, String, Option, none, some, List, [], ◌∷◌, length, In,
  arith,
}
use llama_skein.Base.Maps.{lookup, string_eq}
use llama_skein.SwapSets.{
  Mark, visiting, visited, Walk, Visit, walked, cycle, starved, deps_of, visit, visit_unseen,
  topological_sort,
}
use llama_skein.SwapSets.Marks.{
  Refers, direct, further, IsOrdered, Nodup, unmarked, unmarked_mono, Sound, Extends-refl,
}
use llama_skein.SwapSets.Order.{Visited, VisitedAll, visit-Visited, visit_each-VisitedAll}

unmarked_none : (names : List String) → unmarked names [] ≡ length names
unfolding lookup
unmarked_none [] = refl
unmarked_none (x ∷ names) = ap suc (unmarked_none names)

lookup_nil : (v : String) → lookup {V = Mark} v [] ≡ none
unfolding lookup
lookup_nil v = refl

-- What the sort returns: an order of all names without a repetition, in which each set stands
-- behind the sets that it refers to, or a set that refers to itself through others.
abbrev pub Sorted : List (String × List String) → List String → Visit → Type 0
Sorted deps names (walked w) =
    IsOrdered deps [] w.order × Nodup w.order × ((v : String) → In v names ↔ In v w.order)
Sorted deps names (cycle s) = Refers deps s s
Sorted deps names starved = ⊥

module _ (deps : List (String × List String)) (names : List String)
    (closed : (a b : String) → In b (deps_of deps a) → In b names) where
  -- Between two sets of the loop no visit is under way.
  visit_unseen-Visited :
      (name : String) (w : Walk)
      → In name names
      → Sound deps names w
      → ((v : String) → ¬ (lookup v w.state ≡ some visiting))
      → Visited deps names name w (visit_unseen (suc (length names)) deps name w)
  visit_unseen-Visited name w i s idle = at_mark (lookup name w.state) refl
    where
      at_mark :
          (m : Option Mark)
          → lookup name w.state ≡ m
          → Visited deps names name w
              (elim m [ none ↦ visit (suc (length names)) deps name w | some _ ↦ walked w ])
      at_mark none e =
          visit-Visited deps names (suc (length names)) name w closed i
            (omega
              (arith, unmarked_none names, unmarked_mono names [] w.state (λ v h. lookup_nil v)))
            s (λ v h. absurd (idle v h))
      at_mark (some visiting) e = absurd (idle name e)
      at_mark (some visited) e = (s, Extends-refl w, s.placed name e)

  idle_start : Sound deps names (record { state = []; order = [] })
  unfolding lookup
  idle_start = record {
    ordered = tt;
    distinct = tt;
    placed = λ v h. cc h;
    marked = λ v i. elim i [ ];
    listed = λ v i. elim i [ ];
  }

  all_done :
      (r : Visit)
      → VisitedAll deps names names (record { state = []; order = [] }) r
      → Sorted deps names r
  all_done (walked w) (s, f, all) = (s.ordered, s.distinct, λ v. (all v, s.listed v))
  all_done (cycle c) r = r
  all_done starved r = r

  -- When each reference is to one of the sets, `topologicalSort` runs to its end. It returns each set
  -- once, behind all sets that it refers to, or it reports a set that refers to itself, at once or
  -- through others.
  pub topological_sort-Sorted : Sorted deps names (topological_sort names deps)
  unfolding topological_sort
  topological_sort-Sorted = all_done _ (
      visit_each-VisitedAll deps names (visit_unseen (suc (length names)) deps)
        (record { state = []; order = [] }) names (record { state = []; order = [] })
        (λ v w i s f. visit_unseen-Visited v w i s (λ x h. no_visit x (f.open_before x h)))
        idle_start (Extends-refl _))
    where
      no_visit : (x : String) → ¬ (lookup x [] ≡ some visiting)
      no_visit x h = cc (h, lookup_nil x)

-- What stands in an order refers to what stands before it, and not to itself.
abbrev Closed : List (String × List String) → List String → Type 0
Closed deps seen = (a b : String) → In a seen → Refers deps a b → In b seen × (¬ Refers deps a a)

refers_into :
    (deps : List (String × List String)) (seen : List String) (x b : String)
    → Closed deps seen
    → ((ref : String) → In ref (deps_of deps x) → In ref seen)
    → Refers deps x b
    → In b seen
refers_into deps seen x b c h (direct i) = h b i
refers_into deps seen x b c h (further r i) = (c _ b (refers_into deps seen x _ c h r) (direct i)).0

IsOrdered-acyclic :
    (deps : List (String × List String)) (seen l : List String)
    → Closed deps seen
    → IsOrdered deps seen l
    → Nodup l
    → ((v : String) → In v seen → ¬ In v l)
    → (v : String) → In v l
    → ¬ Refers deps v v
IsOrdered-acyclic deps seen [] c o d n v i = elim i [ ]
IsOrdered-acyclic deps seen (x ∷ l) c o d n v i = elim i [
  | inl e ↦ rw e (λ r. n x (refers_into deps seen x x c o.0 r) (inl refl))
  | inr j ↦ IsOrdered-acyclic deps (x ∷ seen) l more o.1 d.1 apart v j
]
  where
    more : Closed deps (x ∷ seen)
    more a b (inl e) r = (
      inr (refers_into deps seen x b c o.0 (subst (λ y. Refers deps y b) e r)),
      rw e (λ s. n x (refers_into deps seen x x c o.0 s) (inl refl)),
    )
    more a b (inr k) r = (inr (c a b k r).0, (c a b k r).1)

    apart : (y : String) → In y (x ∷ seen) → ¬ In y l
    apart y (inl e) = rw e d.0
    apart y (inr k) = λ q. n y k (inr q)

refers_to_name :
    (deps : List (String × List String)) (names : List String) (a b : String)
    → ((a b : String) → In b (deps_of deps a) → In b names)
    → Refers deps a b
    → In b names
refers_to_name deps names a b closed (direct i) = closed _ _ i
refers_to_name deps names a b closed (further r i) = closed _ _ i

-- When each reference is to one of the sets, `topologicalSort` gives an order if and only if no set
-- refers to itself, at once or through others.
pub topological_sort-walked_iff :
    (deps : List (String × List String)) (names : List String)
    → ((a b : String) → In b (deps_of deps a) → In b names)
    → ((w : Walk) × (topological_sort names deps ≡ walked w))
      ↔ ((v : String) → In v names → ¬ Refers deps v v)
topological_sort-walked_iff deps names closed = (
  λ (w, e).
      let s = subst (Sorted deps names) e (topological_sort-Sorted deps names closed) in
      λ v i.
        IsOrdered-acyclic deps [] w.order (λ a b j. elim j [ ]) s.0 s.1 (λ x j. elim j [ ]) v
          ((s.2 v).0 i),
  λ h. found h (topological_sort names deps) refl,
)
  where
    found :
        ((v : String) → In v names → ¬ Refers deps v v)
        → (r : Visit) → topological_sort names deps ≡ r
        → (w : Walk) × (topological_sort names deps ≡ walked w)
    found h (walked w) e = (w, e)
    found h (cycle c) e =
        let r = subst (Sorted deps names) e (topological_sort-Sorted deps names closed) in
        absurd (h c (refers_to_name deps names c c closed r) r)
    found h starved e =
        absurd (subst (Sorted deps names) e (topological_sort-Sorted deps names closed))
