-- ===== src/SwapSets/Order.antt =====
-- `topologicalSort` of internal/config/matrix.go: where each set stands, and when there is no order.
use llama_skein.Base.{
  ℕ, zero, suc, ◌<◌, ◌≡◌, ◌≢◌, inl, inr, refl, sym, subst, ◌∙◌, String, Option, none, some, List,
  [], ◌∷◌, ◌++◌, In, In-append_left, In-append_right, In-append_cases, arith,
}
use llama_skein.Base.Maps.{lookup, insert, eq_cases, string_eq}
use llama_skein.SwapSets.{
  Mark, visiting, visited, Walk, Visit, walked, cycle, starved, deps_of, visit_each, finish_visit,
  visit,
}
use llama_skein.SwapSets.Marks.{
  Refers, direct, further, append-Nodup, append-IsOrdered, unmarked, unmarked-insert, unmarked_mono,
  Sound, Extends, Extends-refl, Extends-trans, insert_same, insert_other, inserted_other,
  insert_fresh,
}

-- What a visit of a name gives.
abbrev pub Visited : List (String × List String) → List String → String → Walk → Visit → Type 0
Visited deps all name w (walked w') = Sound deps all w' × Extends w w' × In name w'.order
Visited deps all name w (cycle s) = Refers deps s s
Visited deps all name w starved = ⊥

abbrev pub VisitedAll :
    List (String × List String) → List String → List String → Walk → Visit → Type 0
VisitedAll deps all names w (walked w') =
    Sound deps all w' × Extends w w' × ((v : String) → In v names → In v w'.order)
VisitedAll deps all names w (cycle s) = Refers deps s s
VisitedAll deps all names w starved = ⊥

module _ (deps : List (String × List String)) (all : List String) (step : String → Walk → Visit)
    (base : Walk) where
  pub visit_each-VisitedAll :
      (names : List String) (w : Walk)
      → ((v : String) (w' : Walk)
          → In v names
          → Sound deps all w'
          → Extends base w'
          → Visited deps all v w' (step v w'))
      → Sound deps all w
      → Extends base w
      → VisitedAll deps all names w (visit_each step names w)
  unfolding visit_each
  visit_each-VisitedAll [] w h sound ext = (sound, Extends-refl w, λ v i. elim i [ ])
  visit_each-VisitedAll (v ∷ names) w h sound ext =
      after (step v w) (h v w (inl refl) sound ext)
        (λ w' s f. visit_each-VisitedAll names w' (λ x y i. h x y (inr i)) s (Extends-trans ext f))
    where
      after :
          (r : Visit)
          → Visited deps all v w r
          → ((w' : Walk)
              → Sound deps all w'
              → Extends w w'
              → VisitedAll deps all names w' (visit_each step names w'))
          → VisitedAll deps all (v ∷ names) w (elim r [
            | walked w' ↦ visit_each step names w'
            | cycle s ↦ cycle s
            | starved ↦ starved
          ])
      after (walked w') (s, f, i) rest = joined w' f i (visit_each step names w') (rest w' s f)
        where
          joined :
              (w' : Walk)
              → Extends w w'
              → In v w'.order
              → (r : Visit) → VisitedAll deps all names w' r
              → VisitedAll deps all (v ∷ names) w r
          joined w' f i (walked w2) (s2, g, all) = (
            s2,
            Extends-trans f g,
            λ x j. elim j [
              | inl e ↦ subst (λ y. In y w2.order) (sym e) (g.kept v i)
              | inr k ↦ all x k
            ],
          )
          joined w' f i (cycle c) r = r
          joined w' f i starved r = r
      after (cycle s) r rest = r
      after starved r rest = r

module _ (deps : List (String × List String)) (names : List String) where
  -- The name gets its mark.
  abbrev enter : String → Walk → Walk
  enter name w = record w { state = insert name visiting w.state }

  entered-Sound :
      (name : String) (w : Walk)
      → lookup name w.state ≡ none
      → Sound deps names w
      → Sound deps names (enter name w)
  entered-Sound name w e s = record {
    ordered = s.ordered;
    distinct = s.distinct;
    placed =
        λ v h. s.placed v (inserted_other name v visiting (some visited) w.state h (λ p. cc p)).1;
    marked =
        λ v i. insert_other name v visiting w.state (λ p. cc (s.marked v i, e, p)) ∙ s.marked v i;
    listed = s.listed;
  }

  abbrev leave : String → Walk → Walk
  leave name w = record { state = insert name visited w.state; order = w.order ++ name ∷ [] }

  left-Sound :
      (name : String) (w : Walk)
      → lookup name w.state ≡ some visiting
      → ((v : String) → In v (deps_of deps name) → In v w.order)
      → In name names
      → Sound deps names w
      → Sound deps names (leave name w)
  left-Sound name w e all k s = record {
    ordered = append-IsOrdered deps [] w.order name s.ordered (λ v i. inr (all v i));
    distinct = append-Nodup w.order name s.distinct (λ i. cc (s.marked name i, e));
    placed = λ v h. elim (eq_cases v name) [
      | inl p ↦ In-append_right v w.order (name ∷ []) (inl p.0)
      | inr p ↦
          In-append_left v w.order (name ∷ [])
            (s.placed v (sym (insert_other name v visited w.state p.0) ∙ h))
    ];
    marked = λ v i. elim (eq_cases v name) [
      | inl p ↦ rw p.0 (insert_same name visited w.state)
      | inr p ↦ elim (In-append_cases v w.order (name ∷ []) i) [
        | inl j ↦ insert_other name v visited w.state p.0 ∙ s.marked v j
        | inr (inl q) ↦ absurd (p.0 q)
        | inr (inr j) ↦ elim j [ ]
      ]
    ];
    listed = λ v i. elim (In-append_cases v w.order (name ∷ []) i) [
      | inl j ↦ s.listed v j
      | inr (inl q) ↦ rw q k
      | inr (inr j) ↦ elim j [ ]
    ];
  }

  left-Extends :
      (name : String) (w w' : Walk)
      → lookup name w.state ≡ none
      → Extends (enter name w) w'
      → Extends w (leave name w')
  left-Extends name w w' e f = record {
    started = λ v h.
        let apart : v ≢ name = λ p. cc (h, e, p) in
        insert_other name v visited w'.state apart
        ∙ f.started v (insert_other name v visiting w.state apart ∙ h);
    open_before = λ v h.
        let (apart, g) = inserted_other name v visited (some visiting) w'.state h (λ p. cc p) in
        sym (insert_other name v visiting w.state apart) ∙ f.open_before v g;
    kept = λ v i. In-append_left v w'.order (name ∷ []) (f.kept v i);
    fresh = λ v h.
        insert_fresh name v visiting w.state (f.fresh v (insert_fresh name v visited w'.state h));
  }

  finish-Visited :
      (name : String) (w : Walk) (r : Visit)
      → lookup name w.state ≡ none
      → In name names
      → VisitedAll deps names (deps_of deps name) (enter name w) r
      → Visited deps names name w (finish_visit name r)
  finish-Visited name w (walked w') e k (s, f, all) = (
    left-Sound name w' (f.started name (insert_same name visiting w.state)) all k s,
    left-Extends name w w' e f,
    In-append_right name w'.order (name ∷ []) (inl refl),
  )
  finish-Visited name w (cycle c) e k r = r
  finish-Visited name w starved e k r = r

  pub visit-Visited :
      (fuel : ℕ) (name : String) (w : Walk)
      → ((a b : String) → In b (deps_of deps a) → In b names)
      → In name names
      → unmarked names w.state < fuel
      → Sound deps names w
      → ((v : String) → lookup v w.state ≡ some visiting → Refers deps v name)
      → Visited deps names name w (visit fuel deps name w)
  unfolding visit
  visit-Visited zero name w closed i l s path = omega (arith, l)
  visit-Visited (suc fuel) name w closed i l s path =
      at_mark (lookup name w.state) refl (λ v w' j k. visit-Visited fuel v w' closed j k)
    where
      -- What is open at a reference of the name refers to that reference.
      through :
          (w' : Walk) (v : String)
          → Extends (enter name w) w'
          → In v (deps_of deps name)
          → (x : String) → lookup x w'.state ≡ some visiting
          → Refers deps x v
      through w' v f j x h = elim (eq_cases x name) [
        | inl p ↦ subst (λ y. Refers deps y v) (sym p.0) (direct j)
        | inr p ↦
            further (path x (sym (insert_other name x visiting w.state p.0) ∙ f.open_before x h)) j
      ]

      at_mark :
          (m : Option Mark)
          → lookup name w.state ≡ m
          → ((v : String) (w' : Walk)
              → In v names
              → unmarked names w'.state < fuel
              → Sound deps names w'
              → ((x : String) → lookup x w'.state ≡ some visiting → Refers deps x v)
              → Visited deps names v w' (visit fuel deps v w'))
          → Visited deps names name w (elim m [
            | some visiting ↦ cycle name
            | some visited ↦ walked w
            | none ↦
                finish_visit name (visit_each (visit fuel deps) (deps_of deps name) (enter name w))
          ])
      at_mark none e ih = finish-Visited name w _ e i (
          visit_each-VisitedAll deps names (visit fuel deps) (enter name w) (deps_of deps name)
            (enter name w)
            (λ v w' j s' f.
              ih v w' (closed name v j)
                (omega (
                  arith,
                  l,
                  unmarked-insert names name visiting w.state i e,
                  unmarked_mono names (insert name visiting w.state) w'.state f.fresh,
                ))
                s' (through w' v f j))
            (entered-Sound name w e s) (Extends-refl (enter name w)))
      at_mark (some visiting) e ih = path name e
      at_mark (some visited) e ih = (s, Extends-refl w, s.placed name e)
