-- ===== src/Matrix/Fits.antt =====
-- Stopping what internal/router/matrix_solver.go says makes room for the requested model.
use llama_skein.Base.{
  ℕ, ◌≢◌, ◌⊎◌, refl, subst, String, not, List, In, In-keep, keep-In, inl, inr, Bool-cases,
  Option-cases,
}
use llama_skein.Base.Maps.{contains, contains-In, In-contains, string_eq}
use llama_skein.Matrix.{
  ExpandedSet, SolveResult, outside, chosen_set, keep_running, run_alone, run_in, solve,
}
use llama_skein.Matrix.Optimal.{chosen_set-configured, models_at_of_get}

-- What `Solve` promises: the requested model is in the target set, so is every running model that is
-- not stopped; only running models are stopped, and never the requested one.
abbrev pub Fits : String → List String → SolveResult → Type 0
Fits requested running r =
    In requested r.target_set
    × ((m : String) → In m running → In m r.evict ⊎ In m r.target_set)
    × ((m : String) → In m r.evict → In m running × (m ≢ requested))

outside_or_In :
    (set_models running : List String) (m : String)
    → In m running
    → In m (outside set_models running) ⊎ In m set_models
outside_or_In set_models running m h = elim (Bool-cases (contains set_models m)) [
  | inl p ↦ inr (In-contains set_models m p)
  | inr p ↦ inl (In-keep m (λ x. not (contains set_models x)) running h (rw p refl))
]

solve-Fits :
    (sets : List ExpandedSet) (costs : List (String × ℕ)) (requested : String)
    (running : List String)
    → Fits requested running (solve sets costs requested running)
unfolding solve keep_running run_alone run_in
solve-Fits sets costs requested running = elim (Bool-cases (contains running requested)) [
  | inl p ↦ rw p (In-contains running requested p, (λ m h. inr h), λ m h. elim h [ ])
  | inr p ↦ elim (Option-cases (chosen_set sets costs requested running)) [
    | inl q ↦
        rw (p, q)
          (
            inl refl,
            (λ m h. inl h),
            λ m h. (h, λ e. cc (contains-In running requested (subst (λ z. In z running) e h))),
          )
    | inr ((cost, j), q) ↦
        let (best, g, c, _) = chosen_set-configured sets costs requested running cost j q in
        rw (p, q, models_at_of_get sets j best g)
          (
            In-contains best.models requested c,
            outside_or_In best.models running,
            λ m h.
                let (i, o) = keep-In m (λ x. not (contains best.models x)) running h in
                (i, λ e. cc (contains-In running requested (subst (λ z. In z running) e i))),
          )
  ]
]

-- Whatever is running and whatever the sets: the requested model is in the target set of `Solve`, and
-- a running model is stopped or stands in that set.
pub solve-target_set :
    (sets : List ExpandedSet) (costs : List (String × ℕ)) (requested : String)
    (running : List String) (m : String)
    → In m running
    → In requested (solve sets costs requested running).target_set
      × (In m (solve sets costs requested running).evict
          ⊎ In m (solve sets costs requested running).target_set)
solve-target_set sets costs requested running m h =
    let (target, kept, _) = solve-Fits sets costs requested running in (target, kept m h)

-- `Solve` stops running models only, and never the requested one.
pub solve-evict :
    (sets : List ExpandedSet) (costs : List (String × ℕ)) (requested : String)
    (running : List String) (m : String)
    → In m (solve sets costs requested running).evict
    → In m running × (m ≢ requested)
solve-evict sets costs requested running m h = (solve-Fits sets costs requested running).2 m h
