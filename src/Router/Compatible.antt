-- ===== src/Router/Compatible.antt =====
-- The swaps that run together in internal/router/base.go: no two of them stop each other's model, and
-- starting or joining one keeps it so.
use llama_skein.Base.{
  ◌+◌, ◌≡◌, ◌≢◌, refl, sym, ap, String, true, false, none, some, List, [], ◌∷◌, ◌++◌, arith, inl,
  inr, Bool-cases, subst, ◌∙◌,
}
use llama_skein.Base.Maps.{lookup, contains, string_eq, lookup-insert, eq_cases, =?_false}
use llama_skein.Router.{
  Request, ActiveSwap, Router, Alive, grant_handler, start_swap, join_swap, in_flight_of,
  collides_with, conflicts_with_in_flight,
}
use llama_skein.Router.Cases.{Free}

-- No swap stops the model that another one loads.
abbrev pub Compatible : Router → Type 0
Compatible s =
    (k j : String) (x y : ActiveSwap)
    → lookup k s.active ≡ some x
    → lookup j s.active ≡ some y
    → k ≢ j
    → contains x.evict j ≡ false

-- No swap stops a model that is serving.
abbrev pub Idle : Router → Type 0
Idle s =
    (k m : String) (x : ActiveSwap)
    → lookup k s.active ≡ some x
    → contains x.evict m ≡ true
    → in_flight_of m s ≡ 0

abbrev pub Safe : Router → Type 0
Safe s = Compatible s × Idle s

-- No active swap stops the model.
abbrev pub Unevicted : String → Router → Type 0
Unevicted m s =
    (k : String) (x : ActiveSwap) → lookup k s.active ≡ some x → contains x.evict m ≡ false

pub some_inj : {x y : ActiveSwap} → some x ≡ some y → x ≡ y
some_inj p = cc p

pub collides_head :
    (target : String) (evict : List String) (j : String) (y : ActiveSwap)
    (a : List (String × ActiveSwap))
    → collides_with target evict ((j, y) ∷ a) ≡ false
    → (j ≢ target → (contains evict j ≡ false) × (contains y.evict target ≡ false))
      × (collides_with target evict a ≡ false)
unfolding collides_with
collides_head target evict j y a c = elim (eq_cases j target) [
  | inl p ↦ (λ n. absurd (n p.0), ground (arith, p.1))
  | inr p ↦ (λ n. (ground (arith, p.1), ground (arith, p.1)), ground (arith, p.1))
]

pub collides_with-false :
    (target : String) (evict : List String) (a : List (String × ActiveSwap)) (k : String)
    (x : ActiveSwap)
    → collides_with target evict a ≡ false
    → lookup k a ≡ some x
    → k ≢ target
    → (contains evict k ≡ false) × (contains x.evict target ≡ false)
unfolding collides_with lookup
collides_with-false target evict [] k x c h n = cc
collides_with-false target evict ((j, y) ∷ a) k x c h n = elim (eq_cases j k) [
  | inl p ↦
      let (e1, e2) = (collides_head target evict j y a c).0 (λ r. n (sym p.0 ∙ r)) in
      let e : y ≡ x = some_inj (rw p.1 at h) in
      (
        subst (λ z. contains evict z ≡ false) p.0 e1,
        subst (λ (z : ActiveSwap). contains z.evict target ≡ false) e e2,
      )
  | inr p ↦
      collides_with-false target evict a k x (collides_head target evict j y a c).1 (rw p.1 at h) n
]

pub conflicts-false :
    (evict : List String) (s : Router) (m : String)
    → conflicts_with_in_flight evict s ≡ false
    → contains evict m ≡ true
    → in_flight_of m s ≡ 0
unfolding conflicts_with_in_flight contains
conflicts-false [] s m c h = cc
conflicts-false (j ∷ evict) s m c h = elim (eq_cases j m) [
  | inl p ↦ subst (λ z. in_flight_of z s ≡ 0) p.0 (ground arith)
  | inr p ↦ conflicts-false evict s m (ground arith) (rw p.1 at h)
]

pub frees-Unevicted :
    (m : String) (evict : List String) (s : Router)
    → collides_with m evict s.active ≡ false
    → lookup m s.active ≡ none
    → Unevicted m s
frees-Unevicted m evict s c q k x h =
    (collides_with-false m evict s.active k x c h (λ (e : k ≡ m). cc)).1

pub grant_handler-Safe :
    (alive : Alive) (req : Request) (m : String) (s : Router)
    → Unevicted m s
    → Safe s
    → Safe (grant_handler alive req m s)
unfolding grant_handler
grant_handler-Safe alive req m s u (c, i) = elim (Bool-cases (alive req.id)) [
  | inr p ↦ rw p (c, i)
  | inl p ↦ rw p (
    c,
    λ k j x h e.
        rw
          (
            lookup-insert m j (in_flight_of m s + 1) s.in_flight,
            =?_false m j (λ (q : m ≡ j). cc (u k x h)),
          )
          (i k j x h e),
  )
]

pub grant_handler-Unevicted :
    (alive : Alive) (req : Request) (m : String) (s : Router)
    → Unevicted m s
    → Unevicted m (grant_handler alive req m s)
unfolding grant_handler
grant_handler-Unevicted alive req m s u = elim (Bool-cases (alive req.id)) [
  | inr p ↦ rw p u
  | inl p ↦ rw p u
]

pub start_swap-Safe :
    (req : Request) (evict : List String) (s : Router)
    → Free req.model evict s
    → lookup req.model s.active ≡ none
    → Safe s
    → Safe (start_swap req evict s)
unfolding start_swap
start_swap-Safe req evict s free q (c, i) = (compatible, idle)
  where
    new : ActiveSwap
    new = record { evict = evict; waiters = req ∷ [] }

    others :
        (k : String) (x : ActiveSwap)
        → lookup k s.active ≡ some x
        → k ≢ req.model
        → (contains evict k ≡ false) × (contains x.evict req.model ≡ false)
    others k x h n = collides_with-false req.model evict s.active k x free.0 h n

    compatible : Compatible (start_swap req evict s)
    compatible k j x y h1 h2 n = elim (eq_cases req.model k) [
      | inl p ↦ elim (eq_cases req.model j) [
        | inl r ↦ absurd (n (sym p.0 ∙ r.0))
        | inr r ↦
            let e : new ≡ x = some_inj (rw (lookup-insert req.model k new s.active, p.1) at h1) in
            subst (λ (z : ActiveSwap). contains z.evict j ≡ false) e
              (others j y (rw (lookup-insert req.model j new s.active, r.1) at h2)
                (λ t. r.0 (sym t))).0
      ]
      | inr p ↦
          let h1' = rw (lookup-insert req.model k new s.active, p.1) at h1 in
          elim (eq_cases req.model j) [
            | inl r ↦
                subst (λ z. contains x.evict z ≡ false) r.0 (others k x h1' (λ t. p.0 (sym t))).1
            | inr r ↦ c k j x y h1' (rw (lookup-insert req.model j new s.active, r.1) at h2) n
          ]
    ]

    idle : Idle (start_swap req evict s)
    idle k m x h e = elim (eq_cases req.model k) [
      | inl p ↦
          let r : new ≡ x = some_inj (rw (lookup-insert req.model k new s.active, p.1) at h) in
          conflicts-false evict s m free.1
            (subst (λ (z : ActiveSwap). contains z.evict m ≡ true) (sym r) e)
      | inr p ↦ i k m x (rw (lookup-insert req.model k new s.active, p.1) at h) e
    ]

pub join_swap-Safe :
    (req : Request) (swap : ActiveSwap) (s : Router)
    → lookup req.model s.active ≡ some swap
    → Safe s
    → Safe (join_swap req swap s)
unfolding join_swap
join_swap-Safe req swap s q (c, i) = (compatible, idle)
  where
    new : ActiveSwap
    new = record swap { waiters = swap.waiters ++ req ∷ [] }

    -- The swap keeps what it evicts.
    before :
        (k : String) (x : ActiveSwap)
        → lookup k (join_swap req swap s).active ≡ some x
        → (y : ActiveSwap) × (lookup k s.active ≡ some y) × (y.evict ≡ x.evict)
    before k x h = elim (eq_cases req.model k) [
      | inl p ↦
          let e : new ≡ x = some_inj (rw (lookup-insert req.model k new s.active, p.1) at h) in
          (
            swap,
            subst (λ z. lookup z s.active ≡ some swap) p.0 q,
            ap (λ (z : ActiveSwap). z.evict) e,
          )
      | inr p ↦ (x, rw (lookup-insert req.model k new s.active, p.1) at h, refl)
    ]

    compatible : Compatible (join_swap req swap s)
    compatible k j x y h1 h2 n =
        let (x', h1', e1) = before k x h1 in
        let (y', h2', e2) = before j y h2 in
        subst (λ z. contains z j ≡ false) e1 (c k j x' y' h1' h2' n)

    idle : Idle (join_swap req swap s)
    idle k m x h e =
        let (x', h', e') = before k x h in i k m x' h' (subst (λ z. contains z m ≡ true) (sym e') e)
