-- ===== src/Dsl/References.antt =====
-- The references of a tree of internal/config/matrix_dsl.go: which of them its expansion looks up.
use llama_skein.Base.{
  ℕ, ◌*◌, ◌≡◌, ◌⊎◌, inl, inr, refl, String, Bool, true, false, Option, none, some, [], ◌∷◌, ◌++◌,
  ltb, length, Bool-cases, if◌then◌else◌,
}
use llama_skein.Base.Maps.{lookup, string_eq}
use llama_skein.Dsl.{
  Node, leaf_node, ref_node, or_node, and_node, Children, nil, child, Combos, Refs, unknown_ref,
  too_many, Expanded, ok, failed, expand, expand_or, expand_and, resolved, cartesian_product,
  max_dsl_expansions,
}

-- The names that a tree refers to.
abbrev mutual
  pub Mentions : String → Node → Type 0
  Mentions s (leaf_node name) = ⊥
  Mentions s (ref_node name) = s ≡ name
  Mentions s (or_node cs) = MentionsIn s cs
  Mentions s (and_node cs) = MentionsIn s cs

  pub MentionsIn : String → Children → Type 0
  MentionsIn s nil = ⊥
  MentionsIn s (child c cs) = Mentions s c ⊎ MentionsIn s cs

-- An error about a name: the tree has it, and it is not resolved.
abbrev pub Blames : (String → Type 0) → Refs → Expanded → Type 0
Blames P refs (ok combos) = Unit
Blames P refs (failed (unknown_ref s)) = P s × (lookup s refs ≡ none)
Blames P refs (failed too_many) = Unit

abbrev Mapped : (String → Type 0) → (String → Type 0) → Type 0
Mapped P Q = (s : String) → P s → Q s

Blames-mono :
    (P Q : String → Type 0) (refs : Refs) (e : Expanded)
    → Mapped P Q
    → Blames P refs e
    → Blames Q refs e
Blames-mono P Q refs (ok combos) f h = tt
Blames-mono P Q refs (failed (unknown_ref s)) f h = (f s h.0, h.1)
Blames-mono P Q refs (failed too_many) f h = tt

resolved-Blames :
    (refs : Refs) (s : String) (o : Option Combos)
    → lookup s refs ≡ o
    → Blames (λ x. x ≡ s) refs (resolved s o)
resolved-Blames refs s none e = (refl, e)
resolved-Blames refs s (some combos) e = tt

product-Blames :
    (P : String → Type 0) (refs : Refs) (l r : Combos) (n : ℕ)
    → Blames P refs (cartesian_product l r n)
unfolding cartesian_product
product-Blames P refs l r n = elim (Bool-cases (ltb n (length l * length r))) [
  | inl b ↦ rw b tt
  | inr b ↦ rw b tt
]

-- A child, and then the rest.
chain-Blames :
    (P Q R : String → Type 0) (refs : Refs) (e : Expanded) (k : Combos → Expanded)
    → Mapped P R
    → Mapped Q R
    → Blames P refs e
    → ((r : Combos) → Blames Q refs (k r))
    → Blames R refs (elim e [ failed x ↦ failed x | ok r ↦ k r ])
chain-Blames P Q R refs (ok r) k f g h rest = Blames-mono Q R refs (k r) g (rest r)
chain-Blames P Q R refs (failed (unknown_ref s)) k f g h rest = (f s h.0, h.1)
chain-Blames P Q R refs (failed too_many) k f g h rest = tt

capped :
    (P : String → Type 0) (refs : Refs) (b : Bool) (e : Expanded)
    → Blames P refs e
    → Blames P refs (if b then failed too_many else e)
capped P refs true e h = tt
capped P refs false e h = h

mutual
  unfolding expand

  pub expand-Blames :
      (tree : Node) (refs : Refs) → Blames (λ s. Mentions s tree) refs (expand tree refs)
  expand-Blames (leaf_node name) refs = tt
  expand-Blames (ref_node name) refs = resolved-Blames refs name (lookup name refs) refl
  expand-Blames (or_node cs) refs = expand_or-Blames cs refs []
  expand-Blames (and_node cs) refs = expand_and-Blames cs refs ([] ∷ [])

  expand_or-Blames :
      (cs : Children) (refs : Refs) (l : Combos)
      → Blames (λ s. MentionsIn s cs) refs (expand_or cs refs l)
  expand_or-Blames nil refs l = tt
  expand_or-Blames (child c cs) refs l =
      chain-Blames (λ s. Mentions s c) (λ s. MentionsIn s cs) (λ s. MentionsIn s (child c cs)) refs
        (expand c refs) _ (λ s m. inl m) (λ s m. inr m) (expand-Blames c refs)
        (λ r.
          capped (λ s. MentionsIn s cs) refs (ltb max_dsl_expansions (length (l ++ r)))
            (expand_or cs refs (l ++ r)) (expand_or-Blames cs refs (l ++ r)))

  expand_and-Blames :
      (cs : Children) (refs : Refs) (l : Combos)
      → Blames (λ s. MentionsIn s cs) refs (expand_and cs refs l)
  expand_and-Blames nil refs l = tt
  expand_and-Blames (child c cs) refs l =
      chain-Blames (λ s. Mentions s c) (λ s. MentionsIn s cs) (λ s. MentionsIn s (child c cs)) refs
        (expand c refs) _ (λ s m. inl m) (λ s m. inr m) (expand-Blames c refs)
        (λ r.
          chain-Blames (λ s. MentionsIn s cs) (λ s. MentionsIn s cs) (λ s. MentionsIn s cs) refs
            (cartesian_product l r max_dsl_expansions) (λ joined. expand_and cs refs joined)
            (λ s m. m) (λ s m. m)
            (product-Blames (λ s. MentionsIn s cs) refs l r max_dsl_expansions)
            (λ joined. expand_and-Blames cs refs joined))
