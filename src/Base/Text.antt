-- ===== src/Base/Text.antt =====
-- Go strings as lists of bytes, with the functions of the package `strings` that the code calls.
use Prim.Native.Char.{code}
use Prim.Native.String.{String}
use llama_skein.Base.Tests.{◌==◌, if◌then◌else◌, leb, Bool-cases, ==_iff, ==_refl}
use mathlib.Core.Path.{◌≡◌, refl, sym, ap}
use mathlib.Core.Logic.{◌↔◌, ◌≢◌, inl, inr}
use native.Mathlib.Omega.{arith}
use llama_skein.Base.Maps.{Eq}
use llama_skein.Base.Lists.{length, take, drop, In, All}
use Prim.Native.Nat.{ℕ, suc, ◌-◌}
use mathlib.Core.Bool.{Bool, true, false, ◌&&◌}
use mathlib.Core.Option.{Option, none, some}
use mathlib.Core.List.{List, [], ◌∷◌, ◌++◌}

-- The code points of a text: its bytes, if it is ASCII.
abbrev pub codes : String → List ℕ
codes String.[] = []
codes (String.◌∷◌ c s) = code c ∷ codes s

-- `strings.HasPrefix(s, p)`
unfoldable pub has_prefix : List ℕ → List ℕ → Bool
has_prefix s [] = true
has_prefix [] (c ∷ p) = false
has_prefix (b ∷ s) (c ∷ p) = b == c && has_prefix s p

-- `s == t`
unfoldable pub same_text : List ℕ → List ℕ → Bool
same_text [] [] = true
same_text (b ∷ s) (c ∷ t) = b == c && same_text s t
same_text _ _ = false

-- `strings.CutSuffix(s, suffix)`
unfoldable pub cut_suffix : List ℕ → List ℕ → Option (List ℕ)
unfolding same_text
cut_suffix s suffix =
    let n = length s - length suffix in
    if leb (length suffix) (length s) && same_text (drop n s) suffix then some (take n s) else none

-- `strings.LastIndex(s, sub)`, for a `sub` that is not empty.
unfoldable pub last_index : List ℕ → List ℕ → Option ℕ
unfolding has_prefix
last_index [] sub = none
last_index (b ∷ s) sub = elim (last_index s sub) [
  | some i ↦ some (suc i)
  | none ↦ if has_prefix (b ∷ s) sub then some 0 else none
]

-- Texts as keys.
pub same_text_iff : (s t : List ℕ) → (same_text s t ≡ true) ↔ (s ≡ t)
unfolding same_text
same_text_iff [] [] = (λ h. refl, λ h. refl)
same_text_iff [] (c ∷ t) = (λ h. cc, λ h. cc)
same_text_iff (b ∷ s) [] = (λ h. cc, λ h. cc)
same_text_iff (b ∷ s) (c ∷ t) = ground (arith, same_text_iff s t)

instance abbrev pub text_eq : Eq (List ℕ)
text_eq = record { beq = same_text; beq_iff = same_text_iff }

-- `strings.Split(s, sep)`, for a separator of one byte.
abbrev push_first : ℕ → List (List ℕ) → List (List ℕ)
push_first c [] = (c ∷ []) ∷ []
push_first c (x ∷ xs) = (c ∷ x) ∷ xs

unfoldable pub split : ℕ → List ℕ → List (List ℕ)
split sep [] = [] ∷ []
split sep (c ∷ s) = let rest = split sep s in if c == sep then [] ∷ rest else push_first c rest

-- `strings.Join(parts, sep)`, for a separator of one byte.
unfoldable pub join : ℕ → List (List ℕ) → List ℕ
join sep [] = []
join sep (x ∷ []) = x
join sep (x ∷ y ∷ xs) = x ++ sep ∷ join sep (y ∷ xs)

-- A part that the separator does not occur in.
abbrev pub Free : ℕ → List ℕ → Type 0
Free sep s = ¬ In sep s

split-Free_part : (sep : ℕ) (s : List ℕ) → Free sep s → split sep s ≡ s ∷ []
unfolding split
split-Free_part sep [] h = refl
split-Free_part sep (c ∷ s) h =
    let n : (c == sep) ≡ false = elim (Bool-cases (c == sep)) [
      | inl y ↦ absurd (h (inl (sym ((==_iff c sep).0 y))))
      | inr n ↦ n
    ] in
    rw (n, split-Free_part sep s (λ i. h (inr i)))

split-append : (sep : ℕ) (s t : List ℕ) → Free sep s → split sep (s ++ sep ∷ t) ≡ s ∷ split sep t
unfolding split
split-append sep [] t h = rw (==_refl sep)
split-append sep (c ∷ s) t h =
    let n : (c == sep) ≡ false = elim (Bool-cases (c == sep)) [
      | inl y ↦ absurd (h (inl (sym ((==_iff c sep).0 y))))
      | inr n ↦ n
    ] in
    rw (n, split-append sep s t (λ i. h (inr i)))

-- Parts without the separator are found again.
pub split-join :
    (sep : ℕ) (x : List ℕ) (xs : List (List ℕ))
    → Free sep x
    → All (Free sep) xs
    → split sep (join sep (x ∷ xs)) ≡ x ∷ xs
unfolding join
split-join sep x [] h hs = split-Free_part sep x h
split-join sep x (y ∷ xs) h hs =
    rw (split-append sep x (join sep (y ∷ xs)) h, split-join sep y xs hs.0 hs.1)

abbrev Parts : ℕ → List ℕ → List (List ℕ) → Type 0
Parts sep s l = (join sep l ≡ s) × All (Free sep) l × (l ≢ [])

Parts-sep :
    (sep : ℕ) (s : List ℕ) (l : List (List ℕ)) → Parts sep s l → Parts sep (sep ∷ s) ([] ∷ l)
unfolding join
Parts-sep sep s [] p = absurd (p.2 refl)
Parts-sep sep s (x ∷ xs) p = (ap (◌∷◌ sep) p.0, ((λ i. elim i [ ]), p.1), λ e. cc)

Parts-push :
    (sep c : ℕ) (s : List ℕ) (l : List (List ℕ))
    → c ≢ sep
    → Parts sep s l
    → Parts sep (c ∷ s) (push_first c l)
unfolding join
Parts-push sep c s [] n p = absurd (p.2 refl)
Parts-push sep c s (x ∷ []) n p =
    (ap (◌∷◌ c) p.0, ((λ i. elim i [ inl e ↦ n (sym e) | inr j ↦ p.1.0 j ]), tt), λ e. cc)
Parts-push sep c s (x ∷ y ∷ xs) n p =
    (ap (◌∷◌ c) p.0, ((λ i. elim i [ inl e ↦ n (sym e) | inr j ↦ p.1.0 j ]), p.1.1), λ e. cc)

split-Parts : (sep : ℕ) (s : List ℕ) → Parts sep s (split sep s)
unfolding split join
split-Parts sep [] = (refl, ((λ i. elim i [ ]), tt), λ e. cc)
split-Parts sep (c ∷ s) = elim (Bool-cases (c == sep)) [
  | inl y ↦ rw (y, (==_iff c sep).0 y) (Parts-sep sep s (split sep s) (split-Parts sep s))
  | inr n ↦
      rw n (Parts-push sep c s (split sep s) (λ e. cc ((==_iff c sep).1 e)) (split-Parts sep s))
]

-- Joining the parts gives the text back, and no part has the separator.
pub join-split : (sep : ℕ) (s : List ℕ) → join sep (split sep s) ≡ s
join-split sep s = (split-Parts sep s).0

pub split-Free : (sep : ℕ) (s : List ℕ) → All (Free sep) (split sep s)
split-Free sep s = (split-Parts sep s).1

pub split-nonempty : (sep : ℕ) (s : List ℕ) → split sep s ≢ []
split-nonempty sep s = (split-Parts sep s).2

pub append_cancel : (s t u : List ℕ) → s ++ t ≡ s ++ u → t ≡ u
append_cancel [] t u e = e
append_cancel (c ∷ s) t u e = append_cancel s t u (cc e)

pub has_prefix-append : (s t : List ℕ) → has_prefix (s ++ t) s ≡ true
unfolding has_prefix
has_prefix-append [] [] = refl
has_prefix-append [] (c ∷ t) = refl
has_prefix-append (c ∷ s) t = rw (==_refl c) (has_prefix-append s t)
