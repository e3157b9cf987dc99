-- ===== src/LogMonitor/Lists.antt =====
-- `take` and `drop` on lists in two parts, and the copies of internal/logmon/logging.go.
use llama_skein.Base.{
  ℕ, zero, suc, ◌+◌, ◌-◌, ◌≤◌, ◌≡◌, refl, sym, ap, ◌∙◌, List, [], ◌∷◌, ◌++◌, length, take, drop,
  arith,
}
use llama_skein.LogMonitor.{overlay, copy_at}

pub drop-append_le : (n : ℕ) (a b : List ℕ) → n ≤ length a → drop n (a ++ b) ≡ drop n a ++ b
drop-append_le zero a b h = refl
drop-append_le (suc n) [] b h = absurd (omega (arith, h))
drop-append_le (suc n) (x ∷ a) b h = drop-append_le n a b (omega (arith, h))

pub drop-append_ge : (n : ℕ) (a b : List ℕ) → length a ≤ n → drop n (a ++ b) ≡ drop (n - length a) b
drop-append_ge n [] b h = ap (λ k. drop k b) (omega arith)
drop-append_ge zero (x ∷ a) b h = absurd (omega (arith, h))
drop-append_ge (suc n) (x ∷ a) b h =
    drop-append_ge n a b (omega (arith, h)) ∙ ap (λ k. drop k b) (omega arith)

pub take-append_le : (n : ℕ) (a b : List ℕ) → n ≤ length a → take n (a ++ b) ≡ take n a
take-append_le zero a b h = refl
take-append_le (suc n) [] b h = absurd (omega (arith, h))
take-append_le (suc n) (x ∷ a) b h = ap (λ l. x ∷ l) (take-append_le n a b (omega (arith, h)))

pub take_all : (n : ℕ) (a : List ℕ) → length a ≤ n → take n a ≡ a
take_all zero [] h = refl
take_all zero (x ∷ a) h = absurd (omega (arith, h))
take_all (suc n) [] h = refl
take_all (suc n) (x ∷ a) h = ap (λ l. x ∷ l) (take_all n a (omega (arith, h)))

pub drop_all : (n : ℕ) (a : List ℕ) → length a ≤ n → drop n a ≡ []
drop_all zero [] h = refl
drop_all zero (x ∷ a) h = absurd (omega (arith, h))
drop_all (suc n) [] h = refl
drop_all (suc n) (x ∷ a) h = drop_all n a (omega (arith, h))

pub take-drop : (n : ℕ) (a : List ℕ) → take n a ++ drop n a ≡ a
take-drop zero a = refl
take-drop (suc n) [] = refl
take-drop (suc n) (x ∷ a) = ap (λ l. x ∷ l) (take-drop n a)

pub length-take : (n : ℕ) (a : List ℕ) → n ≤ length a → length (take n a) ≡ n
length-take zero a h = refl
length-take (suc n) [] h = absurd (omega (arith, h))
length-take (suc n) (x ∷ a) h = ap suc (length-take n a (omega (arith, h)))

pub length-drop : (n : ℕ) (a : List ℕ) → length (drop n a) ≡ length a - n
length-drop zero a = omega arith
length-drop (suc n) [] = omega arith
length-drop (suc n) (x ∷ a) = length-drop n a ∙ omega arith

pub drop-drop : (m n : ℕ) (a : List ℕ) → drop m (drop n a) ≡ drop (n + m) a
drop-drop m zero a = ap (λ k. drop k a) (omega arith)
drop-drop m (suc n) [] = drop_all m [] (omega arith) ∙ sym (drop_all (suc n + m) [] (omega arith))
drop-drop m (suc n) (x ∷ a) =
    drop-drop m n a ∙ ap (λ k. drop k (x ∷ a)) {x = suc (n + m)} (omega arith)

pub overlay_lem : (p b : List ℕ) → length p ≤ length b → overlay p b ≡ p ++ drop (length p) b
unfolding overlay
overlay_lem [] b h = refl
overlay_lem (x ∷ p) [] h = absurd (omega (arith, h))
overlay_lem (x ∷ p) (y ∷ b) h = ap (λ l. x ∷ l) (overlay_lem p b (omega (arith, h)))

pub copy_at_lem : (a p b : List ℕ) → copy_at (length a) p (a ++ b) ≡ a ++ overlay p b
unfolding copy_at
copy_at_lem [] p b = refl
copy_at_lem (x ∷ a) p b = ap (λ l. x ∷ l) (copy_at_lem a p b)
