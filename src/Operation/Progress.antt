-- ===== src/Operation/Progress.antt =====
-- internal/operation/operation.go: the totals over the artifacts of an operation.
use llama_skein.Base.{
  ℕ, ◌+◌, ◌^◌, ◌<◌, ◌≡◌, refl, ap, String, none, some, List, [], ◌∷◌, map, arith, In, inl, inr, ◌∙◌,
  sym, subst, Option-cases,
}
use llama_skein.Operation.{
  ArtifactProgress, Artifact, Plan, add64, bytes_downloaded, bytes_total, planned_artifact,
  new_from_plan,
}

-- The sums over the integers.
unfoldable pub downloaded_sum : List ArtifactProgress → ℕ
downloaded_sum [] = 0
downloaded_sum (a ∷ rest) = a.bytes_downloaded + downloaded_sum rest

unfoldable pub size_sum : List Artifact → ℕ
size_sum [] = 0
size_sum (a ∷ rest) = a.size_bytes + size_sum rest

bytes_downloaded-from :
    (l : List ArtifactProgress) (n : ℕ)
    → n + downloaded_sum l < 2 ^ 63
    → bytes_downloaded l n ≡ n + downloaded_sum l
unfolding bytes_downloaded downloaded_sum
bytes_downloaded-from [] n h = omega arith
bytes_downloaded-from (a ∷ rest) n h =
    let e : add64 n a.bytes_downloaded ≡ n + a.bytes_downloaded = omega arith in
    rw e (omega (arith, bytes_downloaded-from rest (n + a.bytes_downloaded) (omega arith)))

-- Where the true sum fits an int64, `BytesDownloaded` is that sum.
pub bytes_downloaded-sum :
    (l : List ArtifactProgress)
    → downloaded_sum l < 2 ^ 63
    → bytes_downloaded l 0 ≡ downloaded_sum l
bytes_downloaded-sum l h = omega (arith, bytes_downloaded-from l 0)

-- One artifact of unknown size makes the total unknown, wherever it stands in the list.
pub bytes_total_unknown :
    (l : List ArtifactProgress) (a : ArtifactProgress) (n : ℕ)
    → In a l
    → a.bytes_total ≡ none
    → bytes_total l n ≡ none
unfolding bytes_total
bytes_total_unknown [] a n i e = elim i [ ]
bytes_total_unknown (b ∷ rest) a n (inl p) e =
    rw (ap (λ (x : ArtifactProgress). x.bytes_total) (sym p) ∙ e)
bytes_total_unknown (b ∷ rest) a n (inr i) e = elim (Option-cases b.bytes_total) [
  | inl p ↦ rw p
  | inr (t, p) ↦ rw p (bytes_total_unknown rest a (add64 n t) i e)
]

planned_total-from :
    (l : List Artifact) (n : ℕ)
    → n + size_sum l < 2 ^ 63
    → bytes_total (map planned_artifact l) n ≡ some (n + size_sum l)
unfolding bytes_total size_sum planned_artifact
planned_total-from [] n h = ap some (omega arith)
planned_total-from (a ∷ rest) n h =
    let e : add64 n a.size_bytes ≡ n + a.size_bytes = omega arith in
    rw e (planned_total-from rest (n + a.size_bytes) (omega arith) ∙ ap some (omega arith))

planned_downloaded-from :
    (l : List Artifact) (n : ℕ) → n < 2 ^ 63 → bytes_downloaded (map planned_artifact l) n ≡ n
unfolding bytes_downloaded planned_artifact
planned_downloaded-from [] n h = refl
planned_downloaded-from (a ∷ rest) n h =
    let e : add64 n 0 ≡ n = omega arith in
    subst (λ t. bytes_downloaded (map planned_artifact rest) t ≡ n) (sym e)
      (planned_downloaded-from rest n h)

-- An operation made from a plan whose sizes sum below 2^63 has downloaded nothing, and its total is
-- known: the sum of the sizes that the plan declares.
pub new_from_plan_totals :
    (id : String) (plan : Plan) (now : ℕ)
    → size_sum plan.artifacts < 2 ^ 63
    → (bytes_downloaded (new_from_plan id plan now).artifacts 0 ≡ 0)
      × (bytes_total (new_from_plan id plan now).artifacts 0 ≡ some (size_sum plan.artifacts))
unfolding new_from_plan
new_from_plan_totals id plan now h = (
  planned_downloaded-from plan.artifacts 0 (omega arith),
  planned_total-from plan.artifacts 0 (omega arith) ∙ ap some (omega arith),
)
