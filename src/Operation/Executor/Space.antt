-- ===== src/Operation/Executor/Space.antt =====
-- internal/operation/diskspace.go, and `preflight` of executor.go: the space that a plan needs.
use llama_skein.Base.{ℕ, ◌+◌, ◌^◌, ◌<◌, ◌≤◌, ◌≡◌, ◌↔◌, ◌∙◌, true, List, [], ◌∷◌, map, arith}
use llama_skein.Operation.{Artifact, planned_artifact, add64}
use llama_skein.Operation.Progress.{size_sum}
use llama_skein.Operation.Executor.{remaining_bytes, sub64, evaluate_disk_preflight}

remaining_bytes-planned :
    (l : List Artifact) (n : ℕ)
    → n + size_sum l < 2 ^ 63
    → remaining_bytes (map planned_artifact l) n ≡ n + size_sum l
unfolding remaining_bytes size_sum planned_artifact
remaining_bytes-planned [] n h = omega arith
remaining_bytes-planned (a ∷ l) n h =
    let e : add64 n (sub64 a.size_bytes 0) ≡ n + a.size_bytes = omega arith in
    rw e (omega (arith, remaining_bytes-planned l (n + a.size_bytes) (omega arith)))

evaluate_iff :
    (available remaining reserve : ℕ)
    → remaining < 2 ^ 63
    → reserve < 2 ^ 63
    → (evaluate_disk_preflight available remaining reserve ≡ true)
      ↔ (remaining + reserve ≤ available)
unfolding evaluate_disk_preflight
evaluate_iff available remaining reserve h k = ground arith

-- For a fresh operation of a plan whose sizes sum below 2^63, and a reserve below 2^63, the disk
-- preflight passes exactly where the sizes and the reserve together fit the available bytes: the
-- two 64-bit additions do not wrap.
pub preflight_iff :
    (l : List Artifact) (available reserve : ℕ)
    → size_sum l < 2 ^ 63
    → reserve < 2 ^ 63
    → (evaluate_disk_preflight available (remaining_bytes (map planned_artifact l) 0) reserve
        ≡ true)
      ↔ (size_sum l + reserve ≤ available)
preflight_iff l available reserve h k =
    let e : remaining_bytes (map planned_artifact l) 0 ≡ size_sum l =
      remaining_bytes-planned l 0 (omega arith) ∙ omega arith in
    rw e (evaluate_iff available (size_sum l) reserve h k)
