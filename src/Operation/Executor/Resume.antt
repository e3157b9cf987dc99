-- ===== src/Operation/Executor/Resume.antt =====
-- internal/operation/executor.go: a download from an origin that serves one content, begun afresh
-- or resumed from any part of it.
use mathlib.Core.List.{append-nil, append_assoc}
use llama_skein.Base.{
  ℕ, zero, suc, ◌+◌, ◌-◌, ◌<◌, ◌≤◌, ◌≡◌, ◌≢◌, refl, ap, subst, ◌∙◌, ◌⊎◌, inl, inr, Bool, true,
  false, Option, none, some, List, [], ◌∷◌, ◌++◌, arith, Bool-cases, if◌then◌else◌, length, take,
  drop, ltb, leb, ◌==◌, leb→le,
}
use llama_skein.Base.Text.{text_eq}
use llama_skein.Base.Maps.{lookup, insert, =?_self, lookup-insert}
use llama_skein.Operation.{ArtifactProgress}
use llama_skein.Operation.Store.{SaveError, already_terminal, write_failed}
use llama_skein.Operation.Executor.{
  Body, chunk, eof, Response, Host, Settings, World, externally_cancelled, Step, ◌then◌, FileStep,
  make_dir, stat_partial, open_partial, sync_partial, close_partial, stop_if_cancelled, save_op,
  stop_of_save, save_progress,
}
use llama_skein.Operation.Executor.Transfer.{
  Resolved, part, Files, append_bytes, Fetched, fetched, refused, written_from, size_or_zero,
  unless_stopped, finish_download, receive, first_answer, fetch_artifact, store_body, download_one,
  progress_save_interval, restarted,
}
use llama_skein.Operation.Executor.Trace.{none_no_stop}
use llama_skein.Operation.Executor.Steps.{some_stop}

-- The reads of a body give these bytes and then the end.
pub data Delivers : Body → List ℕ → Type 0 where
  ends : Delivers eof []
  reads :
      {bytes later : List ℕ} {rest : Body}
      → Delivers rest later
      → Delivers (chunk bytes none rest) (bytes ++ later)

-- The step has fetched the content into the partial file, or another writer ended the operation.
abbrev pub Fetches : List ℕ → List ℕ → Step → Type 0
Fetches dest content r =
    (r.1 ≡ some externally_cancelled)
    ⊎ ((r.1 ≡ none) × (lookup (part dest) r.0.files ≡ some content))

lookup-append_bytes :
    (path bytes old : List ℕ) (files : Files)
    → lookup path files ≡ some old
    → lookup path (append_bytes path bytes files) ≡ some (old ++ bytes)
lookup-append_bytes path bytes old files h =
    rw (append_bytes, h) (lookup-insert path path (old ++ bytes) files ∙ rw (=?_self path))

stop_of_save_cases :
    (e : Option SaveError) → (stop_of_save e ≡ none) ⊎ (stop_of_save e ≡ some externally_cancelled)
stop_of_save_cases none = inl refl
stop_of_save_cases (some already_terminal) = inr refl
stop_of_save_cases (some write_failed) = inl refl

then-Fetches :
    (dest old content : List ℕ) (m : Step) (k : World → Step)
    → Fetches dest old m
    → ((v : World) → lookup (part dest) v.files ≡ some old → Fetches dest content (k v))
    → Fetches dest content (m then k)
then-Fetches dest old content (v, some s) k (inl e) hk = inl e
then-Fetches dest old content (v, some s) k (inr p) hk = absurd (some_stop p.0)
then-Fetches dest old content (v, none) k (inl e) hk = absurd (none_no_stop e)
then-Fetches dest old content (v, none) k (inr p) hk = hk v p.1

Fetches-eq :
    (dest content content' : List ℕ) (r : Step)
    → content ≡ content'
    → Fetches dest content r
    → Fetches dest content' r
Fetches-eq dest content content' r e = subst (λ c. Fetches dest c r) e

either-Fetches :
    (dest content : List ℕ) (b : Bool) (x y : Step)
    → Fetches dest content x
    → Fetches dest content y
    → Fetches dest content (elim b [ true ↦ x | false ↦ y ])
either-Fetches dest content true x y hx hy = hx
either-Fetches dest content false x y hx hy = hy

unless_stopped-Fetches :
    (dest content : List ℕ) (c : World × Bool) (k : World → Step)
    → Fetches dest content (k c.0)
    → Fetches dest content (unless_stopped c k)
unless_stopped-Fetches dest content (v, true) k h = inl refl
unless_stopped-Fetches dest content (v, false) k h = h

written_partial :
    (dest bytes : List ℕ) (files : Files)
    → lookup (part dest) (insert (part dest) bytes files) ≡ some bytes
written_partial dest bytes files =
    lookup-insert (part dest) (part dest) bytes files ∙ rw (=?_self (part dest))

take-drop : (n : ℕ) (xs : List ℕ) → take n xs ++ drop n xs ≡ xs
take-drop zero xs = refl
take-drop (suc n) [] = refl
take-drop (suc n) (x ∷ xs) = ap (◌∷◌ x) (take-drop n xs)

length-take : (n : ℕ) (xs : List ℕ) → n ≤ length xs → length (take n xs) ≡ n
length-take zero xs h = refl
length-take (suc n) [] h = omega (arith, h)
length-take (suc n) (x ∷ xs) h = ap suc (length-take n xs (omega (arith, h)))

take_all : (xs : List ℕ) → take (length xs) xs ≡ xs
take_all [] = refl
take_all (x ∷ xs) = ap (◌∷◌ x) (take_all xs)

module _ (host : Host) where
  save_progress-Fetches :
      (dest content : List ℕ) (index written : ℕ) (w : World)
      → lookup (part dest) w.files ≡ some content
      → Fetches dest content (save_progress host index written w)
  unfolding save_progress save_op
  save_progress-Fetches dest content index written w h = elim (stop_of_save_cases _) [
    | inl p ↦ inr (p, h)
    | inr p ↦ inl p
  ]

  -- The loop of `downloadOne` appends what the body delivers, whatever the intervals at which it
  -- saves.
  receive-Fetches :
      (settings : Settings) (index : ℕ) (dest : List ℕ) {body : Body} {bytes : List ℕ}
      (written last : ℕ) (w : World) (old : List ℕ)
      → ((step : FileStep) (path : List ℕ) (tick : ℕ) → host.succeeds step path tick ≡ true)
      → Delivers body bytes
      → lookup (part dest) w.files ≡ some old
      → Fetches dest (old ++ bytes) (receive host settings index dest body written last w)
  unfolding receive finish_download stop_if_cancelled
  receive-Fetches settings index dest written last w old s ends h =
      rw (s sync_partial dest w.tick, s close_partial dest w.tick, append-nil old)
        (save_progress-Fetches dest old index written w h)
  receive-Fetches settings index dest written last w old s (reads {bytes = []} d) h =
      receive-Fetches settings index dest written last w old s d h
  receive-Fetches settings index dest written last w old s
        (reads {bytes = b ∷ bytes} {later = later} {rest = rest} d) h =
      let w' = record w { files = append_bytes (part dest) (b ∷ bytes) w.files } in
      let h' = lookup-append_bytes (part dest) (b ∷ bytes) old w.files h in
      let written' = written + length (b ∷ bytes) in
      subst
        (λ c.
          Fetches dest c
            (receive host settings index dest (chunk (b ∷ bytes) none rest) written last w))
        (append_assoc old (b ∷ bytes) later)
        (either-Fetches dest ((old ++ b ∷ bytes) ++ later)
          (ltb (written' - last) (progress_save_interval settings)) _ _
          (receive-Fetches settings index dest written' last w' (old ++ b ∷ bytes) s d h')
          (unless_stopped-Fetches dest ((old ++ b ∷ bytes) ++ later) (stop_if_cancelled host w') _ (
            then-Fetches dest (old ++ b ∷ bytes) ((old ++ b ∷ bytes) ++ later)
              (save_progress host index written' (stop_if_cancelled host w').0) _
              (save_progress-Fetches dest (old ++ b ∷ bytes) index written'
                (stop_if_cancelled host w').0 h')
              (λ u hu.
                receive-Fetches settings index dest written' written' u (old ++ b ∷ bytes) s d
                  hu))))

  -- An origin that serves one content: whole for a request without a range; for one with a range
  -- the rest, the whole again, or a refusal.
  pub record Origin (url content : List ℕ) : Type 0 where
    pub whole :
        (tick : ℕ)
        → (r : Response) × (host.get url 0 tick ≡ some r)
          × (r.status ≡ 200)
          × Delivers r.body content
    pub range :
        (n tick : ℕ)
        → n ≢ 0
        → (r : Response) × (host.get url n tick ≡ some r)
          × (((r.status ≡ 206) × Delivers r.body (drop n content))
              ⊎ (r.status ≡ 200)
              ⊎ (r.status ≡ 416))

  -- What `fetchArtifact` gives: bytes to append to the partial file, or a body to write afresh.
  Sound : List ℕ → ℕ → Fetched → Type 0
  Sound content n refused = ⊥
  Sound content n (fetched body true none) = Delivers body (drop n content)
  Sound content n (fetched body true (some _)) = ⊥
  Sound content n (fetched body false _) = Delivers body content

  restarted-Sound :
      (url content : List ℕ) (n tick : ℕ)
      → Origin url content
      → Sound content n (restarted host (host.get url 0 tick))
  unfolding Sound
  restarted-Sound url content n tick o = let (r, g, s, d) = o.whole tick in rw (g, s) d

  fetch_artifact-Sound :
      (url content : List ℕ) (n tick : ℕ)
      → Origin url content
      → Sound content n (fetch_artifact host url n tick)
  unfolding Sound fetch_artifact first_answer
  fetch_artifact-Sound url content zero tick o =
      let (r, g, s, d) = o.whole tick in rw (fetch_artifact, g, s) d
  fetch_artifact-Sound url content (suc n) tick o =
      let (r, g, c) = o.range (suc n) tick (λ e. omega (arith, e)) in
      let z : (suc n == 0) ≡ false = ground arith in
      elim c [
        | inl (s, d) ↦ rw (fetch_artifact, g, z, s) d
        | inr (inl s) ↦ rw (fetch_artifact, g, z, s) (restarted-Sound url content (suc n) tick o)
        | inr (inr s) ↦ rw (fetch_artifact, g, z, s) (restarted-Sound url content (suc n) tick o)
      ]

  -- What lies in the partial file: nothing, or a part of the content from its start.
  unfoldable pub Begun : Files → List ℕ → List ℕ → ℕ → Type 0
  Begun files dest content n =
      ((n ≡ 0) × (lookup (part dest) files ≡ none))
      ⊎ (lookup (part dest) files ≡ some (take n content))

  store_body-Fetches :
      (settings : Settings) (index : ℕ) (dest content : List ℕ) (n : ℕ) (f : Fetched) (w : World)
      → ((step : FileStep) (path : List ℕ) (tick : ℕ) → host.succeeds step path tick ≡ true)
      → Sound content n f
      → Begun w.files dest content n
      → Fetches dest content (store_body host settings index dest n f w)
  unfolding Sound Begun store_body
  store_body-Fetches settings index dest content n refused w s d h = absurd d
  store_body-Fetches settings index dest content n (fetched body true (some _)) w s d h = absurd d
  store_body-Fetches settings index dest content n (fetched body false warning) w s d h =
      rw (s open_partial dest w.tick) (
        receive-Fetches settings index dest (written_from warning n) (written_from warning n) _ [] s
          d (written_partial dest [] w.files))
  store_body-Fetches settings index dest content n (fetched body true none) w s d (inr h) =
      rw (s open_partial dest w.tick, h)
        (let v = record w { files = insert (part dest) (take n content) w.files } in
          Fetches-eq dest (take n content ++ drop n content) content
            (receive host settings index dest body n n v) (take-drop n content)
            (receive-Fetches settings index dest n n v (take n content) s d
              (written_partial dest (take n content) w.files)))
  store_body-Fetches settings index dest content n (fetched body true none) w s d (inl (z, h)) =
      rw (s open_partial dest w.tick, h)
        (receive-Fetches settings index dest n n _ [] s
          (subst (λ t. Delivers body (drop t content)) z d) (written_partial dest [] w.files))

-- How many bytes lie in the partial file.
Begun-size :
    (host : Host) (files : Files) (dest content : List ℕ) (n : ℕ)
    → n ≤ length content
    → Begun host files dest content n
    → size_or_zero (lookup (part dest) files) ≡ n
unfolding Begun
Begun-size host files dest content n l (inl (z, h)) = rw (h, z)
Begun-size host files dest content n l (inr h) = rw h (length-take n content l)

Begun-all :
    (host : Host) (files : Files) (dest content : List ℕ) (n : ℕ)
    → 0 < length content
    → length content ≤ n
    → n ≤ length content
    → Begun host files dest content n
    → lookup (part dest) files ≡ some content
unfolding Begun
Begun-all host files dest content n p g l (inl (z, h)) = absurd (omega (arith, p, g, z))
Begun-all host files dest content n p g l (inr h) =
    let e : n ≡ length content = omega (arith, g, l) in
    h ∙ ap some (ap (λ m. take m content) e ∙ take_all content)

-- A download from an origin that serves one content of the declared size, which is not empty, where
-- no file operation fails and nothing lies at the destination yet: begun afresh or resumed from any
-- part of the content, with the range honoured, ignored or refused, and however the body is cut
-- into reads, the partial file holds the content exactly, unless another writer has ended the
-- operation.
pub download_one_complete :
    (host : Host) (settings : Settings) (index : ℕ) (a : ArtifactProgress) (r : Resolved)
    (w : World) (content : List ℕ) (n : ℕ)
    → ((step : FileStep) (path : List ℕ) (tick : ℕ) → host.succeeds step path tick ≡ true)
    → Origin host r.url content
    → a.bytes_total ≡ some (length content)
    → 0 < length content
    → lookup r.dest w.files ≡ none
    → n ≤ length content
    → Begun host w.files r.dest content n
    → Fetches r.dest content (download_one host settings index a r w)
unfolding download_one save_progress save_op
download_one_complete host settings index a r w content n s o t p d l b =
    elim (Bool-cases (leb (length content) n)) [
      | inl y ↦
          rw
            (
              download_one,
              s make_dir r.dest w.tick,
              t,
              d,
              s stat_partial r.dest w.tick,
              Begun-size host w.files r.dest content n l b,
              y,
            )
            (inr
              (refl, Begun-all host w.files r.dest content n p (leb→le (length content) n y) l b))
      | inr m ↦
          rw
            (
              download_one,
              s make_dir r.dest w.tick,
              t,
              d,
              s stat_partial r.dest w.tick,
              Begun-size host w.files r.dest content n l b,
              m,
            )
            (store_body-Fetches host settings index r.dest content n _ w s
              (fetch_artifact-Sound host r.url content n w.tick o) b)
    ]
