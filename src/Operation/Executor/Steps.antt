-- ===== src/Operation/Executor/Steps.antt =====
-- internal/operation/executor.go: each step of `Run` but the last is `Live`, whatever the host
-- answers.
use llama_skein.Base.{
  ℕ, suc, ◌+◌, ◌-◌, ◌≡◌, refl, inl, inr, String, Bool, true, false, not, Option, none, some, List,
  [], ◌∷◌, Option-cases, if◌then◌else◌, ltb, length, take,
}
use llama_skein.Base.Text.{codes, text_eq}
use llama_skein.Base.Maps.{lookup, insert, string_eq}
use llama_skein.Operation.{internal, Operation, ArtifactProgress, ErrorCode}
use llama_skein.Operation.Store.Saves.{Ended}
use llama_skein.Operation.Executor.{
  Body, chunk, eof, broken, context_done, Host, Settings, World, Stop, externally_cancelled, error,
  Step, ◌then◌, stop_if_cancelled, save_op, sync_partial, close_partial, save_progress, make_dir,
  stat_partial, open_partial, rename,
}
use llama_skein.Operation.Executor.Transfer.{
  Resolved, part, Fetched, fetched, refused, warned, ignored, opened, written_from, append_bytes,
  unless_stopped, finish_download, receive, store_body, download_one, download, has_wanted_size,
  reaches_wanted_size, size_or_zero, progress_save_interval,
}
use llama_skein.Operation.Executor.Content.{
  right_size, verify_digest, digest_step, content_step, verify_one, verify, renamed, install_one,
  install, primary_weights_path,
}
use llama_skein.Operation.Executor.Run.{register_step}
use llama_skein.Operation.Executor.Trace.{
  plan_of, Live, Live-local, then-Live, Live-error, Live-same, if-Live, Live-stopped,
  stop_if_cancelled-Live, stop_if_cancelled-Ended, save_progress-Live, none_no_stop,
}

warned-keeps :
    (warning : Option String) (o : Operation)
    → (plan_of (warned warning o) ≡ plan_of o) × ((warned warning o).phase ≡ o.phase)
warned-keeps none o = (refl, refl)
warned-keeps (some _) o = (refl, refl)

-- A change of the files alone.
Live-files :
    (w : World) (files : List (List ℕ × List ℕ)) → Live w (record w { files = files }, none)
Live-files w files = Live-local w (record w { files = files }) none refl refl refl (λ e. cc)

pub ext_no_error :
    {c : ErrorCode} {m : String}
    → ◌≡◌ {A = Option Stop} (some externally_cancelled) (some (error c m))
    → ⊥
ext_no_error e = cc

pub some_stop : {s : Stop} → ◌≡◌ {A = Option Stop} (some s) none → ⊥
some_stop e = cc

either-Live :
    (w : World) (b : Bool) (x y : Step)
    → Live w x
    → Live w y
    → Live w (elim b [ true ↦ x | false ↦ y ])
either-Live w true x y hx hy = hx
either-Live w false x y hx hy = hy

unless_stopped-Live :
    (w : World) (c : World × Bool) (k : World → Step)
    → Live w (c.0, none)
    → (c.1 ≡ true → Ended c.0.store c.0.op.id)
    → ((v : World) → Live v (k v))
    → Live w (unless_stopped c k)
unless_stopped-Live w (v, true) k h e hk = Live-stopped w v h (e refl)
unless_stopped-Live w (v, false) k h e hk = then-Live w (v, none) k h hk

module _ (host : Host) where
  pub finish_download-Live :
      (index : ℕ) (dest : List ℕ) (written : ℕ) (w : World)
      → Live w (finish_download host index dest written w)
  unfolding finish_download
  finish_download-Live index dest written w =
      if-Live w (not (host.succeeds sync_partial dest w.tick)) _ _ (Live-error w _ _) (
        if-Live w (not (host.succeeds close_partial dest w.tick)) _ _ (Live-error w _ _)
          (save_progress-Live host index written w))

  -- `downloadOne` ignores the answer of `saveProgress` where it fetches nothing.
  pub ignored_save-Live :
      (index written : ℕ) (w : World) → Live w (ignored (save_progress host index written w))
  unfolding save_progress save_op
  ignored_save-Live index written w = record {
    moves = (save_progress-Live host index written w).moves;
    running = λ _ t. t;
    ended = λ q. absurd (none_no_stop q);
  }

  pub receive-Live :
      (settings : Settings) (index : ℕ) (dest : List ℕ) (body : Body) (written last : ℕ) (w : World)
      → Live w (receive host settings index dest body written last w)
  unfolding receive
  receive-Live settings index dest context_done written last w = Live-error w _ _
  receive-Live settings index dest broken written last w = Live-error w _ _
  receive-Live settings index dest eof written last w = finish_download-Live index dest written w
  receive-Live settings index dest (chunk [] limit rest) written last w =
      receive-Live settings index dest rest written last w
  receive-Live settings index dest (chunk (b ∷ bytes) (some n) rest) written last w =
      Live-local w (record w { files = append_bytes (part dest) (take n (b ∷ bytes)) w.files }) _
        refl refl refl (λ e. cc)
  receive-Live settings index dest (chunk (b ∷ bytes) none rest) written last w =
      let w' = record w { files = append_bytes (part dest) (b ∷ bytes) w.files } in
      let written' = written + length (b ∷ bytes) in
      either-Live w (ltb (written' - last) (progress_save_interval settings)) _ _
        (then-Live w (w', none) (λ v. receive host settings index dest rest written' last v)
          (Live-files w _) (λ v. receive-Live settings index dest rest written' last v))
        (then-Live w (w', none)
          (λ v. unless_stopped (stop_if_cancelled host v) (λ u.
            save_progress host index written' u
            then (λ t. receive host settings index dest rest written' written' t)))
          (Live-files w _)
          (λ v.
            unless_stopped-Live v (stop_if_cancelled host v) _ (stop_if_cancelled-Live host v)
              (stop_if_cancelled-Ended host v)
              (λ u.
                then-Live u (save_progress host index written' u) _
                  (save_progress-Live host index written' u)
                  (λ t. receive-Live settings index dest rest written' written' t))))

  pub store_body-Live :
      (settings : Settings) (index : ℕ) (dest : List ℕ) (existing : ℕ) (f : Fetched) (w : World)
      → Live w (store_body host settings index dest existing f w)
  unfolding store_body
  store_body-Live settings index dest existing refused w = Live-error w _ _
  store_body-Live settings index dest existing (fetched body resuming warning) w =
      let v = record w { op = warned warning w.op } in
      let (i, p) = warned-keeps warning w.op in
      let start = written_from warning existing in
      then-Live w (v, none)
        (λ u.
          if not (host.succeeds open_partial dest u.tick)
          then (u, some (error internal "open partial file"))
          else receive host settings index dest body start start (record u {
            files = insert (part dest) (opened resuming (lookup (part dest) u.files)) u.files;
          }))
        (Live-local w v none refl i p (λ e. cc))
        (λ u. if-Live u (not (host.succeeds open_partial dest u.tick)) _ _ (Live-error u _ _) (
          then-Live u
            (
              record u {
                files = insert (part dest) (opened resuming (lookup (part dest) u.files)) u.files;
              },
              none,
            )
            (λ t. receive host settings index dest body start start t) (Live-files u _)
            (λ t. receive-Live settings index dest body start start t)))

  pub download_one-Live :
      (settings : Settings) (index : ℕ) (a : ArtifactProgress) (r : Resolved) (w : World)
      → Live w (download_one host settings index a r w)
  unfolding download_one
  download_one-Live settings index a r w =
      if-Live w (not (host.succeeds make_dir r.dest w.tick)) _ _ (Live-error w _ _) (
        if-Live w (has_wanted_size a.bytes_total (lookup r.dest w.files)) _ _
          (ignored_save-Live index _ w)
          (if-Live w (not (host.succeeds stat_partial r.dest w.tick)) _ _ (Live-error w _ _) (
            if-Live w
              (reaches_wanted_size a.bytes_total (size_or_zero (lookup (part r.dest) w.files))) _ _
              (ignored_save-Live index _ w) (store_body-Live settings index r.dest _ _ w))))

  pub download-Live :
      (settings : Settings) (index : ℕ) (l : List ArtifactProgress) (rs : List Resolved) (w : World)
      → Live w (download host settings index l rs w)
  unfolding download
  download-Live settings index [] rs w = Live-same w
  download-Live settings index (a ∷ l) [] w = Live-same w
  download-Live settings index (a ∷ l) (r ∷ rs) w =
      then-Live w (download_one host settings index a r w) _
        (download_one-Live settings index a r w) (λ v. download-Live settings (suc index) l rs v)

  pub digest_step-Live :
      (digest : Option String) (path bytes : List ℕ) (w : World)
      → Live w (digest_step host digest path bytes w)
  digest_step-Live none path bytes w = Live-local w _ none refl refl refl (λ e. cc)
  digest_step-Live (some d) path bytes w =
      if-Live w (verify_digest host path bytes (codes d) w.tick) _ _ (Live-same w)
        (Live-error w _ _)

  pub content_step-Live :
      (a : ArtifactProgress) (path : List ℕ) (content : Option (List ℕ)) (w : World)
      → Live w (content_step host a path content w)
  content_step-Live a path none w = Live-error w _ _
  content_step-Live a path (some bytes) w =
      if-Live w (not (host.succeeds stat_partial path w.tick)) _ _ (Live-error w _ _) (
        if-Live w (right_size a.bytes_total bytes) _ _ (digest_step-Live a.digest path bytes w)
          (Live-error w _ _))

  pub verify-Live :
      (l : List ArtifactProgress) (rs : List Resolved) (w : World) → Live w (verify host l rs w)
  unfolding verify verify_one
  verify-Live [] rs w = Live-same w
  verify-Live (a ∷ l) [] w = Live-same w
  verify-Live (a ∷ l) (r ∷ rs) w =
      then-Live w (verify_one host a r w) _ (content_step-Live a _ _ w) (λ v. verify-Live l rs v)

  pub renamed-Live :
      (dest : List ℕ) (content : Option (List ℕ)) (w : World) → Live w (renamed host dest content w)
  renamed-Live dest none w = Live-error w _ _
  renamed-Live dest (some bytes) w =
      if-Live w (host.succeeds rename dest w.tick) _ _ (Live-files w _) (Live-error w _ _)

  pub install_one-Live : (r : Resolved) (w : World) → Live w (install_one host r w)
  unfolding install_one
  install_one-Live r w = elim (Option-cases (lookup (part r.dest) w.files)) [
    | inr (bytes, p) ↦ rw (install_one, p) (renamed-Live r.dest (some bytes) w)
    | inl p ↦ elim (Option-cases (lookup r.dest w.files)) [
      | inr (bytes, q) ↦ rw (install_one, p, q) (Live-same w)
      | inl q ↦ rw (install_one, p, q) (renamed-Live r.dest none w)
    ]
  ]

  pub install-Live : (rs : List Resolved) (w : World) → Live w (install host rs w)
  unfolding install
  install-Live [] w = Live-same w
  install-Live (r ∷ rs) w =
      then-Live w (install_one host r w) _ (install_one-Live r w) (λ v. install-Live rs v)

  pub register_step-Live :
      (register : Option (Operation → List ℕ → Option String)) (rs : List Resolved) (w : World)
      → Live w (register_step host register rs w)
  unfolding register_step
  register_step-Live none rs w = Live-same w
  register_step-Live (some register) rs w =
      elim (Option-cases (register w.op (primary_weights_path w.op.artifacts rs))) [
        | inl p ↦ rw (register_step, p) (Live-same w)
        | inr (message, p) ↦ rw (register_step, p) (Live-error w _ _)
      ]
