-- ===== src/Operation/Executor/Trace.antt =====
-- internal/operation/executor.go: what every step of `Run` does to the store and to the identifier
-- of its own record, whatever the host answers.
use llama_skein.Base.{
  ℕ, zero, suc, ◌≡◌, ◌≢◌, refl, sym, ap, ◌∙◌, String, Bool, true, false, Option, none, some, List,
  [], ◌∷◌, ◌++◌, arith, if◌then◌else◌, map,
}
use llama_skein.Base.Text.{text_eq}
use llama_skein.Base.Maps.{string_eq}
use llama_skein.Operation.{
  Phase, terminal, Operation, ArtifactProgress, ErrorCode, Outcome, ok, invalid_transition,
  transition_to,
}
use llama_skein.Operation.Store.{
  Loaded, load, found, not_found, unreadable, SaveError, already_terminal, write_failed,
}
use llama_skein.Operation.Store.Saves.{saves, saves-append, Ended, save_refused-Ended}
use llama_skein.Operation.Executor.{
  Host, Settings, World, Stop, externally_cancelled, error, Step, ◌then◌, reach, stop_if_cancelled,
  cancelled_record, save_op, stop_of_save, saved_step, set_downloaded, entered, unless_cancelled,
  advance, preflight, is_empty, check_disk_preflight, remaining_bytes, save_progress,
}

-- An artifact without its progress, and the part of a record that a `Run` keeps.
abbrev pub blank : ArtifactProgress → ArtifactProgress
blank a = record a { bytes_downloaded = 0 }

abbrev pub plan_of : Operation → String × String × String × List ArtifactProgress
plan_of o = (o.id, o.source_repository, o.source_revision, map blank o.artifacts)

blank-set_downloaded :
    (index written : ℕ) (l : List ArtifactProgress)
    → map blank (set_downloaded index written l) ≡ map blank l
unfolding set_downloaded
blank-set_downloaded index written [] = refl
blank-set_downloaded zero written (a ∷ l) = refl
blank-set_downloaded (suc index) written (a ∷ l) =
    ap (◌∷◌ (blank a)) (blank-set_downloaded index written l)

-- The store is reached by saves alone, and the own record keeps its identifier.
pub record Moves (w v : World) : Type 0 where
  pub writes : List (Bool × Operation)
  pub store_eq : v.store ≡ saves writes w.store
  pub plan_eq : plan_of v.op ≡ plan_of w.op

pub Moves-refl : (w : World) → Moves w w
unfolding saves
Moves-refl w = record { writes = []; store_eq = refl; plan_eq = refl }

pub Moves-trans : (u v w : World) → Moves u v → Moves v w → Moves u w
Moves-trans u v w h k = record {
  writes = h.writes ++ k.writes;
  store_eq =
      k.store_eq ∙ ap (saves k.writes) h.store_eq ∙ sym (saves-append h.writes k.writes u.store);
  plan_eq = k.plan_eq ∙ h.plan_eq;
}

-- A step that leaves a running operation running, unless it stops for a record that another
-- writer has ended.
pub record Live (w : World) (r : Step) : Type 0 where
  pub moves : Moves w r.0
  pub running :
      r.1 ≢ some externally_cancelled → terminal w.op.phase ≡ false → terminal r.0.op.phase ≡ false
  pub ended : r.1 ≡ some externally_cancelled → Ended r.0.store r.0.op.id

pub none_no_stop : {s : Stop} → ◌≡◌ {A = Option Stop} none (some s) → ⊥
none_no_stop e = cc

-- Changes of the files, and of the own record but for its identifier and phase.
pub Live-local :
    (w v : World) (e : Option Stop)
    → v.store ≡ w.store
    → plan_of v.op ≡ plan_of w.op
    → v.op.phase ≡ w.op.phase
    → e ≢ some externally_cancelled
    → Live w (v, e)
unfolding saves
Live-local w v e s i p n = record {
  moves = record { writes = []; store_eq = s; plan_eq = i };
  running = λ _ h. rw p h;
  ended = λ h. absurd (n h);
}

pub then-Live :
    (w : World) (m : Step) (k : World → Step)
    → Live w m
    → ((v : World) → Live v (k v))
    → Live w (m then k)
then-Live w (v, some stop) k h hk = h
then-Live w (v, none) k h hk = record {
  moves = Moves-trans w v (k v).0 h.moves (hk v).moves;
  running = λ n t. (hk v).running n (h.running (λ e. cc) t);
  ended = λ e. (hk v).ended e;
}

pub Live-move :
    (w v : World)
    → v.store ≡ w.store
    → plan_of v.op ≡ plan_of w.op
    → terminal v.op.phase ≡ false
    → Live w (v, none)
unfolding saves
Live-move w v s i t = record {
  moves = record { writes = []; store_eq = s; plan_eq = i };
  running = λ _ _. t;
  ended = λ e. absurd (none_no_stop e);
}

pub Live-error :
    (w : World) (code : ErrorCode) (message : String) → Live w (w, some (error code message))
Live-error w code message = Live-local w w (some (error code message)) refl refl refl (λ e. cc)

pub Live-same : (w : World) → Live w (w, none)
Live-same w = Live-local w w none refl refl refl (λ e. cc)

pub if-Live :
    (w : World) (b : Bool) (x y : Step) → Live w x → Live w y → Live w (if b then x else y)
if-Live w true x y hx hy = hx
if-Live w false x y hx hy = hy

-- A step that another writer's end of the operation stops.
pub Live-stopped :
    (w v : World) → Live w (v, none) → Ended v.store v.op.id → Live w (v, some externally_cancelled)
Live-stopped w v h e = record { moves = h.moves; running = λ n. absurd (n refl); ended = λ _. e }

module _ (host : Host) where
  reach-Moves : (w : World) → Moves w (reach host w)
  reach-Moves w = record { writes = host.others w.tick; store_eq = refl; plan_eq = refl }

  pub save_op-Moves : (w : World) → Moves w (save_op host w).0
  unfolding save_op saves
  save_op-Moves w = record {
    writes = host.others w.tick ++ (host.writable w.tick, w.op) ∷ [];
    store_eq = sym (saves-append (host.others w.tick) ((host.writable w.tick, w.op) ∷ []) w.store);
    plan_eq = refl;
  }

  cancelled_record-ended :
      (l : Loaded)
      → cancelled_record l ≡ true
      → (o : Operation) × (l ≡ found o) × (terminal o.phase ≡ true)
  unfolding terminal
  cancelled_record-ended (found o) h = (o, refl, ground arith)
  cancelled_record-ended not_found h = cc
  cancelled_record-ended unreadable h = cc

  pub stop_if_cancelled-Ended :
      (w : World)
      → (stop_if_cancelled host w).1 ≡ true
      → Ended (stop_if_cancelled host w).0.store (stop_if_cancelled host w).0.op.id
  unfolding stop_if_cancelled
  stop_if_cancelled-Ended w h =
      cancelled_record-ended (load (reach host w).store w.op.id) (ground arith)

  pub stop_if_cancelled-Moves : (w : World) → Moves w (stop_if_cancelled host w).0
  unfolding stop_if_cancelled
  stop_if_cancelled-Moves w = reach-Moves w

  -- Where `Save` answers `ErrAlreadyTerminal`, the stored record has ended.
  pub save_op_refused :
      (w : World)
      → (save_op host w).1 ≡ some already_terminal
      → Ended (save_op host w).0.store w.op.id
  unfolding save_op
  save_op_refused w h = save_refused-Ended (host.writable w.tick) w.op (reach host w).store h

  stop_of_save_ext :
      (e : Option SaveError)
      → stop_of_save e ≡ some externally_cancelled
      → e ≡ some already_terminal
  stop_of_save_ext none h = cc
  stop_of_save_ext (some already_terminal) h = refl
  stop_of_save_ext (some write_failed) h = cc

  pub saved_step-Live : (w : World) → Live w (saved_step (save_op host w))
  unfolding save_op
  saved_step-Live w = record {
    moves = save_op-Moves w;
    running = λ _ t. t;
    ended = λ h. save_op_refused w (stop_of_save_ext (save_op host w).1 h);
  }

  pub save_progress-Live :
      (index written : ℕ) (w : World) → Live w (save_progress host index written w)
  unfolding save_progress
  save_progress-Live index written w =
      let v = record w {
        op = record w.op {
          artifacts = set_downloaded index written w.op.artifacts;
          updated_at = host.clock w.tick;
        };
      } in
      then-Live w (v, none) (λ u. saved_step (save_op host u))
        (Live-local w v none refl
          (ap (λ l. (w.op.id, w.op.source_repository, w.op.source_revision, l))
            (blank-set_downloaded index written w.op.artifacts))
          refl (λ e. cc))
        saved_step-Live

  pub preflight-Live : (settings : Settings) (w : World) → Live w (preflight host settings w)
  unfolding preflight
  preflight-Live settings w = if-Live w (is_empty settings.models_dir) _ _ (Live-error w _ _) (
      if-Live w
        (check_disk_preflight host.available_bytes (remaining_bytes w.op.artifacts 0)
          settings.safety_reserve_bytes)
        _ _ (Live-same w) (Live-error w _ _))

  entered-Live :
      (w : World) (c : Outcome)
      → ((o : Operation) → c ≡ ok o → (plan_of o ≡ plan_of w.op) × (terminal o.phase ≡ false))
      → Live w (entered host w c)
  unfolding entered
  entered-Live w invalid_transition h = Live-error w _ _
  entered-Live w (ok o) h =
      let v = record w { op = o } in
      then-Live w (v, none) (λ u. saved_step (save_op host u))
        (Live-move w v refl (h o refl).0 (h o refl).1) saved_step-Live

  pub transition_to-keeps :
      (phase : Phase) (now : ℕ) (o o' : Operation)
      → transition_to phase now o ≡ ok o'
      → (plan_of o' ≡ plan_of o) × (o'.phase ≡ phase)
  unfolding transition_to
  transition_to-keeps phase now o o' h = ground arith

  reach-Live : (w : World) → Live w (reach host w, none)
  reach-Live w = record {
    moves = reach-Moves w;
    running = λ _ t. t;
    ended = λ e. absurd (none_no_stop e);
  }

  pub stop_if_cancelled-Live : (w : World) → Live w ((stop_if_cancelled host w).0, none)
  unfolding stop_if_cancelled
  stop_if_cancelled-Live w = reach-Live w

  unless_cancelled-Live :
      (phase : Phase) (w : World) (c : World × Bool)
      → terminal phase ≡ false
      → Live w (c.0, none)
      → (c.1 ≡ true → Ended c.0.store c.0.op.id)
      → Live w (unless_cancelled host phase c)
  unless_cancelled-Live phase w (v, true) t h e = Live-stopped w v h (e refl)
  unless_cancelled-Live phase w (v, false) t h e =
      then-Live w (v, none) (λ u. entered host u (transition_to phase (host.clock u.tick) u.op)) h
        (λ u. entered-Live u (transition_to phase (host.clock u.tick) u.op) (λ o q.
          let (i, p) = transition_to-keeps phase (host.clock u.tick) u.op o q in
          (i, ap terminal p ∙ t)))

  -- `advance` to a phase that is not the last.
  pub advance-Live :
      (phase : Phase) (w : World) → terminal phase ≡ false → Live w (advance host phase w)
  unfolding advance
  advance-Live phase w t =
      unless_cancelled-Live phase w (stop_if_cancelled host w) t (stop_if_cancelled-Live w)
        (stop_if_cancelled-Ended w)
