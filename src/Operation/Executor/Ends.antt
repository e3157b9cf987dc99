-- ===== src/Operation/Executor/Ends.antt =====
-- internal/operation/executor.go: how `Run` leaves the stored record, whatever the host answers.
use llama_skein.Base.{
  ℕ, ◌≡◌, ◌≢◌, refl, sym, ap, subst, String, Bool, true, false, Option, none, some, [], arith,
  if◌then◌else◌,
}
use llama_skein.Base.Text.{codes, text_eq}
use llama_skein.Base.Maps.{string_eq}
use llama_skein.Operation.{
  terminal, failed, succeeded, Operation, ErrorCode, Outcome, ok, invalid_transition, transition_to,
  fail, can_transition, preflighting, resolving, downloading, verifying, installing, registering,
  reloading,
}
use llama_skein.Operation.Store.{load, found, SaveError, already_terminal, write_failed}
use llama_skein.Operation.Store.Saves.{saves, saves-terminal, Ended, save-Ended}
use llama_skein.Operation.Executor.{
  Host, Settings, World, Stop, externally_cancelled, error, Step, ◌then◌, reach, stop_if_cancelled,
  save_op, stop_of_save, entered, unless_cancelled, advance, recorded, terminate, finish, preflight,
}
use llama_skein.Operation.Executor.Transfer.{
  Resolution, resolved, untrusted, download, resolve_artifacts,
}
use llama_skein.Operation.Executor.Content.{verify, install}
use llama_skein.Operation.Executor.Run.{register_step, run_resolved, run_steps, finished, run}
use llama_skein.Operation.Executor.Trace.{
  plan_of, Moves, Moves-refl, Moves-trans, Live, then-Live, Live-error, Live-stopped,
  stop_if_cancelled-Live, stop_if_cancelled-Ended, preflight-Live, advance-Live, save_op-Moves,
  transition_to-keeps, none_no_stop,
}
use llama_skein.Operation.Executor.Steps.{
  some_stop, ext_no_error, download-Live, verify-Live, install-Live, register_step-Live,
}

-- A step that, unless it answers an error of its own, leaves an ended record in the store.
record Closing (host : Host) (w : World) (r : Step) : Type 0 where
  moves : Moves w r.0
  running :
      (code : ErrorCode) (message : String)
      → r.1 ≡ some (error code message)
      → terminal w.op.phase ≡ false
      → terminal r.0.op.phase ≡ false
  ended :
      ((n : ℕ) → host.writable n ≡ true)
      → ((code : ErrorCode) (message : String) → r.1 ≢ some (error code message))
      → Ended r.0.store r.0.op.id

then-Closing :
    (host : Host) (w : World) (m : Step) (k : World → Step)
    → Live w m
    → ((v : World) → Closing host v (k v))
    → Closing host w (m then k)
then-Closing host w (v, some externally_cancelled) k h hk = record {
  moves = h.moves;
  running = λ _ _ q. absurd (ext_no_error q);
  ended = λ _ _. h.ended refl;
}
then-Closing host w (v, some (error c m)) k h hk = record {
  moves = h.moves;
  running = λ _ _ _ t. h.running (λ q. ext_no_error (sym q)) t;
  ended = λ _ n. absurd (n c m refl);
}
then-Closing host w (v, none) k h hk = record {
  moves = Moves-trans w v (k v).0 h.moves (hk v).moves;
  running = λ c m e t. (hk v).running c m e (h.running none_no_stop t);
  ended = (hk v).ended;
}

Live-Closing :
    (host : Host) (w : World) (r : Step)
    → Live w r
    → (r.1 ≡ none → Ended r.0.store r.0.op.id)
    → Closing host w r
Live-Closing host w (v, none) h e = record {
  moves = h.moves;
  running = λ _ _ q. absurd (none_no_stop q);
  ended = λ _ _. e refl;
}
Live-Closing host w (v, some externally_cancelled) h e = record {
  moves = h.moves;
  running = λ _ _ q. absurd (ext_no_error q);
  ended = λ _ _. h.ended refl;
}
Live-Closing host w (v, some (error c m)) h e = record {
  moves = h.moves;
  running = λ _ _ _ t. h.running (λ q. ext_no_error (sym q)) t;
  ended = λ _ n. absurd (n c m refl);
}

module _ (host : Host) where
  save_op-Ended :
      (w : World)
      → ((n : ℕ) → host.writable n ≡ true)
      → terminal w.op.phase ≡ true
      → Ended (save_op host w).0.store w.op.id
  unfolding save_op
  save_op-Ended w writes t = rw (writes w.tick) (save-Ended w.op (reach host w).store t)

  stop_of_save-error :
      (e : Option SaveError) (c : ErrorCode) (m : String) → stop_of_save e ≢ some (error c m)
  stop_of_save-error none c m q = cc
  stop_of_save-error (some already_terminal) c m q = cc
  stop_of_save-error (some write_failed) c m q = cc

  entered-Closing :
      (w : World) (c : Outcome)
      → ((o : Operation) → c ≡ ok o → (plan_of o ≡ plan_of w.op) × (terminal o.phase ≡ true))
      → Closing host w (entered host w c)
  unfolding entered saves
  entered-Closing w invalid_transition h =
      Live-Closing host w _ (Live-error w _ _) (λ q. absurd (some_stop q))
  entered-Closing w (ok o) h =
      let v = record w { op = o } in
      let moved : Moves w v = record { writes = []; store_eq = refl; plan_eq = (h o refl).0 } in
      record {
        moves = Moves-trans w v (save_op host v).0 moved (save_op-Moves host v);
        running = λ c m q. absurd (stop_of_save-error (save_op host v).1 c m q);
        ended = λ writes _. save_op-Ended v writes (h o refl).1;
      }

  unless_cancelled-Closing :
      (w : World) (c : World × Bool)
      → Live w (c.0, none)
      → (c.1 ≡ true → Ended c.0.store c.0.op.id)
      → Closing host w (unless_cancelled host succeeded c)
  unfolding terminal
  unless_cancelled-Closing w (v, true) h e =
      Live-Closing host w _ (Live-stopped w v h (e refl)) (λ q. absurd (some_stop q))
  unless_cancelled-Closing w (v, false) h e =
      then-Closing host w (v, none)
        (λ u. entered host u (transition_to succeeded (host.clock u.tick) u.op)) h
        (λ u. entered-Closing u (transition_to succeeded (host.clock u.tick) u.op) (λ o q.
          let (i, p) = transition_to-keeps host succeeded (host.clock u.tick) u.op o q in
          (i, ap terminal p)))

  advance-Closing : (w : World) → Closing host w (advance host succeeded w)
  unfolding advance
  advance-Closing w =
      unless_cancelled-Closing w (stop_if_cancelled host w) (stop_if_cancelled-Live host w)
        (stop_if_cancelled-Ended host w)

  run_resolved-Closing :
      (settings : Settings) (l : Resolution) (w : World)
      → Closing host w (run_resolved host settings l w)
  unfolding run_resolved terminal
  run_resolved-Closing settings untrusted w =
      Live-Closing host w _ (Live-error w _ _) (λ q. absurd (some_stop q))
  run_resolved-Closing settings (resolved rs) w =
      then-Closing host w _ (advance host succeeded)
        (then-Live w _ (advance host reloading)
          (then-Live w _ (register_step host host.register rs)
            (then-Live w _ (advance host registering)
              (then-Live w _ (install host rs)
                (then-Live w _ (advance host installing)
                  (then-Live w _ (λ v. verify host v.op.artifacts rs v)
                    (then-Live w _ (advance host verifying)
                      (then-Live w (advance host downloading w)
                        (λ v. download host settings 0 v.op.artifacts rs v)
                        (advance-Live host downloading w refl)
                        (λ v. download-Live host settings 0 v.op.artifacts rs v))
                      (λ v. advance-Live host verifying v refl))
                    (λ v. verify-Live host v.op.artifacts rs v))
                  (λ v. advance-Live host installing v refl))
                (install-Live host rs))
              (λ v. advance-Live host registering v refl))
            (register_step-Live host host.register rs))
          (λ v. advance-Live host reloading v refl))
        advance-Closing

  run_steps-Closing : (settings : Settings) (w : World) → Closing host w (run_steps host settings w)
  unfolding run_steps terminal
  run_steps-Closing settings w =
      then-Closing host w _
        (λ v.
          run_resolved host settings
            (resolve_artifacts host.abs_models_dir (codes v.op.source_repository)
              (codes v.op.source_revision) v.op.artifacts)
            v)
        (then-Live w _ (advance host resolving)
          (then-Live w (advance host preflighting w) (preflight host settings)
            (advance-Live host preflighting w refl) (preflight-Live host settings))
          (λ v. advance-Live host resolving v refl))
        (λ v. run_resolved-Closing settings _ v)

  fail_running :
      (code : ErrorCode) (message : String) (now : ℕ) (o : Operation)
      → terminal o.phase ≡ false
      → fail code message now o
        ≡ ok (record o {
          phase = failed;
          updated_at = now;
          error = some (record { code = code; message = message });
        })
  unfolding fail transition_to can_transition terminal
  fail_running code message now o t = rw (fail, transition_to, can_transition, t)

  fail-plan_of :
      (code : ErrorCode) (message : String) (now : ℕ) (o o' : Operation)
      → fail code message now o ≡ ok o'
      → plan_of o' ≡ plan_of o
  unfolding fail transition_to
  fail-plan_of code message now o o' h = ground arith

  recorded-Moves :
      (w : World) (c : Outcome)
      → ((o : Operation) → c ≡ ok o → plan_of o ≡ plan_of w.op)
      → Moves w (recorded host w c)
  unfolding recorded saves
  recorded-Moves w invalid_transition h = Moves-refl w
  recorded-Moves w (ok o) h =
      let v = record w { op = o } in
      let moved : Moves w v = record { writes = []; store_eq = refl; plan_eq = h o refl } in
      Moves-trans w v (save_op host v).0 moved (save_op-Moves host v)

  finish-Moves : (stop : Stop) (w : World) → Moves w (finish host stop w)
  unfolding finish terminate
  finish-Moves externally_cancelled w = Moves-refl w
  finish-Moves (error code message) w =
      recorded-Moves w (fail code message (host.clock w.tick) w.op)
        (fail-plan_of code message (host.clock w.tick) w.op)

  terminate-Ended :
      (code : ErrorCode) (message : String) (w : World)
      → ((n : ℕ) → host.writable n ≡ true)
      → terminal w.op.phase ≡ false
      → Ended (terminate host code message w).store (terminate host code message w).op.id
  unfolding terminate recorded terminal
  terminate-Ended code message w writes t =
      rw (terminate, fail_running code message (host.clock w.tick) w.op t)
        (save_op-Ended
          (record w {
            op = record w.op {
              phase = failed;
              updated_at = host.clock w.tick;
              error = some (record { code = code; message = message });
            };
          })
          writes refl)

  finished-Moves : (w : World) (r : Step) → Moves w r.0 → Moves w (finished host r)
  finished-Moves w (v, none) h = h
  finished-Moves w (v, some stop) h = Moves-trans w v (finish host stop v) h (finish-Moves stop v)

  finished-Ended :
      (w : World) (r : Step)
      → Closing host w r
      → ((n : ℕ) → host.writable n ≡ true)
      → terminal w.op.phase ≡ false
      → Ended (finished host r).store (finished host r).op.id
  unfolding finish
  finished-Ended w (v, none) h writes t = h.ended writes (λ _ _ q. none_no_stop q)
  finished-Ended w (v, some externally_cancelled) h writes t =
      h.ended writes (λ _ _ q. ext_no_error q)
  finished-Ended w (v, some (error c m)) h writes t =
      terminate-Ended c m v writes (h.running c m refl t)

  pub run-Moves : (settings : Settings) (w : World) → Moves w (run host settings w)
  unfolding run
  run-Moves settings w =
      finished-Moves w (run_steps host settings w) (run_steps-Closing settings w).moves

-- Whatever the network, the file system, the registrar and the other writers do: where the writes
-- of records succeed, a `Run` of a running operation leaves a terminal record of it in the store.
pub run-Ended :
    (host : Host) (settings : Settings) (w : World)
    → ((n : ℕ) → host.writable n ≡ true)
    → terminal w.op.phase ≡ false
    → (o : Operation) × (load (run host settings w).store w.op.id ≡ found o)
      × (terminal o.phase ≡ true)
unfolding run
run-Ended host settings w writes t =
    subst (λ id. Ended (run host settings w).store id)
      (ap (λ p. p.0) (run-Moves host settings w).plan_eq)
      (finished-Ended host w (run_steps host settings w) (run_steps-Closing host settings w) writes
        t)

-- A record that has ended, of this operation or of another, keeps its phase through a `Run` and
-- through whatever other writers save meanwhile: a cancellation is never overwritten.
pub run-keeps_ended :
    (host : Host) (settings : Settings) (w : World) (id : String) (e : Operation)
    → load w.store id ≡ found e
    → terminal e.phase ≡ true
    → (o : Operation) × (load (run host settings w).store id ≡ found o) × (o.phase ≡ e.phase)
run-keeps_ended host settings w id e h t =
    let m = run-Moves host settings w in
    subst (λ s. (o : Operation) × (load s id ≡ found o) × (o.phase ≡ e.phase)) (sym m.store_eq)
      (saves-terminal m.writes w.store id e h t)
