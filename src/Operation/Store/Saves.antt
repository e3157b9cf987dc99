-- ===== src/Operation/Store/Saves.antt =====
-- `Save` and `Load` of internal/operation/store.go: concurrent writers of one record.
use llama_skein.Base.{
  ◌≡◌, ◌≢◌, refl, ◌⊎◌, inl, inr, String, Bool, true, false, Option, none, some, List, [], ◌∷◌, ◌++◌,
  arith, Bool-cases, ◌↔◌, ap, ◌∙◌,
}
use llama_skein.Base.Maps.{insert, lookup-insert, string_eq, eq_cases, ◌=?◌, =?_self, =?_false}
use llama_skein.Operation.{Phase, terminal, Operation}
use llama_skein.Operation.Store.{
  Loaded, not_found, unreadable, Store, found, load, save, same_phase, finalized, SaveError,
  already_terminal, write_failed,
}

same_phase_iff : (p q : Phase) → (same_phase p q ≡ true) ↔ (p ≡ q)
same_phase_iff p q = ground arith

pub load-insert :
    (s : Store) (id : String) (o : Operation)
    → load (record s { files = insert o.id (some o) s.files }) id
      ≡ (elim (o.id =? id) [ true ↦ found o | false ↦ load s id ])
unfolding load
load-insert s id o = ground (arith, lookup-insert o.id id (some o) s.files)

pub save_cases :
    (writable : Bool) (o : Operation) (s : Store)
    → ((save writable o s).0 ≡ s) × ((e : SaveError) × ((save writable o s).1 ≡ some e))
      ⊎ (save writable o s ≡ (record s { files = insert o.id (some o) s.files }, none))
        × (finalized (load s o.id) o ≡ false)
unfolding save
save_cases writable o s = elim (Bool-cases (finalized (load s o.id) o)) [
  | inl y ↦ inl (rw y (refl, (already_terminal, refl)))
  | inr n ↦ elim (Bool-cases writable) [
    | inl w ↦ inr (rw (n, w) (refl, refl))
    | inr w ↦ inl (rw (n, w) (refl, (write_failed, refl)))
  ]
]

-- A save that answers no error is read back as it was given, and every other record is as before.
pub load-save :
    (writable : Bool) (o : Operation) (s : Store) (id : String)
    → (save writable o s).1 ≡ none
    → o.id ≢ id
    → (load (save writable o s).0 o.id ≡ found o) × (load (save writable o s).0 id ≡ load s id)
unfolding save
load-save writable o s id h n = elim (save_cases writable o s) [
  | inl p ↦ cc
  | inr (p, _) ↦
      rw (ap (λ (r : Store × Option SaveError). r.0) p)
        (simp (load-insert, =?_self), simp (load-insert, =?_false o.id id n))
]

-- A save that answers an error leaves the store as it was.
pub save_refused :
    (writable : Bool) (o : Operation) (s : Store) {e : SaveError}
    → (save writable o s).1 ≡ some e
    → (save writable o s).0 ≡ s
unfolding save
save_refused writable o s h = ground arith

-- Writers that save in any order, some of them unable to write.
unfoldable pub saves : List (Bool × Operation) → Store → Store
saves [] s = s
saves ((writable, o) ∷ l) s = saves l (save writable o s).0

not_finalized :
    (o e : Operation) → finalized (found e) o ≡ false → terminal e.phase ≡ true → o.phase ≡ e.phase
not_finalized o e f t = ground arith

pub save-terminal :
    (writable : Bool) (o : Operation) (s : Store) (id : String) (e : Operation)
    → load s id ≡ found e
    → terminal e.phase ≡ true
    → (e' : Operation) × (load (save writable o s).0 id ≡ found e') × (e'.phase ≡ e.phase)
save-terminal writable o s id e h t = elim (save_cases writable o s) [
  | inl (p, _) ↦ rw p (e, h, refl)
  | inr (p, f) ↦ rw (ap (λ (r : Store × Option SaveError). r.0) p) (elim (eq_cases o.id id) [
    | inl (q, b) ↦ (o, rw (load-insert s id o, b), not_finalized o e (rw (q, h) at f) t)
    | inr (_, b) ↦ (e, rw (load-insert s id o, b) h, refl)
  ])
]

-- Whatever is saved later, in whatever order, a record that has reached a terminal phase keeps
-- that phase.
pub saves-terminal :
    (l : List (Bool × Operation)) (s : Store) (id : String) (e : Operation)
    → load s id ≡ found e
    → terminal e.phase ≡ true
    → (e' : Operation) × (load (saves l s) id ≡ found e') × (e'.phase ≡ e.phase)
unfolding saves
saves-terminal [] s id e h t = (e, h, refl)
saves-terminal ((writable, o) ∷ l) s id e h t =
    let (e', h', p) = save-terminal writable o s id e h t in
    let (e'', h'', p') = saves-terminal l (save writable o s).0 id e' h' (rw p t) in
    (e'', h'', p' ∙ p)

pub saves-append :
    (l m : List (Bool × Operation)) (s : Store) → saves (l ++ m) s ≡ saves m (saves l s)
unfolding saves
saves-append [] m s = refl
saves-append ((b, o) ∷ l) m s = saves-append l m (save b o s).0

-- The record of an identifier has ended.
abbrev pub Ended : Store → String → Type 0
Ended s id = (e : Operation) × (load s id ≡ found e) × (terminal e.phase ≡ true)

finalized_ended :
    (l : Loaded) (o : Operation)
    → finalized l o ≡ true
    → (e : Operation) × (l ≡ found e) × (terminal e.phase ≡ true)
finalized_ended (found e) o h = (e, refl, ground arith)
finalized_ended not_found o h = cc
finalized_ended unreadable o h = cc

not_already :
    (writable : Bool) (o : Operation) (s : Store)
    → finalized (load s o.id) o ≡ false
    → (save writable o s).1 ≢ some already_terminal
unfolding save
not_already writable o s n h = ground arith

finalized-Ended : (s : Store) (o : Operation) → finalized (load s o.id) o ≡ true → Ended s o.id
finalized-Ended s o h = finalized_ended (load s o.id) o h

-- Where `Save` answers `ErrAlreadyTerminal` the stored record has ended, and stays.
pub save_refused-Ended :
    (writable : Bool) (o : Operation) (s : Store)
    → (save writable o s).1 ≡ some already_terminal
    → Ended (save writable o s).0 o.id
unfolding save
save_refused-Ended writable o s h = elim (Bool-cases (finalized (load s o.id) o)) [
  | inl y ↦ rw y (finalized-Ended s o y)
  | inr n ↦ absurd (not_already writable o s n h)
]

-- After a save of a terminal record that can be written, the stored record has ended.
pub save-Ended :
    (o : Operation) (s : Store) → terminal o.phase ≡ true → Ended (save true o s).0 o.id
unfolding save
save-Ended o s t = elim (Bool-cases (finalized (load s o.id) o)) [
  | inl y ↦ rw y (finalized-Ended s o y)
  | inr n ↦ rw n (o, rw (load-insert s o.id o, =?_self o.id), t)
]
