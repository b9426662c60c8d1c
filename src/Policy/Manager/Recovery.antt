-- ===== src/Policy/Manager/Recovery.antt =====
-- Proofs on internal/policy/manager.go: a start over the directory that an earlier manager left.
use normgate.Prelude.{
  ◌≡◌, refl, sym, ap, subst, ◌∙◌, Option, none, some, arith, true, [], ◌⊎◌, inl, inr, Option-cases,
  Bool-cases, if◌then◌else◌,
}
use normgate.Text.{Text, text_eq, text_eq→eq}
use normgate.Policy.{Error, Try, ok, Try-cases}
use normgate.Policy.Manager.{in_background, Status, Engine, stored, World, Manager, artifact_path}
use normgate.Policy.Manager.Activation.{validate, persist}
use normgate.Policy.Manager.Startup.{
  recover_from, recover_previous, or_previous, recover, fallback, recover_state, start_from,
  no_status, new_manager,
}
use normgate.Policy.Manager.Failure.{validate_frame}
use normgate.Policy.Manager.Durable.{IsArchiveOf, Holds, validate-compile}

module _ (E : Engine) where
  -- The disk is as it was.
  abbrev SameDisk : Manager E → Manager E → Type 0
  SameDisk m' m = (m'.active ≡ m.active) × (m'.artifact ≡ m.artifact) × (m'.state ≡ m.state)

  -- What a recovery of a status gives: the status, or its fallback, with the archive on disk.
  Recovers : Manager E → Status → Status → Type 0
  Recovers m s t = ((t ≡ s) ⊎ (t ≡ fallback s s.previous)) × Holds E m t.revision

  -- What a start leaves: a status of the directory, made ready and saved, with its archive.
  pub record IsStarted (old : Manager E) (s : Status) (m : Manager E) : Type 0 where
    pub chosen :
        (m.active ≡ record s { ready = true })
        ⊎ (m.active ≡ record (fallback s s.previous) { ready = true })
    pub saved : m.state ≡ some (stored m.active)
    pub held : Holds E old m.active.revision
    pub kept : m.artifact ≡ old.artifact

module _ (E : Engine) (w : World)
    (honest : (a : Text) (b : E.Bundle) (s : E.State) (r : Text)
      → E.read_archive a ≡ ok b
      → (E.compile s b).0 ≡ ok r
      → E.inspect_revision b ≡ ok r) where
  recover_from_frame :
      (r : Text) (o : Option Text) (m : Manager E) → SameDisk E (recover_from E w r o m).1 m
  unfolding recover_from
  recover_from_frame r none m = (refl, refl, refl)
  recover_from_frame r (some raw) m = elim (Try-cases (E.read_archive raw)) [
    | inl (b, f) ↦ ground (arith, validate_frame E (in_background w) b m)
    | inr f ↦ ground arith
  ]

  recover_frame : (r : Text) (m : Manager E) → SameDisk E (recover E w r m).1 m
  unfolding recover
  recover_frame r m =
      recover_from_frame r
        (if w.artifact_unreadable (artifact_path r) then none else m.artifact (artifact_path r)) m

  -- A recovered revision is the one asked for, and its archive is on disk.
  recover_from-IsArchiveOf :
      (r x raw : Text) (m : Manager E)
      → (recover_from E w r (some raw) m).0 ≡ ok x
      → (x ≡ r) × IsArchiveOf E raw r
  unfolding recover_from
  recover_from-IsArchiveOf r x raw m h = elim (Try-cases (E.read_archive raw)) [
    | inr f ↦ absurd (ground arith)
    | inl (b, f) ↦ elim (Try-cases (validate E (in_background w) b m).0) [
      | inr g ↦ absurd (ground arith)
      | inl (y, g) ↦
          let same : (y ≡ r) × (x ≡ y) = ground (arith, text_eq→eq y r) in
          (
            same.1 ∙ same.0,
            record {
              bundle = b;
              reads = f;
              inspects =
                  subst (λ z. E.inspect_revision b ≡ ok z) same.0
                    (honest raw b m.engine y f (validate-compile E (in_background w) b m g));
            },
          )
    ]
  ]

  recover-Holds : (r x : Text) (m : Manager E) → (recover E w r m).0 ≡ ok x → (x ≡ r) × Holds E m r
  unfolding recover
  recover-Holds r x m h =
      elim (Option-cases
        (if w.artifact_unreadable (artifact_path r) then none else m.artifact (artifact_path r))) [
          | inl e ↦ absurd (unfold recover_from in ground arith)
          | inr (raw, e) ↦
              let (p, g) =
                recover_from-IsArchiveOf r x raw m
                  (subst (λ o. (recover_from E w r o m).0 ≡ ok x) e h) in
              (p, record { archive = raw; found = ground arith; genuine = g })
        ]

  SameDisk-Holds : {m m' : Manager E} {r : Text} → SameDisk E m' m → Holds E m' r → Holds E m r
  SameDisk-Holds {r = r} d h = record {
    archive = h.archive;
    found = sym (ap (λ (f : Text → Option Text). f (artifact_path r)) d.1) ∙ h.found;
    genuine = h.genuine;
  }

  recover_previous-Recovers :
      (s t : Status) (e : Error) (m : Manager E)
      → (recover_previous E w s e m).0 ≡ ok t
      → Recovers E m s t × SameDisk E (recover_previous E w s e m).1 m
  unfolding recover_previous Recovers
  recover_previous-Recovers s t e m h = elim (Bool-cases (text_eq s.previous [])) [
    | inl p ↦ absurd (ground arith)
    | inr p ↦ elim (Try-cases (recover E w s.previous m).0) [
      | inr f ↦ absurd (ground arith)
      | inl (x, f) ↦
          let (q, g) = recover-Holds s.previous x m f in
          let u : t ≡ fallback s s.previous = ground arith in
          (
            (inr u, subst (λ (v : Status). Holds E m v.revision) (sym u) g),
            ground (arith, recover_frame s.previous m),
          )
    ]
  ]

  recover_state-Recovers :
      (s t : Status) (m : Manager E)
      → (recover_state E w s m).0 ≡ ok t
      → Recovers E m s t × SameDisk E (recover_state E w s m).1 m
  unfolding recover_state or_previous Recovers
  recover_state-Recovers s t m h = elim (Try-cases (recover E w s.revision m).0) [
    | inl (x, e) ↦
        let u : t ≡ s = ground arith in
        (
          (
            inl u,
            subst (λ (v : Status). Holds E m v.revision) (sym u) (recover-Holds s.revision x m e).1,
          ),
          ground (arith, recover_frame s.revision m),
        )
    | inr (inr e) ↦ absurd (ground arith)
    | inr (inl (d, e)) ↦
        let m' = (recover E w s.revision m).1 in
        let f = recover_frame s.revision m in
        let (r, g) = recover_previous-Recovers s t d m' (ground arith) in
        ((r.0, SameDisk-Holds f r.1), ground (arith, g, f))
  ]

  start_from-IsStarted :
      (s : Status) (m : Manager E)
      → (start_from E w s m).0 ≡ ok tt
      → IsStarted E m s (start_from E w s m).1
  unfolding start_from persist Recovers
  start_from-IsStarted s m h = elim (Try-cases (recover_state E w s m).0) [
    | inr e ↦ absurd (ground arith)
    | inl (t, e) ↦
        let (r, d) = recover_state-Recovers s t m e in
        let a : (start_from E w s m).1.active ≡ record t { ready = true } = ground arith in
        record {
          chosen = elim r.0 [
            | inl u ↦ inl (a ∙ ap (λ (v : Status). record v { ready = true }) u)
            | inr u ↦ inr (a ∙ ap (λ (v : Status). record v { ready = true }) u)
          ];
          saved = ground arith;
          held = subst (λ (v : Status). Holds E m v.revision) (sym a) r.1;
          kept = ground (arith, d);
        }
  ]

  -- A start from a saved status that succeeds activates the saved revision, or else the previous
  -- one without its ETag and with the error `recovered_previous`; the active status is ready and
  -- saved, the archive of its revision was on disk, and no archive has changed, where Inspect finds
  -- in a bundle that ReadArchive accepts the revision that Compile gives it.
  pub new_manager-IsStarted :
      (dir : Text) (engine : E.State) (s : Status) (old : Manager E)
      → old.state ≡ some (stored s)
      → (new_manager E w dir (some engine) old).0 ≡ ok tt
      → IsStarted E
          (record old { engine = engine; active = no_status })
          s
          (new_manager E w dir (some engine) old).1
  unfolding new_manager
  new_manager-IsStarted dir engine s old e h =
      let m = record old { engine = engine; active = no_status } in
      let run : new_manager E w dir (some engine) old ≡ start_from E w s m = ground arith in
      subst (λ (x : Try (Unit {0}) × Manager E). IsStarted E m s x.1) (sym run)
        (start_from-IsStarted s m (sym (ap (λ (x : Try (Unit {0}) × Manager E). x.0) run) ∙ h))
