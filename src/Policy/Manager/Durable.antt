-- ===== src/Policy/Manager/Durable.antt =====
-- Proofs on internal/policy/manager.go: the archives on disk through every call and failed write.
use normgate.Prelude.{
  ◌≡◌, ◌≢◌, sym, ap, subst, ◌∙◌, Option, none, some, arith, [], inl, inr, Option-cases, Bool-cases,
  if◌then◌else◌, if-cases, not, ltb, length, ◌||◌,
}
use normgate.Text.{Text, text_eq, text_eq→eq, text_eq_refl}
use normgate.Policy.{Try, ok, err, panic, Try-cases}
use normgate.Policy.Exec.{◌>>◌}
use normgate.Policy.Manager.{
  Status, Engine, StateFile, stored, World, Manager, Source, FetchResult, atomic_write,
  record_error, recording, artifact_path, landed, set_active, is_digest, max_archive,
}
use normgate.Policy.Manager.Activation.{
  validate, persist, write_artifact, check_artifact, store_artifact, install, activate_body,
  activate, successor,
}
use normgate.Policy.Manager.Lifecycle.{
  roll_back_to, rollback, renew, receive, refresh, Call, activates, rolls_back, refreshes, call,
}
use normgate.Policy.Manager.Failure.{validate_frame, check_artifact_frame, store_artifact_frame}

module _ (E : Engine) where
  -- The archive reads as a bundle of the revision.
  pub record IsArchiveOf (archive revision : Text) : Type 0 where
    pub bundle : E.Bundle
    pub reads : E.read_archive archive ≡ ok bundle
    pub inspects : E.inspect_revision bundle ≡ ok revision

  -- The archive of the revision is on disk.
  pub record Holds (m : Manager E) (revision : Text) : Type 0 where
    pub archive : Text
    pub found : m.artifact (artifact_path revision) ≡ some archive
    pub genuine : IsArchiveOf archive revision

  -- No archive is lost or replaced.
  abbrev pub Extends : Manager E → Manager E → Type 0
  Extends m m' = (p a : Text) → m.artifact p ≡ some a → m'.artifact p ≡ some a

  pub Holds-Extends : {m m' : Manager E} {r : Text} → Extends m m' → Holds m r → Holds m' r
  Holds-Extends {r = r} x h = record {
    archive = h.archive;
    found = x (artifact_path r) h.archive h.found;
    genuine = h.genuine;
  }

  -- The revisions that are active or named by state.json have their archives on disk.
  pub record IsDurable (m : Manager E) : Type 0 where
    pub active_held : m.active.revision ≢ [] → Holds m m.active.revision
    pub state_held : (s : Status) → m.state ≡ some (stored s) → Holds m s.revision

  check_artifact-genuine :
      (r a : Text) (m : Manager E) → (check_artifact E r a m).0 ≡ ok tt → IsArchiveOf a r
  unfolding check_artifact
  check_artifact-genuine r a m h = elim (Try-cases (E.read_archive a)) [
    | inr f ↦ absurd (ground arith)
    | inl (b, f) ↦ elim (Try-cases (E.inspect_revision b)) [
      | inr g ↦ absurd (ground arith)
      | inl (x, g) ↦ record { bundle = b; reads = f; inspects = ground (arith, text_eq→eq x r) }
    ]
  ]

  module _ (w : World) where
    store_artifact-Extends : (r a : Text) (m : Manager E) → Extends m (store_artifact E w r a m).1
    unfolding store_artifact write_artifact
    store_artifact-Extends r a m p x h = elim (Option-cases (m.artifact (artifact_path r))) [
      | inl e ↦ elim (Bool-cases (text_eq p (artifact_path r))) [
        | inl q ↦ absurd (cc (h, e, ap m.artifact (text_eq→eq p (artifact_path r) q)))
        | inr q ↦ ground arith
      ]
      | inr (y, e) ↦ ground (arith, check_artifact_frame E w r y m)
    ]

    store_artifact-Holds :
        (r a : Text) (m : Manager E)
        → IsArchiveOf a r
        → (store_artifact E w r a m).0 ≡ ok tt
        → Holds (store_artifact E w r a m).1 r
    unfolding store_artifact write_artifact
    store_artifact-Holds r a m g h = elim (Option-cases (m.artifact (artifact_path r))) [
      | inl e ↦ record {
        archive = a;
        found = ground (arith, text_eq_refl (artifact_path r));
        genuine = g;
      }
      | inr (y, e) ↦ record {
        archive = y;
        found = ground (arith, check_artifact_frame E w r y m);
        genuine = check_artifact-genuine r y m (ground arith);
      }
    ]

    pub IsDurable-Extends :
        (m m' : Manager E)
        → Extends m m'
        → m'.active ≡ m.active
        → m'.state ≡ m.state
        → IsDurable m
        → IsDurable m'
    IsDurable-Extends m m' x a s d = record {
      active_held = λ h.
          subst (Holds m') (sym (ap (λ (t : Status). t.revision) a))
            (Holds-Extends x (d.active_held (λ e. h (ap (λ (t : Status). t.revision) a ∙ e))));
      state_held = λ t h. Holds-Extends x (d.state_held t (sym s ∙ h));
    }

    stored-injective :
        (s t : Status) → ◌≡◌ {A = Option StateFile} (some (stored s)) (some (stored t)) → s ≡ t
    stored-injective s t e = cc

    pub persist-IsDurable :
        (next : Status) (m : Manager E)
        → IsDurable m
        → Holds m next.revision
        → IsDurable (persist E w next m).1
    unfolding persist
    persist-IsDurable next m d h = record {
      active_held = λ n. Holds-Extends (λ p a q. q) (d.active_held n);
      state_held = λ t e. elim (Bool-cases (landed (atomic_write w.state_write))) [
        | inl q ↦
            Holds-Extends (λ p a z. z)
              (subst (λ (u : Status). Holds m u.revision) (stored-injective next t (ground arith))
                h)
        | inr q ↦ Holds-Extends (λ p a z. z) (d.state_held t (ground arith))
      ];
    }

    activated-IsDurable :
        (next : Status) (m : Manager E)
        → IsDurable m
        → Holds m next.revision
        → IsDurable (record m { active = next })
    activated-IsDurable next m d h = record {
      active_held = λ n. Holds-Extends (λ p a q. q) h;
      state_held = λ t e. Holds-Extends (λ p a q. q) (d.state_held t e);
    }

    persist-Extends : (next : Status) (m : Manager E) → Extends m (persist E w next m).1
    unfolding persist
    persist-Extends next m p a h = h

    -- The end of an activation, once the archive is there.
    pub save-IsDurable :
        (next : Status) (m : Manager E)
        → IsDurable m
        → Holds m next.revision
        → IsDurable ((do persist E w next; set_active next) m).1
    save-IsDurable next m d h = elim (Try-cases (persist E w next m).0) [
      | inl (u, e) ↦ rw e (
          activated-IsDurable next (persist E w next m).1 (persist-IsDurable next m d h)
            (Holds-Extends (persist-Extends next m) h))
      | inr (inl (x, e)) ↦ rw e (persist-IsDurable next m d h)
      | inr (inr e) ↦ rw e (persist-IsDurable next m d h)
    ]

    install-IsDurable :
        (a : Text) (next : Status) (m : Manager E)
        → IsArchiveOf a next.revision
        → IsDurable m
        → IsDurable (install E w a next m).1
    unfolding install
    install-IsDurable a next m g d =
        let m1 = (store_artifact E w next.revision a m).1 in
        let d1 =
          IsDurable-Extends m m1 (store_artifact-Extends next.revision a m)
            (store_artifact_frame E w next.revision a m).0
            (store_artifact_frame E w next.revision a m).1 d in
        elim (Try-cases (store_artifact E w next.revision a m).0) [
          | inr (inl (x, e)) ↦ rw e d1
          | inr (inr e) ↦ rw e d1
          | inl (u, e) ↦ elim (Bool-cases w.cancelled_before_persist) [
            | inl c ↦ rw e (simp c d1)
            | inr c ↦
                rw e
                  (simp c (save-IsDurable next m1 d1 (store_artifact-Holds next.revision a m g e)))
          ]
        ]

    pub recording-IsDurable :
        (x : Try (Unit {0}) × Manager E) → IsDurable x.1 → IsDurable (recording x).1
    unfolding recording record_error
    recording-IsDurable (ok a, m) d = d
    recording-IsDurable (err e, m) d = record {
      active_held = λ n. Holds-Extends (λ p a q. q) (d.active_held n);
      state_held = λ t e. Holds-Extends (λ p a q. q) (d.state_held t e);
    }
    recording-IsDurable (panic, m) d = d

    abbrev Durable : Try (Unit {0}) × Manager E → Type 0
    Durable x = IsDurable x.1

    renew-IsDurable :
        (s : Source) (etag : Text) (m : Manager E)
        → IsDurable m
        → IsDurable (renew E w s etag m.active m).1
    unfolding renew
    renew-IsDurable s etag m d =
        if-cases Durable
          (text_eq m.active.revision [] || not (text_eq m.active.source s.id) || text_eq etag [])
          (λ _. recording-IsDurable _ d)
          λ n.
            if-cases Durable w.cancelled_before_persist (λ _. recording-IsDurable _ d)
              λ _. recording-IsDurable _ (
                save-IsDurable (record m.active { refreshed_at = w.now; last_error = [] }) m d
                  (d.active_held (λ e. ground (arith, ap (λ x. text_eq x []) e, text_eq_refl []))))

  pub validate-compile :
      (w : World) (b : E.Bundle) (m : Manager E) {r : Text}
      → (validate E w b m).0 ≡ ok r
      → (E.compile m.engine b).0 ≡ ok r
  unfolding validate
  validate-compile w b m h = ground arith

  -- ReadArchive has checked the digests of the manifest against those that Compile assigns.
  module _
      (honest : (a : Text) (b : E.Bundle) (s : E.State) (r : Text)
        → E.read_archive a ≡ ok b
        → (E.compile s b).0 ≡ ok r
        → E.inspect_revision b ≡ ok r) where
    activate_body-IsDurable :
        (w : World) (a source etag : Text) (m : Manager E)
        → IsDurable m
        → IsDurable (activate_body E w a source etag m).1
    unfolding activate_body
    activate_body-IsDurable w a source etag m d = elim (Try-cases (E.read_archive a)) [
      | inr (inl (x, e)) ↦ rw e d
      | inr (inr e) ↦ rw e d
      | inl (b, e) ↦
          let f = validate_frame E w b m in
          let m1 = (validate E w b m).1 in
          let d1 =
            IsDurable-Extends w m m1 (λ p x h. ap (λ (g : Text → Option Text). g p) f.1 ∙ h) f.0 f.2
              d in
          elim (Try-cases (validate E w b m).0) [
            | inr (inl (x, g)) ↦ rw e (rw g d1)
            | inr (inr g) ↦ rw e (rw g d1)
            | inl (r, g) ↦ rw e (
                rw g (
                  install-IsDurable w a (successor E w m1.active r source etag) m1
                    (record {
                      bundle = b;
                      reads = e;
                      inspects =
                          unfold successor in honest a b m.engine r e (validate-compile w b m g);
                    })
                    d1))
          ]
    ]

    activate-IsDurable :
        (w : World) (a source etag : Text) (m : Manager E)
        → IsDurable m
        → IsDurable (activate E w a source etag m).1
    unfolding activate
    activate-IsDurable w a source etag m d =
        recording-IsDurable w _ (activate_body-IsDurable w a source etag m d)

    roll_back_to-IsDurable :
        (w : World) (r : Text) (o : Option Text) (m : Manager E)
        → IsDurable m
        → IsDurable (roll_back_to E w r o m).1
    unfolding roll_back_to
    roll_back_to-IsDurable w r none m d = recording-IsDurable w _ d
    roll_back_to-IsDurable w r (some raw) m d =
        if-cases (Durable w) (ltb max_archive (length raw)) (λ _. recording-IsDurable w _ d)
          (λ _. activate-IsDurable w raw _ [] m d)

    rollback-IsDurable :
        (w : World) (r : Text) (m : Manager E) → IsDurable m → IsDurable (rollback E w r m).1
    unfolding rollback
    rollback-IsDurable w r m d =
        if-cases (Durable w) (not (is_digest r)) (λ _. recording-IsDurable w _ d)
          (λ _.
            roll_back_to-IsDurable w r
              (if w.artifact_unreadable (artifact_path r)
                then none
                else m.artifact (artifact_path r))
              m d)

    receive-IsDurable :
        (w : World) (s : Source) (etag : Text) (x : Try FetchResult) (m : Manager E)
        → IsDurable m
        → IsDurable (receive E w s etag x m).1
    unfolding receive
    receive-IsDurable w s etag (err e) m d = recording-IsDurable w _ d
    receive-IsDurable w s etag panic m d = d
    receive-IsDurable w s etag (ok x) m d =
        if-cases (Durable w) x.not_modified (λ _. renew-IsDurable w s etag m d)
          (λ _. activate-IsDurable w x.bytes s.id x.etag m d)

    -- Every call, whether it fails or not and whatever system calls fail in it, keeps on disk the
    -- archives of the active revision and of the one in state.json, where Inspect finds in a bundle
    -- that ReadArchive accepts the revision that Compile gives it.
    pub call-IsDurable :
        (w : World) (c : Call) (m : Manager E) → IsDurable m → IsDurable (call E w c m).1
    unfolding call refresh
    call-IsDurable w (activates a source etag) m d = activate-IsDurable w a source etag m d
    call-IsDurable w (rolls_back r) m d = rollback-IsDurable w r m d
    call-IsDurable w (refreshes none) m d = recording-IsDurable w _ d
    call-IsDurable w (refreshes (some s)) m d =
        let etag = if text_eq m.active.source s.id then m.active.etag else [] in
        receive-IsDurable w s etag (s.fetch etag) m d
