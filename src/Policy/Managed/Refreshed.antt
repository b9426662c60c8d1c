-- ===== src/Policy/Managed/Refreshed.antt =====
-- Proofs on the manager with the engine and an OCI source: what a refresh makes active.
use normgate.Prelude.{
  sym, subst, Option, refl, if◌then◌else◌, ◌≡◌, ◌≢◌, ◌⊎◌, inl, inr, arith, false, Bool-cases, some,
  [],
}
use normgate.Text.{text_eq→eq, text_eq_iff, Text, text_eq}
use normgate.Policy.{ok, Try-cases}
use normgate.Policy.Manager.{Engine, FetchResult, Manager, Source, World, recording}
use normgate.Policy.Manager.Activation.{activate, persist}
use normgate.Policy.Manager.Lifecycle.{refresh, receive, renew}
use normgate.Policy.Sources.Http.{Url, Client, Request, Reply}
use normgate.Policy.Sources.Oci.{ManifestDecoders, OciSource, oci_source}
use normgate.Policy.Sources.Pulled.{IsPulled, oci_fetch-IsPulled}
use normgate.Policy.Managed.{Surroundings, managed}
use normgate.Policy.Managed.Activated.{IsActivated, activate-IsActivated}

-- The active revision is kept: there is one, and it was taken from the source.
pub record IsKept {E : Engine} (source : Source) (m n : Manager E) : Type 0 where
  pub some_revision : m.active.revision ≢ []
  pub from : m.active.source ≡ source.id
  pub revision : n.active.revision ≡ m.active.revision

abbrev held : {E : Engine} → Source → Manager E → Text
held source m = if text_eq m.active.source source.id then m.active.etag else []

module _ {E : Engine} (w : World) (source : Source) (m : Manager E) where
  renew-IsKept :
      (etag : Text)
      → (renew E w source etag m.active m).0 ≡ ok tt
      → IsKept source m (renew E w source etag m.active m).1
  unfolding renew recording persist
  renew-IsKept etag h = record {
    some_revision = λ e. ground (arith, text_eq_iff m.active.revision []);
    from = ground (arith, text_eq→eq m.active.source source.id);
    revision = ground arith;
  }

  refresh-ok :
      (refresh E w (some source) m).0 ≡ ok tt
      → IsKept source m (refresh E w (some source) m).1
        ⊎ ((r : FetchResult) × (source.fetch (held source m) ≡ ok r)
            × (r.not_modified ≡ false)
            × ((activate E w r.bytes source.id r.etag m).0 ≡ ok tt)
            × ((refresh E w (some source) m).1 ≡ (activate E w r.bytes source.id r.etag m).1))
  unfolding refresh receive recording
  refresh-ok h = elim (Try-cases (source.fetch (held source m))) [
    | inr (inl (x, e)) ↦ absurd (ground (arith, e))
    | inr (inr e) ↦ absurd (ground (arith, e))
    | inl (r, e) ↦ elim (Bool-cases r.not_modified) [
      | inl n ↦ inl (rw (e, n) (renew-IsKept (held source m) (rw (e, n) at h)))
      | inr n ↦ inr (r, e, n, (rw (e, n) at h), rw (e, n) refl)
    ]
  ]

module _ (S : Surroundings) (parse : Text → Option Url) (send : Client → Request → Reply)
    (decoders : ManifestDecoders) (w : World) (s : OciSource) (m : Manager (managed S)) where
  -- A refresh from an OCI source that succeeds either keeps the active revision, which there is and
  -- which was taken from that source, or activates a fetched archive: its bytes are the layer of the
  -- manifest whose digest the source pins, and the active revision is the digest of its verified
  -- files, whose scenarios, at least one, all pass in the engine as Compile has left it.
  pub refresh-IsPulled :
      (refresh (managed S) w (some (oci_source parse S.digest send decoders s)) m).0 ≡ ok tt
      → IsKept
          (oci_source parse S.digest send decoders s)
          m
          (refresh (managed S) w (some (oci_source parse S.digest send decoders s)) m).1
        ⊎ ((r : FetchResult) × IsPulled parse S.digest send decoders s r
            × IsActivated S r.bytes
                (refresh
                  (managed S)
                  w
                  (some (oci_source parse S.digest send decoders s))
                  m).1.active.revision
                m.engine)
  unfolding oci_source
  refresh-IsPulled h =
      let source = oci_source parse S.digest send decoders s in
      elim (refresh-ok w source m h) [
        | inl k ↦ inl k
        | inr (r, e, n, a, same) ↦
            elim (oci_fetch-IsPulled parse S.digest send decoders s (held source m) r e) [
              | inl u ↦ absurd (ground (arith, u.0))
              | inr pulled ↦ inr (
                r,
                pulled,
                subst (λ x. IsActivated S r.bytes x.active.revision m.engine) (sym same)
                    (activate-IsActivated S w r.bytes source.id r.etag m a),
              )
            ]
      ]
