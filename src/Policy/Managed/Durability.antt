-- ===== src/Policy/Managed/Durability.antt =====
-- Proofs on the manager with the engine: what is on disk.
use normgate.Prelude.{◌≡◌, sym, ap, ◌∙◌}
use normgate.Text.{Text}
use normgate.Policy.{ok}
use normgate.Policy.Bundle.Files.{Files}
use normgate.Policy.Bundle.Archive.Revision.{read_archive-revision}
use normgate.Policy.Manager.{World, Manager}
use normgate.Policy.Manager.Lifecycle.{Call, call}
use normgate.Policy.Manager.Durable.{IsDurable, call-IsDurable}
use normgate.Policy.Opa.Revisions.{State}
use normgate.Policy.Opa.Revisions.Compiled.{compile-eq-ok}
use normgate.Policy.Managed.{Surroundings, managed, inspect_revision}

module _ (S : Surroundings) where
  -- The revision that Inspect reads in a bundle of ReadArchive is the one that Compile gives it.
  compile-inspect :
      (archive : Text) (files : Files) (s : State S.rego) (r : Text)
      → (managed S).read_archive archive ≡ ok files
      → ((managed S).compile s files).0 ≡ ok r
      → inspect_revision S files ≡ ok r
  compile-inspect archive files s r h k =
      let (sealed, q, e, c) =
        compile-eq-ok S.digest S.decoders S.order (S.cancelled s) s (S.elsewhere s) files r k in
      let (report, i, v) =
        read_archive-revision S.packages S.digest S.decoders S.order archive files sealed h q in
      rw i (ap ok (v ∙ sym e))

  -- With the engine of package opa, every call of the manager, whether it fails or not and whatever
  -- system calls fail in it, keeps on disk the archives of the active revision and of the one in
  -- state.json: files that ReadArchive accepts and Inspect finds the revision in.
  pub managed-IsDurable :
      (w : World) (c : Call) (m : Manager (managed S))
      → IsDurable (managed S) m
      → IsDurable (managed S) (call (managed S) w c m).1
  managed-IsDurable w c m d = call-IsDurable (managed S) compile-inspect w c m d
