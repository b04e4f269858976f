-- ===== src/Receiver/Server/Staging.antt =====
-- From the top of the loop of internal/receiver/listener.go to the staged file, the files of the other
-- handlers stay.
use go_xport.Common.{
  ℕ, ◌≡◌, inl, inr, refl, sym, ap, ◌∙◌, subst, true, false, [], ◌++◌, Bytes, IsBytes, Bool-cases,
  length, All-split, ◌<◌,
}
use mathlib.Core.Option.{some-injective}
use go_xport.Receiver.Commit.{Session}
use go_xport.Receiver.Commit.Branches.{update_ne}
use go_xport.Receiver.Connection.{Round, refuse, header_failed, ends_quietly}
use go_xport.Receiver.Connection.Safety.{fill-top, create_staged_file-cases}
use go_xport.Receiver.Disk.{Disk, FilePath, fill, same_path_refl}
use go_xport.Receiver.Server.Handler.{State, rejoin, stage, read_header, read_next}
use go_xport.Receiver.Server.Parts.{Within}
use go_xport.Receiver.Stager.{create_staged_file, staged_path, is_some}
use go_xport.Wire.Filename.{validate_filename}
use go_xport.Wire.Header.{header_bytes, read_request_header}
use go_xport.Wire.Header.Canonical.{read_request_header-IsHeader}
use go_xport.Wire.Io.{Result, ok, err, TransferError, Source}
use go_xport.Wire.Stream.{hash_size}
use go_xport.Receiver.Server.Guarded.{
  IsRest, Guarded, quiet-Guarded, refuse-Guarded, create_staged_file-fresh,
}

abbrev staged_of : Result FilePath × Disk → FilePath
staged_of (ok p, d) = p
staged_of (err e, d) = []

module _ (sum256 : Bytes → Bytes) (length-sum256 : (b : Bytes) → length (sum256 b) ≡ hash_size)
    (describe : TransferError → Bytes) where
  header_failed-Guarded :
      (r : Round) (e : TransferError) (max_size : ℕ) (x : State) (s : Session)
      → s.disk ≡ x.disk
      → Guarded sum256 x (rejoin (header_failed sum256 describe max_size r e s) x)
  unfolding header_failed
  header_failed-Guarded r e max_size x s same = elim (Bool-cases (ends_quietly e)) [
    | inl q ↦ rw q (quiet-Guarded sum256 x _ same refl refl tt)
    | inr q ↦ rw q (refuse-Guarded sum256 describe r [] e max_size x s same)
  ]

  stage-Guarded :
      (r : Round) (name : Bytes) (size : ℕ) (x : State) (src : Source) (o : Result FilePath × Disk)
      → IsBytes src.input
      → validate_filename name ≡ ok tt
      → Within (header_bytes name size ++ src.input) x.handler.sent
      → create_staged_file r.faults r.rand x.disk ≡ o
      → Guarded sum256 x (
          stage sum256 describe r name size
            (record x { handler = record x.handler { src = src } })
            o)
  unfolding stage refuse
  stage-Guarded r name size x src (ok p, d) bytes valid within e =
      let made : (Result.ok p, d)
          ≡ (Result.ok (staged_path r.rand), fill (staged_path r.rand) [] x.disk) =
        elim (create_staged_file-cases r.faults r.rand x.disk) [
          | inl made ↦ sym e ∙ made
          | inr (e', failed) ↦ absurd (cc)
        ] in
      let new = create_staged_file-fresh sum256 r.faults r.rand x.disk d p e in
      let path : p ≡ staged_path r.rand = ap staged_of made in
      let disk : d ≡ fill (staged_path r.rand) [] x.disk =
        ap (λ (o : Result FilePath × Disk). o.1) made in
      record {
        frame = λ rand there mine. rw disk (
            update_ne x.disk.live (staged_path r.rand) (staged_path rand) _
              (λ same. let old = subst (λ p. is_some (x.disk.live p) ≡ true) same there in cc));
        owns = λ q same.
            inr (
              subst (λ p. is_some (x.disk.live p) ≡ false) (sym path ∙ some-injective _ _ same)
                new);
        safe = λ q top. inl (rw disk (fill-top r.rand [] x.disk q top));
        sent = refl;
        work = (
          bytes,
          valid,
          within,
          (r.rand, path),
          rw (disk, path) (rw (same_path_refl (staged_path r.rand)) refl),
        );
      }
  stage-Guarded r name size x src (err e', d) bytes valid within e =
      elim (create_staged_file-cases r.faults r.rand x.disk) [
        | inl made ↦ absurd (cc)
        | inr (e'', failed) ↦
            let same : d ≡ x.disk = ap (λ (o : Result FilePath × Disk). o.1) (sym e ∙ failed) in
            quiet-Guarded sum256 x _ same refl refl tt
      ]

  read_header-Guarded :
      (r : Round) (x : State) (o : Result (Bytes × ℕ) × Source)
      → IsRest x.handler
      → read_request_header x.server.max_size x.handler.src ≡ o
      → Guarded sum256 x (read_header sum256 describe r x o)
  unfolding read_header
  read_header-Guarded r x (err e, src) rest h = header_failed-Guarded r e x.server.max_size x _ refl
  read_header-Guarded r x (ok (name, size), src) (bytes, within) h =
      let header =
        read_request_header-IsHeader x.server.max_size x.handler.src name size src bytes h in
      stage-Guarded r name size x src (create_staged_file r.faults r.rand x.disk)
        (All-split (λ b. b < 256) (header_bytes name size) src.input
          (subst IsBytes header.canonical bytes)).1
        header.valid (subst (λ b. Within b x.handler.sent) header.canonical within) refl

  pub read_next-Guarded :
      (r : Round) (x : State) → IsRest x.handler → Guarded sum256 x (read_next sum256 describe r x)
  unfolding read_next
  read_next-Guarded r x rest = elim (Bool-cases x.server.stopped) [
    | inl e ↦ simp e (quiet-Guarded sum256 x _ refl refl refl tt)
    | inr e ↦
        simp e
          (read_header-Guarded r x (read_request_header x.server.max_size x.handler.src) rest refl)
  ]
