-- ===== src/Receiver/Commit/Branches.antt =====
-- CommitBarrier of internal/receiver/committer.go step by step: the states in which it can return.
use go_xport.Common.{
  ◌-◌, ◌≡◌, ◌≢◌, ◌⊎◌, inl, inr, refl, sym, ap, subst, ◌∙◌, Bool, true, false, not, ◌||◌, [], ◌∷◌,
  ◌++◌, append-nil, Bytes, Option, none, arith, Bool-cases,
}
use native.Mathlib.Decide.{dec_le}
use go_xport.Wire.Outcome.{Outcome, bind-Outcome}
use go_xport.Receiver.Disk
use go_xport.Receiver.Disk.{
  Disk, File, FilePath, Faults, target_path, try_remove, remove, rename, sync_top, update,
  same_path, same_path_refl, same_path_iff, is_top, flush,
}
use go_xport.Receiver.Stager.{is_some}
use go_xport.Receiver.Commit.{
  Session, attempt, send_ack, rename_staged, sync_and_ack, persist, move_in, close_and_rename,
  commit_barrier,
}
use go_xport.Wire.Io.{
  Result, ok, err, Exec, ◌>>◌, io, CommitStep, sync_file, close_file, rename_file, open_dir,
  sync_dir, write_fits, write_full,
}
use go_xport.Wire.Response.{write_ack, ack_byte}

-- The disk once the staged file has its final name, and the disk that the barrier leaves.
abbrev pub placed : FilePath → Bytes → Disk → Disk
placed staged filename d = rename staged (target_path filename) (Disk.sync_file staged d)

abbrev pub committed : FilePath → Bytes → Session → Session
committed staged filename s = record s {
  disk = sync_top (placed staged filename s.disk);
  dst = record s.dst { written = s.dst.written ++ (ack_byte ∷ []); room = s.dst.room - 1 };
}

-- What an error leaves: no answer, and no change to a file but the staged one and the target,
-- which may hold the whole staged content.
pub record Unanswered (staged : FilePath) (filename : Bytes) (s t : Session) : Type 0 where
  pub silent : t.dst.written ≡ s.dst.written
  pub uncounted : t.tracker ≡ s.tracker
  pub others :
      (q : FilePath)
      → q ≢ staged
      → (t.disk.live q ≡ s.disk.live q)
        ⊎ ((q ≡ target_path filename) × (t.disk.live q ≡ flush (s.disk.live staged)))
  pub lasting :
      (q : FilePath) → (t.disk.stable q ≡ s.disk.stable q) ⊎ (t.disk.stable q ≡ t.disk.live q)

pub update_ne :
    (files : FilePath → Option File) (p q : FilePath) (file : Option File)
    → q ≢ p
    → update files p file q ≡ files q
update_ne files p q file ne = elim (Bool-cases (same_path p q)) [
  | inl e ↦ absurd (ne (sym ((same_path_iff p q).0 e)))
  | inr e ↦ rw e
]

module _ (staged : FilePath) (filename : Bytes) (s : Session) where
  -- The disk before the rename: at most the staged file differs.
  staged_only :
      (d : Disk)
      → ((q : FilePath) → q ≢ staged → d.live q ≡ s.disk.live q)
      → d.stable ≡ s.disk.stable
      → Unanswered staged filename s (record s { disk = d })
  staged_only d same stable = record {
    silent = refl;
    uncounted = refl;
    others = λ q ne. inl (same q ne);
    lasting = λ q. inl (ap (λ f. f q) stable);
  }

  undone :
      (f : Faults) (d : Disk)
      → ((q : FilePath) → q ≢ staged → d.live q ≡ s.disk.live q)
      → d.stable ≡ s.disk.stable
      → Unanswered staged filename s (record s { disk = try_remove f staged d })
  undone f d same stable = elim (Bool-cases f.remove_file) [
    | inl e ↦ rw e (staged_only d same stable)
    | inr e ↦ rw e (
        staged_only (remove staged d) (λ q ne. update_ne d.live staged q none ne ∙ same q ne)
          stable)
  ]

  pub placed_live :
      (q : FilePath)
      → q ≢ staged
      → ((placed staged filename s.disk).live q ≡ s.disk.live q)
        ⊎ ((q ≡ target_path filename)
            × ((placed staged filename s.disk).live q ≡ flush (s.disk.live staged)))
  placed_live q ne = elim (Bool-cases (same_path (target_path filename) q)) [
    | inl e ↦
        inr (sym ((same_path_iff (target_path filename) q).0 e), rw (e, same_path_refl staged))
    | inr e ↦ inl (
        rw e (
          update_ne (update s.disk.live staged (flush (s.disk.live staged))) staged q none ne
          ∙ update_ne s.disk.live staged q (flush (s.disk.live staged)) ne))
  ]

attempt-Outcome :
    (done fails : Session → Type 0) (failed : Bool) (step : CommitStep) (undo act : Disk → Disk)
    (s : Session)
    → fails (record s { disk = undo s.disk })
    → done (record s { disk = act s.disk })
    → Outcome done fails (attempt failed step undo act s)
attempt-Outcome done fails true step undo act s hf hd = hf
attempt-Outcome done fails false step undo act s hf hd = hd

-- A later step starts in the state that is known.
from_state :
    (done fails : Session → Type 0) (m : Exec Session (Unit {0})) (known : Session)
    → Outcome done fails (m known)
    → (u : Unit {0}) (t : Session) → t ≡ known
    → Outcome done fails (m t)
from_state done fails m known h u t e = subst (λ s. Outcome done fails (m s)) (sym e) h

send_ack-Outcome :
    (done fails : Session → Type 0) (s : Session)
    → done (record s {
      dst = record s.dst { written = s.dst.written ++ (ack_byte ∷ []); room = s.dst.room - 1 };
    })
    → fails (record s { dst = record s.dst { room = 0 } })
    → Outcome done fails (send_ack s)
unfolding write_ack
send_ack-Outcome done fails s hd hf = elim (dec_le 1 s.dst.room) [
  | yes fits ↦ rw (write_fits io (ack_byte ∷ []) s.dst fits) hd
  | no full ↦
      let empty : s.dst.room ≡ 0 = omega arith in
      rw (write_full io (ack_byte ∷ []) s.dst (omega arith), empty, append-nil s.dst.written) hf
]

then_state :
    (done fails : Session → Type 0) (m rest : Exec Session (Unit {0})) (known next : Session)
    → Outcome (λ t. t ≡ next) fails (m known)
    → Outcome done fails (rest next)
    → Outcome done fails ((m >> rest) known)
then_state done fails m rest known next h k =
    bind-Outcome (λ t. t ≡ next) done fails m (λ _. rest) known h
      (from_state done fails rest next k)

-- The directory is synced, and the ACK is sent.
abbrev pub kept : Session → Session
kept s = record s {
  disk = sync_top s.disk;
  dst = record s.dst { written = s.dst.written ++ (ack_byte ∷ []); room = s.dst.room - 1 };
}

-- What an error behind the rename leaves.
pub record Unkept (s t : Session) : Type 0 where
  pub silent : t.dst.written ≡ s.dst.written
  pub uncounted : t.tracker ≡ s.tracker
  pub live : t.disk.live ≡ s.disk.live
  pub lasting :
      (q : FilePath) → (t.disk.stable q ≡ s.disk.stable q) ⊎ (t.disk.stable q ≡ t.disk.live q)

module _ (f : Faults) (s : Session) where
  abbrev topped : Session
  topped = record s { disk = sync_top s.disk }

  topped_q :
      (q : FilePath)
      → (topped.disk.stable q ≡ s.disk.stable q) ⊎ (topped.disk.stable q ≡ s.disk.live q)
  topped_q q = elim (Bool-cases (is_top q)) [ inl e ↦ inr (rw e) | inr e ↦ inl (rw e) ]

  same-Unkept : Unkept s s
  same-Unkept = record { silent = refl; uncounted = refl; live = refl; lasting = λ q. inl refl }

  sync_and_ack-Outcome : Outcome (λ t. t ≡ kept s) (Unkept s) (sync_and_ack f s)
  unfolding sync_and_ack
  sync_and_ack-Outcome =
      then_state (λ t. t ≡ kept s) (Unkept s) (attempt f.sync_dir sync_dir (λ d. d) sync_top)
        send_ack s topped
        (attempt-Outcome (λ t. t ≡ topped) (Unkept s) f.sync_dir sync_dir (λ d. d) sync_top s
          same-Unkept refl)
        (send_ack-Outcome (λ t. t ≡ kept s) (Unkept s) topped refl
          (record { silent = refl; uncounted = refl; live = refl; lasting = topped_q }))

  -- What follows the rename, on every branch.
  pub persist-Outcome : Outcome (λ t. t ≡ kept s) (Unkept s) (persist f s)
  unfolding persist
  persist-Outcome =
      then_state (λ t. t ≡ kept s) (Unkept s) (attempt f.open_dir open_dir (λ d. d) (λ d. d))
        (sync_and_ack f) s s
        (attempt-Outcome (λ t. t ≡ s) (Unkept s) f.open_dir open_dir (λ d. d) (λ d. d) s same-Unkept
          refl)
        sync_and_ack-Outcome

module _ (f : Faults) (staged : FilePath) (filename : Bytes) (s : Session) where
  abbrev Done : Session → Type 0
  Done t = t ≡ committed staged filename s

  abbrev Fails : Session → Type 0
  Fails = Unanswered staged filename s

  abbrev synced : Session
  synced = record s { disk = Disk.sync_file staged s.disk }

  abbrev pub renamed : Session
  renamed = record s { disk = placed staged filename s.disk }

  -- An error behind the rename.
  Unkept-Fails : (t : Session) → Unkept renamed t → Fails t
  Unkept-Fails t h = record {
    silent = h.silent;
    uncounted = h.uncounted;
    others = λ q ne. elim (placed_live staged filename s q ne) [
      | inl same ↦ inl (ap (λ files. files q) h.live ∙ same)
      | inr (here, moved) ↦ inr (here, ap (λ files. files q) h.live ∙ moved)
    ];
    lasting = h.lasting;
  }

  renamed-Outcome :
      (o : Result (Unit {0}) × Session)
      → Outcome (λ t. t ≡ kept renamed) (Unkept renamed) o
      → Outcome Done Fails o
  renamed-Outcome (ok u, t) h = h
  renamed-Outcome (err e, t) h = Unkept-Fails t h

  synced-others : (q : FilePath) → q ≢ staged → synced.disk.live q ≡ s.disk.live q
  synced-others q ne = update_ne s.disk.live staged q (flush (s.disk.live staged)) ne

  synced-Fails : Fails (record s { disk = try_remove f staged synced.disk })
  synced-Fails = undone staged filename s f synced.disk synced-others refl

  close_and_rename-Outcome :
      Outcome (λ t. t ≡ renamed) Fails (close_and_rename f staged filename synced)
  unfolding close_and_rename
  close_and_rename-Outcome =
      then_state (λ t. t ≡ renamed) Fails
        (attempt f.close_file close_file (try_remove f staged) (λ d. d))
        (rename_staged f staged filename) synced synced
        (attempt-Outcome (λ t. t ≡ synced) Fails f.close_file close_file (try_remove f staged)
          (λ d. d) synced synced-Fails refl)
        (attempt-Outcome (λ t. t ≡ renamed) Fails
          (f.rename_file || not (is_some (synced.disk.live staged))) rename_file
          (try_remove f staged) (rename staged (target_path filename)) synced synced-Fails refl)

  -- Up to the rename, on every branch.
  pub move_in-Outcome :
      Outcome (λ t. t ≡ renamed) (Unanswered staged filename s) (move_in f staged filename s)
  unfolding move_in
  move_in-Outcome =
      then_state (λ t. t ≡ renamed) Fails
        (attempt f.sync_file sync_file (try_remove f staged) (Disk.sync_file staged))
        (close_and_rename f staged filename) s synced
        (attempt-Outcome (λ t. t ≡ synced) Fails f.sync_file sync_file (try_remove f staged)
          (Disk.sync_file staged) s (undone staged filename s f s.disk (λ q ne. refl) refl) refl)
        close_and_rename-Outcome

  -- CommitBarrier on every branch.
  pub commit_barrier-Outcome :
      Outcome
        (λ t. t ≡ committed staged filename s)
        (Unanswered staged filename s)
        (commit_barrier f staged filename s)
  unfolding commit_barrier
  commit_barrier-Outcome =
      then_state Done Fails (move_in f staged filename) (persist f) s renamed move_in-Outcome
        (renamed-Outcome (persist f renamed) (persist-Outcome f renamed))
