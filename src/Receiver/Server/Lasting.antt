-- ===== src/Receiver/Server/Lasting.antt =====
-- What was acknowledged by internal/receiver/listener.go is not lost, whatever the other connections do
-- afterwards and whenever the machine crashes.
use go_xport.Common.{
  ℕ, ◌<◌, ◌≡◌, ◌⊎◌, inl, inr, refl, sym, ap, ◌∙◌, subst, true, false, [], ◌∷◌, ◌++◌, Bytes, Option,
  some, Bool-cases, length, codes,
}
use mathlib.Core.List.{append_cancel_left}
use go_xport.Receiver.Commit.{Session, move_in, persist}
use go_xport.Receiver.Commit.Branches.{
  renamed, kept, Unkept, Unanswered, move_in-Outcome, persist-Outcome,
}
use go_xport.Receiver.Commit.Durability.{committed-IsDurable}
use go_xport.Receiver.Connection.{Round, refuse, after_commit}
use go_xport.Receiver.Connection.Answers.{NoAck, write_nack-extends}
use go_xport.Receiver.Disk.{Disk, File, FilePath, target_path, is_top}
use go_xport.Receiver.Server.Handler.{
  State, Acts, committing, placed, session, rejoin, moved, move, acknowledge, moves, acknowledges,
}
use go_xport.Receiver.Server.Acting.{acknowledge-disk}
use go_xport.Receiver.Server.Guarded.{IsWork}
use go_xport.Receiver.Server.Isolation.{Reaches-IsIsolated}
use go_xport.Receiver.Server.Moving.{Places, Acts-Moves}
use go_xport.Receiver.Server.Parts.{Within}
use go_xport.Receiver.Server.System.{
  System, view, put_back, accept_failed, halt, Step, accepts, accept_fails, lists, adds,
  loads_count, publishes_count, spawns, handles, halts, Reaches, later,
}
use go_xport.Wire.Header.{header_bytes}
use go_xport.Wire.Io.{Result, ok, err, TransferError}
use go_xport.Wire.Outcome.{Outcome}
use go_xport.Wire.Response.{ack_byte}
use go_xport.Wire.Stream.{hash_size}

module _ (sum256 : Bytes → Bytes) (describe : TransferError → Bytes) where
  -- The steps from one system to another.
  pub data Leads (s : System) : System → Type 0 where
    here : Leads s s
    next : {t u : System} → Leads s t → Step sum256 describe t u → Leads s u

  -- A step in which a handler renames its staged file to `q`; the file is what its client has sent,
  -- complete and with its digest.
  pub data Renames (s : System) (q : FilePath) : System → Type 0 where
    renames :
        (by : ℕ) {x : State}
        → by < s.accepted
        → Acts sum256 describe by (view s by) x
        → Places sum256 (view s by) q (x.disk.live q)
        → Renames s q (put_back s by x)

  -- The file has come to `q` by such a step between the two systems.
  pub record IsReplaced (s u : System) (q : FilePath) (file : Option File) : Type 0 where
    pub before : System
    pub behind : System
    pub since : Leads s before
    pub step : Renames before q behind
    pub file_is : file ≡ behind.disk.live q
    pub until : Leads behind u

  -- This file, or one that has replaced it.
  abbrev pub Holds : System → System → FilePath → File → Option File → Type 0
  Holds s u q file found = (found ≡ some file) ⊎ IsReplaced s u q found

  -- The file at `q`, now and after a crash, is this one, or has come there by a later rename.
  pub record IsLasting (s u : System) (q : FilePath) (file : File) : Type 0 where
    pub now : Holds s u q file (u.disk.live q)
    pub after_crash : Holds s u q file (u.disk.stable q)

  Leads-Reaches :
      (first : Disk) {s u : System}
      → Leads s u
      → Reaches sum256 describe first s
      → Reaches sum256 describe first u
  Leads-Reaches first here r = r
  Leads-Reaches first (next l step) r = later (Leads-Reaches first l r) step

  Leads-Leads : {s t u : System} → Leads s t → Leads t u → Leads s u
  Leads-Leads l here = l
  Leads-Leads l (next m step) = next (Leads-Leads l m) step

  -- The same file, one step later.
  stays :
      {s u w : System} (q : FilePath) (file : File) (a b : Option File)
      → Step sum256 describe u w
      → b ≡ a
      → Holds s u q file a
      → Holds s w q file b
  stays q file a b step same (inl h) = inl (same ∙ h)
  stays q file a b step same (inr h) = inr (record {
    before = h.before;
    behind = h.behind;
    since = h.since;
    step = h.step;
    file_is = same ∙ h.file_is;
    until = next h.until step;
  })

  -- What a step does to the file at `q`, now and after a crash.
  abbrev Changes : System → System → FilePath → Type 0
  Changes u w q =
      ((w.disk.live q ≡ u.disk.live q) ⊎ Renames u q w)
      × ((w.disk.stable q ≡ u.disk.stable q) ⊎ (w.disk.stable q ≡ w.disk.live q))

  same-Changes : (u w : System) (q : FilePath) → w.disk ≡ u.disk → Changes u w q
  same-Changes u w q same =
      (inl (ap (λ (d : Disk). d.live q) same), inl (ap (λ (d : Disk). d.stable q) same))

  -- An answer by one ACK byte means that the directory is synced.
  acknowledged :
      (r : Round) (size max_size : ℕ) (x : State) (o : Result (Unit {0}) × Session)
      → Outcome (λ t. t ≡ kept (session x)) (Unkept (session x)) o
      → (rejoin (after_commit sum256 describe max_size r size o) x).handler.dst.written
        ≡ x.handler.dst.written ++ (ack_byte ∷ [])
      → o.1 ≡ kept (session x)
  unfolding after_commit refuse
  acknowledged r size max_size x (ok u, t) done e = done
  acknowledged r size max_size x (err why, t) failed e =
      let (answer, no_ack, sent) =
        write_nack-extends (codes "commit barrier failure: " ++ describe why) t.dst in
      let written = sym sent ∙ e ∙ ap (λ (b : Bytes). b ++ (ack_byte ∷ [])) (sym failed.silent) in
      let is_ack : answer ≡ ack_byte ∷ [] =
        append_cancel_left t.dst.written answer (ack_byte ∷ []) written in
      let never : NoAck (ack_byte ∷ []) = subst NoAck is_ack no_ack in absurd (never refl)

  -- A handler that is behind the rename has renamed its file.
  renamed-live :
      (r : Round) (name : Bytes) (size : ℕ) (staged : FilePath) (x : State) (file : File)
      (o : Result (Unit {0}) × Session)
      → Outcome
          (λ t. t ≡ renamed r.faults staged name (session x))
          (Unanswered staged name (session x))
          o
      → x.disk.live staged ≡ some file
      → (moved sum256 describe r name size x o).handler.phase ≡ placed name size
      → (moved sum256 describe r name size x o).disk.live (target_path name)
        ≡ some (record { content = file.content; flushed = true })
  unfolding moved after_commit refuse
  renamed-live r name size staged x file (ok u, t) done there e =
      ap (λ (t : Session). t.disk.live (target_path name)) done
      ∙ (committed-IsDurable staged name (session x) file there).now
  renamed-live r name size staged x file (err why, t) failed there e = absurd (cc)

  -- The system behind a handler's rename, and behind its sync and ACK.
  abbrev pub moves_to : Round → Bytes → ℕ → FilePath → System → ℕ → System
  moves_to r name size staged s i =
      put_back s i (move sum256 describe r name size staged (view s i))

  abbrev pub acknowledges_to : Round → ℕ → System → ℕ → System
  acknowledges_to r size s i = put_back s i (acknowledge sum256 describe r size (view s i))

  module _ (length-sum256 : (b : Bytes) → length (sum256 b) ≡ hash_size) where
    Step-Changes :
        (u w : System) (q : FilePath)
        → ((i : ℕ) → IsWork sum256 u.disk (u.handlers i) (u.handlers i).phase)
        → is_top q ≡ true
        → Step sum256 describe u w
        → Changes u w q
    unfolding accept_failed halt
    Step-Changes u _ q work top (accepts e) = same-Changes u _ q refl
    Step-Changes u _ q work top (accept_fails now e) =
        same-Changes u _ q (elim (Bool-cases u.server.stopped) [
          | inl stop ↦ simp stop refl
          | inr goes ↦ simp goes refl
        ])
    Step-Changes u _ q work top (lists e) = same-Changes u _ q refl
    Step-Changes u _ q work top (adds e) = same-Changes u _ q refl
    Step-Changes u _ q work top (loads_count e) = same-Changes u _ q refl
    Step-Changes u _ q work top (publishes_count e) = same-Changes u _ q refl
    Step-Changes u _ q work top (spawns src dst bytes e) = same-Changes u _ q refl
    Step-Changes u _ q work top (handles i {x} lt act) =
        let m = Acts-Moves sum256 length-sum256 describe i (view u i) x (work i) act in
        (
          elim (m.now q top) [ inl same ↦ inl same | inr places ↦ inr (renames i lt act places) ],
          m.after_crash q top,
        )
    Step-Changes u _ q work top halts = same-Changes u _ q refl

    Step-now :
        (s u w : System) (q : FilePath) (file : File)
        → Leads s u
        → Step sum256 describe u w
        → (w.disk.live q ≡ u.disk.live q) ⊎ Renames u q w
        → Holds s u q file (u.disk.live q)
        → Holds s w q file (w.disk.live q)
    Step-now s u w q file leads step (inl same) h = stays q file (u.disk.live q) _ step same h
    Step-now s u w q file leads step (inr new) h =
        inr (record {
          before = u;
          behind = w;
          since = leads;
          step = new;
          file_is = refl;
          until = here;
        })

    -- Whether the file is there now, from a system on that the first one leads to.
    Leads-now :
        (first : Disk) (s u : System) (q : FilePath) (file : File)
        → Reaches sum256 describe first s
        → is_top q ≡ true
        → Holds s s q file (s.disk.live q)
        → Leads s u
        → Holds s u q file (u.disk.live q)
    Leads-now first s _ q file reached top h here = h
    Leads-now first s _ q file reached top h (next {t} {u} leads step) =
        let safe =
          Reaches-IsIsolated sum256 length-sum256 describe first t
            (Leads-Reaches first leads reached) in
        Step-now s t u q file leads step (Step-Changes t u q safe.work top step).0
          (Leads-now first s t q file reached top h leads)

    -- And after a crash, too.
    Leads-IsLasting :
        (first : Disk) (s v u : System) (q : FilePath) (file : File)
        → Reaches sum256 describe first s
        → is_top q ≡ true
        → Leads s v
        → IsLasting s v q file
        → Leads v u
        → IsLasting s u q file
    Leads-IsLasting first s v _ q file reached top early h here = h
    Leads-IsLasting first s v _ q file reached top early h (next {t} {u} leads step) =
        let before = Leads-Leads early leads in
        let safe =
          Reaches-IsIsolated sum256 length-sum256 describe first t
            (Leads-Reaches first before reached) in
        let (live, stable) = Step-Changes t u q safe.work top step in
        let old = Leads-IsLasting first s v t q file reached top early h leads in
        let now = Step-now s t u q file before step live old.now in
        record {
          now = now;
          after_crash = elim stable [
            | inl same ↦ stays q file (t.disk.stable q) _ step same old.after_crash
            | inr synced ↦ subst (Holds s u q file) (sym synced) now
          ];
        }

    -- If a handler has renamed a file to its name, and has then answered it by ACK, with any steps of the
    -- other goroutines between the two and behind them, and wherever calls fail: the file at that
    -- name, now and after a crash, is the content that the client has sent under it, complete and
    -- with its digest; or it has come there by a later rename of some handler, complete as well. The
    -- digest function gives 32 bytes.
    pub commit-IsLasting :
        (first : Disk) (s v u : System) (i : ℕ) (r r' : Round) (name : Bytes) (size : ℕ)
        (staged : FilePath)
        → Reaches sum256 describe first s
        → i < s.accepted
        → (s.handlers i).phase ≡ committing name size staged
        → (move sum256 describe r name size staged (view s i)).handler.phase ≡ placed name size
        → Leads (moves_to r name size staged s i) v
        → i < v.accepted
        → (v.handlers i).phase ≡ placed name size
        → (acknowledge sum256 describe r' size (view v i)).handler.dst.written
          ≡ (v.handlers i).dst.written ++ (ack_byte ∷ [])
        → Leads (acknowledges_to r' size v i) u
        → (content : Bytes) × Within
            (header_bytes name (length content) ++ (content ++ sum256 content))
            (s.handlers i).sent
          × IsLasting
              (moves_to r name size staged s i)
              u
              (target_path name)
              (record { content = content; flushed = true })
    unfolding move acknowledge
    commit-IsLasting first s v u i r r' name size staged reached lt at_phase moved_on early lt'
          behind answered leads =
        let safe = Reaches-IsIsolated sum256 length-sum256 describe first s reached in
        let (rest, valid, path, (content, file, within)) : IsWork sum256 s.disk (s.handlers i)
            (committing name size staged) =
          rw at_phase at (safe.work i) in
        let q = target_path name in
        let s1 = moves_to r name size staged s i in
        let reached1 = later reached (handles i lt (moves r at_phase)) in
        let file1 : File = record { content = content; flushed = true } in
        let there =
          renamed-live r name size staged (view s i) (record { content = content; flushed = false })
            (move_in r.faults staged name (session (view s i)))
            (move_in-Outcome r.faults staged name (session (view s i))) file moved_on in
        let now = Leads-now first s1 v q file1 reached1 refl (inl there) early in
        let done =
          acknowledged r' size v.server.max_size (view v i) (persist r'.faults (session (view v i)))
            (persist-Outcome r'.faults (session (view v i))) answered in
        let disk_is : (acknowledges_to r' size v i).disk ≡ (kept (session (view v i))).disk =
          acknowledge-disk sum256 length-sum256 describe r' size (view v i)
          ∙ ap (λ (t : Session). t.disk) done in
        let step : Step sum256 describe v (acknowledges_to r' size v i) =
          handles i lt' (acknowledges r' behind) in
        (
          content,
          within,
          Leads-IsLasting first s1 (acknowledges_to r' size v i) u q file1 reached1 refl
              (next early step)
              (record {
                now =
                    stays q file1 (v.disk.live q) _ step (ap (λ (d : Disk). d.live q) disk_is) now;
                after_crash =
                    stays q file1 (v.disk.live q) _ step (ap (λ (d : Disk). d.stable q) disk_is)
                      now;
              })
              leads,
        )
