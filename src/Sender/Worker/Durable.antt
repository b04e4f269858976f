-- ===== src/Sender/Worker/Durable.antt =====
-- A worker of internal/sender/client.go gives up a file for sent only once the receiver of
-- internal/receiver holds it.
use go_xport.Common.{
  ℕ, suc, ◌+◌, ◌^◌, ◌≤◌, ◌<◌, ◌≡◌, sym, subst, ap, ◌∙◌, Bool, true, false, List, [], ◌∷◌, Bytes,
  IsBytes, some, length, arith, inl, inr,
}
use go_xport.Receiver.Commit.{Session}
use go_xport.Receiver.Commit.Durability.{IsDurable}
use go_xport.Receiver.Connection.{Round, serve}
use go_xport.Sender.Folder.{holds}
use go_xport.Sender.Items.{FileItem, Sorter}
use go_xport.Sender.Transfer.{transfer_file}
use go_xport.Sender.Transfer.Acknowledged.{transfer_file-IsDurable}
use go_xport.Sender.Transfer.Sends.{settled}
use go_xport.Sender.Worker.{AfterAction, Pool, Turn, work}
use go_xport.Sender.Worker.Files.{Fate, TurnFate, work-Fate}
use go_xport.Wire.Filename.{validate_filename}
use go_xport.Wire.Header.RoundTrip.{Admits}
use go_xport.Wire.Io.{ok, TransferError}
use go_xport.Wire.Stream.{hash_size}

module _ (sum256 : Bytes → Bytes) (length-sum256 : (b : Bytes) → length (sum256 b) ≡ hash_size)
    (describe : TransferError → Bytes) (max_size : ℕ) where
  -- One turn and one round of the receiver, over a new connection between them: the file is not being
  -- written, and each end is given what the other one writes.
  pub record Joined (name content : Bytes) (turn : Turn) (r : Round) (s : Session) : Type 0 where
    pub opened : turn.opened ≡ some (settled sum256 length-sum256 content)
    pub takes_message : length name + 14 + (length content + hash_size) ≤ turn.link.out.room
    pub valid : validate_filename name ≡ ok tt
    pub small : length content < 2 ^ 64
    pub admits : Admits max_size (length content)
    pub bytes : IsBytes s.src.input
    pub nothing_sent : turn.link.out.written ≡ []
    pub nothing_answered : s.dst.written ≡ []
    pub sent :
        s.src.input
        ≡ (transfer_file sum256
            (some (settled sum256 length-sum256 content))
            name
            turn.link).1.out.written
    pub answered : turn.link.back.input ≡ (serve sum256 describe max_size r s).1.dst.written

  -- If a turn of a worker meets a first item whose attempts do not run out with it, and the item's
  -- file is no longer in its place afterwards, then the receiver has made the file durable under
  -- its name, whichever calls failed at either end. The turn and the receiver's round are joined by
  -- a new connection as in `Joined`, and a digest has 32 bytes.
  pub work-IsDurable :
      (sorter : Sorter) (after_action : AfterAction) (turn : Turn) (connected : Bool) (p : Pool)
      (item : FileItem) (rest : List FileItem) (content : Bytes) (r : Round) (s : Session)
      → p.queue.items ≡ item ∷ rest
      → suc (p.queue.attempts item.filename) < p.queue.max_attempts
      → holds item.path p.folder ≡ true
      → Joined item.filename content turn r s
      → holds item.path (work sum256 sorter after_action turn connected p).pool.folder ≡ false
      → IsDurable (serve sum256 describe max_size r s).1.disk item.filename content
  work-IsDurable sorter after_action turn connected p item rest content r s head left there j gone =
      by_fate (work-Fate sum256 sorter after_action turn connected p item.path there)
    where
      by_item :
          (taken : FileItem)
          → taken ≡ item
          → Fate sum256 sorter after_action turn taken item.path p.queue
              (work sum256 sorter after_action turn connected p).pool.folder
          → IsDurable (serve sum256 describe max_size r s).1.disk item.filename content
      by_item taken same (Fate.stays h) = absurd (cc)
      by_item taken same (Fate.parked e spent h) =
          let limit : p.queue.max_attempts ≤ suc (p.queue.attempts item.filename) =
            subst (λ (i : FileItem). p.queue.max_attempts ≤ suc (p.queue.attempts i.filename)) same
              spent in
          absurd (omega arith)
      by_item taken same (Fate.sent e run h) =
          transfer_file-IsDurable sum256 length-sum256 describe max_size item.filename content r s
            turn.link j.takes_message j.valid j.small j.admits j.bytes j.nothing_sent
            j.nothing_answered j.sent j.answered
            (ap (λ o. (transfer_file sum256 o item.filename turn.link).0) (sym j.opened)
              ∙ ap (λ (i : FileItem). (transfer_file sum256 turn.opened i.filename turn.link).0)
                  (sym same)
              ∙ run)

      by_fate :
          TurnFate sum256 sorter after_action turn item.path p.queue
            (work sum256 sorter after_action turn connected p).pool.folder
          → IsDurable (serve sum256 describe max_size r s).1.disk item.filename content
      by_fate (inl h) = absurd (cc)
      by_fate (inr (taken, others, first, fate)) =
          by_item taken (let both = sym first ∙ head in ground arith) fate
