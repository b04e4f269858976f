-- ===== src/Sender/Worker/Files.antt =====
-- Which files of the watched directory a worker of internal/sender/client.go moves or deletes.
use go_xport.Common.{
  false, suc, ◌≤◌, ◌≡◌, refl, Bool, true, ◌||◌, List, [], ◌∷◌, Bytes, leb, leb→le, if◌then◌else◌,
  Bool-cases, inl, inr, ◌⊎◌,
}
use go_xport.Receiver.Disk.{FilePath}
use go_xport.Sender.Folder.{Folder, holds, sent_path, failed_path}
use go_xport.Sender.Folder.Keeps.{rename-holds, remove-holds}
use go_xport.Sender.Items.{FileItem, Sorter}
use go_xport.Sender.Queue.{Queue, blocked, closed, pop, pop_from, record_failure, quarantine}
use go_xport.Sender.Transfer.{transfer_file}
use go_xport.Sender.Worker.{
  AfterAction, delete, archive, Pool, Turn, post_commit, fail_item, not_connected, settle,
  work_item, after_pop, work,
}
use go_xport.Wire.Io.{Result, ok, err}

module _ (sum256 : Bytes → Bytes) (sorter : Sorter) (after_action : AfterAction) (turn : Turn) where
  -- What can have happened to a file once `item` was taken: nothing; or it is that item's, was sent,
  -- transferFile having returned nil, and is in `.sent` or deleted; or it is that item's, whose
  -- attempts have run out, and is in `.failed`.
  pub data Fate (item : FileItem) (path : FilePath) (q : Queue) (folder : Folder) : Type 0 where
    stays : holds path folder ≡ true → Fate item path q folder
    sent :
        path ≡ item.path
        → (transfer_file sum256 turn.opened item.filename turn.link).0 ≡ ok tt
        → (after_action ≡ delete) ⊎ (holds (sent_path item.filename) folder ≡ true)
        → Fate item path q folder
    parked :
        path ≡ item.path
        → q.max_attempts ≤ suc (q.attempts item.filename)
        → holds (failed_path item.filename) folder ≡ true
        → Fate item path q folder

  post_commit-Fate :
      (action : AfterAction) (item : FileItem) (path : FilePath) (folder : Folder)
      → holds path folder ≡ true
      → (holds path (post_commit action turn.faults item folder).1 ≡ true)
        ⊎ ((path ≡ item.path)
            × ((action ≡ delete)
                ⊎ (holds (sent_path item.filename) (post_commit action turn.faults item folder).1
                    ≡ true)))
  unfolding post_commit
  post_commit-Fate delete item path folder h =
      elim (remove-holds turn.faults.remove_file item.path path folder h) [
        | inl kept ↦ inl kept
        | inr gone ↦ inr (gone, inl refl)
      ]
  post_commit-Fate archive item path folder h = elim (Bool-cases turn.faults.make_dir) [
    | inl e ↦ inl (rw e h)
    | inr e ↦
        rw e
          (elim (rename-holds turn.faults.rename_file item.path (sent_path item.filename) path
            folder h) [ inl kept ↦ inl kept | inr moved ↦ inr (moved.0, inr moved.1) ])
  ]

  fail_item-Fate :
      (item : FileItem) (path : FilePath) (p : Pool)
      → holds path p.folder ≡ true
      → Fate item path p.queue (fail_item sum256 sorter after_action turn item p).1.folder
  unfolding fail_item record_failure quarantine
  fail_item-Fate item path p h =
      elim (Bool-cases (leb p.queue.max_attempts (suc (p.queue.attempts item.filename)))) [
        | inl e ↦
            rw e
              (elim (rename-holds turn.faults.rename_file item.path (failed_path item.filename) path
                p.folder h) [
                  | inl kept ↦ Fate.stays kept
                  | inr moved ↦
                      Fate.parked moved.0
                        (leb→le p.queue.max_attempts (suc (p.queue.attempts item.filename)) e)
                        moved.1
                ])
        | inr e ↦ rw e (Fate.stays h)
      ]

  settle-Fate :
      (item : FileItem) (path : FilePath) (p : Pool) (r : Result (Unit {0}))
      → (transfer_file sum256 turn.opened item.filename turn.link).0 ≡ r
      → holds path p.folder ≡ true
      → Fate item path p.queue (settle sum256 sorter after_action turn item p r).pool.folder
  unfolding settle
  settle-Fate item path p (ok tt) run h =
      elim (post_commit-Fate after_action item path p.folder h) [
        | inl kept ↦ Fate.stays kept
        | inr gone ↦ Fate.sent gone.0 run gone.1
      ]
  settle-Fate item path p (err e) run h = fail_item-Fate item path p h

  work_item-Fate :
      (connected : Bool) (item : FileItem) (path : FilePath) (p : Pool)
      → holds path p.folder ≡ true
      → Fate item path p.queue
          (work_item sum256 sorter after_action turn connected item p).pool.folder
  unfolding work_item not_connected
  work_item-Fate connected item path p h = elim (Bool-cases (connected || turn.dials)) [
    | inl e ↦ rw e (
        settle-Fate item path p (transfer_file sum256 turn.opened item.filename turn.link).0 refl h)
    | inr e ↦ rw e (fail_item-Fate item path p h)
  ]

  -- The item comes from the queue before, whose attempts Pop leaves alone.
  before_pop :
      (item : FileItem) (path : FilePath) (q : Queue) (folder : Folder) (next : Queue)
      → next.attempts ≡ q.attempts
      → next.max_attempts ≡ q.max_attempts
      → Fate item path next folder
      → Fate item path q folder
  before_pop item path q folder next attempts limit (Fate.stays h) = Fate.stays h
  before_pop item path q folder next attempts limit (Fate.sent e run h) = Fate.sent e run h
  before_pop item path q folder next attempts limit (Fate.parked e spent h) =
      Fate.parked e (rw⁻¹ (attempts, limit) spent) h

  -- The fate of a file in a turn: it stays, or the first item of the queue has been taken.
  abbrev pub TurnFate : FilePath → Queue → Folder → Type 0
  TurnFate path q folder =
      (holds path folder ≡ true)
      ⊎ ((item : FileItem) × (rest : List FileItem) × (q.items ≡ item ∷ rest)
          × Fate item path q folder)

  after_pop-Fate :
      (connected : Bool) (path : FilePath) (p : Pool) (items : List FileItem)
      → p.queue.items ≡ items
      → holds path p.folder ≡ true
      → TurnFate path p.queue
          (after_pop sum256 sorter after_action turn connected p
            (pop_from items p.queue)).pool.folder
  unfolding after_pop
  after_pop-Fate connected path p [] e h = idle p.queue.stopped
    where
      idle :
          (b : Bool)
          → TurnFate path p.queue
              (after_pop sum256 sorter after_action turn connected p
                ((if b then closed else blocked), p.queue)).pool.folder
      idle true = inl h
      idle false = inl h
  after_pop-Fate connected path p (item ∷ items) e h =
      let next = (pop_from (item ∷ items) p.queue).1 in
      inr (
        item,
        items,
        e,
        before_pop item path p.queue _ next refl refl
            (work_item-Fate connected item path (record p { queue = next }) h),
      )

  -- Whatever happens in a turn of a worker, each file of the watched directory stays where it is,
  -- or it is that of the first item of the queue, and of two cases one holds: transferFile has
  -- returned nil for it, and it is in `.sent`, or files are to be deleted; or its attempts have run
  -- out, and it is in `.failed`.
  pub work-Fate :
      (connected : Bool) (p : Pool) (path : FilePath)
      → holds path p.folder ≡ true
      → TurnFate path p.queue (work sum256 sorter after_action turn connected p).pool.folder
  unfolding work pop
  work-Fate connected p path h = elim (Bool-cases turn.halted) [
    | inl e ↦ rw e (inl h)
    | inr e ↦ simp e (after_pop-Fate connected path p p.queue.items refl h)
  ]
