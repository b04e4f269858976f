-- ===== src/Sender/Worker/Draining.antt =====
-- The loop of workerLoop in internal/sender/client.go, turn after turn, while nothing is pushed.
use go_xport.Common.{
  ℕ, suc, ◌+◌, ◌-◌, ◌<◌, ◌≡◌, refl, sym, subst, ◌∙◌, Bool, false, ◌||◌, List, [], ◌∷◌, Bytes, equal,
  equal_comm, leb, Bool-cases, inl, inr, arith, length,
}
use go_xport.Monitor.Tracker
use go_xport.Monitor.Tracker.{record_error}
use go_xport.Sender.Folder.{Folder, FolderFaults}
use go_xport.Sender.Items.{FileItem, Sorter, is_listed, ||-false}
use go_xport.Sender.Queue.{
  Queue, put, update_failed_count, pop, pop_from, record_success, record_failure, requeue,
  quarantine,
}
use go_xport.Sender.Queue.Invariant.{IsQueue, put_self, pop-IsQueue}
use go_xport.Sender.Transfer.{transfer_file}
use go_xport.Sender.Worker.{
  AfterAction, Pool, Turn, goes_on, waits, returns, After, with_tracker, fail_item, not_connected,
  settle, work_item, after_pop, work, go_on, worker_loop,
}
use go_xport.Sender.Worker.Invariant.{with_tracker-IsQueue, work-IsQueue}
use go_xport.Wire.Io.{Result, ok, err}
use mathlib.Core.List.{Permᴰ}

-- The attempts that are left for the listed files.
abbrev pub tries_left : ℕ → (Bytes → ℕ) → List FileItem → ℕ
tries_left most tries [] = 0
tries_left most tries (item ∷ items) = (most - tries item.filename) + tries_left most tries items

abbrev pub attempts_left : Queue → ℕ
attempts_left q = tries_left q.max_attempts q.attempts q.items

tries_left-Perm :
    (most : ℕ) (tries : Bytes → ℕ) {xs ys : List FileItem}
    → Permᴰ xs ys
    → tries_left most tries xs ≡ tries_left most tries ys
tries_left-Perm most tries Permᴰ.nil = refl
tries_left-Perm most tries (Permᴰ.cons e d) = rw (e, tries_left-Perm most tries d)
tries_left-Perm most tries (Permᴰ.swap e1 e2) = rw (sym e1, sym e2) (omega arith)
tries_left-Perm most tries (Permᴰ.trans d1 d2) =
    tries_left-Perm most tries d1 ∙ tries_left-Perm most tries d2

tries_left-put :
    (most : ℕ) (tries : Bytes → ℕ) (name : Bytes) (count : ℕ) (items : List FileItem)
    → is_listed name items ≡ false
    → tries_left most (put tries name count) items ≡ tries_left most tries items
unfolding is_listed
tries_left-put most tries name count [] h = refl
tries_left-put most tries name count (item ∷ items) h =
    let (ne, rest) = ||-false (equal name item.filename) (is_listed name items) h in
    rw (equal_comm item.filename name, ne, tries_left-put most tries name count items rest) refl

module _ (sorter : Sorter) (f : FolderFaults) (item : FileItem) where
  quarantine-attempts_left :
      (q : Queue) (folder : Folder)
      → is_listed item.filename q.items ≡ false
      → attempts_left (quarantine f item (q, folder)).0 ≡ attempts_left q
  unfolding quarantine update_failed_count
  quarantine-attempts_left q folder h = elim (Bool-cases f.read_dir) [
    | inl e ↦ rw e (tries_left-put q.max_attempts q.attempts item.filename 0 q.items h)
    | inr e ↦ rw e (tries_left-put q.max_attempts q.attempts item.filename 0 q.items h)
  ]

  requeue-attempts_left :
      (q : Queue)
      → q.in_queue item.filename ≡ false
      → attempts_left (requeue sorter item q)
        ≡ (q.max_attempts - q.attempts item.filename) + attempts_left q
  unfolding requeue
  requeue-attempts_left q away =
      rw away (tries_left-Perm q.max_attempts q.attempts (sorter.sort-Perm (item ∷ q.items)))

  -- A failure takes one of the file's attempts, or gives the file up.
  record_failure-attempts_left :
      (q : Queue) (folder : Folder)
      → IsQueue q
      → q.in_queue item.filename ≡ false
      → attempts_left (record_failure sorter f item (q, folder)).1.0
        < (q.max_attempts - q.attempts item.filename) + attempts_left q
  unfolding record_failure
  record_failure-attempts_left q folder h away =
      let count = suc (q.attempts item.filename) in
      let tried : Queue = record q { attempts = put q.attempts item.filename count } in
      let out = sym (h.keys item.filename) ∙ away in
      let same : attempts_left tried ≡ attempts_left q =
        tries_left-put q.max_attempts q.attempts item.filename count q.items out in
      let few = h.tries item.filename in
      elim (Bool-cases (leb q.max_attempts count)) [
        | inl e ↦ rw (e, quarantine-attempts_left tried folder out, same) (omega (arith, few))
        | inr e ↦
            rw (e, requeue-attempts_left tried away, same, put_self q.attempts item.filename count)
              (omega (arith, few))
      ]

-- The worker has returned, or it blocks in Pop, as the queue is empty and still running.
pub data Drains (a : After) : Type 0 where
  ended : a.step ≡ returns → Drains a
  idle : a.step ≡ waits → a.pool.queue.items ≡ [] → a.pool.queue.stopped ≡ false → Drains a

-- A turn ends the loop so, or uses up attempts.
data Spends (before : ℕ) (a : After) : Type 0 where
  drained : Drains a → Spends before a
  spent : a.step ≡ goes_on → attempts_left a.pool.queue < before → Spends before a

module _ (sum256 : Bytes → Bytes) (sorter : Sorter) (after_action : AfterAction) where
  fail_item-attempts_left :
      (turn : Turn) (item : FileItem) (p : Pool)
      → IsQueue p.queue
      → p.queue.in_queue item.filename ≡ false
      → attempts_left (fail_item sum256 sorter after_action turn item p).1.queue
        < (p.queue.max_attempts - p.queue.attempts item.filename) + attempts_left p.queue
  unfolding fail_item record_error
  fail_item-attempts_left turn item p h away =
      record_failure-attempts_left sorter turn.faults item
        (with_tracker (record_error turn.now) p.queue) p.folder
        (with_tracker-IsQueue (record_error turn.now) p.queue refl refl h) away

  not_connected-Spends :
      (turn : Turn) (item : FileItem) (p : Pool)
      → IsQueue p.queue
      → p.queue.in_queue item.filename ≡ false
      → Spends
          ((p.queue.max_attempts - p.queue.attempts item.filename) + attempts_left p.queue)
          (not_connected sum256 sorter after_action turn item p)
  unfolding not_connected
  not_connected-Spends turn item p h away = elim (Bool-cases turn.halted_later) [
    | inl e ↦ drained (ended (rw e refl))
    | inr e ↦ spent (rw e refl) (fail_item-attempts_left turn item p h away)
  ]

  settle-Spends :
      (turn : Turn) (item : FileItem) (p : Pool) (r : Result (Unit {0}))
      → IsQueue p.queue
      → p.queue.in_queue item.filename ≡ false
      → Spends
          ((p.queue.max_attempts - p.queue.attempts item.filename) + attempts_left p.queue)
          (settle sum256 sorter after_action turn item p r)
  unfolding settle Tracker.record_success record_success
  settle-Spends turn item p (ok _) h away =
      let few = h.tries item.filename in
      spent refl (
        rw
          (tries_left-put p.queue.max_attempts p.queue.attempts item.filename 0 p.queue.items
            (sym (h.keys item.filename) ∙ away))
          (omega (arith, few)))
  settle-Spends turn item p (err e) h away = spent refl (fail_item-attempts_left turn item p h away)

  work_item-Spends :
      (turn : Turn) (connected : Bool) (item : FileItem) (p : Pool)
      → IsQueue p.queue
      → p.queue.in_queue item.filename ≡ false
      → Spends
          ((p.queue.max_attempts - p.queue.attempts item.filename) + attempts_left p.queue)
          (work_item sum256 sorter after_action turn connected item p)
  unfolding work_item
  work_item-Spends turn connected item p h away = elim (Bool-cases (connected || turn.dials)) [
    | inl e ↦ rw e (
        settle-Spends turn item p (transfer_file sum256 turn.opened item.filename turn.link).0 h
          away)
    | inr e ↦ rw e (not_connected-Spends turn item p h away)
  ]

  after_pop-Spends :
      (turn : Turn) (connected : Bool) (p : Pool) (items : List FileItem)
      → p.queue.items ≡ items
      → IsQueue p.queue
      → IsQueue (pop_from items p.queue).1
      → Spends
          (attempts_left p.queue)
          (after_pop sum256 sorter after_action turn connected p (pop_from items p.queue))
  unfolding after_pop
  after_pop-Spends turn connected p [] e h hq = elim (Bool-cases p.queue.stopped) [
    | inl s ↦ drained (ended (rw s refl))
    | inr s ↦ drained (simp s (idle refl e s))
  ]
  after_pop-Spends turn connected p (item ∷ items) e h hq =
      subst
        (λ is.
          Spends (tries_left p.queue.max_attempts p.queue.attempts is) (
            after_pop sum256 sorter after_action turn connected p
              (pop_from (item ∷ items) p.queue)))
        (sym e)
        (work_item-Spends turn connected item
          (record p { queue = (pop_from (item ∷ items) p.queue).1 }) hq
          (put_self p.queue.in_queue item.filename false))

  work-Spends :
      (turn : Turn) (connected : Bool) (p : Pool)
      → IsQueue p.queue
      → Spends (attempts_left p.queue) (work sum256 sorter after_action turn connected p)
  unfolding work pop
  work-Spends turn connected p h = elim (Bool-cases turn.halted) [
    | inl e ↦ drained (ended (rw e refl))
    | inr e ↦
        simp e (after_pop-Spends turn connected p p.queue.items refl h (pop-IsQueue p.queue h))
  ]

  go_on-Drains :
      (before : ℕ) (turns : List Turn) (a : After)
      → Spends before a
      → before < suc (length turns)
      → ((connected : Bool) (p : Pool)
          → attempts_left p.queue < length turns
          → IsQueue p.queue
          → Drains (worker_loop sum256 sorter after_action turns connected p))
      → IsQueue a.pool.queue
      → Drains (go_on a.step a (worker_loop sum256 sorter after_action turns))
  go_on-Drains before turns a (drained (ended e)) enough rest h =
      subst (λ s. Drains (go_on s a (worker_loop sum256 sorter after_action turns))) (sym e)
        (ended e)
  go_on-Drains before turns a (drained (idle e empty runs)) enough rest h =
      subst (λ s. Drains (go_on s a (worker_loop sum256 sorter after_action turns))) (sym e)
        (idle e empty runs)
  go_on-Drains before turns a (spent e less) enough rest h =
      subst (λ s. Drains (go_on s a (worker_loop sum256 sorter after_action turns))) (sym e)
        (rest a.connected a.pool (omega (arith, less, enough)) h)

  -- While nothing is pushed, a worker's loop ends within as many turns as the waiting files have
  -- attempts left, and one more, whatever fails: the worker has returned, or it blocks in Pop, as the
  -- queue is empty and still running. The queue is well-formed at first.
  pub worker_loop-Drains :
      (turns : List Turn) (connected : Bool) (p : Pool)
      → attempts_left p.queue < length turns
      → IsQueue p.queue
      → Drains (worker_loop sum256 sorter after_action turns connected p)
  unfolding worker_loop
  worker_loop-Drains [] connected p enough h = absurd (omega (arith, enough))
  worker_loop-Drains (turn ∷ turns) connected p enough h =
      go_on-Drains (attempts_left p.queue) turns (work sum256 sorter after_action turn connected p)
        (work-Spends turn connected p h) enough (worker_loop-Drains turns)
        (work-IsQueue sum256 sorter after_action turn connected p h)
