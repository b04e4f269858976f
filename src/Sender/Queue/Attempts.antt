-- ===== src/Sender/Queue/Attempts.antt =====
-- How often a file is tried before internal/sender/queue.go quarantines it.
use go_xport.Common.{
  equal_refl, ℕ, zero, suc, ◌+◌, ◌<◌, ◌≤◌, ◌≡◌, refl, ap, ◌∙◌, Bool, true, false, List, [], ◌∷◌,
  ◌++◌, Bytes, replicate, le→leb, lt→leb, Bool-cases, inl, inr, arith,
}
use go_xport.Receiver.Disk.{same_path_refl}
use go_xport.Sender.Folder.{Folder, FolderFaults, rename, failed_path, holds}
use go_xport.Sender.Items.{FileItem, Sorter, is_listed, is_listed-Perm}
use go_xport.Sender.Queue.{
  counted, Queue, put, update_failed_count, record_failure, requeue, quarantine,
}
use go_xport.Sender.Queue.Invariant.{put_self}

-- For a file that fails so many times, each answer of RecordFailure, with whether the file waits in the
-- queue behind it; `between` is what happens to the queue after each failure.
abbrev pub fail_times :
    (Queue → Queue)
    → Sorter
    → FolderFaults
    → FileItem
    → ℕ
    → Queue × Folder
    → List (Bool × Bool) × (Queue × Folder)
fail_times between sorter f item zero s = ([], s)
fail_times between sorter f item (suc n) s =
    let (r, (q, folder)) = record_failure sorter f item s in
    let (rs, last) = fail_times between sorter f item n (between q, folder) in
    ((r, is_listed item.filename q.items) ∷ rs, last)

-- A file that a worker has: it is not in the queue.
pub record IsAway (name : Bytes) (q : Queue) : Type 0 where
  pub no_key : q.in_queue name ≡ false
  pub not_listed : is_listed name q.items ≡ false

-- The queue after a failure, and once the file has been taken out again.
pub record Retakes (name : Bytes) (q next : Queue) : Type 0 where
  pub attempts : next.attempts name ≡ q.attempts name
  pub max_attempts : next.max_attempts ≡ q.max_attempts
  pub away : IsAway name next

module _ (sorter : Sorter) (f : FolderFaults) (item : FileItem) where
  -- A failure below the limit is counted, the item is back in the queue, and the folder stays.
  record_failure-again :
      (q : Queue) (folder : Folder)
      → IsAway item.filename q
      → suc (q.attempts item.filename) < q.max_attempts
      → (next : Queue) × (record_failure sorter f item (q, folder) ≡ (false, (next, folder)))
        × (is_listed item.filename next.items ≡ true)
        × (next.attempts item.filename ≡ suc (q.attempts item.filename))
        × (next.max_attempts ≡ q.max_attempts)
  unfolding record_failure requeue is_listed
  record_failure-again q folder away small = (
    counted (record q {
      attempts = put q.attempts item.filename (suc (q.attempts item.filename));
      items = sorter.sort (item ∷ q.items);
      in_queue = put q.in_queue item.filename true;
    }),
    rw (lt→leb q.max_attempts (suc (q.attempts item.filename)) small, away.no_key) refl,
    is_listed-Perm item.filename (sorter.sort-Perm (item ∷ q.items))
        ∙ rw (equal_refl item.filename) refl,
    put_self q.attempts item.filename (suc (q.attempts item.filename)),
    refl,
  )

  -- The failure that reaches the limit.
  record_failure-last :
      (q : Queue) (folder : Folder)
      → q.max_attempts ≤ suc (q.attempts item.filename)
      → record_failure sorter f item (q, folder) ≡ (
        true,
        quarantine f item (
          record q { attempts = put q.attempts item.filename (suc (q.attempts item.filename)) },
          folder,
        ),
      )
  unfolding record_failure
  record_failure-last q folder large =
      rw (le→leb q.max_attempts (suc (q.attempts item.filename)) large)

  quarantine-moves :
      (q : Queue) (folder : Folder)
      → f.rename_file ≡ false
      → holds item.path folder ≡ true
      → holds (failed_path item.filename) (quarantine f item (q, folder)).1 ≡ true
  unfolding quarantine rename
  quarantine-moves q folder works there =
      rw (works, there, same_path_refl (failed_path item.filename))

  quarantine-forgets :
      (q : Queue) (folder : Folder)
      → ((quarantine f item (q, folder)).0.attempts item.filename ≡ 0)
        × ((quarantine f item (q, folder)).0.in_queue item.filename ≡ false)
  unfolding quarantine update_failed_count
  quarantine-forgets q folder = elim (Bool-cases f.read_dir) [
    | inl e ↦ rw e (put_self q.attempts item.filename 0, put_self q.in_queue item.filename false)
    | inr e ↦ rw e (put_self q.attempts item.filename 0, put_self q.in_queue item.filename false)
  ]

  quarantine-items :
      (q : Queue) (folder : Folder) → (quarantine f item (q, folder)).0.items ≡ q.items
  unfolding quarantine update_failed_count
  quarantine-items q folder = elim (Bool-cases f.read_dir) [ inl e ↦ rw e refl | inr e ↦ rw e refl ]

  module _ (between : Queue → Queue)
      (retakes : (q : Queue) → Retakes item.filename q (between q)) where
    -- A file whose attempts are k + 1 below the limit is put back into the queue at each of the next k
    -- failures, and quarantined at the one after: then it is not in the queue, its attempts are
    -- forgotten, and the file is in `.failed`. The rename works, the file is in the directory, a worker
    -- has it at first, and what happens to the queue between the failures takes it out again and
    -- leaves its attempts alone.
    pub fail_times-quarantine :
        (k : ℕ) (q : Queue) (folder : Folder)
        → IsAway item.filename q
        → q.attempts item.filename + suc k ≡ q.max_attempts
        → f.rename_file ≡ false
        → holds item.path folder ≡ true
        → (last : Queue) × (moved : Folder) × (fail_times between sorter f item (suc k) (q, folder)
            ≡ (replicate k (false, true) ++ ((true, false) ∷ []), (between last, moved)))
          × (last.attempts item.filename ≡ 0)
          × (last.in_queue item.filename ≡ false)
          × (holds (failed_path item.filename) moved ≡ true)
    fail_times-quarantine zero q folder away e works there =
        let tried = record q {
          attempts = put q.attempts item.filename (suc (q.attempts item.filename));
        } in
        let (last, moved) = quarantine f item (tried, folder) in
        let gone : is_listed item.filename last.items ≡ false =
          ap (is_listed item.filename) (quarantine-items tried folder) ∙ away.not_listed in
        (
          last,
          moved,
          ap
                (λ (r : Bool × (Queue × Folder)).
                  ((r.0, is_listed item.filename r.1.0.items) ∷ [], (between r.1.0, r.1.1)))
                (record_failure-last q folder (omega arith))
              ∙ ap (λ (b : Bool). ((true, b) ∷ [], (between last, moved))) gone,
          (quarantine-forgets tried folder).0,
          (quarantine-forgets tried folder).1,
          quarantine-moves tried folder works there,
        )
    fail_times-quarantine (suc k) q folder away e works there =
        let (next, run, back, tries, limit) = record_failure-again q folder away (omega arith) in
        let kept = retakes next in
        let (last, moved, rest, forgot, gone, parked) =
          fail_times-quarantine k (between next) folder kept.away
            (omega (arith, kept.attempts, kept.max_attempts)) works there in
        (
          last,
          moved,
          ap
                (λ (r : Bool × (Queue × Folder)).
                  let (rs, last) =
                    fail_times between sorter f item (suc k) (between r.1.0, r.1.1) in
                  ((r.0, is_listed item.filename r.1.0.items) ∷ rs, last))
                run
              ∙ ap
                  (λ (o : List (Bool × Bool) × (Queue × Folder)).
                    ((false, is_listed item.filename next.items) ∷ o.0, o.1))
                  rest
              ∙ ap
                  (λ (b : Bool). (
                    (false, b) ∷ (replicate k (false, true) ++ ((true, false) ∷ [])),
                    (between last, moved),
                  ))
                  back,
          forgot,
          gone,
          parked,
        )
