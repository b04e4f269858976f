-- ===== src/Sender/Queue/Invariant.antt =====
-- The invariant of the queue of internal/sender/queue.go, and that each method keeps it.
use go_xport.Common.{
  ℕ, suc, ◌<◌, ◌≡◌, refl, sym, subst, ap, ◌∙◌, Bool, true, false, ◌||◌, List, [], ◌∷◌, ◌++◌, Bytes,
  equal, equal_iff, equal_refl, leb, leb→lt, length, Bool-cases, inl, inr, arith,
}
use go_xport.Monitor.Tracker.{Tracker, set_queue_counts}
use go_xport.Sender.Folder.{Folder, FolderFaults}
use go_xport.Sender.Items.{
  FileItem, Sorter, is_listed, is_listed-Perm, is_listed-snoc, Distinct, Distinct-Perm,
  Distinct-snoc, IsSorted, ||-false,
}
use go_xport.Sender.Queue.{
  Queue, put, counted, update_failed_count, new_queue, pop, pop_from, push, record_success,
  record_failure, requeue, quarantine, stop,
}
use mathlib.Core.List.Permᴰ

-- The keys of `in_queue` are the names of the items, each there once, oldest first; no file has
-- used up its attempts; the tracker shows both counts.
pub record IsQueue (q : Queue) : Type 0 where
  pub keys : (name : Bytes) → q.in_queue name ≡ is_listed name q.items
  pub distinct : Distinct q.items
  pub sorted : IsSorted q.items
  pub tries : (name : Bytes) → q.attempts name < q.max_attempts
  pub waiting : q.tracker.waiting_files ≡ length q.items
  pub parked : q.tracker.failed_files ≡ q.failed_count

pub put_self : {A : Type 0} (m : Bytes → A) (key : Bytes) (value : A) → put m key value key ≡ value
put_self m key value = rw (equal_refl key)

-- A map with a key set is good where the old one is, and the new value.
pub put_all :
    {A : Type 0} (P : Bytes → A → Type 0) (m : Bytes → A) (key : Bytes) (value : A)
    → ((k : Bytes) → equal k key ≡ false → P k (m k))
    → P key value
    → (k : Bytes) → P k (put m key value k)
put_all P m key value old new k = elim (Bool-cases (equal k key)) [
  | inl e ↦
      subst (λ k'. P k' (put m key value k')) (sym ((equal_iff k key).0 e))
        (subst (P key) (sym (put_self m key value)) new)
  | inr e ↦ rw e (old k e)
]

module _ (sorter : Sorter) where
  added-IsQueue :
      (item : FileItem) (q : Queue) (extra : List FileItem)
      → IsQueue q
      → Distinct extra
      → ((name : Bytes) → is_listed name extra ≡ equal name item.filename || is_listed name q.items)
      → IsQueue (
          counted
            (record q { items = sorter.sort extra; in_queue = put q.in_queue item.filename true }))
  unfolding set_queue_counts
  added-IsQueue item q extra h distinct listed = record {
    keys = λ name.
        put_all (λ k b. b ≡ equal k item.filename || is_listed k q.items) q.in_queue item.filename
          true (λ k ne. rw ne (h.keys k)) (rw (equal_refl item.filename)) name
        ∙ sym (is_listed-Perm name (sorter.sort-Perm extra) ∙ listed name);
    distinct = Distinct-Perm (Permᴰ.symm (sorter.sort-Perm extra)) distinct;
    sorted = sorter.sort-IsSorted extra;
    tries = h.tries;
    waiting = refl;
    parked = refl;
  }

  pub push-IsQueue : (item : FileItem) (q : Queue) → IsQueue q → IsQueue (push sorter item q)
  unfolding push
  push-IsQueue item q h = elim (Bool-cases (q.stopped || q.in_queue item.filename)) [
    | inl e ↦ rw e h
    | inr e ↦ rw e (
        added-IsQueue item q (q.items ++ (item ∷ [])) h
          (Distinct-snoc q.items item h.distinct
            (sym (h.keys item.filename) ∙ (||-false q.stopped (q.in_queue item.filename) e).1))
          (λ name. is_listed-snoc name q.items item))
  ]

  requeue-IsQueue : (item : FileItem) (q : Queue) → IsQueue q → IsQueue (requeue sorter item q)
  unfolding requeue is_listed
  requeue-IsQueue item q h = elim (Bool-cases (q.in_queue item.filename)) [
    | inl e ↦ rw e h
    | inr e ↦ rw e (
        added-IsQueue item q (item ∷ q.items) h (sym (h.keys item.filename) ∙ e, h.distinct)
          (λ name. refl))
  ]

pop_from-IsQueue :
    (items : List FileItem) (q : Queue) → q.items ≡ items → IsQueue q → IsQueue (pop_from items q).1
unfolding is_listed set_queue_counts
pop_from-IsQueue [] q e h = h
pop_from-IsQueue (item ∷ items) q e h =
    let distinct = subst Distinct e h.distinct in
    record {
      keys = λ name.
          put_all (λ k b. b ≡ is_listed k items) q.in_queue item.filename false
            (λ k ne. h.keys k ∙ ap (is_listed k) e ∙ rw ne refl) (sym distinct.0) name;
      distinct = distinct.1;
      sorted = (subst IsSorted e h.sorted).1;
      tries = h.tries;
      waiting = refl;
      parked = refl;
    }

pub pop-IsQueue : (q : Queue) → IsQueue q → IsQueue (pop q).1
unfolding pop
pop-IsQueue q h = pop_from-IsQueue q.items q refl h

-- One file's attempts set, within the limit.
tried-IsQueue :
    (q : Queue) (name : Bytes) (count : ℕ)
    → IsQueue q
    → count < q.max_attempts
    → IsQueue (record q { attempts = put q.attempts name count })
tried-IsQueue q name count h small = record {
  keys = h.keys;
  distinct = h.distinct;
  sorted = h.sorted;
  tries = put_all (λ k n. n < q.max_attempts) q.attempts name count (λ k ne. h.tries k) small;
  waiting = h.waiting;
  parked = h.parked;
}

pub record_success-IsQueue :
    (name : Bytes) (q : Queue) → IsQueue q → IsQueue (record_success name q)
unfolding record_success
record_success-IsQueue name q h = tried-IsQueue q name 0 h (omega (arith, h.tries name))

pub stop-IsQueue : (q : Queue) → IsQueue q → IsQueue (stop q)
unfolding stop
stop-IsQueue q h = record {
  keys = h.keys;
  distinct = h.distinct;
  sorted = h.sorted;
  tries = h.tries;
  waiting = h.waiting;
  parked = h.parked;
}

-- What a recount needs of the queue before it.
counted-IsQueue :
    (q : Queue)
    → ((name : Bytes) → q.in_queue name ≡ is_listed name q.items)
    → Distinct q.items
    → IsSorted q.items
    → ((name : Bytes) → q.attempts name < q.max_attempts)
    → (unreadable : Bool) (folder : Folder) → IsQueue (update_failed_count unreadable folder q)
unfolding update_failed_count set_queue_counts
counted-IsQueue q keys distinct sorted tries true folder = record {
  keys = keys;
  distinct = distinct;
  sorted = sorted;
  tries = tries;
  waiting = refl;
  parked = refl;
}
counted-IsQueue q keys distinct sorted tries false folder = record {
  keys = keys;
  distinct = distinct;
  sorted = sorted;
  tries = tries;
  waiting = refl;
  parked = refl;
}

pub new_queue-IsQueue :
    (max_attempts : ℕ) (tracker : Tracker) (unreadable : Bool) (folder : Folder)
    → IsQueue (new_queue max_attempts tracker unreadable folder)
unfolding new_queue is_listed
new_queue-IsQueue max_attempts tracker unreadable folder =
    counted-IsQueue _ (λ name. refl) tt tt (λ name. ground arith) unreadable folder

quarantine-IsQueue :
    (f : FolderFaults) (item : FileItem) (q : Queue) (folder : Folder)
    → IsQueue q
    → q.in_queue item.filename ≡ false
    → (count : ℕ)
    → IsQueue
        (quarantine f item (record q { attempts = put q.attempts item.filename count }, folder)).0
unfolding quarantine
quarantine-IsQueue f item q folder h away count =
    counted-IsQueue _
      (put_all (λ k b. b ≡ is_listed k q.items) q.in_queue item.filename false (λ k ne. h.keys k)
        (sym away ∙ h.keys item.filename))
      h.distinct h.sorted
      (put_all (λ k n. n < q.max_attempts) (put q.attempts item.filename count) item.filename 0
        (λ k ne. rw ne (h.tries k)) (omega (arith, h.tries item.filename)))
      f.read_dir _

pub record_failure-IsQueue :
    (sorter : Sorter) (f : FolderFaults) (item : FileItem) (q : Queue) (folder : Folder)
    → IsQueue q
    → q.in_queue item.filename ≡ false
    → IsQueue (record_failure sorter f item (q, folder)).1.0
unfolding record_failure
record_failure-IsQueue sorter f item q folder h away =
    elim (Bool-cases (leb q.max_attempts (suc (q.attempts item.filename)))) [
      | inl e ↦ rw e (quarantine-IsQueue f item q folder h away (suc (q.attempts item.filename)))
      | inr e ↦ rw e (
          requeue-IsQueue sorter item _ (
            tried-IsQueue q item.filename (suc (q.attempts item.filename)) h
              (leb→lt q.max_attempts (suc (q.attempts item.filename)) e)))
    ]
