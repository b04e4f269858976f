-- ===== src/Sender/Crew/Alone.antt =====
-- That no two workers of internal/sender/client.go ever have the same file.
use go_xport.Common.{
  ℕ, ◌≡◌, refl, sym, subst, ap, ◌∙◌, Bool, true, false, ◌||◌, List, ◌∷◌, ◌++◌, Bytes, equal,
  equal_iff, equal_refl, Bool-cases, inl, inr, ◌⊎◌,
}
use mathlib.Core.Bool.{or-true}
use go_xport.Sender.Crew.{
  Crew, new_crew, is_held, is_marked, Sighted, scanned, Move, Reaches, scans, takes, settles, stops,
  changes, made, later,
}
use go_xport.Sender.Crew.Scanning.{
  push_all-in_queue, push_all-IsQueue, remaining-keeps, stable-IsFresh, IsFresh,
}
use go_xport.Sender.Crew.Settling.{work_item-Settled}
use go_xport.Monitor.Tracker.{Tracker}
use go_xport.Sender.Folder.{Folder}
use go_xport.Sender.Items.{
  FileItem, Sorter, is_listed, is_listed-Perm-sort, Distinct, ||-false, is_listed-middle,
  Distinct-middle,
}
use go_xport.Sender.Queue.{Queue, Popped, taken, stop, new_queue, update_failed_count}
use go_xport.Sender.Queue.Invariant.{IsQueue, new_queue-IsQueue, pop-IsQueue, stop-IsQueue}
use go_xport.Sender.Queue.Order.{Pops, pop-Pops}
use go_xport.Sender.Scanner.{Entry, scan_once, visit_all, start, push_all}
use go_xport.Sender.Scanner.Stability.{OnceEach}
use go_xport.Sender.Worker.{AfterAction, Turn, work_item}
use go_xport.Sender.Worker.Invariant.{work_item-IsQueue}

-- The queue is well-formed; no two workers have files of one name; what a worker has is not in the
-- queue; and the scanner has marked every file that waits or is being sent.
pub record IsCrew (c : Crew) : Type 0 where
  pub queue : IsQueue c.pool.queue
  pub apart : Distinct c.busy
  pub away : (name : Bytes) → is_listed name c.busy ≡ true → c.pool.queue.in_queue name ≡ false
  pub marked : (name : Bytes) → is_held c name ≡ true → is_marked (c.pool.states name) ≡ true

or-elim : (a b : Bool) → a || b ≡ true → (a ≡ true) ⊎ (b ≡ true)
or-elim true b h = inl refl
or-elim false b h = inr h

not_true : (b : Bool) → (b ≡ true → ⊥) → b ≡ false
not_true true h = absurd (h refl)
not_true false h = refl

scanned-IsCrew :
    (sorter : Sorter) (entries : List Entry) (c : Crew)
    → OnceEach entries
    → ((name : Bytes) → is_held c name ≡ true → Sighted entries name)
    → IsCrew c
    → IsCrew (scanned sorter entries c)
unfolding scanned scan_once
scanned-IsCrew sorter entries c once seen h =
    let before = c.pool.states in
    let handed = sorter.sort (visit_all entries (start before)).stable_files in
    let was : (name : Bytes)
        → (push_all sorter handed c.pool.queue).in_queue name ≡ true
        → (c.pool.queue.in_queue name ≡ true) ⊎ IsFresh entries once before name =
      λ name there. elim (push_all-in_queue sorter name handed c.pool.queue there) [
        | inl i ↦ inl i
        | inr i ↦
            inr (
              stable-IsFresh entries once before name (sym (is_listed-Perm-sort sorter name _) ∙ i))
      ] in
    let keeps = λ (name : Bytes) (i : is_held c name ≡ true).
      remaining-keeps entries once before name (seen name i) (h.marked name i) in
    record {
      queue = push_all-IsQueue sorter handed c.pool.queue h.queue;
      apart = h.apart;
      away = λ name busy. not_true _ (λ there. elim (was name there) [
        | inl i ↦ let free = h.away name busy in cc
        | inr fresh ↦
            let mark = h.marked name (rw busy (or-true (c.pool.queue.in_queue name))) in
            let unmarked = fresh.0 in cc
      ]);
      marked = λ name i. elim (or-elim _ _ i) [
        | inl there ↦ elim (was name there) [
          | inl old ↦ keeps name (rw old refl)
          | inr fresh ↦ fresh.1
        ]
        | inr busy ↦ keeps name (rw busy (or-true (c.pool.queue.in_queue name)))
      ];
    }

regroup : (a b c : Bool) → a || (b || c) ≡ true → (b || a) || c ≡ true
regroup true b c h = rw (or-true b) refl
regroup false true c h = refl
regroup false false c h = h

takes-IsCrew :
    (c : Crew) (item : FileItem) (next : Queue)
    → IsQueue next
    → Pops c.pool.queue (taken item, next)
    → IsCrew c
    → IsCrew (record { pool = record c.pool { queue = next }; busy = item ∷ c.busy })
unfolding is_listed
takes-IsCrew c item next wf (Pops.gives e oldest gone waits) h =
    let was : (name : Bytes)
        → c.pool.queue.in_queue name ≡ equal name item.filename || next.in_queue name =
      λ name.
        h.queue.keys name
        ∙ ap (is_listed name) e
        ∙ ap (λ (b : Bool). equal name item.filename || b) (sym (wf.keys name)) in
    let had : c.pool.queue.in_queue item.filename ≡ true =
      was item.filename ∙ rw (equal_refl item.filename) refl in
    record {
      queue = wf;
      apart = (not_true _ (λ b. let free = h.away item.filename b in cc), h.apart);
      away = λ name busy. elim (or-elim _ _ busy) [
        | inl same ↦ rw ((equal_iff name item.filename).0 same) gone
        | inr other ↦
            (||-false (equal name item.filename) (next.in_queue name)
              (sym (was name) ∙ h.away name other)).1
      ];
      marked = λ name i. h.marked name (
          rw (was name)
            (regroup (next.in_queue name) (equal name item.filename) (is_listed name c.busy) i));
    }

own : (a b : Bool) → a || b ≡ true → b ≡ false → a ≡ true
own true b h e = refl
own false b h e = absurd (cc)

-- The pool as it is made has no file.
nothing :
    (max_attempts : ℕ) (tracker : Tracker) (unreadable : Bool) (folder : Folder) (name : Bytes)
    → is_held (new_crew max_attempts tracker unreadable folder) name ≡ true
    → ⊥
unfolding is_listed new_queue update_failed_count
nothing max_attempts tracker true folder name i = absurd (cc)
nothing max_attempts tracker false folder name i = absurd (cc)

pub new_crew-IsCrew :
    (max_attempts : ℕ) (tracker : Tracker) (unreadable : Bool) (folder : Folder)
    → IsCrew (new_crew max_attempts tracker unreadable folder)
unfolding is_listed new_queue
new_crew-IsCrew max_attempts tracker unreadable folder = record {
  queue = new_queue-IsQueue max_attempts tracker unreadable folder;
  apart = tt;
  away = λ name i. absurd (cc);
  marked = λ name i. absurd (nothing max_attempts tracker unreadable folder name i);
}

module _ (sum256 : Bytes → Bytes) (sorter : Sorter) (after_action : AfterAction) where
  settles-IsCrew :
      (turn : Turn) (connected : Bool) (c : Crew) (front : List FileItem) (item : FileItem)
      (back : List FileItem)
      → c.busy ≡ front ++ (item ∷ back)
      → IsCrew c
      → IsCrew (record {
        pool = (work_item sum256 sorter after_action turn connected item c.pool).pool;
        busy = front ++ back;
      })
  settles-IsCrew turn connected c front item back e h =
      let next = (work_item sum256 sorter after_action turn connected item c.pool).pool in
      let had = λ (name : Bytes). ap (is_listed name) e ∙ is_listed-middle name front item back in
      let gone = h.away item.filename (had item.filename ∙ rw (equal_refl item.filename) refl) in
      let s = work_item-Settled sum256 sorter after_action turn connected item c.pool gone in
      let (free, apart) = Distinct-middle front item back (subst Distinct e h.apart) in
      let other : (name : Bytes)
          → is_listed name (front ++ back) ≡ true
          → equal name item.filename ≡ false =
        λ name i.
          not_true _ (λ same. let same_name = (equal_iff name item.filename).0 same in cc) in
      record {
        queue =
            work_item-IsQueue sum256 sorter after_action turn connected item c.pool h.queue gone;
        apart = apart;
        away = λ name i.
            s.queue name (other name i)
            ∙ h.away name (had name ∙ rw i (or-true (equal name item.filename)));
        marked = λ name i. elim (Bool-cases (equal name item.filename)) [
          | inl same ↦
              let same_name = (equal_iff name item.filename).0 same in
              subst (λ n. is_marked (next.states n) ≡ true) (sym same_name)
                (rw
                  (s.self (
                    own _ _
                      (subst (λ n. next.queue.in_queue n || is_listed n (front ++ back) ≡ true)
                        same_name i)
                      free))
                  (h.marked item.filename (
                    rw (had item.filename, equal_refl item.filename)
                      (or-true (c.pool.queue.in_queue item.filename)))))
          | inr ne ↦
              rw (s.states name ne) (h.marked name (rw (had name, ne) (rw (s.queue name ne) at i)))
        ];
      }

  -- Every step keeps the invariant.
  Move-IsCrew : {c d : Crew} → Move sum256 sorter after_action c d → IsCrew c → IsCrew d
  unfolding stop
  Move-IsCrew {c} (scans entries once seen) h = scanned-IsCrew sorter entries c once seen h
  Move-IsCrew {c} (takes {item} {next} e) h =
      takes-IsCrew c item next
        (subst (λ (o : Popped × Queue). IsQueue o.1) e (pop-IsQueue c.pool.queue h.queue))
        (subst (Pops c.pool.queue) e (pop-Pops c.pool.queue h.queue)) h
  Move-IsCrew {c} (settles turn connected front item back e) h =
      settles-IsCrew turn connected c front item back e h
  Move-IsCrew {c} stops h = record {
    queue = stop-IsQueue c.pool.queue h.queue;
    apart = h.apart;
    away = h.away;
    marked = h.marked;
  }
  Move-IsCrew {c} (changes folder) h = record {
    queue = h.queue;
    apart = h.apart;
    away = h.away;
    marked = h.marked;
  }

  -- Whatever steps the scanner and the workers take, in whatever order, from the pool as it is made:
  -- the queue is well-formed; no two workers have files of one name; a file that a worker has is
  -- not in the queue as well; and the scanner has marked every file that waits or is being sent.
  -- Each scan's listing names no file twice, and shows every file that waits or that a worker has.
  pub Reaches-IsCrew : (c : Crew) → Reaches sum256 sorter after_action c → IsCrew c
  Reaches-IsCrew _ (made max_attempts tracker unreadable folder) =
      new_crew-IsCrew max_attempts tracker unreadable folder
  Reaches-IsCrew _ (later r m) = Move-IsCrew m (Reaches-IsCrew _ r)
