-- ===== src/Sender/Scanner/TwoScans.antt =====
-- Two scans in a row: which files scanOnce of internal/sender/scanner.go puts into the queue.
use go_xport.Common.{
  ◌≡◌, ◌||◌, List, [], ◌∷◌, ◌++◌, some, Bytes, All, All-append, Bool-cases, inl, inr, ◌⊎◌,
}
use go_xport.Sender.Items.{FileItem, Sorter, In, All-In, All-Perm}
use go_xport.Sender.Queue.{Queue, push}
use go_xport.Sender.Scanner.{
  FileScanState, States, Entry, visit_all, start, remaining, push_all, scan_once,
}
use go_xport.Sender.Scanner.Stability.{
  Shows, OnceEach, WasSame, All-Told, visit_all-Seen, visit_all-stable, start-Untouched,
}
use mathlib.Core.List.Permᴰ

module _ (sorter : Sorter) (P : FileItem → Type 0) where
  push-All :
      (item : FileItem) (q : Queue) → P item → All P q.items → All P (push sorter item q).items
  unfolding push
  push-All item q h hs = elim (Bool-cases (q.stopped || q.in_queue item.filename)) [
    | inl e ↦ rw e hs
    | inr e ↦ rw e (
        All-Perm P (Permᴰ.symm (sorter.sort-Perm (q.items ++ (item ∷ []))))
          (All-append P q.items (item ∷ []) hs (h, tt)))
  ]

  push_all-All :
      (items : List FileItem) (q : Queue)
      → All P items
      → All P q.items
      → All P (push_all sorter items q).items
  unfolding push_all
  push_all-All [] q h hs = hs
  push_all-All (item ∷ items) q h hs =
      push_all-All items (push sorter item q) h.1 (push-All item q h.0 hs)

-- The file is in both listings, with the same size and modification time.
pub record InBoth (first second : List Entry) (item : FileItem) : Type 0 where
  pub in_first : Shows first item.filename item.size item.mod_time
  pub in_second : Shows second item.filename item.size item.mod_time

-- The states that a scan leaves are of files that its listing shows, as it shows them.
remaining-Shows :
    (first : List Entry) (before : States) (name : Bytes) (state : FileScanState)
    → remaining (visit_all first (start before)) name ≡ some state
    → Shows first name state.size state.mod_time
remaining-Shows first before name state e =
    elim (Bool-cases ((visit_all first (start before)).current_files name)) [
      | inl seen ↦
          visit_all-Seen (Shows first) first (start before)
            (All-Told (Shows first) first (λ n s m h. h)) (λ n h. absurd (cc)) name seen state
            (rw seen at e)
      | inr unseen ↦ absurd (cc)
    ]

-- Whatever the states before, and whatever the workers did to the queue between the two scans, the
-- second scan adds only files that both listings show with the same size and modification time, and
-- that neither the dot rule nor ValidateFilename excludes. The second listing has no name twice.
pub scan_once-InBoth :
    (sorter : Sorter) (first second : List Entry) (before : States) (q now : Queue)
    → OnceEach second
    → All
        (λ item. In item now.items ⊎ InBoth first second item)
        (scan_once sorter
          (some second)
          ((scan_once sorter (some first) (before, q)).0, now)).1.items
unfolding scan_once
scan_once-InBoth sorter first second before q now once =
    let P = λ (item : FileItem). In item now.items ⊎ InBoth first second item in
    let between = remaining (visit_all first (start before)) in
    let scan = visit_all second (start between) in
    let found =
      visit_all-stable (Shows second) between second (start between) once
        (All-Told (Shows second) second (λ n s m h. h))
        (start-Untouched (Shows second) between second) tt in
    push_all-All sorter P (sorter.sort scan.stable_files) now
      (All-Perm P (Permᴰ.symm (sorter.sort-Perm scan.stable_files)) (both scan.stable_files found))
      (All-In P now.items (λ item i. inl i))
  where
    both :
        (items : List FileItem)
        → All (WasSame (Shows second) (remaining (visit_all first (start before)))) items
        → All (λ item. In item now.items ⊎ InBoth first second item) items
    both [] h = tt
    both (item ∷ items) (h, hs) = (
      inr (record {
        in_first =
            rw⁻¹ (h.size_is, h.mod_time_is)
              (remaining-Shows first before item.filename h.state h.before_is);
        in_second = h.shown;
      }),
      both items hs,
    )
