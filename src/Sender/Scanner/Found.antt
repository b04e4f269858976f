-- ===== src/Sender/Scanner/Found.antt =====
-- A file that stays unchanged is found: scanOnce of internal/sender/scanner.go queues it at the second
-- scan that lists it.
use go_xport.Common.{
  ℕ, ==_refl, ◌≡◌, refl, sym, subst, ap, ◌∙◌, true, false, List, [], ◌∷◌, Option, none, some, Bytes,
  equal, equal_iff, equal_refl, Bool-cases, inl, inr,
}
use mathlib.Core.Bool.{or-true}
use go_xport.Sender.Items.{Sorter, is_listed, is_listed-Perm, is_listed-snoc, ||-false}
use go_xport.Sender.Queue.{Queue}
use go_xport.Sender.Queue.Invariant.{IsQueue}
use go_xport.Sender.Scanner.Pushing.{push_all-lists}
use go_xport.Sender.Scanner.{
  States, Entry, Scan, eligible, observe, item_of, visit_file, visit_all, start, remaining,
  scan_once,
}
use go_xport.Sender.Scanner.Stability.{Shows, OnceEach, has_entry}

module _ (name : Bytes) where
  -- What a scan says of the one file.
  record Agrees (s t : Scan) : Type 0 where
    states : t.states name ≡ s.states name
    current : t.current_files name ≡ s.current_files name

  visit_file-Agrees :
      (other : Bytes) (info : Option (ℕ × ℕ)) (scan : Scan)
      → equal name other ≡ false
      → Agrees scan (visit_file other info scan)
  unfolding visit_file
  visit_file-Agrees other none scan ne = record { states = refl; current = refl }
  visit_file-Agrees other (some (size, mod_time)) scan ne = record {
    states = rw ne refl;
    current = rw ne refl;
  }

  visit_all-Agrees :
      (entries : List Entry) (scan : Scan)
      → has_entry name entries ≡ false
      → Agrees scan (visit_all entries scan)
  unfolding visit_all
  visit_all-Agrees [] scan h = record { states = refl; current = refl }
  visit_all-Agrees (entry ∷ entries) scan h =
      let (ne, rest) = ||-false (equal name entry.name) (has_entry name entries) h in
      let one = visit_file-Agrees entry.name (eligible entry) scan ne in
      let more = visit_all-Agrees entries (visit_file entry.name (eligible entry) scan) rest in
      record { states = more.states ∙ one.states; current = more.current ∙ one.current }

  Shows-has_entry :
      (entries : List Entry) (size mod_time : ℕ)
      → Shows entries name size mod_time
      → has_entry name entries ≡ true
  Shows-has_entry [] size mod_time h = absurd h
  Shows-has_entry (entry ∷ entries) size mod_time (inl (e, i)) = rw (e, equal_refl name)
  Shows-has_entry (entry ∷ entries) size mod_time (inr h) =
      rw (Shows-has_entry entries size mod_time h) (or-true (equal name entry.name))

  clash :
      (entry : Entry) (entries : List Entry) (size mod_time : ℕ)
      → has_entry entry.name entries ≡ false
      → Shows entries name size mod_time
      → equal name entry.name ≡ true
      → ⊥
  clash entry entries size mod_time once shows same =
      let e = (equal_iff name entry.name).0 same in
      let there = Shows-has_entry entries size mod_time shows in cc

  visit_file-grows :
      (other : Bytes) (info : Option (ℕ × ℕ)) (scan : Scan)
      → is_listed name scan.stable_files ≡ true
      → is_listed name (visit_file other info scan).stable_files ≡ true
  unfolding visit_file
  visit_file-grows other none scan h = h
  visit_file-grows other (some (size, mod_time)) scan h =
      elim (Bool-cases (observe size mod_time (scan.states other)).1) [
        | inl e ↦ rw e (
            is_listed-snoc name scan.stable_files (item_of other size mod_time)
            ∙ rw h (or-true (equal name other)))
        | inr e ↦ rw e h
      ]

  visit_all-grows :
      (entries : List Entry) (scan : Scan)
      → is_listed name scan.stable_files ≡ true
      → is_listed name (visit_all entries scan).stable_files ≡ true
  unfolding visit_all
  visit_all-grows [] scan h = h
  visit_all-grows (entry ∷ entries) scan h =
      visit_all-grows entries (visit_file entry.name (eligible entry) scan)
        (visit_file-grows entry.name (eligible entry) scan h)

  -- What visiting the file leaves.
  pub record Visited (size mod_time : ℕ) (s t : Scan) : Type 0 where
    pub states : t.states name ≡ some (observe size mod_time (s.states name)).0
    pub current : t.current_files name ≡ true
    pub stable :
        (observe size mod_time (s.states name)).1 ≡ true → is_listed name t.stable_files ≡ true

  visit_file-Visited :
      (size mod_time : ℕ) (scan : Scan)
      → Visited size mod_time scan (visit_file name (some (size, mod_time)) scan)
  unfolding visit_file
  visit_file-Visited size mod_time scan = record {
    states = rw (equal_refl name) refl;
    current = rw (equal_refl name) refl;
    stable = λ found. rw found (
        is_listed-snoc name scan.stable_files (item_of name size mod_time)
        ∙ rw (equal_refl name) refl);
  }

  -- A listing that shows the file, and lists no name twice, visits it once.
  pub visit_all-Visited :
      (entries : List Entry) (size mod_time : ℕ) (scan : Scan)
      → OnceEach entries
      → Shows entries name size mod_time
      → Visited size mod_time scan (visit_all entries scan)
  unfolding visit_all
  visit_all-Visited [] size mod_time scan once shows = absurd shows
  visit_all-Visited (entry ∷ entries) size mod_time scan once (inl (e, i)) =
      let scan1 = visit_file name (some (size, mod_time)) scan in
      let first = visit_file-Visited size mod_time scan in
      let rest =
        visit_all-Agrees entries scan1 (subst (λ n. has_entry n entries ≡ false) e once.0) in
      subst (λ (t : Scan). Visited size mod_time scan (visit_all entries t))
        (ap (λ o. visit_file name o scan) (sym i)
          ∙ ap (λ n. visit_file n (eligible entry) scan) (sym e))
        (record {
          states = rest.states ∙ first.states;
          current = rest.current ∙ first.current;
          stable = λ found. visit_all-grows entries scan1 (first.stable found);
        })
  visit_all-Visited (entry ∷ entries) size mod_time scan once (inr shows) =
      elim (Bool-cases (equal name entry.name)) [
        | inl same ↦ absurd (clash entry entries size mod_time once.0 shows same)
        | inr ne ↦
            let one = visit_file-Agrees entry.name (eligible entry) scan ne in
            let more =
              visit_all-Visited entries size mod_time (visit_file entry.name (eligible entry) scan)
                once.1 shows in
            record {
              states = more.states ∙ ap (λ o. some (observe size mod_time o).0) one.states;
              current = more.current;
              stable =
                  λ found. more.stable (ap (λ o. (observe size mod_time o).1) one.states ∙ found);
            }
      ]

-- A scan that has not seen the file before only notes it; the next one finds it.
observe-again :
    (size mod_time : ℕ) → (observe size mod_time (some (observe size mod_time none).0)).1 ≡ true
unfolding observe
observe-again size mod_time = rw (==_refl size, ==_refl mod_time) refl

-- A file that was not tracked, and that two listings in a row show unchanged, is in the queue after
-- the second scan, if the queue is well-formed and runs and no listing has a name twice.
pub scan_once-found :
    (sorter : Sorter) (first second : List Entry) (before : States) (q now : Queue) (name : Bytes)
    (size mod_time : ℕ)
    → OnceEach first
    → OnceEach second
    → Shows first name size mod_time
    → Shows second name size mod_time
    → before name ≡ none
    → IsQueue now
    → now.stopped ≡ false
    → is_listed name
        (scan_once sorter
          (some second)
          ((scan_once sorter (some first) (before, q)).0, now)).1.items
      ≡ true
unfolding scan_once
scan_once-found sorter first second before q now name size mod_time once1 once2 shown1 shown2 new wf
      runs =
    let one = visit_all-Visited name first size mod_time (start before) once1 shown1 in
    let between = remaining (visit_all first (start before)) in
    let noted : between name ≡ some (observe size mod_time none).0 =
      rw one.current (one.states ∙ ap (λ o. some (observe size mod_time o).0) new) in
    let two = visit_all-Visited name second size mod_time (start between) once2 shown2 in
    let stable_files = (visit_all second (start between)).stable_files in
    push_all-lists sorter name (sorter.sort stable_files) now wf runs (
      is_listed-Perm name (sorter.sort-Perm stable_files)
      ∙ two.stable (ap (λ o. (observe size mod_time o).1) noted ∙ observe-again size mod_time))
