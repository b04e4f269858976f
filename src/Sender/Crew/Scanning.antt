-- ===== src/Sender/Crew/Scanning.antt =====
-- What scanOnce of internal/sender/scanner.go does to the files that wait or are being sent: it keeps
-- their marks, and hands over none of them.
use go_xport.Common.{
  ℕ, suc, ◌≡◌, refl, sym, subst, Bool, true, false, not, ◌&&◌, &&-eq-true, ◌||◌, List, [], ◌∷◌,
  Option, none, some, Bytes, equal, equal_iff, leb, All, All-map, Bool-cases, inl, inr, ◌⊎◌,
}
use mathlib.Core.Bool.{or-true}
use go_xport.Sender.Crew.{is_marked, Sighted}
use go_xport.Sender.Items.{FileItem, Sorter, is_listed}
use go_xport.Sender.Queue.{Queue, push}
use go_xport.Sender.Queue.Invariant.{IsQueue, push-IsQueue}
use go_xport.Sender.Scanner.{
  FileScanState, States, Entry, is_same, observe, visit_all, start, remaining, push_all,
}
use go_xport.Sender.Scanner.Found.{visit_all-Visited}
use go_xport.Sender.Scanner.Stability.{
  Shows, OnceEach, WasSame, All-Told, visit_all-stable, start-Untouched,
}

-- A look keeps the mark, and finds a file only where there was none, which it then marks.
record Marks (old : Option FileScanState) (o : FileScanState × Bool) : Type 0 where
  kept : is_marked old ≡ true → o.0.is_queued ≡ true
  fresh : o.1 ≡ true → is_marked old ≡ false
  marks : o.1 ≡ true → o.0.is_queued ≡ true

observe-Marks :
    (size mod_time : ℕ) (old : Option FileScanState) → Marks old (observe size mod_time old)
unfolding observe
observe-Marks size mod_time none = record {
  kept = λ h. absurd (cc);
  fresh = λ h. absurd (cc);
  marks = λ h. absurd (cc);
}
observe-Marks size mod_time (some state) = elim (Bool-cases (is_same state size mod_time)) [
  | inl e ↦ elim (Bool-cases (leb 2 (suc state.consecutive_scans) && not state.is_queued)) [
    | inl ready ↦
        let unqueued =
          (&&-eq-true (leb 2 (suc state.consecutive_scans)) (not state.is_queued)).0 ready in
        rw (e, ready)
          (record {
            kept = λ h. refl;
            fresh = λ h. not_true state.is_queued unqueued.1;
            marks = λ h. refl;
          })
    | inr wait ↦
        rw (e, wait) (record { kept = λ h. h; fresh = λ h. absurd (cc); marks = λ h. absurd (cc) })
  ]
  | inr e ↦ rw e (record { kept = λ h. h; fresh = λ h. absurd (cc); marks = λ h. absurd (cc) })
]
  where
    not_true : (b : Bool) → not b ≡ true → b ≡ false
    not_true true h = absurd (cc)
    not_true false h = refl

listed-All :
    (P : Bytes → Type 0) (name : Bytes) (items : List FileItem)
    → All (λ (item : FileItem). P item.filename) items
    → is_listed name items ≡ true
    → P name
unfolding is_listed
listed-All P name [] h there = absurd (cc)
listed-All P name (item ∷ items) h there = elim (Bool-cases (equal name item.filename)) [
  | inl e ↦ subst P (sym ((equal_iff name item.filename).0 e)) h.0
  | inr e ↦ listed-All P name items h.1 (rw e at there)
]

-- The queue after a scan holds what it held, and files that the scan hands over.
pub push_all-in_queue :
    (sorter : Sorter) (name : Bytes) (items : List FileItem) (q : Queue)
    → (push_all sorter items q).in_queue name ≡ true
    → (q.in_queue name ≡ true) ⊎ (is_listed name items ≡ true)
unfolding push_all push is_listed
push_all-in_queue sorter name [] q h = inl h
push_all-in_queue sorter name (item ∷ items) q h =
    elim (push_all-in_queue sorter name items (push sorter item q) h) [
      | inl there ↦ elim (Bool-cases (equal name item.filename)) [
        | inl e ↦ inr (rw e refl)
        | inr e ↦ elim (Bool-cases (q.stopped || q.in_queue item.filename)) [
          | inl i ↦ inl (rw i at there)
          | inr i ↦ inl (rw (i, e) at there)
        ]
      ]
      | inr there ↦ inr (rw there (or-true (equal name item.filename)))
    ]

pub push_all-IsQueue :
    (sorter : Sorter) (items : List FileItem) (q : Queue)
    → IsQueue q
    → IsQueue (push_all sorter items q)
unfolding push_all
push_all-IsQueue sorter [] q h = h
push_all-IsQueue sorter (item ∷ items) q h =
    push_all-IsQueue sorter items (push sorter item q) (push-IsQueue sorter item q h)

module _ (entries : List Entry) (once : OnceEach entries) (before : States) where
  -- A marked file that the listing shows stays marked.
  pub remaining-keeps :
      (name : Bytes)
      → Sighted entries name
      → is_marked (before name) ≡ true
      → is_marked (remaining (visit_all entries (start before)) name) ≡ true
  remaining-keeps name (size, mod_time, shows) h =
      let v = visit_all-Visited name entries size mod_time (start before) once shows in
      rw (v.current, v.states) ((observe-Marks size mod_time (before name)).kept h)

  -- What the scan hands over was not marked, and is now.
  abbrev pub IsFresh : Bytes → Type 0
  IsFresh name =
      (is_marked (before name) ≡ false)
      × (is_marked (remaining (visit_all entries (start before)) name) ≡ true)

  WasSame-IsFresh : (item : FileItem) → WasSame (Shows entries) before item → IsFresh item.filename
  WasSame-IsFresh item w =
      let v =
        visit_all-Visited item.filename entries item.size item.mod_time (start before) once
          w.shown in
      let m = observe-Marks item.size item.mod_time (before item.filename) in
      (m.fresh w.found, rw (v.current, v.states) (m.marks w.found))

  pub stable-IsFresh :
      (name : Bytes)
      → is_listed name (visit_all entries (start before)).stable_files ≡ true
      → IsFresh name
  stable-IsFresh name there =
      listed-All IsFresh name _
        (All-map (visit_all entries (start before)).stable_files WasSame-IsFresh (
          visit_all-stable (Shows entries) before entries (start before) once
            (All-Told (Shows entries) entries (λ n size mod_time s. s))
            (start-Untouched (Shows entries) before entries) tt))
        there
