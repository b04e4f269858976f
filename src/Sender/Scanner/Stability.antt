-- ===== src/Sender/Scanner/Stability.antt =====
-- What makes scanOnce of internal/sender/scanner.go queue a file: two listings in a row with the same
-- size and modification time.
use go_xport.Common.{
  ℕ, suc, ◌==◌, ==_iff, ◌≡◌, refl, sym, subst, ◌∙◌, Bool, true, false, not, ◌&&◌, &&-eq-true, ◌||◌,
  List, [], ◌∷◌, Option, none, some, Bytes, equal, equal_iff, equal_comm, leb, All, All-append,
  Bool-cases, inl, inr, ◌⊎◌,
}
use mathlib.Core.Option.{some-injective}
use go_xport.Sender.Items.{FileItem, ||-false}
use go_xport.Sender.Scanner.{
  FileScanState, States, Entry, Scan, eligible, is_same, observe, item_of, visit_file, visit_all,
  start,
}

-- The listing shows a regular file with this name, size and modification time, which the scanner
-- does not ignore.
abbrev pub Shows : List Entry → Bytes → ℕ → ℕ → Type 0
Shows [] name size mod_time = ⊥
Shows (entry ∷ entries) name size mod_time =
    ((entry.name ≡ name) × (eligible entry ≡ some (size, mod_time)))
    ⊎ Shows entries name size mod_time

abbrev pub has_entry : Bytes → List Entry → Bool
has_entry name [] = false
has_entry name (entry ∷ entries) = equal name entry.name || has_entry name entries

-- A directory lists no name twice.
abbrev pub OnceEach : List Entry → Type 0
OnceEach [] = Unit {0}
OnceEach (entry ∷ entries) = (has_entry entry.name entries ≡ false) × OnceEach entries

is_same-eq :
    (state : FileScanState) (size mod_time : ℕ)
    → is_same state size mod_time ≡ true
    → (state.size ≡ size) × (state.mod_time ≡ mod_time)
is_same-eq state size mod_time h =
    let (a, b) = (&&-eq-true (state.size == size) (state.mod_time == mod_time)).0 h in
    ((==_iff state.size size).0 a, (==_iff state.mod_time mod_time).0 b)

-- What one look at a file leaves: its size and time as they are now; and it is found stable only if
-- they were the same before, and the file has not been queued.
record Observed (size mod_time : ℕ) (old : Option FileScanState) (o : FileScanState × Bool)
    : Type 0 where
  size_is : o.0.size ≡ size
  mod_time_is : o.0.mod_time ≡ mod_time
  was :
      o.1 ≡ true
      → (state : FileScanState) × (old ≡ some state)
        × (state.size ≡ size)
        × (state.mod_time ≡ mod_time)

observe-Observed :
    (size mod_time : ℕ) (old : Option FileScanState)
    → Observed size mod_time old (observe size mod_time old)
unfolding observe
observe-Observed size mod_time none = record {
  size_is = refl;
  mod_time_is = refl;
  was = λ h. absurd (cc);
}
observe-Observed size mod_time (some state) = elim (Bool-cases (is_same state size mod_time)) [
  | inl e ↦ elim (Bool-cases (leb 2 (suc state.consecutive_scans) && not state.is_queued)) [
    | inl ready ↦
        rw (e, ready)
          (record {
            size_is = (is_same-eq state size mod_time e).0;
            mod_time_is = (is_same-eq state size mod_time e).1;
            was = λ h. (
              state,
              refl,
              (is_same-eq state size mod_time e).0,
              (is_same-eq state size mod_time e).1,
            );
          })
    | inr wait ↦
        rw (e, wait)
          (record {
            size_is = (is_same-eq state size mod_time e).0;
            mod_time_is = (is_same-eq state size mod_time e).1;
            was = λ h. absurd (cc);
          })
  ]
  | inr e ↦ rw e (record { size_is = refl; mod_time_is = refl; was = λ h. absurd (cc) })
]

-- What holds of every entry that a listing shows.
abbrev pub Told : (Bytes → ℕ → ℕ → Type 0) → Entry → Type 0
Told P entry =
    (size mod_time : ℕ) → eligible entry ≡ some (size, mod_time) → P entry.name size mod_time

pub All-Told :
    (P : Bytes → ℕ → ℕ → Type 0) (entries : List Entry)
    → ((name : Bytes) (size mod_time : ℕ) → Shows entries name size mod_time → P name size mod_time)
    → All (Told P) entries
All-Told P [] h = tt
All-Told P (entry ∷ entries) h = (
  λ size mod_time e. h entry.name size mod_time (inl (refl, e)),
  All-Told P entries (λ name size mod_time s. h name size mod_time (inr s)),
)

module _ (P : Bytes → ℕ → ℕ → Type 0) where
  -- The state of a file that this scan has seen is what the listing shows.
  abbrev pub Seen : Scan → Type 0
  Seen scan =
      (name : Bytes)
      → scan.current_files name ≡ true
      → (state : FileScanState) → scan.states name ≡ some state
      → P name state.size state.mod_time

  visit_file-Seen :
      (name : Bytes) (info : Option (ℕ × ℕ)) (scan : Scan)
      → ((size mod_time : ℕ) → info ≡ some (size, mod_time) → P name size mod_time)
      → Seen scan
      → Seen (visit_file name info scan)
  unfolding visit_file
  visit_file-Seen name none scan told h k seen state e = h k seen state e
  visit_file-Seen name (some (size, mod_time)) scan told h k seen state e =
      elim (Bool-cases (equal k name)) [
        | inl same ↦
            let o = observe-Observed size mod_time (scan.states name) in
            let here : (observe size mod_time (scan.states name)).0 ≡ state =
              some-injective _ state (rw same at e) in
            subst (λ k'. P k' state.size state.mod_time) (sym ((equal_iff k name).0 same))
              (subst (λ (st : FileScanState). P name st.size st.mod_time) here
                (rw (o.size_is, o.mod_time_is) (told size mod_time refl)))
        | inr other ↦ h k (rw other at seen) state (rw other at e)
      ]

  pub visit_all-Seen :
      (entries : List Entry) (scan : Scan)
      → All (Told P) entries
      → Seen scan
      → Seen (visit_all entries scan)
  unfolding visit_all
  visit_all-Seen [] scan told h = h
  visit_all-Seen (entry ∷ entries) scan told h =
      visit_all-Seen entries (visit_file entry.name (eligible entry) scan) told.1
        (visit_file-Seen entry.name (eligible entry) scan told.0 h)

-- An item of a scan from `before`: the state had its size and time, `Q` holds of it, and it is found
-- stable.
pub record WasSame (Q : Bytes → ℕ → ℕ → Type 0) (before : States) (item : FileItem) : Type 0 where
  pub state : FileScanState
  pub before_is : before item.filename ≡ some state
  pub size_is : state.size ≡ item.size
  pub mod_time_is : state.mod_time ≡ item.mod_time
  pub shown : Q item.filename item.size item.mod_time
  pub found : (observe item.size item.mod_time (before item.filename)).1 ≡ true

module _ (Q : Bytes → ℕ → ℕ → Type 0) (before : States) where
  -- The states of the entries that are still to be visited.
  abbrev pub Untouched : List Entry → Scan → Type 0
  Untouched entries scan = All (λ entry. scan.states entry.name ≡ before entry.name) entries

  visit_file-Untouched :
      (name : Bytes) (info : Option (ℕ × ℕ)) (entries : List Entry) (scan : Scan)
      → has_entry name entries ≡ false
      → Untouched entries scan
      → Untouched entries (visit_file name info scan)
  unfolding visit_file
  visit_file-Untouched name none entries scan fresh h = h
  visit_file-Untouched name (some (size, mod_time)) [] scan fresh h = tt
  visit_file-Untouched name (some (size, mod_time)) (entry ∷ entries) scan fresh h =
      let (ne, rest) = ||-false (equal name entry.name) (has_entry name entries) fresh in
      (
        rw (equal_comm entry.name name, ne) h.0,
        visit_file-Untouched name (some (size, mod_time)) entries scan rest h.1,
      )

  visit_file-stable :
      (name : Bytes) (info : Option (ℕ × ℕ)) (scan : Scan)
      → ((size mod_time : ℕ) → info ≡ some (size, mod_time) → Q name size mod_time)
      → scan.states name ≡ before name
      → All (WasSame Q before) scan.stable_files
      → All (WasSame Q before) (visit_file name info scan).stable_files
  unfolding visit_file
  visit_file-stable name none scan told same h = h
  visit_file-stable name (some (size, mod_time)) scan told same h =
      let o = observe-Observed size mod_time (scan.states name) in
      elim (Bool-cases (observe size mod_time (scan.states name)).1) [
        | inl found ↦
            let (state, old, size_is, mod_time_is) = o.was found in
            rw found (
              All-append (WasSame Q before) scan.stable_files (item_of name size mod_time ∷ []) h (
                record {
                  state = state;
                  before_is = sym same ∙ old;
                  size_is = size_is;
                  mod_time_is = mod_time_is;
                  shown = told size mod_time refl;
                  found = subst (λ o. (observe size mod_time o).1 ≡ true) same found;
                },
                tt,
              ))
        | inr not_found ↦ rw not_found h
      ]

  pub visit_all-stable :
      (entries : List Entry) (scan : Scan)
      → OnceEach entries
      → All (Told Q) entries
      → Untouched entries scan
      → All (WasSame Q before) scan.stable_files
      → All (WasSame Q before) (visit_all entries scan).stable_files
  unfolding visit_all
  visit_all-stable [] scan once told same h = h
  visit_all-stable (entry ∷ entries) scan once told same h =
      visit_all-stable entries (visit_file entry.name (eligible entry) scan) once.1 told.1
        (visit_file-Untouched entry.name (eligible entry) entries scan once.0 same.1)
        (visit_file-stable entry.name (eligible entry) scan told.0 same.0 h)

  pub start-Untouched : (entries : List Entry) → Untouched entries (start before)
  start-Untouched [] = tt
  start-Untouched (entry ∷ entries) = (refl, start-Untouched entries)
