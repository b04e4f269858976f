-- ===== src/Sender/Daemon/Manned.antt =====
-- Which worker of internal/sender/client.go has which file, in every run of the goroutines.
use go_xport.Common.{
  ℕ, ◌<◌, ◌==◌, ==_iff, ==_ne_iff, ◌≡◌, ◌⊎◌, inl, inr, refl, sym, ap, ◌∙◌, subst, Bool, true, false,
  List, [], ◌∷◌, ◌++◌, Option, none, some, equal, equal_refl, set, set_all,
}
use mathlib.Core.Bool.{or-true}
use mathlib.Core.Option.{some-injective}
use go_xport.Sender.Daemon.{Place, sending, Daemon, place_after, put_place, took, settled}
use go_xport.Sender.Queue.{Queue}
use go_xport.Sender.Items.{FileItem, is_listed, In, Distinct, Distinct-middle}
use go_xport.Sender.Worker
use go_xport.Sender.Worker.{After, goes_on, waits, returns}

-- The item that a worker has.
abbrev pub carried : Place → Option FileItem
carried (sending connected item) = some item
carried _ = none

abbrev pub Apart : (ℕ → Place) → Type 0
Apart workers =
    (i j : ℕ) (x y : FileItem)
    → carried (workers i) ≡ some x
    → carried (workers j) ≡ some y
    → x.filename ≡ y.filename
    → i ≡ j

-- Each file in work is some worker's, and no two workers have files of one name.
pub record IsManned (s : Daemon) : Type 0 where
  pub held :
      (item : FileItem)
      → In item s.crew.busy
      → (i : ℕ) × (i < s.parallel) × (carried (s.workers i) ≡ some item)
  pub has : (i : ℕ) (item : FileItem) → carried (s.workers i) ≡ some item → In item s.crew.busy
  pub apart : Apart s.workers

pub In-is_listed :
    (item : FileItem) (items : List FileItem) → In item items → is_listed item.filename items ≡ true
unfolding is_listed
In-is_listed item [] i = elim i [ ]
In-is_listed item (x ∷ items) (inl e) = rw (e, equal_refl item.filename) refl
In-is_listed item (x ∷ items) (inr i) =
    rw (In-is_listed item items i) (or-true (equal item.filename x.filename))

In-middle :
    (x : FileItem) (front : List FileItem) (item : FileItem) (back : List FileItem)
    → In x (front ++ (item ∷ back))
    → (item ≡ x) ⊎ In x (front ++ back)
In-middle x [] item back i = i
In-middle x (y ∷ front) item back (inl e) = inr (inl e)
In-middle x (y ∷ front) item back (inr i) = elim (In-middle x front item back i) [
  | inl e ↦ inl e
  | inr j ↦ inr (inr j)
]

In-rest :
    (x : FileItem) (front : List FileItem) (item : FileItem) (back : List FileItem)
    → In x (front ++ back)
    → In x (front ++ (item ∷ back))
In-rest x [] item back i = inr i
In-rest x (y ∷ front) item back (inl e) = inl e
In-rest x (y ∷ front) item back (inr i) = inr (In-rest x front item back i)

place_after-carried :
    (step : Worker.Step) (connected : Bool) → carried (place_after step connected) ≡ none
place_after-carried goes_on connected = refl
place_after-carried waits connected = refl
place_after-carried returns connected = refl

-- A worker's new place: none of the others has a file of the name that it has now.
set-Apart :
    (workers : ℕ → Place) (i : ℕ) (place : Place)
    → ((j : ℕ) (x y : FileItem)
        → j == i ≡ false
        → carried (workers j) ≡ some x
        → carried place ≡ some y
        → x.filename ≡ y.filename
        → ⊥)
    → Apart workers
    → Apart (set workers i place)
set-Apart workers i place free h j k x y =
    set_all
      (λ j p.
        carried p ≡ some x
        → carried (set workers i place k) ≡ some y
        → x.filename ≡ y.filename
        → j ≡ k)
      workers i place
      (λ j ne mine.
        set_all (λ k p. carried p ≡ some y → x.filename ≡ y.filename → j ≡ k) workers i place
          (λ k _ his. h j k x y mine his) (λ his same. absurd (free j x y ne mine his same)) k)
      (λ mine.
        set_all (λ k p. carried p ≡ some y → x.filename ≡ y.filename → i ≡ k) workers i place
          (λ k ne his same. absurd (free k y x ne his mine (sym same))) (λ his same. refl) k)
      j

-- A worker that has no file is not the one that has this file.
other :
    (workers : ℕ → Place) (i j : ℕ) (item : FileItem)
    → carried (workers i) ≡ none
    → carried (workers j) ≡ some item
    → j == i ≡ false
other workers i j item free there =
    (==_ne_iff j i).1 (λ e. absurd (let mine = ap (λ k. carried (workers k)) e in cc))

-- A worker without a file goes on without one.
pub put_place-IsManned :
    (s : Daemon) (i : ℕ) (place : Place)
    → carried (s.workers i) ≡ none
    → carried place ≡ none
    → IsManned s
    → IsManned (put_place i place s)
put_place-IsManned s i place old new h = record {
  held = λ item busy.
      let (j, below, there) = h.held item busy in
      (j, below, rw (other s.workers i j item old there) there);
  has = λ j item.
      set_all (λ j p. carried p ≡ some item → In item s.crew.busy) s.workers i place
        (λ j ne. h.has j item) (λ e. absurd (cc)) j;
  apart = set-Apart s.workers i place (λ j x y ne mine his same. absurd (cc)) h.apart;
}

pub took-IsManned :
    (s : Daemon) (i : ℕ) (connected : Bool) (item : FileItem) (next : Queue)
    → i < s.parallel
    → carried (s.workers i) ≡ none
    → is_listed item.filename s.crew.busy ≡ false
    → IsManned s
    → IsManned (took i connected item next s)
took-IsManned s i connected item next lt old fresh h = record {
  held = λ x busy. elim busy [
    | inl e ↦ (i, lt, rw ((==_iff i i).1 refl) (ap some e))
    | inr in_work ↦
        let (j, below, there) = h.held x in_work in
        (j, below, rw (other s.workers i j x old there) there)
  ];
  has = λ j x.
      set_all (λ j p. carried p ≡ some x → In x (item ∷ s.crew.busy)) s.workers i
        (sending connected item) (λ j ne there. inr (h.has j x there))
        (λ e. inl (some-injective item x e)) j;
  apart =
      set-Apart s.workers i (sending connected item)
        (λ j x y ne mine his same.
          let listed = In-is_listed x s.crew.busy (h.has j x mine) in
          let same_item = some-injective item y his in
          let name = same ∙ ap (λ (z : FileItem). z.filename) (sym same_item) in
          absurd (cc (rw name at listed)))
        h.apart;
}

pub settled-IsManned :
    (s : Daemon) (i : ℕ) (connected : Bool) (a : After) (front : List FileItem) (item : FileItem)
    (back : List FileItem)
    → s.workers i ≡ sending connected item
    → s.crew.busy ≡ front ++ (item ∷ back)
    → Distinct s.crew.busy
    → IsManned s
    → IsManned (settled i a (front ++ back) s)
settled-IsManned s i connected a front item back at_item busy_is distinct h = record {
  held = λ x rest.
      let (j, below, there) =
        h.held x (subst (In x) (sym busy_is) (In-rest x front item back rest)) in
      let ne : j == i ≡ false = (==_ne_iff j i).1 (λ e.
        let same =
          some-injective x item (sym there ∙ ap (λ k. carried (s.workers k)) e ∙ has_item) in
        let gone = (Distinct-middle front item back (subst Distinct busy_is distinct)).0 in
        let listed = In-is_listed x (front ++ back) rest in absurd (cc (rw same at listed))) in
      (j, below, rw ne there);
  has = λ j x.
      set_all (λ j p. carried p ≡ some x → In x (front ++ back)) s.workers i
        (place_after a.step a.connected)
        (λ j ne there. elim (In-middle x front item back (subst (In x) busy_is (h.has j x there))) [
          | inl same ↦ absurd (
              (==_ne_iff j i).0 ne
                (h.apart j i x item there has_item (ap (λ (z : FileItem). z.filename) (sym same))))
          | inr rest ↦ rest
        ])
        (λ e. absurd (let free = place_after-carried a.step a.connected in cc)) j;
  apart =
      set-Apart s.workers i (place_after a.step a.connected)
        (λ j x y ne mine his same. let free = place_after-carried a.step a.connected in absurd (cc))
        h.apart;
}
  where
    has_item : carried (s.workers i) ≡ some item
    has_item = ap carried at_item
