-- ===== src/Sender/Items.antt =====
-- FileItem of internal/sender/scanner.go, and lists of items sorted by modification time, as
-- `sort.Slice` leaves them. The algorithm of package `sort` is a parameter with its documented laws.
use go_xport.Common.{
  inl, inr, ◌⊎◌, ℕ, ◌≤◌, ◌≡◌, refl, sym, subst, ap, ◌∙◌, Bool, true, false, ◌||◌, List, [], ◌∷◌,
  ◌++◌, Bytes, equal, equal_comm, All,
}
use go_xport.Receiver.Disk.{FilePath}
use mathlib.Core.List.{Permᴰ}

-- The path is relative to the watched directory; times are nanoseconds.
pub record FileItem : Type 0 where
  pub filename : Bytes
  pub path : FilePath
  pub size : ℕ
  pub mod_time : ℕ

-- Some item of the list has the name.
unfoldable pub is_listed : Bytes → List FileItem → Bool
is_listed name [] = false
is_listed name (item ∷ items) = equal name item.filename || is_listed name items

-- No two items have the same name.
abbrev pub Distinct : List FileItem → Type 0
Distinct [] = Unit {0}
Distinct (item ∷ items) = (is_listed item.filename items ≡ false) × Distinct items

-- Oldest first.
abbrev pub IsOldest : FileItem → List FileItem → Type 0
IsOldest item items = All (λ other. item.mod_time ≤ other.mod_time) items

abbrev pub IsSorted : List FileItem → Type 0
IsSorted [] = Unit {0}
IsSorted (item ∷ items) = IsOldest item items × IsSorted items

-- What package `sort` documents of `sort.Slice` with the order on modification times: the elements
-- stay, and are in order afterwards; which of two equal times comes first is left open.
pub record Sorter : Type 0 where
  pub sort : List FileItem → List FileItem
  pub sort-Perm : (items : List FileItem) → Permᴰ (sort items) items
  pub sort-IsSorted : (items : List FileItem) → IsSorted (sort items)

||-swap : (a b c : Bool) → a || (b || c) ≡ b || (a || c)
||-swap true true c = refl
||-swap true false c = refl
||-swap false b c = refl

pub ||-false : (a b : Bool) → a || b ≡ false → (a ≡ false) × (b ≡ false)
||-false true b h = absurd (cc)
||-false false b h = (refl, h)

pub is_listed-Perm :
    (name : Bytes) {xs ys : List FileItem} → Permᴰ xs ys → is_listed name xs ≡ is_listed name ys
unfolding is_listed
is_listed-Perm name Permᴰ.nil = refl
is_listed-Perm name (Permᴰ.cons e d) = rw (e, is_listed-Perm name d)
is_listed-Perm name (Permᴰ.swap {a} {b} {l = l} e1 e2) =
    rw (sym e1, sym e2) (||-swap (equal name a.filename) (equal name b.filename) (is_listed name l))
is_listed-Perm name (Permᴰ.trans d1 d2) = is_listed-Perm name d1 ∙ is_listed-Perm name d2

Distinct-swap : (a b : FileItem) (l : List FileItem) → Distinct (a ∷ b ∷ l) → Distinct (b ∷ a ∷ l)
unfolding is_listed
Distinct-swap a b l (h, hs) =
    let (ab, al) = ||-false (equal a.filename b.filename) (is_listed a.filename l) h in
    (rw (equal_comm b.filename a.filename, ab) hs.0, (al, hs.1))

pub Distinct-Perm : {xs ys : List FileItem} → Permᴰ xs ys → Distinct xs → Distinct ys
unfolding is_listed
Distinct-Perm Permᴰ.nil h = h
Distinct-Perm (Permᴰ.cons {l₂ = l2} e d) (h, hs) = (
  subst (λ (i : FileItem). is_listed i.filename l2 ≡ false) e (sym (is_listed-Perm _ d) ∙ h),
  Distinct-Perm d hs,
)
Distinct-Perm (Permᴰ.swap {a} {b} {b' = b'} {l = l} e1 e2) h =
    subst (λ (x : FileItem). Distinct (x ∷ b' ∷ l)) e2
      (subst (λ (y : FileItem). Distinct (b ∷ y ∷ l)) e1 (Distinct-swap a b l h))
Distinct-Perm (Permᴰ.trans d1 d2) h = Distinct-Perm d2 (Distinct-Perm d1 h)

pub is_listed-snoc :
    (name : Bytes) (items : List FileItem) (item : FileItem)
    → is_listed name (items ++ (item ∷ [])) ≡ equal name item.filename || is_listed name items
unfolding is_listed
is_listed-snoc name [] item = refl
is_listed-snoc name (x ∷ xs) item =
    ap (λ (b : Bool). equal name x.filename || b) (is_listed-snoc name xs item)
    ∙ ||-swap (equal name x.filename) (equal name item.filename) (is_listed name xs)

pub Distinct-snoc :
    (items : List FileItem) (item : FileItem)
    → Distinct items
    → is_listed item.filename items ≡ false
    → Distinct (items ++ (item ∷ []))
unfolding is_listed
Distinct-snoc [] item h fresh = (refl, tt)
Distinct-snoc (x ∷ xs) item (h, hs) fresh =
    let (ne, rest) = ||-false (equal item.filename x.filename) (is_listed item.filename xs) fresh in
    (
      is_listed-snoc x.filename xs item ∙ rw (equal_comm x.filename item.filename, ne) h,
      Distinct-snoc xs item hs rest,
    )

pub All-Perm : (P : FileItem → Type 0) {xs ys : List FileItem} → Permᴰ xs ys → All P xs → All P ys
All-Perm P Permᴰ.nil h = h
All-Perm P (Permᴰ.cons e d) (h, hs) = (subst P e h, All-Perm P d hs)
All-Perm P (Permᴰ.swap e1 e2) (h, hs) = (subst P e2 hs.0, (subst P e1 h, hs.1))
All-Perm P (Permᴰ.trans d1 d2) h = All-Perm P d2 (All-Perm P d1 h)

-- The item is one of the list.
abbrev pub In : FileItem → List FileItem → Type 0
In item [] = ⊥
In item (x ∷ xs) = (x ≡ item) ⊎ In item xs

pub All-In :
    (P : FileItem → Type 0) (items : List FileItem)
    → ((item : FileItem) → In item items → P item)
    → All P items
All-In P [] h = tt
All-In P (x ∷ xs) h = (h x (inl refl), All-In P xs (λ item i. h item (inr i)))

pub is_listed-Perm-sort :
    (sorter : Sorter) (name : Bytes) (items : List FileItem)
    → is_listed name (sorter.sort items) ≡ is_listed name items
is_listed-Perm-sort sorter name items = is_listed-Perm name (sorter.sort-Perm items)

-- An item out of the middle of a list.
pub is_listed-middle :
    (name : Bytes) (front : List FileItem) (item : FileItem) (back : List FileItem)
    → is_listed name (front ++ (item ∷ back))
      ≡ equal name item.filename || is_listed name (front ++ back)
unfolding is_listed
is_listed-middle name [] item back = refl
is_listed-middle name (x ∷ front) item back =
    ap (λ (b : Bool). equal name x.filename || b) (is_listed-middle name front item back)
    ∙ ||-swap (equal name x.filename) (equal name item.filename) (is_listed name (front ++ back))

pub Distinct-middle :
    (front : List FileItem) (item : FileItem) (back : List FileItem)
    → Distinct (front ++ (item ∷ back))
    → (is_listed item.filename (front ++ back) ≡ false) × Distinct (front ++ back)
unfolding is_listed
Distinct-middle [] item back h = h
Distinct-middle (x ∷ front) item back (h, hs) =
    let (ne, rest) =
      ||-false (equal x.filename item.filename) (is_listed x.filename (front ++ back))
        (sym (is_listed-middle x.filename front item back) ∙ h) in
    let (free, tail) = Distinct-middle front item back hs in
    (rw (equal_comm item.filename x.filename, ne) free, (rest, tail))
