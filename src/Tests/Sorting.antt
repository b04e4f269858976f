-- ===== src/Tests/Sorting.antt =====
-- A sort by insertion, which has the laws that the queue relies on.
use go_xport.Common.{
  ◌≤◌, refl, List, [], ◌∷◌, leb, leb→le, leb→lt, if◌then◌else◌, Bool-cases, inl, inr, arith,
}
use go_xport.Sender.Items.{FileItem, Sorter, IsOldest, IsSorted, All-Perm}
use mathlib.Core.List.{Permᴰ}
use mathlib.Core.List.Permᴰ

abbrev insert : FileItem → List FileItem → List FileItem
insert item [] = item ∷ []
insert item (x ∷ xs) =
    let rest = insert item xs in if leb item.mod_time x.mod_time then item ∷ (x ∷ xs) else x ∷ rest

abbrev sort : List FileItem → List FileItem
sort [] = []
sort (x ∷ xs) = insert x (sort xs)

insert-Perm : (item : FileItem) (xs : List FileItem) → Permᴰ (insert item xs) (item ∷ xs)
insert-Perm item [] = Permᴰ.refl (item ∷ [])
insert-Perm item (x ∷ xs) = elim (Bool-cases (leb item.mod_time x.mod_time)) [
  | inl e ↦ rw e (Permᴰ.refl (item ∷ x ∷ xs))
  | inr e ↦ rw e (Permᴰ.trans (Permᴰ.cons refl (insert-Perm item xs)) (Permᴰ.swap refl refl))
]

pub sort-Perm : (xs : List FileItem) → Permᴰ (sort xs) xs
sort-Perm [] = Permᴰ.nil
sort-Perm (x ∷ xs) = Permᴰ.trans (insert-Perm x (sort xs)) (Permᴰ.cons refl (sort-Perm xs))

older :
    (item x : FileItem) (xs : List FileItem)
    → item.mod_time ≤ x.mod_time
    → IsOldest x xs
    → IsOldest item xs
older item x [] le h = tt
older item x (y ∷ ys) le (h, hs) = (omega arith, older item x ys le hs)

insert-IsSorted : (item : FileItem) (xs : List FileItem) → IsSorted xs → IsSorted (insert item xs)
insert-IsSorted item [] h = (tt, tt)
insert-IsSorted item (x ∷ xs) (h, hs) = elim (Bool-cases (leb item.mod_time x.mod_time)) [
  | inl e ↦ rw e (
    (leb→le item.mod_time x.mod_time e, older item x xs (leb→le item.mod_time x.mod_time e) h),
    (h, hs),
  )
  | inr e ↦
      let lt = leb→lt item.mod_time x.mod_time e in
      rw e (
        All-Perm (λ other. x.mod_time ≤ other.mod_time) (Permᴰ.symm (insert-Perm item xs))
            (omega arith, h),
        insert-IsSorted item xs hs,
      )
]

pub sort-IsSorted : (xs : List FileItem) → IsSorted (sort xs)
sort-IsSorted [] = tt
sort-IsSorted (x ∷ xs) = insert-IsSorted x (sort xs) (sort-IsSorted xs)

abbrev pub sorter : Sorter
sorter = record { sort = sort; sort-Perm = sort-Perm; sort-IsSorted = sort-IsSorted }
