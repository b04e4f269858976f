-- ===== src/Sender/Folder/Keeps.antt =====
-- What a rename and a removal leave of the other files of the watched directory.
use go_xport.Common.{
  ◌≡◌, refl, sym, Bool, true, false, not, ◌||◌, [], ◌∷◌, Bool-cases, inl, inr, ◌⊎◌,
}
use go_xport.Receiver.Disk.{FilePath, same_path, same_path_refl, same_path_iff}
use go_xport.Sender.Folder.{Folder, holds, without, rename, remove}

different : (p q : FilePath) → same_path p q ≡ false → same_path q p ≡ false
different p q ne = elim (Bool-cases (same_path q p)) [
  | inl e ↦ let same = (same_path_iff q p).0 e in let self = same_path_refl p in absurd (cc)
  | inr e ↦ e
]

without-holds :
    (p path : FilePath) (folder : Folder)
    → same_path p path ≡ false
    → holds path folder ≡ true
    → holds path (without p folder) ≡ true
without-holds p path [] ne h = h
without-holds p path (q ∷ qs) ne h = elim (Bool-cases (same_path p q)) [
  | inl gone ↦ elim (Bool-cases (same_path path q)) [
    | inl here ↦
        let e1 = (same_path_iff p q).0 gone in
        let e2 = (same_path_iff path q).0 here in let e3 = same_path_refl p in absurd (cc)
    | inr there ↦ rw gone (without-holds p path qs ne (rw there at h))
  ]
  | inr kept ↦ elim (Bool-cases (same_path path q)) [
    | inl here ↦ rw (kept, here) refl
    | inr there ↦ rw (kept, there) (without-holds p path qs ne (rw there at h))
  ]
]

-- A file stays, or it is the one that was renamed, and is there under its new name.
pub rename-holds :
    (fails : Bool) (p q path : FilePath) (folder : Folder)
    → holds path folder ≡ true
    → (holds path (rename fails p q folder).1 ≡ true)
      ⊎ ((path ≡ p) × (holds q (rename fails p q folder).1 ≡ true))
unfolding rename
rename-holds fails p q path folder h = elim (Bool-cases (fails || not (holds p folder))) [
  | inl e ↦ inl (rw e h)
  | inr e ↦ elim (Bool-cases (same_path p path)) [
    | inl same ↦ inr (sym ((same_path_iff p path).0 same), rw (e, same_path_refl q) refl)
    | inr other ↦ inl (
        rw e (elim (Bool-cases (same_path path q)) [
          | inl here ↦ rw here refl
          | inr there ↦ rw there (
              without-holds q path (without p folder) (different path q there)
                (without-holds p path folder other h))
        ]))
  ]
]

-- A file stays, or it is the one that was removed.
pub remove-holds :
    (fails : Bool) (p path : FilePath) (folder : Folder)
    → holds path folder ≡ true
    → (holds path (remove fails p folder).1 ≡ true) ⊎ (path ≡ p)
unfolding remove
remove-holds fails p path folder h = elim (Bool-cases (fails || not (holds p folder))) [
  | inl e ↦ inl (rw e h)
  | inr e ↦ elim (Bool-cases (same_path p path)) [
    | inl same ↦ inr (sym ((same_path_iff p path).0 same))
    | inr other ↦ inl (rw e (without-holds p path folder other h))
  ]
]
