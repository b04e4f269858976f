-- ===== src/Sender/Scanner/Pushing.antt =====
-- What scanOnce of internal/sender/scanner.go hands over is in the queue afterwards.
use go_xport.Common.{
  ◌≡◌, refl, sym, subst, ◌∙◌, true, false, ◌||◌, List, [], ◌∷◌, ◌++◌, Bytes, equal, equal_iff,
  equal_refl, Bool-cases, inl, inr,
}
use mathlib.Core.Bool.{or-true}
use go_xport.Sender.Items.{FileItem, Sorter, is_listed, is_listed-Perm, is_listed-snoc}
use go_xport.Sender.Queue.{Queue, push}
use go_xport.Sender.Queue.Invariant.{IsQueue, push-IsQueue}
use go_xport.Sender.Scanner.{push_all}

module _ (name : Bytes) where
  push-keeps :
      (sorter : Sorter) (item : FileItem) (q : Queue)
      → is_listed name q.items ≡ true
      → is_listed name (push sorter item q).items ≡ true
  unfolding push
  push-keeps sorter item q h = elim (Bool-cases (q.stopped || q.in_queue item.filename)) [
    | inl e ↦ rw e h
    | inr e ↦ rw e (
        is_listed-Perm name (sorter.sort-Perm (q.items ++ (item ∷ [])))
        ∙ is_listed-snoc name q.items item
        ∙ rw h (or-true (equal name item.filename)))
  ]

  push_all-keeps :
      (sorter : Sorter) (items : List FileItem) (q : Queue)
      → is_listed name q.items ≡ true
      → is_listed name (push_all sorter items q).items ≡ true
  unfolding push_all
  push_all-keeps sorter [] q h = h
  push_all-keeps sorter (item ∷ items) q h =
      push_all-keeps sorter items (push sorter item q) (push-keeps sorter item q h)

push-lists :
    (sorter : Sorter) (item : FileItem) (q : Queue)
    → IsQueue q
    → q.stopped ≡ false
    → is_listed item.filename (push sorter item q).items ≡ true
unfolding push
push-lists sorter item q h runs = elim (Bool-cases (q.in_queue item.filename)) [
  | inl e ↦ rw (runs, e) (sym (h.keys item.filename) ∙ e)
  | inr e ↦
      rw (runs, e)
        (is_listed-Perm item.filename (sorter.sort-Perm (q.items ++ (item ∷ [])))
          ∙ is_listed-snoc item.filename q.items item
          ∙ rw (equal_refl item.filename) refl)
]

push-runs :
    (sorter : Sorter) (item : FileItem) (q : Queue)
    → q.stopped ≡ false
    → (push sorter item q).stopped ≡ false
unfolding push
push-runs sorter item q runs = elim (Bool-cases (q.in_queue item.filename)) [
  | inl e ↦ rw (runs, e) refl
  | inr e ↦ rw (runs, e) refl
]

pub push_all-lists :
    (sorter : Sorter) (name : Bytes) (items : List FileItem) (q : Queue)
    → IsQueue q
    → q.stopped ≡ false
    → is_listed name items ≡ true
    → is_listed name (push_all sorter items q).items ≡ true
unfolding push_all is_listed
push_all-lists sorter name [] q h runs there = absurd (cc)
push_all-lists sorter name (item ∷ items) q h runs there =
    elim (Bool-cases (equal name item.filename)) [
      | inl same ↦ push_all-keeps name sorter items (push sorter item q) (
          subst (λ n. is_listed n (push sorter item q).items ≡ true)
            (sym ((equal_iff name item.filename).0 same)) (push-lists sorter item q h runs))
      | inr ne ↦
          push_all-lists sorter name items (push sorter item q) (push-IsQueue sorter item q h)
            (push-runs sorter item q runs) (rw ne at there)
    ]
