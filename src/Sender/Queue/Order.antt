-- ===== src/Sender/Queue/Order.antt =====
-- In which order the queue of internal/sender/queue.go hands out its items.
use go_xport.Common.{
  ℕ, zero, suc, arith, ◌+◌, ◌++◌, map, replicate, ◌≡◌, refl, sym, subst, ap, ◌∙◌, Bool, true, false,
  List, [], ◌∷◌, length, Bool-cases, inl, inr, if◌then◌else◌,
}
use go_xport.Monitor.Tracker.{set_queue_counts}
use go_xport.Sender.Items.{FileItem, IsOldest, IsSorted}
use go_xport.Sender.Queue.{Queue, Popped, blocked, closed, taken, pop, pop_from, stop}
use go_xport.Sender.Queue.Invariant.{IsQueue, put_self}

-- What a call of Pop on a well-formed queue gives: it blocks exactly if the queue is empty and
-- still running, and is refused exactly if it is empty and stopped.
pub data Pops (q : Queue) : Popped × Queue → Type 0 where
  waits : q.items ≡ [] → q.stopped ≡ false → Pops q (blocked, q)
  ends : q.items ≡ [] → q.stopped ≡ true → Pops q (closed, q)
  gives :
      {item : FileItem} {next : Queue}
      → q.items ≡ item ∷ next.items
      → IsOldest item next.items
      → next.in_queue item.filename ≡ false
      → next.tracker.waiting_files ≡ length next.items
      → Pops q (taken item, next)

pop_from-Pops :
    (items : List FileItem) (q : Queue) → q.items ≡ items → IsQueue q → Pops q (pop_from items q)
unfolding set_queue_counts
pop_from-Pops [] q e h = elim (Bool-cases q.stopped) [
  | inl s ↦ subst (λ b. Pops q (if b then closed else blocked, q)) (sym s) (Pops.ends e s)
  | inr s ↦ subst (λ b. Pops q (if b then closed else blocked, q)) (sym s) (Pops.waits e s)
]
pop_from-Pops (item ∷ items) q e h =
    Pops.gives e (subst IsSorted e h.sorted).0 (put_self q.in_queue item.filename false) refl

-- On a well-formed queue Pop takes an item as long as there is one, stopped or not: the one with
-- the oldest modification time, whose name may then be pushed again. On an empty queue it blocks
-- while the queue runs, and reports the end once it is stopped.
pub pop-Pops : (q : Queue) → IsQueue q → Pops q (pop q)
unfolding pop
pop-Pops q h = pop_from-Pops q.items q refl h

-- What workers are handed by so many calls of Pop.
abbrev pub drain : ℕ → Queue → List Popped
drain zero q = []
drain (suc n) q = let (r, next) = pop q in r ∷ drain n next

drain-empty : (k : ℕ) (q : Queue) → q.items ≡ [] → q.stopped ≡ true → drain k q ≡ replicate k closed
unfolding pop
drain-empty zero q e s = refl
drain-empty (suc k) q e s =
    let here : pop q ≡ (closed, q) =
      ap (λ items. pop_from items q) e
      ∙ ap (λ (b : Bool). ((if b then closed else blocked), q)) s in
    ap (λ (r : Popped × Queue). r.0 ∷ drain k r.1) here ∙ ap (◌∷◌ closed) (drain-empty k q e s)

drain_items :
    (items : List FileItem) (k : ℕ) (q : Queue)
    → q.items ≡ items
    → q.stopped ≡ true
    → drain (length items + k) q ≡ map taken items ++ replicate k closed
unfolding pop
drain_items [] k q e s = ap (λ n. drain n q) (omega arith) ∙ drain-empty k q e s
drain_items (item ∷ items) k q e s =
    let next : suc (length items) + k ≡ suc (length items + k) = omega arith in
    ap (λ n. drain n q) next
    ∙ ap (λ (r : Popped × Queue). r.0 ∷ drain (length items + k) r.1) (ap (λ is. pop_from is q) e)
    ∙ ap (◌∷◌ (taken item)) (drain_items items k _ refl s)

-- After Stop, calls of Pop still hand out every waiting item, in order, and only then report the
-- end, each time; none blocks.
pub drain-stop :
    (q : Queue) (k : ℕ)
    → drain (length q.items + k) (stop q) ≡ map taken q.items ++ replicate k closed
unfolding stop
drain-stop q k = drain_items q.items k (stop q) refl refl
