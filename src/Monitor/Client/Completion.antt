-- ===== src/Monitor/Client/Completion.antt =====
-- PollAll of internal/monitor/client.go gives each target's result in the target's place, in whatever
-- order the polls end; and what RunMonitor makes of them.
use go_xport.Common.{
  ℕ, zero, suc, ◌<◌, ◌==◌, ==_iff, ◌≡◌, refl, sym, subst, ap, ◌∙◌, Bool, true, false, ◌||◌, List,
  [], ◌∷◌, Option, none, some, Bytes, length, map, Bool-cases, inl, inr, ◌⊎◌, arith,
}
use mathlib.Core.Option.{some-injective}
use go_xport.Monitor.Client.{Target, PollResult, parse_targets, evaluate_exit_code}
use go_xport.Monitor.Client.ExitCode.{Exits, evaluate_exit_code-Exits}
use go_xport.Monitor.Client.Polling.{
  Web, write_at, empty_slots, target_at, written_slots, poll_target, finish, finish_all, poll_all,
  run_monitor,
}

abbrev pub is_member : ℕ → List ℕ → Bool
is_member i [] = false
is_member i (j ∷ js) = i == j || is_member i js

-- Entry `i` has been written.
abbrev is_filled : ℕ → List (Option PollResult) → Bool
is_filled i [] = false
is_filled zero (none ∷ slots) = false
is_filled zero (some res ∷ slots) = true
is_filled (suc i) (slot ∷ slots) = is_filled i slots

-- The entries that have been written have these results.
Partial : List (Option PollResult) → List PollResult → Type 0
Partial [] [] = Unit {0}
Partial [] (res ∷ results) = ⊥
Partial (slot ∷ slots) [] = ⊥
Partial (none ∷ slots) (res ∷ results) = Partial slots results
Partial (some r ∷ slots) (res ∷ results) = (r ≡ res) × Partial slots results

Partial-all :
    (slots : List (Option PollResult)) (results : List PollResult)
    → Partial slots results
    → ((i : ℕ) → i < length results → is_filled i slots ≡ true)
    → slots ≡ map some results
unfolding Partial
Partial-all [] [] h full = refl
Partial-all [] (res ∷ results) h full = absurd h
Partial-all (none ∷ slots) [] h full = absurd h
Partial-all (some r ∷ slots) [] h full = absurd h
Partial-all (none ∷ slots) (res ∷ results) h full = absurd (let f = full 0 (omega arith) in cc)
Partial-all (some r ∷ slots) (res ∷ results) (e, h) full =
    rw (e, Partial-all slots results h (λ i lt. full (suc i) (omega arith))) refl

written_all : (results : List PollResult) → written_slots (map some results) ≡ results
written_all [] = refl
written_all (res ∷ results) = ap (◌∷◌ res) (written_all results)

write_at-keeps :
    (i j : ℕ) (res : PollResult) (slots : List (Option PollResult))
    → is_filled j slots ≡ true
    → is_filled j (write_at i res slots) ≡ true
write_at-keeps i j res [] h = absurd (cc)
write_at-keeps zero zero res (slot ∷ slots) h = refl
write_at-keeps zero (suc j) res (slot ∷ slots) h = h
write_at-keeps (suc i) zero res (slot ∷ slots) h = keep slot h
  where
    keep :
        (slot : Option PollResult)
        → is_filled zero (slot ∷ slots) ≡ true
        → is_filled zero (slot ∷ write_at i res slots) ≡ true
    keep none h = h
    keep (some r) h = h
write_at-keeps (suc i) (suc j) res (slot ∷ slots) h = write_at-keeps i j res slots h

module _ (sum256 : Bytes → Bytes) (load_key_pair : Bytes → Bytes → Option Bytes)
    (cert_file key_file : Bytes) where
  abbrev poll : Web → Target → PollResult
  poll = poll_target sum256 load_key_pair cert_file key_file

  -- Each target polled in its turn, with the answers of its place.
  abbrev pub poll_each : (ℕ → Web) → List Target → List PollResult
  poll_each webs [] = []
  poll_each webs (t ∷ ts) = poll (webs 0) t ∷ poll_each (λ i. webs (suc i)) ts

  length-poll_each : (webs : ℕ → Web) (ts : List Target) → length (poll_each webs ts) ≡ length ts
  length-poll_each webs [] = refl
  length-poll_each webs (t ∷ ts) = ap suc (length-poll_each (λ i. webs (suc i)) ts)

  empty-Partial : (webs : ℕ → Web) (ts : List Target) → Partial (empty_slots ts) (poll_each webs ts)
  unfolding Partial
  empty-Partial webs [] = tt
  empty-Partial webs (t ∷ ts) = empty-Partial (λ i. webs (suc i)) ts

  write_at-Partial :
      (webs : ℕ → Web) (ts : List Target) (i : ℕ) (t : Target) (slots : List (Option PollResult))
      → target_at i ts ≡ some t
      → Partial slots (poll_each webs ts)
      → Partial (write_at i (poll (webs i) t) slots) (poll_each webs ts)
  unfolding Partial
  write_at-Partial webs [] i t slots e h = absurd (cc)
  write_at-Partial webs (x ∷ ts) i t [] e h = h
  write_at-Partial webs (x ∷ ts) zero t (none ∷ slots) e h =
      (ap (poll (webs 0)) (sym (some-injective x t e)), h)
  write_at-Partial webs (x ∷ ts) zero t (some r ∷ slots) e h =
      (ap (poll (webs 0)) (sym (some-injective x t e)), h.1)
  write_at-Partial webs (x ∷ ts) (suc i) t (none ∷ slots) e h =
      write_at-Partial (λ i. webs (suc i)) ts i t slots e h
  write_at-Partial webs (x ∷ ts) (suc i) t (some r ∷ slots) e h =
      (h.0, write_at-Partial (λ i. webs (suc i)) ts i t slots e h.1)

  write_at-fills :
      (webs : ℕ → Web) (ts : List Target) (i : ℕ) (t : Target) (res : PollResult)
      (slots : List (Option PollResult))
      → target_at i ts ≡ some t
      → Partial slots (poll_each webs ts)
      → is_filled i (write_at i res slots) ≡ true
  unfolding Partial
  write_at-fills webs [] i t res slots e h = absurd (cc)
  write_at-fills webs (x ∷ ts) i t res [] e h = absurd h
  write_at-fills webs (x ∷ ts) zero t res (slot ∷ slots) e h = refl
  write_at-fills webs (x ∷ ts) (suc i) t res (none ∷ slots) e h =
      write_at-fills (λ i. webs (suc i)) ts i t res slots e h
  write_at-fills webs (x ∷ ts) (suc i) t res (some r ∷ slots) e h =
      write_at-fills (λ i. webs (suc i)) ts i t res slots e h.1

  target_at-some :
      (i : ℕ) (ts : List Target) → i < length ts → (t : Target) × (target_at i ts ≡ some t)
  target_at-some i [] lt = absurd (omega arith)
  target_at-some zero (t ∷ ts) lt = (t, refl)
  target_at-some (suc i) (t ∷ ts) lt = target_at-some i ts (omega arith)

  -- The goroutines that are still to end.
  record Completes (webs : ℕ → Web) (ts : List Target) (order : List ℕ)
      (slots : List (Option PollResult)) : Type 0 where
    partial : Partial slots (poll_each webs ts)
    pending : (i : ℕ) → i < length ts → (is_filled i slots ≡ true) ⊎ (is_member i order ≡ true)

  finish-Completes :
      (webs : ℕ → Web) (ts : List Target) (i : ℕ) (order : List ℕ)
      (slots : List (Option PollResult)) (o : Option Target)
      → target_at i ts ≡ o
      → Completes webs ts (i ∷ order) slots
      → Completes webs ts order (finish sum256 load_key_pair cert_file key_file webs i o slots)
  finish-Completes webs ts i order slots none e h = record {
    partial = h.partial;
    pending = λ j lt. elim (h.pending j lt) [
      | inl f ↦ inl f
      | inr m ↦ elim (Bool-cases (j == i)) [
        | inl same ↦
            let (t, there) =
              target_at-some i ts (subst (λ k. k < length ts) ((==_iff j i).0 same) lt) in
            absurd (cc)
        | inr ne ↦ inr (rw ne at m)
      ]
    ];
  }
  finish-Completes webs ts i order slots (some t) e h = record {
    partial = write_at-Partial webs ts i t slots e h.partial;
    pending = λ j lt. elim (h.pending j lt) [
      | inl f ↦ inl (write_at-keeps i j (poll (webs i) t) slots f)
      | inr m ↦ elim (Bool-cases (j == i)) [
        | inl same ↦ inl (
            subst (λ k. is_filled k (write_at i (poll (webs i) t) slots) ≡ true)
              (sym ((==_iff j i).0 same))
              (write_at-fills webs ts i t (poll (webs i) t) slots e h.partial))
        | inr ne ↦ inr (rw ne at m)
      ]
    ];
  }

  finish_all-Completes :
      (webs : ℕ → Web) (ts : List Target) (order : List ℕ) (slots : List (Option PollResult))
      → Completes webs ts order slots
      → Completes webs ts []
          (finish_all sum256 load_key_pair cert_file key_file webs ts order slots)
  unfolding finish_all
  finish_all-Completes webs ts [] slots h = h
  finish_all-Completes webs ts (i ∷ order) slots h =
      finish_all-Completes webs ts order _
        (finish-Completes webs ts i order slots (target_at i ts) refl h)

  -- PollAll gives what polling each target in its turn would give, in the targets' order, in
  -- whatever order the polls end, if each of them ends.
  pub poll_all-poll_each :
      (webs : ℕ → Web) (order : List ℕ) (ts : List Target)
      → ((i : ℕ) → i < length ts → is_member i order ≡ true)
      → poll_all sum256 load_key_pair cert_file key_file webs order ts
        ≡ map some (poll_each webs ts)
  unfolding poll_all
  poll_all-poll_each webs order ts each =
      let done =
        finish_all-Completes webs ts order (empty_slots ts)
          (record { partial = empty-Partial webs ts; pending = λ i lt. inr (each i lt) }) in
      Partial-all _ (poll_each webs ts) done.partial (λ i lt.
        elim (done.pending i (subst (λ n. i < n) (length-poll_each webs ts) lt)) [
          | inl f ↦ f
          | inr m ↦ absurd (cc)
        ])

  -- A single run of `xport monitor` whose targets are read ends with the exit code of its targets'
  -- answers: 2 exactly if some node is down or reports FAIL, else 1 exactly if some node reports
  -- WARN, and else 0; in whatever order the polls end, if each of them ends.
  pub run_monitor-Exits :
      (webs : ℕ → Web) (order : List ℕ) (raw : Bytes) (ts : List Target)
      → parse_targets raw ≡ some ts
      → ((i : ℕ) → i < length ts → is_member i order ≡ true)
      → (n : ℕ) × (run_monitor sum256 load_key_pair cert_file key_file webs order 0 raw ≡ some n)
        × Exits (poll_each webs ts) n
  unfolding run_monitor
  run_monitor-Exits webs order raw ts read each = (
    evaluate_exit_code (poll_each webs ts),
    rw read (
        ap (λ slots. some (evaluate_exit_code (written_slots slots)))
          (poll_all-poll_each webs order ts each)
        ∙ ap (λ rs. some (evaluate_exit_code rs)) (written_all (poll_each webs ts))),
    evaluate_exit_code-Exits (poll_each webs ts),
  )
