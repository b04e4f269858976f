-- ===== src/Receiver/Server/Guarded.antt =====
-- What one step of a handler of internal/receiver/listener.go can do to the files: its own staged
-- file, a new one, and the file of a message that is complete.
use go_xport.Common.{
  ℕ, ◌≡◌, ◌≢◌, ◌⊎◌, inl, inr, refl, ap, Bool, true, false, ◌++◌, Bytes, IsBytes, Option, none, some,
  Bool-cases, length,
}
use mathlib.Core.Bool.{or-true}
use go_xport.Receiver.Commit.{Session}
use go_xport.Receiver.Connection.{Round, refuse}
use go_xport.Receiver.Connection.Safety.{IsDelivered}
use go_xport.Receiver.Disk.{Disk, FilePath, Faults, is_top}
use go_xport.Receiver.Server.Handler.{
  Phase, Handler, State, greeting, waiting, receiving, committing, placed, rejoin, greet,
}
use go_xport.Receiver.Server.Parts.{Within}
use go_xport.Receiver.Stager.{create_staged_file, staged_path, is_some}
use go_xport.Wire.Filename.{validate_filename}
use go_xport.Wire.Header.{header_bytes}
use go_xport.Wire.Io.{ok, TransferError}

-- The staged file that a handler is working on.
abbrev pub owned : Phase → Option FilePath
owned (receiving filename size staged) = some staged
owned (committing filename size staged) = some staged
owned _ = none

-- What is still to be read is part of what the client sent.
abbrev pub IsRest : Handler → Type 0
IsRest h = IsBytes h.src.input × Within h.src.input h.sent

module _ (sum256 : Bytes → Bytes) where
  -- What a handler has made of its message so far.
  abbrev pub IsWork : Disk → Handler → Phase → Type 0
  IsWork d h greeting = IsRest h
  IsWork d h waiting = IsRest h
  IsWork d h (receiving filename size staged) =
      IsBytes h.src.input
      × (validate_filename filename ≡ ok tt)
      × Within (header_bytes filename size ++ h.src.input) h.sent
      × ((rand : Bytes) × (staged ≡ staged_path rand))
      × (is_some (d.live staged) ≡ true)
  IsWork d h (committing filename size staged) =
      IsRest h
      × (validate_filename filename ≡ ok tt)
      × ((rand : Bytes) × (staged ≡ staged_path rand))
      × ((content : Bytes) × (d.live staged ≡ some (record { content = content; flushed = false }))
          × Within (header_bytes filename (length content) ++ (content ++ sum256 content)) h.sent)
  IsWork d h (placed filename size) = IsRest h
  IsWork d h _ = Unit {0}

  pub record Guarded (x y : State) : Type 0 where
    pub frame :
        (rand : Bytes)
        → is_some (x.disk.live (staged_path rand)) ≡ true
        → owned x.handler.phase ≢ some (staged_path rand)
        → y.disk.live (staged_path rand) ≡ x.disk.live (staged_path rand)
    pub owns :
        (p : FilePath)
        → owned y.handler.phase ≡ some p
        → (owned x.handler.phase ≡ some p) ⊎ (is_some (x.disk.live p) ≡ false)
    pub safe :
        (q : FilePath)
        → is_top q ≡ true
        → (y.disk.live q ≡ x.disk.live q) ⊎ IsDelivered sum256 x.handler.sent q (y.disk.live q)
    pub sent : y.handler.sent ≡ x.handler.sent
    pub work : IsWork y.disk y.handler y.handler.phase

  -- A step to a phase without a staged file, which changes the disk at most at its own staged file.
  pub leaves-Guarded :
      (x y : State)
      → ((rand : Bytes)
          → owned x.handler.phase ≢ some (staged_path rand)
          → y.disk.live (staged_path rand) ≡ x.disk.live (staged_path rand))
      → ((q : FilePath) → is_top q ≡ true → y.disk.live q ≡ x.disk.live q)
      → owned y.handler.phase ≡ none
      → y.handler.sent ≡ x.handler.sent
      → IsWork y.disk y.handler y.handler.phase
      → Guarded x y
  leaves-Guarded x y frame top free sent work = record {
    frame = λ rand there mine. frame rand mine;
    owns = λ p e. absurd (cc);
    safe = λ q h. inl (top q h);
    sent = sent;
    work = work;
  }

  -- One that leaves the disk alone.
  pub quiet-Guarded :
      (x y : State)
      → y.disk ≡ x.disk
      → owned y.handler.phase ≡ none
      → y.handler.sent ≡ x.handler.sent
      → IsWork y.disk y.handler y.handler.phase
      → Guarded x y
  quiet-Guarded x y same free sent work =
      leaves-Guarded x y (λ rand mine. ap (λ (d : Disk). d.live (staged_path rand)) same)
        (λ q h. ap (λ (d : Disk). d.live q) same) free sent work

  pub greet-Guarded :
      (failed : Bool) (now : ℕ) (x : State) → IsRest x.handler → Guarded x (greet failed now x)
  unfolding greet
  greet-Guarded true now x rest = quiet-Guarded x _ refl refl refl tt
  greet-Guarded false now x rest = quiet-Guarded x _ refl refl refl rest

  pub create_staged_file-fresh :
      (f : Faults) (rand : Bytes) (d d' : Disk) (p : FilePath)
      → create_staged_file f rand d ≡ (ok p, d')
      → is_some (d.live (staged_path rand)) ≡ false
  unfolding create_staged_file
  create_staged_file-fresh f rand d d' p e = elim (Bool-cases f.make_dir) [
    | inl a ↦ absurd (cc (rw a at e))
    | inr a ↦ elim (Bool-cases f.random_bytes) [
      | inl b ↦ absurd (cc (rw (a, b) at e))
      | inr b ↦ elim (Bool-cases (is_some (d.live (staged_path rand)))) [
        | inl c ↦ absurd (cc (rw (a, b, c, or-true f.open_file) at e))
        | inr c ↦ c
      ]
    ]
  ]

  module _ (describe : TransferError → Bytes) where
    pub refuse-Guarded :
        (r : Round) (context : Bytes) (e : TransferError) (max_size : ℕ) (x : State) (s : Session)
        → s.disk ≡ x.disk
        → Guarded x (rejoin (refuse sum256 describe max_size r context e s) x)
    unfolding refuse
    refuse-Guarded r context e max_size x s same = quiet-Guarded x _ same refl refl tt
