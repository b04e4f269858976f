-- ===== src/Wire/Io.antt =====
-- The errors of internal/wire/protocol.go, internal/receiver and transferFile, and what its functions use of Go's package `io`:
-- a reader, a writer, `io.ReadFull` and one `Write`.
use go_xport.Common.{
  ℕ, ◌-◌, ◌≤◌, ◌<◌, ◌≡◌, refl, Bool, true, false, [], ◌∷◌, ◌++◌, Bytes, arith, leb, le→leb, lt→leb,
  if◌then◌else◌, length, take, drop, take-append, drop-append, length-append, take-append-drop,
  length-take, leb→le, sym, Bool-cases, inl, inr,
}

-- What a read or a write reports: `io.EOF`, `io.ErrUnexpectedEOF`, `net.ErrClosed`, an error
-- whose `Timeout()` holds, and any other.
pub data IoError : Type 0 where
  eof unexpected_eof closed timeout broken : IoError

-- Why a file name is refused; each wraps `ErrInvalidFilename`.
pub data NameFault : Type 0 where
  path_separator temporary_suffix bad_pattern : NameFault

-- The step of CommitBarrier that failed, and the step of CreateStagedFile.
pub data CommitStep : Type 0 where
  sync_file close_file rename_file open_dir sync_dir : CommitStep

pub data StagingStep : Type 0 where
  make_dir random_bytes open_file : StagingStep

pub data TransferError : Type 0 where
  io nack_length nack_message trailer_read trailer_write : IoError → TransferError
  invalid_magic checksum_mismatch : TransferError
  invalid_filename : NameFault → TransferError
  name_too_long unexpected_response : ℕ → TransferError
  payload_too_large short_read : ℕ → ℕ → TransferError
  receiver_nack : Bytes → TransferError
  commit : CommitStep → TransferError
  ack_failed : IoError → TransferError
  staging : StagingStep → TransferError
  open_source stat_source : TransferError

-- A function's `error` result beside its value.
pub data Result {ℓ} (A : Type ℓ) : Type ℓ where
  ok : A → Result A
  err : TransferError → Result A

-- A call that changes the state `S`; what was read or written before an error stays so.
abbrev pub Exec {ℓ} : Type ℓ → Type ℓ → Type ℓ
Exec S A = S → Result A × S

module _ {ℓ} {S A : Type ℓ} where
  abbrev pub pure : A → Exec S A
  pure a s = (ok a, s)

  abbrev pub raise : TransferError → Exec S A
  raise e s = (err e, s)

  abbrev pub lift : Result A → Exec S A
  lift r s = (r, s)

module _ {ℓ} {S A B : Type ℓ} where
  abbrev pub and_then : Result A × S → (A → Exec S B) → Result B × S
  and_then (ok a, s) f = f a s
  and_then (err e, s) f = (err e, s)

  infixl 5 ◌>>=◌ ◌>>◌
  abbrev pub ◌>>=◌ : Exec S A → (A → Exec S B) → Exec S B
  ◌>>=◌ m f s = and_then (m s) f

  abbrev pub ◌>>◌ : Exec S A → Exec S B → Exec S B
  m >> n = m >>= λ _. n

-- `if bad { return err }`
abbrev pub guard : {S : Type 0} → Bool → TransferError → Exec S (Unit {0})
guard true e = lift (err e)
guard false e = lift (ok tt)

-- An `io.Reader`: the bytes that it will deliver, and what it reports behind them.
pub record Source : Type 0 where
  pub input : Bytes
  pub fault : IoError

-- An `io.Writer`: what was written, how many more bytes it takes, and what it reports behind them.
pub record Sink : Type 0 where
  pub written : Bytes
  pub room : ℕ
  pub fault : IoError

-- The error of `io.ReadFull` when `input` is all that there is, and is too little.
pub short_error : Bytes → IoError → IoError
short_error [] fault = fault
short_error (b ∷ bs) IoError.eof = IoError.unexpected_eof
short_error (b ∷ bs) fault = fault

-- `io.ReadFull(r, buf)` with `n = len(buf)`; `wrap` is what the caller makes of the error.
unfoldable pub read_full : (IoError → TransferError) → ℕ → Exec Source Bytes
unfolding short_error
read_full wrap n s =
    if leb n (length s.input)
    then (ok (take n s.input), record s { input = drop n s.input })
    else (err (wrap (short_error s.input s.fault)), record s { input = [] })

-- `w.Write(b)`: all of `b`, or what there is room for and an error.
unfoldable pub write : (IoError → TransferError) → Bytes → Exec Sink (Unit {0})
write wrap b s =
    if leb (length b) s.room
    then (ok tt, record s { written = s.written ++ b; room = s.room - length b })
    else (err (wrap s.fault), record s { written = s.written ++ take s.room b; room = 0 })

-- A read takes exactly the bytes in front.
pub read_full-append :
    (wrap : IoError → TransferError) (n : ℕ) (front rest : Bytes) (fault : IoError)
    → length front ≡ n
    → read_full wrap n (record { input = front ++ rest; fault = fault })
      ≡ (ok front, record { input = rest; fault = fault })
unfolding read_full
read_full-append wrap n front rest fault e = rw (
  ← e,
  le→leb (length front) (length (front ++ rest)) (omega (arith, length-append front rest)),
  take-append,
  drop-append,
)

pub read_full_short :
    (wrap : IoError → TransferError) (n : ℕ) (s : Source)
    → length s.input < n
    → read_full wrap n s ≡ (err (wrap (short_error s.input s.fault)), record s { input = [] })
unfolding read_full
read_full_short wrap n s h = rw (lt→leb n (length s.input) h)

pub write_fits :
    (wrap : IoError → TransferError) (b : Bytes) (s : Sink)
    → length b ≤ s.room
    → write wrap b s ≡ (ok tt, record s { written = s.written ++ b; room = s.room - length b })
unfolding write
write_fits wrap b s h = rw (le→leb (length b) s.room h)

pub write_full :
    (wrap : IoError → TransferError) (b : Bytes) (s : Sink)
    → s.room < length b
    → write wrap b s
      ≡ (err (wrap s.fault), record s { written = s.written ++ take s.room b; room = 0 })
unfolding write
write_full wrap b s h = rw (lt→leb (length b) s.room h)

-- What a successful call says of its parts.
module _ {ℓ} {S A B : Type ℓ} where
  and_then-ok :
      (r : Result A × S) (f : A → Exec S B) {b : B} {t : S}
      → and_then r f ≡ (ok b, t)
      → (a : A) × (s : S) × (r ≡ (ok a, s)) × (f a s ≡ (ok b, t))
  and_then-ok (ok a, s) f h = (a, s, refl, h)
  and_then-ok (err e, s) f h = cc

  pub >>=-ok :
      (m : Exec S A) (f : A → Exec S B) (s : S) {b : B} {t : S}
      → (m >>= f) s ≡ (ok b, t)
      → (a : A) × (u : S) × (m s ≡ (ok a, u)) × (f a u ≡ (ok b, t))
  >>=-ok m f s = and_then-ok (m s) f

pub read_full-ok :
    (wrap : IoError → TransferError) (n : ℕ) (s : Source) {a : Bytes} {t : Source}
    → read_full wrap n s ≡ (ok a, t)
    → (s.input ≡ a ++ t.input) × (length a ≡ n) × (t.fault ≡ s.fault)
unfolding read_full
read_full-ok wrap n s {a} {t} h = elim (Bool-cases (leb n (length s.input))) [
  | inl fits ↦
      let e : a ≡ take n s.input = ground arith in
      let q : t ≡ record s { input = drop n s.input } = ground arith in
      rw (e, q)
        (
          sym (take-append-drop n s.input),
          omega (arith, leb→le _ _ fits, length-take n s.input),
          refl,
        )
  | inr short ↦ absurd (ground arith)
]

pub guard-ok :
    {S : Type 0} (b : Bool) (e : TransferError) (s : S) {u : Unit {0}} {t : S}
    → guard b e s ≡ (ok u, t)
    → (b ≡ false) × (s ≡ t)
guard-ok true e s h = cc
guard-ok false e s h = (refl, ground arith)
