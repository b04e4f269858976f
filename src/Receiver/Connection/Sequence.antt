-- ===== src/Receiver/Connection/Sequence.antt =====
-- A whole connection, over any number of rounds: handleConnection of
-- internal/receiver/listener.go.
use go_xport.Common.{
  ℕ, ◌+◌, ◌%◌, ◌^◌, ◌<◌, ◌≡◌, ◌⊎◌, inl, inr, refl, sym, ap, ◌∙◌, subst, [], ◌∷◌, ◌++◌, List,
  append_assoc, append-nil, Bytes, IsBytes, Option, arith, length, All-split, replicate, suc,
}
use go_xport.Monitor.Tracker.{Tracker, record_error, record_success, add64}
use go_xport.Receiver.Disk.{Disk, File, FilePath}
use go_xport.Receiver.Commit.{Session}
use go_xport.Receiver.Connection.{Round, Next, stay, leave, serve, continue, handle_connection}
use go_xport.Receiver.Connection.Safety.{IsSafe, IsDelivered, serve-IsSafe}
use go_xport.Wire.Io.{TransferError}
use go_xport.Wire.Response.{ack_byte}
use go_xport.Wire.Stream.{hash_size}
use go_xport.Receiver.Connection.Answers.{
  IsRest, NoAck, HasAccepted, HasRefused, Answers, serve-Answers,
}

-- So many ACKs, then at most one other answer, which is no ACK and goes with one counted error;
-- each ACK is one counted file.
pub record IsAnswered (s t : Session) : Type 0 where
  pub accepted : ℕ
  pub answer : Bytes
  pub sent : t.dst.written ≡ s.dst.written ++ (replicate accepted ack_byte ++ answer)
  pub no_ack : NoAck answer
  pub files : t.tracker.files_total % 2 ^ 64 ≡ (s.tracker.files_total + accepted) % 2 ^ 64
  pub errors :
      ((answer ≡ []) × (t.tracker.errors_total ≡ s.tracker.errors_total))
      ⊎ (t.tracker.errors_total ≡ add64 s.tracker.errors_total 1)

none-IsAnswered : (s : Session) → IsAnswered s s
none-IsAnswered s = record {
  accepted = 0;
  answer = [];
  sent = sym (append-nil s.dst.written);
  no_ack = tt;
  files = omega arith;
  errors = inl (refl, refl);
}

refused-IsAnswered : (now : ℕ) (s t : Session) → HasRefused now s t → IsAnswered s t
unfolding record_error
refused-IsAnswered now s t h = record {
  accepted = 0;
  answer = h.answer;
  sent = h.sent;
  no_ack = h.no_ack;
  files = elim h.counted [
    | inl (_, kept) ↦ omega (arith, ap (λ (t : Tracker). t.files_total) kept)
    | inr e ↦ omega (arith, ap (λ (t : Tracker). t.files_total) e)
  ];
  errors = elim h.counted [
    | inl (nothing, kept) ↦ inl (nothing, ap (λ (t : Tracker). t.errors_total) kept)
    | inr e ↦ inr (ap (λ (t : Tracker). t.errors_total) e)
  ];
}

accepted-IsAnswered :
    (now : ℕ) (input : Bytes) (s t u : Session)
    → HasAccepted now input s t
    → IsAnswered t u
    → IsAnswered s u
unfolding record_success
accepted-IsAnswered now input s t u h k =
    let files = ap (λ (t : Tracker). t.files_total) h.counted in
    let errors = ap (λ (t : Tracker). t.errors_total) h.counted in
    record {
      accepted = suc k.accepted;
      answer = k.answer;
      no_ack = k.no_ack;
      sent =
          k.sent
          ∙ ap (λ (b : Bytes). b ++ (replicate k.accepted ack_byte ++ k.answer)) h.sent
          ∙ append_assoc s.dst.written (ack_byte ∷ []) (replicate k.accepted ack_byte ++ k.answer);
      files = omega (arith, k.files, files);
      errors = elim k.errors [
        | inl (nothing, kept) ↦ inl (nothing, kept ∙ errors)
        | inr e ↦ inr (e ∙ ap (λ n. add64 n 1) errors)
      ];
    }

module _ (sum256 : Bytes → Bytes) where
  -- What the rest of the input delivers, the input delivers.
  IsDelivered-rest :
      (rest input : Bytes) (q : FilePath) (file : Option File)
      → IsRest rest input
      → IsDelivered sum256 rest q file
      → IsDelivered sum256 input q file
  IsDelivered-rest rest input q file (before, split) h = record {
    name = h.name;
    content = h.content;
    before = before ++ h.before;
    behind = h.behind;
    valid = h.valid;
    path_is = h.path_is;
    message = split ∙ ap (◌++◌ before) h.message ∙ sym (append_assoc before h.before _);
    file_is = h.file_is;
  }

  IsSafe-trans :
      (rest input : Bytes) (d d' d'' : Disk)
      → IsRest rest input
      → IsSafe sum256 input d d'
      → IsSafe sum256 rest d' d''
      → IsSafe sum256 input d d''
  IsSafe-trans rest input d d' d'' split first second q top = go (second q top) (first q top)
    where
      go :
          (d''.live q ≡ d'.live q) ⊎ IsDelivered sum256 rest q (d''.live q)
          → (d'.live q ≡ d.live q) ⊎ IsDelivered sum256 input q (d'.live q)
          → (d''.live q ≡ d.live q) ⊎ IsDelivered sum256 input q (d''.live q)
      go (inr made) _ = inr (IsDelivered-rest rest input q (d''.live q) split made)
      go (inl same) (inl old) = inl (same ∙ old)
      go (inl same) (inr made) = inr (subst (IsDelivered sum256 input q) (sym same) made)

module _ (sum256 : Bytes → Bytes) (length-sum256 : (b : Bytes) → length (sum256 b) ≡ hash_size)
    (describe : TransferError → Bytes) (max_size : ℕ) where
  abbrev handle : List Round → Session → Session
  handle = handle_connection sum256 describe max_size

  -- What is known of a state `t` that the handler reaches from `s`.
  abbrev Keeps : Session → Session → Type 0
  Keeps s t = IsAnswered s t × IsSafe sum256 s.src.input s.disk t.disk

  IsBytes-rest : (rest input : Bytes) → IsRest rest input → IsBytes input → IsBytes rest
  IsBytes-rest rest input (before, split) bytes =
      (All-split (λ b. b < 256) before rest (subst IsBytes split bytes)).1

  continue-Keeps :
      (again : Session → Session)
      → ((t : Session) → IsBytes t.src.input → Keeps t (again t))
      → (now : ℕ) (s : Session) (o : Next × Session) → IsBytes s.src.input
      → Answers now s.src.input s o
      → IsSafe sum256 s.src.input s.disk o.1.disk
      → Keeps s (continue again o)
  continue-Keeps again ih now s (leave, t) bytes refused safe =
      (refused-IsAnswered now s t refused, safe)
  continue-Keeps again ih now s (stay, t) bytes accepted safe =
      let (answered, later) = ih t (IsBytes-rest t.src.input s.src.input accepted.rest bytes) in
      (
        accepted-IsAnswered now s.src.input s t (again t) accepted answered,
        IsSafe-trans sum256 t.src.input s.src.input s.disk t.disk (again t).disk accepted.rest safe
            later,
      )

  -- Over a whole connection, whatever bytes the client sends and whichever calls fail, the incoming
  -- directory changes only by files that the client delivered, complete, under a valid name and
  -- with their digests; each ACK sent is one file counted, modulo 2^64, and at most one error is
  -- counted, with the last answer, which is no ACK.
  pub handle_connection-IsSafe :
      (rs : List Round) (s : Session)
      → IsBytes s.src.input
      → IsAnswered s (handle_connection sum256 describe max_size rs s)
        × IsSafe sum256 s.src.input s.disk (handle_connection sum256 describe max_size rs s).disk
  unfolding handle_connection
  handle_connection-IsSafe [] s bytes = (none-IsAnswered s, λ q top. inl refl)
  handle_connection-IsSafe (r ∷ rs) s bytes =
      continue-Keeps (handle rs) (handle_connection-IsSafe rs) r.now s
        (serve sum256 describe max_size r s) bytes
        (serve-Answers sum256 length-sum256 describe max_size r s bytes)
        (serve-IsSafe sum256 length-sum256 describe max_size r s bytes)
