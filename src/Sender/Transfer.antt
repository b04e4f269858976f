-- ===== src/Sender/Transfer.antt =====
-- transferFile of internal/sender/client.go. The text that `fmt.Errorf` puts before an error is left
-- out: each error is the wrapped one.
pub mod Sends
pub mod EndToEnd
pub mod Acknowledged
use go_xport.Common.{ℕ, Bytes, Option, none, some, []}
use go_xport.Wire.Header.{write_request_header}
use go_xport.Wire.Io.{
  ◌>>=◌, ◌>>◌, Exec, pure, lift, Result, ok, err, TransferError, open_source, stat_source, Source,
  Sink,
}
use go_xport.Wire.Response.{read_response}
use go_xport.Wire.Stream.{send_stream}

-- The connection: what the sender writes, and what the receiver answers.
pub record Link : Type 0 where
  pub out : Sink
  pub back : Source

-- The source file once it is open: the size that `f.Stat()` reports, if it does, and what reading
-- the file delivers, which is another size if the file is being written.
pub record OpenFile : Type 0 where
  pub stat_size : Option ℕ
  pub stream : Source

abbrev pub on_out {ℓ} : {A : Type ℓ} → (Sink → Result A × Sink) → Link → Result A × Link
on_out m l = let (r, out) = m l.out in (r, record l { out = out })

abbrev pub on_back {ℓ} : {A : Type ℓ} → (Source → Result A × Source) → Link → Result A × Link
on_back m l = let (r, back) = m l.back in (r, record l { back = back })

abbrev pub or_fail {ℓ} : {A : Type ℓ} → Option A → TransferError → Result A
or_fail none e = err e
or_fail (some a) e = ok a

module _ (sum256 : Bytes → Bytes) where
  -- SendStream from the file to the connection.
  unfoldable pub stream_file : ℕ → Source → Sink → Result Bytes × Sink
  stream_file payload_size stream out =
      let (r, c) =
        send_stream sum256 payload_size (record { src = stream; dst = out; hashed = [] }) in
      (r, c.dst)

  unfoldable pub send_file : Bytes → ℕ → Source → Exec Link (Unit {0})
  send_file filename payload_size stream = do
    on_out (write_request_header filename payload_size)
    on_out (stream_file payload_size stream)
    pure tt

  -- `opened` is none where `os.Open` fails.
  unfoldable pub transfer_file : Option OpenFile → Bytes → Exec Link (Unit {0})
  transfer_file opened filename = do
    f ← lift (or_fail opened open_source)
    payload_size ← lift (or_fail f.stat_size stat_source)
    send_file filename payload_size f.stream
    on_back read_response
