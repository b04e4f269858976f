-- ===== src/Receiver/Server/Parts.antt =====
-- Parts of what a client sends to internal/receiver/listener.go.
use go_xport.Common.{
  ◌≡◌, refl, sym, ap, ◌∙◌, [], ◌++◌, append_assoc, append-nil, Bytes, ℕ, IsBytes, All-split, subst,
  take, drop, take-append-drop, ◌<◌, length, some, true,
}
use go_xport.Receiver.Connection.Safety.{IsDelivered}
use go_xport.Receiver.Disk.{target_path}
use go_xport.Wire.Filename.{validate_filename}
use go_xport.Wire.Header.{header_bytes}
use go_xport.Wire.Io.{ok}

-- The bytes stand somewhere in what was sent.
abbrev pub Within : Bytes → Bytes → Type 0
Within part whole = (before : Bytes) × (behind : Bytes) × (whole ≡ before ++ (part ++ behind))

pub Within-all : (whole : Bytes) → Within whole whole
Within-all whole = ([], [], sym (append-nil whole))

pub Within-part :
    (whole front part back : Bytes) → Within (front ++ (part ++ back)) whole → Within part whole
Within-part whole front part back (before, behind, e) =
    (before ++ front, back ++ behind, e ∙ simp (append_assoc))

pub Within-back : (whole front part : Bytes) → Within (front ++ part) whole → Within part whole
Within-back whole front part (before, behind, e) =
    (before ++ front, behind, e ∙ simp (append_assoc))

pub Within-front : (whole part back : Bytes) → Within (part ++ back) whole → Within part whole
Within-front whole part back (before, behind, e) = (before, back ++ behind, e ∙ simp (append_assoc))

-- With what follows cut off after `left` bytes.
pub Within-take :
    (left : ℕ) (whole front part : Bytes)
    → Within (front ++ part) whole
    → Within (front ++ take left part) whole
Within-take left whole front part h =
    Within-front whole (front ++ take left part) (drop left part) (
      subst (λ b. Within b whole)
        (ap (◌++◌ front) (sym (take-append-drop left part))
          ∙ sym (append_assoc front (take left part) (drop left part)))
        h)

pub take-IsBytes : (left : ℕ) (b : Bytes) → IsBytes b → IsBytes (take left b)
take-IsBytes left b h =
    (All-split (λ c. c < 256) (take left b) (drop left b)
      (subst IsBytes (sym (take-append-drop left b)) h)).0

-- A whole message that was sent is delivered.
pub Within-IsDelivered :
    (sum256 : Bytes → Bytes) (sent name content : Bytes)
    → validate_filename name ≡ ok tt
    → Within (header_bytes name (length content) ++ (content ++ sum256 content)) sent
    → IsDelivered sum256 sent
        (target_path name)
        (some (record { content = content; flushed = true }))
Within-IsDelivered sum256 sent name content valid (before, behind, e) = record {
  name = name;
  content = content;
  before = before;
  behind = behind;
  valid = valid;
  path_is = refl;
  message = e ∙ simp (append_assoc);
  file_is = refl;
}
