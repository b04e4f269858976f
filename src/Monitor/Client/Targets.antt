-- ===== src/Monitor/Client/Targets.antt =====
-- The list of targets of `xport monitor`, written and read: ParseTargets of
-- internal/monitor/client.go.
use go_xport.Common.{
  trim_space-clean, split_from-part, append-nil, map, ℕ, ◌≡◌, ◌≢◌, refl, sym, subst, ap, ◌∙◌, false,
  List, [], ◌∷◌, ◌++◌, Bytes, none, some, ◌==◌, lower_byte, is_space, split_from, split, All,
  All-append, arith, inl, inr,
}
use go_xport.Peers.Spelling.{IsDigit, Spells, normalize_fingerprint-Spells}
use go_xport.Monitor.Client.{
  Target, cut_at, target_of, add_target, targets_of, some_targets, parse_targets,
}

-- A byte of an address.
pub record IsPlain (c : ℕ) : Type 0 where
  pub not_comma : c == b',' ≡ false
  pub not_at : c == b'@' ≡ false
  pub not_space : is_space c ≡ false

-- An address that is not empty, and a fingerprint in small hexadecimal digits, or none.
pub record IsClean (t : Target) : Type 0 where
  pub plain : All IsPlain t.address
  pub nonempty : t.address ≢ []
  pub digits : All IsDigit t.fingerprint

abbrev pub pinned_by : Bytes → Bytes
pinned_by [] = []
pinned_by (c ∷ cs) = b'@' ∷ (c ∷ cs)

-- host:port@fingerprint, or host:port
abbrev pub written : Target → Bytes
written t = t.address ++ pinned_by t.fingerprint

abbrev pub written_after : List Target → Bytes
written_after [] = []
written_after (t ∷ ts) = b',' ∷ (written t ++ written_after ts)

lower-digit : (d : ℕ) → IsDigit d → lower_byte d ≡ d
lower-digit d (inl h) = ground arith
lower-digit d (inr h) = ground arith

pub digits-Spells : (fp : Bytes) → All IsDigit fp → Spells fp fp
digits-Spells [] h = Spells.done
digits-Spells (d ∷ ds) h = Spells.digit (lower-digit d h.0) h.0 (digits-Spells ds h.1)

cut_at-plain : (addr : Bytes) → All IsPlain addr → cut_at addr ≡ (addr, none)
unfolding cut_at
cut_at-plain [] h = refl
cut_at-plain (c ∷ cs) h = rw (h.0.not_at, cut_at-plain cs h.1) refl

cut_at-pinned :
    (addr fp : Bytes) → All IsPlain addr → cut_at (addr ++ (b'@' ∷ fp)) ≡ (addr, some fp)
unfolding cut_at
cut_at-pinned [] fp h = refl
cut_at-pinned (c ∷ cs) fp h = rw (h.0.not_at, cut_at-pinned cs fp h.1) refl

-- What holds of the bytes of the address and of the fingerprint holds of the text.
written-All :
    (P : ℕ → Type 0)
    → P b'@'
    → ((c : ℕ) → IsPlain c → P c)
    → ((c : ℕ) → IsDigit c → P c)
    → (t : Target) → IsClean t
    → All P (written t)
written-All P at plain digit t clean =
    All-append P t.address (pinned_by t.fingerprint) (each t.address plain clean.plain)
      (pinned t.fingerprint clean.digits)
  where
    each : {Q : ℕ → Type 0} (s : Bytes) → ((c : ℕ) → Q c → P c) → All Q s → All P s
    each [] f h = tt
    each (c ∷ cs) f h = (f c h.0, each cs f h.1)

    pinned : (fp : Bytes) → All IsDigit fp → All P (pinned_by fp)
    pinned [] h = tt
    pinned (c ∷ cs) h = (at, each (c ∷ cs) digit h)

pub digit-not_comma : (c : ℕ) → IsDigit c → c == b',' ≡ false
digit-not_comma c (inl h) = ground arith
digit-not_comma c (inr h) = ground arith

digit-not_space : (c : ℕ) → IsDigit c → is_space c ≡ false
digit-not_space c (inl h) = ground arith
digit-not_space c (inr h) = ground arith

split_from-after :
    (ts : List Target) → All IsClean ts → split_from b',' (written_after ts) ≡ ([], map written ts)
unfolding split_from
split_from-after [] h = refl
split_from-after (t ∷ ts) h =
    rw
      (split_from-part b',' (written t) (written_after ts) (map written ts)
        (written-All (λ c. c == b',' ≡ false) refl (λ c p. p.not_comma) digit-not_comma t h.0)
        (split_from-after ts h.1))
      refl

target_of-written : (t : Target) → IsClean t → target_of (cut_at (written t)) ≡ t
target_of-written t clean = of t.fingerprint refl
  where
    of : (fp : Bytes) → t.fingerprint ≡ fp → target_of (cut_at (t.address ++ pinned_by fp)) ≡ t
    of [] e =
        ap (λ s. target_of (cut_at s)) (append-nil t.address)
        ∙ ap target_of (cut_at-plain t.address clean.plain)
        ∙ ap (λ fp. record { address = t.address; fingerprint = fp }) (sym e)
    of (c ∷ cs) e =
        ap target_of (cut_at-pinned t.address (c ∷ cs) clean.plain)
        ∙ ap (λ fp. record { address = t.address; fingerprint = fp })
            (normalize_fingerprint-Spells
                (digits-Spells (c ∷ cs) (subst (All IsDigit) e clean.digits))
              ∙ sym e)

add_target-some :
    (s : Bytes) (ts : List Target) → s ≢ [] → add_target s ts ≡ target_of (cut_at s) ∷ ts
add_target-some [] ts h = absurd (h refl)
add_target-some (c ∷ cs) ts h = refl

written-nonempty : (t : Target) → IsClean t → written t ≢ []
written-nonempty t clean e = clean.nonempty (front t.address (pinned_by t.fingerprint) e)
  where
    front : (a b : Bytes) → a ++ b ≡ [] → a ≡ []
    front [] b e = refl
    front (c ∷ cs) b e = absurd (cc)

targets_of-written : (ts : List Target) → All IsClean ts → targets_of (map written ts) ≡ ts
unfolding targets_of
targets_of-written [] h = refl
targets_of-written (t ∷ ts) h =
    ap (λ s. add_target s (targets_of (map written ts)))
      (trim_space-clean (written t)
        (written-All (λ c. is_space c ≡ false) refl (λ c p. p.not_space) digit-not_space t h.0))
    ∙ add_target-some (written t) (targets_of (map written ts)) (written-nonempty t h.0)
    ∙ rw (target_of-written t h.0, targets_of-written ts h.1) refl

-- ParseTargets reads a list of one target or more, written with commas and "@", back as it was: the
-- addresses are not empty and without commas, "@" and white space, and the fingerprints are small
-- hexadecimal digits, or left out.
pub parse_targets-written :
    (t : Target) (ts : List Target)
    → All IsClean (t ∷ ts)
    → parse_targets (written t ++ written_after ts) ≡ some (t ∷ ts)
unfolding parse_targets split
parse_targets-written t ts h =
    rw
      (split_from-part b',' (written t) (written_after ts) (map written ts)
        (written-All (λ c. c == b',' ≡ false) refl (λ c p. p.not_comma) digit-not_comma t h.0)
        (split_from-after ts h.1))
      (ap some_targets (targets_of-written (t ∷ ts) h))
