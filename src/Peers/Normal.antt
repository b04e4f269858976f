-- ===== src/Peers/Normal.antt =====
-- NormalizeFingerprint and ParseFingerprints of internal/tlsutil/verify.go, applied to what they give:
-- cmd/xport parses the fingerprints of its flags, and MakeVerifyPeerCertificate parses them again.
use go_xport.Common.{
  Lacks, remove_byte-same, split-same, remove_byte-Lacks, remove_byte-All, trim_space-All,
  to_lower-Lacks, split_from-Lacks, trim_space-trim_space, to_lower-to_lower, trim_space-to_lower,
  ℕ, ◌<◌, ◌≡◌, ◌≢◌, refl, ap, ◌∙◌, false, List, [], ◌∷◌, ◌++◌, Bytes, ◌==◌, remove_byte, to_lower,
  trim_space, split, All, All-append, arith,
}
use go_xport.Peers.{normalize_fingerprint, parse_parts, parse_fingerprints, keep}

-- What is trimmed and made small in NormalizeFingerprint.
abbrev bare : Bytes → Bytes
bare s = remove_byte b' ' (remove_byte b':' s)

normalize_fingerprint-Lacks :
    (b : ℕ) (s : Bytes) → b < b'a' → Lacks b (bare s) → Lacks b (normalize_fingerprint s)
unfolding normalize_fingerprint
normalize_fingerprint-Lacks b s low h =
    to_lower-Lacks b (trim_space (bare s)) low (trim_space-All (λ c. c == b ≡ false) (bare s) h)

normalize_fingerprint-normalize_fingerprint :
    (s : Bytes) → normalize_fingerprint (normalize_fingerprint s) ≡ normalize_fingerprint s
unfolding normalize_fingerprint
normalize_fingerprint-normalize_fingerprint s =
    let t = trim_space (bare s) in
    let no_colon =
      remove_byte-All (λ c. c == b':' ≡ false) b' ' (remove_byte b':' s)
        (remove_byte-Lacks b':' s) in
    let no_space = remove_byte-Lacks b' ' (remove_byte b':' s) in
    ap (λ u. to_lower (trim_space (remove_byte b' ' u)))
      (remove_byte-same b':' (to_lower t)
        (normalize_fingerprint-Lacks b':' s (omega arith) no_colon))
    ∙ ap (λ u. to_lower (trim_space u))
        (remove_byte-same b' ' (to_lower t)
          (normalize_fingerprint-Lacks b' ' s (omega arith) no_space))
    ∙ ap to_lower (trim_space-to_lower t)
    ∙ to_lower-to_lower (trim_space t)
    ∙ ap to_lower (trim_space-trim_space (bare s))

-- A text that ParseFingerprints leaves as it is.
abbrev IsNormal : Bytes → Type 0
IsNormal fp = (normalize_fingerprint fp ≡ fp) × Lacks b',' fp × (fp ≢ [])

keep-IsNormal :
    (fp : Bytes) (rest : List Bytes)
    → normalize_fingerprint fp ≡ fp
    → Lacks b',' fp
    → All IsNormal rest
    → All IsNormal (keep fp rest)
keep-IsNormal [] rest same lacks h = h
keep-IsNormal (c ∷ cs) rest same lacks h = ((same, lacks, λ e. absurd (cc)), h)

parse_parts-IsNormal :
    (parts : List Bytes) → All (Lacks b',') parts → All IsNormal (parse_parts parts)
unfolding parse_parts
parse_parts-IsNormal [] h = tt
parse_parts-IsNormal (part ∷ parts) h =
    let P = λ (c : ℕ). c == b',' ≡ false in
    let lacks = remove_byte-All P b' ' (remove_byte b':' part) (remove_byte-All P b':' part h.0) in
    keep-IsNormal (normalize_fingerprint part) (parse_parts parts)
      (normalize_fingerprint-normalize_fingerprint part)
      (normalize_fingerprint-Lacks b',' part (omega arith) lacks) (parse_parts-IsNormal parts h.1)

parse_fingerprints-IsNormal : (items : List Bytes) → All IsNormal (parse_fingerprints items)
unfolding parse_fingerprints split
parse_fingerprints-IsNormal [] = tt
parse_fingerprints-IsNormal (item ∷ items) =
    let (first, rest) = split_from-Lacks b',' item in
    All-append IsNormal (parse_parts (split b',' item)) (parse_fingerprints items)
      (parse_parts-IsNormal (split b',' item) (first, rest)) (parse_fingerprints-IsNormal items)

keep-same : (fp : Bytes) (rest : List Bytes) → fp ≢ [] → keep fp rest ≡ fp ∷ rest
keep-same [] rest ne = absurd (ne refl)
keep-same (c ∷ cs) rest ne = refl

parse_fingerprints-same : (fps : List Bytes) → All IsNormal fps → parse_fingerprints fps ≡ fps
unfolding parse_fingerprints parse_parts
parse_fingerprints-same [] h = refl
parse_fingerprints-same (fp ∷ fps) ((normal, lacks, ne), h) =
    ap (λ parts. parse_parts parts ++ parse_fingerprints fps) (split-same b',' fp lacks)
    ∙ ap (λ t. keep t [] ++ parse_fingerprints fps) normal
    ∙ ap (λ kept. kept ++ parse_fingerprints fps) (keep-same fp [] ne)
    ∙ ap (◌∷◌ fp) (parse_fingerprints-same fps h)

-- ParseFingerprints changes nothing in what it has given.
pub parse_fingerprints-parse_fingerprints :
    (items : List Bytes) → parse_fingerprints (parse_fingerprints items) ≡ parse_fingerprints items
parse_fingerprints-parse_fingerprints items =
    parse_fingerprints-same (parse_fingerprints items) (parse_fingerprints-IsNormal items)
