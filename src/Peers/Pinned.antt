-- ===== src/Peers/Pinned.antt =====
-- Which certificates the callback of internal/tlsutil/verify.go lets through.
use go_xport.Common.{
  ◌+◌, ◌≡◌, ◌≢◌, ◌↔◌, ◌⊎◌, inl, inr, refl, sym, ap, true, List, [], ◌∷◌, ◌++◌, Bytes, equal,
  equal_iff, hex, split, Bool-cases, length, arith,
}
use go_xport.Peers.{
  accepted, normalize_fingerprint, keep, parse_parts, parse_fingerprints, is_matched,
  fingerprint_der, verify_der, verify_peer_certificate,
}
use go_xport.Wire.Stream.{hash_size}

-- One of the parts is the fingerprint, when its colons and spaces are dropped and its letters are
-- made small; the items are cut at their commas.
abbrev pub IsPart : Bytes → List Bytes → Type 0
IsPart fp [] = ⊥
IsPart fp (part ∷ parts) = (normalize_fingerprint part ≡ fp) ⊎ IsPart fp parts

abbrev pub Pins : List Bytes → Bytes → Type 0
Pins [] fp = ⊥
Pins (item ∷ items) fp = IsPart fp (split b',' item) ⊎ Pins items fp

-- A member of the list.
abbrev Among : Bytes → List Bytes → Type 0
Among fp [] = ⊥
Among fp (x ∷ xs) = (x ≡ fp) ⊎ Among fp xs

Among-append : (fp : Bytes) (xs ys : List Bytes) → Among fp (xs ++ ys) ↔ (Among fp xs ⊎ Among fp ys)
Among-append fp [] ys = (λ h. inr h, λ h. elim h [ inl x ↦ absurd x | inr y ↦ y ])
Among-append fp (x ∷ xs) ys = (
  λ h. elim h [
    | inl e ↦ inl (inl e)
    | inr t ↦ elim ((Among-append fp xs ys).0 t) [ inl a ↦ inl (inr a) | inr b ↦ inr b ]
  ],
  λ h. elim h [
    | inl a ↦ elim a [ inl e ↦ inl e | inr t ↦ inr ((Among-append fp xs ys).1 (inl t)) ]
    | inr b ↦ inr ((Among-append fp xs ys).1 (inr b))
  ],
)

is_matched_iff : (fp : Bytes) (xs : List Bytes) → (is_matched fp xs ≡ true) ↔ Among fp xs
unfolding is_matched
is_matched_iff fp [] = (λ h. absurd (cc), λ h. absurd h)
is_matched_iff fp (x ∷ xs) = (
  λ h. elim (Bool-cases (equal fp x)) [
    | inl e ↦ inl (sym ((equal_iff fp x).0 e))
    | inr e ↦ inr ((is_matched_iff fp xs).0 (rw e at h))
  ],
  λ h. elim (Bool-cases (equal fp x)) [
    | inl e ↦ rw e refl
    | inr e ↦ elim h [
      | inl same ↦ (let self = (equal_iff fp x).1 (sym same) in absurd (cc))
      | inr t ↦ rw e ((is_matched_iff fp xs).1 t)
    ]
  ],
)

keep_iff :
    (fp c : Bytes) (rest : List Bytes)
    → fp ≢ []
    → Among fp (keep c rest) ↔ ((c ≡ fp) ⊎ Among fp rest)
keep_iff fp [] rest ne = (λ h. inr h, λ h. elim h [ inl e ↦ absurd (ne (sym e)) | inr t ↦ t ])
keep_iff fp (c ∷ cs) rest ne = (λ h. h, λ h. h)

parse_parts_iff :
    (fp : Bytes) (parts : List Bytes) → fp ≢ [] → Among fp (parse_parts parts) ↔ IsPart fp parts
unfolding parse_parts
parse_parts_iff fp [] ne = (λ h. h, λ h. h)
parse_parts_iff fp (part ∷ parts) ne =
    let kept = keep_iff fp (normalize_fingerprint part) (parse_parts parts) ne in
    let more = parse_parts_iff fp parts ne in
    (
      λ h. elim (kept.0 h) [ inl e ↦ inl e | inr t ↦ inr (more.0 t) ],
      λ h. kept.1 (elim h [ inl e ↦ inl e | inr t ↦ inr (more.1 t) ]),
    )

parse_fingerprints_iff :
    (fp : Bytes) (items : List Bytes)
    → fp ≢ []
    → Among fp (parse_fingerprints items) ↔ Pins items fp
unfolding parse_fingerprints
parse_fingerprints_iff fp [] ne = (λ h. h, λ h. h)
parse_fingerprints_iff fp (item ∷ items) ne =
    let cut = Among-append fp (parse_parts (split b',' item)) (parse_fingerprints items) in
    let first = parse_parts_iff fp (split b',' item) ne in
    let more = parse_fingerprints_iff fp items ne in
    (
      λ h. elim (cut.0 h) [ inl a ↦ inl (first.0 a) | inr b ↦ inr (more.0 b) ],
      λ h. cut.1 (elim h [ inl a ↦ inl (first.1 a) | inr b ↦ inr (more.1 b) ]),
    )

length-hex : (b : Bytes) → length (hex b) ≡ length b + length b
unfolding hex
length-hex [] = omega arith
length-hex (b ∷ bs) = omega (arith, length-hex bs)

module _ (sum256 : Bytes → Bytes)
    (length-sum256 : (b : Bytes) → length (sum256 b) ≡ hash_size) where
  fingerprint_der-nonempty : (der : Bytes) → fingerprint_der sum256 der ≢ []
  unfolding fingerprint_der
  fingerprint_der-nonempty der e =
      let n = length-hex (sum256 der) in
      let z : length (hex (sum256 der)) ≡ 0 = ap length e in
      absurd (omega (arith, length-sum256 der))

  verify_der_iff :
      (der : Bytes) (list : List Bytes)
      → (verify_der sum256 der list ≡ accepted) ↔ Among (fingerprint_der sum256 der) list
  unfolding verify_der
  verify_der_iff der [] = (λ h. absurd (cc), λ h. absurd h)
  verify_der_iff der (x ∷ xs) =
      elim (Bool-cases (is_matched (fingerprint_der sum256 der) (x ∷ xs))) [
        | inl e ↦ (λ h. (is_matched_iff (fingerprint_der sum256 der) (x ∷ xs)).0 e, λ h. rw e refl)
        | inr e ↦ (
          λ h. (let r = rw e at h in absurd (ground arith)),
          λ h.
              (let yes = (is_matched_iff (fingerprint_der sum256 der) (x ∷ xs)).1 h in absurd (cc)),
        )
      ]

  -- A peer that presents certificates is let in exactly if the digest of the first one, in hex, is
  -- one of the comma-separated configured fingerprints once these are normalised; so an empty
  -- configuration lets nobody in. A digest has 32 bytes.
  pub verify_peer_certificate_iff :
      (allowed : List Bytes) (der : Bytes) (rest : List Bytes)
      → (verify_peer_certificate sum256 allowed (der ∷ rest) ≡ accepted)
        ↔ Pins allowed (hex (sum256 der))
  unfolding verify_peer_certificate fingerprint_der
  verify_peer_certificate_iff allowed der rest =
      let first = verify_der_iff der (parse_fingerprints allowed) in
      let second =
        parse_fingerprints_iff (fingerprint_der sum256 der) allowed
          (fingerprint_der-nonempty der) in
      (λ h. second.0 (first.0 h), λ h. first.1 (second.1 h))
