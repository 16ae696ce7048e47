-- ===== src/Tools/IdTranslator/RoundTrip.antt =====
-- A public id gives the internal id back.
use nimbus_io.Prelude.{
  ℕ, suc, zero, ◌+◌, ◌^◌, ◌≤◌, ◌<◌, ◌≡◌, refl, true, false, some, [], ◌∷◌, ◌++◌, ◌==◌, Text, Bytes,
  length, ◌∙◌, arith, All, length-take, length-append, take_exact, drop_exact, append_assoc,
  text_eq_refl, ==-refl, Bool-cases, inl, inr, ==_iff,
}
use nimbus_io.Prelude.Exec.{ok}
use nimbus_io.Tools.IdTranslator.{
  max_id, pad, pads, decoded, bad_padding, Crypto, pack, unpack, in_range, rstrip,
  InternalIdTranslator, make_hmac, public_id, decode_padded, check_parts, check_binary, internal_id,
  make_iv,
}
use nimbus_io.Tools.IdTranslator.Compare.{sec_str_eq-text_eq}

pub unpack-pack : (n : ℕ) → n < 2 ^ 64 → unpack 0 (pack 8 n) ≡ n
unfolding pack unpack
unpack-pack n h = omega arith

length-pack : (k n : ℕ) → length (pack k n) ≡ k
unfolding pack
length-pack zero n = refl
length-pack (suc k) n = omega (arith, length-pack k n)

-- Text that does not end in "=" keeps all but the signs after it.
rstrip-pads : (n : ℕ) → rstrip (pads n) ≡ []
unfolding rstrip
rstrip-pads zero = refl
rstrip-pads (suc n) = rw (rstrip-pads n, rstrip) refl

rstrip-append :
    (text : Text) (n : ℕ) → All (λ c. (c == pad) ≡ false) text → rstrip (text ++ pads n) ≡ text
unfolding rstrip
rstrip-append [] n h = rstrip-pads n
rstrip-append (c ∷ []) n h = rw (rstrip-pads n, rstrip, h.0) refl
rstrip-append (c ∷ d ∷ text) n h = rw (rstrip-append (d ∷ text) n h.1, rstrip) refl

-- What the libraries document: a sha256 digest has 32 bytes; AES decryption with the same key and
-- initial vector undoes the encryption; base64 gives a text without "=", with at most two signs of
-- it after, decodes it, and raises TypeError where a sign is missing.
pub record IsSound (c : Crypto) : Type 0 where
  pub length_hmac : (key text : Bytes) → length (c.hmac_sha256 key text) ≡ 32
  pub decrypted : (key iv text : Bytes) → c.aes_decrypt key iv (c.aes_encrypt key iv text) ≡ text
  pub bare : Bytes → Text
  pub missing : Bytes → ℕ
  pub encoded : (bytes : Bytes) → c.b64encode bytes ≡ bare bytes ++ pads (missing bytes)
  pub no_pad : (bytes : Bytes) → All (λ a. (a == pad) ≡ false) (bare bytes)
  pub few : (bytes : Bytes) → missing bytes ≤ 2
  pub decoded_whole : (bytes : Bytes) → c.b64decode (c.b64encode bytes) ≡ decoded bytes
  pub decoded_short :
      (bytes : Bytes) (n : ℕ) → n < missing bytes → c.b64decode (bare bytes ++ pads n) ≡ bad_padding

in_range-true : (n : ℕ) → 1 ≤ n → n ≤ max_id → in_range n ≡ true
in_range-true n low high = ground arith

module _ (c : Crypto) (s : IsSound c) (t : InternalIdTranslator) where
  -- With `left` attempts from `n` signs on, the right number of signs is found.
  decode_padded-bare :
      (bytes : Bytes) (left n : ℕ)
      → n ≤ s.missing bytes
      → s.missing bytes < n + left
      → decode_padded c t (s.bare bytes) left n ≡ some bytes
  unfolding decode_padded
  decode_padded-bare bytes zero n low high = absurd (omega arith)
  decode_padded-bare bytes (suc left) n low high = elim (Bool-cases (n == s.missing bytes)) [
    | inl same ↦
        rw
          (
            (==_iff n (s.missing bytes)).0 same,
            ← s.encoded bytes,
            s.decoded_whole bytes,
            decode_padded,
          )
          refl
    | inr other ↦
        rw (s.decoded_short bytes n (ground arith), decode_padded)
          (decode_padded-bare bytes left (suc n) (ground arith) (omega arith))
  ]

  length-make_hmac : (text : Bytes) → t.hmac_size ≤ 32 → length (make_hmac c t text) ≡ t.hmac_size
  length-make_hmac text h = omega (
    arith,
    length-take t.hmac_size (c.hmac_sha256 t.hmac_key text),
    s.length_hmac t.hmac_key text,
  )

  length-make_iv : (text : Bytes) → length (make_iv c t text) ≡ 16
  length-make_iv text =
      omega (arith, length-take 16 (c.hmac_sha256 t.iv_key text), s.length_hmac t.iv_key text)

  check_parts-made :
      (n : ℕ) (iv text : Bytes)
      → t.hmac_size ≤ 32
      → in_range n ≡ true
      → n < 2 ^ 64
      → c.aes_decrypt t.key iv text ≡ pack 8 n
      → check_parts c t iv (make_hmac c t (iv ++ text)) text ≡ ok n
  unfolding check_parts
  check_parts-made n iv text size range bound made =
      rw
        (
          length-make_hmac (iv ++ text) size,
          ==-refl t.hmac_size,
          sec_str_eq-text_eq (make_hmac c t (iv ++ text)) (make_hmac c t (iv ++ text)),
          text_eq_refl (make_hmac c t (iv ++ text)),
          made,
          length-pack 8 n,
          unpack-pack n bound,
          range,
        )
        refl

  check_binary-split :
      (iv mac text : Bytes)
      → length iv ≡ 16
      → length mac ≡ t.hmac_size
      → check_binary c t (iv ++ (mac ++ text)) ≡ check_parts c t iv mac text
  unfolding check_binary
  check_binary-split iv mac text h k =
      rw
        (
          take_exact 16 iv (mac ++ text) h,
          drop_exact 16 iv (mac ++ text) h,
          take_exact t.hmac_size mac text k,
          ← append_assoc iv mac text,
          drop_exact (16 + t.hmac_size) (iv ++ mac) text
              (rw (length-append iv mac) (omega (arith, h, k))),
        )
        refl

  -- A public id gives the internal id back, where the libraries are sound and the translator's hmac
  -- is not longer than a digest: every id from 1 to 2 ^ 64 - 1 has a public id, and this is
  -- translated to the id.
  pub internal_id-public_id :
      (n : ℕ)
      → t.hmac_size ≤ 32
      → 1 ≤ n
      → n ≤ max_id
      → (text : Text) × (public_id c t n ≡ ok text) × (internal_id c t text ≡ ok n)
  unfolding public_id internal_id
  internal_id-public_id n size low high =
      let iv = make_iv c t (pack 8 n) in
      let text = c.aes_encrypt t.key iv (pack 8 n) in
      let mac = make_hmac c t (iv ++ text) in
      let bytes = iv ++ (mac ++ text) in
      (
        s.bare bytes,
        rw
            (
              in_range-true n low high,
              s.encoded bytes,
              rstrip-append (s.bare bytes) (s.missing bytes) (s.no_pad bytes),
            )
            refl,
        rw (decode_padded-bare bytes 3 0 (omega arith) (omega (arith, s.few bytes)), internal_id)
            (check_binary-split iv mac text (length-make_iv (pack 8 n))
                (length-make_hmac (iv ++ text) size)
              ∙ check_parts-made n iv text size (in_range-true n low high) (omega arith)
                  (s.decrypted t.key iv (pack 8 n))),
      )
