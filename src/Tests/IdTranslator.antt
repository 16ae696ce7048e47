-- ===== src/Tests/IdTranslator.antt =====
-- A translator over libraries that keep their laws and hide nothing: no encryption, and a base64 that
-- adds a constant to each byte.
use nimbus_io.Prelude.{
  ℕ, zero, suc, ◌+◌, ◌-◌, ◌≡◌, refl, ap, sym, false, [], ◌∷◌, ◌++◌, ◌==◌, map, Text, Bytes, arith,
  All, append-nil, text_eq,
}
use nimbus_io.Prelude.Exec.{ok}
use nimbus_io.Tools.IdTranslator.{
  pad, decoded, Crypto, InternalIdTranslator, public_id, internal_id, pack, unpack, decode_padded,
  check_binary, check_parts, sec_str_eq, match_count,
}
use nimbus_io.Tools.IdTranslator.Compare.{sec_str_eq-text_eq}
use nimbus_io.Tools.IdTranslator.RoundTrip.{IsSound, internal_id-public_id}

abbrev zeros : ℕ → Bytes
zeros zero = []
zeros (suc n) = 0 ∷ zeros n

abbrev plain : Crypto
plain = record {
  hmac_sha256 = λ key text. zeros 32;
  aes_encrypt = λ key iv text. text;
  aes_decrypt = λ key iv text. text;
  b64encode = map (λ b. b + 100);
  b64decode = λ text. decoded (map (λ b. b - 100) text);
}

back : (bytes : Bytes) → map (λ b. b - 100) (map (λ b. b + 100) bytes) ≡ bytes
back [] = refl
back (b ∷ bytes) = λ i. (same i) ∷ back bytes i
  where
    same : b + 100 - 100 ≡ b
    same = omega arith

no_pad : (bytes : Bytes) → All (λ a. (a == pad) ≡ false) (map (λ b. b + 100) bytes)
no_pad [] = tt
no_pad (b ∷ bytes) = (ground arith, no_pad bytes)

plain-IsSound : IsSound plain
plain-IsSound = record {
  length_hmac = λ key text. refl;
  decrypted = λ key iv text. refl;
  bare = map (λ b. b + 100);
  missing = λ bytes. 0;
  encoded = λ bytes. sym (append-nil (map (λ b. b + 100) bytes));
  no_pad = no_pad;
  few = λ bytes. omega arith;
  decoded_whole = λ bytes. ap decoded (back bytes);
  decoded_short = λ bytes n h. absurd (omega arith);
}

abbrev translator : InternalIdTranslator
translator = record { key = zeros 32; iv_key = zeros 32; hmac_key = zeros 32; hmac_size = 16 }

internal_id-public_id_example :
    (text : Text) × (public_id plain translator 5 ≡ ok text)
    × (internal_id plain translator text ≡ ok 5)
internal_id-public_id_example =
    internal_id-public_id plain plain-IsSound translator 5 (omega arith) (omega arith) (omega arith)

-- the public id of 5
abbrev public : Text
public = map (λ b. b + 100) (zeros 32 ++ pack 8 5)

public-read : internal_id plain translator public ≡ ok 5
unfolding internal_id decode_padded check_binary check_parts sec_str_eq match_count pack unpack
public-read = refl

sec_str_eq-text_eq_example :
    sec_str_eq (1 ∷ 2 ∷ []) (1 ∷ 3 ∷ []) ≡ text_eq (1 ∷ 2 ∷ []) (1 ∷ 3 ∷ [])
sec_str_eq-text_eq_example = sec_str_eq-text_eq (1 ∷ 2 ∷ []) (1 ∷ 3 ∷ [])
