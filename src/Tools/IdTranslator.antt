-- ===== src/Tools/IdTranslator.antt =====
-- tools/id_translator.py: internal ids as public ones, and back. hmac, AES and base64 are libraries,
-- and stand here as the record `Crypto` of their operations, with what is documented of them.
pub mod Compare
pub mod RoundTrip
use nimbus_io.Prelude.{
  ℕ, suc, zero, ◌+◌, ◌-◌, ◌*◌, ◌/◌, ◌%◌, ◌^◌, ◌≤◌, ◌<◌, ◌≡◌, Bool, true, false, not, ◌||◌, ◌&&◌,
  Option, none, some, List, [], ◌∷◌, ◌++◌, ltb, ◌==◌, if◌then◌else◌, Text, Bytes, text_eq, take,
  drop, length, All,
}
use nimbus_io.Prelude.Exec.{Result, ok, err, value_error}

abbrev pub min_id : ℕ
min_id = 1

abbrev pub max_id : ℕ
max_id = 2 ^ 64 - 1

abbrev pub key_size : ℕ
key_size = 32

abbrev pub iv_size : ℕ
iv_size = 16

-- the character "="
abbrev pub pad : ℕ
pad = 61

abbrev pub pads : ℕ → Text
pads zero = []
pads (suc n) = pad ∷ pads n

-- what `urlsafe_b64decode` does: it raises TypeError for wrong padding, or for another reason
pub data Decoded : Type 0 where
  decoded : Bytes → Decoded
  bad_padding bad_text : Decoded

pub record Crypto : Type 0 where
  pub hmac_sha256 : Bytes → Bytes → Bytes
  pub aes_encrypt : Bytes → Bytes → Bytes → Bytes
  pub aes_decrypt : Bytes → Bytes → Bytes → Bytes
  pub b64encode : Bytes → Text
  pub b64decode : Text → Decoded

-- `zip`, and the count of the places where both agree
unfoldable pub match_count : Bytes → Bytes → ℕ
match_count [] str2 = 0
match_count (a ∷ str1) [] = 0
match_count (a ∷ str1) (b ∷ str2) = (if a == b then 1 else 0) + match_count str1 str2

unfoldable pub sec_str_eq : Bytes → Bytes → Bool
sec_str_eq str1 str2 =
    if not (length str1 == length str2) then false else match_count str1 str2 == length str1

-- `struct.pack("!Q")`: eight bytes, the highest first
unfoldable pub pack : ℕ → ℕ → Bytes
pack zero n = []
pack (suc k) n = (n / 256 ^ k) % 256 ∷ pack k n

unfoldable pub unpack : ℕ → Bytes → ℕ
unpack acc [] = acc
unpack acc (b ∷ bytes) = unpack (acc * 256 + b) bytes

abbrev pub int8_to_bin : ℕ → Bytes
int8_to_bin n = pack 8 n

abbrev pub bin_to_int8 : Bytes → ℕ
bin_to_int8 bytes = unpack 0 bytes

abbrev pub in_range : ℕ → Bool
in_range internal_id = not (ltb internal_id min_id || ltb max_id internal_id)

-- `rstrip("=")`
unfoldable pub rstrip : Text → Text
rstrip [] = []
rstrip (c ∷ text) = elim (rstrip text) [
  | [] ↦ if c == pad then [] else c ∷ []
  | d ∷ rest ↦ c ∷ d ∷ rest
]

pub record InternalIdTranslator : Type 0 where
  pub key : Bytes
  pub iv_key : Bytes
  pub hmac_key : Bytes
  pub hmac_size : ℕ

-- `__init__`, for a size that is a natural number; a negative one is not refused by the code either, and
-- is not modelled.
unfoldable pub new_translator : Bytes → Bytes → Bytes → ℕ → Result InternalIdTranslator
new_translator key iv_key hmac_key hmac_size =
    if not (
      (length key == length iv_key)
      && (length iv_key == length hmac_key)
      && (length hmac_key == key_size))
    then err value_error
    else if text_eq key iv_key || text_eq key hmac_key || text_eq iv_key hmac_key
    then err value_error
    else if ltb key_size hmac_size
    then err value_error
    else ok (record { key = key; iv_key = iv_key; hmac_key = hmac_key; hmac_size = hmac_size })

module _ (c : Crypto) (t : InternalIdTranslator) where
  abbrev pub make_iv : Bytes → Bytes
  make_iv bin_str = take iv_size (c.hmac_sha256 t.iv_key bin_str)

  abbrev pub make_hmac : Bytes → Bytes
  make_hmac signtext = take t.hmac_size (c.hmac_sha256 t.hmac_key signtext)

  unfoldable pub public_id : ℕ → Result Text
  public_id internal_id =
      if not (in_range internal_id)
      then err value_error
      else (let binary_id = int8_to_bin internal_id in
          let aes_iv = make_iv binary_id in
          let ciphertxt = c.aes_encrypt t.key aes_iv binary_id in
          let hmactxt = make_hmac (aes_iv ++ ciphertxt) in
          ok (rstrip (c.b64encode (aes_iv ++ (hmactxt ++ ciphertxt)))))

  -- the loop over the padding: from `n` signs on, `left` more attempts
  unfoldable pub decode_padded : Text → ℕ → ℕ → Option Bytes
  decode_padded text zero n = none
  decode_padded text (suc left) n = elim (c.b64decode (text ++ pads n)) [
    | decoded binary ↦ some binary
    | bad_padding ↦ decode_padded text left (suc n)
    | bad_text ↦ none
  ]

  -- the tests after the decoding, on the three parts of the binary
  unfoldable pub check_parts : Bytes → Bytes → Bytes → Result ℕ
  check_parts aes_iv hmac_txt ciphertxt =
      if not (length hmac_txt == t.hmac_size)
      then err value_error
      else if not (sec_str_eq hmac_txt (make_hmac (aes_iv ++ ciphertxt)))
      then err value_error
      else (let plaintxt = c.aes_decrypt t.key aes_iv ciphertxt in
          if not (length plaintxt == 8)
          then err value_error
          else if not (in_range (bin_to_int8 plaintxt))
          then err value_error
          else ok (bin_to_int8 plaintxt))

  unfoldable pub check_binary : Bytes → Result ℕ
  check_binary binary =
      check_parts (take iv_size binary) (take t.hmac_size (drop iv_size binary))
        (drop (iv_size + t.hmac_size) binary)

  unfoldable pub internal_id : Text → Result ℕ
  internal_id text = elim (decode_padded text 3 0) [
    | none ↦ err value_error
    | some binary ↦ check_binary binary
  ]
