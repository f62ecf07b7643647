-- ===== src/Address/Hex.antt =====
-- Go's encoding/hex as chain/address.go uses it: `EncodeToString` and `DecodeString`.
use dylchain.Base.{
  ℕ, ◌+◌, ◌-◌, ◌*◌, ◌/◌, ◌%◌, ◌<◌, ◌≡◌, refl, ◌&&◌, Option, none, some, [], ◌∷◌, map, arith, ltb,
  leb, if◌then◌else◌, >>=-eq-some, ◌>>=◌,
}
use dylchain.Bytes.{Bytes, IsBytes}

-- One lower-case digit.
unfoldable pub hex_digit : ℕ → ℕ
hex_digit n = if ltb n 10 then 48 + n else 87 + n

unfoldable pub encode_to_string : Bytes → Bytes
unfolding hex_digit
encode_to_string [] = []
encode_to_string (b ∷ bs) = hex_digit (b / 16) ∷ hex_digit (b % 16) ∷ encode_to_string bs

-- Both cases are accepted.
unfoldable pub from_hex_char : ℕ → Option ℕ
from_hex_char c =
    if leb 48 c && leb c 57
    then some (c - 48)
    else if leb 97 c && leb c 102
    then some (c - 87)
    else if leb 65 c && leb c 70
    then some (c - 55)
    else none

-- `none` is an error: an odd length or a character that is no digit.
unfoldable pub decode_string : Bytes → Option Bytes
unfolding from_hex_char
decode_string [] = some []
decode_string (a ∷ []) = none
decode_string (a ∷ b ∷ s) = do
  x ← from_hex_char a
  y ← from_hex_char b
  rest ← decode_string s
  some ((x * 16 + y) ∷ rest)

-- ASCII lower case.
unfoldable pub to_lower : ℕ → ℕ
to_lower c = if leb 65 c && leb c 90 then c + 32 else c

from_hex_char-hex_digit : (n : ℕ) → n < 16 → from_hex_char (hex_digit n) ≡ some n
unfolding from_hex_char hex_digit
from_hex_char-hex_digit n h = ground arith

hex_digit-from_hex_char :
    (c n : ℕ) → from_hex_char c ≡ some n → (hex_digit n ≡ to_lower c) × (n < 16)
unfolding from_hex_char hex_digit to_lower
hex_digit-from_hex_char c n h = ground arith

pub decode-encode : (bs : Bytes) → IsBytes bs → decode_string (encode_to_string bs) ≡ some bs
unfolding encode_to_string decode_string
decode-encode [] h = refl
decode-encode (b ∷ bs) h =
    rw (from_hex_char-hex_digit (b / 16) (omega arith)) (
      rw (from_hex_char-hex_digit (b % 16) (omega arith))
        (rw (decode-encode bs h.1) (ground arith)))

-- What the two digits and the rest contribute, once all three are read.
decode_pair :
    (a b : ℕ) (s bs : Bytes)
    → decode_string (a ∷ b ∷ s) ≡ some bs
    → (x y : ℕ) × (rest : Bytes) × (from_hex_char a ≡ some x)
      × (from_hex_char b ≡ some y)
      × (decode_string s ≡ some rest)
      × (bs ≡ (x * 16 + y) ∷ rest)
unfolding decode_string
decode_pair a b s bs h =
    let (x, ea, hx) = >>=-eq-some (from_hex_char a) _ h in
    let (y, eb, hy) = >>=-eq-some (from_hex_char b) _ hx in
    let (rest, er, hr) = >>=-eq-some (decode_string s) _ hy in (x, y, rest, ea, eb, er, cc)

pub encode-decode :
    (s bs : Bytes) → decode_string s ≡ some bs → (encode_to_string bs ≡ map to_lower s) × IsBytes bs
unfolding decode_string encode_to_string
encode-decode [] bs h = ground arith
encode-decode (a ∷ []) bs h = cc
encode-decode (a ∷ b ∷ s) bs h =
    let (x, y, rest, ea, eb, er, e) = decode_pair a b s bs h in
    let da = hex_digit-from_hex_char a x ea in
    let db = hex_digit-from_hex_char b y eb in
    let ih = encode-decode s rest er in
    let hi : (x * 16 + y) / 16 ≡ x = omega arith in
    let lo : (x * 16 + y) % 16 ≡ y = omega arith in
    rw (e, hi, lo, da.0, db.0, ih.0) (refl, (omega arith, ih.1))
