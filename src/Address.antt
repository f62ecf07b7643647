-- ===== src/Address.antt =====
-- chain/address.go: addresses, derived from ed25519 public keys and taken apart again.
pub mod Hex
pub mod Keys
use dylchain.Base.{
  ℕ, zero, suc, ◌+◌, ◌-◌, ◌*◌, ◌/◌, ◌%◌, ◌^◌, ◌≤◌, ◌<◌, ◌≡◌, refl, sym, ap, ◌∙◌, subst, ◌≢◌, ◌↔◌,
  ◌⊎◌, inl, inr, Bool, true, false, not, ◌&&◌, ◌||◌, Option, none, some, List, [], ◌∷◌, ◌++◌, map,
  append_assoc, append-nil, arith, ltb, leb, ◌==◌, if◌then◌else◌, ltb→lt, lt→ltb, leb→le, ==_iff,
  tests, Bool-cases, Option-cases, length, get_elem?, set, take, drop, replicate, All,
  length-append, length-set, take-append-drop, length-take, length-drop, length-map, Result, ok,
  err, ◌>>=◌,
}
use dylchain.Bytes.{Bytes, text, equal, equal_iff, equal_refl, IsBytes}
use Hex.{encode_to_string, decode_string}

abbrev pub address_prefix : Bytes
address_prefix = text "dyl"

-- ed25519.PublicKeySize
abbrev pub public_key_size : ℕ
public_key_size = 32

unfoldable pub derive_address : Bytes → Bytes
derive_address public_key = address_prefix ++ encode_to_string public_key

pub data AddressError : Type 0 where
  no_prefix bad_hex bad_length : AddressError

-- strings.CutPrefix
unfoldable pub cut_prefix : Bytes → Bytes → Option Bytes
cut_prefix s [] = some s
cut_prefix [] (p ∷ ps) = none
cut_prefix (c ∷ s) (p ∷ ps) = if c == p then cut_prefix s ps else none

sized_key : Bytes → Result AddressError Bytes
sized_key b = if length b == public_key_size then ok b else err bad_length

decoded_key : Option Bytes → Result AddressError Bytes
unfolding sized_key
decoded_key none = err bad_hex
decoded_key (some b) = sized_key b

stripped_key : Option Bytes → Result AddressError Bytes
unfolding decoded_key
stripped_key none = err no_prefix
stripped_key (some rest) = decoded_key (decode_string rest)

unfoldable pub pub_key_from_address : Bytes → Result AddressError Bytes
unfolding stripped_key cut_prefix
pub_key_from_address address = stripped_key (cut_prefix address address_prefix)

abbrev pub is_ok {ℓ κ} : {E : Type ℓ} {A : Type κ} → Result E A → Bool
is_ok (ok a) = true
is_ok (err e) = false

unfoldable pub valid_address : Bytes → Bool
valid_address addr = is_ok (pub_key_from_address addr)
