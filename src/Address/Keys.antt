-- ===== src/Address/Keys.antt =====
-- Addresses of chain/address.go against the keys that they stand for.
use dylchain.Base.{
  ◌≡◌, refl, ap, inl, inr, Option, none, some, [], ◌∷◌, ◌++◌, map, arith, Option-cases, length, ok,
}
use dylchain.Bytes.{Bytes, IsBytes}
use dylchain.Address.{
  derive_address, pub_key_from_address, cut_prefix, stripped_key, decoded_key, address_prefix,
}
use dylchain.Address.Hex.{decode-encode, encode-decode, to_lower, decode_string}

-- An address gives back the key that it was derived from.
pub pub_key-derive :
    (k : Bytes) → IsBytes k → length k ≡ 32 → pub_key_from_address (derive_address k) ≡ ok k
unfolding pub_key_from_address derive_address to_lower
pub_key-derive k b e = rw (decode-encode k b) (ground arith)

cut_prefix-append : (s p r : Bytes) → cut_prefix s p ≡ some r → s ≡ p ++ r
unfolding cut_prefix
cut_prefix-append s [] r h = ground arith
cut_prefix-append [] (p ∷ ps) r h = cc
cut_prefix-append (c ∷ s) (p ∷ ps) r h = ground (arith, cut_prefix-append s ps r)

-- What a key that is returned has passed.
stripped_key-ok :
    (o : Option Bytes) (k : Bytes)
    → stripped_key o ≡ ok k
    → (rest : Bytes) × (o ≡ some rest) × (decode_string rest ≡ some k) × (length k ≡ 32)
unfolding stripped_key
stripped_key-ok none k h = cc
stripped_key-ok (some rest) k h = elim (Option-cases (decode_string rest)) [
  | inl e ↦ cc (ap decoded_key e)
  | inr (b, e) ↦ (rest, refl, ground arith, ground arith)
]

-- Whatever text an address is, the key that it yields has 32 bytes, and deriving the key's own
-- address gives the text in lower case.
pub derive-pub_key :
    (a k : Bytes)
    → pub_key_from_address a ≡ ok k
    → (derive_address k ≡ map to_lower a) × IsBytes k × (length k ≡ 32)
unfolding pub_key_from_address derive_address to_lower
derive-pub_key a k h =
    let (rest, cut, dec, len) = stripped_key-ok (cut_prefix a address_prefix) k h in
    let e = cut_prefix-append a address_prefix rest cut in
    let (low, b) = encode-decode rest k dec in rw (e, low) (refl, b, len)
