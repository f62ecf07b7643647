-- ===== src/Tests/Addresses.antt =====
-- Addresses and signed bytes at concrete keys and transactions.
use dylchain.Base.{◌≡◌, refl, map, arith, length, ok}
use dylchain.Bytes.{Bytes, IsBytes}
use dylchain.Address.{derive_address, pub_key_from_address}
use dylchain.Address.Hex.{to_lower}
use dylchain.Address.Keys.{pub_key-derive, derive-pub_key}
use dylchain.Tests.Fixtures.{fit, alice_key}

abbrev key : Bytes
key = fit 32 alice_key

pub_key-derive_example : pub_key_from_address (derive_address key) ≡ ok key
pub_key-derive_example = pub_key-derive key (omega arith) refl

derive-pub_key_example :
    (derive_address key ≡ map to_lower (derive_address key)) × IsBytes key × (length key ≡ 32)
derive-pub_key_example =
    derive-pub_key (derive_address key) key (pub_key-derive key (omega arith) refl)
