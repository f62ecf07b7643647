-- ===== src/Transaction.antt =====
-- chain/transaction.go: a transaction, its kinds and the bytes that its signature covers.
pub mod Signable
use dylchain.Base.{
  ℕ, zero, suc, ◌+◌, ◌-◌, ◌*◌, ◌/◌, ◌%◌, ◌^◌, ◌≤◌, ◌<◌, ◌≡◌, refl, sym, ap, ◌∙◌, subst, ◌≢◌, ◌↔◌,
  ◌⊎◌, inl, inr, Bool, true, false, not, ◌&&◌, ◌||◌, Option, none, some, List, [], ◌∷◌, ◌++◌, map,
  append_assoc, append-nil, arith, ltb, leb, ◌==◌, if◌then◌else◌, ltb→lt, lt→ltb, leb→le, ==_iff,
  tests, Bool-cases, Option-cases, length, get_elem?, set, take, drop, replicate, All,
  length-append, length-set, take-append-drop, length-take, length-drop, length-map, >>=-eq-some,
  Result, ok, err, ◌>>=◌,
}
use dylchain.Base.Int.{
  u64_mod, add_u64, sub_u64, ℤ, pos, negsuc, pos_part, neg_part, sub_ℕ, ◌+ℤ◌, ◌-ℤ◌, ◌≤ℤ◌, ltb_ℤ,
  eqb_ℤ, to_u64, of_u64, add_i64, sub_i64, +ℤ_parts, -ℤ_parts, eq_of_parts, int_laws,
  add_i64-one-ne, add_i64-pos,
}
use dylchain.Bytes.{Bytes, text, equal, equal_iff, equal_refl, IsBytes}

pub record Transaction : Type 0 where
  pub kind : Bytes
  pub from : Bytes
  pub to : Bytes
  pub amount : ℕ
  pub nonce : ℤ
  pub signature : Bytes

abbrev pub kind_transfer : Bytes
kind_transfer = []

abbrev pub kind_delegate : Bytes
kind_delegate = text "delegate"

abbrev pub kind_undelegate : Bytes
kind_undelegate = text "undelegate"

-- binary.BigEndian.PutUint64: the eight bytes of a `uint64`, the highest first.
unfoldable pub put_u64 : ℕ → Bytes
put_u64 n =
    n / 2 ^ 56 % 256
    ∷ n / 2 ^ 48 % 256
    ∷ n / 2 ^ 40 % 256
    ∷ n / 2 ^ 32 % 256
    ∷ n / 2 ^ 24 % 256
    ∷ n / 2 ^ 16 % 256
    ∷ n / 2 ^ 8 % 256
    ∷ n % 256
    ∷ []

unfoldable pub signable_bytes : Transaction → Bytes
unfolding put_u64
signable_bytes t =
    t.kind ++ 0 ∷ (t.from ++ 0 ∷ (t.to ++ 0 ∷ (put_u64 t.amount ++ put_u64 (to_u64 t.nonce))))
