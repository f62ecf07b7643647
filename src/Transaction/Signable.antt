-- ===== src/Transaction/Signable.antt =====
-- The signed bytes of chain/transaction.go and the fields that they authorise.
use dylchain.Base.{ℕ, ◌<◌, ◌≡◌, ap, ◌≢◌, [], ◌∷◌, ◌++◌, arith, take, drop, All}
use dylchain.Base.Int.{u64_mod, to_u64, IsI64, to_u64-injective, to_u64-lt}
use dylchain.Bytes.{Bytes}
use dylchain.Transaction.{Transaction, put_u64, signable_bytes}

-- No byte is the separator.
abbrev pub NoZero : Bytes → Type 0
NoZero = All (λ b. b ≢ 0)

pub put_u64-injective : (n m : ℕ) → n < u64_mod → m < u64_mod → put_u64 n ≡ put_u64 m → n ≡ m
unfolding put_u64
put_u64-injective n m hn hm e = ground arith

split_at_zero :
    (xs ys a b : Bytes) → NoZero xs → NoZero ys → xs ++ 0 ∷ a ≡ ys ++ 0 ∷ b → (xs ≡ ys) × (a ≡ b)
split_at_zero [] [] a b hx hy e = ground arith
split_at_zero [] (y ∷ ys) a b hx hy e = absurd (hy.0 (ground arith))
split_at_zero (x ∷ xs) [] a b hx hy e = absurd (hx.0 (ground arith))
split_at_zero (x ∷ xs) (y ∷ ys) a b hx hy e =
    let (p, q) = split_at_zero xs ys a b hx.1 hy.1 (ground arith) in (ground arith, q)

-- What a transaction that the ledger accepts satisfies: no separator inside its three texts, and
-- numbers of their machine types.
pub record IsSeparable (t : Transaction) : Type 0 where
  pub kind_clean : NoZero t.kind
  pub from_clean : NoZero t.from
  pub to_clean : NoZero t.to
  pub amount_u64 : t.amount < u64_mod
  pub nonce_i64 : IsI64 t.nonce

numbers-injective :
    (a b n m : ℕ)
    → a < u64_mod
    → b < u64_mod
    → n < u64_mod
    → m < u64_mod
    → put_u64 a ++ put_u64 n ≡ put_u64 b ++ put_u64 m
    → (a ≡ b) × (n ≡ m)
unfolding put_u64
numbers-injective a b n m ha hb hn hm e =
    (put_u64-injective a b ha hb (ap (take 8) e), put_u64-injective n m hn hm (ap (drop 8) e))

-- Two separable transactions with the same signed bytes agree in every field but the signature, so
-- one signature never authorises two different operations.
pub signable_bytes-injective :
    (t u : Transaction)
    → IsSeparable t
    → IsSeparable u
    → signable_bytes t ≡ signable_bytes u
    → (t.kind ≡ u.kind)
      × (t.from ≡ u.from)
      × (t.to ≡ u.to)
      × (t.amount ≡ u.amount)
      × (t.nonce ≡ u.nonce)
unfolding signable_bytes
signable_bytes-injective t u st su e =
    let (ek, e1) = split_at_zero t.kind u.kind _ _ st.kind_clean su.kind_clean e in
    let (ef, e2) = split_at_zero t.from u.from _ _ st.from_clean su.from_clean e1 in
    let (et, e3) = split_at_zero t.to u.to _ _ st.to_clean su.to_clean e2 in
    let (ea, en) =
      numbers-injective t.amount u.amount (to_u64 t.nonce) (to_u64 u.nonce) st.amount_u64
        su.amount_u64 (to_u64-lt t.nonce) (to_u64-lt u.nonce) e3 in
    (ek, ef, et, ea, to_u64-injective t.nonce u.nonce st.nonce_i64 su.nonce_i64 en)
