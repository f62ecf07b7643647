-- ===== src/Server/Wallets.antt =====
-- `signFromKind` of cmd/dyld/main.go with the submission: the nonces of the wallets that the server
-- holds.
use dylchain.Base.{
  ℕ, ◌+◌, ◌^◌, ◌≤◌, ◌<◌, ◌≡◌, refl, sym, ap, ◌∙◌, subst, ◌⊎◌, inl, inr, true, false, Option, none,
  some, [], ◌∷◌, ◌++◌, arith, ◌==◌, if◌then◌else◌, length, ok,
}
use dylchain.Base.Int.{ℤ, pos, negsuc, ltb_ℤ, eqb_ℤ, add_i64-pos}
use dylchain.Bytes.{Bytes, equal, equal_refl}
use dylchain.Dict.{Dict, get_or, insert, get_or-insert}
use dylchain.Crypto.{Crypto, CryptoLaws}
use dylchain.Address.{derive_address, pub_key_from_address, valid_address, is_ok}
use dylchain.Address.Keys.{pub_key-derive}
use dylchain.Transaction.{Transaction, kind_transfer, signable_bytes}
use dylchain.Mempool.{Mempool, add, max_mempool}
use dylchain.Cluster.{Cluster, balance_and_nonce}
use dylchain.Cluster.Gate.{SubmitError, submit, submit_signed, kind_error, enqueue, mempool_full}
use dylchain.Server.{
  Wallet, next_nonce, reserve, rollback, after_submit, signed, sign_from_kind, send,
}

-- The server's nonce is never behind the chain's.
next_nonce-ahead :
    (k : Cluster) (nonces : Dict ℤ) (a : Bytes)
    → ltb_ℤ (next_nonce k nonces a) (balance_and_nonce k a).1 ≡ false
unfolding next_nonce
next_nonce-ahead k nonces a = ground arith

settled : (a : ℤ) (n : ℕ) → ltb_ℤ (pos n) a ≡ false → (if ltb_ℤ a (pos n) then pos n else a) ≡ pos n
settled (pos m) n h = ground arith
settled (negsuc m) n h = ground arith

next_nonce-insert :
    (k : Cluster) (nonces : Dict ℤ) (a : Bytes) (n : ℕ)
    → ltb_ℤ (pos n) (balance_and_nonce k a).1 ≡ false
    → next_nonce k (insert a (pos n) nonces) a ≡ pos n
unfolding next_nonce
next_nonce-insert k nonces a n ahead =
    let held : get_or (insert a (pos n) nonces) a (pos 0) ≡ pos n =
      get_or-insert a a (pos n) (pos 0) nonces ∙ rw (equal_refl a) refl in
    rw held (settled (balance_and_nonce k a).1 n ahead)

next_nonce-not_behind :
    (k : Cluster) (nonces : Dict ℤ) (a : Bytes) (n : ℕ)
    → next_nonce k nonces a ≡ pos n
    → ltb_ℤ (pos n) (balance_and_nonce k a).1 ≡ false
next_nonce-not_behind k nonces a n next =
    ap (λ x. ltb_ℤ x (balance_and_nonce k a).1) (sym next) ∙ next_nonce-ahead k nonces a

ltb_ℤ-suc : (a : ℤ) (n : ℕ) → ltb_ℤ (pos n) a ≡ false → ltb_ℤ (pos (n + 1)) a ≡ false
ltb_ℤ-suc a n h = ground arith

rollback-insert :
    (a : Bytes) (n : ℕ) (nonces : Dict ℤ)
    → n + 1 < 2 ^ 63
    → rollback a (pos n) (insert a (pos (n + 1)) nonces)
      ≡ insert a (pos n) (insert a (pos (n + 1)) nonces)
unfolding rollback
rollback-insert a n nonces room =
    let held : get_or (insert a (pos (n + 1)) nonces) a (pos 0) ≡ pos (n + 1) =
      get_or-insert a a (pos (n + 1)) (pos 0) nonces ∙ rw (equal_refl a) refl in
    let same : eqb_ℤ (pos (n + 1)) (pos (n + 1)) ≡ true = ground arith in
    rw (held, rollback) (rw (add_i64-pos n 1 room) (rw same refl))

module _ ⦃c : Crypto⦄ where
  submit-enqueue :
      (m : Mempool) (tx : Transaction) (key : Bytes)
      → kind_error tx ≡ none
      → (tx.amount == 0) ≡ false
      → pub_key_from_address tx.from ≡ ok key
      → is_ok (pub_key_from_address tx.to) ≡ true
      → c.verify key (signable_bytes tx) tx.signature ≡ true
      → submit m tx ≡ enqueue m tx
  unfolding submit submit_signed
  submit-enqueue m tx key kind amount from to sig =
      rw (kind, submit) (rw (amount, from, submit_signed) (rw (to, sig) refl))

  -- The gate lets a signed transfer pass, unless the queue is full.
  submit-signed :
      CryptoLaws c
      → (m : Mempool) (w : Wallet) (to : Bytes) (amount : ℕ) (nonce : ℤ)
      → w.address ≡ derive_address (c.public_key w.priv_key)
      → valid_address to ≡ true
      → equal w.address to ≡ false
      → (amount == 0) ≡ false
      → submit m (signed kind_transfer w to amount nonce)
        ≡ enqueue m (signed kind_transfer w to amount nonce)
  unfolding kind_error signed valid_address equal signable_bytes
  submit-signed laws m w to amount nonce own valid apart some_ =
      let key : pub_key_from_address w.address ≡ ok (c.public_key w.priv_key) =
        ap pub_key_from_address own
        ∙ pub_key-derive (c.public_key w.priv_key) (laws.public_key-IsBytes w.priv_key)
            (laws.length-public_key w.priv_key) in
      let tx = signed kind_transfer w to amount nonce in
      submit-enqueue m tx (c.public_key w.priv_key) (rw apart refl) some_ key valid
        (laws.verify-sign w.priv_key _)

  send-after_submit :
      (k : Cluster) (m : Mempool) (nonces : Dict ℤ) (w : Wallet) (to : Bytes) (amount n : ℕ)
      → next_nonce k nonces w.address ≡ pos n
      → n + 1 < 2 ^ 63
      → send k m nonces kind_transfer w to amount
        ≡ after_submit w.address
            (pos n)
            (insert w.address (pos (n + 1)) nonces)
            (submit m (signed kind_transfer w to amount (pos n)))
  unfolding send sign_from_kind reserve signed
  send-after_submit k m nonces w to amount n next room =
      rw (next, send) (rw (add_i64-pos n 1 room) refl)

  enqueue-cases :
      (m : Mempool) (tx : Transaction)
      → ((enqueue m tx ≡ (m, some mempool_full)) × (max_mempool ≤ length m.txs))
        ⊎ (enqueue m tx ≡ (record { txs = m.txs ++ tx ∷ [] }, none))
  unfolding enqueue add
  enqueue-cases m tx = ground arith

  -- Queued, and the count goes on; or refused by a full queue, and the count goes back.
  abbrev pub Settled :
      Cluster → Mempool → Bytes → ℕ → Transaction → Mempool × Dict ℤ × Option SubmitError → Type 0
  Settled k m a n tx r =
      ((r.2 ≡ none) × (r.0.txs ≡ m.txs ++ tx ∷ []) × (next_nonce k r.1 a ≡ pos (n + 1)))
      ⊎ ((r.2 ≡ some mempool_full)
          × (max_mempool ≤ length m.txs)
          × (r.0 ≡ m)
          × (next_nonce k r.1 a ≡ pos n))

  after_submit-Settled :
      (k : Cluster) (m : Mempool) (nonces : Dict ℤ) (a : Bytes) (n : ℕ) (tx : Transaction)
      → next_nonce k nonces a ≡ pos n
      → n + 1 < 2 ^ 63
      → Settled k m a n tx (after_submit a (pos n) (insert a (pos (n + 1)) nonces) (enqueue m tx))
  unfolding after_submit
  after_submit-Settled k m nonces a n tx next room = elim (enqueue-cases m tx) [
    | inl (e, full) ↦ rw e (
        inr (
          refl,
          full,
          refl,
          rw (rollback-insert a n nonces room) (
              next_nonce-insert k (insert a (pos (n + 1)) nonces) a n
                (next_nonce-not_behind k nonces a n next)),
        ))
    | inr e ↦ rw e (
        inl (
          refl,
          refl,
          next_nonce-insert k nonces a (n + 1)
              (ltb_ℤ-suc (balance_and_nonce k a).1 n (next_nonce-not_behind k nonces a n next)),
        ))
  ]

  -- Under the laws of the cryptography: a transfer that the server sends from a wallet whose address
  -- is that of its key, to another valid address, of an amount that is not zero, signs the larger of
  -- the chain's nonce and the server's, here `n` and below 2^63 - 1. Either it is queued at the back,
  -- and the server then counts on from `n`; or the queue is full and stays as it was, and the server
  -- would sign `n` again. Nothing else refuses it.
  pub send-settles :
      CryptoLaws c
      → (k : Cluster) (m : Mempool) (nonces : Dict ℤ) (w : Wallet) (to : Bytes) (amount n : ℕ)
      → w.address ≡ derive_address (c.public_key w.priv_key)
      → valid_address to ≡ true
      → equal w.address to ≡ false
      → (amount == 0) ≡ false
      → next_nonce k nonces w.address ≡ pos n
      → n + 1 < 2 ^ 63
      → Settled k m w.address n
          (signed kind_transfer w to amount (pos n))
          (send k m nonces kind_transfer w to amount)
  send-settles laws k m nonces w to amount n own valid apart some_ next room =
      let tx = signed kind_transfer w to amount (pos n) in
      let gate = submit-signed laws m w to amount (pos n) own valid apart some_ in
      let run =
        send-after_submit k m nonces w to amount n next room
        ∙ ap (after_submit w.address (pos n) (insert w.address (pos (n + 1)) nonces)) gate in
      subst (Settled k m w.address n tx) (sym run)
        (after_submit-Settled k m nonces w.address n tx next room)
