-- ===== src/Server.antt =====
-- cmd/dyld/main.go: the state of the server, the wallets that it signs for, the addresses that it has
-- seen, and the streams that it has open.
pub mod Requests
pub mod Handlers
pub mod Faults
pub mod Seen
pub mod Wallets
pub mod LostStake
pub mod Budget
use dylchain.Base.{
  ℕ, zero, suc, ◌+◌, ◌-◌, ◌*◌, ◌/◌, ◌%◌, ◌^◌, ◌≤◌, ◌<◌, ◌≡◌, refl, sym, ap, ◌∙◌, subst, ◌≢◌, ◌↔◌,
  ◌⊎◌, inl, inr, Bool, true, false, not, ◌&&◌, ◌||◌, Option, none, some, List, [], ◌∷◌, ◌++◌, map,
  append_assoc, append-nil, arith, ltb, leb, ◌==◌, if◌then◌else◌, ltb→lt, lt→ltb, leb→le, ==_iff,
  tests, Bool-cases, Option-cases, if_cases, length, get_elem?, set, take, drop, replicate, All,
  length-append, length-set, take-append-drop, length-take, length-drop, length-map, All-append,
  append-injective, Result-cases, >>=-eq-some, Result, ok, err, ◌>>=◌,
}
use dylchain.Base.Int.{
  u64_mod, add_u64, sub_u64, ℤ, pos, negsuc, pos_part, neg_part, sub_ℕ, ◌+ℤ◌, ◌-ℤ◌, ◌≤ℤ◌, ltb_ℤ,
  eqb_ℤ, to_u64, of_u64, add_i64, sub_i64, +ℤ_parts, -ℤ_parts, eq_of_parts, int_laws,
  add_i64-one-ne, add_i64-pos, eqb_ℤ_iff, IsI64, to_u64-injective, to_u64-lt,
}
use dylchain.Bytes.{Bytes, text, equal, equal_iff, equal_refl, IsBytes}
use dylchain.Dict.{Dict, lookup, get_or, insert, erase}
use dylchain.Coin.{base_units_per_coin}
use dylchain.Crypto.{Crypto}
use dylchain.Transaction.{
  Transaction, kind_transfer, kind_delegate, kind_undelegate, signable_bytes,
}
use dylchain.Mempool.{Mempool}
use dylchain.Cluster.{Cluster, balance_and_nonce}
use dylchain.Cluster.Gate.{SubmitError, submit}
use dylchain.Network.{Network, Floats}
use dylchain.Limits.{IpLimiters, make_room}

pub record Wallet : Type 0 where
  pub priv_key : Bytes
  pub address : Bytes

abbrev pub max_viewers : ℤ
max_viewers = pos 512

abbrev pub max_viewers_per_ip : ℤ
max_viewers_per_ip = pos 16

abbrev pub max_seen : ℕ
max_seen = 500

abbrev pub faucet_grant : ℕ
faucet_grant = 5_000 * base_units_per_coin

pub record Server (F : Type 0) : Type 0 where
  pub network : Network
  pub faucet : Wallet
  pub accounts : Dict Wallet
  pub writes : IpLimiters F
  pub reads : IpLimiters F
  pub viewers : ℤ
  pub orig_stake : List ℕ
  pub orig_total : ℕ
  pub nonces : Dict ℤ
  pub seen_list : List Bytes
  pub seen_set : Dict Bool
  pub last_faucet : Dict ℤ
  pub viewers_by_ip : Dict ℤ

-- The nonce that a wallet signs next, and the server's count after it.
unfoldable pub next_nonce : Cluster → Dict ℤ → Bytes → ℤ
unfolding balance_and_nonce
next_nonce k nonces addr =
    let chain_nonce = (balance_and_nonce k addr).1 in
    let n = get_or nonces addr (pos 0) in if ltb_ℤ chain_nonce n then n else chain_nonce

unfoldable pub reserve : Cluster → Dict ℤ → Bytes → ℤ × Dict ℤ
unfolding next_nonce
reserve k nonces addr =
    let nonce = next_nonce k nonces addr in (nonce, insert addr (add_i64 nonce (pos 1)) nonces)

-- The function that `signFromKind` returns, for the nonce that it gave out.
unfoldable pub rollback : Bytes → ℤ → Dict ℤ → Dict ℤ
rollback addr nonce nonces =
    if eqb_ℤ (get_or nonces addr (pos 0)) (add_i64 nonce (pos 1))
    then insert addr nonce nonces
    else nonces

-- The nonces, once the queue has taken a transaction or not.
unfoldable pub after_submit :
    Bytes → ℤ → Dict ℤ → Mempool × Option SubmitError → Mempool × Dict ℤ × Option SubmitError
unfolding rollback
after_submit addr nonce nonces (m, none) = (m, nonces, none)
after_submit addr nonce nonces (m, some e) = (m, rollback addr nonce nonces, some e)

-- One address of `markSeen`. `none` is a panic.
unfoldable pub mark_one : Bytes → List Bytes → Dict Bool → Option (List Bytes × Dict Bool)
unfolding make_room
mark_one a seen_list seen_set =
    if equal a [] || get_or seen_set a false then some (seen_list, seen_set) else (do
      (kept, known) ← make_room max_seen seen_list seen_set
      some (kept ++ a ∷ [], insert a true known))

unfoldable pub mark_all : List Bytes → List Bytes → Dict Bool → Option (List Bytes × Dict Bool)
unfolding mark_one
mark_all [] seen_list seen_set = some (seen_list, seen_set)
mark_all (a ∷ as') seen_list seen_set = do
  (seen_list', seen_set') ← mark_one a seen_list seen_set
  mark_all as' seen_list' seen_set'

unfoldable pub mark_seen : {F : Type 0} → List Bytes → Server F → Option (Server F)
unfolding mark_all
mark_seen addrs s = do
  (seen_list, seen_set) ← mark_all addrs s.seen_list s.seen_set
  some (record s { seen_list = seen_list; seen_set = seen_set })

module _ ⦃c : Crypto⦄ where
  unfoldable pub signed : Bytes → Wallet → Bytes → ℕ → ℤ → Transaction
  signed kind from to amount nonce =
      let tx : Transaction = record {
        kind = kind;
        from = from.address;
        to = to;
        amount = amount;
        nonce = nonce;
        signature = [];
      } in
      record tx { signature = c.sign from.priv_key (signable_bytes tx) }

  -- The transaction, and the nonces that the server then counts.
  unfoldable pub sign_from_kind :
      Cluster → Dict ℤ → Bytes → Wallet → Bytes → ℕ → Transaction × Dict ℤ
  unfolding reserve signed
  sign_from_kind k nonces kind from to amount =
      let (nonce, nonces') = reserve k nonces from.address in
      (signed kind from to amount nonce, nonces')

  abbrev pub sign_from : Cluster → Dict ℤ → Wallet → Bytes → ℕ → Transaction × Dict ℤ
  sign_from k nonces = sign_from_kind k nonces kind_transfer

  -- A signing, the submission, and the rollback if it is refused.
  unfoldable pub send :
      Cluster
      → Mempool
      → Dict ℤ
      → Bytes
      → Wallet
      → Bytes
      → ℕ
      → Mempool × Dict ℤ × Option SubmitError
  unfolding sign_from_kind submit after_submit
  send k m nonces kind from to amount =
      let (tx, nonces') = sign_from_kind k nonces kind from to amount in
      after_submit from.address tx.nonce nonces' (submit m tx)

  -- `submitDemo` for the address that was picked.
  unfoldable pub submit_demo : {F : Type 0} → Wallet → Bytes → ℕ → Server F → Server F
  unfolding send
  submit_demo w to amount s =
      if equal to [] || equal to w.address
      then s
      else let (m, nonces, e) =
          send s.network.live s.network.mempool s.nonces kind_transfer w to amount in
        record s { network = record s.network { mempool = m }; nonces = nonces }

  unfoldable pub stake : {F : Type 0} → Bytes → Wallet → Bytes → ℕ → Server F → Server F
  unfolding send
  stake kind w to amount s =
      if equal to []
      then s
      else let (m, nonces, e) = send s.network.live s.network.mempool s.nonces kind w to amount in
        record s { network = record s.network { mempool = m }; nonces = nonces }

  -- `submitStake` for the person, the validator and the amount that were drawn, and for the bond that
  -- was drawn if part of one is to be released.
  unfoldable pub submit_stake :
      {F : Type 0} → Wallet → Bytes → ℕ → Option (Bytes × ℕ) → Server F → Server F
  unfolding stake
  submit_stake w to amount none s = stake kind_delegate w to amount s
  submit_stake w to amount (some (v, have)) s =
      let part = add_u64 (have / 2) base_units_per_coin in
      stake kind_undelegate w v (if ltb have part then have else part) s
