-- ===== src/World.antt =====
-- cmd/dylwasm/main.go: the world of a page, which does without HTTP what the server does. Decoding is
-- a parameter, as it is for the server, and a view is a value, not its JSON.
pub mod Mirror
use dylchain.Base.{
  ℕ, zero, suc, ◌+◌, ◌-◌, ◌*◌, ◌/◌, ◌%◌, ◌^◌, ◌≤◌, ◌<◌, ◌≡◌, refl, sym, ap, ◌∙◌, subst, ◌≢◌, ◌↔◌,
  ◌⊎◌, inl, inr, Bool, true, false, not, ◌&&◌, ◌||◌, Option, none, some, List, [], ◌∷◌, ◌++◌, map,
  append_assoc, append-nil, arith, ltb, leb, ◌==◌, if◌then◌else◌, ltb→lt, lt→ltb, leb→le, ==_iff,
  tests, Bool-cases, Option-cases, if_cases, length, get_elem?, set, take, drop, replicate, All,
  length-append, length-set, take-append-drop, length-take, length-drop, length-map, All-append,
  append-injective, Result-cases, >>=-eq-some, Result, ok, err, ◌>>=◌,
}
use dylchain.Base.Int.{
  u64_mod, add_u64, sub_u64, ℤ, pos, negsuc, pos_part, neg_part, sub_ℕ, ◌+ℤ◌, ◌-ℤ◌, ◌≤ℤ◌, ltb_ℤ,
  eqb_ℤ, to_u64, of_u64, add_i64, sub_i64, +ℤ_parts, -ℤ_parts, eq_of_parts, int_laws,
  add_i64-one-ne, add_i64-pos, eqb_ℤ_iff, IsI64, to_u64-injective, to_u64-lt,
}
use dylchain.Bytes.{Bytes, text, equal}
use dylchain.Dict.{Dict, lookup, get_or, insert, erase}
use dylchain.Coin.{base_units_per_coin, block_reward}
use dylchain.Crypto.{Crypto}
use dylchain.Address.{valid_address}
use dylchain.Address.Hex.{encode_to_string}
use dylchain.Transaction.{
  Transaction, kind_transfer, kind_delegate, kind_undelegate, signable_bytes,
}
use dylchain.Reward.{sort_strings}
use dylchain.Mempool.{Mempool}
use dylchain.Cluster.{Cluster, balance_and_nonce}
use dylchain.Cluster.Gate.{SubmitError, submit}
use dylchain.Inclusion.{Inclusion, cluster_inclusion_proof}
use dylchain.Network.{
  Network, Floats, ValidatorInfo, Snapshot, snapshot, delegations, size, faulty, make_faulty,
}
use dylchain.Limits.{make_room}
use dylchain.Node.{Node}
use dylchain.Server.{Wallet}
use dylchain.Server.Requests.{Decoders, AccountView}
use dylchain.Server.Handlers.{too_soon, keys}

abbrev pub max_seen : ℕ
max_seen = 300

abbrev pub faucet_grant : ℕ
faucet_grant = 5_000 * base_units_per_coin

pub record World : Type 0 where
  pub network : Network
  pub faucet : Wallet
  pub accounts : Dict Wallet
  pub orig_stake : List ℕ
  pub orig_total : ℕ
  pub nonces : Dict ℤ
  pub seen_list : List Bytes
  pub seen_set : Dict Bool
  pub last_faucet : Dict ℤ

-- The errors that a page gets.
pub data WorldError : Type 0 where
  bad_json not_an_address too_early out_of_range over_budget : WorldError
  refused : SubmitError → WorldError

-- What a call leaves, and its error; `none` is a panic.
abbrev pub Call : Type 0
Call = Option (World × Option WorldError)

-- One address of `markSeen`.
unfoldable pub mark_one : Bytes → World → Option World
unfolding make_room
mark_one a w = if equal a [] || get_or w.seen_set a false then some w else (do
  (kept, known) ← make_room max_seen w.seen_list w.seen_set
  some (record w { seen_list = kept ++ a ∷ []; seen_set = insert a true known }))

unfoldable pub mark_seen : List Bytes → World → Option World
unfolding mark_one
mark_seen [] w = some w
mark_seen (a ∷ as') w = do w' ← mark_one a w; mark_seen as' w'

-- The function that `signFromKind` returns.
unfoldable pub rollback : Bytes → ℤ → World → World
rollback addr nonce w =
    if eqb_ℤ (get_or w.nonces addr (pos 0)) (add_i64 nonce (pos 1))
    then record w { nonces = insert addr nonce w.nonces }
    else w

unfoldable pub next_nonce : World → Bytes → ℤ
unfolding balance_and_nonce
next_nonce w addr =
    let chain_nonce = (balance_and_nonce w.network.live addr).1 in
    let n = get_or w.nonces addr (pos 0) in if ltb_ℤ chain_nonce n then n else chain_nonce

abbrev pub with_mempool : Mempool → World → World
with_mempool m w = record w { network = record w.network { mempool = m } }

module _ ⦃c : Crypto⦄ where
  unfoldable pub sign_from_kind : Bytes → Wallet → Bytes → ℕ → World → Transaction × World
  unfolding next_nonce
  sign_from_kind kind from to amount w =
      let nonce = next_nonce w from.address in
      let tx : Transaction = record {
        kind = kind;
        from = from.address;
        to = to;
        amount = amount;
        nonce = nonce;
        signature = [];
      } in
      (
        record tx { signature = c.sign from.priv_key (signable_bytes tx) },
        record w { nonces = insert from.address (add_i64 nonce (pos 1)) w.nonces },
      )

  -- A signing, the submission, and the rollback if it is refused.
  unfoldable pub send : Bytes → Wallet → Bytes → ℕ → World → World × Option SubmitError
  unfolding sign_from_kind submit rollback
  send kind from to amount w =
      let (tx, w1) = sign_from_kind kind from to amount w in
      let (m, e) = submit w1.network.mempool tx in
      let w2 = with_mempool m w1 in
      elim e [ none ↦ (w2, none) | some reason ↦ (rollback from.address tx.nonce w2, some reason) ]

  -- `submitDemo` for the address that was picked.
  unfoldable pub submit_demo : Wallet → Bytes → ℕ → World → World
  unfolding send
  submit_demo from to amount w =
      if equal to [] || equal to from.address then w else (send kind_transfer from to amount w).0

  -- `submitStake` for the person, the validator and the amount that were drawn, and for the bond that
  -- was drawn if part of one is to be released.
  unfoldable pub submit_stake : Wallet → Bytes → ℕ → Option (Bytes × ℕ) → World → World
  unfolding send
  submit_stake from to amount none w =
      if equal to [] then w else (send kind_delegate from to amount w).0
  submit_stake from to amount (some (v, have)) w =
      let part = add_u64 (have / 2) base_units_per_coin in
      if equal v []
      then w
      else (send kind_undelegate from v (if ltb have part then have else part) w).0

  unfoldable pub submit_tx : ⦃d : Decoders⦄ → Bytes → World → Call
  unfolding submit mark_seen
  submit_tx ⦃d⦄ raw w = elim (d.decode_transaction raw) [
    | none ↦ some (w, some bad_json)
    | some tx ↦
        let (m, e) = submit w.network.mempool tx in
        elim e [
          | some reason ↦ some (with_mempool m w, some (refused reason))
          | none ↦ (do w' ← mark_seen (tx.from ∷ tx.to ∷ []) (with_mempool m w); some (w', none))
        ]
  ]

  unfoldable pub grant : Bytes → World → Call
  unfolding send mark_seen
  grant addr w =
      let (w1, e) = send kind_transfer w.faucet addr faucet_grant w in
      elim e [
        | some reason ↦ some (w1, some (refused reason))
        | none ↦ (do w2 ← mark_seen (addr ∷ []) w1; some (w2, none))
      ]

  unfoldable pub faucet_to : ℤ → Bytes → World → Call
  unfolding too_soon grant
  faucet_to now addr w =
      if not (valid_address addr) || equal addr w.faucet.address
      then some (w, some not_an_address)
      else if too_soon w.last_faucet addr now
      then some (w, some too_early)
      else grant addr (record w { last_faucet = insert addr now w.last_faucet })

abbrev pub view_of : World → Bytes → Bytes → AccountView
view_of w name addr = record {
  name = name;
  address = addr;
  balance = (balance_and_nonce w.network.live addr).0;
}

abbrev pub named_view : World → Bytes → AccountView
named_view w name =
    view_of w name (get_or w.accounts name (record { priv_key = []; address = [] })).address

-- The lists `accounts` and `seen` of `stateJSON`.
unfoldable pub account_views : World → List AccountView × List AccountView
unfolding balance_and_nonce sort_strings keys
account_views w = (
  view_of w (text "faucet") w.faucet.address ∷ map (named_view w) (sort_strings (keys w.accounts)),
  map (view_of w []) (sort_strings w.seen_list),
)

-- The values of `accountJSON`.
unfoldable pub account_of : World → Bytes → ℕ × ℤ × Option (Dict ℕ)
unfolding balance_and_nonce delegations
account_of w addr =
    let (balance, nonce) = balance_and_nonce w.network.live addr in
    (balance, nonce, delegations w.network.live addr)

-- The values of `proofJSON`: the leaf, the index, the siblings and the root.
unfoldable pub proof_of : ⦃c : Crypto⦄ → World → ℤ → Bytes → Option (Bytes × ℕ × List Bytes × Bytes)
unfolding cluster_inclusion_proof
proof_of w height tx_hash = do
  p ← cluster_inclusion_proof w.network.live height tx_hash
  some (encode_to_string p.leaf, p.index, map encode_to_string p.siblings, encode_to_string p.root)

-- The condition of the loop of `fault`, for the validator whose node is the first of the list: a node
-- is looked at only if the validator is not slashed. `none` is a panic.
unfoldable pub is_lost : {F : Type 0} → ValidatorInfo F → List Node → Option Bool
is_lost v [] = if v.slashed then some true else none
is_lost v (n ∷ nodes) = some (v.slashed || n.byzantine)

-- The stake at genesis, the first of the list, is looked at only if it is lost.
unfoldable pub add_lost : {F : Type 0} → ValidatorInfo F → List ℕ → List Node → ℕ → Option ℕ
unfolding is_lost
add_lost v stakes nodes lost = do
  gone ← is_lost v nodes
  if gone then (do o ← get_elem? stakes 0; some (add_u64 lost o)) else some lost

-- The loop, from place `i`, over the validators with the stakes at genesis and the nodes from that
-- place on: the stake that is lost.
unfoldable pub count_lost :
    {F : Type 0} → ℕ → ℕ → List (ValidatorInfo F) → List ℕ → List Node → ℕ → Option ℕ
unfolding add_lost
count_lost index i [] stakes nodes lost = some lost
count_lost index i (v ∷ vs) stakes nodes lost = do
  next ← if i == index then some lost else add_lost v stakes nodes lost
  count_lost index (suc i) vs (drop 1 stakes) (drop 1 nodes) next

module _ ⦃f : Floats⦄ where
  unfoldable pub spend_budget : ℕ → World → Call
  unfolding count_lost snapshot make_faulty
  spend_budget index w = do
    own ← get_elem? w.orig_stake index
    lost ← count_lost index 0 (snapshot w.network).validators w.orig_stake w.network.nodes own
    if leb w.orig_total (3 * lost % u64_mod)
        then some (w, some over_budget)
        else (do network ← make_faulty w.network index; some (record w { network = network }, none))

  unfoldable pub fault : ℤ → World → Call
  unfolding faulty size spend_budget
  fault (negsuc k) w = some (w, some out_of_range)
  fault (pos index) w = if leb (size w.network) index then some (w, some out_of_range) else (do
    already ← faulty w.network index
    if already then some (w, none) else spend_budget index w)
