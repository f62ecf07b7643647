-- ===== src/Cluster.antt =====
-- chain/cluster.go: the live view of a running set of validators, what a block does to it, and the
-- gate that transactions pass. The mutex is not modelled: each method runs alone.
pub mod Windows
pub mod Resume
pub mod Gate
use dylchain.Base.{
  ℕ, zero, suc, ◌+◌, ◌-◌, ◌*◌, ◌/◌, ◌%◌, ◌^◌, ◌≤◌, ◌<◌, ◌≡◌, refl, sym, ap, ◌∙◌, subst, ◌≢◌, ◌↔◌,
  ◌⊎◌, inl, inr, Bool, true, false, not, ◌&&◌, ◌||◌, Option, none, some, List, [], ◌∷◌, ◌++◌, map,
  append_assoc, append-nil, arith, ltb, leb, ◌==◌, if◌then◌else◌, ltb→lt, lt→ltb, leb→le, ==_iff,
  tests, Bool-cases, Option-cases, if_cases, length, get_elem?, set, take, drop, replicate, All,
  length-append, length-set, take-append-drop, length-take, length-drop, length-map, All-append,
  append-injective, Result-cases, >>=-eq-some, Result, ok, err, ◌>>=◌,
}
use dylchain.Base.Int.{
  u64_mod, add_u64, sub_u64, ℤ, pos, negsuc, pos_part, neg_part, sub_ℕ, ◌+ℤ◌, ◌-ℤ◌, ◌≤ℤ◌, ltb_ℤ,
  eqb_ℤ, to_u64, of_u64, add_i64, sub_i64, +ℤ_parts, -ℤ_parts, eq_of_parts, int_laws,
  add_i64-one-ne, add_i64-pos, eqb_ℤ_iff, IsI64, to_u64-injective, to_u64-lt,
}
use dylchain.Bytes.{Bytes, text, equal, equal_iff, equal_refl, IsBytes}
use dylchain.Dict.{
  Dict, lookup, get_or, insert, erase, IsMap, lookup-insert, get_or-insert, lookup-erase_ne,
  get_or-eq-lookup, insert-IsMap, erase-IsMap, lookup-erase_self,
}
use dylchain.Address.Hex.{encode_to_string}
use dylchain.Crypto.{Crypto}
use dylchain.Transaction.{Transaction}
use dylchain.Block.{Block}
use dylchain.Merkle.{hash}
use dylchain.Seal.{block_hash}
use dylchain.State.{State, supply}

abbrev pub recent_blocks : ℕ
recent_blocks = 30

abbrev pub recent_txs : ℕ
recent_txs = 40

pub record BlockInfo : Type 0 where
  pub height : ℤ
  pub hash_hex : Bytes
  pub proposer : Bytes
  pub txs : ℕ
  pub time : ℤ

pub record TxInfo : Type 0 where
  pub hash_hex : Bytes
  pub height : ℤ
  pub kind : Bytes
  pub from : Bytes
  pub to : Bytes
  pub amount : ℕ
  pub time : ℤ

pub data EventKind : Type 0 where
  block_event slash_event heal_event halt_event : EventKind

pub record Event : Type 0 where
  pub kind : EventKind
  pub height : ℤ
  pub validator : Bytes

-- A subscriber's channel: what is waiting in its buffer.
pub record Subscriber : Type 0 where
  pub buffered : List Event
  pub capacity : ℕ

pub record Cluster : Type 0 where
  pub genesis : ℤ
  pub height : ℤ
  pub total_supply : ℕ
  pub recent : List BlockInfo
  pub txs : List TxInfo
  pub proposed : Dict ℤ
  pub slashed : Dict Bool
  -- the address and the reason
  pub halts : List (Bytes × Bytes)
  pub balances : Dict ℕ
  pub nonces : Dict ℤ
  pub delegations : Dict (Dict ℕ)
  pub full_blocks : List Block
  pub subs : List Subscriber
  -- the blocks handed to `onCommit` so far, if it is set
  pub on_commit : Option (List Block)

-- `xs[len(xs)-n:]` where `xs` is longer than `n`
unfoldable pub keep_last {ℓ} : {A : Type ℓ} → ℕ → List A → List A
keep_last n xs = if ltb n (length xs) then drop (length xs - n) xs else xs

unfoldable pub deliver : Event → Subscriber → Subscriber
deliver e s =
    if ltb (length s.buffered) s.capacity then record s { buffered = s.buffered ++ e ∷ [] } else s

unfoldable pub emit : Event → Cluster → Cluster
unfolding deliver
emit e c = record c { subs = map (deliver e) c.subs }

unfoldable pub subscribe : Cluster → Cluster
subscribe c = record c { subs = c.subs ++ record { buffered = []; capacity = 64 } ∷ [] }

unfoldable pub record_slash : Bytes → ℤ → Cluster → Cluster
unfolding emit
record_slash addr height c =
    if get_or c.slashed addr false
    then c
    else emit (record { kind = slash_event; height = height; validator = addr })
        (record c { slashed = insert addr true c.slashed })

unfoldable pub record_heal : Bytes → ℤ → Cluster → Cluster
unfolding emit
record_heal addr height c =
    if not (get_or c.slashed addr false)
    then c
    else emit (record { kind = heal_event; height = height; validator = addr })
        (record c { slashed = erase addr c.slashed })

unfoldable pub record_halt : Bytes → Bytes → Cluster → Cluster
unfolding emit
record_halt addr reason c =
    emit (record { kind = halt_event; height = c.height; validator = addr })
      (record c { halts = c.halts ++ (addr, reason) ∷ [] })

unfoldable pub commit_hook : Block → Option (List Block) → Option (List Block)
commit_hook b none = none
commit_hook b (some bs) = some (bs ++ b ∷ [])

unfoldable pub count_proposed : Bytes → Dict ℤ → Dict ℤ
count_proposed a d = insert a (add_i64 (get_or d a (pos 0)) (pos 1)) d

-- The block itself, if it carries transactions.
unfoldable pub whole : Block → List Block
whole b = if length b.transactions == 0 then [] else b ∷ []

unfoldable pub balance_and_nonce : Cluster → Bytes → ℕ × ℤ
balance_and_nonce c addr = (get_or c.balances addr 0, get_or c.nonces addr (pos 0))

module _ ⦃c : Crypto⦄ where
  unfoldable pub block_info : Block → BlockInfo
  block_info b = record {
    height = b.height;
    hash_hex = encode_to_string (block_hash b);
    proposer = b.proposer;
    txs = length b.transactions;
    time = b.created_at;
  }

  unfoldable pub tx_info : Block → Transaction → TxInfo
  tx_info b tx = record {
    hash_hex = encode_to_string (hash tx);
    height = b.height;
    kind = tx.kind;
    from = tx.from;
    to = tx.to;
    amount = tx.amount;
    time = b.created_at;
  }

  unfoldable pub record_block : Block → State → Cluster → Cluster
  unfolding emit commit_hook count_proposed whole block_info tx_info keep_last supply
  record_block b st k =
      if not (ltb_ℤ k.height b.height)
      then k
      else emit (record { kind = block_event; height = b.height; validator = b.proposer })
          (record k {
            height = b.height;
            total_supply = supply st;
            balances = st.balances;
            nonces = st.nonces;
            delegations = st.delegations;
            proposed = count_proposed b.proposer k.proposed;
            recent = keep_last recent_blocks (k.recent ++ block_info b ∷ []);
            full_blocks = keep_last recent_txs (k.full_blocks ++ whole b);
            txs = keep_last recent_txs (k.txs ++ map (tx_info b) b.transactions);
            on_commit = commit_hook b k.on_commit;
          })

  -- The loop of `seedLiveView`.
  unfoldable pub seed_blocks : List Block → Cluster → Cluster
  unfolding count_proposed whole block_info tx_info
  seed_blocks [] k = k
  seed_blocks (b ∷ bs) k = seed_blocks bs (record k {
    proposed = count_proposed b.proposer k.proposed;
    recent = k.recent ++ block_info b ∷ [];
    txs = k.txs ++ map (tx_info b) b.transactions;
    full_blocks = k.full_blocks ++ whole b;
  })

  -- The cuts after the loop.
  unfoldable pub trim : Cluster → Cluster
  unfolding keep_last
  trim k = record k {
    recent = keep_last recent_blocks k.recent;
    txs = keep_last recent_txs k.txs;
    full_blocks = keep_last recent_txs k.full_blocks;
  }

  -- The ledger's part of the view.
  unfoldable pub show_state : State → Cluster → Cluster
  unfolding supply
  show_state st k = record k {
    balances = st.balances;
    nonces = st.nonces;
    delegations = st.delegations;
    total_supply = supply st;
  }
