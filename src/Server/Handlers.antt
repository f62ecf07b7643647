-- ===== src/Server/Handlers.antt =====
-- cmd/dyld/main.go: the HTTP handlers, from a request to a response. The text of a decoder's own error
-- is left out.
use dylchain.Base.{
  Bool, true, false, not, ◌||◌, Option, none, some, List, [], ◌∷◌, map, ◌==◌, if◌then◌else◌, length,
  ◌>>=◌,
}
use dylchain.Base.Int.{ℤ, pos, ◌-ℤ◌, ltb_ℤ, add_i64, sub_i64}
use dylchain.Bytes.{Bytes, text, equal}
use dylchain.Dict.{Dict, lookup, get_or, insert, erase}
use dylchain.Coin.{block_reward}
use dylchain.Crypto.{Crypto}
use dylchain.Address.{valid_address}
use dylchain.Address.Hex.{encode_to_string}
use dylchain.Transaction.{kind_transfer}
use dylchain.Reward.{sort_strings}
use dylchain.Cluster.{subscribe, balance_and_nonce}
use dylchain.Cluster.Gate.{submit}
use dylchain.Inclusion.{Inclusion, cluster_inclusion_proof}
use dylchain.Network.{Floats, snapshot, delegations}
use dylchain.Limits.{allow_ip}
use dylchain.Server.{Wallet, Server, max_viewers, max_viewers_per_ip, faucet_grant, mark_seen, send}
use dylchain.Server.Requests.{
  Decoders, get, post, options, other, Request, AccountView, no_body, complaint, refused, funded,
  account, proof, state, Response, Reply, Handler, reject, is_get, is_post, is_full, with_network,
}

-- The faucet gives to an address at most once in 30 seconds.
unfoldable pub too_soon : Dict ℤ → Bytes → ℤ → Bool
too_soon last_faucet addr now = elim (lookup addr last_faucet) [
  | none ↦ false
  | some last ↦ ltb_ℤ (now -ℤ last) (pos 30_000_000_000)
]

-- The names of the accounts.
unfoldable pub keys : Dict Wallet → List Bytes
keys [] = []
keys ((name, w) ∷ d) = name ∷ keys d

module _ ⦃f : Floats⦄ ⦃d : Decoders⦄ where
  unfoldable pub client_ip : Request → Bytes
  client_ip r = elim (d.split_host r.remote_addr) [ none ↦ r.remote_addr | some host ↦ host ]

  unfoldable pub write_limited : Handler f.Number → Handler f.Number
  unfolding client_ip
  write_limited h now r s =
      if not (is_post r.method)
      then reject 405 (text "POST only") s
      else elim (allow_ip now (client_ip r) s.writes) [
        | none ↦ none
        | some (l, false) ↦ reject 429 (text "rate limited, slow down") (record s { writes = l })
        | some (l, true) ↦ h now r (record s { writes = l })
      ]

  unfoldable pub read_limited : Handler f.Number → Handler f.Number
  unfolding client_ip
  read_limited h now r s =
      if not (is_get r.method)
      then reject 405 (text "GET only") s
      else elim (allow_ip now (client_ip r) s.reads) [
        | none ↦ none
        | some (l, false) ↦ reject 429 (text "rate limited, slow down") (record s { reads = l })
        | some (l, true) ↦ h now r (record s { reads = l })
      ]

  -- An OPTIONS request ends here. The headers that it sets are not modelled.
  unfoldable pub with_cors : Handler f.Number → Handler f.Number
  with_cors h now r s = elim r.method [
    | options ↦ some (s, record { status = 204; body = no_body })
    | get ↦ h now r s
    | post ↦ h now r s
    | other ↦ h now r s
  ]

  abbrev view_of : Server f.Number → Bytes → Bytes → AccountView
  view_of s name addr = record {
    name = name;
    address = addr;
    balance = (balance_and_nonce s.network.live addr).0;
  }

  abbrev named_view : Server f.Number → Bytes → AccountView
  named_view s name =
      view_of s name (get_or s.accounts name (record { priv_key = []; address = [] })).address

  unfoldable pub handle_state : Handler f.Number
  unfolding snapshot sort_strings balance_and_nonce keys
  handle_state now r s = some (
    s,
    record {
      status = 200;
      body =
          state (snapshot s.network) block_reward faucet_grant
            (view_of s (text "faucet") s.faucet.address
              ∷ map (named_view s) (sort_strings (keys s.accounts)))
            (map (view_of s []) (sort_strings s.seen_list));
    },
  )

  unfoldable pub handle_account : Handler f.Number
  unfolding balance_and_nonce delegations
  handle_account now r s =
      if equal r.address []
      then reject 400 (text "address required") s
      else let (balance, nonce) = balance_and_nonce s.network.live r.address in
        some (
          s,
          record {
            status = 200;
            body = account r.address balance nonce (delegations s.network.live r.address);
          },
        )

  abbrev shown : ℤ → Inclusion → Response f.Number
  shown height p = record {
    status = 200;
    body =
        proof height (encode_to_string p.leaf) p.index (map encode_to_string p.siblings)
          (encode_to_string p.root);
  }

module _ ⦃c : Crypto⦄ ⦃f : Floats⦄ ⦃d : Decoders⦄ where
  unfoldable pub handle_proof : Handler f.Number
  unfolding cluster_inclusion_proof
  handle_proof now r s = elim (d.parse_int r.height) [
    | none ↦ reject 400 (text "height required") s
    | some height ↦
        if ltb_ℤ height (pos 1)
        then reject 400 (text "height required") s
        else if not (length r.tx_hash == 64)
        then reject 400 (text "hash required (64 hex characters)") s
        else elim (cluster_inclusion_proof s.network.live height r.tx_hash) [
          | none ↦ reject 404 (text "no such transaction in a recent block") s
          | some p ↦ some (s, shown height p)
        ]
  ]

  -- The answer to a submission, and what it leaves.
  unfoldable pub handle_tx : Handler f.Number
  unfolding submit mark_seen
  handle_tx now r s =
      if not (is_post r.method)
      then reject 405 (text "POST only") s
      else elim (d.decode_transaction r.body) [
        | none ↦ reject 400 (text "bad JSON") s
        | some tx ↦
            let (m, e) = submit s.network.mempool tx in
            let s1 = with_network (record s.network { mempool = m }) s in
            elim e [
              | some reason ↦ some (
                s1,
                record { status = if is_full reason then 429 else 400; body = refused reason },
              )
              | none ↦ (do
                s2 ← mark_seen (tx.from ∷ tx.to ∷ []) s1
                some (s2, record { status = 202; body = no_body }))
            ]
      ]

  -- The faucet's transfer.
  unfoldable pub grant : Bytes → Server f.Number → Reply f.Number
  unfolding send mark_seen
  grant addr s =
      let (m, nonces, e) =
        send s.network.live s.network.mempool s.nonces kind_transfer s.faucet addr faucet_grant in
      let s1 = record s { network = record s.network { mempool = m }; nonces = nonces } in
      elim e [
        | some reason ↦ some (s1, record { status = 400; body = refused reason })
        | none ↦ (do
          s2 ← mark_seen (addr ∷ []) s1
          some (s2, record { status = 200; body = funded addr faucet_grant }))
      ]

  unfoldable pub handle_faucet : Handler f.Number
  unfolding too_soon grant
  handle_faucet now r s =
      if not (is_post r.method)
      then reject 405 (text "POST only") s
      else elim (d.decode_address r.body) [
        | none ↦ reject 400 (text "bad JSON") s
        | some addr ↦
            if not (valid_address addr) || equal addr s.faucet.address
            then reject 400 (text "a valid, non-faucet address is required") s
            else if too_soon s.last_faucet addr now
            then reject 429 (text "faucet rate limit, try again in a moment") s
            else grant addr (record s { last_faucet = insert addr now s.last_faucet })
      ]

module _ ⦃f : Floats⦄ ⦃d : Decoders⦄ where
  -- `/events` up to the stream, on a connection that can stream. A response is a refusal; `none` opens
  -- the stream.
  unfoldable pub open_stream :
      Request → Server f.Number → Server f.Number × Option (Response f.Number)
  unfolding client_ip
  open_stream r s =
      let ip = client_ip r in
      let by_ip = get_or s.viewers_by_ip ip (pos 0) in
      if not (is_get r.method)
      then (s, some (record { status = 405; body = complaint (text "GET only") }))
      else if ltb_ℤ max_viewers (add_i64 s.viewers (pos 1))
      then (
        s,
        some (record {
          status = 503;
          body = complaint (text "too many live viewers, try again shortly");
        }),
      )
      else if not (ltb_ℤ by_ip max_viewers_per_ip)
      then (
        s,
        some
            (record { status = 503; body = complaint (text "too many streams from your address") }),
      )
      else (
        record s {
          viewers = add_i64 s.viewers (pos 1);
          viewers_by_ip = insert ip (add_i64 by_ip (pos 1)) s.viewers_by_ip;
          network = record s.network { live = subscribe s.network.live };
        },
        none,
      )

  -- What the end of a stream gives back, but for the subscription.
  unfoldable pub close_stream : Request → Server f.Number → Server f.Number
  unfolding client_ip
  close_stream r s =
      let ip = client_ip r in
      let left = sub_i64 (get_or s.viewers_by_ip ip (pos 0)) (pos 1) in
      record s {
        viewers = sub_i64 s.viewers (pos 1);
        viewers_by_ip =
            if ltb_ℤ (pos 0) left then insert ip left s.viewers_by_ip else erase ip s.viewers_by_ip;
      }
