-- ===== src/Cluster/Resume.antt =====
-- `seedLiveView` of chain/cluster.go: the view of a chain that is read back from a log.
use dylchain.Base.{
  ℕ, ◌≡◌, refl, sym, ap, ◌∙◌, true, none, some, List, [], ◌∷◌, ◌++◌, map, append_assoc, append-nil,
}
use dylchain.Base.Int.{ℤ, ltb_ℤ}
use dylchain.Dict.{Dict}
use dylchain.Crypto.{Crypto}
use dylchain.Block.{Block}
use dylchain.State.{State}
use dylchain.Chain.{Chain, tip}
use dylchain.Cluster.{
  Cluster, BlockInfo, TxInfo, recent_blocks, recent_txs, keep_last, emit, count_proposed, whole,
  block_info, tx_info, record_block, seed_blocks, trim, show_state,
}
use dylchain.Cluster.Windows.{keep_last-append}

module _ ⦃c : Crypto⦄ where
  -- The view from a chain with a genesis block and a tip.
  unfoldable pub seed_feeds : Block → List Block → Cluster → Cluster
  unfolding tip seed_blocks trim
  seed_feeds genesis blocks k = elim (tip (genesis ∷ blocks)) [
    | none ↦ k
    | some t ↦ trim (seed_blocks blocks (record k { height = t.height }))
  ]

  unfoldable pub seed_live_view : Chain → Cluster → Cluster
  unfolding seed_feeds show_state
  seed_live_view ch k = elim ch.blocks [
    | [] ↦ show_state ch.state k
    | genesis ∷ blocks ↦ seed_feeds genesis blocks (show_state ch.state k)
  ]

  -- The blocks of a run, each with the ledger after it, as the nodes report them.
  abbrev pub record_blocks : List (Block × State) → Cluster → Cluster
  record_blocks [] k = k
  record_blocks ((b, s) ∷ rs) k = record_blocks rs (record_block b s k)

  -- What the view shows of the chain's history.
  abbrev pub Feeds : Type 0
  Feeds = List BlockInfo × List TxInfo × Dict ℤ × List Block

  abbrev pub feeds : Cluster → Feeds
  feeds k = (k.recent, k.txs, k.proposed, k.full_blocks)

  -- Every block is higher than the one before it.
  abbrev pub Rising : ℤ → List Block → Type 0
  Rising h [] = Unit
  Rising h (b ∷ bs) = (ltb_ℤ h b.height ≡ true) × Rising b.height bs

  abbrev all_txs : List Block → List TxInfo
  all_txs [] = []
  all_txs (b ∷ bs) = map (tx_info b) b.transactions ++ all_txs bs

  abbrev all_whole : List Block → List Block
  all_whole [] = []
  all_whole (b ∷ bs) = whole b ++ all_whole bs

  abbrev all_proposed : List Block → Dict ℤ → Dict ℤ
  all_proposed [] d = d
  all_proposed (b ∷ bs) d = all_proposed bs (count_proposed b.proposer d)

  -- The feeds after some blocks, cut once at the end.
  abbrev fed : List Block → Feeds → Feeds
  fed bs (recent, txs, proposed, full) = (
    keep_last recent_blocks (recent ++ map block_info bs),
    keep_last recent_txs (txs ++ all_txs bs),
    all_proposed bs proposed,
    keep_last recent_txs (full ++ all_whole bs),
  )

  feeds-seed_blocks :
      (bs : List Block) (k : Cluster)
      → feeds (seed_blocks bs k) ≡ (
        k.recent ++ map block_info bs,
        k.txs ++ all_txs bs,
        all_proposed bs k.proposed,
        k.full_blocks ++ all_whole bs,
      )
  unfolding seed_blocks
  feeds-seed_blocks [] k = rw (append-nil k.recent, append-nil k.txs, append-nil k.full_blocks) refl
  feeds-seed_blocks (b ∷ bs) k =
      feeds-seed_blocks bs _
      ∙ rw
          (
            append_assoc k.recent (block_info b ∷ []) (map block_info bs),
            append_assoc k.txs (map (tx_info b) b.transactions) (all_txs bs),
            append_assoc k.full_blocks (whole b) (all_whole bs),
          )
          refl

  abbrev trimmed : Feeds → Feeds
  trimmed (recent, txs, proposed, full) = (
    keep_last recent_blocks recent,
    keep_last recent_txs txs,
    proposed,
    keep_last recent_txs full,
  )

  feeds-trim : (k : Cluster) → feeds (trim k) ≡ trimmed (feeds k)
  unfolding trim
  feeds-trim k = refl

  again {ℓ} :
      {A : Type ℓ} (n : ℕ) (xs ys zs : List A)
      → keep_last n (keep_last n (xs ++ ys) ++ zs) ≡ keep_last n (xs ++ (ys ++ zs))
  again n xs ys zs = keep_last-append n (xs ++ ys) zs ∙ ap (keep_last n) (append_assoc xs ys zs)

  feeds-record_block :
      (b : Block) (s : State) (k : Cluster)
      → ltb_ℤ k.height b.height ≡ true
      → (feeds (record_block b s k) ≡ fed (b ∷ []) (feeds k))
        × ((record_block b s k).height ≡ b.height)
  unfolding record_block emit
  feeds-record_block b s k h =
      rw h (rw (append-nil (map (tx_info b) b.transactions), append-nil (whole b)) (refl, refl))

  fed-fed : (b : Block) (bs : List Block) (f : Feeds) → fed bs (fed (b ∷ []) f) ≡ fed (b ∷ bs) f
  fed-fed b bs (recent, txs, proposed, full) =
      rw (append-nil (map (tx_info b) b.transactions), append-nil (whole b))
        (rw
          (
            again recent_blocks recent (block_info b ∷ []) (map block_info bs),
            again recent_txs txs (map (tx_info b) b.transactions) (all_txs bs),
            again recent_txs full (whole b) (all_whole bs),
          )
          refl)

  abbrev pub blocks_of : List (Block × State) → List Block
  blocks_of [] = []
  blocks_of ((b, s) ∷ rs) = b ∷ blocks_of rs

  record_blocks-fed :
      (rs : List (Block × State)) (k : Cluster)
      → Rising k.height (blocks_of rs)
      → fed [] (feeds k) ≡ feeds k
      → feeds (record_blocks rs k) ≡ fed (blocks_of rs) (feeds k)
  record_blocks-fed [] k r h = sym h
  record_blocks-fed ((b, s) ∷ rs) k r h =
      let (e, at) = feeds-record_block b s k r.0 in
      let r' : Rising (record_block b s k).height (blocks_of rs) = rw at r.1 in
      record_blocks-fed rs (record_block b s k) r' (ap (fed []) e ∙ fed-fed b [] (feeds k) ∙ sym e)
      ∙ ap (fed (blocks_of rs)) e
      ∙ fed-fed b (blocks_of rs) (feeds k)

  seed-fed : (bs : List Block) (k : Cluster) → feeds (trim (seed_blocks bs k)) ≡ fed bs (feeds k)
  seed-fed bs k = feeds-trim (seed_blocks bs k) ∙ ap trimmed (feeds-seed_blocks bs k)

  tip-cons : (b : Block) (bs : List Block) → (t : Block) × (tip (b ∷ bs) ≡ some t)
  unfolding tip
  tip-cons b [] = (b, refl)
  tip-cons b (d ∷ bs) = tip-cons d bs

  seed_feeds-some :
      (genesis : Block) (bs : List Block) (t : Block) (k : Cluster)
      → tip (genesis ∷ bs) ≡ some t
      → seed_feeds genesis bs k ≡ trim (seed_blocks bs (record k { height = t.height }))
  unfolding seed_feeds
  seed_feeds-some genesis bs t k e = rw (e, seed_feeds) refl

  -- A view that has shown no block.
  pub record IsFresh (k : Cluster) : Type 0 where
    pub no_recent : k.recent ≡ []
    pub no_txs : k.txs ≡ []
    pub no_full : k.full_blocks ≡ []

  fresh-fed : (k : Cluster) → IsFresh k → fed [] (feeds k) ≡ feeds k
  unfolding keep_last
  fresh-fed k f = rw (f.no_recent, f.no_txs, f.no_full) refl

  -- A cluster that is resumed from its log shows the same recent blocks, recent transactions, counts
  -- of proposals and whole blocks as one that recorded the same blocks while it ran, where both start
  -- from a view that has shown no block, and every block is higher than the one before.
  pub seed_live_view-record :
      (ch : Chain) (genesis : Block) (rs : List (Block × State)) (k : Cluster)
      → ch.blocks ≡ genesis ∷ blocks_of rs
      → IsFresh k
      → Rising k.height (blocks_of rs)
      → feeds (seed_live_view ch k) ≡ feeds (record_blocks rs k)
  unfolding seed_live_view show_state
  seed_live_view-record ch genesis rs k e f r =
      let (t, tipped) = tip-cons genesis (blocks_of rs) in
      let view : List Block → Feeds =
        λ bs. feeds (seed_live_view (record { blocks = bs; state = ch.state }) k) in
      let shown : Cluster = show_state ch.state k in
      ap view e
      ∙ ap feeds (seed_feeds-some genesis (blocks_of rs) t shown tipped)
      ∙ seed-fed (blocks_of rs) (record shown { height = t.height })
      ∙ sym (record_blocks-fed rs k r (fresh-fed k f))
