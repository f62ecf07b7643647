-- ===== src/Proposal.antt =====
-- chain/consensus.go: the block that a proposer builds out of the queue.
use dylchain.Base.{
  ℕ, ◌+◌, ◌≤◌, ◌≡◌, refl, sym, ap, ◌∙◌, ◌≢◌, inl, inr, false, Option, none, some, List, [], ◌∷◌,
  arith, ◌==◌, if◌then◌else◌, Bool-cases, Option-cases, length, >>=-eq-some, Result, ok, err, ◌>>=◌,
}
use dylchain.Base.Int.{ℤ, pos, add_i64, eqb_ℤ_iff}
use dylchain.Bytes.{Bytes, equal, equal_iff, equal_refl}
use dylchain.Address.{derive_address, pub_key_from_address}
use dylchain.Address.Keys.{pub_key-derive}
use dylchain.Crypto.{Crypto, CryptoLaws}
use dylchain.Transaction.{Transaction}
use dylchain.Block.{Block}
use dylchain.Merkle.{merkle_root}
use dylchain.Seal.{block_hash, sign_block, verify_block_signature-sign}
use dylchain.State.{State, apply_tx}
use dylchain.Coin.{block_reward}
use dylchain.Reward.{distribute_reward}
use dylchain.State.Effects.{apply_tx-IsAtomic}
use dylchain.Ledger.{BlockError, apply, apply_txs, reward_proposer}
use dylchain.Ledger.Supply.{HasRoom, Grows, apply-Grows, minted}
use dylchain.Chain.{Chain, tip, candidate_error, check_candidate, as_candidate}
use dylchain.Mempool.{Mempool, drain}
use dylchain.Validators.{Validator}

module _ ⦃c : Crypto⦄ where
  -- The loop of `applicable`, on the working copy of the ledger.
  unfoldable pub keep_applicable : State → List Transaction → List Transaction
  keep_applicable s [] = []
  keep_applicable s (tx ∷ txs) =
      let (s', e) = apply_tx s tx in
      let rest = keep_applicable s' txs in elim e [ none ↦ tx ∷ rest | some reason ↦ rest ]

  unfoldable pub applicable : State → List Transaction → List Transaction
  unfolding keep_applicable
  applicable s txs = if length txs == 0 then txs else keep_applicable s txs

  -- The block before it is signed.
  unfoldable pub draft : Block → List Transaction → ℤ → Bytes → ℤ → Block
  draft previous txs height proposer now = record {
    transactions = txs;
    tx_root = merkle_root txs;
    previous_hash = block_hash previous;
    created_at = now;
    height = height;
    alloc = [];
    validators = [];
    proposer = proposer;
    signature = [];
  }

  -- The block, and the queue that is left; `none` is the panic of an empty chain. The time is the
  -- proposer's clock.
  unfoldable pub propose : Chain → Mempool → ℤ → Validator → ℤ → ℤ → Option (Block × Mempool)
  unfolding tip drain applicable draft sign_block
  propose ch m max_block_txs self height now = do
    previous ← tip ch.blocks
    let (m', drained) = drain m max_block_txs
    let b = draft previous (applicable ch.state drained) height self.address now
    some (record b { signature = sign_block b self.priv_key }, m')

  apply_txs-keep :
      (s : State) (i : ℕ) (txs : List Transaction)
      → (s' : State) × (apply_txs s i (keep_applicable s txs) ≡ ok s')
  unfolding keep_applicable apply_txs
  apply_txs-keep s i [] = (s, refl)
  apply_txs-keep s i (tx ∷ txs) = elim (Option-cases (apply_tx s tx).1) [
    | inl good ↦
        let (s', e) = apply_txs-keep (apply_tx s tx).0 (i + 1) txs in
        (s', rw (good, keep_applicable) (rw (good, apply_txs) e))
    | inr (reason, bad) ↦
        let (s', e) = apply_txs-keep s i txs in
        let same : (apply_tx s tx).0 ≡ s = ground (arith, apply_tx-IsAtomic s tx) in
        (s', rw (bad, keep_applicable) (rw same e))
  ]

  apply_txs-applicable :
      (s : State) (i : ℕ) (txs : List Transaction)
      → (s' : State) × (apply_txs s i (applicable s txs) ≡ ok s')
  unfolding applicable apply_txs
  apply_txs-applicable s i [] = (s, refl)
  apply_txs-applicable s i (tx ∷ txs) =
      let full : (length (tx ∷ txs) == 0) ≡ false = ground arith in
      rw full (apply_txs-keep s i (tx ∷ txs))

  -- Transactions that all apply are all kept.
  keep_applicable-all :
      (s s' : State) (i : ℕ) (txs : List Transaction)
      → apply_txs s i txs ≡ ok s'
      → keep_applicable s txs ≡ txs
  unfolding keep_applicable apply_txs
  keep_applicable-all s s' i [] h = refl
  keep_applicable-all s s' i (tx ∷ txs) h = elim (Option-cases (apply_tx s tx).1) [
    | inl good ↦
        let ih = keep_applicable-all (apply_tx s tx).0 s' (i + 1) txs (rw (good, apply_txs) at h) in
        rw (good, keep_applicable) (ap (λ t. tx ∷ t) ih)
    | inr (reason, bad) ↦ let h' = rw (bad, apply_txs) at h in absurd (ground arith)
  ]

  reward_proposer-ne-err :
      (proposer : Bytes) (s : State) (e : BlockError) → reward_proposer proposer s ≢ some (err e)
  unfolding reward_proposer
  reward_proposer-ne-err proposer s e h = elim (Bool-cases (equal proposer [])) [
    | inl nobody ↦ let h' = rw (nobody, reward_proposer) at h in absurd (ground arith)
    | inr named ↦
        let (s', _, h') =
          >>=-eq-some (distribute_reward s proposer) _ (rw (named, reward_proposer) at h) in
        absurd (ground arith)
  ]

  Grows-ok :
      (s : State) (gain left : ℕ) (r : Option (Result BlockError State))
      → Grows s gain left r
      → ((e : BlockError) → r ≢ some (err e))
      → (s' : State) × (r ≡ some (ok s'))
  Grows-ok s gain left none g n = absurd g
  Grows-ok s gain left (some (err e)) g n = absurd (n e refl)
  Grows-ok s gain left (some (ok s')) g n = (s', refl)

  minted-le : (b : Block) → minted b ≤ block_reward
  minted-le b = ground arith

  apply-applicable :
      (s : State) (b : Block) (txs : List Transaction)
      → b.transactions ≡ applicable s txs
      → HasRoom s block_reward
      → (next : State) × (apply s b ≡ some (ok next))
  unfolding apply
  apply-applicable s b txs e room =
      let (s', run) = apply_txs-applicable s 0 txs in
      let le = minted-le b in
      let fits : HasRoom s (minted b + 0) = record {
        distinct = room.distinct;
        room = omega (arith, room.room);
      } in
      let applied : apply s b ≡ reward_proposer b.proposer s' =
        rw (e, apply) (rw (run, apply) refl) in
      Grows-ok s (minted b) 0 (apply s b) (apply-Grows s b 0 fits)
        (λ er bad. reward_proposer-ne-err b.proposer s' er (sym applied ∙ bad))

  -- The address of a key is not empty.
  derive_address-ne-nil : (key : Bytes) → derive_address key ≢ []
  unfolding derive_address
  derive_address-ne-nil key h = cc

  candidate_error-draft :
      CryptoLaws c
      → (previous : Block) (txs : List Transaction) (height now : ℤ) (self : Validator)
      → height ≡ add_i64 previous.height (pos 1)
      → self.address ≡ derive_address (c.public_key self.priv_key)
      → let d = draft previous txs height self.address now in
        candidate_error previous (record d { signature = sign_block d self.priv_key }) ≡ none
  unfolding candidate_error draft
  candidate_error-draft laws previous txs height now self next own =
      let d = draft previous txs height self.address now in
      let key =
        pub_key-derive (c.public_key self.priv_key) (laws.public_key-IsBytes self.priv_key)
          (laws.length-public_key self.priv_key) in
      let signed =
        verify_block_signature-sign laws d self.priv_key (ap pub_key_from_address own ∙ key) in
      let h = (eqb_ℤ_iff height (add_i64 previous.height (pos 1))).1 next in
      let hash = equal_refl (block_hash previous) in
      let root = equal_refl (merkle_root txs) in
      let named : equal self.address [] ≡ false = elim (Bool-cases (equal self.address [])) [
        | inl empty ↦
            absurd (derive_address-ne-nil _ (sym own ∙ (equal_iff self.address []).0 empty))
        | inr other ↦ other
      ] in
      rw (h, hash, root, named, signed) refl

  pub check_candidate-pass :
      (ch : Chain) (previous b : Block) (next : State)
      → tip ch.blocks ≡ some previous
      → candidate_error previous b ≡ none
      → apply ch.state b ≡ some (ok next)
      → check_candidate ch b ≡ some (ok next)
  unfolding check_candidate
  check_candidate-pass ch previous b next t clean run =
      let judged : elim (candidate_error previous b) [
        | some e ↦ some (err e)
        | none ↦ (do r ← apply ch.state b; some (as_candidate r))
      ]
          ≡ some (ok next) =
        rw (clean, run) refl in
      rw (t, check_candidate) judged

  -- Under the laws of the cryptography: the block that a proposer builds passes every check of a
  -- node that holds the same chain, transactions, reward and signature included, whatever is in
  -- the queue: if the height is the tip's plus one, the address is that of the proposer's key, and
  -- the ledger has room for one more reward.
  pub propose-candidate :
      CryptoLaws c
      → (ch : Chain) (m m' : Mempool) (max_block_txs height now : ℤ) (self : Validator)
        (previous b : Block)
      → tip ch.blocks ≡ some previous
      → height ≡ add_i64 previous.height (pos 1)
      → self.address ≡ derive_address (c.public_key self.priv_key)
      → HasRoom ch.state block_reward
      → propose ch m max_block_txs self height now ≡ some (b, m')
      → (next : State) × (check_candidate ch b ≡ some (ok next))
  unfolding propose
  propose-candidate laws ch m m' max_block_txs height now self previous b t next own room h =
      let drained = (drain m max_block_txs).1 in
      let d = draft previous (applicable ch.state drained) height self.address now in
      let sealed : Block = record d { signature = sign_block d self.priv_key } in
      let same : sealed ≡ b = let h' = rw t at h in cc in
      let clean =
        candidate_error-draft laws previous (applicable ch.state drained) height now self next
          own in
      let (s', run) = apply-applicable ch.state sealed drained refl room in
      rw (← same) (s', check_candidate-pass ch previous sealed s' t clean run)
