-- ===== src/Tests/Watchers.antt =====
-- A node that meets two votes of one validator, and proofs that a client asks for.
use dylchain.Base.{◌≡◌, refl, inl, true, false, some, [], ◌∷◌, arith}
use dylchain.Base.Int.{pos, add_i64}
use dylchain.Bytes.{Bytes, equal}
use dylchain.Dict.{lookup, get_or, insert}
use dylchain.Address.Hex.{encode_to_string}
use dylchain.Merkle.{hash, verify_merkle_proof}
use dylchain.Vote.{Vote, new_vote}
use dylchain.Validators
use dylchain.Validators.{new_validator}
use dylchain.Election
use dylchain.Election.{new_election}
use dylchain.Node.{Node, Message, vote_msg, observe, start_height}
use dylchain.Node.Justice.{IsJust, receive, start, stay, go_on, Steps-IsJust}
use dylchain.Node.Punishment.{start_height-slashes}
use dylchain.Node.Equivocation.{IsCaught, observe_catches}
use dylchain.Inclusion.{Inclusion, inclusion_proof, inclusion_proof_complete}
use dylchain.Tests.Fixtures.{
  bob_key, young, queue, toy, toy_laws, alice, bob, alice_validator, proposal, signed_transfer,
  blank,
}

abbrev ballot : Bytes → Vote
ballot block_hash = new_vote (pos 1) block_hash alice_validator

abbrev watcher : Node
watcher = record {
  self = record { address = bob; priv_key = bob_key; stake = 10; orig_stake = 10; moniker = [] };
  set = alice_validator ∷ [];
  cluster = blank;
  chain = young;
  mempool = queue;
  max_block_txs = pos 64;
  pending = [];
  seen_votes = [];
  evidence = [];
  slashed = [];
  pending_slash = [];
  pending_heal = [];
  heal_delay = pos 5;
  election = new_election (alice_validator ∷ []);
  byzantine = false;
}

observe_catches_example :
    IsCaught
      (ballot (8 ∷ []))
      (observe (vote_msg (ballot (8 ∷ []))) (observe (vote_msg (ballot (7 ∷ []))) watcher))
unfolding new_vote dylchain.Vote.verify_vote dylchain.Address.pub_key_from_address alice_validator
    dylchain.Address.derive_address dylchain.Address.Hex.decode_string encode_to_string equal
    dylchain.Vote.vote_signable_bytes get_or lookup dylchain.Node.votes_at
observe_catches_example =
    observe_catches watcher (ballot (7 ∷ [])) (ballot (8 ∷ [])) refl refl
      (λ e. absurd (ground (arith, e))) refl refl refl refl

watcher-IsJust : IsJust watcher
unfolding get_or lookup alice_validator new_validator new_election
watcher-IsJust = record {
  proven = tt;
  slashed_map = tt;
  pending_map = tt;
  accused = λ a h. absurd (ground (arith, h));
  scheduled = λ a k h. absurd (ground (arith, h));
  elected = (inl refl, tt);
  staked = (inl refl, tt);
}

abbrev warned : Node
warned = observe (vote_msg (ballot (7 ∷ []))) watcher

-- The second vote convicts Alice.
abbrev alarmed : Node
alarmed = observe (vote_msg (ballot (8 ∷ []))) warned

-- At height 3 her slash is due, and her heal is not.
start_height-slashes_example :
    (Election.stake_of (start_height (pos 3) alarmed).election alice ≡ 0)
    × (Validators.stake_of (start_height (pos 3) alarmed).set alice ≡ 0)
unfolding new_vote dylchain.Vote.verify_vote dylchain.Vote.verify_evidence
    dylchain.Address.pub_key_from_address alice alice_validator dylchain.Address.derive_address
    dylchain.Address.Hex.decode_string encode_to_string equal dylchain.Vote.vote_signable_bytes
    get_or lookup insert dylchain.Node.votes_at observe dylchain.Node.put_votes
    dylchain.Node.observe_vote dylchain.Node.compare_votes dylchain.Node.convict add_i64
start_height-slashes_example = start_height-slashes (pos 3) alarmed alice (refl, tt) refl refl

Steps-IsJust_example : IsJust (start_height (pos 3) alarmed)
Steps-IsJust_example =
    Steps-IsJust watcher (start_height (pos 3) alarmed)
      (go_on watcher warned _ (receive (vote_msg (ballot (7 ∷ []))) watcher) (
        go_on warned alarmed _ (receive (vote_msg (ballot (8 ∷ []))) warned)
          (go_on alarmed _ _ (start (pos 3) alarmed) (stay _))))
      watcher-IsJust

inclusion_proof_complete_example :
    (p : Inclusion) × (inclusion_proof proposal.0 (encode_to_string (hash signed_transfer))
      ≡ some p)
    × (p.leaf ≡ hash signed_transfer)
    × (p.root ≡ proposal.0.tx_root)
    × (verify_merkle_proof p.leaf (pos p.index) p.siblings p.root ≡ true)
unfolding proposal dylchain.State.apply_tx equal dylchain.Address.valid_address
    dylchain.Address.pub_key_from_address dylchain.Address.Hex.decode_string get_or
inclusion_proof_complete_example =
    inclusion_proof_complete toy_laws proposal.0 signed_transfer (inl refl) refl
