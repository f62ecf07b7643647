-- ===== src/Server/Faults.antt =====
-- cmd/dyld/main.go: `handleFault`, with its budget.
use dylchain.Base.{
  ℕ, suc, ◌*◌, ◌%◌, ◌||◌, Bool, true, drop, Option, none, some, List, [], ◌∷◌, leb, ◌==◌,
  if◌then◌else◌, get_elem?, ◌>>=◌,
}
use dylchain.Base.Int.{u64_mod, add_u64, pos, negsuc}
use dylchain.Bytes.{text}
use dylchain.Node.{Node}
use dylchain.Network.{Floats, ValidatorInfo, snapshot, size, faulty, make_faulty}
use dylchain.Server.{Server}
use dylchain.Server.Requests.{Decoders, no_body, Reply, Handler, reject, with_network}

-- The condition of the loop of `handleFault`, for the validator whose node is the first of the list: a node
-- is looked at only if the validator is not slashed. `none` is a panic.
unfoldable pub is_lost : {F : Type 0} → ValidatorInfo F → List Node → Option Bool
is_lost v [] = if v.slashed then some true else none
is_lost v (n ∷ nodes) = some (v.slashed || n.byzantine)

-- The stake at genesis, the first of the list, is looked at only if it is lost.
unfoldable pub add_lost : {F : Type 0} → ValidatorInfo F → List ℕ → List Node → ℕ → Option ℕ
unfolding is_lost
add_lost v stakes nodes lost = do
  gone ← is_lost v nodes
  if gone then (do o ← get_elem? stakes 0; some (add_u64 lost o)) else some lost

-- The loop, from place `i`, over the validators with the stakes at genesis and the nodes from that
-- place on: the stake that is lost.
unfoldable pub count_lost :
    {F : Type 0} → ℕ → ℕ → List (ValidatorInfo F) → List ℕ → List Node → ℕ → Option ℕ
unfolding add_lost
count_lost index i [] stakes nodes lost = some lost
count_lost index i (v ∷ vs) stakes nodes lost = do
  next ← if i == index then some lost else add_lost v stakes nodes lost
  count_lost index (suc i) vs (drop 1 stakes) (drop 1 nodes) next

module _ ⦃f : Floats⦄ ⦃d : Decoders⦄ where
  -- The budget, for a node that is not faulty yet.
  unfoldable pub spend_budget : ℕ → Server f.Number → Reply f.Number
  unfolding count_lost snapshot make_faulty
  spend_budget index s = do
    own ← get_elem? s.orig_stake index
    lost ← count_lost index 0 (snapshot s.network).validators s.orig_stake s.network.nodes own
    if leb s.orig_total (3 * lost % u64_mod)
        then reject 409 (text "fault budget reached: any more would stall consensus") s
        else (do
          network ← make_faulty s.network index
          some (with_network network s, record { status = 202; body = no_body }))

  unfoldable pub handle_fault : Handler f.Number
  unfolding faulty size spend_budget
  handle_fault now r s = elim (d.decode_index r.body) [
    | none ↦ reject 400 (text "bad JSON") s
    | some (negsuc k) ↦ reject 400 (text "index out of range") s
    | some (pos index) ↦
        if leb (size s.network) index then reject 400 (text "index out of range") s else (do
          already ← faulty s.network index
          if already
              then some (s, record { status = 202; body = no_body })
              else spend_budget index s)
  ]
