-- ===== src/Server/Budget.antt =====
-- `handleFault` of cmd/dyld/main.go: the stake that faults may cost.
use dylchain.Base.{
  ℕ, zero, suc, ◌+◌, ◌*◌, ◌%◌, ◌<◌, ◌≡◌, refl, sym, subst, inl, inr, true, false, some, List, [],
  ◌∷◌, arith, leb, Bool-cases, Option-cases, length, get_elem?, set, length-set,
}
use dylchain.Base.Int.{u64_mod, ℤ, pos, negsuc}
use dylchain.Bytes.{Bytes, text}
use dylchain.Node.{Node}
use dylchain.Network.{Floats, live_total, snapshot, size, faulty, make_faulty}
use dylchain.Server.{Server}
use dylchain.Server.Requests.{
  Decoders, Request, Response, Reply, reject, with_network, no_body, complaint,
}
use dylchain.Server.Faults.{count_lost, spend_budget, handle_fault}
use dylchain.Server.LostStake.{
  lost_stake, others, stake_sum, lost_stake-bound, lost_stake-set, count_lost-others,
}

-- Three times the lost stake is less than the whole stake at genesis.
pub record Within {F : Type 0} (s : Server F) : Type 0 where
  pub below :
      3 * lost_stake s.network.live s.network.set s.orig_stake s.network.nodes < s.orig_total

-- One stake at genesis and one node for each validator, and stakes that tripled fit a `uint64`.
pub record Matched {F : Type 0} (s : Server F) : Type 0 where
  pub stakes : length s.network.set ≡ length s.orig_stake
  pub nodes : length s.orig_stake ≡ length s.network.nodes
  pub fits : 3 * stake_sum s.orig_stake < u64_mod

get_elem?-within {ℓ} :
    {A : Type ℓ} (xs : List A) (i : ℕ) → i < length xs → (x : A) × (get_elem? xs i ≡ some x)
get_elem?-within [] i h = absurd (omega arith)
get_elem?-within (x ∷ xs) zero h = (x, refl)
get_elem?-within (x ∷ xs) (suc i) h = get_elem?-within xs i (omega arith)

small_enough :
    (lost total : ℕ)
    → 3 * lost < u64_mod
    → leb total (3 * lost % u64_mod) ≡ false
    → 3 * lost < total
small_enough lost total fits under =
    let small : 3 * lost % u64_mod ≡ 3 * lost = omega arith in ground arith

-- The reply is an answer, and leaves a server whose parts still match, within its budget.
abbrev pub StaysWithin : {F : Type 0} → Reply F → Type 0
StaysWithin {F} x = (s' : Server F) × (a : Response F) × (x ≡ some (s', a)) × Matched s' × Within s'

answers :
    {F : Type 0} (x : Reply F) (s : Server F) (a : Response F)
    → x ≡ some (s, a)
    → Matched s
    → Within s
    → StaysWithin x
answers x s a run matched within = (s, a, run, matched, within)

module _ ⦃f : Floats⦄ ⦃d : Decoders⦄ (s : Server f.Number) where
  rejects :
      (x : Reply f.Number) (status : ℕ) (reason : Bytes)
      → x ≡ reject status reason s
      → Matched s
      → Within s
      → StaysWithin x
  rejects x status reason run matched within =
      (s, record { status = status; body = complaint reason }, run, matched, within)

  abbrev CountedLost : ℕ → ℕ → Type 0
  CountedLost index lost =
      (own : ℕ) × (get_elem? s.orig_stake index ≡ some own)
      × (count_lost index 0 (snapshot s.network).validators s.orig_stake s.network.nodes own
          ≡ some lost)

  spend_budget-refuses :
      (index lost : ℕ)
      → CountedLost index lost
      → leb s.orig_total (3 * lost % u64_mod) ≡ true
      → spend_budget index s
        ≡ reject 409 (text "fault budget reached: any more would stall consensus") s
  unfolding spend_budget
  spend_budget-refuses index lost (own, at_own, counted) over =
      rw (at_own, spend_budget) (rw (counted, over) refl)

  spend_budget-spends :
      (index lost : ℕ) (m : Node)
      → CountedLost index lost
      → leb s.orig_total (3 * lost % u64_mod) ≡ false
      → get_elem? s.network.nodes index ≡ some m
      → spend_budget index s
        ≡ some (
          with_network
              (record s.network {
                nodes = set s.network.nodes index (record m { byzantine = true });
              })
              s,
          record { status = 202; body = no_body },
        )
  unfolding spend_budget make_faulty
  spend_budget-spends index lost m (own, at_own, counted) under at_m =
      rw (at_own, spend_budget) (rw (counted, under) (rw (at_m, make_faulty) refl))

  spend_budget-Within :
      (index : ℕ)
      → index < length s.network.nodes
      → Matched s
      → Within s
      → StaysWithin (spend_budget index s)
  unfolding snapshot
  spend_budget-Within index inside matched within =
      let ms = s.network.set in
      let k = s.network.live in
      let nodes = s.network.nodes in
      let one = matched.stakes in
      let two = matched.nodes in
      let (own, at_own) = get_elem?-within s.orig_stake index (omega arith) in
      let (m, at_m) = get_elem?-within nodes index inside in
      let nodes' = set nodes index (record m { byzantine = true }) in
      let more0 = lost_stake-set k 0 index ms s.orig_stake nodes own m one at_own at_m in
      let from_zero : 0 + index ≡ index = omega arith in
      let more = rw from_zero at more0 in
      let bound = lost_stake-bound k ms s.orig_stake nodes' in
      let fits = matched.fits in
      let lost = own + others k index 0 ms s.orig_stake nodes in
      let counted =
        count_lost-others k (live_total k 0 ms) index 0 own ms s.orig_stake nodes one two
          (omega arith) in
      let shown : CountedLost index lost = (own, at_own, counted) in
      elim (Bool-cases (leb s.orig_total (3 * lost % u64_mod))) [
        | inl over ↦
            rejects (spend_budget index s) 409
              (text "fault budget reached: any more would stall consensus")
              (spend_budget-refuses index lost shown over) matched within
        | inr under ↦
            answers (spend_budget index s)
              (with_network
                (record s.network {
                  nodes = set s.network.nodes index (record m { byzantine = true });
                })
                s)
              (record { status = 202; body = no_body })
              (spend_budget-spends index lost m shown under at_m)
              (record {
                stakes = matched.stakes;
                nodes = omega (arith, length-set nodes index (record m { byzantine = true }));
                fits = matched.fits;
              })
              (record { below = rw more (small_enough lost s.orig_total (omega arith) under) })
      ]

  handle_fault-index :
      (now : ℤ) (r : Request) (index : ℕ)
      → d.decode_index r.body ≡ some (pos index)
      → Matched s
      → Within s
      → StaysWithin (handle_fault now r s)
  unfolding handle_fault size faulty
  handle_fault-index now r index decoded matched within =
      elim (Bool-cases (leb (size s.network) index)) [
        | inl outside ↦
            rejects (handle_fault now r s) 400 (text "index out of range")
              (rw (decoded, handle_fault) (rw outside refl)) matched within
        | inr inside ↦
            let (m, at_m) = get_elem?-within s.network.nodes index (ground arith) in
            elim (Bool-cases m.byzantine) [
              | inl already ↦
                  answers (handle_fault now r s) s (record { status = 202; body = no_body })
                    (rw (decoded, handle_fault) (rw (inside) (rw (at_m, faulty) (rw already refl))))
                    matched within
              | inr fresh ↦
                  let same : handle_fault now r s ≡ spend_budget index s =
                    rw (decoded, handle_fault) (rw (inside) (rw (at_m, faulty) (rw fresh refl))) in
                  subst StaysWithin (sym same)
                    (spend_budget-Within index (ground arith) matched within)
            ]
      ]

  handle_fault-StaysWithin :
      (now : ℤ) (r : Request) → Matched s → Within s → StaysWithin (handle_fault now r s)
  unfolding handle_fault
  handle_fault-StaysWithin now r matched within = elim (Option-cases (d.decode_index r.body)) [
    | inl nothing ↦
        rejects (handle_fault now r s) 400 (text "bad JSON") (rw (nothing, handle_fault) refl)
          matched within
    | inr (negsuc k, found) ↦
        rejects (handle_fault now r s) 400 (text "index out of range")
          (rw (found, handle_fault) refl) matched within
    | inr (pos index, found) ↦ handle_fault-index now r index found matched within
  ]

module _ ⦃f : Floats⦄ ⦃d : Decoders⦄ where
  -- Each request, at its clock, is answered by the server that the requests before it left, and
  -- leaves one within its budget.
  abbrev pub StayWithin : List (ℤ × Request) → Server f.Number → Type 0
  StayWithin [] s = Within s
  StayWithin ((now, r) ∷ rs) s =
      (s' : Server f.Number) × (a : Response f.Number) × (handle_fault now r s ≡ some (s', a))
      × Within s'
      × StayWithin rs s'

  -- However often `/fault` is asked with nothing in between, the faults stay within the budget: each
  -- request, whatever its body and the clock, is answered, and after each three times the stake at
  -- genesis of the slashed and the faulty validators is less than the whole, if it was at first: provided
  -- the set, the stakes at genesis and the nodes are as many at first and three times the stakes at
  -- genesis fit a `uint64`.
  pub handle_fault-Within :
      (rs : List (ℤ × Request)) (s : Server f.Number) → Matched s → Within s → StayWithin rs s
  handle_fault-Within [] s matched within = within
  handle_fault-Within ((now, r) ∷ rs) s matched within =
      let (s', a, run, matched', within') = handle_fault-StaysWithin s now r matched within in
      (s', a, run, within', handle_fault-Within rs s' matched' within')
