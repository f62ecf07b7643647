-- ===== src/Election/Mirror.antt =====
-- One round of the accumulator of chain/proposer.go next to one of the schedule of
-- chain/validator.go.
use dylchain.Base.{
  ℕ, zero, suc, ◌+◌, ◌<◌, ◌≡◌, refl, sym, ap, ◌∙◌, subst, ◌⊎◌, inl, inr, false, Option, none, some,
  List, [], ◌∷◌, arith, ◌==◌, Bool-cases, Option-cases, length, get_elem?, set, replicate, All,
  length-set,
}
use dylchain.Base.Int.{u64_mod, add_u64, ℤ, pos, ltb_ℤ, of_u64, add_i64, sub_i64, int_laws}
use dylchain.Validators.{
  Validator, ValidatorSet, add_stakes, raise_priorities, challenge, pick_winner, reference_round,
  reference_rounds, proposer_for_height,
}
use dylchain.Validators
use dylchain.Election.{
  Member, Election, new_member, new_election, effective, add_weights, raise, pick, next,
}

-- The election of a set without bonds or slashes, at some priorities.
abbrev shadow : Validator → ℤ → Member
shadow v p = record {
  address = v.address;
  orig_stake = v.stake;
  delegated = 0;
  slashed = false;
  priority = p;
}

abbrev pub mirror : ValidatorSet → List ℤ → Election
mirror [] ps = []
mirror (v ∷ vs) [] = []
mirror (v ∷ vs) (p ∷ ps) = shadow v p ∷ mirror vs ps

abbrev pub HasStakes : ValidatorSet → Type 0
HasStakes = All (λ v. v.stake < u64_mod)

of_u64-add_u64 :
    (a b : ℕ) → a < u64_mod → b < u64_mod → of_u64 (add_u64 a b) ≡ add_i64 (of_u64 a) (of_u64 b)
unfolding add_i64
of_u64-add_u64 a b ha hb = grind int_laws

pub mirror-zeros : (vs : ValidatorSet) → new_election vs ≡ mirror vs (replicate (length vs) (pos 0))
unfolding new_election new_member
mirror-zeros [] = refl
mirror-zeros (v ∷ vs) = ap (λ e. new_member v ∷ e) (mirror-zeros vs)

effective-mirror : (v : Validator) (p : ℤ) → v.stake < u64_mod → effective (shadow v p) ≡ v.stake
unfolding effective
effective-mirror v p h = omega arith

raise-mirror :
    (vs : ValidatorSet) (ps : List ℤ)
    → HasStakes vs
    → raise (mirror vs ps) ≡ mirror vs (raise_priorities vs ps)
unfolding raise raise_priorities
raise-mirror [] ps h = refl
raise-mirror (v ∷ vs) [] h = refl
raise-mirror (v ∷ vs) (p ∷ ps) h =
    let ih = raise-mirror vs ps h.1 in
    rw (effective-mirror v p h.0, raise) (ap (λ e. shadow v (add_i64 p (of_u64 v.stake)) ∷ e) ih)

pick-mirror :
    (i : ℕ) (best : Option (ℕ × ℤ)) (vs : ValidatorSet) (ps : List ℤ)
    → HasStakes vs
    → pick i best (mirror vs ps) ≡ pick_winner i best vs ps
unfolding pick pick_winner
pick-mirror i best [] ps h = refl
pick-mirror i best (v ∷ vs) [] h = refl
pick-mirror i best (v ∷ vs) (p ∷ ps) h =
    let ih = pick-mirror (i + 1) (challenge best i v.stake p) vs ps h.1 in
    rw (effective-mirror v p h.0, pick) ih

add_weights-mirror :
    (acc : ℕ) (vs : ValidatorSet) (ps : List ℤ)
    → acc < u64_mod
    → length ps ≡ length vs
    → HasStakes vs
    → add_weights (of_u64 acc) (mirror vs ps) ≡ of_u64 (add_stakes acc vs)
unfolding add_weights add_stakes
add_weights-mirror acc [] ps a l h = refl
add_weights-mirror acc (v ∷ vs) [] a l h = absurd (omega arith)
add_weights-mirror acc (v ∷ vs) (p ∷ ps) a l h =
    let ih = add_weights-mirror (add_u64 acc v.stake) vs ps (omega arith) (omega arith) h.1 in
    rw (effective-mirror v p h.0, add_weights)
      (ap (λ x. add_weights x (mirror vs ps)) (sym (of_u64-add_u64 acc v.stake a h.0)) ∙ ih)

length-raise_priorities :
    (vs : ValidatorSet) (ps : List ℤ)
    → length ps ≡ length vs
    → length (raise_priorities vs ps) ≡ length vs
unfolding raise_priorities
length-raise_priorities [] ps l = refl
length-raise_priorities (v ∷ vs) [] l = absurd (omega arith)
length-raise_priorities (v ∷ vs) (p ∷ ps) l =
    let ih = length-raise_priorities vs ps (omega arith) in omega arith

-- The best so far is one of the first members.
abbrev InFront : ℕ → Option (ℕ × ℤ) → Type 0
InFront n none = Unit
InFront n (some (j, q)) = j < n

challenge-InFront :
    (best : Option (ℕ × ℤ)) (i weight : ℕ) (p : ℤ)
    → InFront i best
    → InFront (i + 1) (challenge best i weight p)
unfolding challenge
challenge-InFront none i weight p b = elim (Bool-cases (weight == 0)) [
  | inl none_here ↦ rw none_here tt
  | inr some_here ↦ rw some_here (omega arith)
]
challenge-InFront (some (j, q)) i weight p b = elim (Bool-cases (weight == 0)) [
  | inl none_here ↦ rw none_here (omega (arith, b))
  | inr some_here ↦ elim (Bool-cases (ltb_ℤ q p)) [
    | inl better ↦ rw (some_here, better) (omega arith)
    | inr worse ↦ rw (some_here, worse) (omega (arith, b))
  ]
]

pick_winner-InFront :
    (i : ℕ) (best : Option (ℕ × ℤ)) (vs : ValidatorSet) (ps : List ℤ)
    → length ps ≡ length vs
    → InFront i best
    → InFront (i + length vs) (pick_winner i best vs ps)
unfolding pick_winner
pick_winner-InFront i best [] ps l b =
    let z : i ≡ i + 0 = omega arith in subst (λ n. InFront n best) z b
pick_winner-InFront i best (v ∷ vs) [] l b = absurd (omega arith)
pick_winner-InFront i best (v ∷ vs) (p ∷ ps) l b =
    let z : i + 1 + length vs ≡ i + suc (length vs) = omega arith in
    let next_best = challenge best i v.stake p in
    subst (λ n. InFront n (pick_winner (i + 1) next_best vs ps)) z
      (pick_winner-InFront (i + 1) next_best vs ps (omega arith)
        (challenge-InFront best i v.stake p b))

set-mirror :
    (vs : ValidatorSet) (ps : List ℤ) (w : ℕ) (p : ℤ)
    → length ps ≡ length vs
    → w < length vs
    → (v : Validator) × (m : Member) × (get_elem? vs w ≡ some v)
      × (get_elem? (mirror vs ps) w ≡ some m)
      × (m.address ≡ v.address)
      × (set (mirror vs ps) w (record m { priority = p }) ≡ mirror vs (set ps w p))
set-mirror [] ps w p l h = absurd (omega arith)
set-mirror (v ∷ vs) [] w p l h = absurd (omega arith)
set-mirror (v ∷ vs) (q ∷ ps) zero p l h = (v, shadow v q, refl, refl, refl, refl)
set-mirror (v ∷ vs) (q ∷ ps) (suc w) p l h =
    let (u, m, gv, gm, a, e) = set-mirror vs ps w p (omega arith) (omega arith) in
    (u, m, gv, gm, a, ap (λ t. shadow v q ∷ t) e)

-- Both schedules stop for want of weight, or both elect the member at one index.
abbrev pub OneRound : ValidatorSet → List ℤ → Type 0
OneRound vs ps =
    ((next (mirror vs ps) ≡ none) × (reference_round vs ps ≡ none))
    ⊎ ((w : ℕ) × (v : Validator) × (qs : List ℤ) × (get_elem? vs w ≡ some v)
        × (length qs ≡ length vs)
        × (next (mirror vs ps) ≡ some (v.address, mirror vs qs))
        × (reference_round vs ps ≡ some (w, qs)))

pub one_round :
    (vs : ValidatorSet) (ps : List ℤ) → length ps ≡ length vs → HasStakes vs → OneRound vs ps
unfolding next reference_round Validators.total_stake
one_round vs ps l h =
    let up = raise_priorities vs ps in
    let raised = raise-mirror vs ps h in
    let picked = pick-mirror 0 none vs up h in
    let front = pick_winner-InFront 0 none vs up (length-raise_priorities vs ps l) tt in
    let whole = add_weights-mirror 0 vs ps (omega arith) l h in
    elim (Option-cases (pick_winner 0 none vs up)) [
      | inl nobody ↦ inl (rw raised (rw picked (rw nobody refl)), rw nobody refl)
      | inr ((w, p), won) ↦
          let front' : w < 0 + length vs = subst (λ o. InFront (0 + length vs) o) won front in
          let inside : w < length vs = omega (arith, front') in
          let q = sub_i64 p (of_u64 (add_stakes 0 vs)) in
          let (v, m, gv, gm, a, e) =
            set-mirror vs up w q (length-raise_priorities vs ps l) (omega (arith, inside)) in
          inr (
            w,
            v,
            set up w q,
            gv,
            length-set up w q ∙ length-raise_priorities vs ps l,
            rw raised (
                rw picked (
                  rw won (
                    rw (gm, whole)
                      (ap (λ x. some (m.address, x)) e
                        ∙ ap (λ b. some (b, mirror vs (set up w q))) a)))),
            rw won refl,
          )
    ]
