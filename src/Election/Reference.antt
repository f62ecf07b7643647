-- ===== src/Election/Reference.antt =====
-- The accumulator of chain/proposer.go against the reference schedule of chain/validator.go.
use dylchain.Base.{
  ℕ, zero, suc, ◌≡◌, refl, sym, ap, ◌⊎◌, inl, inr, Option, none, some, List, length, get_elem?,
  replicate, ◌>>=◌,
}
use dylchain.Base.Int.{ℤ, pos}
use dylchain.Bytes.{Bytes}
use dylchain.Validators.{ValidatorSet, reference_rounds, proposer_for_height}
use dylchain.Election.{Election, new_election, next}
use dylchain.Election.Mirror.{mirror, HasStakes, mirror-zeros, one_round}

-- The heights from 1 to `h` of a node's loop: the last proposer, and the election that is left.
abbrev pub elect : ℕ → Election → Option (Option Bytes × Election)
elect zero e = some (none, e)
elect (suc h) e = do (_, e') ← elect h e; (a, e'') ← next e'; some (some a, e'')

abbrev pub elected : ℕ → Election → Option Bytes
elected h e = do (a, _) ← elect h e; a

-- The same after any number of heights.
abbrev address_at : ValidatorSet → ℕ → Option Bytes
address_at vs w = do v ← get_elem? vs w; some v.address

abbrev last_address : ValidatorSet → Option ℕ → Option Bytes
last_address vs none = none
last_address vs (some w) = address_at vs w

abbrev AllRounds : ValidatorSet → ℕ → Type 0
AllRounds vs h =
    let zeros = replicate (length vs) (pos 0) in
    ((elect h (new_election vs) ≡ none) × (reference_rounds h vs zeros ≡ none))
    ⊎ ((w : Option ℕ) × (qs : List ℤ) × (length qs ≡ length vs)
        × (elect h (new_election vs) ≡ some (last_address vs w, mirror vs qs))
        × (reference_rounds h vs zeros ≡ some (w, qs)))

length-replicate : (n : ℕ) (p : ℤ) → length (replicate n p) ≡ n
length-replicate zero p = refl
length-replicate (suc n) p = ap suc (length-replicate n p)

all_rounds : (vs : ValidatorSet) (h : ℕ) → HasStakes vs → AllRounds vs h
unfolding reference_rounds
all_rounds vs zero st =
    let zeros = replicate (length vs) (pos 0) in
    inr (
      none,
      zeros,
      length-replicate (length vs) (pos 0),
      ap (λ e. some (none, e)) (mirror-zeros vs),
      refl,
    )
all_rounds vs (suc h) st = elim (all_rounds vs h st) [
  | inl (e_none, r_none) ↦ inl (rw e_none refl, rw r_none refl)
  | inr (w, qs, l, yes_e, yes_r) ↦ elim (one_round vs qs l st) [
    | inl (e_none, r_none) ↦ inl (rw yes_e (rw e_none refl), rw yes_r (rw r_none refl))
    | inr (x, v, rs, gv, lr, e, r) ↦
        let at : address_at vs x ≡ some v.address = rw gv refl in
        inr (
          some x,
          rs,
          lr,
          rw yes_e (rw e (ap (λ a. some (a, mirror vs rs)) (sym at))),
          rw yes_r (rw r refl),
        )
  ]
]

-- While nobody bonds and nobody is slashed, the accumulator that each node advances once per height
-- elects the validator that the reference schedule of the set names for the height, and it panics
-- exactly when that one does: if every stake is a `uint64`.
pub elected-proposer_for_height :
    (vs : ValidatorSet) (h : ℕ)
    → HasStakes vs
    → elected h (new_election vs) ≡ (do v ← proposer_for_height vs h; some v.address)
unfolding proposer_for_height
elected-proposer_for_height vs h st = elim (all_rounds vs h st) [
  | inl (e_none, r_none) ↦ rw e_none (rw r_none refl)
  | inr (none, qs, l, e, r) ↦ rw e (rw r refl)
  | inr (some x, qs, l, e, r) ↦ rw e (rw r refl)
]
