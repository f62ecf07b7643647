-- ===== src/Node/Punishment.antt =====
-- The start of a height in `run` of chain/consensus.go: a slash that is due takes effect.
use dylchain.Base.{
  ℕ, ◌≡◌, refl, sym, ◌∙◌, inl, inr, Bool, true, false, not, Option, none, some, [], ◌∷◌, arith,
  if◌then◌else◌, Bool-cases,
}
use dylchain.Base.Int.{ℤ, ltb_ℤ}
use dylchain.Bytes.{Bytes, equal, equal_iff, equal_refl}
use dylchain.Dict.{Dict, lookup, IsMap}
use dylchain.Validators
use dylchain.Validators.{ValidatorSet}
use dylchain.Validators.Slashing.{slash-restore}
use dylchain.Election
use dylchain.Election.{Election, effective, rejoin, set_delegated, sync_delegations}
use dylchain.Node.{Node, slash_now, apply_slashes, heal_now, apply_heals, start_height}

-- Whether an entry of a schedule has come.
abbrev pub is_due : ℤ → Option ℤ → Bool
is_due h none = false
is_due h (some due) = not (ltb_ℤ h due)

-- The first member with the address, if there is one, is slashed.
abbrev is_out : Bytes → Election → Bool
is_out a [] = true
is_out a (m ∷ ms) = if equal m.address a then m.slashed else is_out a ms

is_out-stake_of : (a : Bytes) (e : Election) → is_out a e ≡ true → Election.stake_of e a ≡ 0
unfolding Election.stake_of effective
is_out-stake_of a [] h = refl
is_out-stake_of a (m ∷ ms) h = ground (arith, is_out-stake_of a ms)

is_out-slash_self : (a : Bytes) (e : Election) → is_out a (Election.slash a e) ≡ true
unfolding Election.slash
is_out-slash_self a [] = refl
is_out-slash_self a (m ∷ ms) = ground (arith, is_out-slash_self a ms)

is_out-slash :
    (a b : Bytes) (e : Election) → is_out a e ≡ true → is_out a (Election.slash b e) ≡ true
unfolding Election.slash
is_out-slash a b [] h = refl
is_out-slash a b (m ∷ ms) h = ground (arith, is_out-slash a b ms)

is_out-rejoin :
    (a b : Bytes) (p : ℤ) (e : Election)
    → equal b a ≡ false
    → is_out a e ≡ true
    → is_out a (rejoin b p e) ≡ true
unfolding rejoin
is_out-rejoin a b p [] ne h = refl
is_out-rejoin a b p (m ∷ ms) ne h =
    ground (
      arith,
      is_out-rejoin a b p ms ne,
      equal_iff m.address a,
      equal_iff m.address b,
      equal_iff b a,
    )

is_out-set_delegated :
    (a : Bytes) (t : Dict ℕ) (e : Election) → is_out a (set_delegated t e) ≡ is_out a e
unfolding set_delegated
is_out-set_delegated a t [] = refl
is_out-set_delegated a t (m ∷ ms) = ground (arith, is_out-set_delegated a t ms)

stake_of-restore :
    (a b : Bytes) (vs : ValidatorSet)
    → equal b a ≡ false
    → Validators.stake_of (Validators.restore b vs) a ≡ Validators.stake_of vs a
unfolding Validators.stake_of Validators.restore
stake_of-restore a b [] ne = refl
stake_of-restore a b (v ∷ vs) ne =
    ground (
      arith,
      stake_of-restore a b vs ne,
      equal_iff v.address a,
      equal_iff v.address b,
      equal_iff b a,
    )

-- The address has no weight, neither in the node's election nor in the set.
record IsOut (a : Bytes) (n : Node) : Type 0 where
  elected : is_out a n.election ≡ true
  staked : Validators.stake_of n.set a ≡ 0

slash_now-IsOut_self : (a : Bytes) (n : Node) → IsOut a (slash_now a n)
unfolding slash_now
slash_now-IsOut_self a n = record {
  elected = is_out-slash_self a n.election;
  staked = ground (arith, (slash-restore n.set a a).0, equal_refl a);
}

slash_now-IsOut : (a b : Bytes) (n : Node) → IsOut a n → IsOut a (slash_now b n)
unfolding slash_now
slash_now-IsOut a b n o = record {
  elected = is_out-slash a b n.election o.elected;
  staked = ground (arith, (slash-restore n.set b a).0, o.staked);
}

apply_slashes-IsOut :
    (h : ℤ) (a : Bytes) (d : Dict ℤ) (n : Node) → IsOut a n → IsOut a (apply_slashes h d n)
unfolding apply_slashes
apply_slashes-IsOut h a [] n o = o
apply_slashes-IsOut h a ((b, due) ∷ d) n o = elim (Bool-cases (ltb_ℤ h due)) [
  | inl later ↦ apply_slashes-IsOut h a d _ (rw later o)
  | inr ripe ↦ apply_slashes-IsOut h a d _ (rw ripe (slash_now-IsOut a b n o))
]

apply_slashes-due :
    (h : ℤ) (a : Bytes) (d : Dict ℤ) (n : Node)
    → is_due h (lookup a d) ≡ true
    → IsOut a (apply_slashes h d n)
unfolding apply_slashes lookup
apply_slashes-due h a [] n e = cc
apply_slashes-due h a ((b, due) ∷ d) n e = elim (Bool-cases (equal b a)) [
  | inl here ↦
      let ripe : ltb_ℤ h due ≡ false = ground (arith, rw here at e) in
      apply_slashes-IsOut h a d _ (rw (ripe, (equal_iff b a).0 here) (slash_now-IsOut_self a n))
  | inr other ↦ apply_slashes-due h a d _ (rw other at e)
]

apply_slashes-heals :
    (h : ℤ) (d : Dict ℤ) (n : Node) → (apply_slashes h d n).pending_heal ≡ n.pending_heal
unfolding apply_slashes slash_now
apply_slashes-heals h [] n = refl
apply_slashes-heals h ((b, due) ∷ d) n = elim (Bool-cases (ltb_ℤ h due)) [
  | inl later ↦ apply_slashes-heals h d _ ∙ rw later refl
  | inr ripe ↦ apply_slashes-heals h d _ ∙ rw ripe refl
]

heal_now-IsOut :
    (h : ℤ) (a b : Bytes) (n : Node) → equal b a ≡ false → IsOut a n → IsOut a (heal_now h b n)
unfolding heal_now Election.restore
heal_now-IsOut h a b n ne o = record {
  elected = is_out-rejoin a b _ n.election ne o.elected;
  staked = stake_of-restore a b n.set ne ∙ o.staked;
}

apply_heals-IsOut :
    (h : ℤ) (a : Bytes) (d : Dict ℤ) (n : Node)
    → IsMap d
    → is_due h (lookup a d) ≡ false
    → IsOut a n
    → IsOut a (apply_heals h d n)
unfolding apply_heals lookup
apply_heals-IsOut h a [] n m e o = o
apply_heals-IsOut h a ((b, due) ∷ d) n m e o = elim (Bool-cases (equal b a)) [
  | inl here ↦
      let later : ltb_ℤ h due ≡ true = ground (arith, rw here at e) in
      let gone : lookup a d ≡ none = rw (sym ((equal_iff b a).0 here)) m.0 in
      apply_heals-IsOut h a d _ m.1 (rw gone refl) (rw later o)
  | inr other ↦
      let e' = rw other at e in
      elim (Bool-cases (ltb_ℤ h due)) [
        | inl later ↦ apply_heals-IsOut h a d _ m.1 e' (rw later o)
        | inr ripe ↦ apply_heals-IsOut h a d _ m.1 e' (rw ripe (heal_now-IsOut h a b n other o))
      ]
]

-- When a height starts at which a slash is due and no heal of the same address, the address loses its
-- weight: in the node's election, whatever is bonded to it, and in the set.
pub start_height-slashes :
    (h : ℤ) (n : Node) (a : Bytes)
    → IsMap n.pending_heal
    → is_due h (lookup a n.pending_slash) ≡ true
    → is_due h (lookup a n.pending_heal) ≡ false
    → (Election.stake_of (start_height h n).election a ≡ 0)
      × (Validators.stake_of (start_height h n).set a ≡ 0)
unfolding start_height sync_delegations
start_height-slashes h n a m slash_due no_heal =
    let kept = apply_slashes-heals h n.pending_slash n in
    let out = apply_slashes-due h a n.pending_slash n slash_due in
    let after =
      apply_heals-IsOut h a (apply_slashes h n.pending_slash n).pending_heal _ (rw kept m)
        (rw kept no_heal) out in
    (is_out-stake_of a _ (is_out-set_delegated a _ _ ∙ after.elected), after.staked)
