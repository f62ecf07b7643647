-- ===== src/Node/Weights.antt =====
-- Slashing and healing in chain/consensus.go: the weights that they change, against the evidence.
use dylchain.Base.{
  ℕ, ◌≡◌, refl, sym, subst, ◌⊎◌, inl, inr, true, false, List, [], ◌∷◌, ◌++◌, arith, Bool-cases, All,
}
use dylchain.Base.Int.{ℤ}
use dylchain.Bytes.{Bytes, equal, equal_iff}
use dylchain.Dict.{Dict}
use dylchain.Vote.{Evidence}
use dylchain.Validators
use dylchain.Validators.{ValidatorSet}
use dylchain.Election
use dylchain.Election.{Election, rejoin, set_delegated}

-- Some piece of the evidence is against the address.
abbrev pub Accused : Bytes → List Evidence → Type 0
Accused a [] = true ≡ false
Accused a (e ∷ es) = (e.offender ≡ a) ⊎ Accused a es

pub Accused-append :
    (a : Bytes) (xs ys : List Evidence) → Accused a xs ⊎ Accused a ys → Accused a (xs ++ ys)
Accused-append a [] ys (inl h) = absurd (ground (arith, h))
Accused-append a [] ys (inr h) = h
Accused-append a (x ∷ xs) ys (inl (inl h)) = inl h
Accused-append a (x ∷ xs) ys (inl (inr h)) = inr (Accused-append a xs ys (inl h))
Accused-append a (x ∷ xs) ys (inr h) = inr (Accused-append a xs ys (inr h))

-- Every member of a list whose weight is touched has evidence against its address.
abbrev pub AllAccused : List Evidence → Election → Type 0
AllAccused es = All (λ m. (m.slashed ≡ false) ⊎ Accused m.address es)

abbrev pub AllStaked : List Evidence → ValidatorSet → Type 0
AllStaked es = All (λ v. (v.stake ≡ v.orig_stake) ⊎ Accused v.address es)

pub AllAccused-append :
    (es : List Evidence) (e : Evidence) (ms : Election)
    → AllAccused es ms
    → AllAccused (es ++ e ∷ []) ms
AllAccused-append es e [] h = tt
AllAccused-append es e (m ∷ ms) (inl free, h) = (inl free, AllAccused-append es e ms h)
AllAccused-append es e (m ∷ ms) (inr bad, h) =
    (inr (Accused-append m.address es (e ∷ []) (inl bad)), AllAccused-append es e ms h)

pub AllStaked-append :
    (es : List Evidence) (e : Evidence) (vs : ValidatorSet)
    → AllStaked es vs
    → AllStaked (es ++ e ∷ []) vs
AllStaked-append es e [] h = tt
AllStaked-append es e (v ∷ vs) (inl whole, h) = (inl whole, AllStaked-append es e vs h)
AllStaked-append es e (v ∷ vs) (inr bad, h) =
    (inr (Accused-append v.address es (e ∷ []) (inl bad)), AllStaked-append es e vs h)

pub slash-AllAccused :
    (es : List Evidence) (a : Bytes) (ms : Election)
    → Accused a es
    → AllAccused es ms
    → AllAccused es (Election.slash a ms)
unfolding Election.slash
slash-AllAccused es a [] bad h = tt
slash-AllAccused es a (m ∷ ms) bad h = elim (Bool-cases (equal m.address a)) [
  | inl here ↦
      rw here (inr (subst (λ x. Accused x es) (sym ((equal_iff m.address a).0 here)) bad), h.1)
  | inr other ↦ rw other (h.0, slash-AllAccused es a ms bad h.1)
]

pub slash-AllStaked :
    (es : List Evidence) (a : Bytes) (vs : ValidatorSet)
    → Accused a es
    → AllStaked es vs
    → AllStaked es (Validators.slash a vs)
unfolding Validators.slash
slash-AllStaked es a [] bad h = tt
slash-AllStaked es a (v ∷ vs) bad h = elim (Bool-cases (equal v.address a)) [
  | inl here ↦
      rw here (inr (subst (λ x. Accused x es) (sym ((equal_iff v.address a).0 here)) bad), h.1)
  | inr other ↦ rw other (h.0, slash-AllStaked es a vs bad h.1)
]

rejoin-AllAccused :
    (es : List Evidence) (a : Bytes) (p : ℤ) (ms : Election)
    → AllAccused es ms
    → AllAccused es (rejoin a p ms)
unfolding rejoin
rejoin-AllAccused es a p [] h = tt
rejoin-AllAccused es a p (m ∷ ms) h = elim (Bool-cases (equal m.address a)) [
  | inl here ↦ rw here (inl refl, h.1)
  | inr other ↦ rw other (h.0, rejoin-AllAccused es a p ms h.1)
]

pub restore-AllAccused :
    (es : List Evidence) (a : Bytes) (ms : Election)
    → AllAccused es ms
    → AllAccused es (Election.restore a ms)
unfolding Election.restore
restore-AllAccused es a ms h = rejoin-AllAccused es a _ ms h

pub restore-AllStaked :
    (es : List Evidence) (a : Bytes) (vs : ValidatorSet)
    → AllStaked es vs
    → AllStaked es (Validators.restore a vs)
unfolding Validators.restore
restore-AllStaked es a [] h = tt
restore-AllStaked es a (v ∷ vs) h = elim (Bool-cases (equal v.address a)) [
  | inl here ↦ rw here (inl refl, h.1)
  | inr other ↦ rw other (h.0, restore-AllStaked es a vs h.1)
]

pub set_delegated-AllAccused :
    (es : List Evidence) (t : Dict ℕ) (ms : Election)
    → AllAccused es ms
    → AllAccused es (set_delegated t ms)
unfolding set_delegated
set_delegated-AllAccused es t [] h = tt
set_delegated-AllAccused es t (m ∷ ms) h = (h.0, set_delegated-AllAccused es t ms h.1)
