-- ===== src/Election/Heal.antt =====
-- Heals of chain/proposer.go: `restore`, for validators that rejoin at one height.
use dylchain.Base.{
  ◌≡◌, refl, sym, ap, ◌∙◌, ◌≢◌, ◌⊎◌, inl, inr, Bool, true, false, Option, none, some, [], ◌∷◌,
  arith, if◌then◌else◌, Bool-cases,
}
use dylchain.Base.Int.{ℤ, ltb_ℤ}
use dylchain.Bytes.{Bytes, equal, equal_iff}
use dylchain.Election.{Member, Election, effective, lower, lowest_others, rejoin, or_zero, restore}

-- The first member with the address is slashed, or there is none.
unfoldable pub is_slashed : Election → Bytes → Bool
is_slashed [] addr = true
is_slashed (m ∷ ms) addr = if equal m.address addr then m.slashed else is_slashed ms addr

-- The lowest priority among all members with weight.
lowest_all : Option ℤ → Election → Option ℤ
lowest_all low [] = low
lowest_all low (m ∷ ms) = lowest_all (lower low m) ms

lower-slashed : (low : Option ℤ) (m : Member) → m.slashed ≡ true → lower low m ≡ low
unfolding lower effective
lower-slashed none m h = ground arith
lower-slashed (some p) m h = ground arith

lowest_others-found :
    (addr : Bytes) (low : Option ℤ) (e : Election)
    → lowest_others addr true low e ≡ lowest_all low e
unfolding lowest_others lowest_all
lowest_others-found addr low [] = refl
lowest_others-found addr low (m ∷ ms) = lowest_others-found addr (lower low m) ms

-- Leaving out a slashed member changes nothing.
lowest_others-slashed :
    (addr : Bytes) (low : Option ℤ) (e : Election)
    → is_slashed e addr ≡ true
    → lowest_others addr false low e ≡ lowest_all low e
unfolding lowest_others lowest_all is_slashed
lowest_others-slashed addr low [] h = refl
lowest_others-slashed addr low (m ∷ ms) h = elim (Bool-cases (equal m.address addr)) [
  | inl here ↦ rw here (
      lowest_others-found addr low ms
      ∙ ap (λ l. lowest_all l ms) (sym (lower-slashed low m (ground arith))))
  | inr other ↦ rw other (lowest_others-slashed addr (lower low m) ms (ground arith))
]

-- The lower of two priorities, where there are any.
abbrev combine : Option ℤ → Option ℤ → Option ℤ
combine none b = b
combine (some p) none = some p
combine (some p) (some q) = if ltb_ℤ q p then some q else some p

abbrev weight_of : Member → Option ℤ
weight_of m = lower none m

lower-combine : (low : Option ℤ) (m : Member) → lower low m ≡ combine low (weight_of m)
unfolding lower
lower-combine none m = refl
lower-combine (some p) m = ground arith

combine_assoc : (a b d : Option ℤ) → combine (combine a b) d ≡ combine a (combine b d)
combine_assoc none b d = refl
combine_assoc (some p) none d = refl
combine_assoc (some p) (some q) none = ground arith
combine_assoc (some p) (some q) (some r) = ground arith

combine_comm : (a b : Option ℤ) → combine a b ≡ combine b a
combine_comm none none = refl
combine_comm none (some q) = refl
combine_comm (some p) none = refl
combine_comm (some p) (some q) = ground arith

lowest_all-combine :
    (low : Option ℤ) (e : Election) → lowest_all low e ≡ combine low (lowest_all none e)
unfolding lowest_all
lowest_all-combine none [] = refl
lowest_all-combine (some p) [] = refl
lowest_all-combine low (m ∷ ms) =
    lowest_all-combine (lower low m) ms
    ∙ ap (λ l. combine l (lowest_all none ms)) (lower-combine low m)
    ∙ combine_assoc low (weight_of m) (lowest_all none ms)
    ∙ ap (combine low) (sym (lowest_all-combine (weight_of m) ms))

weight_rejoined :
    (m : Member) (q : ℤ)
    → let w = weight_of (record m { slashed = false; priority = q }) in (w ≡ none) ⊎ (w ≡ some q)
unfolding lower
weight_rejoined m q = ground arith

-- What a rejoined member adds to the lowest priority: nothing, or its new priority.
rejoin-lowest :
    (addr : Bytes) (q : ℤ) (e : Election)
    → is_slashed e addr ≡ true
    → (w : Option ℤ) × ((w ≡ none) ⊎ (w ≡ some q))
      × (lowest_all none (rejoin addr q e) ≡ combine (lowest_all none e) w)
unfolding lowest_all rejoin is_slashed
rejoin-lowest addr q [] h = (none, inl refl, refl)
rejoin-lowest addr q (m ∷ ms) h = elim (Bool-cases (equal m.address addr)) [
  | inl here ↦
      let back : Member = record m { slashed = false; priority = q } in
      let gone = lower-slashed none m (ground arith) in
      (
        weight_of back,
        weight_rejoined m q,
        rw (here, gone)
            (lowest_all-combine (weight_of back) ms
              ∙ combine_comm (weight_of back) (lowest_all none ms)),
      )
  | inr other ↦
      let (w, which, e) = rejoin-lowest addr q ms (ground arith) in
      (
        w,
        which,
        rw other (
            lowest_all-combine (weight_of m) (rejoin addr q ms)
            ∙ ap (combine (weight_of m)) e
            ∙ sym (combine_assoc (weight_of m) (lowest_all none ms) w)
            ∙ ap (λ l. combine l w) (sym (lowest_all-combine (weight_of m) ms))),
      )
]

is_slashed-rejoin :
    (a b : Bytes) (q : ℤ) (e : Election) → a ≢ b → is_slashed (rejoin b q e) a ≡ is_slashed e a
unfolding is_slashed rejoin
is_slashed-rejoin a b q [] h = refl
is_slashed-rejoin a b q (m ∷ ms) h =
    ground (arith, equal_iff m.address a, equal_iff m.address b, is_slashed-rejoin a b q ms h)

rejoin_comm :
    (a b : Bytes) (p q : ℤ) (e : Election)
    → a ≢ b
    → rejoin a p (rejoin b q e) ≡ rejoin b q (rejoin a p e)
unfolding rejoin
rejoin_comm a b p q [] h = refl
rejoin_comm a b p q (m ∷ ms) h =
    ground (arith, equal_iff m.address a, equal_iff m.address b, rejoin_comm a b p q ms h)

or_zero-combine :
    (l w : Option ℤ) → (w ≡ none) ⊎ (w ≡ some (or_zero l)) → or_zero (combine l w) ≡ or_zero l
unfolding or_zero
or_zero-combine none none h = refl
or_zero-combine none (some p) h = ground arith
or_zero-combine (some l) none h = refl
or_zero-combine (some l) (some p) h = ground arith

restore-slashed :
    (a : Bytes) (e : Election)
    → is_slashed e a ≡ true
    → restore a e ≡ rejoin a (or_zero (lowest_all none e)) e
unfolding restore
restore-slashed a e h = ap (λ l. rejoin a (or_zero l) e) (lowest_others-slashed a none e h)

-- Restoring `a` after `b` gives both the priority that the lowest had before.
restore-restore :
    (a b : Bytes) (e : Election)
    → a ≢ b
    → is_slashed e a ≡ true
    → is_slashed e b ≡ true
    → let q = or_zero (lowest_all none e) in restore a (restore b e) ≡ rejoin a q (rejoin b q e)
restore-restore a b e ne sa sb =
    let q = or_zero (lowest_all none e) in
    let (w, which, low) = rejoin-lowest b q e sb in
    let still = is_slashed-rejoin a b q e ne ∙ sa in
    ap (restore a) (restore-slashed b e sb)
    ∙ restore-slashed a (rejoin b q e) still
    ∙ ap (λ p. rejoin a p (rejoin b q e))
        (ap or_zero low ∙ or_zero-combine (lowest_all none e) w which)

-- Two different slashed addresses whose heals fall on one height can be restored in either order: the
-- members, their priorities included, come out the same.
pub restore_comm :
    (a b : Bytes) (e : Election)
    → a ≢ b
    → is_slashed e a ≡ true
    → is_slashed e b ≡ true
    → restore a (restore b e) ≡ restore b (restore a e)
restore_comm a b e ne sa sb =
    let q = or_zero (lowest_all none e) in
    restore-restore a b e ne sa sb
    ∙ rejoin_comm a b q q e ne
    ∙ sym (restore-restore b a e (λ h. ne (sym h)) sb sa)
