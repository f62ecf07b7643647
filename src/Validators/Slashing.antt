-- ===== src/Validators/Slashing.antt =====
-- Slashing and restoring in chain/validator.go.
use dylchain.Base.{◌≡◌, [], ◌∷◌, arith, if◌then◌else◌}
use dylchain.Bytes.{Bytes, equal, equal_iff}
use dylchain.Validators.{ValidatorSet, stake_of, contains, slash, restore}

-- A slash zeroes the stake that is read at the address and changes it at no other, keeps the
-- membership, is idempotent, and is undone by a restore as if it had not happened.
pub slash-restore :
    (vs : ValidatorSet) (addr a : Bytes)
    → (stake_of (slash addr vs) a ≡ (if equal addr a then 0 else stake_of vs a))
      × (contains (slash addr vs) a ≡ contains vs a)
      × (restore addr (slash addr vs) ≡ restore addr vs)
      × (slash addr (slash addr vs) ≡ slash addr vs)
unfolding stake_of contains slash restore
slash-restore [] addr a = ground arith
slash-restore (v ∷ vs) addr a =
    let (s, c, r, t) = slash-restore vs addr a in
    ground (arith, s, c, r, t, equal_iff v.address addr, equal_iff v.address a, equal_iff addr a)
