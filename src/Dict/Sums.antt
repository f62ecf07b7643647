-- ===== src/Dict/Sums.antt =====
-- Sums over the values of a Go map, and how a write or a deletion changes them.
use dylchain.Base.{ℕ, ◌+◌, ◌≤◌, ◌≡◌, refl, [], ◌∷◌, arith}
use dylchain.Bytes.{Bytes}
use dylchain.Dict.{Dict, get_or, insert, erase}

module _ {ℓ} {V : Type ℓ} where
  -- The sum of the values' weights.
  abbrev pub weigh : (V → ℕ) → Dict V → ℕ
  weigh w [] = 0
  weigh w ((k, v) ∷ d) = w v + weigh w d

  pub weigh-insert :
      (w : V → ℕ) (k : Bytes) (v z : V) (d : Dict V)
      → w z ≡ 0
      → weigh w (insert k v d) + w (get_or d k z) ≡ weigh w d + w v
  unfolding insert get_or
  weigh-insert w k v z [] h = omega arith
  weigh-insert w k v z ((j, x) ∷ d) h = ground (arith, weigh-insert w k v z d h)

  pub weigh-erase :
      (w : V → ℕ) (k : Bytes) (z : V) (d : Dict V)
      → w z ≡ 0
      → weigh w (erase k d) + w (get_or d k z) ≡ weigh w d
  unfolding erase get_or
  weigh-erase w k z [] h = omega arith
  weigh-erase w k z ((j, x) ∷ d) h = ground (arith, weigh-erase w k z d h)

-- The sum of a map of numbers, and of a map of such maps.
abbrev pub sum : Dict ℕ → ℕ
sum = weigh (λ n. n)

abbrev pub sum_all : Dict (Dict ℕ) → ℕ
sum_all = weigh sum

pub sum-insert : (k : Bytes) (v : ℕ) (d : Dict ℕ) → sum (insert k v d) + get_or d k 0 ≡ sum d + v
sum-insert k v d = weigh-insert (λ n. n) k v 0 d refl

pub sum-erase : (k : Bytes) (d : Dict ℕ) → sum (erase k d) + get_or d k 0 ≡ sum d
sum-erase k d = weigh-erase (λ n. n) k 0 d refl

pub sum_all-insert :
    (k : Bytes) (m : Dict ℕ) (d : Dict (Dict ℕ))
    → sum_all (insert k m d) + sum (get_or d k []) ≡ sum_all d + sum m
sum_all-insert k m d = weigh-insert sum k m [] d refl

pub sum_all-erase :
    (k : Bytes) (d : Dict (Dict ℕ)) → sum_all (erase k d) + sum (get_or d k []) ≡ sum_all d
sum_all-erase k d = weigh-erase sum k [] d refl

pub get_or-le-sum : (d : Dict ℕ) (k : Bytes) → get_or d k 0 ≤ sum d
get_or-le-sum d k = omega (arith, sum-erase k d)

pub sum-get_or-le-sum_all : (d : Dict (Dict ℕ)) (k : Bytes) → sum (get_or d k []) ≤ sum_all d
sum-get_or-le-sum_all d k = omega (arith, sum_all-erase k d)
