-- ===== src/Dict.antt =====
-- Go maps with string keys, as association lists in some iteration order.
pub mod Sums
pub mod Equal
pub mod Erased
use dylchain.Base.{
  ℕ, suc, ◌+◌, ◌≡◌, refl, ◌≢◌, Bool, true, false, List, [], ◌∷◌, Option, none, some, arith,
  if◌then◌else◌, length,
}
use dylchain.Bytes.{Bytes, equal, equal_iff}

abbrev pub Dict {ℓ} : Type ℓ → Type ℓ
Dict V = List (Bytes × V)

module _ {ℓ} {V : Type ℓ} where
  -- `v, ok := m[k]`
  unfoldable pub lookup : Bytes → Dict V → Option V
  lookup k [] = none
  lookup k ((j, v) ∷ d) = if equal j k then some v else lookup k d

  -- `m[k]`, with the zero value for a missing key
  unfoldable pub get_or : Dict V → Bytes → V → V
  get_or [] k z = z
  get_or ((j, v) ∷ d) k z = if equal j k then v else get_or d k z

  -- `m[k] = v`
  unfoldable pub insert : Bytes → V → Dict V → Dict V
  insert k v [] = (k, v) ∷ []
  insert k v ((j, w) ∷ d) = if equal j k then (j, v) ∷ d else (j, w) ∷ insert k v d

  -- `delete(m, k)`
  unfoldable pub erase : Bytes → Dict V → Dict V
  erase k [] = []
  erase k ((j, w) ∷ d) = if equal j k then d else (j, w) ∷ erase k d

  -- The keys are distinct, as in every Go map.
  abbrev pub IsMap : Dict V → Type ℓ
  IsMap [] = Unit
  IsMap ((j, v) ∷ d) = (lookup j d ≡ none) × IsMap d

  pub lookup-insert :
      (j k : Bytes) (v : V) (d : Dict V)
      → lookup j (insert k v d) ≡ (if equal k j then some v else lookup j d)
  unfolding lookup insert
  lookup-insert j k v [] = refl
  lookup-insert j k v ((i, w) ∷ d) =
      ground (arith, equal_iff k j, equal_iff i k, equal_iff i j, lookup-insert j k v d)

  pub get_or-insert :
      (j k : Bytes) (v z : V) (d : Dict V)
      → get_or (insert k v d) j z ≡ (if equal k j then v else get_or d j z)
  unfolding get_or insert
  get_or-insert j k v z [] = refl
  get_or-insert j k v z ((i, w) ∷ d) =
      ground (arith, equal_iff k j, equal_iff i k, equal_iff i j, get_or-insert j k v z d)

  pub lookup-erase_ne : (j k : Bytes) (d : Dict V) → j ≢ k → lookup j (erase k d) ≡ lookup j d
  unfolding lookup erase
  lookup-erase_ne j k [] h = refl
  lookup-erase_ne j k ((i, w) ∷ d) h =
      ground (arith, equal_iff i k, equal_iff i j, lookup-erase_ne j k d h)

  pub get_or-eq-lookup :
      (d : Dict V) (k : Bytes) (z : V) → get_or d k z ≡ elim (lookup k d) [ none ↦ z | some v ↦ v ]
  unfolding get_or lookup
  get_or-eq-lookup [] k z = refl
  get_or-eq-lookup ((j, v) ∷ d) k z = ground (arith, get_or-eq-lookup d k z)

  pub insert-IsMap : (k : Bytes) (v : V) (d : Dict V) → IsMap d → IsMap (insert k v d)
  unfolding insert lookup
  insert-IsMap k v [] h = (refl, tt)
  insert-IsMap k v ((j, w) ∷ d) h =
      ground (arith, insert-IsMap k v d h.1, lookup-insert j k v d, equal_iff j k, equal_iff k j)

  pub erase-IsMap : (k : Bytes) (d : Dict V) → IsMap d → IsMap (erase k d)
  unfolding erase lookup
  erase-IsMap k [] h = tt
  erase-IsMap k ((j, w) ∷ d) h =
      ground (arith, erase-IsMap k d h.1, lookup-erase_ne j k d, equal_iff j k)

  pub lookup-erase_self : (k : Bytes) (d : Dict V) → IsMap d → lookup k (erase k d) ≡ none
  unfolding lookup erase
  lookup-erase_self k [] h = refl
  lookup-erase_self k ((j, w) ∷ d) h = ground (arith, lookup-erase_self k d h.1, equal_iff j k)
