-- ===== src/Dict/Equal.antt =====
-- maps.Equal, as chain/chain.go compares ledgers with it.
use dylchain.Base.{
  suc, ◌≡◌, ◌≢◌, refl, sym, ap, ◌∙◌, subst, inl, inr, Bool, true, false, ◌&&◌, Option, none, some,
  List, [], ◌∷◌, arith, ◌==◌, length, Bool-cases, Option-cases,
}
use dylchain.Bytes.{Bytes, equal, equal_iff, equal_refl}
use dylchain.Dict.{Dict, lookup, get_or, erase, IsMap, lookup-erase_ne, get_or-eq-lookup}

-- maps.Equal, with the comparison of the values.
module _ {ℓ} {V : Type ℓ} (eq : V → V → Bool) where
  unfoldable pub entries_in : Dict V → Dict V → Bool
  entries_in [] b = true
  entries_in ((k, v) ∷ a) b = elim (lookup k b) [ none ↦ false | some w ↦ eq v w ] && entries_in a b

  unfoldable pub maps_equal : Dict V → Dict V → Bool
  unfolding entries_in
  maps_equal a b = (length a == length b) && entries_in a b

-- Every entry of `a` is found in `b`.
abbrev pub Includes {ℓ} : {V : Type ℓ} → Dict V → Dict V → Type ℓ
Includes [] b = Unit
Includes ((k, v) ∷ a) b = (lookup k b ≡ some v) × Includes a b

module _ {ℓ} {V : Type ℓ} where
  Includes-cons :
      (k : Bytes) (v : V) (a b : Dict V)
      → lookup k a ≡ none
      → Includes a b
      → Includes a ((k, v) ∷ b)
  unfolding lookup
  Includes-cons k v [] b h i = tt
  Includes-cons k v ((j, w) ∷ a) b h i =
      ground (arith, equal_iff k j, equal_iff j k, Includes-cons k v a b)

  pub Includes-refl : (a : Dict V) → IsMap a → Includes a a
  unfolding lookup
  Includes-refl [] h = tt
  Includes-refl ((k, v) ∷ a) h =
      (rw (equal_refl k), Includes-cons k v a a h.0 (Includes-refl a h.1))

  module _ (eq : V → V → Bool) (eq_same : (v : V) → eq v v ≡ true) where
    entries_in-Includes : (a b : Dict V) → Includes a b → entries_in eq a b ≡ true
    unfolding entries_in
    entries_in-Includes [] b h = refl
    entries_in-Includes ((k, v) ∷ a) b h = rw (h.0, eq_same v) (entries_in-Includes a b h.1)

    -- A map equals itself.
    pub maps_equal_refl : (a : Dict V) → IsMap a → maps_equal eq a a ≡ true
    unfolding maps_equal
    maps_equal_refl a h =
        let same : (length a == length a) ≡ true = ground arith in
        rw same (entries_in-Includes a a (Includes-refl a h))

-- What two lookups give: nothing twice, or two values that the comparison takes for the same.
abbrev pub Agree {ℓ} : {V : Type ℓ} → (V → V → Bool) → Option V → Option V → Type 0
Agree eq none none = Unit
Agree eq none (some w) = true ≡ false
Agree eq (some v) none = true ≡ false
Agree eq (some v) (some w) = eq v w ≡ true

length-nil {ℓ} : {A : Type ℓ} (xs : List A) → length xs ≡ 0 → xs ≡ []
length-nil [] h = refl
length-nil (x ∷ xs) h = absurd (omega arith)

module _ {ℓ} {V : Type ℓ} (eq : V → V → Bool) where
  length-erase :
      (k : Bytes) (d : Dict V) (v : V) → lookup k d ≡ some v → suc (length (erase k d)) ≡ length d
  unfolding lookup erase
  length-erase k [] v h = cc
  length-erase k ((j, w) ∷ d) v h = elim (Bool-cases (equal j k)) [
    | inl here ↦ rw here refl
    | inr other ↦ rw other (ap suc (length-erase k d v (rw other at h)))
  ]

  entries_in-cons :
      (k : Bytes) (v : V) (a b : Dict V)
      → entries_in eq ((k, v) ∷ a) b ≡ true
      → (w : V) × (lookup k b ≡ some w) × (eq v w ≡ true) × (entries_in eq a b ≡ true)
  unfolding entries_in
  entries_in-cons k v a b h = elim (Option-cases (lookup k b)) [
    | inl missing ↦ let h' = rw missing at h in absurd (ground (arith, h'))
    | inr (w, there) ↦ let h' = rw there at h in (w, there, ground (arith, h'), ground (arith, h'))
  ]

  entries_in-found :
      (k : Bytes) (v w : V) (a b : Dict V)
      → lookup k b ≡ some w
      → eq v w ≡ true
      → entries_in eq a b ≡ true
      → entries_in eq ((k, v) ∷ a) b ≡ true
  unfolding entries_in
  entries_in-found k v w a b there same rest = rw (there, same) rest

  lookup-head :
      (j k : Bytes) (v : V) (a : Dict V) → equal j k ≡ true → lookup k ((j, v) ∷ a) ≡ some v
  unfolding lookup
  lookup-head j k v a h = rw h refl

  lookup-tail :
      (j k : Bytes) (v : V) (a : Dict V) → equal j k ≡ false → lookup k ((j, v) ∷ a) ≡ lookup k a
  unfolding lookup
  lookup-tail j k v a h = rw h refl

  -- What is found without a key is found when the key is deleted.
  entries_in-erase :
      (k : Bytes) (a b : Dict V)
      → lookup k a ≡ none
      → entries_in eq a b ≡ true
      → entries_in eq a (erase k b) ≡ true
  entries_in-erase k [] b h i = unfold entries_in in refl
  entries_in-erase k ((j, v) ∷ a) b h i =
      let (w, there, same, rest) = entries_in-cons j v a b i in
      elim (Bool-cases (equal j k)) [
        | inl here ↦ let found = lookup-head j k v a here in absurd (ground (arith, found, h))
        | inr other ↦
            let ne : j ≢ k = λ e. let e' = (equal_iff j k).1 e in cc in
            let kept = lookup-erase_ne j k b ne ∙ there in
            entries_in-found j v w a (erase k b) kept same
              (entries_in-erase k a b (sym (lookup-tail j k v a other) ∙ h) rest)
      ]

  entries_in-Agree :
      (a b : Dict V)
      → IsMap a
      → length a ≡ length b
      → entries_in eq a b ≡ true
      → (k : Bytes) → Agree eq (lookup k a) (lookup k b)
  entries_in-Agree [] b m l h k = rw (length-nil b (sym l)) (unfold lookup in tt)
  entries_in-Agree ((j, v) ∷ a) b m l h k =
      let (w, there, same, rest) = entries_in-cons j v a b h in
      let shorter = length-erase j b w there in
      let ih =
        entries_in-Agree a (erase j b) m.1 (omega arith) (entries_in-erase j a b m.0 rest) k in
      elim (Bool-cases (equal j k)) [
        | inl here ↦
            let found : lookup k b ≡ some w = rw (← (equal_iff j k).0 here) there in
            rw (lookup-head j k v a here, found) same
        | inr other ↦
            let ne : k ≢ j = λ e. let e' = (equal_iff j k).1 (sym e) in cc in
            let kept = lookup-erase_ne k j b ne in
            rw (lookup-tail j k v a other) (subst (λ x. Agree eq (lookup k a) x) kept ih)
      ]

  -- Maps that maps.Equal takes for the same agree at every key.
  pub maps_equal-Agree :
      (a b : Dict V)
      → IsMap a
      → maps_equal eq a b ≡ true
      → (k : Bytes) → Agree eq (lookup k a) (lookup k b)
  unfolding maps_equal
  maps_equal-Agree a b m h k = entries_in-Agree a b m (ground arith) (ground arith) k

  -- With a comparison that tells different values apart, they read the same.
  pub maps_equal-get_or :
      (a b : Dict V) (z : V)
      → ((v w : V) → eq v w ≡ true → v ≡ w)
      → IsMap a
      → maps_equal eq a b ≡ true
      → (k : Bytes) → get_or a k z ≡ get_or b k z
  maps_equal-get_or a b z sound m h k =
      get_or-eq-lookup a k z
      ∙ same (lookup k a) (lookup k b) (maps_equal-Agree a b m h k)
      ∙ sym (get_or-eq-lookup b k z)
    where
      same :
          (x y : Option V)
          → Agree eq x y
          → Path V (elim x [ none ↦ z | some v ↦ v ]) (elim y [ none ↦ z | some v ↦ v ])
      same none none g = refl
      same none (some w) g = absurd (ground (arith, g))
      same (some v) none g = absurd (ground (arith, g))
      same (some v) (some w) g = sound v w g
