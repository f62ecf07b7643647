-- ===== src/Limits/Fifo.antt =====
-- A list of keys, oldest first, beside a map with those keys, of at most `max` entries: the buckets of
-- the rate limits and the seen addresses of cmd/dyld/main.go.
use dylchain.Base.{
  ℕ, ◌≤◌, ◌<◌, ◌≡◌, refl, sym, ◌∙◌, subst, inl, inr, Bool, true, false, Option, none, some, List,
  [], ◌∷◌, ◌++◌, arith, leb, Bool-cases, length, length-append,
}
use dylchain.Bytes.{Bytes, equal, equal_iff}
use dylchain.Dict.{
  Dict, lookup, insert, erase, IsMap, lookup-insert, lookup-erase_ne, insert-IsMap, erase-IsMap,
  lookup-erase_self,
}
use dylchain.Quorum.{has}
use dylchain.Quorum.Weights.{Distinct, has-append}
use dylchain.Limits.{make_room}

abbrev pub is_some {ℓ} : {V : Type ℓ} → Option V → Bool
is_some none = false
is_some (some v) = true

-- The list has no key twice, and the map has those keys, with values of the kind.
pub record IsFifo {V : Type 0} (P : V → Type 0) (max : ℕ) (order : List Bytes) (d : Dict V)
    : Type 0 where
  pub bounded : length order ≤ max
  pub distinct : Distinct order
  pub map_of : IsMap d
  pub known : (a : Bytes) → is_some (lookup a d) ≡ has order a
  pub values : (a : Bytes) (v : V) → lookup a d ≡ some v → P v

Distinct-append :
    (order : List Bytes) (a : Bytes)
    → Distinct order
    → has order a ≡ false
    → Distinct (order ++ a ∷ [])
unfolding has
Distinct-append [] a distinct new = (refl, tt)
Distinct-append (x ∷ order) a distinct new =
    let ih = Distinct-append order a distinct.1 (ground arith) in
    let h = has-append order (a ∷ []) x in (ground (arith, h, equal_iff x a, equal_iff a x), ih)

module _ {V : Type 0} (P : V → Type 0) (max : ℕ) where
  pub push-IsFifo :
      (order : List Bytes) (d : Dict V) (a : Bytes) (v : V)
      → IsFifo P max order d
      → length order < max
      → has order a ≡ false
      → P v
      → IsFifo P max (order ++ a ∷ []) (insert a v d)
  unfolding has
  push-IsFifo order d a v q room new p =
      let l = length-append order (a ∷ []) in
      record {
        bounded = omega arith;
        distinct = Distinct-append order a q.distinct new;
        map_of = insert-IsMap a v d q.map_of;
        known = λ x.
            let i = lookup-insert x a v d in
            let h = has-append order (a ∷ []) x in
            let k = q.known x in
            rw (i, h)
              (elim (Bool-cases (equal a x)) [
                | inl here ↦ rw here (ground arith)
                | inr other ↦ rw other (ground arith)
              ]);
        values = λ x w found.
            let i = lookup-insert x a v d in
            elim (Bool-cases (equal a x)) [
              | inl here ↦
                  let found' = rw (i, here) at found in let same : v ≡ w = cc in subst P same p
              | inr other ↦ q.values x w (rw (i, other) at found)
            ];
      }

  erased_known :
      (order : List Bytes) (oldest : Bytes) (d : Dict V) (a : Bytes)
      → IsFifo P max (oldest ∷ order) d
      → is_some (lookup a (erase oldest d)) ≡ has order a
  unfolding has
  erased_known order oldest d a q = elim (Bool-cases (equal oldest a)) [
    | inl here ↦
        let same = (equal_iff oldest a).0 here in
        rw (← same) (rw (lookup-erase_self oldest d q.map_of) (sym q.distinct.0))
    | inr other ↦
        let kept =
          lookup-erase_ne a oldest d
            (λ e. absurd (ground (arith, (equal_iff oldest a).1 (sym e)))) in
        rw kept (rw other at (q.known a))
  ]

  erased_values :
      (order : List Bytes) (oldest : Bytes) (d : Dict V) (a : Bytes) (v : V)
      → IsFifo P max (oldest ∷ order) d
      → lookup a (erase oldest d) ≡ some v
      → P v
  erased_values order oldest d a v q found = elim (Bool-cases (equal oldest a)) [
    | inl here ↦
        let same = (equal_iff oldest a).0 here in
        let gone = lookup-erase_self oldest d q.map_of in
        let found' = rw (← same) at found in absurd (ground (arith, gone, found'))
    | inr other ↦
        let kept =
          lookup-erase_ne a oldest d
            (λ e. absurd (ground (arith, (equal_iff oldest a).1 (sym e)))) in
        q.values a v (sym kept ∙ found)
  ]

  -- Room for one more.
  pub make_room-IsFifo :
      (order : List Bytes) (d : Dict V)
      → 0 < max
      → IsFifo P max order d
      → (order' : List Bytes) × (d' : Dict V) × (make_room max order d ≡ some (order', d'))
        × IsFifo P max order' d'
        × (length order' < max)
        × ((a : Bytes) → has order a ≡ false → has order' a ≡ false)
  unfolding make_room has
  make_room-IsFifo [] d some_ q = ([], d, ground arith, q, some_, λ a new. new)
  make_room-IsFifo (oldest ∷ order) d some_ q =
      elim (Bool-cases (leb max (length (oldest ∷ order)))) [
        | inl full ↦ (
          order,
          erase oldest d,
          rw full refl,
          record {
            bounded = omega (arith, q.bounded);
            distinct = q.distinct.1;
            map_of = erase-IsMap oldest d q.map_of;
            known = λ a. erased_known order oldest d a q;
            values = λ a v found. erased_values order oldest d a v q found;
          },
          omega (arith, q.bounded),
          λ a new. ground arith,
        )
        | inr free ↦ (oldest ∷ order, d, rw free refl, q, ground arith, λ a new. new)
      ]
