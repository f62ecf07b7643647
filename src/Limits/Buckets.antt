-- ===== src/Limits/Buckets.antt =====
-- `ipLimiters.allow` of cmd/dyld/main.go: the bounded list of addresses beside the buckets.
use dylchain.Base.{
  ℕ, ◌<◌, ◌≡◌, refl, sym, ap, ◌∙◌, inl, inr, Bool, true, false, some, List, [], ◌∷◌, ◌++◌, arith,
  Bool-cases, Option-cases,
}
use dylchain.Base.Int.{ℤ}
use dylchain.Bytes.{Bytes, equal, equal_iff, equal_refl}
use dylchain.Dict.{Dict, lookup, insert, lookup-insert, insert-IsMap}
use dylchain.Network.{Floats}
use dylchain.Quorum.{has}
use dylchain.Quorum.Weights.{has-append}
use dylchain.Limits.{Limiter, IpLimiters, new_limiter, allow, bucket, allow_ip}
use dylchain.Limits.Fifo.{IsFifo, make_room-IsFifo, push-IsFifo}

-- A bucket for each address of the list, which has at most `max`, none twice.
abbrev pub IsTracked : {F : Type 0} → IpLimiters F → Type 0
IsTracked l = IsFifo (λ b. Unit) l.max l.order l.buckets

replace-IsTracked :
    {V : Type 0} (max : ℕ) (order : List Bytes) (d : Dict V) (a : Bytes) (v : V)
    → IsFifo (λ b. Unit) max order d
    → has order a ≡ true
    → IsFifo (λ b. Unit) max order (insert a v d)
unfolding has
replace-IsTracked max order d a v q there = record {
  bounded = q.bounded;
  distinct = q.distinct;
  map_of = insert-IsMap a v d q.map_of;
  known = λ x.
      let i = lookup-insert x a v d in
      let k = q.known x in
      elim (Bool-cases (equal a x)) [
        | inl here ↦
            let same = (equal_iff a x).0 here in rw (i, here) (sym there ∙ ap (has order) same)
        | inr other ↦ rw (i, other) k
      ];
  values = λ x w found. tt;
}

module _ ⦃f : Floats⦄ where
  -- The bucket is found or made, and is then on the list.
  bucket-IsTracked :
      (now : ℤ) (ip : Bytes) (l : IpLimiters f.Number)
      → 0 < l.max
      → IsTracked l
      → (lim : Limiter f.Number) × (l' : IpLimiters f.Number) × (bucket now ip l ≡ some (lim, l'))
        × IsTracked l'
        × (has l'.order ip ≡ true)
        × (l'.max ≡ l.max)
  unfolding bucket has
  bucket-IsTracked now ip l some_ q = elim (Option-cases (lookup ip l.buckets)) [
    | inr (lim, found) ↦
        let k = q.known ip in
        let k' = rw found at k in (lim, l, rw (found, bucket) refl, q, sym k', refl)
    | inl missing ↦
        let k = q.known ip in
        let k' = rw missing at k in
        let (order, buckets, room, q', short, fresh) =
          make_room-IsFifo (λ b. Unit) l.max l.order l.buckets some_ q in
        let lim = new_limiter l.rate l.burst now in
        let h = has-append order (ip ∷ []) ip in
        (
          lim,
          record l { buckets = insert ip lim buckets; order = order ++ ip ∷ [] },
          rw (missing, bucket) (rw room refl),
          push-IsFifo (λ b. Unit) l.max order buckets ip lim q' short (fresh ip (sym k')) tt,
          ground (arith, h, equal_refl ip),
          refl,
        )
  ]

  -- The rate limit answers every address without a panic and keeps its books, if it may track any
  -- address at all: at most `max` addresses, none of them twice, and a bucket for those on the list
  -- and no other.
  pub allow_ip-IsTracked :
      (now : ℤ) (ip : Bytes) (l : IpLimiters f.Number)
      → 0 < l.max
      → IsTracked l
      → (l' : IpLimiters f.Number) × (pass : Bool) × (allow_ip now ip l ≡ some (l', pass))
        × IsTracked l'
        × (l'.max ≡ l.max)
  unfolding allow_ip
  allow_ip-IsTracked now ip l some_ q = elim (Bool-cases (allow now l.global).1) [
    | inl pass ↦
        let l1 : IpLimiters f.Number = record l { global = (allow now l.global).0 } in
        let (lim, l', run, q', there, same) = bucket-IsTracked now ip l1 some_ q in
        let spent = (allow now lim).0 in
        (
          record l' { buckets = insert ip spent l'.buckets },
          (allow now lim).1,
          rw (pass, allow_ip) (rw run refl),
          replace-IsTracked l'.max l'.order l'.buckets ip spent q' there,
          same,
        )
    | inr stop ↦
        (record l { global = (allow now l.global).0 }, false, rw (stop, allow_ip) refl, q, refl)
  ]
