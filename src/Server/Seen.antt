-- ===== src/Server/Seen.antt =====
-- `markSeen` of cmd/dyld/main.go: the bounded list of addresses beside its set.
use dylchain.Base.{
  ◌≡◌, refl, ◌∙◌, inl, inr, Bool, true, false, ◌||◌, Option, some, List, [], ◌∷◌, ◌++◌, arith,
  Bool-cases, Option-cases,
}
use dylchain.Bytes.{Bytes, equal}
use dylchain.Dict.{Dict, lookup, get_or, insert, get_or-eq-lookup}
use dylchain.Quorum.{has}
use dylchain.Limits.Fifo.{IsFifo, make_room-IsFifo, push-IsFifo}
use dylchain.Server.{Server, max_seen, mark_one, mark_all, mark_seen}

-- At most 500 addresses, none twice, and the set has just those, all as `true`.
abbrev pub IsSeen : List Bytes → Dict Bool → Type 0
IsSeen = IsFifo (λ b. b ≡ true) max_seen

-- What `seenSet[a]` says is on the list.
get_or-has :
    (order : List Bytes) (d : Dict Bool) (a : Bytes)
    → IsSeen order d
    → get_or d a false ≡ has order a
get_or-has order d a q =
    let e = get_or-eq-lookup d a false in
    let k = q.known a in
    elim (Option-cases (lookup a d)) [
      | inl missing ↦ let k' = rw missing at k in rw (e, missing) k'
      | inr (v, found) ↦ let k' = rw found at k in rw (e, found) (q.values a v found ∙ k')
    ]

-- The pair is there, and is a list of seen addresses with its set.
abbrev pub MarksTo : Option (List Bytes × Dict Bool) → Type 0
MarksTo x = (order : List Bytes) × (d : Dict Bool) × (x ≡ some (order, d)) × IsSeen order d

mark_one-IsSeen :
    (a : Bytes) (order : List Bytes) (d : Dict Bool) → IsSeen order d → MarksTo (mark_one a order d)
unfolding mark_one
mark_one-IsSeen a order d q = elim (Bool-cases (equal a [] || get_or d a false)) [
  | inl skip ↦ (order, d, rw (skip, mark_one) refl, q)
  | inr new ↦
      let (order', d', room, q', short, fresh) =
        make_room-IsFifo (λ b. b ≡ true) max_seen order d (omega arith) q in
      let absent = get_or-has order d a q in
      (
        order' ++ a ∷ [],
        insert a true d',
        rw (new, mark_one) (rw room refl),
        push-IsFifo (λ b. b ≡ true) max_seen order' d' a true q' short (fresh a (ground arith))
            refl,
      )
]

mark_all-IsSeen :
    (as' : List Bytes) (order : List Bytes) (d : Dict Bool)
    → IsSeen order d
    → MarksTo (mark_all as' order d)
unfolding mark_all
mark_all-IsSeen [] order d q = (order, d, refl, q)
mark_all-IsSeen (a ∷ as') order d q =
    let (order', d', run, q') = mark_one-IsSeen a order d q in
    rw (run, mark_all) (mark_all-IsSeen as' order' d' q')

-- `markSeen` does not panic, whatever it is given, and keeps the list and the set as they should be:
-- at most 500 addresses, none of them twice, and in the set, as `true`, those on the list and no
-- other.
pub mark_seen-IsSeen :
    {F : Type 0} (addrs : List Bytes) (s : Server F)
    → IsSeen s.seen_list s.seen_set
    → (s' : Server F) × (mark_seen addrs s ≡ some s') × IsSeen s'.seen_list s'.seen_set
unfolding mark_seen
mark_seen-IsSeen addrs s q =
    let (order, d, run, q') = mark_all-IsSeen addrs s.seen_list s.seen_set q in
    (record s { seen_list = order; seen_set = d }, rw (run, mark_seen) refl, q')
