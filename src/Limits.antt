-- ===== src/Limits.antt =====
-- cmd/dyld/main.go: the token buckets. Times are in nanoseconds.
pub mod Fifo
pub mod Buckets
use dylchain.Base.{
  ℕ, zero, suc, ◌+◌, ◌-◌, ◌*◌, ◌/◌, ◌%◌, ◌^◌, ◌≤◌, ◌<◌, ◌≡◌, refl, sym, ap, ◌∙◌, subst, ◌≢◌, ◌↔◌,
  ◌⊎◌, inl, inr, Bool, true, false, not, ◌&&◌, ◌||◌, Option, none, some, List, [], ◌∷◌, ◌++◌, map,
  append_assoc, append-nil, arith, ltb, leb, ◌==◌, if◌then◌else◌, ltb→lt, lt→ltb, leb→le, ==_iff,
  tests, Bool-cases, Option-cases, if_cases, length, get_elem?, set, take, drop, replicate, All,
  length-append, length-set, take-append-drop, length-take, length-drop, length-map, All-append,
  append-injective, Result-cases, >>=-eq-some, Result, ok, err, ◌>>=◌,
}
use dylchain.Base.Int.{
  u64_mod, add_u64, sub_u64, ℤ, pos, negsuc, pos_part, neg_part, sub_ℕ, ◌+ℤ◌, ◌-ℤ◌, ◌≤ℤ◌, ltb_ℤ,
  eqb_ℤ, to_u64, of_u64, add_i64, sub_i64, +ℤ_parts, -ℤ_parts, eq_of_parts, int_laws,
  add_i64-one-ne, add_i64-pos, eqb_ℤ_iff, IsI64, to_u64-injective, to_u64-lt,
}
use dylchain.Bytes.{Bytes, text, equal, equal_iff, equal_refl, IsBytes}
use dylchain.Dict.{Dict, lookup, insert, erase}
use dylchain.Network.{Floats}

pub record Limiter (F : Type 0) : Type 0 where
  pub tokens : F
  pub burst : F
  pub rate : F
  pub last : ℤ

pub record IpLimiters (F : Type 0) : Type 0 where
  pub buckets : Dict (Limiter F)
  pub order : List Bytes
  pub rate : F
  pub burst : F
  pub max : ℕ
  pub global : Limiter F

-- The oldest key out of a full list: the list and the map that are left. `none` is a panic, when the
-- list may hold nothing at all.
unfoldable pub make_room {ℓ} : {V : Type ℓ} → ℕ → List Bytes → Dict V → Option (List Bytes × Dict V)
make_room max [] d = if leb max 0 then none else some ([], d)
make_room max (oldest ∷ order) d =
    if leb max (length (oldest ∷ order))
    then some (order, erase oldest d)
    else some (oldest ∷ order, d)

module _ ⦃f : Floats⦄ where
  unfoldable pub new_limiter : f.Number → f.Number → ℤ → Limiter f.Number
  new_limiter rate burst now = record { tokens = burst; burst = burst; rate = rate; last = now }

  abbrev one : f.Number
  one = f.of_uint64 1

  -- What `allow` reads as the tokens of the bucket.
  unfoldable pub refill : ℤ → Limiter f.Number → f.Number
  refill now l =
      let grown = f.plus l.tokens (f.times (f.seconds (now -ℤ l.last)) l.rate) in
      if f.less l.burst grown then l.burst else grown

  unfoldable pub allow : ℤ → Limiter f.Number → Limiter f.Number × Bool
  unfolding refill
  allow now l =
      if f.less (refill now l) one
      then (record l { tokens = refill now l; last = now }, false)
      else (record l { tokens = f.minus (refill now l) one; last = now }, true)

  unfoldable pub new_ip_limiters : f.Number → f.Number → ℕ → ℤ → IpLimiters f.Number
  unfolding new_limiter
  new_ip_limiters rate burst max now = record {
    buckets = [];
    order = [];
    rate = rate;
    burst = burst;
    max = max;
    global = new_limiter (f.times rate (f.of_uint64 20)) (f.times burst (f.of_uint64 10)) now;
  }

  -- The bucket of an address, a new one where it has none.
  unfoldable pub bucket :
      ℤ → Bytes → IpLimiters f.Number → Option (Limiter f.Number × IpLimiters f.Number)
  unfolding make_room new_limiter
  bucket now ip l = elim (lookup ip l.buckets) [
    | some lim ↦ some (lim, l)
    | none ↦ (do
      (order, buckets) ← make_room l.max l.order l.buckets
      let fresh = new_limiter l.rate l.burst now
      some (fresh, record l { buckets = insert ip fresh buckets; order = order ++ ip ∷ [] }))
  ]

  abbrev spend : ℤ → Bytes → Limiter f.Number × IpLimiters f.Number → IpLimiters f.Number × Bool
  spend now ip (lim, l) =
      let (lim', pass) = allow now lim in (record l { buckets = insert ip lim' l.buckets }, pass)

  unfoldable pub allow_ip : ℤ → Bytes → IpLimiters f.Number → Option (IpLimiters f.Number × Bool)
  unfolding bucket allow
  allow_ip now ip l =
      let (global, pass) = allow now l.global in
      let l1 = record l { global = global } in
      if not pass
      then some (l1, false)
      else (do found ← bucket now ip l1; some (spend now ip found))
