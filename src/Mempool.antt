-- ===== src/Mempool.antt =====
-- chain/mempool.go: the queue of pending transactions. A method returns the queue that it leaves.
use dylchain.Base.{
  ℕ, zero, suc, ◌≤◌, ◌≡◌, refl, ◌↔◌, ◌⊎◌, inl, inr, Bool, true, false, ◌||◌, List, [], ◌∷◌, ◌++◌,
  arith, ltb, leb, ◌==◌, if◌then◌else◌, length, take, drop, length-append, take-append-drop,
  length-take, length-drop, ltb→lt, Bool-cases,
}
use dylchain.Base.Int.{ℤ, pos, negsuc}
use dylchain.Transaction.{Transaction}

abbrev pub max_mempool : ℕ
max_mempool = 10_000

pub record Mempool : Type 0 where
  pub txs : List Transaction

unfoldable pub new_mempool : Mempool
new_mempool = record { txs = [] }

-- `false` is ErrMempoolFull.
unfoldable pub add : Mempool → Transaction → Mempool × Bool
add m tx =
    if leb max_mempool (length m.txs) then (m, false) else (record { txs = m.txs ++ tx ∷ [] }, true)

unfoldable pub len : Mempool → ℕ
len m = length m.txs

-- How many `Drain` takes: `max`, or everything if `max` is not positive or more than there is.
unfoldable pub drain_count : ℤ → ℕ → ℕ
drain_count (negsuc n) size = size
drain_count (pos n) size = if (n == 0) || ltb size n then size else n

unfoldable pub drain : Mempool → ℤ → Mempool × List Transaction
unfolding drain_count
drain m max =
    let n = drain_count max (length m.txs) in (record { txs = drop n m.txs }, take n m.txs)

-- The queue never holds more than its capacity.
abbrev pub IsBounded : Mempool → Type 0
IsBounded m = length m.txs ≤ max_mempool

-- What a drain may take, read off the limit: with a positive one no more than that, and less only
-- when it leaves nothing; otherwise everything.
abbrev pub IsLimited : ℤ → List Transaction → List Transaction → Type 0
IsLimited (negsuc n) out left = left ≡ []
IsLimited (pos zero) out left = left ≡ []
IsLimited (pos (suc n)) out left = (length out ≤ suc n) × ((length out ≡ suc n) ⊎ (left ≡ []))

length-zero : (xs : List Transaction) → length xs ≡ 0 → xs ≡ []
length-zero [] h = refl
length-zero (x ∷ xs) h = absurd (omega arith)

drop-everything : (m : Mempool) → drop (length m.txs) m.txs ≡ []
drop-everything m =
    length-zero (drop (length m.txs) m.txs) (omega (arith, length-drop (length m.txs) m.txs))

-- With a positive limit: all when there are fewer, else as many as the limit.
drain_count-short : (n size : ℕ) → ltb size (suc n) ≡ true → drain_count (pos (suc n)) size ≡ size
unfolding drain_count
drain_count-short n size h = ground arith

drain_count-full : (n size : ℕ) → ltb size (suc n) ≡ false → drain_count (pos (suc n)) size ≡ suc n
unfolding drain_count
drain_count-full n size h = ground arith

drain-IsLimited :
    (m : Mempool) (max : ℤ)
    → let n = drain_count max (length m.txs) in IsLimited max (take n m.txs) (drop n m.txs)
drain-IsLimited m (negsuc n) = unfold drain_count in drop-everything m
drain-IsLimited m (pos zero) = unfold drain_count in drop-everything m
drain-IsLimited m (pos (suc n)) =
    let size = length m.txs in
    elim (Bool-cases (ltb size (suc n))) [
      | inl short ↦
          let few = ltb→lt size (suc n) short in
          rw (drain_count-short n size short)
            (omega (arith, length-take size m.txs), inr (drop-everything m))
      | inr full ↦
          let t = length-take (suc n) m.txs in
          let all : length (take (suc n) m.txs) ≡ suc n = ground (arith, t) in
          rw (drain_count-full n size full) (omega arith, inl all)
    ]

-- What a drain takes and what it leaves are the queue in order. With a positive limit it takes no
-- more than that many, and fewer only if it leaves nothing; with any other it leaves nothing. The
-- capacity holds after it.
pub drain_splits :
    (m : Mempool) (max : ℤ)
    → IsBounded m
    → let (m', out) = drain m max in
      (out ++ m'.txs ≡ m.txs) × IsLimited max out m'.txs × IsBounded m'
unfolding drain
drain_splits m max b =
    let n = drain_count max (length m.txs) in
    (take-append-drop n m.txs, drain-IsLimited m max, omega (arith, length-drop n m.txs))

-- A transaction goes to the back of the queue, unless the queue is full, which leaves it alone.
pub add-IsBounded :
    (m : Mempool) (tx : Transaction)
    → IsBounded m
    → let (m', done) = add m tx in
      IsBounded m'
      × (m'.txs ≡ (if done then m.txs ++ tx ∷ [] else m.txs))
      × ((done ≡ false) ↔ (length m.txs ≡ max_mempool))
unfolding add
add-IsBounded m tx b = ground (arith, length-append m.txs (tx ∷ []))
