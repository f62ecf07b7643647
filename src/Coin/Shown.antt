-- ===== src/Coin/Shown.antt =====
-- What `FormatAmount` of chain/coin.go shows, read back.
use dylchain.Base.{
  ℕ, zero, suc, ◌+◌, ◌-◌, ◌*◌, ◌/◌, ◌%◌, ◌^◌, ◌≤◌, ◌<◌, ◌≡◌, refl, sym, ap, ◌∙◌, ◌⊎◌, inl, inr,
  true, false, [], ◌∷◌, ◌++◌, arith, ◌==◌, if◌then◌else◌, ==_iff, Bool-cases, length, replicate,
  All,
}
use dylchain.Bytes.{Bytes, text}
use dylchain.Coin.{
  base_units_per_coin, precision, display_denom, digits, decimal, zero_pad, attach, trim_zeros,
  format_amount,
}

-- A reader of what follows the point, in units of a millionth: `w` digits are still to come.
abbrev pub read_frac : ℕ → Bytes → ℕ
read_frac zero bs = 0
read_frac (suc w) [] = 0
read_frac (suc w) (b ∷ bs) = if b == 32 then 0 else (b - 48) * 10 ^ w + read_frac w bs

-- A reader of an amount, from the left, up to a space; it knows nothing of how one is shown.
abbrev pub read_amount : ℕ → Bytes → ℕ
read_amount acc [] = acc * 1_000_000
read_amount acc (b ∷ bs) =
    let after = read_amount (acc * 10 + (b - 48)) bs in
    if b == 32 then acc * 1_000_000 else if b == 46 then acc * 1_000_000 + read_frac 6 bs else after

digits-append :
    (fuel n : ℕ) (out rest : Bytes) → digits fuel n out ++ rest ≡ digits fuel n (out ++ rest)
unfolding digits
digits-append zero n out rest = refl
digits-append (suc fuel) n out rest = elim (Bool-cases (n / 10 == 0)) [
  | inl last ↦ rw last refl
  | inr more ↦ rw more (digits-append fuel (n / 10) ((48 + n % 10) ∷ out) rest)
]

read_amount-digits :
    (fuel n : ℕ) (out : Bytes)
    → n < 10 ^ fuel
    → 0 < n ⊎ 0 < fuel
    → read_amount 0 (digits fuel n out) ≡ read_amount n out
unfolding digits
read_amount-digits zero n out small some_ = absurd (ground arith)
read_amount-digits (suc fuel) n out small some_ =
    let space : (48 + n % 10 == 32) ≡ false = ground (arith, ==_iff (48 + n % 10) 32) in
    let point : (48 + n % 10 == 46) ≡ false = ground (arith, ==_iff (48 + n % 10) 46) in
    elim (Bool-cases (n / 10 == 0)) [
      | inl last ↦
          let zero_ : n / 10 ≡ 0 = ground (arith, ==_iff (n / 10) 0) in
          rw (last, space, point) (ap (λ x. read_amount x out) (omega arith))
      | inr more ↦
          let positive : 0 < n / 10 = ground (arith, ==_iff (n / 10) 0) in
          rw more (
            read_amount-digits fuel (n / 10) ((48 + n % 10) ∷ out) (omega arith) (inl positive)
            ∙ rw (space, point) (ap (λ x. read_amount x out) (omega arith)))
    ]

read_frac-space : (w : ℕ) (rest : Bytes) → read_frac w (32 ∷ rest) ≡ 0
read_frac-space zero rest = refl
read_frac-space (suc w) rest = refl

read_frac-attach :
    (w b : ℕ) (t bs rest : Bytes)
    → 48 ≤ b
    → read_frac w (t ++ 32 ∷ rest) ≡ read_frac w (bs ++ 32 ∷ rest)
    → read_frac (suc w) (attach b t ++ 32 ∷ rest) ≡ read_frac (suc w) (b ∷ bs ++ 32 ∷ rest)
read_frac-attach w b [] bs rest digit same =
    let seen : (b == 32) ≡ false = ground (arith, ==_iff b 32) in
    let nothing = read_frac-space w rest in
    elim (Bool-cases (b == 48)) [
      | inl zero_ ↦
          let is_zero = (==_iff b 48).0 zero_ in
          let none_left : b - 48 ≡ 0 = omega arith in rw (zero_, seen, none_left) (omega arith)
      | inr other ↦ rw (other, seen) (ap (λ x. (b - 48) * 10 ^ w + x) same)
    ]
read_frac-attach w b (x ∷ t) bs rest digit same =
    let seen : (b == 32) ≡ false = ground (arith, ==_iff b 32) in
    rw seen (ap (λ y. (b - 48) * 10 ^ w + y) same)

-- Trailing zeros say nothing.
read_frac-trim :
    (w : ℕ) (bs rest : Bytes)
    → All (λ b. 48 ≤ b) bs
    → read_frac w (trim_zeros bs ++ 32 ∷ rest) ≡ read_frac w (bs ++ 32 ∷ rest)
unfolding trim_zeros
read_frac-trim zero bs rest clean = refl
read_frac-trim (suc w) [] rest clean = refl
read_frac-trim (suc w) (b ∷ bs) rest clean =
    read_frac-attach w b (trim_zeros bs) bs rest clean.0 (read_frac-trim w bs rest clean.1)

digit_test : (d : ℕ) → (48 + d == 32) ≡ false
digit_test d = ground (arith, ==_iff (48 + d) 32)

read_frac-six :
    (a b c d e f : ℕ) (rest : Bytes)
    → read_frac 6 ((48 + a) ∷ (48 + b) ∷ (48 + c) ∷ (48 + d) ∷ (48 + e) ∷ (48 + f) ∷ 32 ∷ rest)
      ≡ a * 100_000 + b * 10_000 + c * 1_000 + d * 100 + e * 10 + f
read_frac-six a b c d e f rest =
    rw (digit_test a, digit_test b, digit_test c, digit_test d, digit_test e, digit_test f)
      (omega arith)

-- Just `k` digits.
abbrev fixed : ℕ → ℕ → Bytes → Bytes
fixed zero n out = out
fixed (suc k) n out = fixed k (n / 10) ((48 + n % 10) ∷ out)

replicate-shift : (k : ℕ) (out : Bytes) → replicate k 48 ++ 48 ∷ out ≡ 48 ∷ replicate k 48 ++ out
replicate-shift zero out = refl
replicate-shift (suc k) out = ap (λ bs. 48 ∷ bs) (replicate-shift k out)

fixed-zero : (k : ℕ) (out : Bytes) → fixed k 0 out ≡ replicate k 48 ++ out
fixed-zero zero out = refl
fixed-zero (suc k) out = fixed-zero k (48 ∷ out) ∙ replicate-shift k out

-- Zeros in front of the digits of a number make just `k` digits.
digits-fixed :
    (fuel k n : ℕ) (out : Bytes)
    → n < 10 ^ suc k
    → k < fuel
    → (j : ℕ) × (replicate j 48 ++ digits fuel n out ≡ fixed (suc k) n out)
      × (length (digits fuel n out) + j ≡ suc k + length out)
unfolding digits
digits-fixed zero k n out small some_ = absurd (omega arith)
digits-fixed (suc fuel) zero n out small some_ =
    let last : (n / 10 == 0) ≡ true = ground (arith, ==_iff (n / 10) 0) in
    (0, rw last refl, rw last (omega arith))
digits-fixed (suc fuel) (suc k) n out small some_ = elim (Bool-cases (n / 10 == 0)) [
  | inl last ↦
      let zero_ : n / 10 ≡ 0 = ground (arith, ==_iff (n / 10) 0) in
      (
        suc k,
        rw (last, zero_) (sym (fixed-zero (suc k) ((48 + n % 10) ∷ out))),
        rw last (omega arith),
      )
  | inr more ↦
      let (j, shown, long) =
        digits-fixed fuel k (n / 10) ((48 + n % 10) ∷ out) (omega arith) (omega arith) in
      (j, rw more shown, rw more (omega arith))
]

zero_pad-fixed : (n : ℕ) → n < 1_000_000 → zero_pad 6 (decimal n) ≡ fixed 6 n []
unfolding zero_pad decimal
zero_pad-fixed n small =
    let (j, shown, long) = digits-fixed 20 5 n [] small (omega arith) in
    let j_is : 6 - length (digits 20 n []) ≡ j = omega arith in rw (j_is, zero_pad) shown

six_digits :
    (n : ℕ)
    → n < 1_000_000
    → n / 10 / 10 / 10 / 10 / 10 % 10 * 100_000
        + n / 10 / 10 / 10 / 10 % 10 * 10_000
        + n / 10 / 10 / 10 % 10 * 1_000
        + n / 10 / 10 % 10 * 100
        + n / 10 % 10 * 10
        + n % 10
      ≡ n
six_digits n small = omega arith

read_frac-shown :
    (n : ℕ) (rest : Bytes)
    → n < 1_000_000
    → read_frac 6 (trim_zeros (zero_pad 6 (decimal n)) ++ 32 ∷ rest) ≡ n
read_frac-shown n rest small =
    let at_least : (d : ℕ) → 48 ≤ 48 + d = λ d. omega arith in
    ap (λ bs. read_frac 6 (trim_zeros bs ++ 32 ∷ rest)) (zero_pad-fixed n small)
    ∙ read_frac-trim 6 (fixed 6 n []) rest
        (at_least _, (at_least _, (at_least _, (at_least _, (at_least _, (at_least _, tt))))))
    ∙ read_frac-six (n / 10 / 10 / 10 / 10 / 10 % 10) (n / 10 / 10 / 10 / 10 % 10)
        (n / 10 / 10 / 10 % 10) (n / 10 / 10 % 10) (n / 10 % 10) (n % 10) rest
    ∙ six_digits n small

read_amount-decimal :
    (n : ℕ) (rest : Bytes) → n < 10 ^ 20 → read_amount 0 (decimal n ++ rest) ≡ read_amount n rest
unfolding decimal
read_amount-decimal n rest small =
    ap (read_amount 0) (digits-append 20 n [] rest)
    ∙ read_amount-digits 20 n rest small (inr (omega arith))

-- The text that `FormatAmount` gives for an amount that is a `uint64` reads as that amount, with its
-- fraction.
pub format_amount-reads : (base : ℕ) → base < 2 ^ 64 → read_amount 0 (format_amount base) ≡ base
unfolding format_amount
format_amount-reads base small =
    let whole = base / base_units_per_coin in
    let frac = base % base_units_per_coin in
    let unit : Bytes = 32 ∷ display_denom in
    let frac_str = trim_zeros (zero_pad precision (decimal frac)) in
    elim (Bool-cases (frac == 0)) [
      | inl none_ ↦
          let no_frac = (==_iff frac 0).0 none_ in
          rw none_ (read_amount-decimal whole unit (omega arith) ∙ omega arith)
      | inr some_ ↦ rw some_ (
          read_amount-decimal whole (46 ∷ (frac_str ++ unit)) (omega arith)
          ∙ ap (λ x. whole * 1_000_000 + x) (read_frac-shown frac display_denom (omega arith))
          ∙ omega arith)
    ]

format_amount-half : format_amount 12_500_000 ≡ text "12.5 DYL"
unfolding format_amount
format_amount-half = refl
