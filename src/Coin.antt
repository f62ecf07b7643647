-- ===== src/Coin.antt =====
-- chain/coin.go: the native coin's constants, and how an amount is shown.
pub mod Shown
use dylchain.Base.{
  ℕ, zero, suc, ◌+◌, ◌-◌, ◌*◌, ◌/◌, ◌%◌, ◌^◌, ◌≤◌, ◌<◌, ◌≡◌, refl, sym, ap, ◌∙◌, subst, ◌≢◌, ◌↔◌,
  ◌⊎◌, inl, inr, Bool, true, false, not, ◌&&◌, ◌||◌, Option, none, some, List, [], ◌∷◌, ◌++◌, map,
  append_assoc, append-nil, arith, ltb, leb, ◌==◌, if◌then◌else◌, ltb→lt, lt→ltb, leb→le, ==_iff,
  tests, Bool-cases, Option-cases, if_cases, length, get_elem?, set, take, drop, replicate, All,
  length-append, length-set, take-append-drop, length-take, length-drop, length-map, All-append,
  append-injective, Result-cases, >>=-eq-some, Result, ok, err, ◌>>=◌,
}
use dylchain.Bytes.{Bytes, text}

abbrev pub precision : ℕ
precision = 6

abbrev pub base_units_per_coin : ℕ
base_units_per_coin = 1_000_000

-- Minted for each block that consensus produced.
abbrev pub block_reward : ℕ
block_reward = 100 * base_units_per_coin

abbrev pub display_denom : Bytes
display_denom = text "DYL"

-- The digits of `%d`, before those in `out`. A `uint64` has at most twenty.
unfoldable pub digits : ℕ → ℕ → Bytes → Bytes
digits zero n out = out
digits (suc fuel) n out =
    let longer = digits fuel (n / 10) ((48 + n % 10) ∷ out) in
    if n / 10 == 0 then (48 + n % 10) ∷ out else longer

unfoldable pub decimal : ℕ → Bytes
unfolding digits
decimal n = digits 20 n []

-- `%0*d`
unfoldable pub zero_pad : ℕ → Bytes → Bytes
zero_pad width bs = replicate (width - length bs) 48 ++ bs

-- `strings.TrimRight(s, "0")`
abbrev pub attach : ℕ → Bytes → Bytes
attach b [] = if b == 48 then [] else b ∷ []
attach b (x ∷ xs) = b ∷ x ∷ xs

unfoldable pub trim_zeros : Bytes → Bytes
trim_zeros [] = []
trim_zeros (b ∷ bs) = attach b (trim_zeros bs)

unfoldable pub format_amount : ℕ → Bytes
unfolding decimal zero_pad trim_zeros
format_amount base =
    let whole = base / base_units_per_coin in
    let frac = base % base_units_per_coin in
    let unit : Bytes = 32 ∷ display_denom in
    let frac_str = trim_zeros (zero_pad precision (decimal frac)) in
    if frac == 0 then decimal whole ++ unit else decimal whole ++ (46 ∷ (frac_str ++ unit))
