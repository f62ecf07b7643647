-- ===== src/Cluster/Windows.antt =====
-- The feeds of chain/cluster.go that are cut to their last entries.
use dylchain.Base.{
  ℕ, zero, suc, ◌+◌, ◌-◌, ◌≤◌, ◌≡◌, refl, sym, ap, ◌∙◌, inl, inr, List, [], ◌∷◌, ◌++◌, arith, ltb,
  Bool-cases, length, drop, length-append, length-drop,
}
use dylchain.Cluster.{keep_last}

drop-append {ℓ} :
    {A : Type ℓ} (n : ℕ) (xs ys : List A) → n ≤ length xs → drop n (xs ++ ys) ≡ drop n xs ++ ys
drop-append zero xs ys h = refl
drop-append (suc n) [] ys h = absurd (omega arith)
drop-append (suc n) (x ∷ xs) ys h = drop-append n xs ys (omega arith)

drop-nil {ℓ} : {A : Type ℓ} (n : ℕ) → drop {A = A} n [] ≡ []
drop-nil zero = refl
drop-nil (suc n) = refl

drop-drop {ℓ} : {A : Type ℓ} (n m : ℕ) (xs : List A) → drop n (drop m xs) ≡ drop (m + n) xs
drop-drop n zero xs = let e : n ≡ 0 + n = omega arith in ap (λ k. drop k xs) e
drop-drop n (suc m) [] = drop-nil n ∙ sym (drop-nil (suc m + n))
drop-drop n (suc m) (x ∷ xs) =
    let e : suc (m + n) ≡ suc m + n = omega arith in drop-drop n m xs ∙ ap (λ k. drop k (x ∷ xs)) e

keep_last-drop {ℓ} : {A : Type ℓ} (n : ℕ) (xs : List A) → keep_last n xs ≡ drop (length xs - n) xs
unfolding keep_last
keep_last-drop n xs = elim (Bool-cases (ltb n (length xs))) [
  | inl long ↦ rw long refl
  | inr short ↦ let z : length xs - n ≡ 0 = ground arith in rw (short, z) refl
]

pub length-keep_last {ℓ} : {A : Type ℓ} (n : ℕ) (xs : List A) → length (keep_last n xs) ≤ n
length-keep_last n xs = rw (keep_last-drop n xs) (rw (length-drop (length xs - n) xs) (omega arith))

-- Cutting before an append makes no difference to the cut after it.
pub keep_last-append {ℓ} :
    {A : Type ℓ} (n : ℕ) (xs ys : List A)
    → keep_last n (keep_last n xs ++ ys) ≡ keep_last n (xs ++ ys)
keep_last-append n xs ys =
    let k = length xs - n in
    let cut = keep_last-drop n xs in
    let front = sym (drop-append k xs ys (omega arith)) in
    let l = length-append xs ys in
    let d = length-drop k (xs ++ ys) in
    let e : k + (length (drop k (xs ++ ys)) - n) ≡ length (xs ++ ys) - n = omega arith in
    ap (λ zs. keep_last n (zs ++ ys)) cut
    ∙ ap (keep_last n) front
    ∙ keep_last-drop n (drop k (xs ++ ys))
    ∙ drop-drop (length (drop k (xs ++ ys)) - n) k (xs ++ ys)
    ∙ ap (λ m. drop m (xs ++ ys)) e
    ∙ sym (keep_last-drop n (xs ++ ys))
