-- ===== src/Quorum/Elected.antt =====
-- `next` of chain/proposer.go leaves alone the weights that chain/consensus.go adds up.
use dylchain.Base.{
  inl, inr, ℕ, zero, suc, ◌+◌, ◌≡◌, refl, sym, ap, ◌∙◌, none, some, [], ◌∷◌, arith, Option-cases,
  get_elem?, set,
}
use dylchain.Base.Int.{pos, sub_i64}
use dylchain.Bytes.{Bytes}
use dylchain.Election.{Member, Election, next, raise, pick, add_weights, effective}
use dylchain.Quorum.Weights.{weight}

-- The weights do not move when a proposer is elected.
raise-weight : (e : Election) → weight (raise e) ≡ weight e
unfolding raise effective
raise-weight [] = refl
raise-weight (m ∷ ms) = let ih = raise-weight ms in ground arith

set-weight :
    (e : Election) (i : ℕ) (m m' : Member)
    → get_elem? e i ≡ some m
    → effective m' ≡ effective m
    → weight (set e i m') ≡ weight e
set-weight [] i m m' found same = absurd (ground arith)
set-weight (x ∷ e) zero m m' found same =
    let here : x ≡ m = cc in ap (λ w. w + weight e) (same ∙ ap effective (sym here))
set-weight (x ∷ e) (suc i) m m' found same =
    ap (λ w. effective x + w) (set-weight e i m m' found same)

pub next-weight : (e e' : Election) (a : Bytes) → next e ≡ some (a, e') → weight e' ≡ weight e
unfolding next effective
next-weight e e' a run = elim (Option-cases (pick 0 none (raise e))) [
  | inl nothing ↦ let run' = rw (nothing, next) at run in absurd (ground arith)
  | inr ((w, p), found) ↦ elim (Option-cases (get_elem? (raise e) w)) [
    | inl missing ↦ let run' = rw (found, missing, next) at run in absurd (ground arith)
    | inr (m, here) ↦
        let m' : Member = record m { priority = sub_i64 p (add_weights (pos 0) e) } in
        let run' = rw (found, here, next) at run in
        let same : set (raise e) w m' ≡ e' = cc in
        ap weight (sym same) ∙ set-weight (raise e) w m m' here refl ∙ raise-weight e
  ]
]
