-- ===== src/Dict/Erased.antt =====
-- Go maps after a deletion: what is found was there before.
use dylchain.Base.{
  ◌≡◌, sym, ap, ◌∙◌, ◌≢◌, inl, inr, Bool, true, false, Option, none, some, arith, Bool-cases,
  Option-cases,
}
use dylchain.Bytes.{Bytes, equal, equal_iff}
use dylchain.Dict.{
  Dict, lookup, get_or, erase, IsMap, lookup-erase_ne, get_or-eq-lookup, lookup-erase_self,
}

pub some-ne-none : {V : Type 0} (v : V) → Path (Option V) (some v) none → Path Bool true false
some-ne-none v h = absurd (ground (arith, h))

pub true-ne-false : true ≢ false
true-ne-false h = ground arith

pub lookup_erased :
    {V : Type 0} (a k : Bytes) (d : Dict V) (v : V)
    → IsMap d
    → lookup a (erase k d) ≡ some v
    → lookup a d ≡ some v
lookup_erased a k d v m h = elim (Bool-cases (equal a k)) [
  | inl same ↦
      let gone = lookup-erase_self k d m in
      let e = (equal_iff a k).0 same in
      absurd (true-ne-false (some-ne-none v (sym h ∙ ap (λ x. lookup x (erase k d)) e ∙ gone)))
  | inr other ↦
      sym (lookup-erase_ne a k d (λ e. true-ne-false (sym ((equal_iff a k).1 e) ∙ other))) ∙ h
]

pub get_or_erased :
    (a k : Bytes) (d : Dict Bool)
    → IsMap d
    → get_or (erase k d) a false ≡ true
    → get_or d a false ≡ true
get_or_erased a k d m h =
    let e = get_or-eq-lookup (erase k d) a false in
    elim (Option-cases (lookup a (erase k d))) [
      | inl gone ↦ let h' = rw gone at e in cc
      | inr (v, there) ↦
          let old = lookup_erased a k d v m there in
          let e0 = get_or-eq-lookup d a false in
          let e1 = rw there at e in let e2 = rw old at e0 in cc
    ]
