-- ===== src/BlockLog/Resume.antt =====
-- What cmd/dyld/persist.go reads of a log that it has appended to.
use dylchain.Base.{
  ◌<◌, ◌≡◌, refl, sym, ap, ◌∙◌, ◌⊎◌, inl, inr, true, false, Option, none, some, List, [], ◌∷◌, ◌++◌,
  append_assoc, append-nil, arith, leb, ◌==◌, Bool-cases, Option-cases, length, All,
}
use dylchain.Bytes.{Bytes}
use dylchain.Block.{Block}
use dylchain.BlockLog.{
  BlockJson, newline, max_line, split_lines, drop_cr, is_empty, joined, parse_line, parse_lines,
  read, append, append_all,
}

-- The file is empty, or its last line has ended.
abbrev pub IsWhole : Bytes → Type 0
IsWhole file = (file ≡ []) ⊎ ((x : Bytes) × (file ≡ x ++ newline ∷ []))

-- The block is one of the list.
abbrev pub Among : Block → List Block → Type 0
Among b [] = true ≡ false
Among b (x ∷ xs) = (b ≡ x) ⊎ Among b xs

-- What JSON gives for a block: one line, of visible text at both ends, that fits the scanner and gives
-- the block back.
pub record Logged ⦃j : BlockJson⦄ (b : Block) : Type 0 where
  pub line : Bytes
  pub marshalled : j.marshal b ≡ some line
  pub parsed : j.unmarshal line ≡ some b
  pub one_line : All (λ x. (x == newline) ≡ false) line
  pub trimmed : j.trim_space (drop_cr line) ≡ line
  pub not_empty : is_empty line ≡ false
  pub short : length line < max_line

split_lines-line :
    (acc line rest : Bytes)
    → All (λ x. (x == newline) ≡ false) line
    → split_lines acc (line ++ newline ∷ rest) ≡ (acc ++ line) ∷ split_lines [] rest
unfolding split_lines
split_lines-line [] [] rest clean = refl
split_lines-line (a ∷ acc) [] rest clean =
    ap (λ x. (a ∷ x) ∷ split_lines [] rest) (sym (append-nil acc))
split_lines-line [] (b ∷ line) rest clean =
    rw (clean.0, split_lines) (split_lines-line (b ∷ []) line rest clean.1)
split_lines-line (a ∷ acc) (b ∷ line) rest clean =
    rw (clean.0, split_lines)
      (split_lines-line (a ∷ acc ++ b ∷ []) line rest clean.1
        ∙ ap (λ x. (a ∷ x) ∷ split_lines [] rest) (append_assoc acc (b ∷ []) line))

split_lines-append :
    (acc x more : Bytes)
    → split_lines acc ((x ++ newline ∷ []) ++ more)
      ≡ split_lines acc (x ++ newline ∷ []) ++ split_lines [] more
unfolding split_lines
split_lines-append [] [] more = refl
split_lines-append (a ∷ acc) [] more = refl
split_lines-append [] (b ∷ x) more = elim (Bool-cases (b == newline)) [
  | inl end ↦ rw (end, split_lines) (ap (λ ls. [] ∷ ls) (split_lines-append [] x more))
  | inr inside ↦ rw (inside, split_lines) (split_lines-append (b ∷ []) x more)
]
split_lines-append (a ∷ acc) (b ∷ x) more = elim (Bool-cases (b == newline)) [
  | inl end ↦ rw (end, split_lines) (ap (λ ls. (a ∷ acc) ∷ ls) (split_lines-append [] x more))
  | inr inside ↦ rw (inside, split_lines) (split_lines-append (a ∷ acc ++ b ∷ []) x more)
]

split_lines-whole :
    (file more : Bytes)
    → IsWhole file
    → split_lines [] (file ++ more) ≡ split_lines [] file ++ split_lines [] more
unfolding split_lines
split_lines-whole file more (inl empty) = rw empty refl
split_lines-whole file more (inr (x, ended)) = rw ended (split_lines-append [] x more)

joined_assoc : (a b c : Option (List Block)) → joined (joined a b) c ≡ joined a (joined b c)
joined_assoc none b c = refl
joined_assoc (some x) none c = refl
joined_assoc (some x) (some y) none = refl
joined_assoc (some x) (some y) (some z) = ap some (append_assoc x y z)

joined-empty : (a : Option (List Block)) → joined (some []) a ≡ a
joined-empty none = refl
joined-empty (some x) = refl

joined-none : (a : Option (List Block)) → joined a none ≡ none
joined-none none = refl
joined-none (some x) = refl

joined-nil : (a : Option (List Block)) → joined a (some []) ≡ a
joined-nil none = refl
joined-nil (some x) = ap some (append-nil x)

module _ ⦃j : BlockJson⦄ where
  parse_lines-append :
      (ls ks : List Bytes) → parse_lines (ls ++ ks) ≡ joined (parse_lines ls) (parse_lines ks)
  unfolding parse_lines
  parse_lines-append [] ks = sym (joined-empty (parse_lines ks))
  parse_lines-append (l ∷ ls) ks =
      ap (joined (parse_line l)) (parse_lines-append ls ks)
      ∙ sym (joined_assoc (parse_line l) (parse_lines ls) (parse_lines ks))

  parse_line-Logged : (b : Block) (g : Logged b) → parse_line g.line ≡ some (b ∷ [])
  unfolding parse_line
  parse_line-Logged b g =
      let fits : leb max_line (length g.line) ≡ false = ground (arith, g.short) in
      rw (g.trimmed, parse_line) (rw (fits, g.not_empty, g.parsed) refl)

  append-IsWhole : (b : Block) (file : Bytes) → IsWhole file → IsWhole (append b file)
  unfolding append
  append-IsWhole b file whole = elim (Option-cases (j.marshal b)) [
    | inl nothing ↦ rw (nothing, append) whole
    | inr (line, found) ↦ rw (found, append) (inr (file ++ line, refl))
  ]

  read-append :
      (b : Block) (file : Bytes)
      → Logged b
      → IsWhole file
      → read (append b file) ≡ joined (read file) (some (b ∷ []))
  unfolding read append split_lines parse_lines
  read-append b file g whole =
      let end : Bytes = newline ∷ [] in
      let appended : append b file ≡ file ++ (g.line ++ end) =
        rw (g.marshalled, append) (append_assoc file g.line end) in
      let parts : split_lines [] (file ++ (g.line ++ end)) ≡ split_lines [] file ++ g.line ∷ [] =
        split_lines-whole file (g.line ++ end) whole
        ∙ ap (λ ls. split_lines [] file ++ ls) (split_lines-line [] g.line [] g.one_line) in
      let one : parse_lines (g.line ∷ []) ≡ some (b ∷ []) =
        ap (λ r. joined r (some [])) (parse_line-Logged b g) in
      ap read appended
      ∙ ap parse_lines parts
      ∙ parse_lines-append (split_lines [] file) (g.line ∷ [])
      ∙ ap (joined (parse_lines (split_lines [] file))) one

  -- A log that is empty or ends with the end of a line, to which blocks are appended, is read as the
  -- blocks that it held and then the new ones in their order, and is refused only if it was before.
  -- For each new block JSON gives one line, not empty and with no space at its ends, shorter than 32
  -- MiB, which it parses to the same block.
  pub read-append_all :
      (bs : List Block) (file : Bytes)
      → ((b : Block) → Among b bs → Logged b)
      → IsWhole file
      → read (append_all bs file) ≡ joined (read file) (some bs)
  unfolding append_all
  read-append_all [] file logged whole = sym (joined-nil (read file))
  read-append_all (b ∷ bs) file logged whole =
      read-append_all bs (append b file) (λ x among. logged x (inr among))
        (append-IsWhole b file whole)
      ∙ ap (λ r. joined r (some bs)) (read-append b file (logged b (inl refl)) whole)
      ∙ joined_assoc (read file) (some (b ∷ [])) (some bs)
