-- ===== src/BlockLog.antt =====
-- cmd/dyld/persist.go: the append-only log of blocks, as the bytes of its file. JSON and the white
-- space that `bytes.TrimSpace` cuts are a parameter; the file system does not fail.
pub mod Resume
pub mod Restart
use dylchain.Base.{
  ℕ, zero, suc, ◌+◌, ◌-◌, ◌*◌, ◌/◌, ◌%◌, ◌^◌, ◌≤◌, ◌<◌, ◌≡◌, refl, sym, ap, ◌∙◌, subst, ◌≢◌, ◌↔◌,
  ◌⊎◌, inl, inr, Bool, true, false, not, ◌&&◌, ◌||◌, Option, none, some, List, [], ◌∷◌, ◌++◌, map,
  append_assoc, append-nil, arith, ltb, leb, ◌==◌, if◌then◌else◌, ltb→lt, lt→ltb, leb→le, ==_iff,
  tests, Bool-cases, Option-cases, if_cases, length, get_elem?, set, take, drop, replicate, All,
  length-append, length-set, take-append-drop, length-take, length-drop, length-map, All-append,
  append-injective, Result-cases, >>=-eq-some, Result, ok, err, ◌>>=◌,
}
use dylchain.Bytes.{Bytes}
use dylchain.Block.{Block}

pub record BlockJson : Type 0 where
  pub marshal : Block → Option Bytes
  pub unmarshal : Bytes → Option Block
  pub trim_space : Bytes → Bytes

abbrev pub newline : ℕ
newline = 10

-- The buffer of the scanner, which holds a line and its end.
abbrev pub max_line : ℕ
max_line = 32 * 1024 * 1024

-- `bufio.ScanLines`, before it drops a carriage return: the lines, and what follows the last line's
-- end if it is not empty. `acc` is what was read of the line.
unfoldable pub split_lines : Bytes → Bytes → List Bytes
split_lines [] [] = []
split_lines (a ∷ acc) [] = (a ∷ acc) ∷ []
split_lines acc (b ∷ bs) = elim (b == newline) [
  | true ↦ acc ∷ split_lines [] bs
  | false ↦ split_lines (acc ++ b ∷ []) bs
]

unfoldable pub drop_cr : Bytes → Bytes
drop_cr [] = []
drop_cr (b ∷ []) = if b == 13 then [] else b ∷ []
drop_cr (b ∷ x ∷ xs) = b ∷ drop_cr (x ∷ xs)

abbrev pub is_empty : Bytes → Bool
is_empty [] = true
is_empty (b ∷ bs) = false

-- The blocks of one part of a file, then those of the rest. `none` is fatal.
abbrev pub joined : Option (List Block) → Option (List Block) → Option (List Block)
joined none after = none
joined (some before) none = none
joined (some before) (some after) = some (before ++ after)

module _ ⦃j : BlockJson⦄ where
  -- The block of a line, none of a blank one. It is fatal if a line does not fit the buffer or does
  -- not parse.
  unfoldable pub parse_line : Bytes → Option (List Block)
  unfolding drop_cr
  parse_line l =
      let line = j.trim_space (drop_cr l) in
      if leb max_line (length l)
      then none
      else if is_empty line
      then some []
      else (do b ← j.unmarshal line; some (b ∷ []))

  -- The loop of `read`.
  unfoldable pub parse_lines : List Bytes → Option (List Block)
  unfolding parse_line
  parse_lines [] = some []
  parse_lines (l ∷ ls) = joined (parse_line l) (parse_lines ls)

  unfoldable pub read : Bytes → Option (List Block)
  unfolding split_lines parse_lines
  read file = parse_lines (split_lines [] file)

  -- A block that does not marshal is left out.
  unfoldable pub append : Block → Bytes → Bytes
  append b file = elim (j.marshal b) [ none ↦ file | some line ↦ file ++ line ++ newline ∷ [] ]

  unfoldable pub append_all : List Block → Bytes → Bytes
  unfolding append
  append_all [] file = file
  append_all (b ∷ bs) file = append_all bs (append b file)
