-- ===== src/Round/Wait.antt =====
-- `waitFor` of chain/consensus.go: which message it takes, and what becomes of the others.
use dylchain.Base.{
  ◌≡◌, refl, sym, ap, ◌∙◌, inl, inr, Bool, true, false, none, some, List, [], ◌∷◌, ◌++◌,
  append_assoc, arith, Bool-cases, Option-cases, All, All-append,
}
use dylchain.Crypto.{Crypto}
use dylchain.Vote.{Vote}
use dylchain.Node.{
  Node, Message, proposal_msg, vote_msg, observe, observe_vote, compare_votes, convict,
}
use dylchain.Round.{Waited, take_pending, take_inbox, wait_for, stash}

-- What a wait leaves alone in a node.
pub record SameCore (n m : Node) : Type 0 where
  pub same_election : m.election ≡ n.election
  pub same_chain : m.chain ≡ n.chain
  pub same_self : m.self ≡ n.self

pub SameCore-refl : (n : Node) → SameCore n n
SameCore-refl n = record { same_election = refl; same_chain = refl; same_self = refl }

pub SameCore-trans : (n m k : Node) → SameCore n m → SameCore m k → SameCore n k
SameCore-trans n m k a b = record {
  same_election = b.same_election ∙ a.same_election;
  same_chain = b.same_chain ∙ a.same_chain;
  same_self = b.same_self ∙ a.same_self;
}

-- None of the messages fits.
abbrev pub NoneFits : (Message → Bool) → List Message → Type 0
NoneFits fits = All (λ m. fits m ≡ false)

take_pending-none :
    (fits : Message → Bool) (ms : List Message) → take_pending fits ms ≡ none → NoneFits fits ms
unfolding take_pending
take_pending-none fits [] h = tt
take_pending-none fits (m ∷ ms) h = elim (Bool-cases (fits m)) [
  | inl yes_m ↦ let h' = rw (yes_m, take_pending) at h in absurd (ground arith)
  | inr no_m ↦ elim (Option-cases (take_pending fits ms)) [
    | inl nothing ↦ (no_m, take_pending-none fits ms nothing)
    | inr (p, found) ↦ let h' = rw (no_m, found, take_pending) at h in absurd (ground arith)
  ]
]

-- The messages split at the one that is taken.
pub record Split (fits : Message → Bool) (ms : List Message) (m : Message) (rest : List Message)
    : Type 0 where
  pub before : List Message
  pub after : List Message
  pub whole : ms ≡ before ++ m ∷ after
  pub left : rest ≡ before ++ after
  pub passed : NoneFits fits before
  pub taken : fits m ≡ true

take_pending-some :
    (fits : Message → Bool) (ms : List Message) (m : Message) (rest : List Message)
    → take_pending fits ms ≡ some (m, rest)
    → Split fits ms m rest
unfolding take_pending
take_pending-some fits [] m rest h = absurd (ground arith)
take_pending-some fits (x ∷ ms) m rest h = elim (Bool-cases (fits x)) [
  | inl fit ↦
      let h' = rw (fit, take_pending) at h in
      let e : x ≡ m = cc in
      let e' : ms ≡ rest = cc in
      record {
        before = [];
        after = ms;
        whole = ap (λ y. y ∷ ms) e;
        left = sym e';
        passed = tt;
        taken = ap fits (sym e) ∙ fit;
      }
  | inr unfit ↦ elim (Option-cases (take_pending fits ms)) [
    | inl nothing ↦ let h' = rw (unfit, nothing, take_pending) at h in absurd (ground arith)
    | inr ((y, ys), found) ↦
        let h' = rw (unfit, found, take_pending) at h in
        let e : y ≡ m = cc in
        let e' : x ∷ ys ≡ rest = cc in
        let p = take_pending-some fits ms m ys (found ∙ ap (λ z. some (z, ys)) e) in
        record {
          before = x ∷ p.before;
          after = p.after;
          whole = ap (λ z. x ∷ z) p.whole;
          left = sym e' ∙ ap (λ z. x ∷ z) p.left;
          passed = (unfit, p.passed);
          taken = p.taken;
        }
  ]
]

module _ ⦃c : Crypto⦄ where
  observe_vote-SameCore :
      (v : Vote) (n : Node)
      → SameCore n (observe_vote v n) × ((observe_vote v n).pending ≡ n.pending)
  unfolding observe_vote compare_votes convict
  observe_vote-SameCore v n = (
    record { same_election = ground arith; same_chain = ground arith; same_self = ground arith },
    ground arith,
  )

  observe-SameCore :
      (m : Message) (n : Node) → SameCore n (observe m n) × ((observe m n).pending ≡ n.pending)
  unfolding observe
  observe-SameCore (proposal_msg b) n = (SameCore-refl n, refl)
  observe-SameCore (vote_msg v) n = observe_vote-SameCore v n

  take_inbox-none :
      (fits : Message → Bool) (ms : List Message) (n : Node)
      → take_inbox fits ms n ≡ none
      → NoneFits fits ms
  unfolding take_inbox
  take_inbox-none fits [] n h = tt
  take_inbox-none fits (m ∷ ms) n h = elim (Bool-cases (fits m)) [
    | inl fit ↦ let h' = rw (fit, take_inbox) at h in absurd (ground arith)
    | inr unfit ↦
        (unfit, take_inbox-none fits ms (stash m (observe m n)) (rw (unfit, take_inbox) at h))
  ]

  take_inbox-some :
      (fits : Message → Bool) (ms : List Message) (n : Node) (w : Waited)
      → NoneFits fits n.pending
      → take_inbox fits ms n ≡ some w
      → Split fits (n.pending ++ ms) w.message (w.node.pending ++ w.inbox) × SameCore n w.node
  unfolding take_inbox
  take_inbox-some fits [] n w unfits h = absurd (ground arith)
  take_inbox-some fits (m ∷ ms) n w unfits h = elim (Bool-cases (fits m)) [
    | inl fit ↦
        let (core, kept) = observe-SameCore m n in
        let h' = rw (fit, take_inbox) at h in
        let at_w : record { message = m; node = observe m n; inbox = ms } ≡ w = cc in
        rw (← at_w) (
          record {
            before = n.pending;
            after = ms;
            whole = refl;
            left = ap (λ p. p ++ ms) kept;
            passed = unfits;
            taken = fit;
          },
          core,
        )
    | inr unfit ↦
        let (core, kept) = observe-SameCore m n in
        let n1 = stash m (observe m n) in
        let put : n1.pending ≡ n.pending ++ m ∷ [] = ap (λ p. p ++ m ∷ []) kept in
        let no1 : NoneFits fits n1.pending =
          rw put (All-append (λ x. fits x ≡ false) n.pending (m ∷ []) unfits (unfit, tt)) in
        let (s, core1) = take_inbox-some fits ms n1 w no1 (rw (unfit, take_inbox) at h) in
        let same : n1.pending ++ ms ≡ n.pending ++ m ∷ ms =
          ap (λ p. p ++ ms) put ∙ append_assoc n.pending (m ∷ []) ms in
        (
          record {
            before = s.before;
            after = s.after;
            whole = sym same ∙ s.whole;
            left = s.left;
            passed = s.passed;
            taken = s.taken;
          },
          SameCore-trans n n1 w.node
              (record {
                same_election = core.same_election;
                same_chain = core.same_chain;
                same_self = core.same_self;
              })
              core1,
        )
  ]

  -- A wait that ends has taken the first message that fits, out of the stash and then the inbox; the
  -- others it leaves in that order, and it leaves the election and the chain alone.
  pub wait_for-some :
      (fits : Message → Bool) (inbox : List Message) (n : Node) (w : Waited)
      → wait_for fits inbox n ≡ some w
      → Split fits (n.pending ++ inbox) w.message (w.node.pending ++ w.inbox) × SameCore n w.node
  unfolding wait_for
  wait_for-some fits inbox n w h = elim (Option-cases (take_pending fits n.pending)) [
    | inl nothing ↦
        take_inbox-some fits inbox n w (take_pending-none fits n.pending nothing)
          (rw (nothing, wait_for) at h)
    | inr ((m, rest), found) ↦
        let s = take_pending-some fits n.pending m rest found in
        let h' = rw (found, wait_for) at h in
        let at_w : record { message = m; node = record n { pending = rest }; inbox = inbox } ≡ w =
          cc in
        rw (← at_w) (
          record {
            before = s.before;
            after = s.after ++ inbox;
            whole = ap (λ p. p ++ inbox) s.whole ∙ append_assoc s.before (m ∷ s.after) inbox;
            left = ap (λ p. p ++ inbox) s.left ∙ append_assoc s.before s.after inbox;
            passed = s.passed;
            taken = s.taken;
          },
          record { same_election = refl; same_chain = refl; same_self = refl },
        )
  ]

  pub wait_for-none :
      (fits : Message → Bool) (inbox : List Message) (n : Node)
      → wait_for fits inbox n ≡ none
      → NoneFits fits (n.pending ++ inbox)
  unfolding wait_for
  wait_for-none fits inbox n h = elim (Option-cases (take_pending fits n.pending)) [
    | inl nothing ↦
        All-append (λ m. fits m ≡ false) n.pending inbox (take_pending-none fits n.pending nothing)
          (take_inbox-none fits inbox n (rw (nothing, wait_for) at h))
    | inr (p, found) ↦ let h' = rw (found, wait_for) at h in absurd (ground arith)
  ]
