-- ===== src/World/Mirror.antt =====
-- The world of a page in cmd/dylwasm/main.go beside the server in cmd/dyld/main.go.
use dylchain.Base.{
  ℕ, suc, [], ◌∷◌, drop, ◌*◌, ◌%◌, ◌≡◌, refl, Bool, true, false, Option, none, some, List, leb,
  ◌==◌, if◌then◌else◌, get_elem?, ◌>>=◌,
}
use dylchain.Base.Int.{u64_mod, ℤ, pos, negsuc}
use dylchain.Bytes.{Bytes, text}
use dylchain.Dict.{Dict}
use dylchain.Network.{Floats, ValidatorInfo, snapshot, size, faulty, make_faulty}
use dylchain.Server.{Server}
use dylchain.Server.Requests.{Decoders, Request, Reply, no_body, reject}
use dylchain.Node.{Node}
use dylchain.Server.Faults
use dylchain.World.{
  World, WorldError, out_of_range, over_budget, Call, add_lost, count_lost, spend_budget, fault,
}

-- A page with what the server holds, but for the addresses that it has seen.
abbrev pub page : {F : Type 0} → Server F → List Bytes → Dict Bool → World
page s seen_list seen_set = record {
  network = s.network;
  faucet = s.faucet;
  accounts = s.accounts;
  orig_stake = s.orig_stake;
  orig_total = s.orig_total;
  nonces = s.nonces;
  seen_list = seen_list;
  seen_set = seen_set;
  last_faucet = s.last_faucet;
}

-- The error that a page gives for the status of an answer to `/fault`.
abbrev pub error_for : ℕ → Option WorldError
error_for status =
    if status == 202 then none else some (if status == 409 then over_budget else out_of_range)

-- What a page does, for what the server does.
abbrev pub on_page : {F : Type 0} → List Bytes → Dict Bool → Reply F → Call
on_page seen_list seen_set none = none
on_page seen_list seen_set (some (s, a)) = some (page s seen_list seen_set, error_for a.status)

module _ {F : Type 0} (l : List Bytes) (m : Dict Bool) where
  bind-same :
      {A : Type 0} (p : Option A) (k : A → Reply F) (k' : A → Call)
      → ((a : A) → k' a ≡ on_page l m (k a))
      → (p >>= k') ≡ on_page l m (p >>= k)
  bind-same none k k' same = refl
  bind-same (some a) k k' same = same a

  if-same :
      (b : Bool) (x y : Reply F) (x' y' : Call)
      → x' ≡ on_page l m x
      → y' ≡ on_page l m y
      → (if b then x' else y') ≡ on_page l m (if b then x else y)
  if-same true x y x' y' then_same else_same = then_same
  if-same false x y x' y' then_same else_same = else_same

module _ {F : Type 0} where
  add_lost-same :
      (v : ValidatorInfo F) (stakes : List ℕ) (nodes : List Node) (lost : ℕ)
      → add_lost v stakes nodes lost ≡ Faults.add_lost v stakes nodes lost
  unfolding add_lost Faults.add_lost
  add_lost-same v stakes [] lost = refl
  add_lost-same v stakes (n ∷ nodes) lost = refl

  count_lost-same :
      (index i : ℕ) (vs : List (ValidatorInfo F)) (stakes : List ℕ) (nodes : List Node) (lost : ℕ)
      → count_lost index i vs stakes nodes lost ≡ Faults.count_lost index i vs stakes nodes lost
  unfolding count_lost Faults.count_lost
  count_lost-same index i [] stakes nodes lost = refl
  count_lost-same index i (v ∷ vs) stakes nodes lost = λ k.
      (if i == index then some lost else add_lost-same v stakes nodes lost k) >>= λ next.
      count_lost-same index (suc i) vs (drop 1 stakes) (drop 1 nodes) next k

module _ ⦃f : Floats⦄ ⦃d : Decoders⦄ (l : List Bytes) (m : Dict Bool) where
  spend_budget-same :
      (index : ℕ) (s : Server f.Number)
      → spend_budget index (page s l m) ≡ on_page l m (Faults.spend_budget index s)
  unfolding spend_budget Faults.spend_budget
  spend_budget-same index s = bind-same l m (get_elem? s.orig_stake index) _ _ (λ own.
      let vs = (snapshot s.network).validators in
      rw (count_lost-same index 0 vs s.orig_stake s.network.nodes own) (
        bind-same l m (Faults.count_lost index 0 vs s.orig_stake s.network.nodes own) _ _ (λ lost.
          if-same l m (leb s.orig_total (3 * lost % u64_mod)) _ _ _ _ refl
            (bind-same l m (make_faulty s.network index) _ _ (λ n. refl)))))

  fault-index :
      (index : ℕ) (s : Server f.Number)
      → fault (pos index) (page s l m)
        ≡ on_page l m (
            if leb (size s.network) index then reject 400 (text "index out of range") s else (do
              already ← faulty s.network index
              if already
                  then some (s, record { status = 202; body = no_body })
                  else Faults.spend_budget index s))
  unfolding fault
  fault-index index s = if-same l m (leb (size s.network) index) _ _ _ _ refl (
      bind-same l m (faulty s.network index) _ _
        (λ already. if-same l m already _ _ _ _ refl (spend_budget-same index s)))

  -- A page answers a request for a fault as the server does, from the same cluster and the same stakes
  -- at genesis, whatever addresses each has seen: it panics when the server does, leaves the same
  -- cluster, makes the same validator faulty, and gives an error just for an answer that is not 202,
  -- the budget's for 409. The server's request is one whose body decodes to the index.
  pub fault-handle_fault :
      (now index : ℤ) (r : Request) (s : Server f.Number)
      → d.decode_index r.body ≡ some index
      → fault index (page s l m) ≡ on_page l m (Faults.handle_fault now r s)
  unfolding Faults.handle_fault fault
  fault-handle_fault now (negsuc k) r s decoded = rw (decoded, Faults.handle_fault) refl
  fault-handle_fault now (pos index) r s decoded =
      rw (decoded, Faults.handle_fault) (fault-index index s)
