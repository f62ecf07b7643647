-- ===== src/Tests/Servers.antt =====
-- The server's state and its log of blocks at concrete inputs.
use dylchain.Base.{
  ℕ, ◌+◌, ◌-◌, ◌*◌, ◌/◌, ◌≡◌, refl, sym, subst, inl, inr, Option, none, some, [], ◌∷◌, arith, ltb,
  length,
}
use dylchain.Base.Int.{ℤ, pos, negsuc}
use dylchain.Bytes.{Bytes, equal}
use dylchain.Dict.{lookup, get_or}
use dylchain.Block.{Block}
use dylchain.Transaction.{kind_transfer}
use dylchain.Validators.{Validator}
use dylchain.Network.{Floats}
use dylchain.Limits.{IpLimiters}
use dylchain.Server.{Server, mark_seen, send, signed, next_nonce}
use dylchain.Server.Requests.{Decoders, Request, get}
use dylchain.Server.Faults.{handle_fault}
use dylchain.Server.Seen.{IsSeen, mark_seen-IsSeen}
use dylchain.Server.Wallets.{Settled, send-settles}
use dylchain.Server.Budget.{StayWithin, handle_fault-Within}
use dylchain.World
use dylchain.World.Mirror.{page, on_page, fault-handle_fault}
use dylchain.BlockLog.{BlockJson, read, append_all, joined}
use dylchain.BlockLog.Resume.{Among, Logged, read-append_all}
use dylchain.Tests.Fixtures.{toy, toy_laws, alice_key, alice, bob, queue, blank}
use dylchain.Tests.Rounds.{listener}

-- Whole numbers for the floating-point ones.
instance abbrev whole_numbers : Floats
whole_numbers = record {
  Number = ℕ;
  of_uint64 = λ n. n;
  plus = λ x y. x + y;
  minus = λ x y. x - y;
  times = λ x y. x * y;
  over = λ x y. x / y;
  less = ltb;
  seconds = λ t. 0;
}

-- A body asks for the validator whose index is its length.
instance abbrev length_asked : Decoders
length_asked = record {
  decode_transaction = λ b. none;
  decode_address = λ b. some bob;
  decode_index = λ b. some (pos (length b));
  parse_int = λ b. some (pos 1);
  split_host = λ b. some b;
}

abbrev member : ℕ → Validator
member a = record { address = a ∷ []; priv_key = []; stake = 10; orig_stake = 10; moniker = [] }

abbrev buckets : IpLimiters ℕ
buckets = record {
  buckets = [];
  order = [];
  rate = 5;
  burst = 20;
  max = 4096;
  global = record { tokens = 200; burst = 200; rate = 100; last = pos 0 };
}

-- Four validators of one stake each, none of them faulty.
abbrev quiet : Server ℕ
quiet = record {
  network = record {
    live = blank;
    mempool = queue;
    set = member 1 ∷ member 2 ∷ member 3 ∷ member 4 ∷ [];
    nodes = listener ∷ listener ∷ listener ∷ listener ∷ [];
  };
  faucet = record { priv_key = alice_key; address = alice };
  accounts = [];
  writes = buckets;
  reads = buckets;
  viewers = pos 0;
  orig_stake = 10 ∷ 10 ∷ 10 ∷ 10 ∷ [];
  orig_total = 40;
  nonces = [];
  seen_list = [];
  seen_set = [];
  last_faucet = [];
  viewers_by_ip = [];
}

abbrev fault_request : Request
fault_request = record {
  method = get;
  remote_addr = [];
  body = [];
  address = [];
  height = [];
  tx_hash = [];
}

abbrev second_fault : Request
second_fault = record fault_request { body = 0 ∷ [] }

-- The budget lets the first validator turn faulty, and refuses the second.
handle_fault-Within_example : StayWithin ((pos 0, fault_request) ∷ (pos 1, second_fault) ∷ []) quiet
unfolding get_or
handle_fault-Within_example =
    handle_fault-Within ((pos 0, fault_request) ∷ (pos 1, second_fault) ∷ []) quiet
      (record { stakes = refl; nodes = refl; fits = omega arith }) (record { below = omega arith })

send-settles_example :
    Settled blank queue alice 0
      (signed kind_transfer quiet.faucet bob 5 (pos 0))
      (send blank queue [] kind_transfer quiet.faucet bob 5)
unfolding equal dylchain.Address.derive_address alice dylchain.Address.valid_address
    dylchain.Address.pub_key_from_address bob dylchain.Address.Hex.decode_string next_nonce get_or
send-settles_example =
    send-settles toy_laws blank queue [] quiet.faucet bob 5 0 refl refl refl refl refl (omega arith)

none-IsSeen : IsSeen [] []
unfolding lookup dylchain.Quorum.has
none-IsSeen = record {
  bounded = omega arith;
  distinct = tt;
  map_of = tt;
  known = λ a. refl;
  values = λ a v found. absurd (ground (arith, found));
}

mark_seen-IsSeen_example :
    (s' : Server ℕ) × (mark_seen ((1 ∷ []) ∷ (2 ∷ []) ∷ []) quiet ≡ some s')
    × IsSeen s'.seen_list s'.seen_set
mark_seen-IsSeen_example = mark_seen-IsSeen ((1 ∷ []) ∷ (2 ∷ []) ∷ []) quiet none-IsSeen

fault-handle_fault_example :
    World.fault (pos 0) (page quiet [] [])
    ≡ on_page [] [] (handle_fault (pos 0) fault_request quiet)
fault-handle_fault_example = fault-handle_fault [] [] (pos 0) (pos 0) fault_request quiet refl

-- A block of the log, at a height.
abbrev logged_at : ℕ → Block
logged_at h = record {
  transactions = [];
  tx_root = [];
  previous_hash = [];
  created_at = pos 0;
  height = pos h;
  alloc = [];
  validators = [];
  proposer = [];
  signature = [];
}

abbrev height_of : ℤ → ℕ
height_of (pos h) = h
height_of (negsuc h) = 0

abbrev parsed : Bytes → Option Block
parsed [] = none
parsed (c ∷ bs) = some (logged_at (c - 48))

-- JSON that writes and reads only the height.
instance abbrev heights : BlockJson
heights = record {
  marshal = λ b. some ((48 + height_of b.height) ∷ []);
  unmarshal = parsed;
  trim_space = λ bs. bs;
}

first-Logged : Logged (logged_at 1)
unfolding dylchain.BlockLog.drop_cr
first-Logged = record {
  line = 49 ∷ [];
  marshalled = refl;
  parsed = refl;
  one_line = (refl, tt);
  trimmed = refl;
  not_empty = refl;
  short = omega arith;
}

second-Logged : Logged (logged_at 2)
unfolding dylchain.BlockLog.drop_cr
second-Logged = record {
  line = 50 ∷ [];
  marshalled = refl;
  parsed = refl;
  one_line = (refl, tt);
  trimmed = refl;
  not_empty = refl;
  short = omega arith;
}

two-Logged : (b : Block) → Among b (logged_at 1 ∷ logged_at 2 ∷ []) → Logged b
two-Logged b (inl here) = subst Logged (sym here) first-Logged
two-Logged b (inr (inl here)) = subst Logged (sym here) second-Logged
two-Logged b (inr (inr no_more)) = absurd (ground (arith, no_more))

read-append_all_example :
    read (append_all (logged_at 1 ∷ logged_at 2 ∷ []) [])
    ≡ joined (read []) (some (logged_at 1 ∷ logged_at 2 ∷ []))
read-append_all_example = read-append_all (logged_at 1 ∷ logged_at 2 ∷ []) [] two-Logged (inl refl)
