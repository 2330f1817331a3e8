-- ===== src/Pbft/Node.antt =====
-- The state of a consensus node (pbft.go) and its vote counters (`set2DMap` of toolFuncs.go).
-- The chain, which the consensus reaches only through `ExtraOpInConsensus`, is kept apart.
-- Views and node numbers stay far below 2^31, so that Go's conversions between `int32`, `int` and
-- `uint64` do not change them.
use blockchain_sharding.Base.{
  ℕ, ◌+◌, ◌-◌, ◌/◌, ◌^◌, ◌≡◌, ◌↔◌, Bool, true, false, ◌&&◌, List, [], ◌∷◌, ◌++◌, Bytes, Dict,
  lookup_or, insert, contains, Eq, nat_eq, bytes_eq, nat_beq, nat_beq_iff, u64, arith,
  if◌then◌else◌,
}
use blockchain_sharding.Params.{ChainConfig}
use blockchain_sharding.Pbft.Messages.{NodeInfo, Request, Out}

-- `ViewChangeData`
pub record ViewChangeData : Type 0 where
  pub next_view : ℕ
  pub seq_id : ℕ

abbrev pub view_change_beq : ViewChangeData → ViewChangeData → Bool
view_change_beq a b = nat_beq a.next_view b.next_view && nat_beq a.seq_id b.seq_id

pub view_change_beq_iff : (a b : ViewChangeData) → (view_change_beq a b ≡ true) ↔ (a ≡ b)
view_change_beq_iff a b =
    ground (arith, nat_beq_iff a.next_view b.next_view, nat_beq_iff a.seq_id b.seq_id)

instance abbrev pub view_change_eq : Eq ViewChangeData
view_change_eq = record { beq = view_change_beq; beq_iff = view_change_beq_iff }

-- The votes for each digest. A vote is entered under the address of the decoded `shard.Node`.
abbrev pub Votes : Type 0
Votes = Dict Bytes (Dict ℕ Bool)

-- `sequence_lock` and `ask_for_lock` say whether the mutex is held; `next_addr` is the next address
-- that decoding a message allocates; `sent` is what the node has sent, oldest first.
pub record PbftState : Type 0 where
  pub running_node : NodeInfo
  pub shard_id : ℕ
  pub node_id : ℕ
  pub leader_ip : ℕ → Bytes
  pub node_nums : ℕ
  pub malicious_nums : ℕ
  pub view : ℕ
  pub last_commit_time : ℕ
  pub view_change_map : Dict ViewChangeData (Dict ℕ Bool)
  pub new_view_map : Dict ViewChangeData (Dict ℕ Bool)
  pub sequence_id : ℕ
  pub request_pool : Dict Bytes Request
  pub cnt_prepare_confirm : Votes
  pub cnt_commit_confirm : Votes
  pub is_commit_broadcast : Dict Bytes Bool
  pub is_reply : Dict Bytes Bool
  pub height2digest : Dict ℕ Bytes
  pub pbft_stage : ℕ
  pub seq_id_map : Dict ℕ ℕ
  pub sequence_lock : Bool
  pub ask_for_lock : Bool
  pub next_addr : ℕ
  pub sent : List Out

-- A node is its consensus state and the state of its message module, which holds the chain.
pub record Node (M : Type 0) : Type 0 where
  pub pbft : PbftState
  pub chain : M

-- f, with 3 f + 1 = N, as `uint64` computes it.
unfoldable pub malicious_nums_of : ℕ → ℕ
malicious_nums_of node_nums = u64 (node_nums + 2 ^ 64 - 1) / 3

-- `NewPbftNode`, for a chain whose current block has the given height.
unfoldable pub new_pbft_state : NodeInfo → (ℕ → Bytes) → ChainConfig → ℕ → ℕ → PbftState
unfolding malicious_nums_of
new_pbft_state info leader_ip pcc height now = record {
  running_node = info;
  shard_id = info.shard_id;
  node_id = info.node_id;
  leader_ip = leader_ip;
  node_nums = pcc.nodes_per_shard;
  malicious_nums = malicious_nums_of pcc.nodes_per_shard;
  view = 0;
  last_commit_time = now + 5000;
  view_change_map = [];
  new_view_map = [];
  sequence_id = u64 (height + 1);
  request_pool = [];
  cnt_prepare_confirm = [];
  cnt_commit_confirm = [];
  is_commit_broadcast = [];
  is_reply = [];
  height2digest = [];
  pbft_stage = 1;
  seq_id_map = [];
  sequence_lock = false;
  ask_for_lock = false;
  next_addr = 0;
  sent = [];
}

-- `m[key][val] = true`, with the inner map made first where it is missing.
abbrev pub set_2d_map :
    {K : Type 0} ⦃e : Eq K⦄ → K → ℕ → Dict K (Dict ℕ Bool) → Dict K (Dict ℕ Bool)
set_2d_map key val m =
    let m' = if contains key m then m else insert key [] m in
    insert key (insert val true (lookup_or key [] m')) m'

abbrev pub send : Out → PbftState → PbftState
send o p = record p { sent = p.sent ++ o ∷ [] }
