-- ===== src/Pbft/ViewChange.antt =====
-- view_change.go. Nodes are told apart by their number here. View and sequence numbers are `int`s,
-- and with the number of nodes far below 2^63.
use blockchain_sharding.Base.{
  distinct, enter, length-enter, ℕ, ◌+◌, ◌*◌, ◌%◌, ◌≡◌, ◌≢◌, ◌⊎◌, refl, ap, ◌∙◌, Bool, true, Option,
  none, some, List, [], ◌∷◌, Dict, lookup, lookup_or, insert, contains, nat_eq, nat_beq,
  if◌then◌else◌, length, arith, length-insert, lookup-insert, Option-cases, Bool-cases,
}
use blockchain_sharding.Pbft.Messages.{ViewChangeMsg, NewViewMsg, Out, Payload}
use blockchain_sharding.Pbft.Node.{
  PbftState, ViewChangeData, view_change_beq, view_change_beq_iff, view_change_eq, set_2d_map, send,
}

-- `int(p.view.Load()+1) % int(p.node_nums)`; dividing by 0 panics.
abbrev pub next_view_of : PbftState → Option ℕ
next_view_of p = if nat_beq p.node_nums 0 then none else some ((p.view + 1) % p.node_nums)

unfoldable pub view_change_propose : PbftState → Option PbftState
view_change_propose p = elim (next_view_of p) [
  | none ↦ none
  | some v ↦ some (
      send
        (Out.to_shard (
          Payload.view_change (record {
            cur_view = p.view;
            next_view = v;
            seq_id = p.sequence_id;
            from_node = p.node_id;
          })))
        (record p { pbft_stage = 5 }))
]

-- `len(p.viewChangeMap[vcData])`
abbrev pub view_change_votes : PbftState → ViewChangeData → ℕ
view_change_votes p d = length (lookup_or d [] p.view_change_map)

abbrev pub new_view_votes : PbftState → ViewChangeData → ℕ
new_view_votes p d = length (lookup_or d [] p.new_view_map)

unfoldable pub handle_view_change_msg : ViewChangeMsg → PbftState → Option PbftState
handle_view_change_msg msg p =
    let d : ViewChangeData = record { next_view = msg.next_view; seq_id = msg.seq_id } in
    let p' : PbftState = record p {
      view_change_map = set_2d_map d msg.from_node p.view_change_map;
    } in
    if nat_beq (view_change_votes p' d) (2 * p'.malicious_nums + 1)
    then (elim (next_view_of p') [
      | none ↦ none
      | some v ↦ some (
          send
            (Out.to_shard (
              Payload.new_view (record {
                cur_view = p'.view;
                next_view = v;
                new_seq_id = p'.sequence_id;
                from_node = p'.node_id;
              })))
            p')
    ])
    else some p'

abbrev pub new_view_data : NewViewMsg → ViewChangeData
new_view_data msg = record { next_view = msg.next_view; seq_id = msg.new_seq_id }

unfoldable pub handle_new_view_msg : ℕ → NewViewMsg → PbftState → PbftState
handle_new_view_msg now msg p =
    let d = new_view_data msg in
    let p' : PbftState = record p { new_view_map = set_2d_map d msg.from_node p.new_view_map } in
    if nat_beq (new_view_votes p' d) (2 * p'.malicious_nums + 1)
    then record p' {
      view = d.next_view;
      sequence_id = msg.new_seq_id;
      pbft_stage = 1;
      last_commit_time = now;
    }
    else p'

-- The messages that a node has taken, with the time of each, newest first.
unfoldable pub handle_new_view_msgs : List (ℕ × NewViewMsg) → PbftState → PbftState
unfolding handle_new_view_msg
handle_new_view_msgs [] p = p
handle_new_view_msgs ((now, msg) ∷ msgs) p =
    handle_new_view_msg now msg (handle_new_view_msgs msgs p)

-- The nodes that sent a message for the view and the sequence number.
abbrev pub senders : ViewChangeData → List (ℕ × NewViewMsg) → List ℕ
senders d [] = []
senders d ((now, msg) ∷ msgs) =
    if view_change_beq (new_view_data msg) d then msg.from_node ∷ senders d msgs else senders d msgs

set_2d_map-at :
    (d e : ViewChangeData) (a : ℕ) (m : Dict ViewChangeData (Dict ℕ Bool))
    → lookup_or e [] (set_2d_map d a m)
      ≡ (if view_change_beq d e then insert a true (lookup_or e [] m) else lookup_or e [] m)
set_2d_map-at d e a m =
    let m' = if contains d m then m else insert d [] m in
    grind (
      arith,
      lookup-insert d e (insert a true (lookup_or d [] m')) m',
      lookup-insert d e [] m,
      lookup-insert d d [] m,
      view_change_beq_iff d e,
      view_change_beq_iff d d,
      Option-cases (lookup d m),
      Option-cases (lookup e m),
      Bool-cases (view_change_beq d e),
    )

handle_new_view_msg-keeps :
    (now : ℕ) (msg : NewViewMsg) (p : PbftState)
    → ((handle_new_view_msg now msg p).new_view_map
        ≡ set_2d_map (new_view_data msg) msg.from_node p.new_view_map)
      × ((handle_new_view_msg now msg p).malicious_nums ≡ p.malicious_nums)
unfolding handle_new_view_msg
handle_new_view_msg-keeps now msg p = ground arith

handle_new_view_msgs-keeps :
    (d : ViewChangeData) (msgs : List (ℕ × NewViewMsg)) (p : PbftState)
    → p.new_view_map ≡ []
    → (lookup_or d [] (handle_new_view_msgs msgs p).new_view_map ≡ enter (senders d msgs))
      × ((handle_new_view_msgs msgs p).malicious_nums ≡ p.malicious_nums)
unfolding handle_new_view_msgs
handle_new_view_msgs-keeps d [] p h = (ap (lookup_or d []) h, refl)
handle_new_view_msgs-keeps d ((now, msg) ∷ msgs) p h =
    let q = handle_new_view_msgs msgs p in
    let (voters, f) = handle_new_view_msgs-keeps d msgs p h in
    let (m, f') = handle_new_view_msg-keeps now msg q in
    (
      ap (lookup_or d []) m
          ∙ set_2d_map-at (new_view_data msg) d msg.from_node q.new_view_map
          ∙ ground (voters, arith),
      f' ∙ f,
    )

-- A new-view message that comes after any others, to a node that had none: if the nodes that have
-- sent one for its view and sequence number, its own sender counted in, are exactly 2 f + 1
-- different ones, the node takes over both and is in stage 1; otherwise view, sequence number and
-- stage stay as they are.
pub new_view-needs_quorum :
    (now : ℕ) (msg : NewViewMsg) (msgs : List (ℕ × NewViewMsg)) (p : PbftState)
    → p.new_view_map ≡ []
    → let q = handle_new_view_msgs msgs p in
      let q' = handle_new_view_msg now msg q in
      let votes = distinct (senders (new_view_data msg) ((now, msg) ∷ msgs)) in
      ((votes ≡ 2 * p.malicious_nums + 1)
        × (q'.view ≡ msg.next_view)
        × (q'.sequence_id ≡ msg.new_seq_id)
        × (q'.pbft_stage ≡ 1))
      ⊎ ((votes ≢ 2 * p.malicious_nums + 1)
          × (q'.view ≡ q.view)
          × (q'.sequence_id ≡ q.sequence_id)
          × (q'.pbft_stage ≡ q.pbft_stage))
unfolding handle_new_view_msgs handle_new_view_msg
new_view-needs_quorum now msg msgs p h =
    let d = new_view_data msg in
    let q = handle_new_view_msgs msgs p in
    let (voters, f) = handle_new_view_msgs-keeps d ((now, msg) ∷ msgs) p h in
    ground (
      arith,
      handle_new_view_msgs-keeps d msgs p h,
      set_2d_map-at d d msg.from_node q.new_view_map,
      view_change_beq_iff d d,
      length-enter (msg.from_node ∷ senders d msgs),
    )

-- Once exactly 2 f + 1 nodes have sent a new-view message, a copy of one of them takes the node
-- back to the view and the sequence number of the message, from whatever it has reached since.
pub new_view_replayed :
    (now : ℕ) (msg : NewViewMsg) (p : PbftState)
    → new_view_votes p (new_view_data msg) ≡ 2 * p.malicious_nums + 1
    → contains msg.from_node (lookup_or (new_view_data msg) [] p.new_view_map) ≡ true
    → ((handle_new_view_msg now msg p).view ≡ msg.next_view)
      × ((handle_new_view_msg now msg p).sequence_id ≡ msg.new_seq_id)
      × ((handle_new_view_msg now msg p).pbft_stage ≡ 1)
unfolding handle_new_view_msg
new_view_replayed now msg p votes sent =
    let d = new_view_data msg in
    ground (
      arith,
      votes,
      set_2d_map-at d d msg.from_node p.new_view_map,
      view_change_beq_iff d d,
      length-insert msg.from_node true (lookup_or d [] p.new_view_map),
    )
