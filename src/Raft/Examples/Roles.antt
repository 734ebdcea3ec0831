-- ===== src/Raft/Examples/Roles.antt =====
-- Elections, rounds and members in the cluster of three.
use neoha.Raft.Examples.Data.{quiet_db, node_a, leader_a, three_members, ask_b}
use neoha.Raft.State.{Raft, Channel, get_quorums, get_members, int_diff, u64, Db}
use neoha.Raft.State.Quorums.{Shared, Within}
use neoha.Raft.Candidate.Votes.Meeting.{winners_meet, voters, tally, all_up}
use neoha.Raft.Candidate.Votes.{
  Ballot, on_vote_response, on_check_votes, first_ballot, start_election,
}
use neoha.Raft.Candidate.Votes.Majority as Majority
use neoha.Raft.Leader.Loop as LeaderLoop
use neoha.Raft.Leader.Loop.Defeat as Defeat
use neoha.Raft.Follower
use neoha.Raft.Follower.Election as Election
use neoha.Raft.Follower.Pings as Pings
use neoha.Raft.Leader.Purge as Purge
use neoha.Raft.Members
use neoha.Raft.Database.Group as Group
use neoha.Raft.Database.{is_mgr_cluster_status_ok}
use neoha.Raft.Members.Epoch as Epoch
use neoha.Raft.Members.Sync as Sync
use neoha.Raft.Ha
use neoha.Raft.Candidate
use neoha.Raft.Leader
use neoha.Raft.Wire.{State, Response, new_response, RetCode, empty_gtid}
use neoha.Common.{
  distinct, Bool, List, [], ◌∷◌, ◌≡◌, refl, arith, str_eq, str_eq_iff, ◌≤◌, ◌+◌, true, false, ◌⊎◌,
  some, ◌↔◌, contains, ◌||◌,
}

abbrev candidate_a : Raft
candidate_a = record node_a { state = State.candidate }

abbrev two_votes : Ballot
two_votes = record first_ballot { votes = 2 }

abbrev vote_c : Response
vote_c = record (new_response RetCode.ok) { from = "c"; state = "FOLLOWER" }

abbrev candidate_c : Raft
candidate_c = record node_a { id = "c"; state = State.candidate; peers = "a" ∷ "b" ∷ [] }

abbrev vote_b : List Response
vote_b = record (new_response RetCode.ok) { from = "b"; state = "FOLLOWER" } ∷ []

won_a-Within : Within (candidate_a.id ∷ voters vote_b) candidate_a.meta.peers
unfolding voters str_eq
won_a-Within j h = ground arith

won_c-Within : Within (candidate_c.id ∷ voters vote_b) candidate_c.meta.peers
unfolding voters str_eq
won_c-Within j h = ground arith

winners_meet_example : Shared (candidate_a.id ∷ voters vote_b) (candidate_c.id ∷ voters vote_b)
unfolding voters tally all_up str_eq get_members get_quorums start_election on_vote_response
    on_check_votes neoha.Raft.Candidate.open_view neoha.Raft.Candidate.Votes.process_vote_response
    neoha.Raft.Candidate.upgrade_to_leader neoha.Raft.State.set_state
winners_meet_example =
    winners_meet candidate_a candidate_c vote_b vote_b refl refl refl refl refl refl refl refl refl
      won_a-Within won_c-Within

on_vote_response-HasWon_example :
    Majority.HasWon
      (on_vote_response vote_c two_votes candidate_a).0
      candidate_a
      (on_vote_response vote_c two_votes candidate_a).1
unfolding get_members on_vote_response str_eq neoha.Raft.Candidate.Votes.process_vote_response
    neoha.Raft.Candidate.upgrade_to_leader neoha.Raft.State.set_state
on_vote_response-HasWon_example =
    Majority.on_vote_response-HasWon vote_c two_votes candidate_a refl (omega arith) refl

unanswered_steps_down_example :
    (Defeat.unanswered (quiet_db ∷ quiet_db ∷ quiet_db ∷ []) LeaderLoop.first_term leader_a).1.state
    ≡ State.follower
unfolding get_members
unanswered_steps_down_example =
    Defeat.unanswered_steps_down (quiet_db ∷ quiet_db ∷ quiet_db ∷ []) LeaderLoop.first_term
      leader_a refl (omega arith) refl refl (omega arith) (omega arith)

on_election_tick-MayStand_example : Election.MayStand quiet_db node_a
unfolding Follower.on_election_tick neoha.Raft.Database.replication_promotable
    neoha.Raft.State.set_state
on_election_tick-MayStand_example = Election.on_election_tick-MayStand quiet_db node_a refl refl

abbrev split_a : Raft
split_a = record node_a { is_brain_split = true }

ping_round_heals_example : get_quorums split_a ≤ 1 + Pings.heard (vote_c ∷ [])
unfolding Pings.ping_round Follower.on_ping_response Follower.counts_as_peer get_quorums str_eq
ping_round_heals_example = Pings.ping_round_heals (vote_c ∷ []) 1 split_a refl refl

purge_needs_all_example :
    ((Purge.answers (vote_c ∷ []) 1 1 leader_a).2.next_purge_binlog ≡ "")
    ⊎ ((Purge.answers (vote_c ∷ []) 1 1 leader_a).2.next_purge_binlog ≡ "")
unfolding get_members str_eq
purge_needs_all_example = Purge.purge_needs_all (vote_c ∷ []) 1 1 leader_a (omega arith)

update_epoch-Adopted_example :
    Epoch.Adopted three_members [] 2 node_a (Members.update_epoch 2 three_members [] node_a)
update_epoch-Adopted_example = Epoch.update_epoch-Adopted 2 three_members [] node_a

names_differ : (str_eq "a" "b" ≡ false) × (str_eq "a" "c" ≡ false) × (distinct three_members ≡ true)
unfolding str_eq
names_differ = (refl, refl, refl)

node_a-InSync : Sync.InSync node_a
node_a-InSync = record {
  once = names_differ.2;
  once_idle = refl;
  same = λ j. ground (
    arith,
    names_differ,
    str_eq_iff "a" j,
    str_eq_iff "b" j,
    str_eq_iff "c" j,
    str_eq_iff "a" "b",
    str_eq_iff "a" "c",
  );
  same_idle = λ j. refl;
}

edit-InSync_example :
    Sync.InSync (Members.add_peer "d" node_a)
    × Sync.InSync (Members.add_idle_peer "d" node_a)
    × Sync.InSync (Members.remove_peer "d" node_a)
    × Sync.InSync (Members.remove_idle_peer "d" node_a)
edit-InSync_example = Sync.edit-InSync "d" node_a node_a-InSync

remove_peer-add_peer_example :
    Members.remove_peer "d" (Members.add_peer "d" node_a) ≡ record node_a {
      meta = record (node_a.meta) { epoch_id = u64 (u64 (node_a.meta.epoch_id + 1) + 1) };
      peers_json = some (node_a.meta.peers, node_a.meta.idle_peers);
    }
unfolding str_eq
remove_peer-add_peer_example =
    Sync.remove_peer-add_peer "d" node_a node_a-InSync (ground (arith, str_eq_iff "d" ""))
      (ground (arith, str_eq_iff "d" "a")) refl refl

abbrev panics : Ha.Outcome → Bool
panics (Ha.panic r) = true
panics _ = false

-- A stopped node that is asked to lead sends on the closed channel.
stopped_panics :
    panics (
      Ha.ha_try_to_leader quiet_db
        (record node_a { state = State.stopped; fired = Channel.closed }))
    ≡ true
unfolding Ha.ha_try_to_leader neoha.Raft.Database.promotable
    neoha.Raft.Database.replication_promotable neoha.Raft.Database.mgr_primary_promotable
stopped_panics = refl

abbrev group_db : Db
group_db = record quiet_db {
  get_mgr_stats = some (("uuid-a", "ONLINE") ∷ ("uuid-b", "ONLINE") ∷ ("uuid-c", "ERROR") ∷ []);
  get_mgr_master_uuid = some "uuid-b";
}

status_ok-IsHealthy_example :
    (((is_mgr_cluster_status_ok group_db node_a).0 ≡ true) ↔ Group.IsHealthy group_db)
    × ((is_mgr_cluster_status_ok group_db node_a).2.mgr_cluster_ever_ok
        ≡ (false || (is_mgr_cluster_status_ok group_db node_a).0))
status_ok-IsHealthy_example = Group.status_ok-IsHealthy group_db node_a

-- "a" stands in view 5 with two votes, has more data than "b", refuses it, and wins in view 6.
abbrev ahead_db : Db
ahead_db = record quiet_db { gtid_greater_than = λ g. some (true, empty_gtid) }

wins_in_adopted_view :
    (on_check_votes two_votes
      (Candidate.process_request_vote ahead_db ask_b candidate_a).1).meta.view_id
    ≡ 6
unfolding on_check_votes get_quorums Candidate.process_request_vote str_eq
    neoha.Raft.Database.promotable neoha.Raft.Database.replication_promotable
    neoha.Raft.State.update_view neoha.Raft.Database.mgr_primary_promotable
    Candidate.upgrade_to_leader neoha.Raft.State.set_state
wins_in_adopted_view = refl

wins_as_leader :
    (on_check_votes two_votes (Candidate.process_request_vote ahead_db ask_b candidate_a).1).state
    ≡ State.leader
unfolding on_check_votes get_quorums Candidate.process_request_vote str_eq
    neoha.Raft.Database.promotable neoha.Raft.Database.replication_promotable
    neoha.Raft.State.update_view neoha.Raft.Database.mgr_primary_promotable
    Candidate.upgrade_to_leader neoha.Raft.State.set_state
wins_as_leader = refl

-- After a round of heartbeats the idle peer counts as a peer.
idle_peer_is_peer :
    contains "d"
      (Leader.send_heartbeat quiet_db (record leader_a { idle_peers = "d" ∷ [] })).1.peers
    ≡ true
unfolding Leader.send_heartbeat str_eq
idle_peer_is_peer = refl
