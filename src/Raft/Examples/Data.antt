-- ===== src/Raft/Examples/Data.antt =====
-- A cluster of three members, "a", "b" and "c", seen from "a".
use neoha.Common.{String, true, false, List, [], ◌∷◌, none, some}
use neoha.Raft.Wire.{State, CmtState, semi_sync, Request, empty_gtid, new_request}
use neoha.Raft.State.{Channel, Raft, Db, RaftConfig}
use neoha.Raft.Machine.Step.{Input, loop_event}
use neoha.Raft.Machine.Roles.{Node, running, request_vote}
use neoha.Raft.Candidate.Votes.{first_ballot}
use neoha.Raft.Leader.Loop.{first_term}

abbrev pub quiet_db : Db
quiet_db = record {
  relay_master_log_file = "bin.000007";
  gtid_greater_than = λ g. some (false, empty_gtid);
  get_gtid = some empty_gtid;
  check_gtid = λ f c. false;
  mysql_promotable = true;
  driver_promotable = true;
  get_uuid = some "uuid-a";
  get_mgr_stats = none;
  get_mgr_master_uuid = none;
  is_mgr_running_ok = none;
  get_local_mgr_stat = none;
  is_dead = false;
  should_defer_failover = false;
  repl_gtid_purged = "";
  get_repl = new_request.repl;
  stop_slave_io_thread_error = none;
  change_master_to_fails = λ p. false;
  mgr_change_master_to_fails = λ p. false;
  change_to_master_fails = false;
  wait_fails = false;
  read_write_fails = false;
  demote_fails = false;
  purge_fails = false;
  driver_writable = some true;
  mgr_phase1_done = some true;
}

abbrev pub plain_conf : RaftConfig
plain_conf = record {
  super_idle = false;
  admit_defeat_ht_cnt = 3;
  purge_binlog_disabled = false;
  repl_mode = semi_sync;
  delegate_db_apply = false;
  has_driver = true;
  semi_sync_timeout_for_two_nodes = 10_000;
}

abbrev pub three_members : List String
three_members = "a" ∷ "b" ∷ "c" ∷ []

-- "a" follows in view 5, and has not voted.
abbrev pub node_a : Raft
node_a = record {
  id = "a";
  conf = plain_conf;
  state = State.follower;
  leader = "";
  voted_for = "";
  cmt_state = CmtState.cmt_none;
  meta = record { view_id = 5; epoch_id = 1; peers = three_members; idle_peers = [] };
  peers = "b" ∷ "c" ∷ [];
  idle_peers = [];
  peers_json = none;
  is_brain_split = false;
  mgr_cluster_ever_ok = false;
  skip_purge_binlog = false;
  skip_check_semi_sync = false;
  leader_db_host = "";
  leader_db_port = 0;
  gtid = empty_gtid;
  stats = record {
    leader_promotes = 0;
    leader_degrades = 0;
    leader_get_heartbeat_requests = 0;
    leader_get_vote_requests = 0;
    leader_purge_binlogs = 0;
    leader_purge_binlog_fails = 0;
    less_heartbeat_acks = 0;
    less_cmt_heartbeat_acks = 0;
    candidate_promotes = 0;
  };
  change_to_master_error = false;
  relay_master_log_file = "";
  next_purge_binlog = "";
  is_degrade_to_follower = false;
  is_read_only = false;
  workers = false;
  semi_sync_worker = false;
  fired = Channel.made;
  calls = [];
  jobs = [];
}

-- "b" asks for a vote in view 6.
abbrev pub ask_b : Request
ask_b = record new_request { from = "b"; view_id = 6; epoch_id = 1 }

abbrev pub ask_c : Request
ask_c = record ask_b { from = "c" }

-- "c" leads in view 6.
abbrev pub beat_c : Request
beat_c = record ask_c { leader = "c" }

abbrev pub leader_a : Raft
leader_a = record node_a { state = State.leader; leader = "a"; workers = true }

abbrev pub running_a : Node
running_a = record {
  raft = node_a;
  phase = running State.follower;
  ballot = first_ballot;
  term = first_term;
  pings = 1;
}

-- "b" and "c" ask for a vote in the same view, and "c" leads afterwards.
abbrev pub two_asks : List (Db × Input)
two_asks =
    (quiet_db, loop_event (request_vote ask_b)) ∷ (quiet_db, loop_event (request_vote ask_c)) ∷ []
