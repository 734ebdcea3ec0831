-- ===== src/Raft/Wire.antt =====
-- The messages of internal/base/model/raft.go, mysql.go and error.go, and the enumerations of
-- internal/election/raft/attr.go. Ports are natural numbers, since the code tests them by `<= 0`.
use neoha.Common.{ℕ, String, Bool, List, str_eq, ◌||◌}

-- The bit values `1 << iota` are only compared for equality, so the states are constructors.
pub data State : Type 0 where
  follower candidate leader idle invalid learner stopped unknown : State

pub data CmtState : Type 0 where
  cmt_unset cmt_none cmt_ok cmt_changing cmt_error : CmtState  -- the zero value first

unfoldable pub state_string : State → String
state_string follower = "FOLLOWER"
state_string candidate = "CANDIDATE"
state_string leader = "LEADER"
state_string idle = "IDLE"
state_string invalid = "INVALID"
state_string learner = "LEARNER"
state_string stopped = "STOPPED"
state_string unknown = "UNKNOWN"

unfoldable pub cmt_string : CmtState → String
cmt_string cmt_unset = "UNKNOWN"
cmt_string cmt_none = "CmtNone"
cmt_string cmt_ok = "CmtOK"
cmt_string cmt_changing = "CmtChanging"
cmt_string cmt_error = "CmtError"

-- The return codes of error.go. `text` carries the message of an error, which HATryToLeader returns.
pub data RetCode : Type 0 where
  ok : RetCode
  error_rpc_call error_mysql_down error_server_down error_invalid_gtid : RetCode
  error_invalid_view_id error_vote_not_granted error_invalid_request : RetCode
  error_change_master error_mgr_already_running_ok mysql_unpromotable : RetCode
  text : String → RetCode

pub data ReplMode : Type 0 where
  semi_sync mgr : ReplMode

abbrev pub is_mgr : ReplMode → Bool
is_mgr mgr = Bool.true
is_mgr semi_sync = Bool.false

-- The fields of `model.GTID` that the state machine reads or the comparison uses.
pub record Gtid : Type 0 where
  pub master_log_file : String
  pub read_master_log_pos : ℕ
  pub slave_sql_running : Bool
  pub slave_io_running_str : String
  pub slave_sql_running_str : String
  pub retrieved_gtid_set : String
  pub executed_gtid_set : String
  pub txns_behind_master : String
  pub seconds_behind_master : String

abbrev pub empty_gtid : Gtid
empty_gtid = record {
  master_log_file = "";
  read_master_log_pos = 0;
  slave_sql_running = Bool.false;
  slave_io_running_str = "";
  slave_sql_running_str = "";
  retrieved_gtid_set = "";
  executed_gtid_set = "";
  txns_behind_master = "";
  seconds_behind_master = "";
}

pub record Repl : Type 0 where
  pub master_host : String
  pub master_port : ℕ
  pub repl_user : String
  pub repl_password : String
  pub repl_gtid_purged : String

pub record MgrStatus : Type 0 where
  pub role : String
  pub member_state : String

-- `MGRStateOnline` or `MGRStateRecovering`.
unfoldable pub is_live_member : String → Bool
is_live_member s = str_eq s "ONLINE" || str_eq s "RECOVERING"

-- `RaftRPCRequest`, with the fields of its `Raft` part first.
pub record Request : Type 0 where
  pub epoch_id : ℕ
  pub view_id : ℕ
  pub leader : String
  pub from : String
  pub to : String
  pub cmt_state : String
  pub uuid : String
  pub repl : Repl
  pub gtid : Gtid
  pub peers : List String
  pub idle_peers : List String

-- `RaftRPCResponse`.
pub record Response : Type 0 where
  pub epoch_id : ℕ
  pub view_id : ℕ
  pub leader : String
  pub from : String
  pub state : String
  pub cmt_state : String
  pub gtid : Gtid
  pub relay_master_log_file : String
  pub ret_code : RetCode

-- `NewRaftRPCRequest`.
abbrev pub new_request : Request
new_request = record {
  epoch_id = 0;
  view_id = 0;
  leader = "";
  from = "";
  to = "";
  cmt_state = "";
  uuid = "";
  repl = record {
    master_host = "";
    master_port = 0;
    repl_user = "";
    repl_password = "";
    repl_gtid_purged = "";
  };
  gtid = empty_gtid;
  peers = List.[];
  idle_peers = List.[];
}

-- `NewRaftRPCResponse`.
abbrev pub new_response : RetCode → Response
new_response code = record {
  epoch_id = 0;
  view_id = 0;
  leader = "";
  from = "";
  state = "";
  cmt_state = "";
  gtid = empty_gtid;
  relay_master_log_file = "";
  ret_code = code;
}
