-- ===== src/Raft/Peer.antt =====
-- internal/election/raft/peer.go: what a peer is sent, and what comes back if nothing can be sent.
-- The remote end is outside the node: `reply` is its answer, `none` an RPC failure.
use neoha.Common.{String, Option, none, some}
use neoha.Raft.Wire.{Request, Response, RetCode, new_request, new_response, cmt_string}
use neoha.Raft.State.{Raft, Db}

unfoldable pub heartbeat_request : Db → String → Raft → Request
heartbeat_request db to r = record new_request {
  epoch_id = r.meta.epoch_id;
  view_id = r.meta.view_id;
  from = r.id;
  to = to;
  leader = r.leader;
  peers = r.meta.peers;
  idle_peers = r.meta.idle_peers;
  gtid = r.gtid;
  repl = db.get_repl;
  cmt_state = cmt_string r.cmt_state;
}

-- A response that never came: NewClient or CallTimeout failed.
abbrev pub or_rpc_error : Option Response → Response
or_rpc_error none = new_response RetCode.error_rpc_call
or_rpc_error (some rsp) = rsp

unfoldable pub send_heartbeat_to : Db → (Request → Option Response) → String → Raft → Response
send_heartbeat_to db reply to r = or_rpc_error (reply (heartbeat_request db to r))

-- The request, or `none` where our own database does not answer.
unfoldable pub vote_request : Db → String → Raft → Option Request
vote_request db to r = elim db.get_uuid [
  | none ↦ none
  | some uuid ↦ elim db.get_gtid [
    | none ↦ none
    | some gtid ↦ some (record new_request {
      epoch_id = r.meta.epoch_id;
      view_id = r.meta.view_id;
      from = r.id;
      to = to;
      leader = r.leader;
      uuid = uuid;
      gtid = gtid;
    })
  ]
]

-- Where our own database fails, `sendRequestVote` reports ErrorMySQLDown in the peer's place.
unfoldable pub send_request_vote_to : Db → (Request → Option Response) → String → Raft → Response
send_request_vote_to db reply to r = elim (vote_request db to r) [
  | none ↦ new_response RetCode.error_mysql_down
  | some q ↦ or_rpc_error (reply q)
]

unfoldable pub send_ping_to : (Request → Option Response) → Response
send_ping_to reply = or_rpc_error (reply new_request)
