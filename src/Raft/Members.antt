-- ===== src/Raft/Members.antt =====
-- Membership: internal/election/raft/api.go, the peer lists of raft.go and peer_json.go. A file
-- that cannot be written is a panic in the code, so writing succeeds here.
pub mod Epoch
pub mod Sync
use neoha.Common.{
  ℕ, String, Bool, true, false, List, [], ◌∷◌, ◌++◌, Option, none, some, ◌||◌, ◌&&◌, not, str_eq,
  if◌then◌else◌, contains, delete, erase_first, ◌==◌,
}
use neoha.Raft.Wire.{State, Repl}
use neoha.Raft.State.{Raft, Db, inc_epoch_id}

sanitize_from : List String → List String → List String
sanitize_from seen [] = []
sanitize_from seen (p ∷ ps) =
    let skipped = sanitize_from seen ps in
    let kept = p ∷ sanitize_from (p ∷ seen) ps in
    if str_eq p "" || contains p seen then skipped else kept

-- Empty names and repetitions are dropped, the order is kept.
unfoldable pub sanitize_peer_list : List String → List String
unfolding sanitize_from
sanitize_peer_list ps = sanitize_from [] ps

abbrev pub write_peers_json : Raft → Raft
write_peers_json r = record r { peers_json = some (r.meta.peers, r.meta.idle_peers) }

abbrev known : String → Raft → Bool
known c r = contains c r.peers || contains c r.idle_peers

unfoldable pub add_peer : String → Raft → Raft
add_peer c r =
    if str_eq c "" || known c r || str_eq r.id c
    then r
    else write_peers_json (
        inc_epoch_id (record r {
          peers = r.peers ++ c ∷ [];
          meta = record (r.meta) { peers = r.meta.peers ++ c ∷ [] };
        }))

unfoldable pub add_idle_peer : String → Raft → Raft
add_idle_peer c r =
    if str_eq c "" || known c r || str_eq r.id c
    then r
    else write_peers_json (
        inc_epoch_id (record r {
          idle_peers = r.idle_peers ++ c ∷ [];
          meta = record (r.meta) { idle_peers = r.meta.idle_peers ++ c ∷ [] };
        }))

unfoldable pub remove_peer : String → Raft → Raft
remove_peer c r =
    if str_eq c r.id || not (contains c r.peers)
    then r
    else write_peers_json (
        inc_epoch_id (record r {
          peers = delete c r.peers;
          meta = record (r.meta) { peers = erase_first c r.meta.peers };
        }))

unfoldable pub remove_idle_peer : String → Raft → Raft
remove_idle_peer c r =
    if str_eq c r.id || not (contains c r.idle_peers)
    then r
    else write_peers_json (
        inc_epoch_id (record r {
          idle_peers = delete c r.idle_peers;
          meta = record (r.meta) { idle_peers = erase_first c r.meta.idle_peers };
        }))

-- A peer is created for each name of the list but our own that has none yet.
enroll : String → List String → List String → List String
enroll id [] m = m
enroll id (n ∷ ns) m = enroll id ns (if contains n m || str_eq n id then m else m ++ n ∷ [])

-- The peers that are not marked are deleted.
retain : List String → List String → List String
retain mark [] = []
retain mark (n ∷ m) = let rest = retain mark m in if contains n mark then n ∷ rest else rest

-- `mark` is not emptied between the two lists.
unfoldable pub update_epoch : ℕ → List String → List String → Raft → Raft
unfolding enroll retain
update_epoch e ps is r = write_peers_json (record r {
  peers = retain ps (enroll r.id ps r.peers);
  idle_peers = retain (ps ++ is) (enroll r.id is r.idle_peers);
  meta = record (r.meta) {
    epoch_id = e;
    peers = sanitize_peer_list ps;
    idle_peers = sanitize_peer_list is;
  };
})

abbrev or_self : Bool → String → List String → List String
or_self wanted id [] = if wanted then id ∷ [] else []
or_self wanted id (x ∷ xs) = x ∷ xs

-- `initPeers`: `file` is what peers.json holds, `none` if it is missing or unreadable.
unfoldable pub init_peers : Option (List String × List String) → Raft → Raft
unfolding enroll
init_peers none r = record r {
  meta = record (r.meta) {
    peers = or_self (not r.conf.super_idle) r.id r.meta.peers;
    idle_peers = or_self r.conf.super_idle r.id r.meta.idle_peers;
  };
  peers = enroll r.id r.meta.peers r.peers;
  idle_peers = enroll r.id r.meta.idle_peers r.idle_peers;
}
init_peers (some (ps, is)) r =
    let ps' = r.meta.peers ++ sanitize_peer_list ps in
    let is' = r.meta.idle_peers ++ sanitize_peer_list is in
    record r {
      meta = record (r.meta) {
        peers = or_self (not r.conf.super_idle) r.id ps';
        idle_peers = or_self r.conf.super_idle r.id is';
      };
      peers = enroll r.id ps' r.peers;
      idle_peers = enroll r.id is' r.idle_peers;
    }

unfoldable pub record_leader_database : Repl → Raft → Raft
record_leader_database p r =
    if str_eq p.master_host "" || p.master_port == 0
    then r
    else record r { leader_db_host = p.master_host; leader_db_port = p.master_port }

abbrev pub is_leader : State → Bool
is_leader State.leader = true
is_leader _ = false

unfoldable pub get_leader_database_endpoint : Db → Raft → String × ℕ
get_leader_database_endpoint db r =
    if not (str_eq r.leader_db_host "") && not (r.leader_db_port == 0)
    then (r.leader_db_host, r.leader_db_port)
    else if is_leader r.state
    then (db.get_repl.master_host, db.get_repl.master_port)
    else ("", 0)
