-- ===== src/Raft/Members/Sync.antt =====
-- The peer maps and the written lists under internal/election/raft/api.go.
use neoha.Raft.Members.{add_peer, add_idle_peer, remove_peer, remove_idle_peer}
use neoha.Raft.State.{Raft, u64}
use neoha.Common.{
  List, String, [], ◌∷◌, ◌++◌, ◌≡◌, true, false, not, ◌&&◌, contains, distinct, arith, str_eq_iff,
  str_eq, contains-append, contains-delete, contains-erase_first, distinct-erase_first,
  distinct-append_one, delete, erase_first, ◌≢◌, ◌+◌, some,
}

-- The peers are the written members but the node itself, and nobody is written twice.
pub record InSync (r : Raft) : Type 0 where
  pub once : distinct r.meta.peers ≡ true
  pub once_idle : distinct r.meta.idle_peers ≡ true
  pub same : (j : String) → contains j r.peers ≡ (contains j r.meta.peers && not (str_eq r.id j))
  pub same_idle :
      (j : String) → contains j r.idle_peers ≡ (contains j r.meta.idle_peers && not (str_eq r.id j))

append-same :
    (c j id : String) (m ps : List String)
    → contains j m ≡ (contains j ps && not (str_eq id j))
    → str_eq id c ≡ false
    → contains j (m ++ c ∷ []) ≡ (contains j (ps ++ c ∷ []) && not (str_eq id j))
append-same c j id m ps s n = ground (
  arith,
  contains-append j m (c ∷ []),
  contains-append j ps (c ∷ []),
  str_eq_iff c j,
  str_eq_iff id j,
  str_eq_iff id c,
)

erase-same :
    (c j id : String) (m ps : List String)
    → distinct ps ≡ true
    → contains j m ≡ (contains j ps && not (str_eq id j))
    → contains j (delete c m) ≡ (contains j (erase_first c ps) && not (str_eq id j))
erase-same c j id m ps d s = ground (arith, contains-delete c j m, contains-erase_first c j ps)

add_peer-InSync : (c : String) (r : Raft) → InSync r → InSync (add_peer c r)
unfolding add_peer
add_peer-InSync c r k = record {
  once = ground (arith, k.same c, distinct-append_one c r.meta.peers, str_eq_iff r.id c, k.once);
  once_idle = ground (arith, k.once_idle);
  same = λ j. ground (arith, append-same c j r.id r.peers r.meta.peers (k.same j), k.same j);
  same_idle = λ j. ground (arith, k.same_idle j);
}

add_idle_peer-InSync : (c : String) (r : Raft) → InSync r → InSync (add_idle_peer c r)
unfolding add_idle_peer
add_idle_peer-InSync c r k = record {
  once_idle = ground (
    arith,
    k.same_idle c,
    distinct-append_one c r.meta.idle_peers,
    str_eq_iff r.id c,
    k.once_idle,
  );
  once = ground (arith, k.once);
  same_idle = λ j.
      ground
        (arith, append-same c j r.id r.idle_peers r.meta.idle_peers (k.same_idle j), k.same_idle j);
  same = λ j. ground (arith, k.same j);
}

remove_peer-InSync : (c : String) (r : Raft) → InSync r → InSync (remove_peer c r)
unfolding remove_peer
remove_peer-InSync c r k = record {
  once = ground (arith, distinct-erase_first c r.meta.peers, k.once);
  once_idle = ground (arith, k.once_idle);
  same = λ j. ground (arith, erase-same c j r.id r.peers r.meta.peers k.once (k.same j), k.same j);
  same_idle = λ j. ground (arith, k.same_idle j);
}

remove_idle_peer-InSync : (c : String) (r : Raft) → InSync r → InSync (remove_idle_peer c r)
unfolding remove_idle_peer
remove_idle_peer-InSync c r k = record {
  once_idle = ground (arith, distinct-erase_first c r.meta.idle_peers, k.once_idle);
  once = ground (arith, k.once);
  same_idle = λ j. ground (
    arith,
    erase-same c j r.id r.idle_peers r.meta.idle_peers k.once_idle (k.same_idle j),
    k.same_idle j,
  );
  same = λ j. ground (arith, k.same j);
}

-- If the peers are the written members but the node itself, and nobody is written twice, then
-- the same holds after a member or an idle member is added or removed.
pub edit-InSync :
    (c : String) (r : Raft)
    → InSync r
    → InSync (add_peer c r)
      × InSync (add_idle_peer c r)
      × InSync (remove_peer c r)
      × InSync (remove_idle_peer c r)
edit-InSync c r k = (
  add_peer-InSync c r k,
  add_idle_peer-InSync c r k,
  remove_peer-InSync c r k,
  remove_idle_peer-InSync c r k,
)

delete-append_one :
    (c : String) (xs : List String) → contains c xs ≡ false → delete c (xs ++ c ∷ []) ≡ xs
delete-append_one c [] h = ground (arith, str_eq_iff c c)
delete-append_one c (x ∷ xs) h = ground (arith, delete-append_one c xs)

erase_first-append_one :
    (c : String) (xs : List String) → contains c xs ≡ false → erase_first c (xs ++ c ∷ []) ≡ xs
erase_first-append_one c [] h = ground (arith, str_eq_iff c c)
erase_first-append_one c (x ∷ xs) h = ground (arith, erase_first-append_one c xs)

-- Where the peers are the written members but the node itself, a new member (named, not the
-- node, neither peer nor idle peer) that is added and removed again leaves the node as it was,
-- but for two more epochs and the saved file.
pub remove_peer-add_peer :
    (c : String) (r : Raft)
    → InSync r
    → c ≢ ""
    → c ≢ r.id
    → contains c r.peers ≡ false
    → contains c r.idle_peers ≡ false
    → remove_peer c (add_peer c r) ≡ record r {
      meta = record (r.meta) { epoch_id = u64 (u64 (r.meta.epoch_id + 1) + 1) };
      peers_json = some (r.meta.peers, r.meta.idle_peers);
    }
unfolding add_peer remove_peer
remove_peer-add_peer c r k n i p q =
    let absent = k.same c in
    ground (
      arith,
      absent,
      delete-append_one c r.peers,
      erase_first-append_one c r.meta.peers,
      contains-append c r.peers (c ∷ []),
      str_eq_iff c "",
      str_eq_iff c r.id,
      str_eq_iff r.id c,
      str_eq_iff c c,
    )
