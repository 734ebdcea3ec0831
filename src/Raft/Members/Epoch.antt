-- ===== src/Raft/Members/Epoch.antt =====
-- What becomes of the members when an epoch is taken over: sanitizePeerList of peer_json.go and
-- updateEpoch of raft.go in internal/election/raft.
use neoha.Raft.Members.{sanitize_from, sanitize_peer_list, enroll, retain, update_epoch}
use neoha.Raft.State.{Raft}
use neoha.Common.{
  List, String, [], ◌∷◌, ◌++◌, ◌≡◌, true, not, ◌&&◌, ◌||◌, contains, distinct, arith, str_eq_iff,
  str_eq, contains-append, ℕ, some, refl,
}

contains-sanitize_from :
    (j : String) (seen ps : List String)
    → contains j (sanitize_from seen ps)
      ≡ (contains j ps && not (contains j seen) && not (str_eq j ""))
unfolding sanitize_from
contains-sanitize_from j seen [] = ground arith
contains-sanitize_from j seen (p ∷ ps) = ground (
  arith,
  contains-sanitize_from j seen ps,
  contains-sanitize_from j (p ∷ seen) ps,
  str_eq_iff p j,
  str_eq_iff p "",
  str_eq_iff j "",
)

distinct-sanitize_from : (seen ps : List String) → distinct (sanitize_from seen ps) ≡ true
unfolding sanitize_from
distinct-sanitize_from seen [] = refl
distinct-sanitize_from seen (p ∷ ps) = ground (
  arith,
  distinct-sanitize_from seen ps,
  distinct-sanitize_from (p ∷ seen) ps,
  contains-sanitize_from p (p ∷ seen) ps,
  str_eq_iff p p,
)

contains-enroll :
    (j id : String) (ns m : List String)
    → contains j (enroll id ns m) ≡ (contains j m || (contains j ns && not (str_eq j id)))
unfolding enroll
contains-enroll j id [] m = ground arith
contains-enroll j id (n ∷ ns) m = ground (
  arith,
  contains-enroll j id ns m,
  contains-enroll j id ns (m ++ n ∷ []),
  contains-append j m (n ∷ []),
  str_eq_iff n j,
  str_eq_iff n id,
  str_eq_iff j id,
)

contains-retain :
    (j : String) (mark m : List String)
    → contains j (retain mark m) ≡ (contains j m && contains j mark)
unfolding retain
contains-retain j mark [] = ground arith
contains-retain j mark (n ∷ m) = ground (arith, contains-retain j mark m, str_eq_iff n j)

-- The members after an epoch is taken over: who is written down, and who is a peer. `mark` still
-- holds the peers when the idle peers are filtered.
pub record Adopted (ps is : List String) (e : ℕ) (r s : Raft) : Type 0 where
  pub epoch : s.meta.epoch_id ≡ e
  pub written : (j : String) → contains j s.meta.peers ≡ (contains j ps && not (str_eq j ""))
  pub written_idle :
      (j : String) → contains j s.meta.idle_peers ≡ (contains j is && not (str_eq j ""))
  pub once : distinct s.meta.peers ≡ true
  pub once_idle : distinct s.meta.idle_peers ≡ true
  pub kept :
      (j : String)
      → contains j s.peers ≡ (contains j ps && (contains j r.peers || not (str_eq j r.id)))
  pub kept_idle :
      (j : String)
      → contains j s.idle_peers ≡ (
          (contains j r.idle_peers && contains j ps)
          || (contains j is && (contains j r.idle_peers || not (str_eq j r.id))))
  pub saved : s.peers_json ≡ some (s.meta.peers, s.meta.idle_peers)

-- Taking an epoch over writes down its members without empty names and repetitions, saves them,
-- and keeps as peers the listed ones that were peers already or are not the node itself. An idle
-- peer stays if the epoch lists it as an idle peer or as a peer.
pub update_epoch-Adopted :
    (e : ℕ) (ps is : List String) (r : Raft) → Adopted ps is e r (update_epoch e ps is r)
unfolding update_epoch sanitize_peer_list
update_epoch-Adopted e ps is r = record {
  epoch = refl;
  written = λ j. ground (arith, contains-sanitize_from j [] ps);
  written_idle = λ j. ground (arith, contains-sanitize_from j [] is);
  once = distinct-sanitize_from [] ps;
  once_idle = distinct-sanitize_from [] is;
  kept = λ j.
      ground
        (arith, contains-retain j ps (enroll r.id ps r.peers), contains-enroll j r.id ps r.peers);
  kept_idle = λ j. ground (
    arith,
    contains-retain j (ps ++ is) (enroll r.id is r.idle_peers),
    contains-enroll j r.id is r.idle_peers,
    contains-append j ps is,
  );
  saved = refl;
}
