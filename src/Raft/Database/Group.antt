-- ===== src/Raft/Database/Group.antt =====
-- When isMGRClusterStatusOK of internal/election/raft/api.go calls a group healthy.
use neoha.Raft.Database.{is_mgr_cluster_status_ok, mgr_rows_ok, count_live}
use neoha.Raft.State.{Raft, Db}
use neoha.Raft.Wire.{is_live_member}
use neoha.Common.{
  List, String, [], ◌∷◌, ◌≡◌, ◌↔◌, true, ◌||◌, contains, length, some, arith, ◌≤◌, if◌then◌else◌,
  refl, inl, inr, Option-cases,
}

-- The members of the group that take part in it.
abbrev pub live_ids : List (String × String) → List String
live_ids [] = []
live_ids ((id, state) ∷ rows) =
    let rest = live_ids rows in if is_live_member state then id ∷ rest else rest

-- The database names the rows of the group and its primary, the primary is live, and so are two
-- members at least.
pub record IsHealthy (db : Db) : Type 0 where
  pub rows : List (String × String)
  pub primary : String
  pub listed : db.get_mgr_stats ≡ some rows
  pub named : db.get_mgr_master_uuid ≡ some primary
  pub is_live : contains primary (live_ids rows) ≡ true
  pub enough : 2 ≤ length (live_ids rows)

count_live_lem :
    (uuid : String) (rows : List (String × String))
    → ((count_live uuid rows).0 ≡ length (live_ids rows))
      × ((count_live uuid rows).1 ≡ contains uuid (live_ids rows))
unfolding count_live
count_live_lem uuid [] = (refl, refl)
count_live_lem uuid ((id, state) ∷ rows) = ground (arith, count_live_lem uuid rows)

pub ok-IsHealthy :
    (db : Db) (r : Raft)
    → (is_mgr_cluster_status_ok db r).0 ≡ true
    → IsHealthy db × ((is_mgr_cluster_status_ok db r).2.mgr_cluster_ever_ok ≡ true)
unfolding is_mgr_cluster_status_ok mgr_rows_ok
ok-IsHealthy db r h = elim (Option-cases db.get_mgr_stats) [
  | inl e ↦ absurd (ground (arith, e))
  | inr (rows, e) ↦ elim (Option-cases db.get_mgr_master_uuid) [
    | inl f ↦ absurd (ground (arith, e, f))
    | inr (uuid, f) ↦
        let count = count_live_lem uuid rows in
        (
          record {
            rows = rows;
            primary = uuid;
            listed = e;
            named = f;
            is_live = ground (arith, e, f, count);
            enough = ground (arith, e, f, count);
          },
          ground (arith, e, f),
        )
  ]
]

pub group_healthy : (db : Db) (r : Raft) → IsHealthy db → (is_mgr_cluster_status_ok db r).0 ≡ true
unfolding is_mgr_cluster_status_ok mgr_rows_ok
group_healthy db r k =
    ground (arith, k.listed, k.named, k.is_live, k.enough, count_live_lem k.primary k.rows)

-- A group counts as healthy just when the database lists its members and names its primary, the
-- primary is a live member, and two members at least are live; the node remembers whether it
-- ever was.
pub status_ok-IsHealthy :
    (db : Db) (r : Raft)
    → (((is_mgr_cluster_status_ok db r).0 ≡ true) ↔ IsHealthy db)
      × ((is_mgr_cluster_status_ok db r).2.mgr_cluster_ever_ok
          ≡ (r.mgr_cluster_ever_ok || (is_mgr_cluster_status_ok db r).0))
unfolding is_mgr_cluster_status_ok
status_ok-IsHealthy db r = ((λ h. (ok-IsHealthy db r h).0, group_healthy db r), ground arith)
