-- ===== src/Raft/Database.antt =====
-- What the election layer asks of the database: internal/election/raft/dbops.go, the checks of
-- raft.go and isMGRClusterStatusOK of api.go.
pub mod Frame
pub mod Group
use neoha.Common.{
  ℕ, suc, ◌<◌, String, Bool, true, false, List, [], ◌∷◌, Option, none, some, ◌||◌, ◌&&◌, not,
  str_eq, if◌then◌else◌, ltb,
}
use neoha.Raft.Wire.{is_mgr, is_live_member}
use neoha.Raft.State.{Raft, Db, DbCall, call}

-- `demoteReadOnly`. Its error is only logged, but for prepareSettingsMGR.
unfoldable pub demote_read_only : Raft → Raft
demote_read_only r =
    if r.conf.delegate_db_apply
    then r
    else call (if r.conf.has_driver then DbCall.demote else DbCall.set_read_only) r

-- `changeToMaster`: whether it succeeds, and the call that it makes.
unfoldable pub change_to_master : Db → Raft → Bool × Raft
change_to_master db r =
    if r.conf.delegate_db_apply
    then (true, r)
    else (not db.change_to_master_fails, call DbCall.change_to_master r)

-- `enableReadWrite`.
unfoldable pub enable_read_write : Db → Raft → Bool × Raft
enable_read_write db r =
    if r.conf.delegate_db_apply
    then (true, r)
    else (not db.read_write_fails, call DbCall.enable_read_write r)

unfoldable pub replication_promotable : Db → Raft → Bool
replication_promotable db r =
    if r.conf.has_driver then db.driver_promotable else db.mysql_promotable

-- The loop of isMGRClusterStatusOK: members that are live, and whether the primary is among them.
count_live : String → List (String × String) → ℕ × Bool
count_live uuid [] = (0, false)
count_live uuid ((id, state) ∷ rows) =
    let (n, primary) = count_live uuid rows in
    if is_live_member state then (suc n, str_eq id uuid || primary) else (n, primary)

mgr_rows_ok : String → List (String × String) → Bool
unfolding count_live
mgr_rows_ok uuid rows = let (n, primary) = count_live uuid rows in primary && not (ltb n 2)

-- The status, the primary's uuid, and the state with `mgrClusterEverOK`.
unfoldable pub is_mgr_cluster_status_ok : Db → Raft → Bool × String × Raft
unfolding mgr_rows_ok
is_mgr_cluster_status_ok db r = elim db.get_mgr_stats [
  | none ↦ (false, "", r)
  | some rows ↦ elim db.get_mgr_master_uuid [
    | none ↦ (false, "", r)
    | some uuid ↦
        if mgr_rows_ok uuid rows
        then (true, uuid, record r { mgr_cluster_ever_ok = true })
        else (false, uuid, r)
  ]
]

-- Whether a healthy group is led by a member other than `uuid`.
unfoldable pub led_by_other : Db → String → Raft → Bool × Raft
led_by_other db uuid r =
    let (ok, primary, r') = is_mgr_cluster_status_ok db r in
    (ok && not (str_eq primary "") && not (str_eq primary uuid), r')

-- `mgrPrimaryPromotable`.
unfoldable pub mgr_primary_promotable : Db → Raft → Bool × Raft
mgr_primary_promotable db r =
    if is_mgr r.conf.repl_mode
    then elim db.get_uuid [
      | none ↦ (false, r)
      | some uuid ↦
          let (other, r') = led_by_other db uuid r in
          if str_eq uuid "" then (false, r) else (not other, r')
    ]
    else (true, r)

-- `Promotable`.
unfoldable pub promotable : Db → Raft → Bool × Raft
promotable db r = if replication_promotable db r then mgr_primary_promotable db r else (false, r)

-- `isDelegatedPrimaryReady`.
unfoldable pub is_delegated_primary_ready : Db → Raft → Bool
is_delegated_primary_ready db r = elim db.driver_writable [
  | none ↦ false
  | some w ↦ r.conf.has_driver && w
]

-- `isDelegatedMGRPhase1Ready`.
unfoldable pub is_delegated_mgr_phase1_ready : Db → Raft → Bool
is_delegated_mgr_phase1_ready db r = elim db.mgr_phase1_done [
  | none ↦ false
  | some done ↦ r.conf.has_driver && is_mgr r.conf.repl_mode && done
]
