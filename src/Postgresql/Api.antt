-- ===== src/Postgresql/Api.antt =====
-- internal/database/postgresql/api.go and lag.go: the connection, the queries, and the statements
-- that open and close the database.
use neoha.Common.{
  Bool, true, false, not, ℕ, zero, suc, String, Option, none, some, [], if◌then◌else◌,
}
use neoha.Common.Result.{Result, ok, err, Error}
use neoha.Common.Text.{ℤ, pos, negsuc}
use neoha.Postgresql.{
  Host, Event, Link, M, ◌>>=◌, ◌>>◌, return, attempt, note, open_local, ping_at, run,
}
use neoha.Postgresql.Conninfo.{dsn}

-- A negative lag, and none, count as no lag.
abbrev pub at_least_zero : Option ℤ → ℤ
at_least_zero none = pos 0
at_least_zero (some (pos n)) = pos n
at_least_zero (some (negsuc n)) = pos 0

abbrev pub lag_query : String
lag_query =
    "SELECT pg_wal_lsn_diff(pg_last_wal_receive_lsn(), COALESCE(pg_last_wal_replay_lsn(), '0/0'))"

abbrev switch_text : Bool → String
switch_text true = "SET default_transaction_read_only = on"
switch_text false = "SET default_transaction_read_only = off"

abbrev set_writable : Bool → M (Unit {0})
set_writable b p = (ok tt, record p { writable = b })

module _ (h : Host) where
  -- `getDB`.
  unfoldable pub get_db : M (Unit {0})
  get_db p =
      if p.connected
      then (ok tt, p)
      else (open_local h (dsn p.conf) >> (λ q. (ok tt, record q { connected = true }))) p

  -- `PingDB`.
  unfoldable pub ping_db : M (Unit {0})
  ping_db = get_db >> ping_at h Link.local

  unfoldable pub set_alive : Bool → M (Unit {0})
  set_alive b p = (ok tt, record p { alive = b })

  -- `WaitReady`, with the number of pings that fit before its deadline, which a shorter one of the
  -- caller may come before.
  unfoldable pub wait_ready : ℕ → M (Unit {0})
  wait_ready zero p = (err (Error.plain "context deadline exceeded"), p)
  wait_ready (suc n) p =
      let (r, p') = ping_db p in
      elim r [
        | ok u ↦ set_alive true p'
        | err e ↦ elim (h.ctx_err p'.log) [ some c ↦ (err c, p') | none ↦ wait_ready n p' ]
      ]

  -- `IsInRecovery`.
  unfoldable pub is_in_recovery : M Bool
  is_in_recovery = get_db >> (λ p. let r = h.in_recovery p.log in (r, note (Event.recovery r) p))

  -- `SetDefaultReadOnly`: the flag is set after the statement ran.
  unfoldable pub set_default_read_only : Bool → M (Unit {0})
  set_default_read_only b = get_db >> run h Link.local (switch_text b) [] >> set_writable (not b)

  -- `Promote`: a server without the argument of pg_promote is tried again.
  abbrev promote_again : Result (Unit {0}) → M (Unit {0})
  promote_again (ok u) = return tt
  promote_again (err e) = run h Link.local "SELECT pg_promote()" []

  unfoldable pub promote : M (Unit {0})
  promote =
      get_db
      >> attempt (run h Link.local "SELECT pg_promote(true)" [])
      >>= promote_again
      >> set_writable true

  abbrev pub ask_lag : M ℤ
  ask_lag p =
      let p' = note (Event.queried Link.local lag_query) p in
      elim (h.lag p.log) [ err e ↦ (err e, p') | ok l ↦ (ok (at_least_zero l), p') ]

  -- `ReplicationLagBytes`.
  unfoldable pub replication_lag_bytes : M ℤ
  replication_lag_bytes = is_in_recovery >>= λ b. if b then get_db >> ask_lag else return (pos 0)
