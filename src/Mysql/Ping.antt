-- ===== src/Mysql/Ping.antt =====
-- internal/database/mysql/mysql.go: the health check that runs at every tick, and what it says to
-- the leader (mysql_errors.go).
pub mod Deaths
use neoha.Common.{Bool, true, false, ◌&&◌, ℕ, zero, suc, ◌+◌, ltb, ◌==◌, String, if◌then◌else◌}
use neoha.Common.Result.{Result, ok, err, Error}
use neoha.Common.Text.{contains}
use neoha.Mysql.{Server, Mysql, MysqlState, M, ◌>>=◌, ◌>>◌, return, attempt, get_db}
use neoha.Mysql.Handler.{ping_slave, check_user_exists, create_repl_user_without_binlog}

-- `isTooManyConnections`: the number is `erTooManyConnections`.
unfoldable pub is_too_many_connections : Error → Bool
is_too_many_connections (Error.mysql_error n t) = n == 1040
is_too_many_connections (Error.plain t) = contains "Too many connections" t

-- `handlePingFailure`, with `resetDB`.
unfoldable pub handle_ping_failure : Error → Mysql → Mysql
handle_ping_failure e m =
    let m' =
      if ltb m.conf.admit_defeat_ping_cnt m.downs
      then record m {
        dead_due_to_too_many_connections = is_too_many_connections e;
        connected = false;
        state = MysqlState.dead;
      }
      else m in
    record m' { mysql_downs = m.mysql_downs + 1; downs = m.downs + 1 }

-- The last part of `Ping`, after an answer with the relay log's file.
unfoldable pub ping_succeeded : String → Mysql → Mysql
ping_succeeded file m = record m {
  downs = 0;
  dead_due_to_too_many_connections = false;
  state = MysqlState.alive;
  relay_master_log_file = file;
}

-- `Ping`'s care for the replication user, whose errors are only logged.
unfoldable pub care_for_repl_user : (s : Server) → M (Result (Unit {0}))
care_for_repl_user s m =
    attempt
      (check_user_exists s m.conf.repl_user "%" >>= λ exists.
        if exists
        then return tt
        else create_repl_user_without_binlog s m.conf.repl_user m.conf.repl_passwd)
      m

abbrev pinged : Server → Result String × Mysql → Mysql
pinged s (err e, m) = handle_ping_failure e m
pinged s (ok file, m) = ping_succeeded file (care_for_repl_user s m).1

-- The connection, and the question that shows whether the server answers.
abbrev pub reach : Server → M String
reach s = get_db s >> ping_slave s

-- `Ping`.
unfoldable pub ping : Server → Mysql → Mysql
unfolding handle_ping_failure ping_succeeded care_for_repl_user
ping s m = pinged s (reach s m)

is_dead : MysqlState → Bool
is_dead MysqlState.dead = true
is_dead MysqlState.alive = false

-- `ShouldDeferFailover`.
unfoldable pub should_defer_failover : Mysql → Bool
unfolding is_dead
should_defer_failover m =
    if m.conf.failover_on_too_many_connections
    then false
    else is_dead m.state && m.dead_due_to_too_many_connections

-- The ticks of `PingStart`.
unfoldable pub pings : Server → ℕ → Mysql → Mysql
pings s zero m = m
pings s (suc n) m = pings s n (ping s m)
