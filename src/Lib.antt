-- ===== src/Lib.antt =====
-- NeoHA: the election of internal/election/raft, which decides what member of a MySQL or
-- PostgreSQL cluster may write, the loop of internal/ha that makes the database follow, the layers
-- of internal/database that carry it out, and internal/manager, which runs the server process.
--
-- A node is one record, `Raft` of Raft/State.antt (raft.go, attr.go), with the messages of
-- Raft/Wire.antt (internal/base/model/raft.go and mysql.go). `stateLoop` of raft.go runs the
-- loop of the node's role until the state changes, waits for its goroutines, and starts the next
-- role.
--
--   Raft/Members    api.go, peer_json.go, the peer lists of raft.go: membership, with Members/Sync
--                   on the calls of api.go and Members/Epoch on updateEpoch
--   Raft/Database   dbops.go, the checks of raft.go and api.go: what is asked of the database
--   Raft/Passive    what idle.go, invalid.go and learner.go share; Raft/Idle, Invalid and Learner
--                   are the three roles, and Raft/Following what holds of their heartbeats
--   Raft/Follower   follower.go: heartbeats here, votes in Follower/Vote, joining in Follower/Join,
--                   standing in Follower/Election, the brain-split check in Follower/Pings
--   Raft/Candidate  candidate.go: requests here, the count of votes in Candidate/Votes
--   Raft/Leader     leader.go: requests here, workers and goroutines in Leader/Settings, the
--                   heartbeat round in Leader/Loop, binlogs in Leader/Purge
--   Raft/Peer       peer.go: the requests that a peer is sent
--   Raft/Ha         rpc_ha.go, Start and Stop of raft.go: administrative calls
--   Raft/Machine    Roles: one iteration of each loop; Step: stateLoop, the goroutines and tickers
--   Raft/Rivals     what holds of the heartbeats of a candidate and of a leader
--   Raft/History    a node with the votes that it has cast, over any sequence of inputs
--   Raft/Examples   concrete nodes and messages
--
--   Driver          internal/database/driver: what the HA layer asks of a database engine, and the
--                   laws that it relies on
--   Reconcile       internal/ha: the loop that makes the database follow the coordinator. Hooks:
--                   primary_hook.go; Target: primary_ref.go; Cycle: one cycle of reconcile.go;
--                   Engine: the cycle with MySQL as its engine
--   Mysql           internal/database/mysql: Handler is mysqlbase.go and mysql80.go, Api and
--                   Api/Statements api.go, Ping the health check of mysql.go, Union the union of
--                   GTID sets, and Applier driver.go, which fills the interface of Driver
--                   Mysql/Accounts has the accounts of users, with internal/server/rpc_user.go
--   Mysqld          internal/manager: the server process and its monitor, with Counters on their
--                   calls; Backup is backup.go, with Backup/Jobs on calls beside each other;
--                   Manager is manager.go
--   Postgresql      internal/database/postgresql: Conninfo, Api (api.go, lag.go), Process and
--                   Rewind (rewind.go), Replica (replica.go), and Applier driver.go, which fills
--                   the interface of Driver; Engine and Restart have it under the loop of Reconcile
--   Etcd            internal/coordination/etcd: the election by a leased key; Leases has what is
--                   assumed of etcd and the system of all coordinators
--   Coordination    internal/coordination: raftadapter, which makes the election a coordinator, and
--                   the choice of a backend in wire
--   Config          internal/config: config_validate.go, with the types that it reads
--   Common          shared helpers; Text has what is used of Go's strings and strconv
--
-- A function of the code becomes a function of the state: it returns the response and the new
-- state. The code holds a lock or runs in one goroutine while it handles a message, so a handler is
-- one step; a goroutine that waits for the database is a list of jobs in the state, and each part
-- between two waits is a step of its own (`run_job`). `step` takes one input: a message, a tick, a
-- job, an administrative call. A run is any sequence of inputs, so every interleaving is one.
--
-- In the election the database is a parameter: `Db` is a record of what each query answers
-- during one step, and commands are recorded in `calls`. Nothing is assumed of it. The transport
-- is a parameter of Raft/Peer. Timers are inputs that come at any time. uint64 counters wrap at
-- 2 ^ 64; the difference that the code reads as an int is `int_diff`, two's complement.
--
-- There is no fuel: each operation is structural recursion or no recursion at all, and a loop of
-- the code that waits for messages is the sequence of steps.
--
-- The MySQL server is a parameter of Mysql: `Server` says what each query and statement answers,
-- which may depend on all that was asked and run before, and the state keeps that as its log. The
-- handler is that of MySQL 8.0, with one replication mode from its configuration; pauses between
-- retries take no time. Go's int is kept where it can overflow: GTIDDiff counts in 64 bits, and the
-- union of sets does not join behind the largest int. A run of pings (`pings`) has nothing between
-- two of them. The reconciler's coordinator, shell and context are the record `Outside`; its driver
-- is any value of `Driver`, and an operation of either acts on one environment. The context of a
-- call is not cancelled inside the MySQL driver.
--
-- The server, the programs and the files of PostgreSQL are the record `Host`, in the same way. The
-- pings of WaitReady are counted: 61 fit into sixty seconds and 121 into two minutes, one a second,
-- and the context may end them earlier.
--
-- The shell that starts processes and jobs is the record `Shell` of Mysqld; a call of Backup is cut
-- where it waits.
--
-- The client of etcd is the record `Store` of calls, on an environment that others change too; the
-- laws that are assumed of it are `Laws`. Each call of an attempt to lead is a step of its own, and
-- its transaction is handed over as the comparisons and the two operations that the code names.
--
-- A call of Raft/Ha that wakes the loop is cut where it waits for it; what it does behind is a job.
--
-- Not modelled: logging, mutexes, statistics that nothing reads, the RPC dispatch, the watches of
-- the coordinators, the handler of MySQL 5.6, reading configuration files, the server's wiring, the
-- command-line tools and the mocks of tests. A peers.json that cannot be written is a panic of the
-- code, and is taken to succeed.
pub mod Common
pub mod Config
pub mod Coordination
pub mod Driver
pub mod Etcd
pub mod Mysql
pub mod Mysqld
pub mod Postgresql
pub mod Raft
pub mod Reconcile
