-- ===== src/Mysql/Ping/Deaths.antt =====
-- The state machine of `Ping` in internal/database/mysql/mysql.go: how a server that does not answer
-- is given up, and how one that answers comes back.
use neoha.Common.{
  Bool, true, false, not, ◌&&◌, ℕ, zero, suc, ◌+◌, ltb, String, if◌then◌else◌, ◌≡◌, refl, ap, ◌∙◌,
  subst, List, arith, none, Bool-cases, inl, inr, ◌∷◌, ◌≤◌,
}
use neoha.Common.Result.{Result, ok, err, Error}
use neoha.Mysql.{Server, Mysql, MysqlState, Query, Entry, get_db, MysqlConfig}
use neoha.Mysql.Handler.{ping_slave}
use neoha.Mysql.Ping.{
  ping, pings, reach, handle_ping_failure, should_defer_failover, is_too_many_connections, is_dead,
  ping_succeeded, care_for_repl_user, pinged,
}

file_of : Result String → String
file_of (ok f) = f
file_of (err e) = ""

-- The state after an answer that names the file.
Recovered : String → Mysql → Type 0
Recovered file m =
    (m.state ≡ MysqlState.alive)
    × (m.downs ≡ 0)
    × (m.relay_master_log_file ≡ file)
    × (should_defer_failover m ≡ false)

pinged_lem :
    (s : Server) (x : Result String × Mysql) (file : String)
    → x.0 ≡ ok file
    → Recovered file (pinged s x)
unfolding Recovered ping_succeeded should_defer_failover file_of is_dead
pinged_lem s (ok f, m) file h =
    let never : should_defer_failover (ping_succeeded f (care_for_repl_user s m).1) ≡ false =
      ground (arith) in
    (refl, refl, ap file_of h, never)
pinged_lem s (err e, m) file h = absurd (cc)

-- A ping that reaches the server makes the node alive from any state, whatever becomes of the
-- replication user: the count of failures is zero, the file that is applied is the one of the
-- answer, and the leader does not defer its failover.
pub ping_recovers :
    (s : Server) (m : Mysql) (file : String)
    → (reach s m).0 ≡ ok file
    → ((ping s m).state ≡ MysqlState.alive)
      × ((ping s m).downs ≡ 0)
      × ((ping s m).relay_master_log_file ≡ file)
      × (should_defer_failover (ping s m) ≡ false)
unfolding ping Recovered
ping_recovers s m file h = pinged_lem s (reach s m) file h

unless-and : (f t : Bool) → (if f then false else t) ≡ (not f && t)
unless-and true t = refl
unless-and false t = refl

-- What is asked of the state `m'` that pings of `m` leave, whose last one found `k` failures.
abbrev pub Failed : Error → ℕ → Mysql → Mysql → Type 0
Failed e k m m' =
    (m'.downs ≡ suc k)
    × (m'.state ≡ (if ltb m.conf.admit_defeat_ping_cnt k then MysqlState.dead else m.state))
    × (should_defer_failover m' ≡ (
        if ltb m.conf.admit_defeat_ping_cnt k
        then not m.conf.failover_on_too_many_connections && is_too_many_connections e
        else should_defer_failover m))

failed_lem :
    (e : Error) (m : Mysql) (b : Bool)
    → ltb m.conf.admit_defeat_ping_cnt m.downs ≡ b
    → Failed e m.downs m (handle_ping_failure e m) × ((handle_ping_failure e m).conf ≡ m.conf)
unfolding handle_ping_failure should_defer_failover is_dead
failed_lem e m true h =
    rw (h, handle_ping_failure)
      (
        (
          ground (arith),
          refl,
          unless-and m.conf.failover_on_too_many_connections (is_too_many_connections e),
        ),
        refl,
      )
failed_lem e m false h = rw (h, handle_ping_failure) ((ground (arith), refl, refl), refl)

the_count : (n : ℕ) → n ≡ n + 0
the_count n = omega arith

-- What happened above the limit happened again at the next failure.
escalate :
    {A : Type 0} (c k l : ℕ) (d x y z : A)
    → y ≡ (if ltb c k then d else x)
    → z ≡ (if ltb c l then d else y)
    → k ≤ l
    → z ≡ (if ltb c l then d else x)
escalate c k l d x y z h g le = elim (Bool-cases (ltb c l)) [
  | inl u ↦ rw (u) (rw (u) at g)
  | inr u ↦ let v : ltb c k ≡ false = ground (arith) in rw (u) ((rw (u) at g) ∙ (rw (v) at h))
]

Failed-again :
    (e : Error) (k l : ℕ) (m m1 m2 : Mysql)
    → Failed e k m m1
    → m1.conf ≡ m.conf
    → Failed e l m1 m2
    → k ≤ l
    → Failed e l m m2
Failed-again e k l m m1 m2 (a, b, c) h (a', b', c') le =
    let dead_at = λ (f : MysqlConfig).
      m2.state ≡ (if ltb f.admit_defeat_ping_cnt l then MysqlState.dead else m1.state) in
    let defer_at = λ (f : MysqlConfig). should_defer_failover m2 ≡ (
      if ltb f.admit_defeat_ping_cnt l
      then not f.failover_on_too_many_connections && is_too_many_connections e
      else should_defer_failover m1) in
    (
      a',
      escalate m.conf.admit_defeat_ping_cnt k l _ _ _ _ b (subst dead_at h b') le,
      escalate m.conf.admit_defeat_ping_cnt k l _ _ _ _ c (subst defer_at h c') le,
    )

module _ (s : Server) (e : Error) (opens : (l : List Entry) → s.connect l ≡ none)
    (silent : (l : List Entry) → s.rows l Query.slave_status ≡ err e) where
  reach_fails :
      (m : Mysql)
      → reach s m
        ≡ (err e, record m { connected = true; log = Entry.asked Query.slave_status ∷ m.log })
  unfolding get_db ping_slave
  reach_fails m = elim (Bool-cases m.connected) [
    | inl c ↦ rw (c, silent m.log, get_db, ping_slave) refl
    | inr c ↦ rw (c, opens m.log, silent m.log, get_db, ping_slave) refl
  ]

  Failed-once : (m : Mysql) → Failed e m.downs m (ping s m) × ((ping s m).conf ≡ m.conf)
  unfolding ping should_defer_failover
  Failed-once m =
      rw (reach_fails m, ping)
        (failed_lem e (record m { connected = true; log = Entry.asked Query.slave_status ∷ m.log })
          _ refl)

  -- With a server that can be connected to and answers SHOW SLAVE STATUS with the same error at
  -- all times, after n + 1 pings the count of failures has grown by n + 1. The node is dead if
  -- the failures before the last ping are more than the limit, and in its old state otherwise.
  -- If they are more, the leader defers its failover just when the error is that of too many
  -- connections and the configuration does not ask for a failover then; otherwise as before.
  pub pings_fail : (n : ℕ) (m : Mysql) → Failed e (m.downs + n) m (pings s (suc n) m)
  unfolding pings
  pings_fail zero m = subst (λ k. Failed e k m (ping s m)) (the_count m.downs) (Failed-once m).0
  pings_fail (suc n) m =
      let first = Failed-once m in
      let rest = pings_fail n (ping s m) in
      subst (λ k. Failed e k m (pings s (suc n) (ping s m))) (ground (arith, first.0.0))
        (Failed-again e m.downs ((ping s m).downs + n) m (ping s m) (pings s (suc n) (ping s m))
          first.0 first.1 rest (ground (arith, first.0.0)))
