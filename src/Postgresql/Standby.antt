-- ===== src/Postgresql/Standby.antt =====
-- internal/database/postgresql/driver.go: when a standby may become the primary.
use neoha.Common.{true, not, ◌&&◌, Option, none, List, ◌≡◌, arith}
use neoha.Common.Result.{ok}
use neoha.Common.Text.{ℤ, is_positive}
use neoha.Postgresql.{Host, Postgresql, Event, Link, note}
use neoha.Postgresql.Api
use neoha.Postgresql.Api.{at_least_zero}
use neoha.Postgresql.Applier.{promotable, lt, within_lag, as_answer}

-- A standby that answers, with a lag that stands still: in recovery at all times.
pub record IsStandby (h : Host) (lag : Option ℤ) : Type 0 where
  pub going_on : (es : List Event) → h.ctx_err es ≡ none
  pub reachable : (es : List Event) → h.ping es Link.local ≡ none
  pub recovering : (es : List Event) → h.in_recovery es ≡ ok true
  pub lagging : (es : List Event) → h.lag es ≡ ok lag

module _ (h : Host) (lag : Option ℤ) (standby : IsStandby h lag) where
  abbrev with_ping : Postgresql → Postgresql
  with_ping p = note (Event.pinged Link.local true) p

  abbrev with_recovery : Postgresql → Postgresql
  with_recovery p = note (Event.recovery (ok true)) p

  pinged : (p : Postgresql) → p.connected ≡ true → Api.ping_db h p ≡ (ok tt, with_ping p)
  unfolding Api.ping_db Api.get_db
  pinged p c = ground (arith, standby.reachable p.log)

  in_recovery :
      (p : Postgresql) → p.connected ≡ true → Api.is_in_recovery h p ≡ (ok true, with_recovery p)
  unfolding Api.is_in_recovery Api.get_db
  in_recovery p c = ground (arith, standby.recovering p.log)

  asked : (p : Postgresql) → p.connected ≡ true → (Api.ask_lag h p).0 ≡ ok (at_least_zero lag)
  asked p c = ground (arith, standby.lagging p.log)

  measured :
      (p : Postgresql)
      → p.connected ≡ true
      → (Api.replication_lag_bytes h p).0 ≡ ok (at_least_zero lag)
  unfolding Api.replication_lag_bytes Api.get_db
  measured p c = ground (arith, in_recovery p c, asked (with_recovery p) c)

  judged :
      (p : Postgresql)
      → p.connected ≡ true
      → (as_answer (within_lag h p)).0.0
        ≡ not (
            is_positive p.conf.maximum_lag_on_failover
            && lt p.conf.maximum_lag_on_failover (at_least_zero lag))
  unfolding within_lag
  judged p c = ground (arith, measured p c)

  -- A standby that answers at all times is promotable if and only if its lag, where it is known
  -- and not negative, is within the limit; a limit of 0 or less is none.
  pub standby_promotable :
      (p : Postgresql)
      → p.connected ≡ true
      → (promotable h p).0.0
        ≡ not (
            is_positive p.conf.maximum_lag_on_failover
            && lt p.conf.maximum_lag_on_failover (at_least_zero lag))
  unfolding promotable
  standby_promotable p c = ground (
    arith,
    standby.going_on p.log,
    pinged p c,
    in_recovery (with_ping p) c,
    judged (with_recovery (with_ping p)) c,
  )
