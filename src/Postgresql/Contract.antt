-- ===== src/Postgresql/Contract.antt =====
-- internal/database/postgresql/driver.go keeps the contract of the HA layer, as far as the server
-- was last seen.
use neoha.Common.{
  Bool, true, false, not, ◌&&◌, List, [], ◌∷◌, ◌≡◌, ap, ◌∙◌, Bool-cases, inl, inr, arith,
  if◌then◌else◌,
}
use neoha.Common.Result.{ok, err}
use neoha.Common.Text.{is_empty}
use neoha.Driver.{PrimaryRef, Health, ClosesWrites}
use neoha.Postgresql.{Host, Postgresql, Event, Link, M, ◌>>◌, fail, check_ctx}
use neoha.Postgresql.Api
use neoha.Postgresql.Applier.{
  postgresql_driver, demote, status, apply_replica, follow, rewind_first, uses_slots,
}
use neoha.Postgresql.Frame.{Frame, after-ends}
use neoha.Postgresql.Frame.Follow.{apply_streaming_replica-Calm}

-- Whether the last sign of the local server was that of a primary that can be reached: it is not
-- when the pool was not opened, a ping failed, or the server was in recovery.
unfoldable pub serves : List Event → Bool
serves [] = true
serves (Event.opened Link.local b ∷ es) = b
serves (Event.opened (Link.remote i) b ∷ es) = serves es
serves (Event.pinged Link.local b ∷ es) = b
serves (Event.pinged (Link.remote i) b ∷ es) = serves es
serves (Event.recovery (ok b) ∷ es) = not b
serves (Event.recovery (err e) ∷ es) = true
serves (Event.queried l q ∷ es) = serves es
serves (Event.ran l q args b ∷ es) = serves es
serves (Event.program name args b ∷ es) = serves es
serves (Event.looked_up path ∷ es) = serves es
serves (Event.created path b ∷ es) = serves es

-- The layer has not opened the database, or the server was last seen to take no writes.
abbrev pub Closed : Postgresql → Type 0
Closed p = (p.writable && serves p.log) ≡ false

abbrev pub Shut : Postgresql → Type 0
Shut p = p.writable ≡ false

module _ (h : Host) where
  pub read_only-Shut :
      (p : Postgresql)
      → (Api.set_default_read_only h true p).0 ≡ ok tt
      → (Api.set_default_read_only h true p).1.writable ≡ false
  unfolding Api.set_default_read_only Api.get_db
  read_only-Shut p e = ground arith

  demoted : (p : Postgresql) → (demote h p).0 ≡ ok tt → Closed (demote h p).1
  unfolding demote
  demoted p e = ground (arith, read_only-Shut p)

  reported :
      (p : Postgresql) (s : Health)
      → (status h p).0 ≡ ok s
      → s.writable ≡ false
      → Closed (status h p).1
  unfolding status serves Api.ping_db Api.get_db Api.is_in_recovery
  reported p s e k = ground arith

  -- What follows the check of the context, and the setting of a source, which leaves the flag.
  abbrev pub rest : PrimaryRef → M (Unit {0})
  rest r =
      if is_empty r.host && is_empty r.member_id
      then fail "postgresql.ApplyReplica: primary endpoint required"
      else (rewind_first h r >> Api.set_default_read_only h true >> follow h r)

  closed_first :
      (r : PrimaryRef) (p : Postgresql)
      → ((rewind_first h r >> Api.set_default_read_only h true >> follow h r) p).0 ≡ ok tt
      → Shut ((rewind_first h r >> Api.set_default_read_only h true >> follow h r) p).1
  closed_first r p =
      let closing = (rewind_first h r >> Api.set_default_read_only h true) p in
      after-ends Shut tt closing (λ _. follow h r)
        (λ u e _.
          ap (λ (f : Frame). f.0)
            (apply_streaming_replica-Calm h r r.member_id (uses_slots closing.1.conf) closing.1)
          ∙ after-ends Shut tt (rewind_first h r p) (λ _. Api.set_default_read_only h true)
              (λ _ _. read_only-Shut (rewind_first h r p).1) e)

  rest-Shut : (r : PrimaryRef) (p : Postgresql) → (rest r p).0 ≡ ok tt → Shut (rest r p).1
  rest-Shut r p = elim (Bool-cases (is_empty r.host && is_empty r.member_id)) [
    | inl e ↦ rw e (λ k. absurd (cc k))
    | inr e ↦ rw e (closed_first r p)
  ]

  pub replicated :
      (r : PrimaryRef) (p : Postgresql)
      → (apply_replica h r p).0 ≡ ok tt
      → (apply_replica h r p).1.writable ≡ false
  unfolding apply_replica
  replicated r p = after-ends Shut tt (check_ctx h p) (λ _. rest r) (λ _ _. rest-Shut r p)

  pub postgresql_driver-ClosesWrites : ClosesWrites (postgresql_driver h) Closed
  unfolding postgresql_driver
  postgresql_driver-ClosesWrites = record {
    demoted = demoted;
    reported = reported;
    joined = λ p c. c;
    replicated = λ r p c e. ap (λ b. b && serves (apply_replica h r p).1.log) (replicated r p e);
  }
