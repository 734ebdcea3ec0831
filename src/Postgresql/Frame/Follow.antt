-- ===== src/Postgresql/Frame/Follow.antt =====
-- Following a primary, and being rewound, leave the flag and the configuration alone.
use neoha.Common.{Bool, true, false, String, refl, Bool-cases, inl, inr, arith}
use neoha.Common.Text.{is_empty}
use neoha.Driver.{PrimaryRef}
use neoha.Postgresql.{Host, PostgresqlConfig, M, ◌>>=◌, ◌>>◌, close}
use neoha.Postgresql.Api
use neoha.Postgresql.Conninfo.{build_primary_conninfo}
use neoha.Postgresql.Process.{pg_ctl_stop, pg_ctl_start}
use neoha.Postgresql.Replica.{
  ensure_physical_slot_on_primary, set_recovery_primary_conninfo, set_recovery_primary_slot_name,
  reload_conf, restart_into_recovery, restart_unless, require_recovery, apply_streaming_replica,
  primary_slot_name, only_if,
}
use neoha.Postgresql.Frame.{
  Calm, chain-Calm, with_db-Calm, is_in_recovery-Calm, wait_ready-Calm, pg_ctl_stop-Calm,
  pg_ctl_start-Calm,
}

-- `Calm` with its operation in sight.
pub record Kept {A : Type 0} (m : M A) : Type 0 where
  pub calm : Calm m

pub kept : {A : Type 0} (m : M A) → Calm m → Kept m
kept m c = record { calm = c }

pub then_kept : {A B : Type 0} {x : M A} {y : M B} → Kept x → Kept y → Kept (x >> y)
then_kept {x} {y} c d = record { calm = chain-Calm x (λ _. y) c.calm (λ _. d.calm) }

pub bind_Calm :
    {A B : Type 0} {x : M A} (f : A → M B) → Kept x → ((a : A) → Calm (f a)) → Calm (x >>= f)
bind_Calm {x} f c d = chain-Calm x f c.calm d

pub close-Calm : Calm close
unfolding close
close-Calm p = refl

only_if-Calm : (h : Host) (b : Bool) (m : M (Unit {0})) → Calm m → Calm (only_if h b m)
only_if-Calm h true m c p = c p
only_if-Calm h false m c p = refl

module _ (h : Host) where
  slot-Calm : (r : PrimaryRef) (slot : String) → Calm (ensure_physical_slot_on_primary h r slot)
  unfolding ensure_physical_slot_on_primary
  slot-Calm r slot p = ground arith

  conninfo-Calm : (i : String) → Calm (set_recovery_primary_conninfo h i)
  unfolding set_recovery_primary_conninfo
  conninfo-Calm i = with_db-Calm h _ (λ p. refl)

  slot_name-Calm : (i : String) → Calm (set_recovery_primary_slot_name h i)
  unfolding set_recovery_primary_slot_name
  slot_name-Calm i p = elim (Bool-cases (is_empty i)) [
    | inl e ↦ rw e refl
    | inr e ↦ rw e (with_db-Calm h _ (λ p. refl) p)
  ]

  reload-Calm : Calm (reload_conf h)
  unfolding reload_conf
  reload-Calm = with_db-Calm h _ (λ p. refl)

  require-Calm : (b : Bool) → Calm (require_recovery h b)
  require-Calm true p = refl
  require-Calm false p = refl

  restart-Calm : (c : PostgresqlConfig) → Calm (restart_into_recovery h c)
  unfolding restart_into_recovery
  restart-Calm c =
      let stopped =
        then_kept (kept close close-Calm) (kept (pg_ctl_stop h c) (pg_ctl_stop-Calm h c)) in
      let started = then_kept stopped (kept (pg_ctl_start h c) (pg_ctl_start-Calm h c)) in
      let ready = then_kept started (kept (Api.wait_ready h 61) (wait_ready-Calm h 61)) in
      let asked = then_kept ready (kept (Api.is_in_recovery h) (is_in_recovery-Calm h)) in
      bind_Calm (require_recovery h) asked require-Calm

  restart_unless-Calm : (c : PostgresqlConfig) (b : Bool) → Calm (restart_unless h c b)
  restart_unless-Calm c true p = refl
  restart_unless-Calm c false p = restart-Calm c p

  pub apply_streaming_replica-Calm :
      (r : PrimaryRef) (member : String) (b : Bool) → Calm (apply_streaming_replica h r member b)
  unfolding apply_streaming_replica
  apply_streaming_replica-Calm r member b p =
      let c = p.conf in
      let slot = primary_slot_name c member in
      let info = build_primary_conninfo c r in
      let slot_step = ensure_physical_slot_on_primary h r slot in
      let name_step = set_recovery_primary_slot_name h slot in
      let slotted = kept (only_if h b slot_step) (only_if-Calm h b slot_step (slot-Calm r slot)) in
      let sourced =
        then_kept slotted (kept (set_recovery_primary_conninfo h info) (conninfo-Calm info)) in
      let named =
        then_kept sourced
          (kept (only_if h b name_step) (only_if-Calm h b name_step (slot_name-Calm slot))) in
      let asked =
        then_kept (then_kept named (kept (reload_conf h) reload-Calm))
          (kept (Api.is_in_recovery h) (is_in_recovery-Calm h)) in
      bind_Calm (restart_unless h c) asked (restart_unless-Calm c) p
