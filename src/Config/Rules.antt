-- ===== src/Config/Rules.antt =====
-- What the validation of internal/config/config_validate.go ensures, and that it is done once.
use neoha.Common.{
  Bool, true, false, ◌||◌, String, Option, none, some, if◌then◌else◌, ◌≡◌, refl, ap, sym, ◌∙◌,
  arith, Bool-cases, Option-cases, ◌⊎◌, inl, inr,
}
use neoha.Common.Result.{Result, ok, Error}
use neoha.Common.Text.{is_empty, trim_space, is_zero}
use neoha.Config.{
  default_election, default_coordination, default_hooks, checked, Config, ElectionConfig,
  CoordinationConfig, DatabaseConfig, PrimaryHooksConfig, DcsConfig, PostgresqlConfig, normalize,
  validate, or_text, or_other, or_mysql, or_default, effective_coordination, merge_dcs,
  check_coordination, check_database, lower_is, default_database,
}

-- A configuration with all its sections.
abbrev full :
    Config → ElectionConfig → CoordinationConfig → DatabaseConfig → PrimaryHooksConfig → Config
full c e k d h = record c {
  election = some e;
  coordination = some k;
  database = some d;
  ha = some (some h);
}

or_text_twice : (p a : String) → or_text (or_text p a) (or_text a (or_text p a)) ≡ or_text p a
or_text_twice p a = ground (arith)

or_text_back :
    (p a : String) → or_text (or_text a (or_text p a)) (or_text p a) ≡ or_text a (or_text p a)
or_text_back p a = ground (arith)

or_other_twice :
    {A : Type 0} (o e : Option A)
    → or_other (or_other o e) (or_other e (or_other o e)) ≡ or_other o e
or_other_twice none none = refl
or_other_twice none (some a) = refl
or_other_twice (some b) e = refl

or_other_back :
    {A : Type 0} (o e : Option A)
    → or_other (or_other e (or_other o e)) (or_other o e) ≡ or_other e (or_other o e)
or_other_back none none = refl
or_other_back none (some a) = refl
or_other_back (some b) none = refl
or_other_back (some b) (some a) = refl

mysql_kept : or_mysql "mysql" ≡ "mysql"
unfolding trim_space
mysql_kept = refl

or_mysql_twice : (t : String) → or_mysql (or_mysql t) ≡ or_mysql t
or_mysql_twice t = elim (Bool-cases (is_empty (trim_space t))) [
  | inl e ↦ rw (e) mysql_kept
  | inr e ↦ rw (e, e) refl
]

full_normal :
    (c : Config) (e : ElectionConfig) (k : CoordinationConfig) (d : DatabaseConfig)
    (h : PrimaryHooksConfig)
    → or_text k.provider e.algo ≡ k.provider
    → or_text e.algo k.provider ≡ e.algo
    → or_other k.raft e.raft ≡ k.raft
    → or_other e.raft k.raft ≡ e.raft
    → or_other k.etcd e.etcd ≡ k.etcd
    → or_other e.etcd k.etcd ≡ e.etcd
    → or_mysql d.db_type ≡ d.db_type
    → normalize (full c e k d h) ≡ full c e k d h
unfolding normalize
full_normal c e k d h p a kr er ke ee t = rw (p, a, kr, er, ke, ee, t, normalize) refl

either_twice :
    {A : Type 0} (z : A → Bool) (p b : A)
    → (if z (if z p then b else p) then b else (if z p then b else p)) ≡ (if z p then b else p)
either_twice z p b = elim (Bool-cases (z p)) [
  | inl e ↦ rw (e) (elim (Bool-cases (z b)) [ inl f ↦ rw (f) refl | inr f ↦ rw (f) refl ])
  | inr e ↦ rw (e, e) refl
]

or_twice : (x y : Bool) → ((x || y) || y) ≡ (x || y)
or_twice true y = refl
or_twice false true = refl
or_twice false false = refl

merge_dcs_twice :
    (b : Option DcsConfig) (p : PostgresqlConfig) → merge_dcs b (merge_dcs b p) ≡ merge_dcs b p
unfolding merge_dcs
merge_dcs_twice none p = refl
merge_dcs_twice (some b) p =
    rw
      (
        either_twice is_zero p.maximum_lag b.maximum_lag,
        or_twice p.use_slots b.use_slots,
        or_twice p.use_pg_rewind b.use_pg_rewind,
      )
      refl

-- The sections of a normal configuration agree.
record Agree (e : ElectionConfig) (k : CoordinationConfig) (t : String) : Type 0 where
  provider : or_text k.provider e.algo ≡ k.provider
  algo : or_text e.algo k.provider ≡ e.algo
  raft : or_other k.raft e.raft ≡ k.raft
  election_raft : or_other e.raft k.raft ≡ e.raft
  etcd : or_other k.etcd e.etcd ≡ k.etcd
  election_etcd : or_other e.etcd k.etcd ≡ e.etcd
  db_type : or_mysql t ≡ t

stays_full :
    (c : Config) (e : ElectionConfig) (k : CoordinationConfig) (d : DatabaseConfig)
    (h : PrimaryHooksConfig)
    → Agree e k d.db_type
    → normalize (full c e k d h) ≡ full c e k d h
stays_full c e k d h a =
    full_normal c e k d h a.provider a.algo a.raft a.election_raft a.etcd a.election_etcd a.db_type

validate_normal :
    (f : Config)
    → normalize f ≡ f
    → validate f ≡ checked (check_coordination f (effective_coordination f)) f
unfolding validate
validate_normal f n = ap (λ c. checked (check_coordination c (effective_coordination c)) c) n

-- The checks of the database leave the configuration, or fill the section of PostgreSQL in.
not_filled :
    (d : DatabaseConfig) (f : Config) (m g : Bool)
    → (lower_is (trim_space d.db_type) "mysql" || is_empty (trim_space d.db_type)) ≡ m
    → (lower_is (trim_space d.db_type) "postgresql" || lower_is (trim_space d.db_type) "postgres")
      ≡ g
    → ((check_database d f).1 ≡ f)
      ⊎ ((p : PostgresqlConfig) × (m ≡ false)
          × (g ≡ true)
          × (d.postgresql ≡ some p)
          × (check_database d f ≡ (
            ok tt,
            record f { database = some (record d { postgresql = some (merge_dcs f.dcs p) }) },
          )))
unfolding check_database
not_filled d f true g u v = inl (rw (u, check_database) refl)
not_filled d f false false u v = inl (rw (u, v, check_database) refl)
not_filled d f false true u v = elim (Option-cases d.postgresql) [
  | inl n ↦ inl (rw (u, v, n, check_database) refl)
  | inr (p, n) ↦ inr (p, refl, refl, n, rw (u, v, n, check_database) refl)
]

-- The checks of the provider do not read the database.
kept_check :
    (c : Config) (e : ElectionConfig) (k : CoordinationConfig) (d d' : DatabaseConfig)
    (h : PrimaryHooksConfig)
    → check_coordination (full c e k d' h) (effective_coordination (full c e k d' h))
      ≡ check_coordination (full c e k d h) (effective_coordination (full c e k d h))
unfolding check_coordination effective_coordination
kept_check c e k d d' h = refl

refilled :
    (c : Config) (e : ElectionConfig) (k : CoordinationConfig) (d : DatabaseConfig)
    (h : PrimaryHooksConfig) (p : PostgresqlConfig)
    → (lower_is (trim_space d.db_type) "mysql" || is_empty (trim_space d.db_type)) ≡ false
    → (lower_is (trim_space d.db_type) "postgresql" || lower_is (trim_space d.db_type) "postgres")
      ≡ true
    → check_database
        (record d { postgresql = some (merge_dcs c.dcs p) })
        (full c e k (record d { postgresql = some (merge_dcs c.dcs p) }) h)
      ≡ (ok tt, full c e k (record d { postgresql = some (merge_dcs c.dcs p) }) h)
unfolding check_database
refilled c e k d h p m g = rw (m, g, merge_dcs_twice c.dcs p, check_database) refl

again :
    (c : Config) (e : ElectionConfig) (k : CoordinationConfig) (d : DatabaseConfig)
    (h : PrimaryHooksConfig)
    → Agree e k d.db_type
    → (x : Option Error)
    → check_coordination (full c e k d h) (effective_coordination (full c e k d h)) ≡ x
    → validate (checked x (full c e k d h)).1 ≡ checked x (full c e k d h)
again c e k d h a (some y) q =
    let f = full c e k d h in validate_normal f (stays_full c e k d h a) ∙ ap (λ x. checked x f) q
again c e k d h a none q =
    let f = full c e k d h in
    let v : validate f ≡ check_database d f =
      validate_normal f (stays_full c e k d h a) ∙ ap (λ x. checked x f) q in
    elim (not_filled d f _ _ refl refl) [
      | inl u ↦ ap validate u ∙ v
      | inr (p, m, g, n, u) ↦
          let d' = record d { postgresql = some (merge_dcs c.dcs p) } in
          let f' = full c e k d' h in
          let w : validate f' ≡ check_database d' f' =
            validate_normal f' (stays_full c e k d' h a)
            ∙ ap (λ x. checked x f') (kept_check c e k d d' h ∙ q) in
          ap (λ (r : Result (Unit {0}) × Config). validate r.1) u
          ∙ w
          ∙ refilled c e k d h p m g
          ∙ sym u
    ]

-- Validating a configuration again changes nothing: the second call returns the result of the
-- first, error or not, and leaves the configuration as the first left it.
pub validate_again : (c : Config) → validate (validate c).1 ≡ validate c
unfolding validate normalize
validate_again c =
    let e0 = or_default default_election c.election in
    let k0 = or_default default_coordination c.coordination in
    let d0 = or_default default_database c.database in
    let provider = or_text k0.provider e0.algo in
    let raft = or_other k0.raft e0.raft in
    let etcd = or_other k0.etcd e0.etcd in
    let e : ElectionConfig = record {
      algo = or_text e0.algo provider;
      raft = or_other e0.raft raft;
      etcd = or_other e0.etcd etcd;
    } in
    let k : CoordinationConfig = record { provider = provider; raft = raft; etcd = etcd } in
    let d = record d0 { db_type = or_mysql d0.db_type } in
    let a : Agree e k d.db_type = record {
      provider = or_text_twice k0.provider e0.algo;
      algo = or_text_back k0.provider e0.algo;
      raft = or_other_twice k0.raft e0.raft;
      election_raft = or_other_back k0.raft e0.raft;
      etcd = or_other_twice k0.etcd e0.etcd;
      election_etcd = or_other_back k0.etcd e0.etcd;
      db_type = or_mysql_twice d0.db_type;
    } in
    again c e k d (or_default default_hooks (or_default (some default_hooks) c.ha)) a _ refl
