-- ===== src/Config/Examples.antt =====
-- Configurations that are accepted, and what becomes of the older spelling of a section.
use neoha.Common.{Bool, true, false, String, Option, none, some, List, [], ◌∷◌, ◌≡◌, refl}
use neoha.Common.Result.{ok}
use neoha.Common.Text.{pos}
use neoha.Config.{
  Config, ElectionConfig, default_election, default_coordination, default_database, default_etcd,
  default_hooks, effective_coordination, normalize, validate,
}
use neoha.Config.Rules.{validate_again}

abbrev defaults : Config
defaults = record {
  endpoint = "127.0.0.1:8080";
  election = some default_election;
  coordination = some default_coordination;
  dcs = some (record { maximum_lag = pos 1048576; use_slots = true; use_pg_rewind = true });
  database = some default_database;
  ha = some (some default_hooks);
}

abbrev on_postgres : Config
on_postgres = record defaults {
  coordination = none;
  database = some (record default_database { db_type = " Postgres" });
}

abbrev on_etcd : ElectionConfig
on_etcd = record {
  algo = "etcd";
  raft = none;
  etcd = some (record default_etcd { host = "127.0.0.1:2379" });
}

validate_again_example : validate (validate on_postgres).1 ≡ validate on_postgres
validate_again_example = validate_again on_postgres

-- A file is read onto the defaults, so its election section alone does not choose the provider.
legacy_test :
    (effective_coordination (normalize (record defaults { election = some on_etcd }))).provider
    ≡ "raft"
unfolding effective_coordination normalize
legacy_test = refl

-- Any case of the letters is accepted, and kept.
provider_test :
    validate
      (record defaults { coordination = some (record default_coordination { provider = "Raft" }) })
    ≡ (
      ok tt,
      record defaults { coordination = some (record default_coordination { provider = "Raft" }) },
    )
unfolding validate neoha.Common.Text.trim_space neoha.Common.str_eq
provider_test = refl
