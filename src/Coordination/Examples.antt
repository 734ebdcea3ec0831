-- ===== src/Coordination/Examples.antt =====
-- A leader of the election whose database is promoted, and a provider that the checks accept.
use neoha.Common.{Bool, true, false, Option, none, some, List, [], ◌≡◌, refl, ◌⊎◌, String}
use neoha.Common.Result.{err, Error}
use neoha.Config.{Config, default_coordination, default_database}
use neoha.Coordination.{Adapter, new_coordinator}

abbrev adapter : Adapter
adapter = record { local_id = "10.0.0.1:8080"; member_name = "a"; db_type = "mysql" }

-- The choice of a backend takes the provider as it is written.
backend_test :
    new_coordinator
      (record {
        endpoint = "127.0.0.1:8080";
        election = none;
        coordination = some (record default_coordination { provider = "Raft" });
        dcs = none;
        database = some default_database;
        ha = none;
      })
      true
    ≡ err (Error.plain "unsupported coordination provider")
unfolding new_coordinator neoha.Common.str_eq neoha.Config.effective_coordination
backend_test = refl
