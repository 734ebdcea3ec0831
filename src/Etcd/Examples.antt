-- ===== src/Etcd/Examples.antt =====
-- An etcd whose leases are numbers in turn, of which the older ones have expired, and two
-- coordinators that stand for its key.
use neoha.Common.{
  ap, sym, str_eq, str_eq_iff, Bool, true, false, ◌&&◌, ℕ, ◌+◌, ◌==◌, ◌||◌, not, Bool-cases, inl,
  inr, ◌⊎◌, List, ◌∷◌, leb, ltb, String, Option, none, some, [], if◌then◌else◌, ◌≡◌, ◌≢◌, refl,
  arith,
}
use neoha.Common.Result.{Result, ok, is_ok}
use neoha.Etcd.{
  Config, EtcdConfig, Store, Coordinator, Phase, Compare, TxnOp, TxnAnswer, TxnResponse,
  create_revision_is, op_put, op_get, put_answer, range_answer, leader_key, new_coordinator,
  try_acquire_leader,
}
use neoha.Etcd.Leases.{Sight, Moves, Laws, Puts, Performs, Holds, System, tick, Run}
use neoha.Etcd.Exclusion.{one_live_leader}

record Etcd : Type 0 where
  next : ℕ
  expired : ℕ  -- all leases below
  holder : Option (String × ℕ)

abbrev sight : Sight Etcd
sight = record {
  live = λ l e. leb e.expired l && ltb l e.next;
  given = λ l e. ltb l e.next;
  holder = λ e. e.holder;
  create_revision = λ e. elim e.holder [ none ↦ 0 | some h ↦ 1 ];
}

abbrev key : String
key = "/service/database/leader"

abbrev values : Option (String × ℕ) → List String
values none = []
values (some (v, l)) = v ∷ []

abbrev holds_now : List Compare → Etcd → Bool
holds_now [] e = true
holds_now (create_revision_is j n ∷ cs) e =
    (not (str_eq j key) || sight.create_revision e == n) && holds_now cs e

abbrev put_at : Bool → String → ℕ → Etcd → Etcd
put_at true v l e = record e { holder = some (v, l) }
put_at false v l e = e

abbrev perform : TxnOp → Etcd → TxnAnswer × Etcd
perform (op_put j v l) e = (put_answer, put_at (str_eq j key) v l e)
perform (op_get j) e = (range_answer (values e.holder), e)

abbrev answered : Bool → TxnAnswer × Etcd → Result TxnResponse × Etcd
answered b (a, e) = (ok (record { succeeded = b; responses = a ∷ [] }), e)

abbrev store : Store Etcd
store = record {
  grant = λ t e. (ok e.next, record e { next = e.next + 1 });
  keep_alive_once = λ l e. (ok tt, e);
  txn = λ cs a b e.
      if holds_now cs e then answered true (perform a e) else answered false (perform b e);
  get = λ k e. (ok none, e);
  get_all = λ k e. (ok [], e);
  put = λ k v e. (ok tt, e);
  remove = λ k e. (ok tt, e);
}

abbrev config : String → Config
config name = record {
  name_space = "";
  scope = "";
  endpoint = name;
  name = name;
  db_type = "mysql";
  etcd = none;
  dcs_ttl = none;
  mysql_endpoint = none;
  postgresql_address = none;
}

keys : (name : String) → leader_key (config name) ≡ "/service/database/leader"
unfolding leader_key neoha.Etcd.cluster_prefix
keys name = refl

same : (e : Etcd) → Moves sight e e
same e = record { dead_stays = λ l h a. a; given_stays = λ l h. h; key_stays = λ v l h a. h }

put-Puts :
    (j v : String) (l : ℕ) (b : Bool) (e : Etcd)
    → (j ≡ key → b ≡ true)
    → Puts sight (j ≡ key) v l e (put_at b v l e)
put-Puts j v l true e h = record {
  dead_stays = λ i g a. a;
  given_stays = λ i g. g;
  writes = λ q. refl;
}
put-Puts j v l false e h = record {
  dead_stays = λ i g a. a;
  given_stays = λ i g. g;
  writes = λ q. absurd (ground (arith, h q));
}

is_key : (j : String) → j ≡ key → str_eq j key ≡ true
is_key j q = (str_eq_iff j key).1 q

perform-Performs : (a : TxnOp) (e : Etcd) → Performs sight key a e (perform a e).1
perform-Performs (op_put j v l) e = put-Puts j v l (str_eq j key) e (λ q. is_key j q)
perform-Performs (op_get j) e = same e

holds_now-Holds : (cs : List Compare) (e : Etcd) → holds_now cs e ≡ true → Holds sight key cs e
holds_now-Holds [] e h = tt
holds_now-Holds (create_revision_is j n ∷ cs) e h =
    (λ q. ground (arith, h, is_key j q), holds_now-Holds cs e (ground (arith, h)))

revision_zero : (e : Etcd) → sight.create_revision e ≡ 0 → e.holder ≡ none
revision_zero e h = ground (arith, h)

txn_does :
    (cs : List Compare) (a b : TxnOp) (e : Etcd)
    → (Moves sight e (store.txn cs a b e).1 × (is_ok (store.txn cs a b e).0 ≡ false))
      ⊎ (Holds sight key cs e
          × Performs sight key a e (store.txn cs a b e).1
          × ((r : TxnResponse) → (store.txn cs a b e).0 ≡ ok r → r.succeeded ≡ true))
      ⊎ (Performs sight key b e (store.txn cs a b e).1
          × ((r : TxnResponse) → (store.txn cs a b e).0 ≡ ok r → r.succeeded ≡ false))
txn_does cs a b e = elim (Bool-cases (holds_now cs e)) [
  | inl h ↦
      rw h (inr (inl (holds_now-Holds cs e h, perform-Performs a e, λ r q. ground (arith, q))))
  | inr h ↦ rw h (inr (inr (perform-Performs b e, λ r q. ground (arith, q))))
]

grant-Moves : (e : Etcd) → Moves sight e (record e { next = e.next + 1 })
grant-Moves e = record {
  dead_stays = λ l h a. ground (arith, h, a);
  given_stays = λ l h. ground (arith, h);
  key_stays = λ v l h a. h;
}

granted : (e : Etcd) (l : ℕ) → ◌≡◌ {A = Result ℕ} (ok e.next) (ok l) → ltb l (e.next + 1) ≡ true
granted e l h = ground (arith, h)

laws : Laws store sight "/service/database/leader"
laws = record {
  keep_alive_moves = λ l e. same e;
  grant_moves = λ t e. grant-Moves e;
  grant_gives = λ t e l h. granted e l h;
  revision_zero = revision_zero;
  txn_does = txn_does;
}

abbrev member : String → Coordinator
member name = record (new_coordinator (config name)) { client = true }

abbrev at_start : System Etcd
at_start = record {
  nodes = λ i. record { coord = member (if i == 0 then "a" else "b"); phase = Phase.at_rest };
  env = record { next = 1; expired = 0; holder = none };
}

abbrev a_leads : System Etcd
a_leads = tick store 0 (tick store 0 (tick store 0 at_start))

abbrev a_expired : System Etcd
a_expired = record a_leads { env = record { next = 2; expired = 2; holder = none } }

abbrev b_leads : System Etcd
b_leads = tick store 1 (tick store 1 (tick store 1 a_expired))

expires : Moves sight a_leads.env a_expired.env
unfolding neoha.Etcd.advance new_coordinator str_eq leader_key neoha.Etcd.cluster_prefix
expires = record {
  dead_stays = λ l h a. ground (arith, h, a);
  given_stays = λ l h. h;
  key_stays = λ v l h a. absurd (ground (arith, a));
}

different : ◌≢◌ {A = Bool} true false
different h = ground (arith, h)

is_a : String → Bool
is_a t = str_eq t "a"

differ : ◌≢◌ {A = String} "b" "a"
unfolding is_a str_eq
differ q = different (sym (ap is_a q))

run : Run store sight at_start b_leads
run = Run.go_on _ _ 0 (
    Run.go_on _ _ 0 (
      Run.go_on _ _ 0 (
        Run.drift _ _ a_expired.env expires
          (Run.go_on _ _ 1 (Run.go_on _ _ 1 (Run.go_on _ _ 1 (Run.stay _)))))))

-- The second leads, and the first still takes itself for the leader.
one_live_leader_example : sight.live (b_leads.nodes 0).coord.lease_id b_leads.env ≡ false
unfolding new_coordinator neoha.Etcd.advance str_eq leader_key neoha.Etcd.cluster_prefix
one_live_leader_example =
    one_live_leader store sight "/service/database/leader" laws at_start b_leads run
      (λ i. keys (if i == 0 then "a" else "b")) (λ i. refl) (λ i. refl) 1 0 refl refl differ refl
