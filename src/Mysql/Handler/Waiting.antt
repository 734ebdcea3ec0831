-- ===== src/Mysql/Handler/Waiting.antt =====
-- WaitApplyRelayLog of internal/database/mysql/mysqlbase.go looks for the first round without a rest.
use neoha.Common.{
  ℕ, zero, suc, ◌+◌, ◌*◌, ◌≤◌, ◌<◌, List, [], ◌∷◌, String, length, arith, Bool, true, false, str_eq,
  ◌≡◌, refl, ap, ◌∙◌, ◌⊎◌, inl, inr, Bool-cases,
}
use neoha.Common.Result.{Result, ok, err, Error}
use neoha.Raft.Wire.{Gtid}
use neoha.Mysql.{Server, Mysql, M, Query, Row, after, ◌>>=◌, return, attempt, ask, field}
use neoha.Mysql.Handler.{wait_apply_relay_log, get_mgr_gtid, gtid_diff, next_round, of_first}
use neoha.Mysql.Handler.Diff.{gtid_length}

-- The operation asks and runs at most so often.
abbrev Adds : {A : Type 0} → ℕ → M A → Type 0
Adds k x = (m : Mysql) → length (x m).1.log ≤ length m.log + k

after-Adds :
    {A B : Type 0} (k l : ℕ) (n : ℕ) (x : Result A × Mysql) (f : A → M B)
    → length x.1.log ≤ n + k
    → ((a : A) → Adds l (f a))
    → length (after x f).1.log ≤ n + (k + l)
after-Adds k l n (ok a, m) f h g = omega (arith, h, g a m)
after-Adds k l n (err e, m) f h g = omega (arith, h)

chain-Adds :
    {A B : Type 0} (k l : ℕ) (x : M A) (f : A → M B)
    → Adds k x
    → ((a : A) → Adds l (f a))
    → Adds (k + l) (x >>= f)
chain-Adds k l x f h g m = after-Adds k l (length m.log) (x m) f (h m) g

counted-Adds :
    (rows : List Row) → Adds 0 (of_first (return "") (λ r m. (gtid_length (field "RES" r), m)) rows)
counted-Adds [] m = omega arith
counted-Adds (r ∷ rs) m = omega arith

next_round-Adds :
    (k : ℕ) (rest : M (Unit {0})) → Adds k rest → (g : Result Gtid) → Adds k (next_round rest g)
next_round-Adds k rest h (ok g) m = ground (arith, h m)
next_round-Adds k rest h (err e) m = h m

module _ (s : Server) where
  ask-Adds : (q : Query) → Adds 1 (ask s q)
  ask-Adds q m = omega arith

  diff-Adds : (a b : String) → Adds 1 (gtid_diff s a b)
  unfolding gtid_diff
  diff-Adds a b =
      chain-Adds 1 0 (ask s (Query.gtid_subtract a b)) _ (ask-Adds (Query.gtid_subtract a b))
        counted-Adds

  gtid-Adds : Adds 3 (get_mgr_gtid s)
  unfolding get_mgr_gtid
  gtid-Adds =
      chain-Adds 1 2 (ask s Query.master_status) _ (ask-Adds Query.master_status) (λ masters.
        chain-Adds 1 1 (ask s Query.received_set) _ (ask-Adds Query.received_set)
          (λ received m. diff-Adds _ _ m))

  wait_apply_ends :
      (n : ℕ) (m : Mysql) → length (wait_apply_relay_log s n m).1.log ≤ length m.log + n * 3
  unfolding wait_apply_relay_log
  wait_apply_ends zero m = omega arith
  wait_apply_ends (suc n) m =
      let step =
        chain-Adds 3 (n * 3) (attempt (get_mgr_gtid s)) (next_round (wait_apply_relay_log s n))
          gtid-Adds (next_round-Adds (n * 3) (wait_apply_relay_log s n) (wait_apply_ends n)) m in
      omega (arith, step)

  -- The state behind so many rounds, and what the round behind them finds.
  unfoldable pub behind_rounds : ℕ → Mysql → Mysql
  behind_rounds zero m = m
  behind_rounds (suc n) m = behind_rounds n (get_mgr_gtid s m).1

  abbrev pub has_applied : Result Gtid → Bool
  has_applied (ok g) = str_eq g.txns_behind_master "0"
  has_applied (err e) = false

  abbrev pub applied_at : ℕ → Mysql → Bool
  applied_at k m = has_applied (get_mgr_gtid s (behind_rounds k m)).0

  -- The round `k` is the first that finds all applied, and the last one; or none of `n` does.
  abbrev pub Waited : ℕ → Mysql → Result (Unit {0}) × Mysql → Type 0
  Waited n m y =
      ((k : ℕ) × (k < n)
        × (applied_at k m ≡ true)
        × ((i : ℕ) → i < k → applied_at i m ≡ false)
        × (y ≡ (ok tt, behind_rounds (suc k) m)))
      ⊎ (((i : ℕ) → i < n → applied_at i m ≡ false)
          × (y ≡ (err (Error.plain "wait.until.after.gtid.failed[<nil>]"), behind_rounds n m)))

  earlier :
      (n : ℕ) (m : Mysql)
      → applied_at 0 m ≡ false
      → ((i : ℕ) → i < n → applied_at i (get_mgr_gtid s m).1 ≡ false)
      → (i : ℕ) → i < suc n
      → applied_at i m ≡ false
  unfolding behind_rounds
  earlier n m a h zero l = a
  earlier n m a h (suc i) l = h i (omega (arith, l))

  one_more :
      (n : ℕ) (m : Mysql) (y : Result (Unit {0}) × Mysql)
      → applied_at 0 m ≡ false
      → Waited n (get_mgr_gtid s m).1 y
      → Waited (suc n) m y
  unfolding behind_rounds
  one_more n m y a (inl (k, l, found, h, e)) =
      inl (suc k, omega (arith, l), found, earlier k m a h, e)
  one_more n m y a (inr (h, e)) = inr (earlier n m a h, e)

  round :
      (n : ℕ) (m : Mysql) (rest : M (Unit {0})) (r : Result Gtid)
      → (get_mgr_gtid s m).0 ≡ r
      → Waited n (get_mgr_gtid s m).1 (rest (get_mgr_gtid s m).1)
      → Waited (suc n) m (next_round rest r (get_mgr_gtid s m).1)
  unfolding behind_rounds
  round n m rest (err e) q w = one_more n m (rest (get_mgr_gtid s m).1) (ap has_applied q) w
  round n m rest (ok g) q w = elim (Bool-cases (str_eq g.txns_behind_master "0")) [
    | inl b ↦
        rw b (inl (0, omega arith, ap has_applied q ∙ b, λ i l. absurd (omega (arith, l)), refl))
    | inr b ↦ rw b (one_more n m (rest (get_mgr_gtid s m).1) (ap has_applied q ∙ b) w)
  ]

  waited : (n : ℕ) (m : Mysql) → Waited n m (wait_apply_relay_log s n m)
  unfolding wait_apply_relay_log behind_rounds
  waited zero m = inr (λ i l. absurd (omega (arith, l)), refl)
  waited (suc n) m =
      round n m (wait_apply_relay_log s n) (get_mgr_gtid s m).0 refl (waited n (get_mgr_gtid s m).1)

  -- WaitApplyRelayLog looks for the first round that finds nothing left to apply: with n rounds,
  -- either there is one among them, and the call succeeds in the state behind the first; or
  -- there is none, and it fails behind all n. In both cases it asks at most 3 n queries.
  pub wait_apply-Waited :
      (n : ℕ) (m : Mysql)
      → Waited n m (wait_apply_relay_log s n m)
        × (length (wait_apply_relay_log s n m).1.log ≤ length m.log + n * 3)
  wait_apply-Waited n m = (waited n m, wait_apply_ends n m)
