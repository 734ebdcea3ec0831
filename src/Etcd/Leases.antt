-- ===== src/Etcd/Leases.antt =====
-- What the coordinators of internal/coordination/etcd rely on in etcd, and the system of all that
-- stand for one key, in any interleaving of the parts of their attempts.
use neoha.Common.{
  Bool, true, false, ℕ, ◌==◌, String, Option, none, some, List, [], ◌∷◌, if◌then◌else◌, ◌≡◌, ◌⊎◌,
}
use neoha.Common.Result.{ok, is_ok}
use neoha.Common.Text.{ℤ}
use neoha.Etcd.{
  Store, Coordinator, Phase, Compare, TxnOp, TxnResponse, create_revision_is, op_put, op_get,
  advance,
}

-- What can be said of the state of etcd: whether a lease lives, whether it was ever given, and
-- with what value and lease the leader's key stands, and the revision in which it was created.
pub record Sight (E : Type 0) : Type 0 where
  pub live : ℕ → E → Bool
  pub given : ℕ → E → Bool
  pub holder : E → Option (String × ℕ)
  pub create_revision : E → ℕ

-- A change of etcd that writes no leader: no lease that was given comes to life again, and the key
-- stands as long as its lease lives.
pub record Moves {E : Type 0} (g : Sight E) (e e' : E) : Type 0 where
  pub dead_stays : (l : ℕ) → g.given l e ≡ true → g.live l e' ≡ true → g.live l e ≡ true
  pub given_stays : (l : ℕ) → g.given l e ≡ true → g.given l e' ≡ true
  pub key_stays :
      (v : String) (l : ℕ)
      → g.holder e ≡ some (v, l)
      → g.live l e' ≡ true
      → g.holder e' ≡ some (v, l)

-- What an operation of a transaction does at the key `k`. A write puts the key at its value and
-- lease whatever was there, and brings no lease to life.
pub record Puts {E : Type 0} (g : Sight E) (at_key : Type 0) (v : String) (l : ℕ) (e e' : E)
    : Type 0 where
  pub dead_stays : (j : ℕ) → g.given j e ≡ true → g.live j e' ≡ true → g.live j e ≡ true
  pub given_stays : (j : ℕ) → g.given j e ≡ true → g.given j e' ≡ true
  pub writes : at_key → g.holder e' ≡ some (v, l)

abbrev pub Performs : {E : Type 0} → Sight E → String → TxnOp → E → E → Type 0
Performs g k (op_put j v l) e e' = Puts g (j ≡ k) v l e e'
Performs g k (op_get j) e e' = Moves g e e'

abbrev pub Holds : {E : Type 0} → Sight E → String → List Compare → E → Type 0
Holds g k [] e = Unit {0}
Holds g k (create_revision_is j n ∷ cs) e = (j ≡ k → g.create_revision e ≡ n) × Holds g k cs e

-- The documented behaviour of the calls, at the key `k`. A key that is there has a revision of
-- its creation, which is not 0. A transaction is one change: where its comparisons hold, the first
-- operation, and otherwise the second; a call that fails may have been carried out or not.
pub record Laws {E : Type 0} (s : Store E) (g : Sight E) (k : String) : Type 0 where
  pub keep_alive_moves : (l : ℕ) (e : E) → Moves g e (s.keep_alive_once l e).1
  pub grant_moves : (t : ℤ) (e : E) → Moves g e (s.grant t e).1
  pub grant_gives :
      (t : ℤ) (e : E) (l : ℕ) → (s.grant t e).0 ≡ ok l → g.given l (s.grant t e).1 ≡ true
  pub revision_zero : (e : E) → g.create_revision e ≡ 0 → g.holder e ≡ none
  pub txn_does :
      (cs : List Compare) (a b : TxnOp) (e : E)
      → (Moves g e (s.txn cs a b e).1 × (is_ok (s.txn cs a b e).0 ≡ false))
        ⊎ (Holds g k cs e
            × Performs g k a e (s.txn cs a b e).1
            × ((r : TxnResponse) → (s.txn cs a b e).0 ≡ ok r → r.succeeded ≡ true))
        ⊎ (Performs g k b e (s.txn cs a b e).1
            × ((r : TxnResponse) → (s.txn cs a b e).0 ≡ ok r → r.succeeded ≡ false))

pub record Node : Type 0 where
  pub coord : Coordinator
  pub phase : Phase

pub record System (E : Type 0) : Type 0 where
  pub nodes : ℕ → Node
  pub env : E

abbrev pub set_node : ℕ → Node → (ℕ → Node) → ℕ → Node
set_node i n f j = if i == j then n else f j

-- The next part of an attempt of the node `i`.
abbrev pub tick : {E : Type 0} → Store E → ℕ → System E → System E
tick s i w =
    let n = w.nodes i in
    let (c, p, e) = advance s n.phase n.coord w.env in
    record { nodes = set_node i (record { coord = c; phase = p }) w.nodes; env = e }

-- The steps: a node goes on, or etcd changes by itself or by what others do to it.
pub data Run {E : Type 0} (s : Store E) (g : Sight E) : System E → System E → Type 0 where
  stay : (w : System E) → Run s g w w
  go_on : (w w' : System E) (i : ℕ) → Run s g (tick s i w) w' → Run s g w w'
  drift :
      (w w' : System E) (e : E) → Moves g w.env e → Run s g (record w { env = e }) w' → Run s g w w'
