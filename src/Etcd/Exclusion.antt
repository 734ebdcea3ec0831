-- ===== src/Etcd/Exclusion.antt =====
-- No two coordinators of internal/coordination/etcd lead with leases that live.
use neoha.Common.{
  ◌≢◌, Bool, true, false, ℕ, ◌==◌, String, some, if◌then◌else◌, ◌≡◌, refl, arith, Option, ap,
  Bool-cases, none, [], ◌∷◌, ◌⊎◌, inl, sym, ◌∙◌, inr,
}
use neoha.Common.Result.{Result, ok, err, is_ok}
use neoha.Etcd.{
  Store, Coordinator, Phase, TxnResponse, create_revision_is, op_put, op_get, begin, grant, commit,
  advance, leader_key, lease_ttl, given_up, granted, kept, committed, leader_val,
}
use neoha.Etcd.Leases.{Sight, Moves, Laws, Puts, Performs, Holds, Node, System, tick, Run}

module _ {E : Type 0} (s : Store E) (g : Sight E) (k : String) (laws : Laws s g k) where
  -- The lease of a leader was given, and while it lives the key names the leader with it.
  record Sound (c : Coordinator) (e : E) : Type 0 where
    keyed : leader_key c.conf ≡ k
    was_given : c.is_leader ≡ true → g.given c.lease_id e ≡ true
    holds :
        c.is_leader ≡ true → g.live c.lease_id e ≡ true → g.holder e ≡ some (c.local_id, c.lease_id)

  Awaits : Phase → E → Type 0
  Awaits (Phase.to_commit l) e = g.given l e ≡ true
  Awaits p e = Unit {0}

  Sound-Moves : (c : Coordinator) (e e' : E) → Moves g e e' → Sound c e → Sound c e'
  Sound-Moves c e e' m x = record {
    keyed = x.keyed;
    was_given = λ h. m.given_stays c.lease_id (x.was_given h);
    holds = λ h a.
        m.key_stays c.local_id c.lease_id (x.holds h (m.dead_stays c.lease_id (x.was_given h) a)) a;
  }

  idle-Sound : (c : Coordinator) (e : E) → leader_key c.conf ≡ k → c.is_leader ≡ false → Sound c e
  idle-Sound c e q h = record {
    keyed = q;
    was_given = λ t. absurd (ground (arith, t, h));
    holds = λ t a. absurd (ground (arith, t, h));
  }

  -- What a part of an attempt leaves.
  abbrev Leaves : E → Coordinator × Phase × E → Type 0
  Leaves e (c, p, e') = Moves g e e' × Sound c e' × Awaits p e'

  Moves-refl : (e : E) → Moves g e e
  Moves-refl e = record {
    dead_stays = λ l h a. a;
    given_stays = λ l h. h;
    key_stays = λ v l h a. h;
  }

  kept-Leaves :
      (c : Coordinator) (e : E) (x : Result (Unit {0}) × E)
      → Moves g e x.1
      → Sound c e
      → Leaves e (kept s c x)
  unfolding Awaits
  kept-Leaves c e (ok t, e') m h = (m, Sound-Moves c e e' m h, tt)
  kept-Leaves c e (err x, e') m h = (m, idle-Sound (given_up c) e' h.keyed refl, tt)

  begin-Leaves : (c : Coordinator) (e : E) → Sound c e → Leaves e (begin s c e)
  unfolding begin Awaits
  begin-Leaves c e h =
      let same : Moves g e e × Sound c e × Unit {0} = (Moves-refl e, h, tt) in
      ground (
        arith,
        same,
        kept-Leaves c e (s.keep_alive_once c.lease_id e) (laws.keep_alive_moves c.lease_id e) h,
      )

  granted-Leaves :
      (c : Coordinator) (e : E) (x : Result ℕ × E)
      → Moves g e x.1
      → ((l : ℕ) → x.0 ≡ ok l → g.given l x.1 ≡ true)
      → Sound c e
      → Leaves e (granted s c x)
  unfolding Awaits
  granted-Leaves c e (ok l, e') m f h = (m, Sound-Moves c e e' m h, f l refl)
  granted-Leaves c e (err x, e') m f h = (m, Sound-Moves c e e' m h, tt)

  committed-Leaves :
      (c : Coordinator) (l : ℕ) (e : E) (x : Result TxnResponse × E)
      → Moves g e x.1
      → g.given l e ≡ true
      → ((r : TxnResponse) → x.0 ≡ ok r → r.succeeded ≡ true → g.holder x.1 ≡ some (c.local_id, l))
      → Sound c e
      → Leaves e (committed s c l x)
  unfolding Awaits
  committed-Leaves c l e (err x, e') m a f h = (m, Sound-Moves c e e' m h, tt)
  committed-Leaves c l e (ok r, e') m a f h = elim (Bool-cases r.succeeded) [
    | inl b ↦ rw b (
      m,
      record { keyed = h.keyed; was_given = λ t. m.given_stays l a; holds = λ t u. f r refl b },
      tt,
    )
    | inr b ↦ rw b (
      m,
      idle-Sound (record c { is_leader = false; leader_id = leader_val r.responses; lease_id = 0 })
          e' h.keyed refl,
      tt,
    )
  ]

  -- A write where the key is not there displaces nobody.
  put-Moves :
      (v : String) (l : ℕ) (e e' : E) → g.holder e ≡ none → Puts g (k ≡ k) v l e e' → Moves g e e'
  put-Moves v l e e' n p = record {
    dead_stays = p.dead_stays;
    given_stays = p.given_stays;
    key_stays = λ u j h a. absurd (ground (arith, n, h));
  }

  -- What the transaction on the key does, and where it succeeds.
  txn-Moves :
      (v : String) (l : ℕ) (e : E) (x : Result TxnResponse × E)
      → (Moves g e x.1 × (is_ok x.0 ≡ false))
        ⊎ (Holds g k (create_revision_is k 0 ∷ []) e
            × Performs g k (op_put k v l) e x.1
            × ((r : TxnResponse) → x.0 ≡ ok r → r.succeeded ≡ true))
        ⊎ (Performs g k (op_get k) e x.1 × ((r : TxnResponse) → x.0 ≡ ok r → r.succeeded ≡ false))
      → Moves g e x.1
        × ((r : TxnResponse) → x.0 ≡ ok r → r.succeeded ≡ true → g.holder x.1 ≡ some (v, l))
  txn-Moves v l e x (inl (m, bad)) = (m, λ r q t. absurd (ground (arith, bad, q)))
  txn-Moves v l e x (inr (inl (h, p, t))) =
      (put-Moves v l e x.1 (laws.revision_zero e (h.0 refl)) p, λ r q u. p.writes refl)
  txn-Moves v l e x (inr (inr (m, f))) = (m, λ r q t. absurd (ground (arith, f r q, t)))

  advance-Leaves :
      (p : Phase) (c : Coordinator) (e : E) → Sound c e → Awaits p e → Leaves e (advance s p c e)
  unfolding advance grant commit Awaits
  advance-Leaves Phase.at_rest c e h a = begin-Leaves c e h
  advance-Leaves Phase.to_grant c e h a =
      granted-Leaves c e (s.grant (lease_ttl c.conf) e) (laws.grant_moves (lease_ttl c.conf) e)
        (laws.grant_gives (lease_ttl c.conf) e) h
  advance-Leaves (Phase.to_commit l) c e h a =
      let x = s.txn (create_revision_is k 0 ∷ []) (op_put k c.local_id l) (op_get k) e in
      let (m, won) =
        txn-Moves c.local_id l e x
          (laws.txn_does (create_revision_is k 0 ∷ []) (op_put k c.local_id l) (op_get k) e) in
      rw (h.keyed) (committed-Leaves c l e x m a won h)

  record Good (w : System E) : Type 0 where
    sound : (i : ℕ) → Sound (w.nodes i).coord w.env
    awaits : (i : ℕ) → Awaits (w.nodes i).phase w.env

  Awaits-Moves : (p : Phase) (e e' : E) → Moves g e e' → Awaits p e → Awaits p e'
  unfolding Awaits
  Awaits-Moves Phase.at_rest e e' m a = tt
  Awaits-Moves Phase.to_grant e e' m a = tt
  Awaits-Moves (Phase.to_commit l) e e' m a = m.given_stays l a

  node_good :
      (b : Bool) (n n' : Node) (e : E)
      → Sound n.coord e × Awaits n.phase e
      → Sound n'.coord e × Awaits n'.phase e
      → Sound (if b then n else n').coord e × Awaits (if b then n else n').phase e
  node_good true n n' e x y = x
  node_good false n n' e x y = y

  tick-Good : (i : ℕ) (w : System E) → Good w → Good (tick s i w)
  tick-Good i w h =
      let n = w.nodes i in
      let r = advance s n.phase n.coord w.env in
      let l = advance-Leaves n.phase n.coord w.env (h.sound i) (h.awaits i) in
      let both = λ (j : ℕ).
        node_good (i == j) (record { coord = r.0; phase = r.1 }) (w.nodes j) r.2 (l.1, l.2)
          (
            Sound-Moves (w.nodes j).coord w.env r.2 l.0 (h.sound j),
            Awaits-Moves (w.nodes j).phase w.env r.2 l.0 (h.awaits j),
          ) in
      record { sound = λ j. (both j).0; awaits = λ j. (both j).1 }

  drift-Good : (w : System E) (e : E) → Moves g w.env e → Good w → Good (record w { env = e })
  drift-Good w e m h = record {
    sound = λ j. Sound-Moves (w.nodes j).coord w.env e m (h.sound j);
    awaits = λ j. Awaits-Moves (w.nodes j).phase w.env e m (h.awaits j);
  }

  run-Good : (w w' : System E) → Run s g w w' → Good w → Good w'
  run-Good w _ (Run.stay _) h = h
  run-Good w w' (Run.go_on _ _ i r) h = run-Good (tick s i w) w' r (tick-Good i w h)
  run-Good w w' (Run.drift _ _ e m r) h = run-Good (record w { env = e }) w' r (drift-Good w e m h)

  named_by : Option (String × ℕ) → String
  named_by none = ""
  named_by (some (v, l)) = v

  one_key :
      (c d : Coordinator) (e : E)
      → g.holder e ≡ some (c.local_id, c.lease_id)
      → g.holder e ≡ some (d.local_id, d.lease_id)
      → c.local_id ≡ d.local_id
  unfolding named_by
  one_key c d e h h' = ap named_by (sym h ∙ h')

  started :
      (w : System E)
      → ((i : ℕ) → leader_key (w.nodes i).coord.conf ≡ k)
      → ((i : ℕ) → (w.nodes i).coord.is_leader ≡ false)
      → ((i : ℕ) → (w.nodes i).phase ≡ Phase.at_rest)
      → Good w
  unfolding Awaits
  started w keys none_leads rest = record {
    sound = λ i. idle-Sound (w.nodes i).coord w.env (keys i) (none_leads i);
    awaits = λ i. rw (rest i) tt;
  }

  -- Of the coordinators that stand for one key in etcd, two of different names that both take
  -- themselves for the leader do not both hold a lease that lives: if that of the first lives,
  -- that of the other has expired. This holds after any run in which the parts of their attempts
  -- (renewing the lease, asking for a new one, the transaction on the key) interleave in any way
  -- with each other and with changes of etcd by itself, started where nobody leads and no
  -- attempt is under way. Of etcd it is assumed that a lease that was given and has expired
  -- stays expired, that the key stands as long as its lease lives unless a transaction writes
  -- it, that a key which is there has a creation revision other than 0, and that a transaction
  -- carries out its first operation where its comparisons hold, its second otherwise, or neither
  -- in a failure.
  pub one_live_leader :
      (w w' : System E)
      → Run s g w w'
      → ((i : ℕ) → leader_key (w.nodes i).coord.conf ≡ k)
      → ((i : ℕ) → (w.nodes i).coord.is_leader ≡ false)
      → ((i : ℕ) → (w.nodes i).phase ≡ Phase.at_rest)
      → (i j : ℕ) → (w'.nodes i).coord.is_leader ≡ true
      → (w'.nodes j).coord.is_leader ≡ true
      → (w'.nodes i).coord.local_id ≢ (w'.nodes j).coord.local_id
      → g.live (w'.nodes i).coord.lease_id w'.env ≡ true
      → g.live (w'.nodes j).coord.lease_id w'.env ≡ false
  one_live_leader w w' r keys none_leads rest i j li lj differ a =
      let good = run-Good w w' r (started w keys none_leads rest) in
      elim (Bool-cases (g.live (w'.nodes j).coord.lease_id w'.env)) [
        | inl b ↦ absurd (
            differ (
              one_key (w'.nodes i).coord (w'.nodes j).coord w'.env ((good.sound i).holds li a)
                ((good.sound j).holds lj b)))
        | inr b ↦ b
      ]
