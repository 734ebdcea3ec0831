-- ===== src/Mysql/Applier/Traces.antt =====
-- What the operations of internal/database/mysql/driver.go leave in the log of the server, as far as
-- it decides who may write.
use neoha.Common.{
  Bool, true, false, Option, none, some, List, [], ◌∷◌, ◌≡◌, refl, ◌∙◌, ap, Bool-cases,
  Option-cases, inl, inr, if◌then◌else◌, arith,
}
use neoha.Common.Result.{Result, ok, err, Error}
use neoha.Mysql.{
  Server, Mysql, Access, Statement, Entry, M, after, ◌>>=◌, ◌>>◌, return, run, run_all, run_list,
  get_db, result, fine,
}
use neoha.Mysql.Handler

-- The statements that open the database or close it.
abbrev pub sets_access : Statement → Bool
sets_access (Statement.set_read_only b) = true
sets_access (Statement.set_super_read_only b) = true
sets_access Statement.open_read_only = true
sets_access Statement.close_super_read_only = true
sets_access c = false

abbrev pub all_calm : List Statement → Bool
all_calm [] = true
all_calm (c ∷ cs) = if sets_access c then false else all_calm cs

-- Those that ran, the newest first.
abbrev pub accesses : List Entry → List Statement
accesses [] = []
accesses (Entry.asked q ∷ l) = accesses l
accesses (Entry.ran c false ∷ l) = accesses l
accesses (Entry.ran c true ∷ l) = let rest = accesses l in if sets_access c then c ∷ rest else rest

-- The part of the state that only SetReadOnly and SetReadWrite change.
abbrev pub access_of : Mysql → Access × List Statement
access_of m = (m.option, accesses m.log)

abbrev pub Calm : {A : Type 0} → M A → Type 0
Calm x = (m : Mysql) → access_of (x m).1 ≡ access_of m

after-keeps :
    {A B : Type 0} (x : Result A × Mysql) (f : A → M B)
    → ((a : A) → Calm (f a))
    → access_of (after x f).1 ≡ access_of x.1
after-keeps (ok a, m) f h = h a m
after-keeps (err e, m) f h = refl

pub chain-Calm :
    {A B : Type 0} (x : M A) (f : A → M B) → Calm x → ((a : A) → Calm (f a)) → Calm (x >>= f)
chain-Calm x f c h m = after-keeps (x m) f h ∙ c m

pub choose-Calm : {A : Type 0} (b : Bool) (x y : M A) → Calm x → Calm y → Calm (if b then x else y)
choose-Calm true x y c d = c
choose-Calm false x y c d = d

abbrev pub Trace : Type 0
Trace = Access × List Statement

-- Whenever the operation succeeds, it changes that part so.
abbrev pub Leads : {A : Type 0} → M A → (Trace → Trace) → Type 0
Leads {A} x g = (m : Mysql) → (a : A) → (x m).0 ≡ ok a → access_of (x m).1 ≡ g (access_of m)

pub Calm-Leads : {A : Type 0} (x : M A) → Calm x → Leads x (λ t. t)
Calm-Leads x c m a h = c m

after-Leads :
    {A B : Type 0} (x : Result A × Mysql) (f : A → M B) (h : Trace → Trace)
    → ((a : A) → Leads (f a) h)
    → (b : B) → (after x f).0 ≡ ok b
    → (access_of (after x f).1 ≡ h (access_of x.1)) × ((a : A) × (x.0 ≡ ok a))
after-Leads (ok a, m) f h k b e = (k a m b e, (a, refl))
after-Leads (err i, m) f h k b e = absurd (cc)

pub chain-Leads :
    {A B : Type 0} (x : M A) (f : A → M B) (g h : Trace → Trace)
    → Leads x g
    → ((a : A) → Leads (f a) h)
    → Leads (x >>= f) (λ t. h (g t))
chain-Leads x f g h c k m b e = let p = after-Leads (x m) f h k b e in p.0 ∙ ap h (c m p.1.0 p.1.1)

recorded :
    (e : Bool) (c : Statement) (l : List Entry)
    → sets_access c ≡ false
    → accesses (Entry.ran c e ∷ l) ≡ accesses l
recorded true c l h = rw h refl
recorded false c l h = refl

succeeded :
    (o : Option Error) (c : Statement) (l : List Entry)
    → sets_access c ≡ true
    → (a : Unit {0}) → result o ≡ ok a
    → accesses (Entry.ran c (fine o) ∷ l) ≡ c ∷ accesses l
succeeded none c l h a k = rw h refl
succeeded (some e) c l h a k = absurd (cc)

module _ (s : Server) where
  pub get_db-Calm : Calm (get_db s)
  unfolding get_db
  get_db-Calm m = elim (Bool-cases m.connected) [
    | inl e ↦ rw (e, get_db) refl
    | inr e ↦ elim (Option-cases (s.connect m.log)) [
      | inl k ↦ rw (e, k, get_db) refl
      | inr (x, k) ↦ rw (e, k, get_db) refl
    ]
  ]

  pub run-Calm : (c : Statement) → sets_access c ≡ false → Calm (run s c)
  run-Calm c h m = ap (λ (l : List Statement). (m.option, l)) (recorded _ c m.log h)

  run_list-Calm : (cs : List Statement) → all_calm cs ≡ true → Calm (run_list s cs)
  run_list-Calm [] h = λ m. refl
  run_list-Calm (c ∷ cs) h = elim (Bool-cases (sets_access c)) [
    | inl e ↦ absurd (ground (arith))
    | inr e ↦
        chain-Calm (run s c) (λ _. run_list s cs) (run-Calm c e)
          (λ _. run_list-Calm cs (rw (e, all_calm) at h))
  ]

  pub run_all-Calm : (cs : List Statement) → all_calm cs ≡ true → Calm (run_all s cs)
  run_all-Calm cs h m = after-keeps _ (λ _. run_list s cs) (λ _. run_list-Calm cs h)

  abbrev pub with : Statement → Trace → Trace
  with c t = (t.0, c ∷ t.1)

  pub run-Leads : (c : Statement) → sets_access c ≡ true → Leads (run s c) (with c)
  run-Leads c h m a k =
      ap (λ (l : List Statement). (m.option, l)) (succeeded (s.exec m.log c) c m.log h a k)

  -- A change of both switches and of the option.
  abbrev pub set_to : Bool → Access → Trace → Trace
  set_to b a t = (a, Statement.set_super_read_only b ∷ Statement.set_read_only b ∷ t.1)

  abbrev both_switches : Bool → Trace → Trace
  both_switches b t = with (Statement.set_super_read_only b) (with (Statement.set_read_only b) t)

  switches-Leads : (b : Bool) → Leads (Handler.set_read_only s b) (both_switches b)
  unfolding Handler.set_read_only
  switches-Leads b m a k =
      let c1 = Statement.set_read_only b in
      let c2 = Statement.set_super_read_only b in
      let second =
        chain-Leads (run s c2) (λ _. return tt) (with c2) (λ t. t) (run-Leads c2 refl)
          (λ _ m a k. refl) in
      let both =
        chain-Leads (run s c1) (λ _. run s c2 >> return tt) (with c1) (with c2) (run-Leads c1 refl)
          (λ _. second) in
      let p = after-Leads _ (λ _. run_list s (c1 ∷ c2 ∷ [])) (both_switches b) (λ _. both) a k in
      p.0

  pub switch-Leads :
      (b : Bool) (a : Access)
      → Leads
          (get_db s >> Handler.set_read_only s b >> (λ m. (ok tt, record m { option = a })))
          (set_to b a)
  switch-Leads b a =
      let first =
        chain-Leads (get_db s) (λ _. Handler.set_read_only s b) (λ t. t) (both_switches b)
          (Calm-Leads (get_db s) get_db-Calm) (λ _. switches-Leads b) in
      chain-Leads (get_db s >> Handler.set_read_only s b) (λ _ m. (ok tt, record m { option = a }))
        (both_switches b) (λ t. (a, t.1)) first (λ _ m u k. refl)
