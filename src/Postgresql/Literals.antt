-- ===== src/Postgresql/Literals.antt =====
-- internal/database/postgresql/replica.go: what the server reads of the texts that are quoted there.
use Prim.Native.Char.{Char, code}
use Prim.Native.String.{String, ◌++◌}
use text.Mathlib.TextLemmas.{nil-append, cons-append}
use neoha.Common.{
  true, false, List, [], ◌∷◌, Option, none, some, ◌==◌, ◌≡◌, refl, arith, Bool-cases, inl, inr, ◌⊎◌,
  ap,
}
use neoha.Common.Result.{Result, ok, err, is_ok}
use neoha.Common.Text.{is_empty}
use neoha.Postgresql.{Host, Postgresql, Event, Link, after, run}
use neoha.Postgresql.Api.{get_db}
use neoha.Postgresql.Replica.{
  double_quotes, setting, set_recovery_primary_conninfo, set_recovery_primary_slot_name,
}

abbrev pub push : Char → Option (String × String) → Option (String × String)
push c none = none
push c (some (s, rest)) = some (String.◌∷◌ c s, rest)

-- The server's reader of a literal behind its first quote, with the text after its last one. It is
-- documented that two quotes in a row stand for one, that a quote at the end of the text closes the
-- literal, and that any other character stands for itself (`standard_conforming_strings` is on).
pub record Reader : Type 0 where
  pub read : String → Option (String × String)
  pub read_last : read "'" ≡ some ("", "")
  pub read_doubled :
      (c : Char) (s : String)
      → (code c == 0x27) ≡ true
      → read (String.◌∷◌ c (String.◌∷◌ c s)) ≡ push c (read s)
  pub read_other :
      (c : Char) (s : String) → (code c == 0x27) ≡ false → read (String.◌∷◌ c s) ≡ push c (read s)

double_quotes-quote :
    (c : Char) (s : String)
    → (code c == 0x27) ≡ true
    → double_quotes (String.◌∷◌ c s) ≡ String.◌∷◌ c (String.◌∷◌ c (double_quotes s))
unfolding double_quotes
double_quotes-quote c s q = ground (arith, q)

double_quotes-other :
    (c : Char) (s : String)
    → (code c == 0x27) ≡ false
    → double_quotes (String.◌∷◌ c s) ≡ String.◌∷◌ c (double_quotes s)
unfolding double_quotes
double_quotes-other c s q = ground (arith, q)

-- The statements that were run on the own server, newest first.
unfoldable pub statements : List Event → List String
statements [] = []
statements (Event.ran Link.local q args b ∷ es) = q ∷ statements es
statements (Event.ran (Link.remote i) q args b ∷ es) = statements es
statements (Event.program name args b ∷ es) = statements es
statements (Event.opened l b ∷ es) = statements es
statements (Event.pinged l b ∷ es) = statements es
statements (Event.recovery r ∷ es) = statements es
statements (Event.queried l q ∷ es) = statements es
statements (Event.looked_up path ∷ es) = statements es
statements (Event.created path b ∷ es) = statements es

module _ (d : Reader) where
  read-double_quotes : (s : String) → d.read (double_quotes s ++ "'") ≡ some (s, "")
  unfolding double_quotes
  read-double_quotes String.[] = rw (nil-append) (d.read_last)
  read-double_quotes (String.◌∷◌ c s) = elim (Bool-cases (code c == 0x27)) [
    | inl q ↦
        rw (double_quotes-quote c s q, cons-append, cons-append)
          (ground (arith, d.read_doubled c (double_quotes s ++ "'") q, read-double_quotes s))
    | inr q ↦
        rw (double_quotes-other c s q, cons-append)
          (ground (arith, d.read_other c (double_quotes s ++ "'") q, read-double_quotes s))
  ]

  -- Nothing is sent, in a failure; or one statement, whose literal is read as the text itself.
  abbrev pub Arrives : String → String → Postgresql → Result (Unit {0}) × Postgresql → Type 0
  Arrives name s p y =
      ((statements y.1.log ≡ statements p.log) × (is_ok y.0 ≡ false))
      ⊎ ((t : String) × (statements y.1.log
            ≡ ("ALTER SYSTEM SET " ++ name ++ " = '" ++ t) ∷ statements p.log)
          × (d.read t ≡ some (s, "")))

  sent :
      (h : Host) (name s : String) (p : Postgresql) (x : Result (Unit {0}) × Postgresql)
      → statements x.1.log ≡ statements p.log
      → Arrives name s p (after x (λ _. run h Link.local (setting name s) []))
  unfolding statements
  sent h name s p (ok u, p') e =
      inr (double_quotes s ++ "'", ap (λ l. setting name s ∷ l) e, read-double_quotes s)
  sent h name s p (err x, p') e = inl (e, refl)

  db_statements : (h : Host) (p : Postgresql) → statements (get_db h p).1.log ≡ statements p.log
  unfolding get_db statements
  db_statements h p = ground arith

  -- SetRecoveryPrimaryConninfo, and SetRecoveryPrimarySlotName for a name that is not empty,
  -- fail and send nothing, or send one ALTER SYSTEM SET of their setting, with a literal that
  -- the server reads as the text they were given, up to the end of the statement. Of its reader
  -- it is assumed that two quotes stand for one, a last quote closes the literal, and other
  -- characters stand for themselves.
  pub settings_arrive :
      (h : Host) (p : Postgresql) (info slot : String)
      → is_empty slot ≡ false
      → Arrives "primary_conninfo" info p (set_recovery_primary_conninfo h info p)
        × Arrives "primary_slot_name" slot p (set_recovery_primary_slot_name h slot p)
  unfolding set_recovery_primary_conninfo set_recovery_primary_slot_name
  settings_arrive h p info slot e = (
    sent h "primary_conninfo" info p (get_db h p) (db_statements h p),
    rw e (sent h "primary_slot_name" slot p (get_db h p) (db_statements h p)),
  )
