-- ===== src/Reconcile/Target.antt =====
-- internal/ha/primary_ref.go, and replicaTargetKey of reconcile.go: what database a replica follows.
use Prim.Native.Char.{code}
use Prim.Native.String.{◌++◌}
use neoha.Common.{not, ◌&&◌, ◌||◌, String, Option, none, some, if◌then◌else◌, ◌==◌, ◌+◌}
use neoha.Common.Text.{ℤ, pos, negsuc, is_positive, atoi, itoa, has, is_empty}
use neoha.Driver.{PrimaryRef}

-- What stands before and after the last colon.
split_last : String → Option (String × String)
split_last String.[] = none
split_last (String.◌∷◌ c s) = elim (split_last s) [
  | some (a, b) ↦ some (String.◌∷◌ c a, b)
  | none ↦ if code c == b':' then some ("", s) else none
]

-- The text in front of a final `]`, if there is one and no bracket before it.
before_bracket : String → Option String
before_bracket String.[] = none
before_bracket (String.◌∷◌ c s) =
    let rest = before_bracket s in
    if code c == b']'
    then (if is_empty s then some "" else none)
    else if code c == b'['
    then none
    else elim rest [ none ↦ none | some a ↦ some (String.◌∷◌ c a) ]

abbrev bare : String → String → Option (String × String)
bare host port =
    if has b':' host || has b'[' host || has b']' host || has b'[' port || has b']' port
    then none
    else some (host, port)

abbrev bracketed : Option String → String → Option (String × String)
bracketed none port = none
bracketed (some host) port = if has b'[' port || has b']' port then none else some (host, port)

host_and_port : Option (String × String) → Option (String × String)
unfolding before_bracket
host_and_port none = none
host_and_port (some (String.[], port)) = bare "" port
host_and_port (some (String.◌∷◌ c s, port)) =
    if code c == b'[' then bracketed (before_bracket s) port else bare (String.◌∷◌ c s) port

-- `net.SplitHostPort`.
unfoldable pub split_host_port : String → Option (String × String)
unfolding split_last host_and_port
split_host_port s = host_and_port (split_last s)

abbrev member_port : String → ℤ → PrimaryRef → PrimaryRef
member_port port mysql_port ref =
    let (p, fine) = atoi port in
    if is_positive mysql_port
    then record ref { port = mysql_port }
    else if not (is_empty port) && fine
    then record ref { port = p }
    else ref

-- `enrichPrimaryRef`.
unfoldable pub enrich_primary_ref : PrimaryRef → ℤ → PrimaryRef
enrich_primary_ref ref mysql_port =
    if not (is_empty ref.host) || is_empty ref.member_id
    then ref
    else elim (split_host_port ref.member_id) [
      | none ↦ ref
      | some (host, port) ↦ member_port port mysql_port (record ref { host = host })
    ]

-- `strconv` of a port.
print_port : ℤ → String
print_port (pos n) = itoa n
print_port (negsuc n) = "-" ++ itoa (n + 1)

-- `replicaTargetKey`.
unfoldable pub replica_target_key : PrimaryRef → String
unfolding print_port
replica_target_key ref =
    if not (is_empty ref.host) && is_positive ref.port
    then ref.host ++ ":" ++ print_port ref.port
    else ref.member_id
