-- ===== src/Runtime.antt =====
-- What the item handlers run on: the parameters and results of a Zabbix agent request, the memory
-- that libpq and the handlers share, and the environment of the module.
--
-- A command is a function of the state. `none` is a call that C leaves undefined, such as a use of
-- freed memory. Zabbix, libpq and the PostgreSQL server are not part of the program: `Env` holds
-- what they answer, as functions that the theorems take as they come.
pub mod Laws
use libzbxpgsql.Base.{
  ℤ, ℕ, zero, suc, ◌+◌, Bool, true, false, Option, none, some, List, [], ◌∷◌, Text, ◌==◌,
  if◌then◌else◌,
}

-- AGENT_REQUEST: `rparam i` is what `get_rparam(request, i)` returns.
pub record Request : Type 0 where
  pub key : Text
  pub nparam : ℕ
  pub rparam : ℕ → Option Text

-- PGresult: PQresultStatus is PGRES_TUPLES_OK, PQresultErrorMessage, the names of the columns, and
-- the values of each row.
pub record PgResult : Type 0 where
  pub tuples_ok : Bool
  pub error_message : Text
  pub fields : List Text
  pub rows : List (List Text)

-- An allocated block: a connection (by its connection string), a result, or a PGparams array with
-- the strings that its cells own.
pub data Object : Type 0 where
  conn : Text → Object
  result : PgResult → Object
  params : List (Option Text) → Object

-- What a handler sets in the AGENT_RESULT. A double is given by the text that `strtold` reads.
pub data Report : Type 0 where
  ui64 : ℕ → Report
  dbl : Text → Report
  str : Text → Report
  msg : Text → Report

-- What the server has been asked: a connection, or a query with its parameters on a connection.
pub data Event : Type 0 where
  connected : Text → Event
  executed : Text → Text → List Text → Event

-- The calls that build a zbx_json document.
pub data JsonCall : Type 0 where
  addarray : Text → JsonCall
  addobject : JsonCall
  addstring : Text → Text → JsonCall
  close : JsonCall

pub record World : Type 0 where
  pub next : ℕ
  pub heap : ℕ → Option Object
  pub reports : List Report
  pub history : List Event

-- What the module does not implement. The newest event stands first in a history.
pub record Env : Type 0 where
  -- PQconnectdb: none for CONNECTION_OK, or else PQerrorMessage
  pub connect : List Event → Text → Option Text
  -- PQexecParams on a connection
  pub execute : List Event → Text → Text → List Text → PgResult
  -- what zbx_snprintf, zbx_vsnprintf and zbx_strlcpy leave in a buffer of that size
  pub clip : ℕ → Text → Text
  -- MAX_STRING_LEN
  pub max_string_len : ℕ
  -- `strtod(text, NULL)` without its fraction; none for an infinity and for what is not a number
  pub strtod : Text → Option ℤ
  -- inet_pton on AF_INET and on AF_INET6 returns 1
  pub inet4 : Text → Bool
  pub inet6 : Text → Bool
  -- the buffer of a zbx_json after these calls
  pub json : List JsonCall → Text
  pub package_string : Text
  pub zabbix_version : Text

abbrev pub Cmd {ℓ} : Type ℓ → Type ℓ
Cmd A = World → Option (A × World)

module _ {ℓ} {A : Type ℓ} where
  abbrev pub pure : A → Cmd A
  pure a w = some (a, w)

  abbrev pub lift : Option A → Cmd A
  lift none w = none
  lift (some a) w = some (a, w)

infixl 5 ◌>>=◌ ◌>>◌
abbrev pub ◌>>=◌ {ℓ κ} : {A : Type ℓ} {B : Type κ} → Cmd A → (A → Cmd B) → Cmd B
◌>>=◌ m f w = elim (m w) [ none ↦ none | some (a, w') ↦ f a w' ]

abbrev pub ◌>>◌ {κ} : {B : Type κ} → Cmd (Unit {0}) → Cmd B → Cmd B
m >> k = m >>= λ _. k

abbrev pub write : (ℕ → Option Object) → ℕ → Option Object → ℕ → Option Object
write h p o a = if a == p then o else h a

unfoldable pub alloc : Object → Cmd ℕ
alloc o w = some (w.next, record w { next = suc w.next; heap = write w.heap w.next (some o) })

unfoldable pub load : ℕ → Cmd Object
load p w = elim (w.heap p) [ none ↦ none | some o ↦ some (o, w) ]

unfoldable pub free : ℕ → Cmd (Unit {0})
free p w = elim (w.heap p) [
  | none ↦ none
  | some o ↦ some (tt, record w { heap = write w.heap p none })
]

unfoldable pub report : Report → Cmd (Unit {0})
report r w = some (tt, record w { reports = r ∷ w.reports })

unfoldable pub ask : Event → Cmd (Unit {0})
ask e w = some (tt, record w { history = e ∷ w.history })

abbrev pub as_conn : Object → Option Text
as_conn (conn c) = some c
as_conn _ = none

abbrev pub as_result : Object → Option PgResult
as_result (result r) = some r
as_result _ = none

abbrev pub as_params : Object → Option (List (Option Text))
as_params (params cells) = some cells
as_params _ = none
