-- ===== src/Connect.antt =====
-- src/pg_connect.c: connections, and `set_err_result` of src/libzbxpgsql.c.
pub mod Formats
pub mod Laws
use libzbxpgsql.Base.{
  ℕ, zero, suc, Bool, true, false, Option, none, some, List, [], ◌∷◌, Text, ◌==◌, if◌then◌else◌,
}
use libzbxpgsql.Connstring.{build_connstring}
use libzbxpgsql.Runtime.{
  Env, World, Request, Cmd, pure, lift, ◌>>=◌, ◌>>◌, alloc, load, free, report, ask, conn, msg,
  connected, Event, as_conn, as_result,
}

-- PARAM_CONN_STRING, PARAM_DBNAME and PARAM_FIRST of libzbxpgsql.h
abbrev pub param_conn_string : ℕ
param_conn_string = 0

abbrev pub param_dbname : ℕ
param_dbname = 1

abbrev pub param_first : ℕ
param_first = 2

-- A text that is used as the format of a message without arguments: `%%` stands for a per cent
-- sign, and any other conversion reads an argument that is not there.
unfoldable pub plain_format : Text → Option Text
plain_format [] = some []
plain_format (c ∷ []) = elim (c == b'%') [ true ↦ none | false ↦ some (c ∷ []) ]
plain_format (c ∷ d ∷ s) = elim (c == b'%') [
  | true ↦ elim (d == b'%') [
    | true ↦ elim (plain_format s) [ none ↦ none | some t ↦ some (b'%' ∷ t) ]
    | false ↦ none
  ]
  | false ↦ elim (plain_format (d ∷ s)) [ none ↦ none | some t ↦ some (c ∷ t) ]
]

abbrev pub history_of : Cmd (List Event)
history_of w = some (w.history, w)

-- PQfinish and PQclear, which do nothing on NULL
unfoldable pub pq_finish : Option ℕ → Cmd (Unit {0})
unfolding load free
pq_finish none = pure tt
pq_finish (some p) = do o ← load p; c ← lift (as_conn o); free p

unfoldable pub pq_clear : Option ℕ → Cmd (Unit {0})
unfolding load free
pq_clear none = pure tt
pq_clear (some p) = do o ← load p; r ← lift (as_result o); free p

module _ (env : Env) where
  -- `text` is the format with its arguments put in; `given` says that the result is not NULL.
  unfoldable pub set_err_result : Bool → Text → Cmd (Unit {0})
  unfolding report
  set_err_result given text =
      if given then report (msg (env.clip env.max_string_len text)) else pure tt

  -- PQconnectdb returns an object, which PQfinish frees, whether the connection succeeds or not.
  unfoldable pub pq_connectdb : Text → Cmd (ℕ × Option Text)
  unfolding ask alloc
  pq_connectdb connstring = do
    h ← history_of
    ask (connected connstring)
    p ← alloc (conn connstring)
    pure (p, env.connect h connstring)

  -- The result is NULL or the connection. The error message of libpq is the format of the message.
  unfoldable pub pg_connect : Text → Bool → Cmd (Option ℕ)
  unfolding pq_connectdb pq_finish set_err_result
  pg_connect connstring given = do
    (p, refused) ← pq_connectdb connstring
    elim refused [
      | none ↦ pure (some p)
      | some message ↦ do
        text ← lift (plain_format message)
        set_err_result given text
        pq_finish (some p)
        pure none
    ]

  unfoldable pub pg_connect_request : Request → Bool → Cmd (Option ℕ)
  unfolding pg_connect
  pg_connect_request request given = do
    connstring ←
        lift (build_connstring (request.rparam param_conn_string) (request.rparam param_dbname))
    pg_connect connstring given
