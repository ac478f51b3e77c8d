-- ===== src/Connect/Laws.antt =====
-- Connecting: what is allocated, reported and asked on each branch.
use libzbxpgsql.Base.{
  ℕ, suc, ◌≡◌, ap, ◌∙◌, Bool, Option, none, some, [], ◌∷◌, ◌++◌, Text, if◌then◌else◌, arith,
}
use libzbxpgsql.Connstring.Laws.{IsTextParam, connstring_for, build_connstring-connstring_for}
use libzbxpgsql.Runtime.{Env, World, Request, conn, result, PgResult, msg, connected, write}
use libzbxpgsql.Runtime.Laws.{load-some, free-some}
use libzbxpgsql.Connect.Formats.{
  doubled, IsEnding, printed, plain_format-doubled, doubled-decomposed,
}
use libzbxpgsql.Connect.{
  pq_clear, pq_finish, plain_format, pg_connect, pg_connect_request, param_conn_string,
  param_dbname,
}

-- The connection string of a request.
abbrev pub request_connstring : Request → Text
request_connstring request =
    connstring_for (request.rparam param_conn_string) (request.rparam param_dbname)

-- The two connection parameters hold no terminator inside.
abbrev pub IsTextRequest : Request → Type 0
IsTextRequest request =
    IsTextParam (request.rparam param_conn_string) × IsTextParam (request.rparam param_dbname)

-- The state behind a connection that succeeds: one block more.
abbrev pub opened : World → Text → World
opened w c = record w {
  next = suc w.next;
  heap = write w.heap w.next (some (conn c));
  history = connected c ∷ w.history;
}

-- The state behind one that fails: the block is free again, and the message is set if it is wanted.
abbrev pub refused : Env → World → Text → Bool → Text → World
refused env w c given text = record w {
  next = suc w.next;
  heap = write (write w.heap w.next (some (conn c))) w.next none;
  history = connected c ∷ w.history;
  reports = if given then msg (env.clip env.max_string_len text) ∷ w.reports else w.reports;
}

module _ (env : Env) (w : World) (c : Text) (given : Bool) where
  pub pg_connect_accepted :
      env.connect w.history c ≡ none → pg_connect env c given w ≡ some (some w.next, opened w c)
  unfolding pg_connect
  pg_connect_accepted h = ground (arith, h)

  pub pg_connect-refused :
      (message text : Text)
      → env.connect w.history c ≡ some message
      → plain_format message ≡ some text
      → pg_connect env c given w ≡ some (none, refused env w c given text)
  unfolding pg_connect
  pg_connect-refused message text h f = ground (arith)

  pub pg_connect_undefined :
      (message : Text)
      → env.connect w.history c ≡ some message
      → plain_format message ≡ none
      → pg_connect env c given w ≡ none
  unfolding pg_connect
  pg_connect_undefined message h f = ground (arith)

  -- What a refused connection comes to, by what is printed of its message.
  abbrev pub refusal_of : Text → Text → Option (Option ℕ × World)
  refusal_of text [] = some (none, refused env w c given text)
  refusal_of text (d ∷ rest) = none

  -- Every message is a text with its per cent signs doubled and an ending, and where a connection
  -- is refused with it: if the ending is empty, pg_connect returns NULL, with the text without the
  -- doubling as the message of the result where one is given, and the connection given back; and
  -- if the ending starts with a per cent sign that is not doubled, the call is undefined.
  pub pg_connect-doubled :
      (message : Text)
      → env.connect w.history c ≡ some message
      → (text : Text) × (rest : Text) × (message ≡ doubled text ++ rest)
        × IsEnding rest
        × (pg_connect env c given w ≡ refusal_of text rest)
  pg_connect-doubled message h =
      let (text, rest, shape, ending) = doubled-decomposed message in
      (
        text,
        rest,
        shape,
        ending,
        go text rest (ap plain_format shape ∙ plain_format-doubled text rest ending),
      )
    where
      go :
          (text rest : Text)
          → plain_format message ≡ printed text rest
          → pg_connect env c given w ≡ refusal_of text rest
      go text [] f = pg_connect-refused message text h f
      go text (d ∷ rest) f = pg_connect_undefined message h f

pub pg_connect_request-pg_connect :
    (env : Env) (w : World) (request : Request) (given : Bool)
    → IsTextRequest request
    → pg_connect_request env request given w ≡ pg_connect env (request_connstring request) given w
unfolding pg_connect_request
pg_connect_request-pg_connect env w request given h = rw (
    build_connstring-connstring_for (request.rparam param_conn_string) (request.rparam param_dbname)
      h.0 h.1)

pub pq_clear-some :
    (w : World) (p : ℕ) (r : PgResult)
    → w.heap p ≡ some (result r)
    → pq_clear (some p) w ≡ some (tt, record w { heap = write w.heap p none })
unfolding pq_clear
pq_clear-some w p r h = ground (arith, load-some w p (result r) h, free-some w p (result r) h)

pub pq_finish-some :
    (w : World) (p : ℕ) (c : Text)
    → w.heap p ≡ some (conn c)
    → pq_finish (some p) w ≡ some (tt, record w { heap = write w.heap p none })
unfolding pq_finish
pq_finish-some w p c h = ground (arith, load-some w p (conn c) h, free-some w p (conn c) h)
