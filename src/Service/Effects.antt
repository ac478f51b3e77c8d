-- ===== src/Service/Effects.antt =====
-- The abstract view of a handler: from what the server has been asked so far to a value, what is
-- set in the result, what is asked, and whether all memory is given back.
use libzbxpgsql.Base.{Bool, true, ◌&&◌, Option, none, some, List, [], ◌∷◌, ◌++◌, Text}
use libzbxpgsql.Runtime.{Env, Request, PgResult, Report, Event, msg, connected, executed}
use libzbxpgsql.Params.Owned.{is_empty}
use libzbxpgsql.Connect.{plain_format}
use libzbxpgsql.Connect.Laws.{request_connstring}

-- The newest report and the newest event stand first.
pub record Effect (B : Type 0) : Type 0 where
  pub value : B
  pub said : List Report
  pub asked : List Event
  pub clean : Bool

-- `none` is an undefined call.
abbrev pub Act : Type 0 → Type 0
Act B = List Event → Option (Effect B)

abbrev pub returns : {B : Type 0} → B → Act B
returns b h = some (record { value = b; said = []; asked = []; clean = true })

abbrev pub says : {B : Type 0} → List Report → Bool → B → Act B
says rs clean b h = some (record { value = b; said = rs; asked = []; clean = clean })

abbrev pub lifted : {B : Type 0} → Option B → Act B
lifted none h = none
lifted (some b) h = returns b h

abbrev pub joined : {A B : Type 0} → Effect A → Option (Effect B) → Option (Effect B)
joined e none = none
joined e (some e') = some (record {
  value = e'.value;
  said = e'.said ++ e.said;
  asked = e'.asked ++ e.asked;
  clean = e.clean && e'.clean;
})

-- One act after the other; the second sees what the first has asked.
abbrev pub and_then : {A B : Type 0} → Option (Effect A) → (A → Act B) → Act B
and_then none k h = none
and_then (some e) k h = joined e (k e.value (e.asked ++ h))

module _ (env : Env) {B : Type 0} where
  -- What is said of a connection that is refused, where the message is a format of its own.
  abbrev pub refusal : Text → List Text → B → Option Text → Option (Effect B)
  refusal c ss failed none = none
  refusal c ss failed (some text) = some (record {
    value = failed;
    said = msg (env.clip env.max_string_len text) ∷ [];
    asked = connected c ∷ [];
    clean = is_empty ss;
  })

  -- The use of a result: the value and what is said.
  abbrev pub used : Text → Text → List Text → Option (B × List Report) → Option (Effect B)
  used c query ss none = none
  used c query ss (some (v, rs)) = some (record {
    value = v;
    said = rs;
    asked = executed c query ss ∷ connected c ∷ [];
    clean = true;
  })

  abbrev pub answered_by :
      Text
      → Text
      → List Text
      → List Text
      → B
      → (PgResult → Option (B × List Report))
      → List Event
      → Option Text
      → Option (Effect B)
  answered_by c query pending ss failed use_spec h none =
      used c query ss (use_spec (env.execute (connected c ∷ h) c query ss))
  answered_by c query pending ss failed use_spec h (some message) =
      refusal c pending failed (plain_format message)

  -- A connection for a request and one query on it. The parameters that are `pending` are not given
  -- back where the connection is refused.
  abbrev pub asks_with :
      Request → Text → (pending ss : List Text) → B → (PgResult → Option (B × List Report)) → Act B
  asks_with request query pending ss failed use_spec h =
      answered_by (request_connstring request) query pending ss failed use_spec h
        (env.connect h (request_connstring request))

  abbrev pub asks : Request → Text → List Text → B → (PgResult → Option (B × List Report)) → Act B
  asks request query ss = asks_with request query ss ss
