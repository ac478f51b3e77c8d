-- ===== src/Tests/Service.antt =====
-- Calls of the table of src/libzbxpgsql.c on concrete servers.
use libzbxpgsql.Base.{
  ◌≡◌, refl, subst, Bool, true, false, Option, none, some, List, [], ◌∷◌, All, get_elem?, Text,
  bytes, strisnull, arith,
}
use libzbxpgsql.Runtime.{World, Request, msg, report}
use libzbxpgsql.Connect.{set_err_result}
use libzbxpgsql.Databases.Laws.{IsName}
use libzbxpgsql.Numbers.{atol, atoi, to_integer}
use libzbxpgsql.Query.{pq_getvalue}
use libzbxpgsql.Queries.{no_queries}
use libzbxpgsql.Discovery.{pg_get_discovery_wide}
use libzbxpgsql.Items.{required}
use libzbxpgsql.Items.Backends.Laws.{Fits}
use libzbxpgsql.Items.Table.{pg_table_children, no_table_name}
use libzbxpgsql.Metrics.{
  fn_pg_backends_count, fn_pg_table_children, fn_pg_stat_all_indexes, keys, call,
}
use libzbxpgsql.Service.Meets.{Implements}
use libzbxpgsql.Service.Everywhere.{ListsNames, all_rows_act, pg_get_discovery_wide-Implements}
use libzbxpgsql.Service.Plans.{serve}
use libzbxpgsql.Service.Requests.{plan}
use libzbxpgsql.Service.Calls.{call-plan}
use libzbxpgsql.Service.Sequences.{Call, IsReady, run, run-Frees}
use libzbxpgsql.Service.Fields.{index, column_of_plan, keys-columns}
use libzbxpgsql.Query.Scalar.{value_report}
use libzbxpgsql.Query.{ar_uint64, is_e_notation}
use libzbxpgsql.Connect.Laws.{request_connstring}
use libzbxpgsql.Metrics.{Metric}
use libzbxpgsql.Metrics.Laws.{is_column}
use libzbxpgsql.Params.Laws.{Frees}
use libzbxpgsql.Base.{◌++◌}
use libzbxpgsql.Service.Messages.{call-Told}
use libzbxpgsql.Service.Messages.Uses.{Told}
use libzbxpgsql.Service.Total.Acts.{IsDefined, IsTabular, IsPlain}
use libzbxpgsql.Service.Total.Plans.{IsRunnable, AnswersWith, Reads, Answers, call-returns}
use libzbxpgsql.Service.Total.Keys.{keys-returns}
use libzbxpgsql.Tests.Agent.{query, server, request, memory, memory-IsFresh}

server-Fits : Fits server
server-Fits n s l = refl

abbrev AllNames : Option (List Text) → Type 0
AllNames none = Unit
AllNames (some names) = All IsName names

server-ListsNames : ListsNames server
server-ListsNames h c names e = subst AllNames e ((omega arith, ground arith), tt)

server-IsTabular : IsTabular server
server-IsTabular h c q ss = (refl, tt)

server-IsPlain : (c : Text) → IsPlain server c
server-IsPlain c h message e = absurd (ground (arith, e))

call-plan_example :
    Implements
      (call server no_queries fn_pg_backends_count request)
      (serve server request (plan server no_queries fn_pg_backends_count request))
call-plan_example =
    call-plan server no_queries request fn_pg_backends_count (omega arith, tt) server-Fits
      server-ListsNames

-- A property of the only value that the server answers with.
abbrev OfValue : (Text → Type 0) → Option Text → Type 0
OfValue Q none = Unit
OfValue Q (some v) = Q v

server-AnswersWith :
    (r : Request) (Q : Text → Type 0) (q : Text) (ss : List Text)
    → Q (bytes "7")
    → AnswersWith server r Q q ss
unfolding pq_getvalue
server-AnswersWith r Q q ss seven h v e = subst (OfValue Q) e seven

server-Reads :
    (r : Request) (Q : Text → Type 0) (q : Text) (ss : List Text)
    → Q (bytes "7")
    → Reads server r Q q ss
server-Reads r Q q ss seven = record {
  plain = server-IsPlain (request_connstring r);
  columns = λ h ok. omega arith;
  values = server-AnswersWith r Q q ss seven;
}

seven-long : IsDefined (atol (bytes "7"))
unfolding atol to_integer
seven-long = tt

seven-int : IsDefined (atoi (bytes "7"))
unfolding atoi to_integer
seven-int = tt

seven-report : IsDefined (value_report server ar_uint64 (bytes "7"))
unfolding is_e_notation
seven-report = tt

backends_count-Answers :
    Answers server request (plan server no_queries fn_pg_backends_count request)
unfolding plan
backends_count-Answers = (
  server-Reads request _ _ _ seven-long,
  server-Reads request _ _ _ seven-report,
  server-Reads request _ _ _ seven-report,
)

backends_count-IsRunnable : IsRunnable (plan server no_queries fn_pg_backends_count request)
unfolding plan
backends_count-IsRunnable = (tt, tt)

call-returns_example :
    (ok : Bool) × (w' : World) × (call server no_queries fn_pg_backends_count request memory
      ≡ some (ok, w'))
call-returns_example =
    call-returns server no_queries request memory fn_pg_backends_count backends_count-IsRunnable
      backends_count-Answers server-IsTabular (omega arith, tt) server-Fits server-ListsNames
      memory-IsFresh

-- A request without a name.
abbrev nameless : Request
nameless = record { key = bytes "pg.table.children"; nparam = 0; rparam = λ i. none }

abbrev told : World
told = record memory { reports = msg no_table_name ∷ [] }

nameless-told : call server no_queries fn_pg_table_children nameless memory ≡ some (false, told)
unfolding call pg_table_children required set_err_result report no_table_name
nameless-told = refl

call-Told_example : Told (msg no_table_name ∷ [])
unfolding plan strisnull
call-Told_example =
    call-Told server no_queries nameless memory told fn_pg_table_children tt (tt, tt) server-Fits
      server-ListsNames memory-IsFresh nameless-told

-- A count of backends, and a question without the name that it needs.
abbrev two_calls : List Call
two_calls =
    record { function = fn_pg_backends_count; request = request }
    ∷ record { function = fn_pg_table_children; request = nameless }
    ∷ []

backends_count-IsReady :
    IsReady server no_queries (record { function = fn_pg_backends_count; request = request })
unfolding plan
backends_count-IsReady = record {
  runs = backends_count-IsRunnable;
  answers = backends_count-Answers;
  tidy = (refl, (λ given h. refl), (λ given h. refl));
  text_ok = (omega arith, tt);
}

nameless-IsReady :
    IsReady server no_queries (record { function = fn_pg_table_children; request = nameless })
unfolding plan strisnull
nameless-IsReady = record { runs = tt; answers = tt; tidy = refl; text_ok = (tt, tt) }

run-Frees_example :
    (w' : World) × (run server no_queries two_calls memory ≡ some w') × Frees none memory w'
run-Frees_example =
    run-Frees server no_queries server-IsTabular server-Fits server-ListsNames two_calls memory
      (backends_count-IsReady, (nameless-IsReady, tt)) memory-IsFresh

pg_get_discovery_wide-Implements_example :
    Implements (pg_get_discovery_wide server request query none) (all_rows_act server request query)
pg_get_discovery_wide-Implements_example =
    pg_get_discovery_wide-Implements server request query (omega arith, tt) server-ListsNames

-- The counter of an index that is named.
abbrev index_scans : Request
index_scans = record request { key = bytes "pg.index.idx_scan" }

abbrev idx_scan : Metric
idx_scan = record {
  key = bytes "pg.index.idx_scan";
  have_params = true;
  function = fn_pg_stat_all_indexes;
  test_param = none;
}

idx_scan-keys : get_elem? keys 101 ≡ some idx_scan
unfolding keys
idx_scan-keys = refl

index_scans-Answers :
    Answers server index_scans (plan server no_queries fn_pg_stat_all_indexes index_scans)
unfolding plan pq_getvalue
index_scans-Answers = (
  server-IsPlain (request_connstring index_scans),
  (λ h ok. omega arith),
  (λ h v e. subst (OfValue (λ v. IsDefined (atoi v))) e seven-int),
)

keys-returns_example :
    (ok : Bool) × (w' : World) × (call server no_queries fn_pg_stat_all_indexes index_scans memory
      ≡ some (ok, w'))
keys-returns_example =
    keys-returns server index_scans no_queries 101 idx_scan memory idx_scan-keys refl tt
      index_scans-Answers server-IsTabular (omega arith, tt) server-Fits server-ListsNames
      memory-IsFresh

keys-columns_example :
    (field : Text) × (idx_scan.key ≡ bytes "pg.index." ++ field)
    × (is_column field ≡ true)
    × (strisnull (some field) ≡ false)
    × Implements
        (call server no_queries fn_pg_stat_all_indexes index_scans)
        (serve server index_scans (column_of_plan server index_scans index field))
keys-columns_example =
    keys-columns server no_queries index_scans index 101 idx_scan idx_scan-keys refl refl
      (omega arith, tt) server-Fits server-ListsNames
