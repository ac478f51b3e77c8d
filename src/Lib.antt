-- ===== src/Lib.antt =====
-- libzbxpgsql, a Zabbix agent module that monitors PostgreSQL servers (src/*.c and src/*.h).
--
-- The program. The agent loads the module and calls `zbx_module_init`, which looks up symbols of
-- the agent and reads the named queries of the configuration file. For each item request it calls
-- the function that the table `keys` binds to the key. A handler builds an SQL text and an array
-- of parameters, connects to the server that the request names, asks the query, and sets a value,
-- a JSON document or a message in the result.
--
-- The files, with the code they model:
--   Base       tests, lists and C strings over native numbers, `strcmp`, `strncmp`, `printf`
--   Buffer     memory that is written by pointer: `strcat2` (src/libzbxpgsql.c)
--   Connstring `build_connstring` (src/pg_connect.c)
--   Databases  the multi-string of `pg_get_databases` and its walk (src/pg_discovery.c)
--   Queries    the sorted arrays of named queries: `add_named_query`, `get_query_by_name`,
--              `read_config_queries` (src/pg_config.c)
--   Config     `getPGCONFIGFILE`, `read_config`, `init_config` (src/pg_config.c)
--   Runtime    what handlers run on: AGENT_REQUEST, PGresult, the allocated blocks, what is set in
--              AGENT_RESULT, what the server has been asked, and the environment `Env`
--   Params     `param_len`, `param_append`, `param_free` (src/pg_params.c)
--   Connect    `pg_connect`, `pg_connect_request` (src/pg_connect.c), `set_err_result`
--   Numbers    `strtoull`, `atol`, `atoi`, `is_oid`, `is_valid_ip`
--   Query      `pg_exec`, `pg_scalar`, `pg_get_result`, `pg_get_percentage`, `pg_version`
--              (src/libzbxpgsql.c)
--   Discovery  `pg_get_databases`, `pg_get_discovery`, `pg_get_discovery_wide`
--              (src/pg_discovery.c)
--   Items      the handlers, one module for each of src/pg_server.c, src/pg_bgwriter.c,
--              src/pg_namespace.c, src/pg_tablespace.c, src/pg_setting.c, src/pg_database.c,
--              src/pg_table.c, src/pg_index.c, src/pg_backends.c and src/pg_query.c (UserQuery)
--   Metrics    the table `keys` (src/libzbxpgsql.c)
--   Module     `zbx_module_init`, `zbx_module_uninit`, the function pointers into the agent and the
--              macro `zabbix_log` (src/libzbxpgsql.c, src/libzbxpgsql.h)
--   Service    what a call of the table comes to, with no memory in it. An effect (Effects) is a
--              value, what is set, what is asked and whether the memory is given back; a command
--              implements a function from the history to an effect (Meets). The table of the plans
--              (Plans, Table, Requests) says for each function which message, query or document it
--              comes to, from the key and the parameters of the request alone; Calls and the
--              modules that it uses relate it to the handlers. Fields says which column a key
--              asks for; Total when a call returns; Clean and Sequences when calls give back all
--              memory; Messages when a failure has set a message
--   Tests      runs on concrete inputs
--
-- The model. A command of a handler is a function from a state to an optional value and state;
-- `none` is a call that C leaves undefined: a use of freed memory, a write past a buffer, a read
-- past the columns of a result, a NULL that must not be one. Connections, results and arrays of
-- parameters are blocks of one memory, so that a block that is never given back can be seen; other
-- strings are values. libpq, the server, the agent and libconfig are not part of the program:
-- what they answer is a field of `Env` or an argument, and a server may answer by all that it was
-- asked before. The functions of the C library are definitions, in the C locale. `zbx_snprintf`
-- and its kin are the field `clip` applied to the text that the format stands for.
--
-- Loops are structural, on the list or the string they walk. Two have fuel: the search of
-- `get_query_by_name` has a round more than there are cells, where each round leaves fewer cells,
-- and the walk over a multi-string has a round for each byte, where each round takes at least one.
-- Bounds of the source are kept: 512 bytes for the path of the configuration, 4096 for the text of
-- a clause, MAX_STRING_LEN for most queries, 2 ^ 64 for the integers of Zabbix.
--
-- The server's answers are not assumed to be of any shape, except where a theorem says so: the
-- conditions under which a call returns or gives back all memory are those of its own plan, and
-- say nothing of queries that fail but that their results are tables. `strtod` is a field of
-- `Env`, for the integer part of the double; its conversion to 64 bits is the code's. Three
-- conditions come back: the two connection parameters hold no terminator inside, as C strings do
-- not; a text that fits its buffer is printed whole; and no database has an empty name, which
-- PostgreSQL does not allow.
--
-- Not modelled: the calls of `zabbix_log` in the handlers with their texts and the printf calls of
-- `zbx_module_init`, which change no state of the module; the release of the configuration by
-- libconfig; the allocation of strings and of JSON documents; `zbx_module_item_timeout`, which does
-- nothing; and `zbx_module_api_version`, a constant of the header of the agent.
pub mod Base
pub mod Buffer
pub mod Connstring
pub mod Databases
pub mod Queries
pub mod Config
pub mod Runtime
pub mod Params
pub mod Connect
pub mod Numbers
pub mod Query
pub mod Discovery
pub mod Items
pub mod Metrics
pub mod Module
pub mod Service
mod Tests
