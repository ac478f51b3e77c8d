-- ===== src/Databases.antt =====
-- src/pg_discovery.c: the multi-string of database names that `pg_get_databases` fills and that
-- `pg_get_discovery_wide` walks: "database1\0database2\0\0".
pub mod Laws
use libzbxpgsql.Base.{
  ℕ, zero, suc, ◌+◌, Option, none, some, List, [], ◌∷◌, Text, length, get_elem?, drop, ◌==◌,
  if◌then◌else◌, ◌>>=◌,
}
use libzbxpgsql.Buffer.{Buffer, zeros, strcat2, read_string}

-- the first loop: one byte for the last terminator, and each name with its own
abbrev pub names_size : List Text → ℕ
names_size [] = 0
names_size (v ∷ vs) = length v + 1 + names_size vs

abbrev pub bufferlen : List Text → ℕ
bufferlen names = 1 + names_size names

-- the second loop: `c = strcat2(c, …) + 1`
unfoldable pub fill : Buffer → Option ℕ → List Text → Option Buffer
fill b c [] = some b
fill b c (v ∷ vs) = do (b', c') ← strcat2 b c (some v); last ← c'; fill b' (some (suc last)) vs

unfoldable pub multi_string : List Text → Option Buffer
unfolding fill
multi_string names = fill (zeros (bufferlen names)) (some 0) names

-- `for (db = databases; *db; db += strlen(db) + 1)`, with a round of fuel for each byte
unfoldable pub walk : ℕ → Buffer → Option (List Text)
walk zero b = none
walk (suc fuel) b = do
  first ← get_elem? b 0
  let stop : Option (List Text) = some []
  let go : Option (List Text) = do
    db ← read_string b
    rest ← walk fuel (drop (suc (length db)) b)
    some (db ∷ rest)
  if first == 0 then stop else go

unfoldable pub databases : Buffer → Option (List Text)
unfolding walk
databases b = walk (length b) b
