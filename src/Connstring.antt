-- ===== src/Connstring.antt =====
-- src/pg_connect.c: the libpq connection string that `build_connstring` allocates.
pub mod Laws
use libzbxpgsql.Base.{
  ℕ, zero, suc, ◌+◌, Option, none, some, [], ◌∷◌, ◌++◌, Text, bytes, strisnull, length,
  if◌then◌else◌, ◌>>=◌,
}
use libzbxpgsql.Buffer.{Buffer, zeros, strcat2, read_string}

-- `strlen`, 0 for NULL
abbrev pub strlen_or_zero : Option Text → ℕ
strlen_or_zero none = 0
strlen_or_zero (some s) = length s

-- `DEFAULT_CONN_STRING` and `DEFAULT_CONN_DBNAME` of libzbxpgsql.h
abbrev pub default_conn_string : Option Text
default_conn_string = some []

abbrev pub default_conn_dbname : Option Text
default_conn_dbname = none

-- The size of the allocation: both strings and " dbname=" with its terminator.
abbrev pub bufferlen : Option Text → Option Text → ℕ
bufferlen connstring dbname = strlen_or_zero connstring + strlen_or_zero dbname + 9

unfoldable pub build_connstring : Option Text → Option Text → Option Text
build_connstring connstring dbname = do
  (b₁, c₁) ←
      strcat2 (zeros (bufferlen connstring dbname)) (some 0)
        (if strisnull connstring then default_conn_string else connstring)
  (b₂, c₂) ← strcat2 b₁ c₁ (if strisnull connstring then none else some (bytes " "))
  (b₃, c₃) ← strcat2 b₂ c₂ (some (bytes "dbname="))
  (b₄, c₄) ← strcat2 b₃ c₃ (if strisnull dbname then default_conn_dbname else dbname)
  read_string b₄
