-- ===== src/Effects/Inputs/Drivers.antt =====
-- What the adapters hand to the database drivers and to the dump tools.
use db_backup_tool.Base.{ℕ, String, Bool, Option, List}
use db_backup_tool.Errors.{Err}
use db_backup_tool.Effects.Inputs.Work.{Value}

-- A statement, with the values of its placeholders.
pub record Statement : Type 0 where
  pub sql : String
  pub values : List Value

-- A command line, with the variable that is added to its environment.
pub record Command : Type 0 where
  pub arguments : List String
  pub variables : List (String × String)

-- The options that both drivers take for a connection; `ssl` says whether an unknown certificate is
-- refused, and none is TLS off.
pub record ConnectOptions : Type 0 where
  pub host : String
  pub port : ℕ
  pub user : String
  pub password : String
  pub database : Option String
  pub ssl : Option Bool

-- A pool is known by the options that it was made with.
pub data Pool : Type 0 where
  mysql_pool :
      ConnectOptions
      → (connection_limit : ℕ) → (wait_for_connections multiple_statements : Bool) → Pool
  postgres_pool : ConnectOptions → (max : ℕ) → Pool

-- How a child process ends: it could not be run, or it is closed with an exit code (none where a
-- signal ended it).
pub data ChildEnd : Type 0 where
  not_run : Err → ChildEnd
  closed_with : (code : Option ℕ) → ChildEnd

-- What a child process wrote to its standard error, as chunks of UTF-16 units, and how it ended.
pub record ChildRun : Type 0 where
  pub stderr : List (List ℕ)
  pub ended : ChildEnd
