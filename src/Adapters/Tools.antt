-- ===== src/Adapters/Tools.antt =====
-- src/db/adapters/mysql.ts and src/db/adapters/postgres.ts: what an adapter does with a dump or
-- restore tool that it started.
use db_backup_tool.Base.{
  ℕ, ◌-◌, ltb, eqb, leb, String, ◌<>◌, show_nat, Bool, false, ◌&&◌, ◌||◌, if◌then◌else◌, Option,
  none, some, List, [], ◌∷◌, ◌++◌, length, take, drop,
}
use mathlib.Core.List.{reverse}
use db_backup_tool.Errors.{Result, ok, err, foreign}
use db_backup_tool.Effects.{child_run}
use db_backup_tool.Effects.Inputs.{ChildEnd, not_run, closed_with}
use db_backup_tool.Effects.Io.{Io, call, lift, ◌>>=◌}

-- The paths of the tools in the configuration.
pub record Binaries : Type 0 where
  pub mysql : String
  pub mysqldump : String
  pub psql : String
  pub pg_dump : String

-- `buf.slice(-8192)` where the text is longer.
unfoldable pub tail_of : List ℕ → List ℕ
tail_of buf = if ltb 8192 (length buf) then drop (length buf - 8192) buf else buf

-- `Buffer.prototype.toString`: the UTF-16 units of some bytes.
abbrev pub Decoder : Type 0
Decoder = (bytes : List ℕ) → List ℕ

-- The listener of `data`, over the chunks of bytes: `buf += d.toString()` decodes each by itself.
unfoldable pub buffered : Decoder → (buf : List ℕ) → (chunks : List (List ℕ)) → List ℕ
buffered decode buf [] = buf
buffered decode buf (chunk ∷ chunks) = buffered decode (tail_of (buf ++ decode chunk)) chunks

-- The white space and line ends of `trim`.
abbrev is_space : ℕ → Bool
is_space c =
    (leb 9 c && leb c 13)
    || eqb c 32
    || eqb c 160
    || eqb c 5760
    || (leb 8192 c && leb c 8202)
    || eqb c 8232
    || eqb c 8233
    || eqb c 8239
    || eqb c 8287
    || eqb c 12288
    || eqb c 65279

abbrev trim_start : List ℕ → List ℕ
trim_start [] = []
trim_start (c ∷ cs) = let rest = trim_start cs in if is_space c then rest else c ∷ cs

abbrev pub trim : List ℕ → List ℕ
trim s = reverse (trim_start (reverse (trim_start s)))

abbrev is_zero : Option ℕ → Bool
is_zero none = false
is_zero (some code) = eqb code 0

abbrev shown : List ℕ → Option (List ℕ)
shown [] = none
shown (c ∷ cs) = some (take 1000 (c ∷ cs))

-- `captureStderr`: what is logged where a tool is closed.
unfoldable pub capture_stderr :
    Decoder → (chunks : List (List ℕ)) → (code : Option ℕ) → Option (List ℕ)
capture_stderr decode chunks code =
    if is_zero code then none else shown (trim (buffered decode [] chunks))

abbrev code_text : Option ℕ → String
code_text none = "null"
code_text (some code) = show_nat code

-- `collectExit`
unfoldable pub collect_exit : (name : String) → ChildEnd → Result (Unit {0})
collect_exit name (not_run e) = err e
collect_exit name (closed_with code) =
    if is_zero code
    then ok tt
    else err (foreign "Error" none (name <> " exited with code " <> code_text code))

-- `await done`
unfoldable pub done_of : (name child : String) → Io (Unit {0})
done_of name child = call (child_run child) >>= λ run. lift (collect_exit name run.ended)

-- The stream of a dump is the standard output of its child.
pub record Dump : Type 0 where
  pub stream : String
  pub done : Io (Unit {0})
