-- ===== src/Base/Json/Print.antt =====
-- `JSON.stringify` with no replacer and no indentation.
use Prim.Native.Char.{Char, code}
use db_backup_tool.Base.Json.{
  Json, null, bool, num, str, arr, obj, Items, nil, cons, Fields, end, field,
}
use db_backup_tool.Base.{ℕ, ◌/◌, ◌%◌, String, ◌<>◌, show_nat, true, false, eqb, ltb, if◌then◌else◌}

abbrev pub hex_digit : ℕ → Char
hex_digit n =
    if eqb n 0
    then "0"
    else if eqb n 1
    then "1"
    else if eqb n 2
    then "2"
    else if eqb n 3
    then "3"
    else if eqb n 4
    then "4"
    else if eqb n 5
    then "5"
    else if eqb n 6
    then "6"
    else if eqb n 7
    then "7"
    else if eqb n 8
    then "8"
    else if eqb n 9
    then "9"
    else if eqb n 10
    then "a"
    else if eqb n 11
    then "b"
    else if eqb n 12
    then "c"
    else if eqb n 13
    then "d"
    else if eqb n 14
    then "e"
    else "f"

-- A character of a JSON text, by its code: quotes, backslashes and control characters are escaped.
unfoldable pub escape_code : ℕ → String → String
escape_code n itself =
    if eqb n 0x22
    then "\\\""
    else if eqb n 0x5c
    then "\\\\"
    else if eqb n 8
    then "\\b"
    else if eqb n 9
    then "\\t"
    else if eqb n 10
    then "\\n"
    else if eqb n 12
    then "\\f"
    else if eqb n 13
    then "\\r"
    else if ltb n 0x20
    then "\\u00" <> String.◌∷◌ (hex_digit (n / 16)) (String.◌∷◌ (hex_digit (n % 16)) "")
    else itself

unfoldable pub escape : String → String
unfolding escape_code
escape String.[] = ""
escape (String.◌∷◌ c s) = escape_code (code c) (String.◌∷◌ c "") <> escape s

unfoldable pub quote : String → String
unfolding escape
quote s = "\"" <> escape s <> "\""

unfoldable mutual
  unfolding quote

  pub stringify : Json → String
  stringify null = "null"
  stringify (bool true) = "true"
  stringify (bool false) = "false"
  stringify (num n) = show_nat n
  stringify (str s) = quote s
  stringify (arr nil) = "[]"
  stringify (arr (cons v vs)) = "[" <> stringify v <> stringify_items vs
  stringify (obj end) = "{}"
  stringify (obj (field k v fs)) = "{" <> quote k <> ":" <> stringify v <> stringify_fields fs

  pub stringify_items : Items → String
  stringify_items nil = "]"
  stringify_items (cons v vs) = "," <> stringify v <> stringify_items vs

  pub stringify_fields : Fields → String
  stringify_fields end = "}"
  stringify_fields (field k v fs) = "," <> quote k <> ":" <> stringify v <> stringify_fields fs
