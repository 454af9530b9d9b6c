-- ===== src/Worker/Csv/RoundTrip.antt =====
-- Reading back a cell of a CSV file by the grammar of RFC 4180, with a line break of any kind.
use text.Mathlib.TextLemmas.{cons-append, nil-append, append_assoc}
use db_backup_tool.Base.{
  String, ◌<>◌, Char, code, eqb, Bool, true, false, ◌||◌, if◌then◌else◌, ◌≡◌, refl, sym, ap, ◌∙◌,
  Bool-cases, inl, inr, arith, Option, none, some,
}
use db_backup_tool.Worker.Csv.{special, has_special, double_quotes, cell_text}

abbrev push : Char → Option (String × String) → Option (String × String)
push c none = none
push c (some (value, rest)) = some (String.◌∷◌ c value, rest)

-- A comma, a line feed or a carriage return.
abbrev ends_cell : Char → Bool
ends_cell c = eqb (code c) 44 || (eqb (code c) 10 || eqb (code c) 13)

-- A cell without quotes goes to the next comma or line break, and holds no quote.
unfoldable pub read_plain : String → Option (String × String)
read_plain String.[] = some ("", "")
read_plain (String.◌∷◌ c s) =
    let more = push c (read_plain s) in
    if ends_cell c then some ("", String.◌∷◌ c s) else if eqb (code c) 34 then none else more

-- A quoted cell, behind its first quote; `quoted` says that the character before was a quote. It ends
-- with a quote, and a comma or a line break or the end of the text stands behind it.
unfoldable pub read_quoted : (quoted : Bool) → String → Option (String × String)
read_quoted false String.[] = none
read_quoted true String.[] = some ("", "")
read_quoted false (String.◌∷◌ c s) =
    let after = read_quoted true s in
    let more = push c (read_quoted false s) in if eqb (code c) 34 then after else more
read_quoted true (String.◌∷◌ c s) =
    let more = push c (read_quoted false s) in
    if eqb (code c) 34 then more else if ends_cell c then some ("", String.◌∷◌ c s) else none

-- The value of the first cell of a text, and the text behind it; `none` where the text breaks the
-- rules for quotes.
unfoldable pub read_cell : String → Option (String × String)
read_cell String.[] = some ("", "")
read_cell (String.◌∷◌ c s) =
    if eqb (code c) 34 then read_quoted false s else read_plain (String.◌∷◌ c s)

-- What may stand behind a cell: nothing, a comma or a line break.
abbrev pub IsEnd : String → Type 0
IsEnd String.[] = Unit
IsEnd (String.◌∷◌ c s) = ends_cell c ≡ true

quote_cons : (x : String) → "\"" <> x ≡ String.◌∷◌ "\"" x
quote_cons x = cons-append "\"" "" x ∙ ap (String.◌∷◌ "\"") (nil-append x)

not_quote : (c : Char) → ends_cell c ≡ true → eqb (code c) 34 ≡ false
not_quote c h = ground arith

behind_quote : (rest : String) → IsEnd rest → read_quoted true rest ≡ some ("", rest)
unfolding read_quoted
behind_quote String.[] h = refl
behind_quote (String.◌∷◌ c s) h = rw (not_quote c h) (rw h refl)

quoted_back :
    (s rest : String)
    → IsEnd rest
    → read_quoted false (double_quotes s <> "\"" <> rest) ≡ some (s, rest)
unfolding double_quotes read_quoted
quoted_back String.[] rest h =
    ap (read_quoted false) (nil-append ("\"" <> rest) ∙ quote_cons rest) ∙ behind_quote rest h
quoted_back (String.◌∷◌ c s) rest h = elim (Bool-cases (eqb (code c) 34)) [
  | inl quote ↦ rw quote (
      ap (read_quoted false) (
        cons-append c (String.◌∷◌ c (double_quotes s)) ("\"" <> rest)
        ∙ ap (String.◌∷◌ c) (cons-append c (double_quotes s) ("\"" <> rest)))
      ∙ rw quote (ap (push c) (quoted_back s rest h)))
  | inr other ↦ rw other (
      ap (read_quoted false) (cons-append c (double_quotes s) ("\"" <> rest))
      ∙ rw other (ap (push c) (quoted_back s rest h)))
]

plain_end : (rest : String) → IsEnd rest → read_plain rest ≡ some ("", rest)
unfolding read_plain
plain_end String.[] h = refl
plain_end (String.◌∷◌ c s) h = rw h refl

-- A text with no special character: neither its first character is one, nor any of the others.
first_plain :
    (c : Char) (b : Bool)
    → (special c || b) ≡ false
    → (ends_cell c ≡ false) × (eqb (code c) 34 ≡ false) × (b ≡ false)
unfolding special
first_plain c b p = (ground arith, ground arith, ground arith)

plain_back :
    (s rest : String) → has_special s ≡ false → IsEnd rest → read_plain (s <> rest) ≡ some (s, rest)
unfolding has_special read_plain
plain_back String.[] rest p h = ap read_plain (nil-append rest) ∙ plain_end rest h
plain_back (String.◌∷◌ c s) rest p h =
    let (inside, unquoted, later) = first_plain c (has_special s) p in
    ap read_plain (cons-append c s rest)
    ∙ rw inside (rw unquoted (ap (push c) (plain_back s rest later h)))

end_cell : (rest : String) → IsEnd rest → read_cell rest ≡ some ("", rest)
unfolding read_cell read_plain
end_cell String.[] h = refl
end_cell (String.◌∷◌ c s) h = rw (not_quote c h) (rw h refl)

unquoted_back :
    (s rest : String) → has_special s ≡ false → IsEnd rest → read_cell (s <> rest) ≡ some (s, rest)
unfolding read_cell has_special
unquoted_back String.[] rest p h = ap read_cell (nil-append rest) ∙ end_cell rest h
unquoted_back (String.◌∷◌ c s) rest p h =
    let (inside, unquoted, later) = first_plain c (has_special s) p in
    ap read_cell (cons-append c s rest)
    ∙ rw unquoted
        (ap read_plain (sym (cons-append c s rest)) ∙ plain_back (String.◌∷◌ c s) rest p h)

-- Whatever its text, a cell that `csvCell` writes is read back as that text, up to the comma or the line
-- break behind it, by a reader that ends an unquoted cell at a comma, a line feed or a carriage return,
-- takes no quote in it, and undoubles the quotes of a quoted one.
pub read_cell-cell_text :
    (s rest : String) → IsEnd rest → read_cell (cell_text s <> rest) ≡ some (s, rest)
unfolding cell_text read_cell
read_cell-cell_text s rest h = elim (Bool-cases (has_special s)) [
  | inl quoted ↦ rw quoted (
      ap read_cell (
        append_assoc "\"" (double_quotes s <> "\"") rest
        ∙ quote_cons ((double_quotes s <> "\"") <> rest)
        ∙ ap (String.◌∷◌ "\"") (append_assoc (double_quotes s) "\"" rest))
      ∙ quoted_back s rest h)
  | inr plain ↦ rw plain (unquoted_back s rest plain h)
]
