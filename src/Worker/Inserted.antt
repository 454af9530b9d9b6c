-- ===== src/Worker/Inserted.antt =====
-- Which rows an import hands to the database.
use db_backup_tool.Base.{
  ℕ, leb, String, Option, none, some, List, [], ◌∷◌, ◌++◌, map, length, ◌≡◌, refl, sym, ap, ◌∙◌,
  append_assoc, append-nil, Bool-cases, inl, inr,
}
use db_backup_tool.Errors.{Err, Result, ok}
use db_backup_tool.Effects.{Call, Reply, adapter_insert_rows}
use db_backup_tool.Effects.Inputs.{ImportJobData, Adapter, Value, Rows}
use db_backup_tool.Effects.Io.{Env, History}
use db_backup_tool.Effects.Invert.{bind-ok, pure-ok, call-ok}
use db_backup_tool.Effects.Logic.{Keeps, keeps_rules}
use db_backup_tool.Jobs.{update_progress, emit}
use db_backup_tool.Worker.Exports.{ended}
use db_backup_tool.Worker.Imports.{
  Progress, fresh, insert, flush, push_row, Reading, on_record, on_records, insert_rest,
  import_records, batch_size,
}

abbrev rows_of : (c : Call) → Result (Reply c) → List (List Value)
rows_of (adapter_insert_rows a d t header rows) (ok n) = rows
rows_of c r = []

-- The rows that the database took, in order.
abbrev pub inserted : History → List (List Value)
inserted [] = []
inserted (e ∷ h) = inserted h ++ rows_of e.request e.reply

-- The rows of a file: the first record is the header.
abbrev pub body_rows : {A : Type 0} → Reading A → List A → List (List Value)
body_rows reading [] = []
body_rows reading (header ∷ records) = map reading.as_row records

module _ {A : Type 0} (reading : Reading A) (d : ImportJobData) (adapter : Adapter)
    (env : Env) where
  insert-ok :
      (header : List String) (batch : List (List Value)) (h : History) {n : ℕ} {h' : History}
      → insert d adapter header batch env h ≡ (ok n, h')
      → inserted h' ≡ inserted h ++ batch
  unfolding insert
  insert-ok header batch h e =
      ap inserted (call-ok (adapter_insert_rows adapter d.database d.table header batch) env h e).1

  progress-inserted :
      (s : List (List Value)) (progress : _) (message : _)
      → Keeps env (λ h. inserted h ≡ s) (update_progress d.job_id progress message)
  unfolding update_progress emit
  progress-inserted s progress message = search (keeps_rules, append-nil, ◌∙◌)

  progress-ok :
      (progress : _) (message : _) (h : History) {u : Unit {0}} {h' : History}
      → update_progress d.job_id progress message env h ≡ (ok u, h')
      → inserted h' ≡ inserted h
  progress-ok progress message h e =
      ap (λ r. inserted r.1) (sym e) ∙ (progress-inserted (inserted h) progress message).at h refl

  flush-ok :
      (header : List String) (batch : List (List Value)) (total : ℕ) (h : History) {s : Progress}
      {h' : History}
      → flush d adapter header batch total env h ≡ (ok s, h')
      → (inserted h' ++ s.batch ≡ inserted h ++ batch) × (s.header ≡ some header)
  unfolding flush
  flush-ok header batch total h {s} {h'} e =
      let (n, h₁, took, rest) = bind-ok (insert d adapter header batch) _ env h e in
      let (u, h₂, told, last) = bind-ok (update_progress d.job_id _ _) _ env h₁ rest in
      let (same, end) = pure-ok last in
      (
        ap (λ p. inserted h' ++ p.batch) (sym same)
            ∙ append-nil (inserted h')
            ∙ ap inserted (sym end)
            ∙ progress-ok _ _ h₁ told
            ∙ insert-ok header batch h took,
        ap (λ p. p.header) (sym same),
      )

  push_row-ok :
      (header : List String) (s : Progress) (row : List Value) (h : History) {s' : Progress}
      {h' : History}
      → push_row d adapter header s row env h ≡ (ok s', h')
      → (inserted h' ++ s'.batch ≡ (inserted h ++ s.batch) ++ row ∷ []) × (s'.header ≡ some header)
  unfolding push_row
  push_row-ok header s row h {s'} {h'} e =
      elim (Bool-cases (leb batch_size (length (s.batch ++ row ∷ [])))) [
        | inl full ↦
            let (rows, same) = flush-ok header (s.batch ++ row ∷ []) s.total h (rw full at e) in
            (rows ∙ sym (append_assoc (inserted h) s.batch (row ∷ [])), same)
        | inr room ↦
            let (same, end) = pure-ok (rw room at e) in
            (
              ap (λ p. inserted h' ++ p.batch) (sym same)
                  ∙ ap (λ k. inserted k ++ (s.batch ++ row ∷ [])) (sym end)
                  ∙ sym (append_assoc (inserted h) s.batch (row ∷ [])),
              ap (λ p. p.header) (sym same),
            )
      ]

  -- The rows that are still to come behind what the loop has read.
  abbrev to_come : Option (List String) → List A → List (List Value)
  to_come none records = body_rows reading records
  to_come (some header) records = map reading.as_row records

  -- Without a header nothing is waiting to be inserted but what was before.
  abbrev Kept : Option (List String) → Progress → Progress → Type 0
  Kept none s s' = s'.header ≡ none → s'.batch ≡ s.batch
  Kept (some header) s s' = s'.header ≡ some header

  records-ok :
      (header : Option (List String)) (s : Progress) (records : List A) (h : History)
      {s' : Progress} {h' : History}
      → s.header ≡ header
      → on_records reading d adapter s records env h ≡ (ok s', h')
      → (inserted h' ++ s'.batch ≡ (inserted h ++ s.batch) ++ to_come header records)
        × Kept header s s'
  unfolding on_records on_record
  records-ok none s [] h same e =
      let (last, end) = pure-ok e in
      (
        (λ i. inserted (sym end i) ++ (sym last i).batch)
            ∙ sym (append-nil (inserted h ++ s.batch)),
        λ missing. ap (λ p. p.batch) (sym last),
      )
  records-ok (some header) s [] h same e =
      let (last, end) = pure-ok e in
      (
        (λ i. inserted (sym end i) ++ (sym last i).batch)
            ∙ sym (append-nil (inserted h ++ s.batch)),
        ap (λ p. p.header) (sym last) ∙ same,
      )
  records-ok none s (r ∷ rs) h {s'} same e =
      let (next, h₁, turn, rest) = bind-ok (on_record reading d adapter s.header s r) _ env h e in
      let (made, kept) =
        pure-ok (ap (λ k. on_record reading d adapter k s r env h) (sym same) ∙ turn) in
      let (rows, found) =
        records-ok (some (reading.as_header r)) next rs h₁ (ap (λ p. p.header) (sym made)) rest in
      (
        rows ∙ (λ i. (inserted (sym kept i) ++ (sym made i).batch) ++ map reading.as_row rs),
        λ missing. cc,
      )
  records-ok (some header) s (r ∷ rs) h same e =
      let (next, h₁, turn, rest) = bind-ok (on_record reading d adapter s.header s r) _ env h e in
      let (pushed, kept) =
        push_row-ok header s (reading.as_row r) h
          (ap (λ k. on_record reading d adapter k s r env h) (sym same) ∙ turn) in
      let (rows, found) = records-ok (some header) next rs h₁ kept rest in
      (
        rows
            ∙ ap (λ l. l ++ map reading.as_row rs) pushed
            ∙ append_assoc (inserted h ++ s.batch) (reading.as_row r ∷ []) (map reading.as_row rs),
        found,
      )

  rest-ok :
      (header : Option (List String)) (batch : List (List Value)) (total : ℕ) (h : History) {n : ℕ}
      {h' : History}
      → (header ≡ none → batch ≡ [])
      → insert_rest reading d adapter header batch total env h ≡ (ok n, h')
      → inserted h' ≡ inserted h ++ batch
  unfolding insert_rest
  rest-ok none batch total h empty e =
      ap inserted (sym (pure-ok e).1)
      ∙ sym (append-nil (inserted h))
      ∙ ap (λ b. inserted h ++ b) (sym (empty refl))
  rest-ok (some header) [] total h empty e =
      ap inserted (sym (pure-ok e).1) ∙ sym (append-nil (inserted h))
  rest-ok (some header) (row ∷ rows) total h empty e =
      let (n, h₁, took, last) = bind-ok (insert d adapter header (row ∷ rows)) _ env h e in
      ap inserted (sym (pure-ok last).1) ∙ insert-ok header (row ∷ rows) h took

  ended-ok :
      (failure : Option Err) (h : History) {u : Unit {0}} {h' : History}
      → ended failure env h ≡ (ok u, h')
      → (failure ≡ none) × (h ≡ h')
  unfolding ended
  ended-ok none h e = (refl, (pure-ok e).1)
  ended-ok (some x) h e = cc

-- An import that returns has read the file to its end, and the rows that the database took are those
-- of the file behind its header: all of them, in order, and each of them once.
pub import_records_lem :
    {A : Type 0} (reading : Reading A) (d : ImportJobData) (adapter : Adapter) (env : Env)
    (rows : Rows A) (n : ℕ) (h' : History)
    → import_records reading d adapter rows env [] ≡ (ok n, h')
    → (rows.failure ≡ none) × (inserted h' ≡ body_rows reading rows.items)
unfolding import_records
import_records_lem reading d adapter env rows n h' e =
    let (s, h₁, looped, rest) =
      bind-ok (on_records reading d adapter fresh rows.items) _ env [] e in
    let (u, h₂, over, last) = bind-ok (ended rows.failure) _ env h₁ rest in
    let (none_left, same) = ended-ok reading d adapter env rows.failure h₁ over in
    let (read, kept) = records-ok reading d adapter env none fresh rows.items [] refl looped in
    (
      none_left,
      rest-ok reading d adapter env s.header s.batch s.total h₂ kept last
          ∙ ap (λ k. inserted k ++ s.batch) (sym same)
          ∙ read,
    )
