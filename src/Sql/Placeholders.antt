-- ===== src/Sql/Placeholders.antt =====
-- The placeholders of an insertion, and its batches.
use text.Mathlib.TextLemmas.{append_assoc}
use db_backup_tool.Base.{
  ◌<>◌, join, map, some, false, String, ℕ, suc, zero, ◌+◌, ◌*◌, ◌≤◌, List, [], ◌∷◌, ◌++◌, concat,
  length, take, drop, ◌≡◌, refl, sym, ap, ◌∙◌, All, arith, length-append, length-drop, length-take,
  take-append-drop,
}
use db_backup_tool.Effects.Inputs.{Value}
use db_backup_tool.Sql.Statements.{
  postgres_insert, tuple_text, remove, is_hole, spread, row_numbers, batch_numbers, batches,
  batches_from,
}

-- The numbers from `from` on, as many as `n`.
abbrev pub range : (from n : ℕ) → List ℕ
range from zero = []
range from (suc n) = from ∷ range (suc from) n

range-append : (from m n : ℕ) → range from m ++ range (from + m) n ≡ range from (m + n)
range-append from zero n = (λ i. range (zero_right i) n) ∙ (λ i. range from (zero_left i))
  where
    zero_right : from + 0 ≡ from
    zero_right = omega arith

    zero_left : n ≡ 0 + n
    zero_left = omega arith
range-append from (suc m) n =
    ap (λ l. from ∷ l)
      ((λ i. range (suc from) m ++ range (shift i) n) ∙ range-append (suc from) m n)
    ∙ (λ i. range from (more i))
  where
    shift : from + suc m ≡ suc from + m
    shift = omega arith

    more : suc (m + n) ≡ suc m + n
    more = omega arith

-- The numbering of the values of row `ri` that skips none.
abbrev count_row : (width ri ci : ℕ) → List Value → List ℕ
count_row width ri ci [] = []
count_row width ri ci (v ∷ vs) = (ri * width + ci + 1) ∷ count_row width ri (suc ci) vs

abbrev count_batch : (width ri : ℕ) → List (List Value) → List (List ℕ)
count_batch width ri [] = []
count_batch width ri (row ∷ rows) = count_row width ri 0 row ∷ count_batch width (suc ri) rows

-- A row without holes.
abbrev pub IsFull : List Value → Type 0
IsFull = All (λ v. is_hole v ≡ false)

row_numbers-full :
    (width ri ci : ℕ) (row : List Value)
    → IsFull row
    → row_numbers width ri ci row ≡ map some (count_row width ri ci row)
unfolding row_numbers
row_numbers-full width ri ci [] full = refl
row_numbers-full width ri ci (v ∷ vs) (p, full) =
    rw p (ap (λ l. some (ri * width + ci + 1) ∷ l) (row_numbers-full width ri (suc ci) vs full))

batch_numbers-full :
    (width ri : ℕ) (rows : List (List Value))
    → All IsFull rows
    → batch_numbers width ri rows ≡ map (map some) (count_batch width ri rows)
unfolding batch_numbers
batch_numbers-full width ri [] full = refl
batch_numbers-full width ri (row ∷ rows) (p, full) =
    λ i. row_numbers-full width ri 0 row p i ∷ batch_numbers-full width (suc ri) rows full i

length-map : {A B : Type 0} (f : A → B) (xs : List A) → length (map f xs) ≡ length xs
length-map f [] = refl
length-map f (x ∷ xs) = ap suc (length-map f xs)

map-map :
    {A B C : Type 0} (g : B → C) (f : A → B) (xs : List A)
    → map g (map f xs) ≡ map (λ x. g (f x)) xs
map-map g f [] = refl
map-map g f (x ∷ xs) = ap (λ l. g (f x) ∷ l) (map-map g f xs)

count_row-range :
    (width ri ci : ℕ) (row : List Value)
    → count_row width ri ci row ≡ range (ri * width + ci + 1) (length row)
count_row-range width ri ci [] = refl
count_row-range width ri ci (v ∷ vs) =
    ap (λ l. (ri * width + ci + 1) ∷ l)
      (count_row-range width ri (suc ci) vs ∙ (λ i. range (next i) (length vs)))
  where
    next : ri * width + suc ci + 1 ≡ suc (ri * width + ci + 1)
    next = omega arith

length-count_row :
    (width ri ci : ℕ) (row : List Value) → length (count_row width ri ci row) ≡ length row
length-count_row width ri ci [] = refl
length-count_row width ri ci (v ∷ vs) = ap suc (length-count_row width ri (suc ci) vs)

numbers-range :
    (width ri : ℕ) (rows : List (List Value))
    → All (λ row. length row ≡ width) rows
    → concat (count_batch width ri rows) ≡ range (ri * width + 1) (length (concat rows))
numbers-range width ri [] same = refl
numbers-range width ri (row ∷ rows) (p, same) =
    (λ i. count_row-range width ri 0 row i ++ numbers-range width (suc ri) rows same i)
    ∙ (λ i. range (first i) (length row) ++ range (second i) (length (concat rows)))
    ∙ range-append (ri * width + 1) (length row) (length (concat rows))
    ∙ (λ i. range (ri * width + 1) (sym (length-append row (concat rows)) i))
  where
    first : ri * width + 0 + 1 ≡ ri * width + 1
    first = omega arith

    second : suc ri * width + 1 ≡ ri * width + 1 + length row
    second = omega (arith, p)

lengths-count_batch :
    (width ri : ℕ) (rows : List (List Value))
    → map length (count_batch width ri rows) ≡ map length rows
lengths-count_batch width ri [] = refl
lengths-count_batch width ri (row ∷ rows) =
    λ i. length-count_row width ri 0 row i ∷ lengths-count_batch width (suc ri) rows i

-- Where every row of a batch has as many values as there are columns and no holes, the text of the statement ends in
-- one tuple of placeholders for each row, with as many placeholders as the row has values; read in their
-- order they are numbered from 1 on without a gap, as many as the statement has values.
pub postgres_insert_lem :
    (table : String) (columns : List String) (batch : List (List Value))
    → All (λ row. length row ≡ length columns) batch
    → All IsFull batch
    → (head : String) × (numbers : List (List ℕ)) × ((postgres_insert table columns batch).sql
        ≡ head <> ") VALUES " <> join ", " (map (λ n. tuple_text (map some n)) numbers))
      × (map length numbers ≡ map length batch)
      × (concat numbers ≡ range 1 (length (postgres_insert table columns batch).values))
unfolding postgres_insert
postgres_insert_lem table columns batch same full =
    let names = join ", " (map (λ c. "\"" <> remove 34 c <> "\"") columns) in
    let numbers = count_batch (length columns) 0 batch in
    let tuples =
      ") VALUES " <> join ", " (map tuple_text (batch_numbers (length columns) 0 batch)) in
    (
      "INSERT INTO \"" <> remove 34 table <> "\" (" <> names,
      numbers,
      sym (
            append_assoc "INSERT INTO \"" (remove 34 table <> "\" (" <> names) tuples
            ∙ ap (λ t. "INSERT INTO \"" <> t)
                (append_assoc (remove 34 table) ("\" (" <> names) tuples
                  ∙ ap (λ t. remove 34 table <> t) (append_assoc "\" (" names tuples)))
          ∙ ap
              (λ n.
                ("INSERT INTO \"" <> remove 34 table <> "\" (" <> names)
                <> ") VALUES "
                <> join ", " n)
              (ap (map tuple_text) (batch_numbers-full (length columns) 0 batch full)
                ∙ map-map tuple_text (map some) numbers),
      lengths-count_batch (length columns) 0 batch,
      numbers-range (length columns) 0 batch same
          ∙ (λ i. range (one i) (sym (length-map spread (concat batch)) i)),
    )
  where
    one : 0 * length columns + 1 ≡ 1
    one = omega arith

batches_from_lem :
    (fuel : ℕ) (rows : List (List Value))
    → length rows ≤ fuel
    → (concat (batches_from fuel rows) ≡ rows)
      × All (λ batch. (1 ≤ length batch) × (length batch ≤ 500)) (batches_from fuel rows)
unfolding batches_from
batches_from_lem zero [] enough = (refl, tt)
batches_from_lem zero (row ∷ rows) enough = ground arith
batches_from_lem (suc fuel) [] enough = (refl, tt)
batches_from_lem (suc fuel) (row ∷ rows) enough =
    let less = length-drop 500 (row ∷ rows) in
    let (whole, sized) = batches_from_lem fuel (drop 500 (row ∷ rows)) (omega (arith, less)) in
    (
      ap (λ l. take 500 (row ∷ rows) ++ l) whole ∙ take-append-drop 500 (row ∷ rows),
      ((omega arith, length-take 500 (row ∷ rows)), sized),
    )

-- The batches of an insertion are its rows, cut into pieces that are not empty and no longer than
-- 500.
pub batches_lem :
    (rows : List (List Value))
    → (concat (batches rows) ≡ rows)
      × All (λ batch. (1 ≤ length batch) × (length batch ≤ 500)) (batches rows)
unfolding batches
batches_lem rows = batches_from_lem (length rows) rows (omega arith)
