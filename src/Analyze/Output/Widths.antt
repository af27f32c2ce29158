-- ===== src/Analyze/Output/Widths.antt =====
-- The lines of `rows_to_table` in tools/ghalo_analyze.py.
use g_halo.Float.{Float}
use g_halo.Text.{join, Text, lit}
use g_halo.Analyze.Output.{
  spaces, ljust, greatest, Cells, column_width, table_line, table_rows, table_lines, cell_text,
  rule, padded, ordered_fields,
}
use g_halo.Prelude.{
  ℕ, zero, suc, length, List, ◌≡◌, ◌≤◌, Occurs, ap, ◌-◌, arith, map, ◌∷◌, length-append, [], refl,
  Bool-cases, ◌++◌, inl, ltb, ltb→lt, inr,
}

length-spaces : (c n : ℕ) → length (spaces c n) ≡ n
unfolding spaces
length-spaces c zero = refl
length-spaces c (suc n) = ap suc (length-spaces c n)

length-ljust : (width : ℕ) (text : Text) → length text ≤ width → length (ljust width text) ≡ width
unfolding ljust
length-ljust width text h =
    let padding = length-spaces b' ' (width - length text) in
    omega (arith, length-append text (spaces b' ' (width - length text)), padding)

greatest-above : (best : ℕ) (l : List ℕ) → best ≤ greatest best l
unfolding greatest
greatest-above best [] = omega arith
greatest-above best (n ∷ l) = elim (Bool-cases (ltb best n)) [
  | inl e ↦
      rw e (let ih = greatest-above n l in let less = ltb→lt best n e in omega (arith, ih, less))
  | inr e ↦ rw e (greatest-above best l)
]

greatest-Occurs : (best n : ℕ) (l : List ℕ) → Occurs n l → n ≤ greatest best l
unfolding greatest
greatest-Occurs best n [] o = absurd o.1
greatest-Occurs best n (m ∷ l) (inl same) = elim (Bool-cases (ltb best m)) [
  | inl e ↦ rw e (let ih = greatest-above m l in omega (arith, ih, same))
  | inr e ↦
      let bound : m ≤ best = ground arith in
      rw e (let ih = greatest-above best l in omega (arith, ih, same, bound))
]
greatest-Occurs best n (m ∷ l) (inr o) = elim (Bool-cases (ltb best m)) [
  | inl e ↦ rw e (greatest-Occurs m n l o)
  | inr e ↦ rw e (greatest-Occurs best n l o)
]

module _ {F : Type 0} ⦃f : Float F⦄ where
  -- The line reads, column by column: what the column shows and then blanks, as wide together as the
  -- column, and two blanks before the next column.
  abbrev pub Reads : List (Cells F) → (Text → Text) → List Text → Text → Type 0
  Reads rows shown [] line = line ≡ []
  Reads rows shown (field ∷ []) line =
      (n : ℕ) × (line ≡ shown field ++ spaces b' ' n) × (length line ≡ column_width rows field)
  Reads rows shown (field ∷ next ∷ fields) line =
      (n : ℕ) × (cell : Text) × (rest : Text) × (line ≡ cell ++ lit "  " ++ rest)
      × (cell ≡ shown field ++ spaces b' ' n)
      × (length cell ≡ column_width rows field)
      × Reads rows shown (next ∷ fields) rest

  -- The lines read as the rows, one for each and in their order.
  abbrev pub ReadsRows : List (Cells F) → List Text → List (Cells F) → List Text → Type 0
  ReadsRows all fields [] lines = lines ≡ []
  ReadsRows all fields (row ∷ rows) lines =
      (line : Text) × (rest : List Text) × (lines ≡ line ∷ rest)
      × Reads all (cell_text row) fields line
      × ReadsRows all fields rows rest

  Occurs-map :
      (field : Text) (row : Cells F) (rows : List (Cells F))
      → Occurs row rows
      → Occurs (length (cell_text row field)) (map (λ r. length (cell_text r field)) rows)
  Occurs-map field row [] o = absurd o.1
  Occurs-map field row (other ∷ rows) (inl e) = inl (ap (λ r. length (cell_text r field)) e)
  Occurs-map field row (other ∷ rows) (inr o) = inr (Occurs-map field row rows o)

  -- What a cell and a heading show fits into the column.
  cell_fits :
      (rows : List (Cells F)) (row : Cells F) (field : Text)
      → Occurs row rows
      → length (cell_text row field) ≤ column_width rows field
  unfolding column_width
  cell_fits rows row field o =
      greatest-Occurs (length field) (length (cell_text row field))
        (map (λ r. length (cell_text r field)) rows) (Occurs-map field row rows o)

  heading_fits : (rows : List (Cells F)) (field : Text) → length field ≤ column_width rows field
  unfolding column_width
  heading_fits rows field =
      greatest-above (length field) (map (λ r. length (cell_text r field)) rows)

  table_line-Reads :
      (rows : List (Cells F)) (fields : List Text) (shown : Text → Text)
      → ((field : Text) → length (shown field) ≤ column_width rows field)
      → Reads rows shown fields (table_line rows fields shown)
  unfolding table_line join ljust
  table_line-Reads rows [] shown fits = refl
  table_line-Reads rows (field ∷ []) shown fits = (
    column_width rows field - length (shown field),
    refl,
    length-ljust (column_width rows field) (shown field) (fits field),
  )
  table_line-Reads rows (field ∷ next ∷ fields) shown fits = (
    column_width rows field - length (shown field),
    padded rows shown field,
    table_line rows (next ∷ fields) shown,
    refl,
    refl,
    length-ljust (column_width rows field) (shown field) (fits field),
    table_line-Reads rows (next ∷ fields) shown fits,
  )

  table_rows-ReadsRows :
      (all : List (Cells F)) (fields : List Text) (rows : List (Cells F))
      → ((row : Cells F) → Occurs row rows → Occurs row all)
      → ReadsRows all fields rows (table_rows all fields rows)
  unfolding table_rows
  table_rows-ReadsRows all fields [] inside = refl
  table_rows-ReadsRows all fields (row ∷ rows) inside = (
    table_line all fields (cell_text row),
    table_rows all fields rows,
    refl,
    table_line-Reads all fields (cell_text row)
        (λ field. cell_fits all row field (inside row (inl refl))),
    table_rows-ReadsRows all fields rows (λ r o. inside r (inr o)),
  )

  -- The table is a line of the fields, a line of dashes, and a line for each row in their order. In
  -- each line the columns stand in the order of the fields and have the same widths, nothing that a
  -- column shows exceeds its width, and what is missing to the width is blanks.
  pub table_lines-ReadsRows :
      (rows : List (Cells F))
      → (heading dashes : Text) × (body : List Text) × (table_lines rows ≡ heading ∷ dashes ∷ body)
        × Reads rows (λ field. field) (ordered_fields rows) heading
        × (dashes ≡ join (lit "  ") (map (rule rows) (ordered_fields rows)))
        × ReadsRows rows (ordered_fields rows) rows body
  unfolding table_lines
  table_lines-ReadsRows rows =
      let fields = ordered_fields rows in
      (
        table_line rows fields (λ field. field),
        join (lit "  ") (map (rule rows) fields),
        table_rows rows fields rows,
        refl,
        table_line-Reads rows fields (λ field. field) (heading_fits rows),
        refl,
        table_rows-ReadsRows rows fields rows (λ row o. o),
      )
