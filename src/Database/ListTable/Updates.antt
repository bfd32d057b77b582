-- ===== src/Database/ListTable/Updates.antt =====
-- `update` on a table kept as a list.
use my_account_controller.Common.{
  ◌≡◌, refl, Bool, true, false, not, ◌&&◌, List, [], ◌∷◌, map, Memᴰ, head, tail, p2002, p2025, any,
  if◌then◌else◌, inl, inr, arith, Bool-cases,
}
use my_account_controller.Database.Model.{Written, written, refused}
use my_account_controller.Database.ListTable.Members.{any_sound, any_misses}

module _ {Row : Type 0} (clash : Row → Row → Bool) (pick : Row → Bool) (f : Row → Row) where
  abbrev write_row : Row → Row
  write_row r = if pick r then f r else r

  abbrev collides : Row → Row → Bool
  collides q o = not (pick o) && clash (f q) o

  abbrev bad : List Row → Row → Bool
  bad rows q = pick q && any (collides q) rows

  abbrev pub list_update : List Row → Written Row
  list_update rows =
      if any pick rows
      then (if any (bad rows) rows then refused p2002 else written (map write_row rows))
      else refused p2025

  mem-map : (rows : List Row) {q : Row} → Memᴰ q rows → Memᴰ (write_row q) (map write_row rows)
  mem-map [] m = elim m [ ]
  mem-map (x ∷ rows) (head e) = head (λ i. write_row (e i))
  mem-map (x ∷ rows) (tail m) = tail (mem-map rows m)

  mem_of_map :
      (rows : List Row) {r : Row}
      → Memᴰ r (map write_row rows)
      → (q : Row) × Memᴰ q rows × (r ≡ write_row q)
  mem_of_map [] m = elim m [ ]
  mem_of_map (x ∷ rows) (head e) = (x, head refl, e)
  mem_of_map (x ∷ rows) (tail m) = let (q, n, e) = mem_of_map rows m in (q, tail n, e)

  went_through :
      (rows : List Row) {rows' : List Row}
      → list_update rows ≡ written rows'
      → (any pick rows ≡ true) × (any (bad rows) rows ≡ false) × (rows' ≡ map write_row rows)
  went_through rows h = elim (Bool-cases (any pick rows)) [
    | inl a ↦ elim (Bool-cases (any (bad rows) rows)) [
      | inl b ↦ absurd (ground arith)
      | inr b ↦ (a, b, ground arith)
    ]
    | inr a ↦ absurd (ground arith)
  ]

  pub list_update_picks :
      (rows : List Row) {rows' : List Row}
      → list_update rows ≡ written rows'
      → (q : Row) × Memᴰ q rows × (pick q ≡ true)
  list_update_picks rows h = any_sound pick rows (went_through rows h).0

  pub list_update_fits :
      (rows : List Row) {rows' : List Row} {q o : Row}
      → list_update rows ≡ written rows'
      → Memᴰ q rows
      → pick q ≡ true
      → Memᴰ o rows
      → pick o ≡ false
      → clash (f q) o ≡ false
  list_update_fits rows {q = q} {o = o} h mq pq mo po =
      let none_bad = any_misses (bad rows) rows (went_through rows h).1 mq in
      let none_here : any (collides q) rows ≡ false = ground arith in
      let apart = any_misses (collides q) rows none_here mo in ground arith

  pub list_update_stores :
      (rows : List Row) {rows' : List Row} {q : Row}
      → list_update rows ≡ written rows'
      → Memᴰ q rows
      → Memᴰ (write_row q) rows'
  list_update_stores rows h m = rw (went_through rows h).2 (mem-map rows m)

  pub list_update_only :
      (rows : List Row) {rows' : List Row} {r : Row}
      → list_update rows ≡ written rows'
      → Memᴰ r rows'
      → (q : Row) × Memᴰ q rows × (r ≡ write_row q)
  list_update_only rows {r = r} h m = mem_of_map rows (rw (went_through rows h).2 at m)

  pub list_update_missing :
      (rows : List Row) {q : Row} → list_update rows ≡ refused p2025 → Memᴰ q rows → pick q ≡ false
  list_update_missing rows h m = elim (Bool-cases (any pick rows)) [
    | inl a ↦ absurd (ground arith)
    | inr a ↦ any_misses pick rows a m
  ]

  pub list_update_clashes :
      (rows : List Row)
      → list_update rows ≡ refused p2002
      → (q : Row) × Memᴰ q rows
        × (pick q ≡ true)
        × ((o : Row) × Memᴰ o rows × (pick o ≡ false) × (clash (f q) o ≡ true))
  list_update_clashes rows h =
      let some_bad : any (bad rows) rows ≡ true = ground arith in
      let (q, m, e) = any_sound (bad rows) rows some_bad in
      let (o, n, k) = any_sound (collides q) rows (ground arith) in
      (q, m, ground arith, (o, n, ground arith, ground arith))
