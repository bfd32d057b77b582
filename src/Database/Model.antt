-- ===== src/Database/Model.antt =====
-- Prisma's client for one model, as an interface: its operations on the rows of a table, and what
-- its documentation says of them. Which row `findFirst` returns, and the order of the rows, are
-- left open; `findMany` with `orderBy` sorts by a number of each row.
use my_account_controller.Common.{
  ℕ, ◌≤◌, ◌≡◌, Bool, true, false, if◌then◌else◌, Option, none, some, List, [], ◌∷◌, Memᴰ, ◌⊎◌, inl,
  inr, refl, Code, p2002, p2025, count_where,
}

-- A write: the rows after it, or the code with which it is refused.
pub data Written (Row : Type 0) : Type 0 where
  written : List Row → Written Row
  refused : Code → Written Row

-- Each row's number is related to those of the rows after it.
abbrev pub Sorted : {Row : Type 0} → (ℕ → ℕ → Type 0) → (Row → ℕ) → List Row → Type 0
Sorted R key [] = Unit
Sorted {Row} R key (r ∷ rows) = ((q : Row) → Memᴰ q rows → R (key r) (key q)) × Sorted R key rows

abbrev pub Ascending : {Row : Type 0} → (Row → ℕ) → List Row → Type 0
Ascending = Sorted (λ a b. a ≤ b)

abbrev pub Descending : {Row : Type 0} → (Row → ℕ) → List Row → Type 0
Descending = Sorted (λ a b. b ≤ a)

pub record Table (Row : Type 0) : Type 0 where
  -- `findFirst({ where })` and `findUnique`
  pub find_first : (Row → Bool) → List Row → Option Row
  -- `findMany({ where })`, and with `orderBy: { key: 'asc' }` or `'desc'`
  pub find_many : (Row → Bool) → List Row → List Row
  pub find_asc : (Row → ℕ) → (Row → Bool) → List Row → List Row
  pub find_desc : (Row → ℕ) → (Row → Bool) → List Row → List Row
  -- `create({ data })`, under the model's unique constraints
  pub create : (Row → Row → Bool) → Row → List Row → Written Row
  -- `update({ where, data })`, on the rows that `where` picks
  pub update : (Row → Row → Bool) → (Row → Bool) → (Row → Row) → List Row → Written Row
  -- `deleteMany({ where })`: what is left; a cascade deletes in the same way
  pub delete_many : (Row → Bool) → List Row → List Row
  -- `count` and the `count` that `deleteMany` and `groupBy` report
  pub count : (Row → Bool) → List Row → ℕ
  pub find_first_some :
      (p : Row → Bool) (rows : List Row) {r : Row}
      → find_first p rows ≡ some r
      → Memᴰ r rows × (p r ≡ true)
  pub find_first_none :
      (p : Row → Bool) (rows : List Row) {r : Row}
      → find_first p rows ≡ none
      → Memᴰ r rows
      → p r ≡ false
  pub find_many_sound :
      (p : Row → Bool) (rows : List Row) {r : Row}
      → Memᴰ r (find_many p rows)
      → Memᴰ r rows × (p r ≡ true)
  pub find_many_complete :
      (p : Row → Bool) (rows : List Row) {r : Row}
      → Memᴰ r rows
      → p r ≡ true
      → Memᴰ r (find_many p rows)
  pub find_asc_sound :
      (key : Row → ℕ) (p : Row → Bool) (rows : List Row) {r : Row}
      → Memᴰ r (find_asc key p rows)
      → Memᴰ r rows × (p r ≡ true)
  pub find_asc_complete :
      (key : Row → ℕ) (p : Row → Bool) (rows : List Row) {r : Row}
      → Memᴰ r rows
      → p r ≡ true
      → Memᴰ r (find_asc key p rows)
  pub find_asc_sorted :
      (key : Row → ℕ) (p : Row → Bool) (rows : List Row) → Ascending key (find_asc key p rows)
  pub find_desc_sound :
      (key : Row → ℕ) (p : Row → Bool) (rows : List Row) {r : Row}
      → Memᴰ r (find_desc key p rows)
      → Memᴰ r rows × (p r ≡ true)
  pub find_desc_complete :
      (key : Row → ℕ) (p : Row → Bool) (rows : List Row) {r : Row}
      → Memᴰ r rows
      → p r ≡ true
      → Memᴰ r (find_desc key p rows)
  pub find_desc_sorted :
      (key : Row → ℕ) (p : Row → Bool) (rows : List Row) → Descending key (find_desc key p rows)
  -- A new row is stored if it clashes with none, and beside what was there; otherwise P2002.
  pub create_fits :
      (clash : Row → Row → Bool) (row : Row) (rows : List Row) {rows' : List Row}
      → create clash row rows ≡ written rows'
      → (q : Row) → Memᴰ q rows
      → clash row q ≡ false
  pub create_adds :
      (clash : Row → Row → Bool) (row : Row) (rows : List Row) {rows' : List Row}
      → create clash row rows ≡ written rows'
      → Memᴰ row rows'
  pub create_keeps :
      (clash : Row → Row → Bool) (row : Row) (rows : List Row) {rows' : List Row} {q : Row}
      → create clash row rows ≡ written rows'
      → Memᴰ q rows
      → Memᴰ q rows'
  pub create_only :
      (clash : Row → Row → Bool) (row : Row) (rows : List Row) {rows' : List Row} {q : Row}
      → create clash row rows ≡ written rows'
      → Memᴰ q rows'
      → (q ≡ row) ⊎ Memᴰ q rows
  pub create_refused :
      (clash : Row → Row → Bool) (row : Row) (rows : List Row) {c : Code}
      → create clash row rows ≡ refused c
      → (c ≡ p2002) × ((q : Row) × Memᴰ q rows × (clash row q ≡ true))
  -- An update changes the picked rows alone. It is refused with P2025 if there is none, and with
  -- P2002 if a changed row would clash with another.
  pub update_picks :
      (clash : Row → Row → Bool) (pick : Row → Bool) (f : Row → Row) (rows : List Row)
      {rows' : List Row}
      → update clash pick f rows ≡ written rows'
      → (q : Row) × Memᴰ q rows × (pick q ≡ true)
  pub update_fits :
      (clash : Row → Row → Bool) (pick : Row → Bool) (f : Row → Row) (rows : List Row)
      {rows' : List Row} {q o : Row}
      → update clash pick f rows ≡ written rows'
      → Memᴰ q rows
      → pick q ≡ true
      → Memᴰ o rows
      → pick o ≡ false
      → clash (f q) o ≡ false
  pub update_stores :
      (clash : Row → Row → Bool) (pick : Row → Bool) (f : Row → Row) (rows : List Row)
      {rows' : List Row} {q : Row}
      → update clash pick f rows ≡ written rows'
      → Memᴰ q rows
      → Memᴰ (if pick q then f q else q) rows'
  pub update_only :
      (clash : Row → Row → Bool) (pick : Row → Bool) (f : Row → Row) (rows : List Row)
      {rows' : List Row} {r : Row}
      → update clash pick f rows ≡ written rows'
      → Memᴰ r rows'
      → (q : Row) × Memᴰ q rows × (r ≡ (if pick q then f q else q))
  pub update_missing :
      (clash : Row → Row → Bool) (pick : Row → Bool) (f : Row → Row) (rows : List Row) {q : Row}
      → update clash pick f rows ≡ refused p2025
      → Memᴰ q rows
      → pick q ≡ false
  pub update_clashes :
      (clash : Row → Row → Bool) (pick : Row → Bool) (f : Row → Row) (rows : List Row)
      → update clash pick f rows ≡ refused p2002
      → (q : Row) × Memᴰ q rows
        × (pick q ≡ true)
        × ((o : Row) × Memᴰ o rows × (pick o ≡ false) × (clash (f q) o ≡ true))
  pub delete_many_keeps :
      (p : Row → Bool) (rows : List Row) {r : Row}
      → Memᴰ r rows
      → p r ≡ false
      → Memᴰ r (delete_many p rows)
  pub delete_many_only :
      (p : Row → Bool) (rows : List Row) {r : Row}
      → Memᴰ r (delete_many p rows)
      → Memᴰ r rows × (p r ≡ false)
  pub count_lem : (p : Row → Bool) (rows : List Row) → count p rows ≡ count_where p rows

pub Written-cases :
    {Row : Type 0} (x : Written Row)
    → ((rows : List Row) × (x ≡ written rows)) ⊎ ((c : Code) × (x ≡ refused c))
Written-cases (written rows) = inl (rows, refl)
Written-cases (refused c) = inr (c, refl)
