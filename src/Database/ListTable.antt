-- ===== src/Database/ListTable.antt =====
-- A table kept as a list: it meets the interface, so the laws assumed of Prisma can hold together.
pub mod Sort
pub mod Members
pub mod Updates
use Members.{find_sound, find_misses, keep_sound, keep_complete, any_sound, any_misses}
use Sort.{sort, mem-sort, mem_of_sort, Sorted-sort}
use Updates.{
  list_update, list_update_picks, list_update_fits, list_update_stores, list_update_only,
  list_update_missing, list_update_clashes,
}
use my_account_controller.Common.{
  ℕ, ◌≡◌, ◌⊎◌, refl, Bool, true, false, not, List, [], ◌∷◌, Memᴰ, head, tail, p2002, keep, find,
  any, leb, ◌≤◌, count_where, if◌then◌else◌, inl, inr, arith, Bool-cases, Code,
}
use my_account_controller.Database.Model.{Written, written, refused, Table, Ascending, Descending}

pub mem_of_cons : {A : Type 0} {x q : A} {xs : List A} → Memᴰ q (x ∷ xs) → (q ≡ x) ⊎ Memᴰ q xs
mem_of_cons (head e) = inl e
mem_of_cons (tail m) = inr m

pub not-false : {b : Bool} → b ≡ false → not b ≡ true
not-false h = ground arith

pub false_of_not : {b : Bool} → not b ≡ true → b ≡ false
false_of_not h = ground arith

abbrev pub geb : ℕ → ℕ → Bool
geb a b = leb b a

pub leb_holds : (a b : ℕ) → leb a b ≡ true → a ≤ b
leb_holds a b h = ground arith

pub leb_fails : (a b : ℕ) → leb a b ≡ false → b ≤ a
leb_fails a b h = ground arith

pub up_trans : (a b c : ℕ) → a ≤ b → b ≤ c → a ≤ c
up_trans a b c h k = omega arith

pub down_trans : (a b c : ℕ) → b ≤ a → c ≤ b → c ≤ a
down_trans a b c h k = omega arith

module _ {Row : Type 0} where
  abbrev pub list_create : (Row → Row → Bool) → Row → List Row → Written Row
  list_create clash row rows = if any (clash row) rows then refused p2002 else written (row ∷ rows)

  -- What a create that went through has done.
  pub create_written :
      (clash : Row → Row → Bool) (row : Row) (rows : List Row) {rows' : List Row}
      → list_create clash row rows ≡ written rows'
      → (any (clash row) rows ≡ false) × (rows' ≡ row ∷ rows)
  create_written clash row rows h = ground arith

  pub create_failed :
      (clash : Row → Row → Bool) (row : Row) (rows : List Row) {c : Code}
      → list_create clash row rows ≡ refused c
      → (c ≡ p2002) × (any (clash row) rows ≡ true)
  create_failed clash row rows h = ground arith

  abbrev pub list_table : Table Row
  list_table = record {
    find_first = find;
    find_many = keep;
    find_asc = λ key p rows. sort leb key (keep p rows);
    find_desc = λ key p rows. sort geb key (keep p rows);
    create = list_create;
    update = list_update;
    delete_many = λ p rows. keep (λ r. not (p r)) rows;
    count = count_where;
    find_first_some = find_sound;
    find_first_none = find_misses;
    find_many_sound = keep_sound;
    find_many_complete = keep_complete;
    find_asc_sound = λ key p rows m. keep_sound p rows (mem_of_sort leb key (keep p rows) m);
    find_asc_complete = λ key p rows m h. mem-sort leb key (keep p rows) (keep_complete p rows m h);
    find_asc_sorted =
        λ key p rows. Sorted-sort leb key (λ a b. a ≤ b) leb_holds leb_fails up_trans (keep p rows);
    find_desc_sound = λ key p rows m. keep_sound p rows (mem_of_sort geb key (keep p rows) m);
    find_desc_complete =
        λ key p rows m h. mem-sort geb key (keep p rows) (keep_complete p rows m h);
    find_desc_sorted = λ key p rows.
        Sorted-sort geb key (λ a b. b ≤ a) (λ a b. leb_holds b a) (λ a b. leb_fails b a) down_trans
          (keep p rows);
    create_fits =
        λ clash row rows h q m. any_misses (clash row) rows (create_written clash row rows h).0 m;
    create_adds = λ clash row rows h. rw (create_written clash row rows h).1 (head refl);
    create_keeps = λ clash row rows h m. rw (create_written clash row rows h).1 (tail m);
    create_only = λ clash row rows h m. mem_of_cons (rw (create_written clash row rows h).1 at m);
    create_refused = λ clash row rows h.
        let (e, k) = create_failed clash row rows h in (e, any_sound (clash row) rows k);
    update_picks = list_update_picks;
    update_fits = list_update_fits;
    update_stores = list_update_stores;
    update_only = list_update_only;
    update_missing = list_update_missing;
    update_clashes = list_update_clashes;
    delete_many_keeps = λ p rows m h. keep_complete (λ r. not (p r)) rows m (not-false h);
    delete_many_only =
        λ p rows m. let (n, h) = keep_sound (λ r. not (p r)) rows m in (n, false_of_not h);
    count_lem = λ p rows. refl;
  }
