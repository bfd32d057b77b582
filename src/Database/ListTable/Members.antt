-- ===== src/Database/ListTable/Members.antt =====
-- Membership under the list functions of a table.
use my_account_controller.Common.{
  ◌≡◌, refl, Bool, true, false, none, some, List, [], ◌∷◌, Memᴰ, head, tail, keep, find, any, inl,
  inr, arith, Bool-cases,
}

module _ {Row : Type 0} (p : Row → Bool) where
  pub find_sound : (rows : List Row) {r : Row} → find p rows ≡ some r → Memᴰ r rows × (p r ≡ true)
  find_sound [] h = absurd (ground arith)
  find_sound (x ∷ rows) {r} h = elim (Bool-cases (p x)) [
    | inl here ↦ let e : r ≡ x = ground arith in (head e, ground arith)
    | inr there ↦ let (m, e) = find_sound rows {r = r} (rw there at h) in (tail m, e)
  ]

  pub find_misses : (rows : List Row) {r : Row} → find p rows ≡ none → Memᴰ r rows → p r ≡ false
  find_misses [] h m = elim m [ ]
  find_misses (x ∷ rows) h (head e) = ground arith
  find_misses (x ∷ rows) h (tail m) = find_misses rows (ground arith) m

  pub keep_sound : (rows : List Row) {r : Row} → Memᴰ r (keep p rows) → Memᴰ r rows × (p r ≡ true)
  keep_sound [] m = elim m [ ]
  keep_sound (x ∷ rows) {r} m = elim (Bool-cases (p x)) [
    | inl here ↦
        let m' : Memᴰ r (x ∷ keep p rows) = rw here at m in
        kept_head rows x here m' (λ n. keep_sound rows n)
    | inr there ↦
        let m' : Memᴰ r (keep p rows) = rw there at m in
        let (n, e) = keep_sound rows m' in (tail n, e)
  ]
    where
      kept_head :
          (rows : List Row) (x : Row) {r : Row}
          → p x ≡ true
          → Memᴰ r (x ∷ keep p rows)
          → (Memᴰ r (keep p rows) → Memᴰ r rows × (p r ≡ true))
          → Memᴰ r (x ∷ rows) × (p r ≡ true)
      kept_head rows x here (head e) later = (head e, rw e here)
      kept_head rows x here (tail n) later = let (k, e) = later n in (tail k, e)

  pub keep_complete : (rows : List Row) {r : Row} → Memᴰ r rows → p r ≡ true → Memᴰ r (keep p rows)
  keep_complete [] m h = elim m [ ]
  keep_complete (x ∷ rows) (head e) h = let t : p x ≡ true = rw (← e) h in rw t (head e)
  keep_complete (x ∷ rows) (tail m) h = elim (Bool-cases (p x)) [
    | inl here ↦ rw here (tail (keep_complete rows m h))
    | inr there ↦ rw there (keep_complete rows m h)
  ]

  pub any_sound : (rows : List Row) → any p rows ≡ true → (r : Row) × Memᴰ r rows × (p r ≡ true)
  any_sound [] h = absurd (ground arith)
  any_sound (x ∷ rows) h = elim (Bool-cases (p x)) [
    | inl here ↦ (x, head refl, here)
    | inr there ↦ let (r, m, e) = any_sound rows (ground arith) in (r, tail m, e)
  ]

  pub any_misses : (rows : List Row) {r : Row} → any p rows ≡ false → Memᴰ r rows → p r ≡ false
  any_misses [] h m = elim m [ ]
  any_misses (x ∷ rows) h (head e) = ground arith
  any_misses (x ∷ rows) h (tail m) = any_misses rows (ground arith) m
