-- ===== src/Database/ListTable/Sort.antt =====
-- Insertion sort by a number of each row, up or down.
use my_account_controller.Common.{
  ℕ, ◌≡◌, Bool, true, false, List, [], ◌∷◌, Memᴰ, head, tail, if◌then◌else◌, inl, inr, Bool-cases,
  ◌⊎◌,
}
use my_account_controller.Database.Model.{Sorted}

module _ {Row : Type 0} (le : ℕ → ℕ → Bool) (key : Row → ℕ) where
  abbrev pub put : Row → List Row → List Row
  put r [] = r ∷ []
  put r (x ∷ rows) = if le (key r) (key x) then r ∷ x ∷ rows else x ∷ put r rows

  abbrev pub sort : List Row → List Row
  sort [] = []
  sort (r ∷ rows) = put r (sort rows)

  mem-put : (r : Row) (rows : List Row) {q : Row} → (q ≡ r) ⊎ Memᴰ q rows → Memᴰ q (put r rows)
  mem-put r [] (inl e) = head e
  mem-put r [] (inr m) = elim m [ ]
  mem-put r (x ∷ rows) (inl e) = elim (Bool-cases (le (key r) (key x))) [
    | inl h ↦ rw h (head e)
    | inr h ↦ rw h (tail (mem-put r rows (inl e)))
  ]
  mem-put r (x ∷ rows) (inr (head e)) = elim (Bool-cases (le (key r) (key x))) [
    | inl h ↦ rw h (tail (head e))
    | inr h ↦ rw h (head e)
  ]
  mem-put r (x ∷ rows) (inr (tail m)) = elim (Bool-cases (le (key r) (key x))) [
    | inl h ↦ rw h (tail (tail m))
    | inr h ↦ rw h (tail (mem-put r rows (inr m)))
  ]

  mem_of_cons : {A : Type 0} {x q : A} {xs : List A} → Memᴰ q (x ∷ xs) → (q ≡ x) ⊎ Memᴰ q xs
  mem_of_cons (head e) = inl e
  mem_of_cons (tail m) = inr m

  mem_of_put : (r : Row) (rows : List Row) {q : Row} → Memᴰ q (put r rows) → (q ≡ r) ⊎ Memᴰ q rows
  mem_of_put r [] m = mem_of_cons m
  mem_of_put r (x ∷ rows) {q} m = elim (Bool-cases (le (key r) (key x))) [
    | inl h ↦ mem_of_cons (rw h at m)
    | inr h ↦
        let m' : Memᴰ q (x ∷ put r rows) = rw h at m in
        elim (mem_of_cons m') [
          | inl e ↦ inr (head e)
          | inr n ↦ elim (mem_of_put r rows n) [ inl e ↦ inl e | inr k ↦ inr (tail k) ]
        ]
  ]

  pub mem-sort : (rows : List Row) {q : Row} → Memᴰ q rows → Memᴰ q (sort rows)
  mem-sort [] m = elim m [ ]
  mem-sort (r ∷ rows) (head e) = mem-put r (sort rows) (inl e)
  mem-sort (r ∷ rows) (tail m) = mem-put r (sort rows) (inr (mem-sort rows m))

  pub mem_of_sort : (rows : List Row) {q : Row} → Memᴰ q (sort rows) → Memᴰ q rows
  mem_of_sort [] m = elim m [ ]
  mem_of_sort (r ∷ rows) m = elim (mem_of_put r (sort rows) m) [
    | inl e ↦ head e
    | inr n ↦ tail (mem_of_sort rows n)
  ]

  module _ (R : ℕ → ℕ → Type 0) (holds : (a b : ℕ) → le a b ≡ true → R a b)
      (fails : (a b : ℕ) → le a b ≡ false → R b a)
      (trans : (a b c : ℕ) → R a b → R b c → R a c) where
    Sorted-put : (r : Row) (rows : List Row) → Sorted R key rows → Sorted R key (put r rows)
    Sorted-put r [] up = ((λ q m. elim m [ ]), tt)
    Sorted-put r (x ∷ rows) (low, up) = elim (Bool-cases (le (key r) (key x))) [
      | inl h ↦ rw h (
        (λ q m. elim (mem_of_cons m) [
          | inl e ↦ rw e (holds _ _ h)
          | inr n ↦ trans _ _ _ (holds _ _ h) (low q n)
        ]),
        (low, up),
      )
      | inr h ↦ rw h (
        (λ q m. elim (mem_of_put r rows m) [ inl e ↦ rw e (fails _ _ h) | inr n ↦ low q n ]),
        Sorted-put r rows up,
      )
    ]

    pub Sorted-sort : (rows : List Row) → Sorted R key (sort rows)
    Sorted-sort [] = tt
    Sorted-sort (r ∷ rows) = Sorted-put r (sort rows) (Sorted-sort rows)
