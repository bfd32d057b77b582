-- ===== src/Accounts/Generator/Shuffle.antt =====
-- The characters under the shuffle of `generatePassword` (accounts/accounts.service.ts).
use my_account_controller.Common.{
  ℕ, zero, suc, ◌-◌, ◌≤◌, ◌<◌, ◌≡◌, refl, ◌∙◌, Bool, Text, length, get_or, set, count_where,
  count_where-set, get_or-set, length-set, arith,
}
use my_account_controller.Accounts.Generator.{Random, swap, shuffle}

pub length-swap : (i j : ℕ) (chars : Text) → length (swap i j chars) ≡ length chars
unfolding swap
length-swap i j chars =
    length-set (set chars i (get_or chars j 0)) j (get_or chars i 0)
    ∙ length-set chars i (get_or chars j 0)

-- A swap of two places in range keeps how many characters pass a test.
pub count_where-swap :
    (p : ℕ → Bool) (i j : ℕ) (chars : Text)
    → i < length chars
    → j < length chars
    → count_where p (swap i j chars) ≡ count_where p chars
unfolding swap
count_where-swap p i j chars hi hj =
    let x = get_or chars i 0 in
    let y = get_or chars j 0 in
    let one = count_where-set p chars i y 0 hi in
    let two = count_where-set p (set chars i y) j x 0 (omega (arith, length-set chars i y)) in
    let there = get_or-set chars i j y 0 hi in ground (arith, one, two, there)

module _ (random : Random) where
  pub length-shuffle :
      (draw i : ℕ) (chars : Text) → length (shuffle random draw i chars) ≡ length chars
  unfolding shuffle
  length-shuffle draw zero chars = refl
  length-shuffle draw (suc i) chars =
      let j = random.random_int draw (suc (suc i)) in
      length-shuffle (suc draw) i (swap (suc i) j chars) ∙ length-swap (suc i) j chars

  pub count_where-shuffle :
      (p : ℕ → Bool) (draw i : ℕ) (chars : Text)
      → i ≤ length chars - 1
      → count_where p (shuffle random draw i chars) ≡ count_where p chars
  unfolding shuffle
  count_where-shuffle p draw zero chars h = refl
  count_where-shuffle p draw (suc i) chars h =
      let j = random.random_int draw (suc (suc i)) in
      let below = random.random_int-lt draw (suc (suc i)) (omega arith) in
      count_where-shuffle p (suc draw) i (swap (suc i) j chars)
        (omega (arith, length-swap (suc i) j chars))
      ∙ count_where-swap p (suc i) j chars (omega arith) (omega arith)
