-- ===== src/Accounts/Generator.antt =====
-- `generatePassword` of accounts/accounts.service.ts. Node's `randomInt(n)` at a draw is a
-- parameter, with its contract that the result lies below `n`. Every index into a character set
-- or into the password lies in range by that contract, so the default of `get_or` is never read.
mod Shuffle
pub mod Laws
use my_account_controller.Common.{
  ℕ, zero, suc, ◌+◌, ◌-◌, ◌<◌, Bool, true, Option, none, some, List, [], ◌∷◌, ◌++◌, Text, codes,
  length, get_or, set, or_else, if◌then◌else◌, min, max,
}

pub record Random : Type 0 where
  pub random_int : ℕ → ℕ → ℕ
  pub random_int-lt : (draw n : ℕ) → 0 < n → random_int draw n < n

pub record Options : Type 0 where
  pub length : Option ℕ
  pub include_uppercase : Option Bool
  pub include_lowercase : Option Bool
  pub include_numbers : Option Bool
  pub include_symbols : Option Bool

abbrev pub uppercase : Text
uppercase = codes "ABCDEFGHJKLMNPQRSTUVWXYZ"

abbrev pub lowercase : Text
lowercase = codes "abcdefghijkmnpqrstuvwxyz"

abbrev pub numbers : Text
numbers = codes "23456789"

abbrev pub symbols : Text
symbols = codes "!@#$%^&*()-_=+[]{}"

abbrev pub all_charsets : List Text
all_charsets = uppercase ∷ lowercase ∷ numbers ∷ symbols ∷ []

-- `Math.min(Math.max(options.length ?? 16, 8), 64)`
unfoldable pub password_length : Options → ℕ
password_length o = min (max (or_else o.length 16) 8) 64

abbrev pub push_if : Option Bool → Text → List Text
push_if chosen charset = if or_else chosen true then charset ∷ [] else []

unfoldable pub charsets : Options → List Text
charsets o =
    push_if o.include_uppercase uppercase
    ++ (push_if o.include_lowercase lowercase
        ++ (push_if o.include_numbers numbers ++ push_if o.include_symbols symbols))

-- With every option off, all four sets are used.
abbrev pub or_all : List Text → List Text
or_all [] = all_charsets
or_all (c ∷ cs) = c ∷ cs

unfoldable pub active_charsets : Options → List Text
unfolding charsets
active_charsets o = or_all (charsets o)

-- `activeCharsets.join('')`
abbrev pub join : List Text → Text
join [] = []
join (c ∷ cs) = c ++ join cs

-- `[chars[i], chars[j]] = [chars[j], chars[i]]`
unfoldable pub swap : ℕ → ℕ → Text → Text
swap i j chars = set (set chars i (get_or chars j 0)) j (get_or chars i 0)

module _ (random : Random) where
  unfoldable pub pick : ℕ → Text → ℕ
  pick draw charset = get_or charset (random.random_int draw (length charset)) 0

  -- `activeCharsets.map((set) => pick(set))`, with the draws from `draw` on
  unfoldable pub required : ℕ → List Text → Text
  required draw [] = []
  required draw (c ∷ cs) = pick draw c ∷ required (suc draw) cs

  -- `Array.from({ length: n }, () => pick(allChars))`
  unfoldable pub remaining : ℕ → Text → ℕ → Text
  remaining draw chars zero = []
  remaining draw chars (suc n) = pick draw chars ∷ remaining (suc draw) chars n

  -- The loop from `i` down to 1.
  unfoldable pub shuffle : ℕ → ℕ → Text → Text
  shuffle draw zero chars = chars
  shuffle draw (suc i) chars =
      shuffle (suc draw) i (swap (suc i) (random.random_int draw (suc (suc i))) chars)

  unfoldable pub generate_password : ℕ → Options → Text
  generate_password draw o =
      let active = active_charsets o in
      let first = required draw active in
      let rest =
        remaining (draw + length active) (join active) (password_length o - length first) in
      let chars = first ++ rest in shuffle (draw + length chars) (length chars - 1) chars
