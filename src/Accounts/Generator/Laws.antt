-- ===== src/Accounts/Generator/Laws.antt =====
-- The length and the characters of what `generatePassword` gives (accounts/accounts.service.ts).
use my_account_controller.Common.{
  ℕ, zero, suc, ◌+◌, ◌-◌, ◌≤◌, ◌<◌, ◌≡◌, refl, ◌∙◌, Bool, true, false, not, List, [], ◌∷◌, ◌++◌,
  Text, length, get_or, any, all, count_where, count_where-append, length-append, if◌then◌else◌,
  arith, Bool-cases, inl, inr, nat_eq, Memᴰ, head, tail, or_else, codes, min, max,
}
use my_account_controller.Accounts.Generator.{
  Random, Options, password_length, charsets, active_charsets, or_all, uppercase, lowercase,
  numbers, symbols, join, pick, required, remaining, generate_password,
}
use my_account_controller.Accounts.Generator.Shuffle.{length-shuffle, count_where-shuffle}

-- `c` is a character of the set.
abbrev pub is_in : Text → ℕ → Bool
is_in charset c = any (nat_eq c) charset

-- No set is empty.
abbrev NonEmpty : List Text → Type 0
NonEmpty [] = Unit
NonEmpty (c ∷ cs) = (0 < length c) × NonEmpty cs

get_or-is_in : (xs : Text) (i : ℕ) → i < length xs → is_in xs (get_or xs i 0) ≡ true
get_or-is_in [] i h = elim h [ ]
get_or-is_in (x ∷ xs) zero h = ground arith
get_or-is_in (x ∷ xs) (suc i) h = ground (arith, get_or-is_in xs i)

is_in-append_left : (xs ys : Text) (c : ℕ) → is_in xs c ≡ true → is_in (xs ++ ys) c ≡ true
is_in-append_left [] ys c h = cc
is_in-append_left (x ∷ xs) ys c h = ground (arith, is_in-append_left xs ys c)

is_in-append_right : (xs ys : Text) (c : ℕ) → is_in ys c ≡ true → is_in (xs ++ ys) c ≡ true
is_in-append_right [] ys c h = h
is_in-append_right (x ∷ xs) ys c h = ground (arith, is_in-append_right xs ys c)

count_where-all : (xs : Text) → count_where (λ x. true) xs ≡ length xs
count_where-all [] = refl
count_where-all (x ∷ xs) = omega (arith, count_where-all xs)

-- Whatever is chosen, there are one to four sets, and none is empty.
record Fits (cs : List Text) : Type 0 where
  few : length cs ≤ 4
  full : NonEmpty cs
  some_char : 0 < length (join cs)

choices :
    (a b c d : Bool)
    → Fits (
        or_all (
          (if a then uppercase ∷ [] else [])
          ++ ((if b then lowercase ∷ [] else [])
              ++ ((if c then numbers ∷ [] else []) ++ (if d then symbols ∷ [] else [])))))
choices true true true true = omega arith
choices true true true false = omega arith
choices true true false true = omega arith
choices true true false false = omega arith
choices true false true true = omega arith
choices true false true false = omega arith
choices true false false true = omega arith
choices true false false false = omega arith
choices false true true true = omega arith
choices false true true false = omega arith
choices false true false true = omega arith
choices false true false false = omega arith
choices false false true true = omega arith
choices false false true false = omega arith
choices false false false true = omega arith
choices false false false false = omega arith

active-Fits : (o : Options) → Fits (active_charsets o)
unfolding active_charsets charsets
active-Fits o =
    choices (or_else o.include_uppercase true) (or_else o.include_lowercase true)
      (or_else o.include_numbers true) (or_else o.include_symbols true)

length-active : (o : Options) → length (active_charsets o) ≤ 4
length-active o = (active-Fits o).few

active-NonEmpty : (o : Options) → NonEmpty (active_charsets o)
active-NonEmpty o = (active-Fits o).full

join-pos : (o : Options) → 0 < length (join (active_charsets o))
join-pos o = (active-Fits o).some_char

module _ (random : Random) where
  pick-is_in :
      (draw : ℕ) (charset : Text)
      → 0 < length charset
      → is_in charset (pick random draw charset) ≡ true
  unfolding pick
  pick-is_in draw charset h = get_or-is_in charset _ (random.random_int-lt draw (length charset) h)

  length-required : (draw : ℕ) (cs : List Text) → length (required random draw cs) ≡ length cs
  unfolding required
  length-required draw [] = refl
  length-required draw (c ∷ cs) = omega (arith, length-required (suc draw) cs)

  length-remaining : (draw : ℕ) (chars : Text) (n : ℕ) → length (remaining random draw chars n) ≡ n
  unfolding remaining
  length-remaining draw chars zero = refl
  length-remaining draw chars (suc n) = omega (arith, length-remaining (suc draw) chars n)

  -- Each chosen set has a character among the required ones.
  required_covers :
      (draw : ℕ) (cs : List Text) (c : Text)
      → NonEmpty cs
      → Memᴰ c cs
      → 0 < count_where (is_in c) (required random draw cs)
  unfolding required
  required_covers draw [] c h m = elim m [ ]
  required_covers draw (d ∷ cs) c (h, hs) (head e) = ground (arith, pick-is_in draw d h)
  required_covers draw (d ∷ cs) c (h, hs) (tail m) =
      omega (arith, required_covers (suc draw) cs c hs m)

  required-is_in :
      (p : ℕ → Bool) (draw : ℕ) (cs : List Text)
      → NonEmpty cs
      → ((x : ℕ) → is_in (join cs) x ≡ true → p x ≡ true)
      → count_where p (required random draw cs) ≡ length cs
  unfolding required
  required-is_in p draw [] h inside = refl
  required-is_in p draw (d ∷ cs) (h, hs) inside =
      let x = pick random draw d in
      let here = inside x (is_in-append_left d (join cs) x (pick-is_in draw d h)) in
      let later =
        required-is_in p (suc draw) cs hs (λ y e. inside y (is_in-append_right d (join cs) y e)) in
      ground (arith, here, later)

  remaining-is_in :
      (p : ℕ → Bool) (draw : ℕ) (chars : Text) (n : ℕ)
      → 0 < length chars
      → ((x : ℕ) → is_in chars x ≡ true → p x ≡ true)
      → count_where p (remaining random draw chars n) ≡ n
  unfolding remaining
  remaining-is_in p draw chars zero h inside = refl
  remaining-is_in p draw chars (suc n) h inside =
      let here = inside (pick random draw chars) (pick-is_in draw chars h) in
      ground (arith, here, remaining-is_in p (suc draw) chars n h inside)

  -- The password has the length that was asked for, brought between 8 and 64, and 16 by default.
  pub length-generate_password :
      (draw : ℕ) (o : Options)
      → length (generate_password random draw o) ≡ min (max (or_else o.length 16) 8) 64
  unfolding generate_password password_length
  length-generate_password draw o =
      let active = active_charsets o in
      let n = password_length o - length (required random draw active) in
      let rest = remaining random (draw + length active) (join active) n in
      let chars = required random draw active ++ rest in
      omega (
        arith,
        length-shuffle random (draw + length chars) (length chars - 1) chars,
        length-append (required random draw active) rest,
        length-remaining (draw + length active) (join active) n,
        length-required draw active,
        length-active o,
      )

  generate-count :
      (p : ℕ → Bool) (draw : ℕ) (o : Options)
      → let active = active_charsets o in
        let first = required random draw active in
        let n = password_length o - length first in
        count_where p (generate_password random draw o)
        ≡ count_where p first
          + count_where p (remaining random (draw + length active) (join active) n)
  unfolding generate_password
  generate-count p draw o =
      let active = active_charsets o in
      let first = required random draw active in
      let n = password_length o - length first in
      let rest = remaining random (draw + length active) (join active) n in
      let chars = first ++ rest in
      count_where-shuffle random p (draw + length chars) (length chars - 1) chars (omega arith)
      ∙ count_where-append p first rest

  -- Of every chosen set of characters, the password has at least one.
  pub generate_password_covers :
      (draw : ℕ) (o : Options) (c : Text)
      → Memᴰ c (active_charsets o)
      → 0 < count_where (is_in c) (generate_password random draw o)
  generate_password_covers draw o c m = omega (
    arith,
    generate-count (is_in c) draw o,
    required_covers draw (active_charsets o) c (active-NonEmpty o) m,
  )

  -- A password of the chosen sets alone: a test that all their characters pass, all characters of
  -- the password pass.
  generate_password_within :
      (draw : ℕ) (o : Options) (p : ℕ → Bool)
      → ((x : ℕ) → is_in (join (active_charsets o)) x ≡ true → p x ≡ true)
      → count_where p (generate_password random draw o) ≡ length (generate_password random draw o)
  generate_password_within draw o p inside =
      let active = active_charsets o in
      let n = password_length o - length (required random draw active) in
      omega (
        arith,
        generate-count p draw o,
        generate-count (λ x. true) draw o,
        count_where-all (generate_password random draw o),
        required-is_in p draw active (active-NonEmpty o) inside,
        required-is_in (λ x. true) draw active (active-NonEmpty o) (λ x e. refl),
        remaining-is_in p (draw + length active) (join active) n (join-pos o) inside,
        remaining-is_in (λ x. true) (draw + length active) (join active) n (join-pos o)
            (λ x e. refl),
      )

-- The characters that are easily mistaken for one another.
abbrev pub confusing : Text
confusing = codes "IlO01"

abbrev pub is_readable : ℕ → Bool
is_readable c = not (is_in confusing c)

all-is_in : (p : ℕ → Bool) (xs : Text) (c : ℕ) → all p xs ≡ true → is_in xs c ≡ true → p c ≡ true
all-is_in p [] c h m = cc
all-is_in p (x ∷ xs) c h m = elim (Bool-cases (nat_eq c x)) [
  | inl here ↦ let e : c ≡ x = ground arith in rw e (ground arith)
  | inr later ↦ all-is_in p xs c (ground arith) (ground arith)
]

readable_choices :
    (a b c d : Bool)
    → all is_readable (
        join (
          or_all (
            (if a then uppercase ∷ [] else [])
            ++ ((if b then lowercase ∷ [] else [])
                ++ ((if c then numbers ∷ [] else []) ++ (if d then symbols ∷ [] else []))))))
      ≡ true
readable_choices true true true true = refl
readable_choices true true true false = refl
readable_choices true true false true = refl
readable_choices true true false false = refl
readable_choices true false true true = refl
readable_choices true false true false = refl
readable_choices true false false true = refl
readable_choices true false false false = refl
readable_choices false true true true = refl
readable_choices false true true false = refl
readable_choices false true false true = refl
readable_choices false true false false = refl
readable_choices false false true true = refl
readable_choices false false true false = refl
readable_choices false false false true = refl
readable_choices false false false false = refl

readable-join : (o : Options) → all is_readable (join (active_charsets o)) ≡ true
unfolding active_charsets charsets
readable-join o =
    readable_choices (or_else o.include_uppercase true) (or_else o.include_lowercase true)
      (or_else o.include_numbers true) (or_else o.include_symbols true)

-- No password has one of the characters I, l, O, 0 and 1, whatever the options.
generate_password_readable :
    (random : Random) (draw : ℕ) (o : Options)
    → count_where is_readable (generate_password random draw o)
      ≡ length (generate_password random draw o)
generate_password_readable random draw o =
    generate_password_within random draw o is_readable
      (λ x. all-is_in is_readable (join (active_charsets o)) x (readable-join o))
