-- ===== src/Mail/Matcher/Includes.antt =====
-- `includes` of a text in another, as mail/rules/rule-matcher.util.ts calls it.
use my_account_controller.Common.{
  ◌≡◌, refl, ap, true, [], ◌∷◌, ◌++◌, Text, arith, Bool-cases, inl, inr, ◌↔◌,
}
use my_account_controller.Mail.Matcher.{is_prefix, includes}

prefix-split :
    (needle hay : Text) → is_prefix needle hay ≡ true → (post : Text) × (hay ≡ needle ++ post)
prefix-split [] hay h = (hay, refl)
prefix-split (c ∷ needle) [] h = cc
prefix-split (c ∷ needle) (d ∷ hay) h =
    let (post, e) = prefix-split needle hay (ground arith) in
    let same : d ≡ c = ground arith in (post, rw (same, e))

prefix-append : (needle post : Text) → is_prefix needle (needle ++ post) ≡ true
prefix-append [] post = refl
prefix-append (c ∷ needle) post = ground (arith, prefix-append needle post)

split_of_includes :
    (needle hay : Text)
    → includes needle hay ≡ true
    → (pre : Text) × (post : Text) × (hay ≡ pre ++ (needle ++ post))
unfolding includes
split_of_includes needle [] h = let (post, e) = prefix-split needle [] h in ([], post, e)
split_of_includes needle (d ∷ hay) h = elim (Bool-cases (is_prefix needle (d ∷ hay))) [
  | inl here ↦ let (post, e) = prefix-split needle (d ∷ hay) here in ([], post, e)
  | inr later ↦
      let (pre, post, e) = split_of_includes needle hay (ground arith) in
      (d ∷ pre, post, ap (◌∷◌ d) e)
]

includes_of_prefix : (needle hay : Text) → is_prefix needle hay ≡ true → includes needle hay ≡ true
unfolding includes
includes_of_prefix needle [] h = h
includes_of_prefix needle (d ∷ hay) h = ground arith

includes-append : (needle pre post : Text) → includes needle (pre ++ (needle ++ post)) ≡ true
unfolding includes
includes-append needle [] post =
    includes_of_prefix needle (needle ++ post) (prefix-append needle post)
includes-append needle (d ∷ pre) post = ground (arith, includes-append needle pre post)

-- A text includes another exactly when it is that one with something before and after it.
pub includes_iff :
    (needle hay : Text)
    → (includes needle hay ≡ true)
      ↔ ((pre : Text) × (post : Text) × (hay ≡ pre ++ (needle ++ post)))
includes_iff needle hay =
    (split_of_includes needle hay, λ s. rw s.2 (includes-append needle s.0 s.1))
