-- ===== src/Crypto/Encoding.antt =====
-- UTF-16 text on its way through UTF-8: a surrogate without its partner becomes U+FFFD.
use my_account_controller.Common.{ℕ, Bool, ◌&&◌, List, [], ◌∷◌, Text, ltb, leb, if◌then◌else◌}

abbrev pub Bytes : Type 0
Bytes = List ℕ

abbrev pub is_high : ℕ → Bool
is_high c = leb 0xD800 c && ltb c 0xDC00

abbrev pub is_low : ℕ → Bool
is_low c = leb 0xDC00 c && ltb c 0xE000

abbrev pub repaired : ℕ → ℕ
repaired c = if is_high c then 0xFFFD else if is_low c then 0xFFFD else c

-- `text.toWellFormed()`, which is what encoding and decoding again gives.
unfoldable pub to_well_formed : Text → Text
to_well_formed [] = []
to_well_formed (c ∷ []) = repaired c ∷ []
to_well_formed (c ∷ d ∷ t) =
    let pair = c ∷ d ∷ to_well_formed t in
    let single = repaired c ∷ to_well_formed (d ∷ t) in
    if is_high c && is_low d then pair else single
