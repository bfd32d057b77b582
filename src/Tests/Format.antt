-- ===== src/Tests/Format.antt =====
-- A format of backups with the laws of JSON: each code unit in unary, and texts one after another.
use my_account_controller.Common.{
  ℕ, zero, suc, ◌+◌, ◌≡◌, refl, arith, ap, ◌∙◌, Option, none, some, List, [], ◌∷◌, Text,
}
use my_account_controller.Crypto.Encoding.{to_well_formed}
use my_account_controller.Accounts.Service.{AccountData}
use my_account_controller.Accounts.Backup.{Json}
use my_account_controller.Tests.Primitives.{to_well_formed_single}

abbrev pub write_unit : ℕ → Text → Text
write_unit zero rest = 0 ∷ rest
write_unit (suc c) rest = 1 ∷ write_unit c rest

abbrev pub write_text : Text → Text → Text
write_text [] rest = 2 ∷ rest
write_text (c ∷ t) rest = write_unit c (write_text t rest)

abbrev pub write : List Text → Text
write [] = []
write (t ∷ ts) = write_text t (write ts)

abbrev pub push : ℕ → List Text → List Text
push c [] = (c ∷ []) ∷ []
push c (t ∷ ts) = (c ∷ t) ∷ ts

abbrev pub split : ℕ → Text → List Text
split n [] = []
split n (zero ∷ rest) = push n (split 0 rest)
split n (suc zero ∷ rest) = split (n + 1) rest
split n (suc (suc c) ∷ rest) = [] ∷ split 0 rest

split-write_unit :
    (n c : ℕ) (rest : Text) → split n (write_unit c rest) ≡ push (n + c) (split 0 rest)
split-write_unit n zero rest = ground arith
split-write_unit n (suc c) rest = ground (arith, split-write_unit (n + 1) c rest)

split-write_text : (t rest : Text) → split 0 (write_text t rest) ≡ t ∷ split 0 rest
split-write_text [] rest = refl
split-write_text (c ∷ t) rest =
    ground (arith, split-write_unit 0 c (write_text t rest), split-write_text t rest)

split-write : (ts : List Text) → split 0 (write ts) ≡ ts
split-write [] = refl
split-write (t ∷ ts) = split-write_text t (write ts) ∙ ap (λ x. t ∷ x) (split-write ts)

well_formed_unit :
    (c : ℕ) (rest : Text)
    → to_well_formed rest ≡ rest
    → to_well_formed (write_unit c rest) ≡ write_unit c rest
well_formed_unit zero rest h = to_well_formed_single 0 rest refl refl ∙ ap (λ x. 0 ∷ x) h
well_formed_unit (suc c) rest h =
    to_well_formed_single 1 (write_unit c rest) refl refl
    ∙ ap (λ x. 1 ∷ x) (well_formed_unit c rest h)

well_formed_text :
    (t rest : Text)
    → to_well_formed rest ≡ rest
    → to_well_formed (write_text t rest) ≡ write_text t rest
well_formed_text [] rest h = to_well_formed_single 2 rest refl refl ∙ ap (λ x. 2 ∷ x) h
well_formed_text (c ∷ t) rest h = well_formed_unit c (write_text t rest) (well_formed_text t rest h)

well_formed : (ts : List Text) → to_well_formed (write ts) ≡ write ts
unfolding to_well_formed
well_formed [] = refl
well_formed (t ∷ ts) = well_formed_text t (write ts) (well_formed ts)

abbrev pub mark : Option Text → Text
mark none = []
mark (some t) = 1 ∷ t

abbrev pub unmark : Text → Option Text
unmark [] = none
unmark (c ∷ t) = some t

unmark-mark : (o : Option Text) → unmark (mark o) ≡ o
unmark-mark none = refl
unmark-mark (some t) = refl

abbrev pub texts : List AccountData → List Text
texts [] = []
texts (d ∷ ds) =
    d.service_name
    ∷ d.url_or_app_name
    ∷ d.category
    ∷ d.login_id
    ∷ d.password
    ∷ mark d.custom_fields
    ∷ mark d.memo
    ∷ texts ds

abbrev pub cons : AccountData → Option (List AccountData) → Option (List AccountData)
cons d none = none
cons d (some ds) = some (d ∷ ds)

abbrev pub group : List Text → Option (List AccountData)
group [] = some []
group (a ∷ b ∷ c ∷ d ∷ e ∷ f ∷ g ∷ rest) =
    cons
      (record {
        service_name = a;
        url_or_app_name = b;
        category = c;
        login_id = d;
        password = e;
        custom_fields = unmark f;
        memo = unmark g;
      })
      (group rest)
group ts = none

group-texts : (ds : List AccountData) → group (texts ds) ≡ some ds
group-texts [] = refl
group-texts (d ∷ ds) = rw (unmark-mark d.custom_fields, unmark-mark d.memo, group-texts ds) refl

pub parse-stringify : (ds : List AccountData) → group (split 0 (write (texts ds))) ≡ some ds
parse-stringify ds = ap group (split-write (texts ds)) ∙ group-texts ds

pub stringify_well_formed :
    (ds : List AccountData) → to_well_formed (write (texts ds)) ≡ write (texts ds)
stringify_well_formed ds = well_formed (texts ds)

abbrev pub unary_format : Json
unary_format = record {
  stringify = λ ds. write (texts ds);
  parse = λ t. group (split 0 t);
  parse-stringify = parse-stringify;
  stringify_well_formed = stringify_well_formed;
}
