-- ===== src/Common/Monad.antt =====
-- Errors as values, and the state and exception monad of the services. A write made before an
-- exception stays made.
use Prim.Native.Nat.{ℕ}
use mathlib.Core.Path.{◌≡◌, refl}
use mathlib.Core.Logic.{◌⊎◌, inl, inr}
use mathlib.Core.Bool.{Bool}
use mathlib.Core.Option.{Option, none, some}
use my_account_controller.Common.Tests.{if◌then◌else◌}
use my_account_controller.Common.Strings.{Text}

-- The texts that the exceptions carry, by what they say.
pub data Message : Type 0 where
  oauth_state_mismatch : Message
  already_set_up google_first short_master_password : Message
  unknown_user wrong_master_password wrong_current_password bad_auto_lock : Message
  login_required unlock_required : Message
  account_missing duplicate_account bad_backup_version bad_backup : Message
  mail_account_missing rule_missing candidate_missing unknown_provider : Message
  options_first unverified_registration registration_failed duplicate_device : Message
  unknown_device unverified_authentication authentication_failed device_missing : Message
  no_id_token no_profile no_refresh_token no_mail_profile : Message
  no_stored_device : Message

-- The error codes of Prisma that the program meets: a broken unique constraint, a broken foreign
-- key, a missing record.
pub data Code : Type 0 where
  p2002 p2003 p2025 : Code

pub data Error : Type 0 where
  bad_request unauthorized not_found conflict : Message → Error
  plain : Message → Error
  prisma : Code → Error
  -- Prisma's validation error, which has no code: a value that fits no column.
  invalid : Error
  cipher : Error
  json : Error
  remote : Error
  -- `ApiError` of the web client: the status, and the message of the answer if it has one.
  api : ℕ → Option Text → Error

pub data Result {ℓ} (A : Type ℓ) : Type ℓ where
  ok : A → Result A
  err : Error → Result A

abbrev pub Exec : Type 0 → Type 0 → Type 0
Exec S A = S → Result A × S

module _ {S A : Type 0} where
  abbrev pub pure : A → Exec S A
  pure a s = (ok a, s)

  abbrev pub throw : Error → Exec S A
  throw e s = (err e, s)

  abbrev pub gets : (S → A) → Exec S A
  gets f s = (ok (f s), s)

  abbrev pub or_throw : Option A → Error → Exec S A
  or_throw none e = throw e
  or_throw (some a) e = pure a

  abbrev pub from_result : Result A → Exec S A
  from_result r s = (r, s)

-- `try { m } catch (err) { handler }`
abbrev pub catching : {S A : Type 0} → Exec S A → (Error → Exec S A) → Exec S A
catching m handler s = let (r, s') = m s in elim r [ ok a ↦ (ok a, s') | err e ↦ handler e s' ]

infixl 5 ◌>>=◌ ◌>>◌
abbrev pub ◌>>=◌ : {S A B : Type 0} → Exec S A → (A → Exec S B) → Exec S B
◌>>=◌ m f s = let (r, s') = m s in elim r [ ok a ↦ f a s' | err e ↦ (err e, s') ]

abbrev pub ◌>>◌ : {S B : Type 0} → Exec S (Unit {0}) → Exec S B → Exec S B
m >> k = m >>= λ _. k

abbrev pub modify : {S : Type 0} → (S → S) → Exec S (Unit {0})
modify f s = (ok tt, f s)

abbrev pub throw_if : {S : Type 0} → Bool → Error → Exec S (Unit {0})
throw_if c e s = (if c then err e else ok tt, s)

bind_cases :
    {S A B : Type 0} (f : A → Exec S B) (r : Result A × S) {b : B} {s' : S}
    → (◌>>=◌ {S = S} {A = A} {B = B} (λ s. r) f r.1) ≡ (ok b, s')
    → (a : A) × (t : S) × (r ≡ (ok a, t)) × (f a t ≡ (ok b, s'))
bind_cases f (ok a, t) h = (a, t, refl, h)
bind_cases f (err e, t) h = cc

-- Inversion of a successful bind, for proofs where the parts stay shut.
pub >>=-eq-ok :
    {S A B : Type 0} (m : Exec S A) (f : A → Exec S B) (s : S) {b : B} {s' : S}
    → (m >>= f) s ≡ (ok b, s')
    → (a : A) × (t : S) × (m s ≡ (ok a, t)) × (f a t ≡ (ok b, s'))
>>=-eq-ok m f s h = bind_cases f (m s) h

-- Whether an action goes through.
pub Result-cases :
    {S A : Type 0} (x : Result A × S)
    → ((a : A) × (s : S) × (x ≡ (ok a, s))) ⊎ ((e : Error) × (s : S) × (x ≡ (err e, s)))
Result-cases (ok a, s) = inl (a, s, refl)
Result-cases (err e, s) = inr (e, s, refl)
