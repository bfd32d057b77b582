-- ===== src/Web/Accounts.antt =====
-- The pages of the accounts, apps/web/src/app/(app)/accounts: the list, a new account, and one
-- account, which is shown and deleted. A handler runs to the answer of its request.
pub mod Shown
use my_account_controller.Common.{
  ℕ, Bool, true, false, Option, none, some, List, Text, given, Error, ok, err,
}
use my_account_controller.Crypto.{CryptoService}
use my_account_controller.Database.{Prisma, Account}
use my_account_controller.Accounts.Service.{AccountData, AccountSummary}
use my_account_controller.Accounts.Controller as Vault
use my_account_controller.Web.Api.{Http}
use my_account_controller.Web.Browser.{Browser, request, attempt}

-- The fields of the form, with the password of the state.
pub record AccountForm : Type 0 where
  pub service_name : Text
  pub url_or_app_name : Text
  pub category : Text
  pub login_id : Text
  pub password : Text
  pub memo : Text

-- The body that is sent: `form.get("memo") || undefined`
unfoldable pub body_of : AccountForm → AccountData
body_of f = record {
  service_name = f.service_name;
  url_or_app_name = f.url_or_app_name;
  category = f.category;
  login_id = f.login_id;
  password = f.password;
  custom_fields = none;
  memo = given (some f.memo);
}

-- `left` tells whether the page went on to the list of the accounts.
pub record NewAccount : Type 0 where
  pub error : Option Error
  pub submitting : Bool
  pub left : Bool

pub record AccountDetail : Type 0 where
  pub account : Option (Account × Text)
  pub error : Option Error
  pub left : Bool

pub record AccountList : Type 0 where
  pub accounts : Option (List AccountSummary)
  pub error : Option Error

module _ (http : Http) (prisma : Prisma) (crypto : CryptoService) where
  unfoldable pub handle_submit : AccountForm → NewAccount × Browser → NewAccount × Browser
  unfolding body_of
  handle_submit form (p, b) =
      attempt (request http {A = Account} (Vault.create prisma crypto (body_of form)))
        (λ a s. (record s.0 { left = true; submitting = false }, s.1))
        (λ e s. (record s.0 { error = some e; submitting = false }, s.1))
        (record p { error = none; submitting = true }, b)

  unfoldable pub load_account : Text → AccountDetail × Browser → AccountDetail × Browser
  load_account id =
      attempt (request http {A = Account × Text} (Vault.find_one prisma crypto id))
        (λ a s. (record s.0 { account = some a }, s.1))
        (λ e s. (record s.0 { error = some e }, s.1))

  -- With the answer to the question whether to delete.
  unfoldable pub handle_delete : Bool → Text → AccountDetail × Browser → AccountDetail × Browser
  handle_delete false id (p, b) = (p, b)
  handle_delete true id (p, b) =
      attempt (request http {A = Unit {0}} (Vault.remove prisma crypto id))
        (λ u s. (record s.0 { left = true }, s.1)) (λ e s. (record s.0 { error = some e }, s.1))
        (record p { error = none }, b)

  unfoldable pub load_accounts :
      (Text → Text → Bool) → AccountList × Browser → AccountList × Browser
  load_accounts contains =
      attempt
        (request http {A = List AccountSummary} (Vault.find_all prisma crypto contains none none))
        (λ rows s. (record s.0 { accounts = some rows }, s.1))
        (λ e s. (record s.0 { error = some e }, s.1))
