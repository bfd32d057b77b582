-- ===== src/Web/Accounts/Shown.antt =====
-- An account from the form to the page that shows it (apps/web/src/app/(app)/accounts).
use my_account_controller.Common.{◌≡◌, arith, none, some, Text, Result-cases, inl, inr}
use my_account_controller.Crypto.Encoding.{to_well_formed}
use my_account_controller.Database.{Account}
use my_account_controller.Accounts.Controller as Vault
use my_account_controller.Server.{Environment}
use my_account_controller.Server.Reach.{Reach}
use my_account_controller.Server.Account.{Reach-create-find_one}
use my_account_controller.Web.Api.{Http, received-ok, received-err}
use my_account_controller.Web.Browser.{Browser, request}
use my_account_controller.Web.Accounts.{
  AccountForm, body_of, NewAccount, AccountDetail, handle_submit, load_account,
}

-- If the form of a new account goes through, on a server in a state that it reaches, then there is
-- an account whose page, loaded next, shows the password that was typed, but for lone surrogates.
pub load_account-handle_submit :
    (http : Http) (env : Environment) (form : AccountForm) (p : NewAccount) (q : AccountDetail)
    (b : Browser)
    → Reach env b.server
    → (handle_submit http env.prisma env.crypto form (p, b)).0.error ≡ none
    → (a : Account) × ((load_account http env.prisma env.crypto a.id
          (q, (handle_submit http env.prisma env.crypto form (p, b)).1)).0.account
        ≡ some (a, to_well_formed form.password))
unfolding handle_submit load_account request body_of
load_account-handle_submit http env form p q b reached fine =
    let d = body_of form in
    elim (Result-cases (Vault.create env.prisma env.crypto d b.server)) [
      | inr (e, w, failed) ↦
          let (status, message, seen, high) = received-err http {A = Account} e in
          absurd (ground (arith, failed, seen))
      | inl (a, w, made) ↦
          let (w2, read) = Reach-create-find_one env d reached made in
          let end : (handle_submit http env.prisma env.crypto form (p, b)).1.server ≡ w =
            ground (arith, made, received-ok http a) in
          (
            a,
            ground (
              arith,
              made,
              received-ok http a,
              end,
              read,
              received-ok http {A = Account × Text} (a, to_well_formed form.password),
            ),
          )
    ]
