-- ===== src/Server.antt =====
-- The server as a whole (apps/api/src/main.ts, app.module.ts): each request runs its route on the
-- state, one after another. Between two requests time passes, and the session is the one of the
-- next request; the sessions themselves are kept in the database of express-session, so that any
-- may come next. The scan of mail/candidates/scan-scheduler.service.ts runs without a session.
pub mod Keeps
pub mod Keys
pub mod Routes
pub mod Reach
pub mod Account
use my_account_controller.Common.{ℕ, ◌≤◌, Bool, Option, List, Text}
use my_account_controller.Database.{Prisma}
use my_account_controller.Crypto.{CryptoService}
use my_account_controller.Crypto.Encoding.{Bytes}
use my_account_controller.Crypto.Aes.{Node}
use my_account_controller.Auth.Session.{Session}
use my_account_controller.Auth.Google.{GoogleClient}
use my_account_controller.Auth.WebAuthn.{WebAuthnServer}
use my_account_controller.Auth.Controller
use my_account_controller.Accounts.Generator.{Random, Options}
use my_account_controller.Accounts.Service.{AccountData, AccountChange}
use my_account_controller.Accounts.Backup.{Json, BackupFile}
use my_account_controller.Accounts.Controller as Vault
use my_account_controller.Mail.Gmail.{GmailApi, gmail_provider}
use my_account_controller.Mail.Matcher.{Unicode}
use my_account_controller.Mail.Rules.{RuleData, RuleChange}
use my_account_controller.Mail.Candidates.{scan_all}
use my_account_controller.Mail.EmailAccounts.{GmailOAuth}
use my_account_controller.Mail.Controllers as Mails
use my_account_controller.World.{World}

-- What the server is given, and the key that it reads when it starts.
pub record Environment : Type 1 where
  pub prisma : Prisma
  pub crypto : CryptoService
  pub node : Node
  pub webauthn : WebAuthnServer
  pub google : GoogleClient
  pub gmail_oauth : GmailOAuth
  pub gmail_api : GmailApi
  pub unicode : Unicode
  pub random : Random
  pub json_format : Json
  pub contains : Text → Text → Bool
  pub token_key : Bytes

-- A request with its parameters and its body, by its route.
pub data Request : Type 0 where
  google_start lock logout me settings : Request
  google_callback : Text → Option Text → Request
  setup_master_password unlock : Text → Request
  change_master_password : Text → Text → Request
  update_auto_lock_minutes : ℕ → Request
  webauthn_devices webauthn_register_options webauthn_authenticate_options : Request
  webauthn_register webauthn_authenticate : Text → Text → Request
  webauthn_remove : Text → Request
  accounts_find_all : Option Text → Option Text → Request
  accounts_find_one accounts_remove : Text → Request
  accounts_create : AccountData → Request
  accounts_generate_password : ℕ → Options → Request
  accounts_export : Text → Request
  accounts_import : Text → BackupFile → Request
  accounts_update : Text → AccountChange → Request
  rules_find : Option Text → Request
  rules_create : RuleData → Request
  rules_update : Text → RuleChange → Request
  rules_remove : Text → Request
  candidates_find candidates_scan candidates_important : Request
  candidates_approve candidates_exclude : Text → Request
  notifications_summary : Text → Request
  email_accounts_find email_accounts_start : Request
  email_accounts_remove : Text → Request
  email_accounts_callback : Text → Option Text → Request

module _ (env : Environment) where
  open env use {
    prisma, crypto, node, webauthn, google, gmail_oauth, gmail_api, unicode, random, json_format,
    contains, token_key,
  }

  -- The state after a request, whatever its answer.
  unfoldable pub handle : Request → World → World
  handle google_start w = (Controller.google_start google w).1
  handle lock w = (Controller.lock w).1
  handle logout w = (Controller.logout w).1
  handle me w = (Controller.me w).1
  handle settings w = (Controller.settings prisma w).1
  handle (google_callback code state) w = (Controller.google_callback prisma google code state w).1
  handle (setup_master_password t) w = (Controller.setup_master_password prisma crypto t w).1
  handle (unlock t) w = (Controller.unlock prisma crypto t w).1
  handle (change_master_password s t) w = (Controller.change_master_password prisma crypto s t w).1
  handle (update_auto_lock_minutes n) w = (Controller.update_auto_lock_minutes prisma n w).1
  handle webauthn_devices w = (Controller.webauthn_devices prisma node webauthn w).1
  handle webauthn_register_options w =
      (Controller.webauthn_register_options prisma node webauthn w).1
  handle webauthn_authenticate_options w =
      (Controller.webauthn_authenticate_options prisma node webauthn w).1
  handle (webauthn_register label r) w =
      (Controller.webauthn_register prisma node webauthn label r w).1
  handle (webauthn_authenticate r t) w =
      (Controller.webauthn_authenticate prisma node webauthn crypto r t w).1
  handle (webauthn_remove id) w = (Controller.webauthn_remove prisma node webauthn id w).1
  handle (accounts_find_all category q) w = (Vault.find_all prisma crypto contains category q w).1
  handle (accounts_find_one id) w = (Vault.find_one prisma crypto id w).1
  handle (accounts_remove id) w = (Vault.remove prisma crypto id w).1
  handle (accounts_create d) w = (Vault.create prisma crypto d w).1
  handle (accounts_generate_password n o) w = (Vault.generate_password prisma crypto random n o w).1
  handle (accounts_export t) w = (Vault.export_accounts prisma crypto json_format t w).1
  handle (accounts_import t file) w = (Vault.import_accounts prisma crypto json_format t file w).1
  handle (accounts_update id d) w = (Vault.update prisma crypto id d w).1
  handle (rules_find id) w = (Mails.find_rules prisma id w).1
  handle (rules_create d) w = (Mails.create_rule prisma d w).1
  handle (rules_update id d) w = (Mails.update_rule prisma id d w).1
  handle (rules_remove id) w = (Mails.remove_rule prisma id w).1
  handle candidates_find w = (Mails.find_pending_candidates prisma w).1
  handle candidates_scan w =
      (Mails.scan_candidates prisma unicode
        (gmail_provider prisma crypto token_key gmail_api unicode) w).1
  handle candidates_important w = (Mails.important_summary prisma w).1
  handle (candidates_approve id) w =
      (Mails.approve_candidate prisma (gmail_provider prisma crypto token_key gmail_api unicode) id
        w).1
  handle (candidates_exclude id) w = (Mails.exclude_candidate prisma id w).1
  handle (notifications_summary id) w = (Mails.notification_count prisma id w).1
  handle email_accounts_find w = (Mails.find_email_accounts prisma crypto token_key w).1
  handle email_accounts_start w = (Mails.oauth_start prisma crypto token_key gmail_oauth w).1
  handle (email_accounts_remove id) w = (Mails.remove_email_account prisma crypto token_key id w).1
  handle (email_accounts_callback code state) w =
      (Mails.oauth_callback prisma crypto token_key gmail_oauth code state w).1

  -- `handleScheduledScan`, without its log
  unfoldable pub handle_scheduled_scan : World → World
  handle_scheduled_scan w =
      (scan_all prisma unicode (gmail_provider prisma crypto token_key gmail_api unicode) w).1.world

  pub data Step : World → World → Type 0 where
    serve : (w : World) (r : Request) → Step w (handle r w)
    scheduled : (w : World) → Step w (handle_scheduled_scan w)
    pass : (w : World) (now : ℕ) → w.now ≤ now → Step w (record w { now = now })
    switch : (w : World) (s : Session) → Step w (record w { session = s })
