-- ===== src/Server/Reach.antt =====
-- The states that the server reaches from its start, and the keys in them.
use my_account_controller.Common.{◌≡◌, arith, List, [], Text, length, err, cipher, ◌≢◌}
use my_account_controller.Crypto.Encoding.{Bytes}
use my_account_controller.Auth.KeyStore.{UnlockEntry}
use my_account_controller.Auth.Guards.Laws.{IsOpen, guard_admits}
use my_account_controller.Accounts.Service as Accounts
use my_account_controller.Accounts.Service.{AccountData}
use my_account_controller.Accounts.Controller as Vault
use my_account_controller.Mail.Candidates.{scan_all, start}
use my_account_controller.Mail.Gmail.{gmail_provider}
use my_account_controller.Server.{
  Environment, Request, handle, handle_scheduled_scan, Step, serve, scheduled, pass, switch,
}
use my_account_controller.Server.Keeps.{KeysFit}
use my_account_controller.Server.Keys.Mail.{gmail_provider-Quiet}
use my_account_controller.Server.Keys.Scans.{scan_accounts-keys}
use my_account_controller.Server.Routes.Auth as AuthRoutes
use my_account_controller.Server.Routes.Accounts as AccountRoutes
use my_account_controller.Server.Routes.Mail as MailRoutes
use my_account_controller.World.{World}

module _ (env : Environment) where
  open env use {
    prisma, crypto, node, webauthn, google, gmail_oauth, gmail_api, unicode, random, json_format,
    contains, token_key,
  }

  -- The worlds after steps from a world, of which the store of keys is empty.
  pub data Reach : World → Type 0 where
    booted : (w : World) → w.keys ≡ [] → Reach w
    later : {v w : World} → Reach v → Step env v w → Reach w

  handle-KeysFit : (r : Request) (w : World) → KeysFit w.keys → KeysFit (handle env r w).keys
  unfolding handle
  handle-KeysFit Request.google_start w v = (AuthRoutes.google_start google).at w v
  handle-KeysFit Request.lock w v = AuthRoutes.lock.at w v
  handle-KeysFit Request.logout w v = AuthRoutes.logout.at w v
  handle-KeysFit Request.me w v = AuthRoutes.me.at w v
  handle-KeysFit Request.settings w v = (AuthRoutes.settings prisma).at w v
  handle-KeysFit (Request.google_callback c s) w v =
      (AuthRoutes.google_callback prisma google c s).at w v
  handle-KeysFit (Request.setup_master_password t) w v =
      (AuthRoutes.setup_master_password prisma crypto t).at w v
  handle-KeysFit (Request.unlock t) w v = (AuthRoutes.unlock prisma crypto t).at w v
  handle-KeysFit (Request.change_master_password s t) w v =
      (AuthRoutes.change_master_password prisma crypto s t).at w v
  handle-KeysFit (Request.update_auto_lock_minutes n) w v =
      (AuthRoutes.update_auto_lock_minutes prisma n).at w v
  handle-KeysFit Request.webauthn_devices w v =
      (AuthRoutes.webauthn_devices prisma node webauthn).at w v
  handle-KeysFit Request.webauthn_register_options w v =
      (AuthRoutes.webauthn_register_options prisma node webauthn).at w v
  handle-KeysFit Request.webauthn_authenticate_options w v =
      (AuthRoutes.webauthn_authenticate_options prisma node webauthn).at w v
  handle-KeysFit (Request.webauthn_register l r) w v =
      (AuthRoutes.webauthn_register prisma node webauthn l r).at w v
  handle-KeysFit (Request.webauthn_authenticate r t) w v =
      (AuthRoutes.webauthn_authenticate prisma node webauthn crypto r t).at w v
  handle-KeysFit (Request.webauthn_remove id) w v =
      (AuthRoutes.webauthn_remove prisma node webauthn id).at w v
  handle-KeysFit (Request.accounts_find_all c q) w v =
      (AccountRoutes.find_all prisma crypto contains c q).at w v
  handle-KeysFit (Request.accounts_find_one id) w v =
      (AccountRoutes.find_one prisma crypto id).at w v
  handle-KeysFit (Request.accounts_remove id) w v = (AccountRoutes.remove prisma crypto id).at w v
  handle-KeysFit (Request.accounts_create d) w v = (AccountRoutes.create prisma crypto d).at w v
  handle-KeysFit (Request.accounts_generate_password n o) w v =
      (AccountRoutes.generate_password prisma crypto random n o).at w v
  handle-KeysFit (Request.accounts_export t) w v =
      (AccountRoutes.export_accounts prisma crypto json_format t).at w v
  handle-KeysFit (Request.accounts_import t f) w v =
      (AccountRoutes.import_accounts prisma crypto json_format t f).at w v
  handle-KeysFit (Request.accounts_update id d) w v =
      (AccountRoutes.update prisma crypto id d).at w v
  handle-KeysFit (Request.rules_find id) w v = (MailRoutes.find_rules prisma id).at w v
  handle-KeysFit (Request.rules_create d) w v = (MailRoutes.create_rule prisma d).at w v
  handle-KeysFit (Request.rules_update id d) w v = (MailRoutes.update_rule prisma id d).at w v
  handle-KeysFit (Request.rules_remove id) w v = (MailRoutes.remove_rule prisma id).at w v
  handle-KeysFit Request.candidates_find w v = (MailRoutes.find_pending_candidates prisma).at w v
  handle-KeysFit Request.candidates_scan w v =
      (MailRoutes.scan_candidates prisma (gmail_provider prisma crypto token_key gmail_api unicode)
          (gmail_provider-Quiet prisma crypto token_key gmail_api unicode) unicode).at
        w v
  handle-KeysFit Request.candidates_important w v = (MailRoutes.important_summary prisma).at w v
  handle-KeysFit (Request.candidates_approve id) w v =
      (MailRoutes.approve_candidate prisma
          (gmail_provider prisma crypto token_key gmail_api unicode)
          (gmail_provider-Quiet prisma crypto token_key gmail_api unicode) id).at
        w v
  handle-KeysFit (Request.candidates_exclude id) w v =
      (MailRoutes.exclude_candidate prisma id).at w v
  handle-KeysFit (Request.notifications_summary id) w v =
      (MailRoutes.notification_count prisma id).at w v
  handle-KeysFit Request.email_accounts_find w v =
      (MailRoutes.find_email_accounts prisma crypto token_key).at w v
  handle-KeysFit Request.email_accounts_start w v =
      (MailRoutes.oauth_start prisma crypto token_key gmail_oauth).at w v
  handle-KeysFit (Request.email_accounts_remove id) w v =
      (MailRoutes.remove_email_account prisma crypto token_key id).at w v
  handle-KeysFit (Request.email_accounts_callback c s) w v =
      (MailRoutes.oauth_callback prisma crypto token_key gmail_oauth c s).at w v

  Step-KeysFit : {v w : World} → Step env v w → KeysFit v.keys → KeysFit w.keys
  unfolding handle_scheduled_scan scan_all
  Step-KeysFit (serve v r) f = handle-KeysFit r v f
  Step-KeysFit (scheduled v) f =
      let box = gmail_provider prisma crypto token_key gmail_api unicode in
      rw
        (scan_accounts-keys prisma unicode box
          (gmail_provider-Quiet prisma crypto token_key gmail_api unicode)
          (prisma.email_accounts.find_many (λ a. a.is_active) v.db.email_accounts)
          (start prisma unicode box v))
        f
  Step-KeysFit (pass v now h) f = f
  Step-KeysFit (switch v s) f = f

  no_keys : (entries : List (Text × UnlockEntry)) → entries ≡ [] → KeysFit entries
  no_keys entries empty sid e h = absurd (ground arith)

  -- Whatever requests and scheduled scans run, in whatever sessions and at whatever times, every
  -- key that the server holds has the 32 bytes that AES-256 takes.
  pub Reach-KeysFit : {w : World} → Reach w → KeysFit w.keys
  Reach-KeysFit {w} (booted _ empty) = no_keys w.keys empty
  Reach-KeysFit (later r s) = Step-KeysFit s (Reach-KeysFit r)

  -- In every state that the server reaches, an open session can store an account: the request does
  -- not end with an exception of the cipher.
  Reach-create :
      {w : World} (user : Text) (key : Bytes) (d : AccountData)
      → Reach w
      → IsOpen w user key
      → (Vault.create prisma crypto d w).0 ≢ err cipher
  unfolding Vault.create Accounts.create
  Reach-create {w} user key d reached o h =
      let (logged, flag, (e, found, fresh, same)) = o in
      let fit : length key ≡ 32 = ground (arith, Reach-KeysFit reached w.session.id e found) in
      let (v, admitted) = guard_admits w user key o in
      let (payload, sealed, opened) = crypto.decrypt-encrypt v.draws d.password key fit in
      ground (arith, admitted, sealed)
