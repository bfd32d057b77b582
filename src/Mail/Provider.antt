-- ===== src/Mail/Provider.antt =====
-- mail/providers/mail-provider.interface.ts and mail-provider-registry.service.ts.
use my_account_controller.Common.{
  ℕ, Bool, Option, List, Text, Result, ok, err, not_found, unknown_provider,
}
use my_account_controller.Database.{ProviderType, gmail}
use my_account_controller.World.{Action, MailAction}

pub record RawMailMessage : Type 0 where
  pub external_message_id : Text
  pub sender : Text
  pub subject : Text
  pub body_preview : Text
  -- `none` is an `Invalid Date`.
  pub received_at : Option ℕ
  pub has_attachment : Bool

pub record MailProvider : Type 0 where
  pub list_candidate_messages : Text → Action (List RawMailMessage)
  pub apply_action : Text → Text → MailAction → Action (Unit {0})

-- `get(providerType)`: one provider is registered, under the name `gmail`.
unfoldable pub get : MailProvider → ProviderType → Result MailProvider
get provider gmail = ok provider
get provider (ProviderType.other name) = err (not_found unknown_provider)
