-- ===== src/Web/Storage.antt =====
-- apps/web/src/lib/webauthn-storage.ts: the wrapped master passwords of one browser, in IndexedDB.
use my_account_controller.Common.{
  ◌≡◌, ◌↔◌, true, Option, none, some, List, Text, ◌==◌, if◌then◌else◌, Memᴰ, is_some,
}
use my_account_controller.Web.Crypto.{Wrapped}

pub record WrappedMasterPassword : Type 0 where
  pub credential_id : Text
  pub wrapped : Wrapped

-- The object store `wrapped-master-password` with the key path `credentialId`; a `none` of `put`
-- is a transaction that fails.
pub record ObjectStore : Type 0 where
  pub put : WrappedMasterPassword → List WrappedMasterPassword → Option (List WrappedMasterPassword)
  pub get : Text → List WrappedMasterPassword → Option WrappedMasterPassword
  pub get_all_keys : List WrappedMasterPassword → List Text
  pub delete : Text → List WrappedMasterPassword → List WrappedMasterPassword
  pub get-put :
      (id : Text) (entry : WrappedMasterPassword) (rows : List WrappedMasterPassword)
      {rows' : List WrappedMasterPassword}
      → put entry rows ≡ some rows'
      → get id rows' ≡ (if entry.credential_id == id then some entry else get id rows)
  pub get-delete :
      (id other : Text) (rows : List WrappedMasterPassword)
      → get other (delete id rows) ≡ (if id == other then none else get other rows)
  pub get_all_keys_iff :
      (id : Text) (rows : List WrappedMasterPassword)
      → Memᴰ id (get_all_keys rows) ↔ (is_some (get id rows) ≡ true)
