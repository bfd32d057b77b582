-- ===== src/Web/Device/Roundtrip.antt =====
-- A registration and a later login with the same authenticator (apps/web/src/lib/webauthn.ts).
use my_account_controller.Common.{
  ℕ, ◌+◌, ◌≡◌, refl, sym, ap, ◌∙◌, arith, true, Option, none, some, List, [], ◌∷◌, Text, ok,
  Option-cases, inl, inr, ==_yes, Result-cases,
}
use my_account_controller.Crypto.Encoding.{Bytes, to_well_formed}
use my_account_controller.Crypto.Aes.{Node}
use my_account_controller.Database.{Prisma}
use my_account_controller.Auth.WebAuthn.{WebAuthnServer}
use my_account_controller.Auth.Controller.{
  webauthn_register_options, webauthn_register, webauthn_authenticate_options,
}
use my_account_controller.Web.Api.{Http}
use my_account_controller.Web.Crypto.{
  WebCrypto, without_mark, get_prf_eval_salt, wrap_master_password, unwrap_master_password,
  unwrap-wrap_master_password,
}
use my_account_controller.Web.Storage.{WrappedMasterPassword, ObjectStore}
use my_account_controller.Web.Browser.{
  Browser, request, save_wrapped_master_password, get_wrapped_master_password,
}
use my_account_controller.Web.Device.{
  Registration, Assertion, AssertionRequest, Authenticator, RegisterResult, keep_password, prime,
  prime_if, register_this_device, unwrap_stored, authenticate_with_stored_device,
}

module _ (web : WebCrypto) (store : ObjectStore) (auth : Authenticator) (http : Http)
    (prisma : Prisma) (node : Node) (server : WebAuthnServer) where
  -- The stored rows hold the password, wrapped under the secret.
  abbrev Holds : Text → Bytes → Text → Browser → Type 0
  Holds id prf password b =
      (rows : List WrappedMasterPassword) × (entry : WrappedMasterPassword) × (d : ℕ) × (b.stored
        ≡ some rows)
      × (store.get id rows ≡ some entry)
      × (entry.wrapped ≡ wrap_master_password web d prf password)

  keep_password-Holds :
      (id password : Text) (prf : Bytes) (b : Browser) {b' : Browser}
      → keep_password web store auth id password (some prf) b ≡ (ok tt, b')
      → Holds id prf password b'
  unfolding keep_password save_wrapped_master_password
  keep_password-Holds id password prf b {b'} h = elim (Option-cases b.stored) [
    | inl closed ↦ absurd (ground arith)
    | inr (rows, opened) ↦
        let entry : WrappedMasterPassword = record {
          credential_id = id;
          wrapped = wrap_master_password web b.draws prf password;
        } in
        elim (Option-cases (store.put entry rows)) [
          | inl refused ↦ absurd (ground arith)
          | inr (rows', put) ↦ (
            rows',
            entry,
            b.draws,
            ground (arith, put),
            store.get-put id entry rows put ∙ (ground (arith, ==_yes {a = id} refl)),
            refl,
          )
        ]
  ]

  prime-Holds :
      (id password : Text) (out : Bytes) (b : Browser) {b' : Browser}
      → auth.prf_of id (get_prf_eval_salt web) ≡ some out
      → prime web store auth id password b ≡ (ok tt, b')
      → Holds id out password b'
  unfolding prime
  prime-Holds id password out b {b'} secret h =
      let ask : AssertionRequest = record {
        options = auth.challenge_of (web.random_values b.draws 32);
        allow_credentials = id ∷ [];
        prf_salt = get_prf_eval_salt web;
      } in
      elim (Option-cases (auth.start_authentication ask)) [
        | inl failed ↦ absurd (ground arith)
        | inr (a, answered) ↦
            let same : a.id ≡ id = auth.allowed_lem ask id answered refl in
            let output : a.prf_output ≡ some out = auth.prf_lem ask answered ∙ (rw same secret) in
            keep_password-Holds id password out (record b { draws = b.draws + 1 }) {b' = b'}
              (ground (arith, answered, output))
      ]

  -- The authenticator's answer to the options that the server gives for a registration.
  abbrev pub Enrolled : Browser → Registration → Type 0
  Enrolled b registration =
      (options : Text) × (b1 : Browser) × (request http {A = Text}
          (webauthn_register_options prisma node server) b
        ≡ (ok options, b1))
      × (auth.start_registration options ≡ some registration)

  register-Holds :
      (label password : Text) (b : Browser) {r : RegisterResult} {b' : Browser}
      {registration : Registration} {out : Bytes}
      → Enrolled b registration
      → register_this_device web store auth http prisma node server label password b ≡ (ok r, b')
      → registration.prf_enabled ≡ true
      → auth.prf_of registration.id (get_prf_eval_salt web) ≡ some out
      → Holds registration.id out password b'
  unfolding register_this_device prime_if
  register-Holds label password b {r} {b'} {registration} {out} (options, b1, asked, enrolled) h
        enabled secret =
      elim (Result-cases (
        request http {A = Text × Text}
          (webauthn_register prisma node server label registration.response) b1)) [
            | inl (device, b2, kept) ↦
                elim (Result-cases (prime web store auth registration.id password b2)) [
                  | inl (done, b3, primed) ↦
                      let same : b3 ≡ b' = ground (arith, asked, enrolled, kept, primed, enabled) in
                      rw (← same) (prime-Holds registration.id password out b2 secret primed)
                  | inr (e, b3, failed) ↦
                      absurd (ground (arith, asked, enrolled, kept, failed, enabled))
                ]
            | inr (e, b2, refused) ↦ absurd (ground (arith, asked, enrolled, refused))
          ]

  -- What a login with a stored device went through.
  abbrev LoggedIn : Browser → Assertion → Text → Type 0
  LoggedIn c assertion unwrapped =
      (rows : List WrappedMasterPassword) × (entry : WrappedMasterPassword) × (prf : Bytes)
      × (c.stored ≡ some rows)
      × (store.get assertion.id rows ≡ some entry)
      × (auth.prf_of assertion.id (get_prf_eval_salt web) ≡ some prf)
      × (unwrap_master_password web prf entry.wrapped ≡ some unwrapped)

  unwrap_stored_lem :
      (assertion : Assertion) (entry : Option WrappedMasterPassword) (c : Browser)
      {unwrapped : Text} {c' : Browser}
      → unwrap_stored web store auth http prisma node server assertion entry c ≡ (ok unwrapped, c')
      → (e : WrappedMasterPassword) × (prf : Bytes) × (entry ≡ some e)
        × (assertion.prf_output ≡ some prf)
        × (unwrap_master_password web prf e.wrapped ≡ some unwrapped)
  unfolding unwrap_stored
  unwrap_stored_lem assertion none c h = absurd (ground arith)
  unwrap_stored_lem assertion (some e) c h = elim (Option-cases assertion.prf_output) [
    | inl missing ↦ absurd (ground arith)
    | inr (prf, output) ↦ (e, prf, refl, output, ground arith)
  ]

  authenticate-LoggedIn :
      (c : Browser) {assertion : Assertion} {unwrapped : Text} {c' : Browser}
      → authenticate_with_stored_device web store auth http prisma node server c
        ≡ (ok (assertion, unwrapped), c')
      → LoggedIn c assertion unwrapped
  unfolding authenticate_with_stored_device get_wrapped_master_password request
  authenticate-LoggedIn c {assertion} {unwrapped} {c'} h =
      elim (Result-cases
        (request http {A = Text} (webauthn_authenticate_options prisma node server) c)) [
          | inr (e, c1, refused) ↦ absurd (ground (arith, refused))
          | inl (options, c1, asked) ↦
              let ask : AssertionRequest = record {
                options = options;
                allow_credentials = [];
                prf_salt = get_prf_eval_salt web;
              } in
              elim (Option-cases (auth.start_authentication ask)) [
                | inl failed ↦ absurd (ground (arith, asked))
                | inr (a, answered) ↦ elim (Option-cases c1.stored) [
                  | inl closed ↦ absurd (ground (arith, asked, answered))
                  | inr (rows, opened) ↦
                      elim (Result-cases (
                        unwrap_stored web store auth http prisma node server a (store.get a.id rows)
                          c1)) [
                            | inr (e, c2, failed) ↦ absurd (ground (arith, asked, answered, failed))
                            | inl (t, c2, went) ↦
                                let (entry, prf, found, output, unwrapped_to) =
                                  unwrap_stored_lem a (store.get a.id rows) c1 went in
                                let one : a ≡ assertion = ground (arith, asked, answered, went) in
                                let text : t ≡ unwrapped = ground (arith, asked, answered, went) in
                                let kept : c.stored ≡ c1.stored = ground (arith, asked) in
                                (
                                  rows,
                                  entry,
                                  prf,
                                  kept ∙ opened,
                                  rw (← one) found,
                                  rw (← one) (sym (auth.prf_lem ask answered) ∙ output),
                                  unwrapped_to ∙ ap some text,
                                )
                          ]
                ]
              ]
        ]

  -- If a registration that went through had the extension PRF and a secret for its credential, then
  -- a later login in the same browser with that credential gives the password that was typed at
  -- the registration, but for lone surrogates and a byte order mark at its front.
  pub authenticate-register :
      (label password : Text) (b c : Browser) {r : RegisterResult} {b' c' : Browser}
      {registration : Registration} {out : Bytes} {assertion : Assertion} {unwrapped : Text}
      → Enrolled b registration
      → register_this_device web store auth http prisma node server label password b ≡ (ok r, b')
      → registration.prf_enabled ≡ true
      → auth.prf_of registration.id (get_prf_eval_salt web) ≡ some out
      → c.stored ≡ b'.stored
      → authenticate_with_stored_device web store auth http prisma node server c
        ≡ (ok (assertion, unwrapped), c')
      → assertion.id ≡ registration.id
      → unwrapped ≡ without_mark (to_well_formed password)
  authenticate-register label password b c {r} {b'} {c'} {registration} {out} {assertion}
        {unwrapped} enrolled registered enabled secret later login same =
      let (rows, entry, d, stored, found, wrapped) =
        register-Holds label password b enrolled registered enabled secret in
      let (rows', entry', prf, stored', found', output, opened) = authenticate-LoggedIn c login in
      let one_store : rows' ≡ rows = ground (arith, stored, stored', later) in
      let one_secret : prf ≡ out = ground (arith, output, secret, same) in
      let one_entry : entry' ≡ entry = ground (arith, found, found', one_store, same) in
      let text : unwrap_master_password web out (wrap_master_password web d out password)
          ≡ some unwrapped =
        ground (arith, opened, one_secret, one_entry, wrapped) in
      ground (arith, text, unwrap-wrap_master_password web d out password)
