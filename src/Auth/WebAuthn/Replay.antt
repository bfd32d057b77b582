-- ===== src/Auth/WebAuthn/Replay.antt =====
-- The counters of trusted devices, over two logins (auth/webauthn.service.ts).
use my_account_controller.Common.{
  ℕ, ◌≡◌, ◌≢◌, sym, ap, ◌∙◌, arith, true, Option, none, some, List, Text, ◌==◌, ok, Memᴰ, inl, inr,
  Option-cases, Bool-cases, eq_of_==, ==_yes,
}
use my_account_controller.Database.{TrustedDevice, Prisma, written, Written-cases, device_clash}
use my_account_controller.Crypto.Aes.{Node}
use my_account_controller.World.{World}
use my_account_controller.Auth.WebAuthn.{WebAuthnServer, credential_of, verify_authentication}

-- The constraints of the table of devices: no two rows clash.
abbrev pub DevicesDistinct : List TrustedDevice → Type 0
DevicesDistinct rows =
    (a b : TrustedDevice) → Memᴰ a rows → Memᴰ b rows → device_clash a b ≡ true → a ≡ b

module _ (prisma : Prisma) (node : Node) (server : WebAuthnServer) (response : Text) where
  abbrev found : List TrustedDevice → Option TrustedDevice
  found rows =
      prisma.devices.find_first (λ d. d.webauthn_credential_id == server.response_id response) rows

  -- The row that an accepted response leaves.
  abbrev stamped : ℕ → ℕ → TrustedDevice → TrustedDevice
  stamped n now d = record d { counter = n; last_used_at = some now }

  -- What an accepted response went through.
  abbrev Accepted : Text → World → TrustedDevice → World → Type 0
  Accepted challenge w device w' =
      (n : ℕ) × (found w.db.devices ≡ some device)
      × (server.verify_authentication response challenge (credential_of prisma node server device)
          ≡ some (some n))
      × (prisma.devices.update device_clash (λ d. d.id == device.id) (stamped n w.now) w.db.devices
          ≡ written w'.db.devices)

  verify_authentication-Accepted :
      (challenge : Text) (w : World) {device : TrustedDevice} {w' : World}
      → verify_authentication prisma node server challenge response w ≡ (ok device, w')
      → Accepted challenge w device w'
  unfolding verify_authentication
  verify_authentication-Accepted challenge w {device} {w'} h =
      elim (Option-cases (found w.db.devices)) [
        | inl missing ↦ absurd (ground arith)
        | inr (d, there) ↦
            elim (Option-cases (
              server.verify_authentication response challenge
                (credential_of prisma node server d))) [
                  | inl rejected ↦ absurd (ground arith)
                  | inr (none, unverified) ↦ absurd (ground arith)
                  | inr (some n, counted) ↦
                      elim (Written-cases (
                        prisma.devices.update device_clash (λ x. x.id == d.id) (stamped n w.now)
                          w.db.devices)) [
                            | inl (rows, stored) ↦
                                let same : d ≡ device = ground (arith, stored) in
                                let after : rows ≡ w'.db.devices = ground (arith, stored) in
                                (
                                  n,
                                  there ∙ ap some same,
                                  rw (← same) counted,
                                  rw (← same, ← after) stored,
                                )
                            | inr (c, refused) ↦ absurd (ground (arith, refused))
                          ]
                ]
      ]

  same_credential :
      (a b : TrustedDevice)
      → a.webauthn_credential_id ≡ b.webauthn_credential_id
      → device_clash a b ≡ true
  unfolding device_clash
  same_credential a b h = ground (arith, h)

  -- The row that is found for the response afterwards has its counter.
  counter_after :
      (rows rows' : List TrustedDevice) (device later : TrustedDevice) (n now : ℕ)
      → DevicesDistinct rows
      → found rows ≡ some device
      → prisma.devices.update device_clash (λ d. d.id == device.id) (stamped n now) rows
        ≡ written rows'
      → found rows' ≡ some later
      → later.counter ≡ n
  counter_after rows rows' device later n now distinct there stored again =
      let (m, e) =
        prisma.devices.find_first_some
          (λ d. d.webauthn_credential_id == server.response_id response) rows there in
      let (m', e') =
        prisma.devices.find_first_some
          (λ d. d.webauthn_credential_id == server.response_id response) rows' again in
      let (q, k, from) =
        prisma.devices.update_only device_clash (λ d. d.id == device.id) (stamped n now) rows stored
          m' in
      elim (Bool-cases (q.id == device.id)) [
        | inl picked ↦ ground (arith, from)
        | inr other ↦
            let kept : later ≡ q = ground (arith, from) in
            let credential : q.webauthn_credential_id ≡ device.webauthn_credential_id =
              ap (λ d. d.webauthn_credential_id) (sym kept) ∙ (eq_of_== e' ∙ sym (eq_of_== e)) in
            let one : q ≡ device = distinct q device k m (same_credential q device credential) in
            absurd (ground (arith, ==_yes (ap (λ d. d.id) one)))
      ]

  -- In a table of devices that do not clash, a response that was accepted, and whose counter is
  -- not 0, is not accepted again afterwards, under any challenge.
  pub accepted_once :
      (challenge again : Text) (w : World) {device later : TrustedDevice} {w1 w2 : World}
      → DevicesDistinct w.db.devices
      → server.response_counter response ≢ 0
      → verify_authentication prisma node server challenge response w ≡ (ok device, w1)
      → verify_authentication prisma node server again response w1 ≢ (ok later, w2)
  unfolding credential_of
  accepted_once challenge again w {device} {later} {w1} {w2} distinct counts first second =
      let (n, there, verified, stored) = verify_authentication-Accepted challenge w first in
      let (m, there', verified', stored') = verify_authentication-Accepted again w1 second in
      let (e, g) =
        server.authentication_counts response challenge (credential_of prisma node server device)
          verified in
      let (e', g') =
        server.authentication_counts response again (credential_of prisma node server later)
          verified' in
      let c : later.counter ≡ n =
        counter_after w.db.devices w1.db.devices device later n w.now distinct there stored
          there' in
      ground (arith, e, e', g', c, counts)
