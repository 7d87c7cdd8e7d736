-- ===== src/Session/Resolver.antt =====
-- The identities that `resolveActiveDeviceIdentity` (packages/auth/src/session.ts) makes from the trust
-- store (packages/auth/src/trust-store.ts).
use cesspace_arc.Base.{
  ℕ, ◌≡◌, ◌≢◌, sym, subst, ap, true, false, not, Option, some, List, ◌∷◌, Text, all, any, has, ◌==◌,
  ==_refl, lookup, Bool-cases, Option-cases, eq_of_some, inl, inr, arith,
}
use cesspace_arc.Trust.Devices.{EnrolledDevice, is_valid_spki_pin}
use cesspace_arc.Trust.Store.{Devices, find_device_by_pin, is_device_revoked}
use cesspace_arc.Trust.Invariant.{IsTrusted}
use cesspace_arc.Trust.Runs.{TrustCall, apply_calls, calls-IsTrusted, found_iff}
use cesspace_arc.Trust.Revocation.{enrolls_under, revoked_for_good}
use cesspace_arc.Session.Data.{
  SessionIdentity, Registry, has_resolver_provenance, resolve_active_device_identity,
}

abbrev pub Resolution : Type 0
Resolution = Option SessionIdentity × Registry

-- What a successful resolution comes from.
pub record IsResolved (reference : ℕ) (store : Devices) (pin : Text) (reg : Registry)
    (i : SessionIdentity) (reg' : Registry) : Type 0 where
  pub device : EnrolledDevice
  pub found : find_device_by_pin pin store ≡ some device
  pub active : device.revoked ≡ false
  pub device_id : i.device_id ≡ device.device_id
  pub client_id : i.client_id ≡ device.client_id
  pub client_type : i.client_type ≡ device.client_type
  pub spki_pin : i.spki_pin ≡ pin
  pub registered : has_resolver_provenance reg' (some i) ≡ true

resolved :
    (reference : ℕ) (store : Devices) (pin : Text) (reg reg' : Registry) (i : SessionIdentity)
    → resolve_active_device_identity reference store pin reg ≡ (some i, reg')
    → IsResolved reference store pin reg i reg'
unfolding resolve_active_device_identity has_resolver_provenance
resolved reference store pin reg reg' i e = elim (Bool-cases (is_valid_spki_pin pin)) [
  | inr bad ↦ absurd (cc (rw bad at e))
  | inl valid ↦ elim (Option-cases (find_device_by_pin pin store)) [
    | inl unknown ↦ absurd (cc (rw (resolve_active_device_identity, valid, unknown) at e))
    | inr (d, found) ↦ elim (Bool-cases d.revoked) [
      | inl gone ↦ absurd (cc (rw (resolve_active_device_identity, valid, found, gone) at e))
      | inr active ↦
          let made : SessionIdentity = record {
            reference = reference;
            device_id = d.device_id;
            client_id = d.client_id;
            client_type = d.client_type;
            spki_pin = pin;
          } in
          let e' : ◌≡◌ {A = Resolution} (some made, reference ∷ reg) (some i, reg') =
            rw (resolve_active_device_identity, valid, found, active) at e in
          let same : made ≡ i = eq_of_some (ap (λ (p : Resolution). p.0) e') in
          let kept : reference ∷ reg ≡ reg' = ap (λ (p : Resolution). p.1) e' in
          record {
            device = d;
            found = found;
            active = active;
            device_id = ap (λ (x : SessionIdentity). x.device_id) (sym same);
            client_id = ap (λ (x : SessionIdentity). x.client_id) (sym same);
            client_type = ap (λ (x : SessionIdentity). x.client_type) (sym same);
            spki_pin = ap (λ (x : SessionIdentity). x.spki_pin) (sym same);
            registered =
                subst (λ r. any (λ x. x == i.reference) r ≡ true) kept
                  (subst
                    (λ (x : SessionIdentity). any (λ r. r == x.reference) (reference ∷ reg) ≡ true)
                    same (ground (arith, ==_refl reference)));
          }
    ]
  ]
]

-- Take a device that is revoked, and any calls of the trust store after that of which none draws its
-- identifier for a new device. Then it stays revoked, and whatever pin is resolved, an identity that is
-- made is of another device: of one that is stored, is not revoked and has that pin; and it is
-- registered.
pub revoked_device_never_resolves :
    (k : Text) (cs : List TrustCall) (m : Devices) (reference : ℕ) (pin : Text)
    (reg reg' : Registry) (i : SessionIdentity)
    → IsTrusted m
    → is_device_revoked k m ≡ true
    → all (λ c. not (enrolls_under k c)) cs ≡ true
    → resolve_active_device_identity reference (apply_calls cs m) pin reg ≡ (some i, reg')
    → (is_device_revoked k (apply_calls cs m) ≡ true)
      × (i.device_id ≢ k)
      × ((d : EnrolledDevice) × (lookup i.device_id (apply_calls cs m) ≡ some d)
          × (d.revoked ≡ false)
          × (has pin d.pins ≡ true))
      × (has_resolver_provenance reg' (some i) ≡ true)
unfolding is_device_revoked
revoked_device_never_resolves k cs m reference pin reg reg' i w gone fresh e =
    let store = apply_calls cs m in
    let r = resolved reference store pin reg reg' i e in
    let (stored, pinned) = (found_iff pin store r.device (calls-IsTrusted cs m w)).0 r.found in
    let own : lookup i.device_id store ≡ some r.device =
      subst (λ j. lookup j store ≡ some r.device) (sym r.device_id) stored in
    let still = revoked_for_good k cs m fresh gone in
    (
      still,
      λ same.
          let here : lookup k store ≡ some r.device =
            subst (λ j. lookup j store ≡ some r.device) same own in
          absurd (ground (arith, here, r.active, still)),
      (r.device, own, r.active, pinned),
      r.registered,
    )
