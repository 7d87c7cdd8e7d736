-- ===== src/Session/History.antt =====
-- Where an authentication comes from, and the end of a session (packages/auth/src/session.ts).
use cesspace_arc.Base.{
  ℕ, ◌+◌, ◌<◌, ◌≡◌, sym, ap, ◌∙◌, Option, some, List, [], ◌∷◌, ◌++◌, Text, lookup, returned,
  or_else, inl, inr, arith,
}
use cesspace_arc.Session.Data.{
  SessionIdentity, Registry, SessionRecord, SessionManager, TrustedSession, session_absolute_ttl,
}
use cesspace_arc.Session.Manager.{empty_manager}
use cesspace_arc.Session.Requests.{new_session, issue_session, authenticate}
use cesspace_arc.Session.Invariant.{empty-IsSessionSound}
use cesspace_arc.Session.Authentication.{IsAccepted, authenticate_iff}
use cesspace_arc.Session.Effects.{core}
use cesspace_arc.Session.Runs.{SessionCall, issues, run_calls}
use cesspace_arc.Session.Origins.{issuance, Issues, calls-origin}

-- An issuance among the calls, of the same session, identity and token digest.
pub record IsBackedBy (sha256 : Text → Text) (cs : List SessionCall) (now : ℕ) (id submitted : Text)
    (i : SessionIdentity) : Type 0 where
  pub before : List SessionCall
  pub after : List SessionCall
  pub clock : ℕ → ℕ
  pub registry : Registry
  pub wall : Text
  pub token : Text
  pub issued_to : SessionIdentity
  pub split : cs ≡ before ++ issues clock registry wall token id issued_to ∷ after
  pub issued :
      (issue_session sha256 clock registry wall token id issued_to
        (run_calls sha256 before empty_manager)).0
      ≡ returned (issuance wall token id)
  pub digest : sha256 submitted ≡ sha256 token
  pub device : i.device_id ≡ issued_to.device_id
  pub client : i.client_id ≡ issued_to.client_id
  pub kind : i.client_type ≡ issued_to.client_type
  pub pin : i.spki_pin ≡ issued_to.spki_pin
  pub young : now < clock 2 + session_absolute_ttl

module _ (sha256 : Text → Text) where
  backed :
      (cs before after : List SessionCall) (c : SessionCall) (now : ℕ) (id submitted : Text)
      (i : SessionIdentity) (x y : SessionRecord)
      → cs ≡ before ++ c ∷ after
      → Issues sha256 c (run_calls sha256 before empty_manager) id y
      → core x ≡ core y
      → IsAccepted sha256 now submitted i x
      → IsBackedBy sha256 cs now id submitted i
  unfolding new_session
  backed cs before after (issues mono reg wall token k j) now id submitted i x y split by same ok =
      let (done, here, new) = by in
      let e : core x ≡ core (new_session sha256 mono wall token k j) =
        same ∙ ap (λ (z : SessionRecord). core z) new in
      record {
        before = before;
        after = after;
        clock = mono;
        registry = reg;
        wall = wall;
        token = token;
        issued_to = j;
        split = rw here split;
        issued = rw here done;
        digest = ok.token ∙ ap (λ (z : SessionRecord). z.token_digest) e;
        device = sym ok.device ∙ ap (λ (z : SessionRecord). z.device_id) e;
        client = sym ok.client ∙ ap (λ (z : SessionRecord). z.client_id) e;
        kind = sym ok.kind ∙ ap (λ (z : SessionRecord). z.client_type) e;
        pin = sym ok.pin ∙ ap (λ (z : SessionRecord). z.spki_pin) e;
        young = omega (arith, ok.young, ap (λ (z : SessionRecord). z.created) e);
      }
  backed cs before after _ now id submitted i x y split by same ok = absurd by

  -- Whenever an authentication succeeds after any calls on a new manager, one of those calls issued
  -- a session under the presented identifier: to an identity with the same device, client, type and
  -- pin as the one that authenticates, with a token that has the digest of the submitted one, and
  -- less than 3600 seconds before.
  pub authenticated_was_issued :
      (cs : List SessionCall) (mono : ℕ → ℕ) (reg : Registry) (id : Text) (token : Option Text)
      (i : SessionIdentity) (t : TrustedSession) (s' : SessionManager)
      → authenticate sha256 mono reg id token (some i) (run_calls sha256 cs empty_manager)
        ≡ (some t, s')
      → IsBackedBy sha256 cs (mono 0) id (or_else token []) i
  authenticated_was_issued cs mono reg id token i t s' h =
      let s = run_calls sha256 cs empty_manager in
      let (r, _, _, found, ok, _, _) = (authenticate_iff sha256 mono reg id token i s s' t).0 h in
      elim (calls-origin sha256 cs empty_manager id r empty-IsSessionSound found) [
        | inl (x, old, _) ↦ absurd (unfold lookup in cc old)
        | inr o ↦
            backed cs o.before o.after o.issuing (mono 0) id (or_else token []) i r o.record_then
              o.split o.by o.same ok
      ]
