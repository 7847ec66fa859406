-- ===== src/Ingress/Admission.antt =====
-- amqp-actuation-event-subscriber and actuation-event-validator: the validator takes what the
-- subscriber hands on for the broker user's own command.
use zilina_eirvah_edge_impl.Prelude.{
  ℕ, ◌≤◌, ◌≡◌, refl, sym, String, true, not, Option, none, some, if◌then◌else◌, arith, inl, ◌==◌,
}
use zilina_eirvah_edge_impl.Prelude.Dict.{Dict, contains}
use zilina_eirvah_edge_impl.Prelude.Exceptions.{Result, ok, ◌>>=◌, ◌>>◌, >>=-inv, check-inv}
use zilina_eirvah_edge_impl.Prelude.Numbers.{Floats}
use zilina_eirvah_edge_impl.Contracts.Actuation.{ActuationRequest, SignedEvidence, Purpose}
use zilina_eirvah_edge_impl.Contracts.Authorization.{
  Crypto, AuthenticatedRequest, sign_ingress, verify_evidence,
}
use zilina_eirvah_edge_impl.Contracts.Authorization.Evidence.{verify-sign}
use zilina_eirvah_edge_impl.Contracts.Envelope.{NatsEnvelope, received}
use zilina_eirvah_edge_impl.Validator.{
  Settings, NodePolicy, Readings, decide, validate_request, attach_approval,
}
use zilina_eirvah_edge_impl.Ingress.{publishers, wrapped, signed_for, build_nats_envelope}

module _ {F : Type 0} (crypto : Crypto F) where
  -- What a built envelope holds
  pub record Admits (key : String) (now now' : ℕ) (body : Result (ActuationRequest F))
      (user : Option String) (envelope : NatsEnvelope (AuthenticatedRequest F)) : Type 0 where
    pub name : String
    pub request : ActuationRequest F
    pub evidence : SignedEvidence
    pub user_of : user ≡ some name
    pub permitted : contains name publishers ≡ true
    pub body_of : body ≡ ok request
    pub signed :
        sign_ingress crypto (record request { requester = name }) key true now now' ≡ ok evidence
    pub same : envelope ≡ wrapped name request evidence

  build-Admits :
      (key : String) (now now' : ℕ) (body : Result (ActuationRequest F)) (user : Option String)
      (envelope : NatsEnvelope (AuthenticatedRequest F))
      → build_nats_envelope crypto key now now' body user ≡ ok envelope
      → Admits key now now' body user envelope
  unfolding build_nats_envelope
  build-Admits key now now' body none envelope h = absurd (cc h)
  build-Admits key now now' body (some user) envelope h =
      let (p, k) =
        check-inv (contains user publishers) _ (body >>= signed_for crypto key now now' user)
          envelope h in
      let (req, b, s) = >>=-inv body (signed_for crypto key now now' user) envelope k in
      let signing = sign_ingress crypto (record req { requester = user }) key true now now' in
      let (e, v, f) = >>=-inv signing (λ e. ok (wrapped user req e)) envelope s in
      let same : wrapped user req e ≡ envelope = cc f in
      record {
        name = user;
        request = req;
        evidence = e;
        user_of = refl;
        permitted = p;
        body_of = b;
        signed = v;
        same = sym same;
      }

if_refl : {A : Type 0} (n : ℕ) (x y : A) → (if not (n == n) then x else y) ≡ y
if_refl n x y = ground arith

-- What the subscriber builds is the broker user's own command: the user may publish, the requester is
-- the user, whatever the body says, and the command is otherwise the body. With the same key and at
-- any later time, the validator's decision on it, in an intact envelope, depends on its policies
-- alone: the identity and the evidence are accepted, also when the deadline has passed.
pub decide-build :
    (floats : Floats) (crypto : Crypto floats.Float) (settings : Settings)
    (policies : Dict (NodePolicy floats.Float)) (now now' : ℕ)
    (body : Result (ActuationRequest floats.Float)) (user : Option String)
    (envelope : NatsEnvelope (AuthenticatedRequest floats.Float)) (t : Readings)
    (recorded : Result (Unit {0}))
    → build_nats_envelope crypto settings.ingress_key now now' body user ≡ ok envelope
    → now ≤ t.verified
    → (a : Admits crypto settings.ingress_key now now' body user envelope)
      × (let req : ActuationRequest floats.Float = record a.request { requester = a.name } in
          decide floats crypto settings policies t recorded (received envelope) ≡ (
            validate_request floats req policies >>= λ r.
            attach_approval floats crypto settings policies req t r >>= λ r'. recorded >> ok r'))
unfolding decide
decide-build floats crypto settings policies now now' body user envelope t recorded h l =
    let a = build-Admits crypto settings.ingress_key now now' body user envelope h in
    let req : ActuationRequest floats.Float = record a.request { requester = a.name } in
    let checked : verify_evidence crypto req a.evidence settings.ingress_key Purpose.ingress ""
          t.verified true
        ≡ ok tt =
      verify-sign crypto req settings.ingress_key Purpose.ingress "" true now now' t.verified true
        a.evidence a.signed l (inl refl) in
    (a, rw (a.same, checked) (if_refl req.correlation_id _ _))
