-- ===== src/Contracts/Authorization/Evidence.antt =====
-- authorization.py: what evidence proves.
use text.Mathlib.Text.{◌==◌ as str_eq}
use text.Mathlib.TextEquality.{eq_iff}
use zilina_eirvah_edge_impl.Prelude.{
  ℕ, ◌≤◌, ◌≡◌, ◌≢◌, ◌⊎◌, refl, String, Bool, true, false, Option, none, some, arith,
}
use zilina_eirvah_edge_impl.Prelude.Exceptions.{ok}
use zilina_eirvah_edge_impl.Contracts.Actuation.{
  ActuationRequest, SignedEvidence, Purpose, Datetime,
}
use zilina_eirvah_edge_impl.Contracts.Authorization.{
  Crypto, command_digest, signature_of, sign, verify_evidence, same_purpose, is_none,
}

-- The instant `t` is not past the deadline of a command, which has one.
abbrev pub InTime : ℕ → Option Datetime → Type 0
InTime t none = ⊥
InTime t (some d) = t ≤ d.at

module _ {F : Type 0} (crypto : Crypto F) where
  -- What the evidence that a check accepts says of the command, of the holder of the key and of time.
  pub record Proves (command : ActuationRequest F) (e : SignedEvidence) (key : String)
      (purpose : Purpose) (writer : String) (at : ℕ) (allow_expired : Bool) : Type 0 where
    pub for_purpose : e.purpose ≡ purpose
    pub for_writer : e.writer ≡ writer
    pub of_command : command_digest crypto command ≡ ok e.command_digest
    pub by_key : signature_of crypto e key ≡ ok e.signature
    pub issued : e.issued_at ≤ at
    pub timely : allow_expired ≡ false → InTime at command.deadline

  -- A check that passes proves it all: the purpose and the writer are the ones that are checked for,
  -- the digest is the command's, the signature is the one that the key gives, the evidence was issued
  -- by then, and, unless expired evidence is allowed, the deadline has not passed.
  pub verify-Proves :
      (command : ActuationRequest F) (e : SignedEvidence) (key : String) (purpose : Purpose)
      (writer : String) (at : ℕ) (allow_expired : Bool)
      → verify_evidence crypto command e key purpose writer at allow_expired ≡ ok tt
      → Proves command e key purpose writer at allow_expired
  unfolding verify_evidence
  verify-Proves command e key purpose writer at allow_expired h = record {
    for_purpose = ground arith;
    for_writer = ground (arith, eq_iff e.writer writer);
    of_command = ground arith;
    by_key = ground arith;
    issued = ground arith;
    timely = λ a. ground arith;
  }

  -- What signing puts into the evidence.
  record Signed (command : ActuationRequest F) (e : SignedEvidence) (key : String)
      (purpose : Purpose) (writer : String) (now : ℕ) : Type 0 where
    for_purpose : e.purpose ≡ purpose
    for_writer : e.writer ≡ writer
    of_command : command_digest crypto command ≡ ok e.command_digest
    by_key : signature_of crypto e key ≡ ok e.signature
    issued : e.issued_at ≡ now

  sign-Signed :
      (command : ActuationRequest F) (key : String) (purpose : Purpose) (writer : String)
      (allow_expired : Bool) (now now' : ℕ) (e : SignedEvidence)
      → sign crypto command key purpose writer allow_expired now now' ≡ ok e
      → Signed command e key purpose writer now
  unfolding sign signature_of
  sign-Signed command key purpose writer allow_expired now now' e h = record {
    for_purpose = ground arith;
    for_writer = ground arith;
    of_command = ground arith;
    by_key = ground arith;
    issued = ground arith;
  }

  same_purpose_refl : (p : Purpose) → same_purpose p p ≡ true
  same_purpose_refl Purpose.ingress = refl
  same_purpose_refl Purpose.approval = refl

  -- A command that has a digest has a deadline.
  digest-dated :
      (command : ActuationRequest F) (digest : ℕ)
      → command_digest crypto command ≡ ok digest
      → is_none command.deadline ≡ false
  unfolding command_digest
  digest-dated command digest h = ground arith

  -- Evidence that was signed for a command is accepted by every later check with the same key,
  -- purpose and writer, as long as the deadline has not passed or expired evidence is allowed.
  pub verify-sign :
      (command : ActuationRequest F) (key : String) (purpose : Purpose) (writer : String)
      (expired_sign : Bool) (now now' at : ℕ) (allow_expired : Bool) (e : SignedEvidence)
      → sign crypto command key purpose writer expired_sign now now' ≡ ok e
      → now ≤ at
      → (allow_expired ≡ true) ⊎ InTime at command.deadline
      → verify_evidence crypto command e key purpose writer at allow_expired ≡ ok tt
  unfolding verify_evidence
  verify-sign command key purpose writer expired_sign now now' at allow_expired e s le t =
      let q = sign-Signed command key purpose writer expired_sign now now' e s in
      let for_purpose : same_purpose e.purpose purpose ≡ true =
        rw q.for_purpose (same_purpose_refl purpose) in
      let for_writer : str_eq e.writer writer ≡ true = (eq_iff e.writer writer).1 q.for_writer in
      let dated = digest-dated command e.command_digest q.of_command in
      ground (arith, for_purpose, for_writer, dated, q.of_command, q.by_key, q.issued)

  -- No evidence is both ingress and approval evidence of a command.
  pub purposes_apart :
      (command : ActuationRequest F) (e : SignedEvidence) (key key' : String)
      (writer writer' : String) (at at' : ℕ) (x x' : Bool)
      → verify_evidence crypto command e key Purpose.ingress writer at x ≡ ok tt
      → verify_evidence crypto command e key' Purpose.approval writer' at' x' ≢ ok tt
  purposes_apart command e key key' writer writer' at at' x x' h k =
      let p = verify-Proves command e key Purpose.ingress writer at x h in
      let q = verify-Proves command e key' Purpose.approval writer' at' x' k in
      cc (p.for_purpose, q.for_purpose)
