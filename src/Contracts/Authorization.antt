-- ===== src/Contracts/Authorization.antt =====
-- libs/eirvah-contracts/src/eirvah_contracts/authorization.py: the evidence that a command was
-- admitted (ingress) and approved (approval). SHA-256 and HMAC are the parameter `Crypto`.
pub mod Evidence
use Prim.Native.String.{len}
use text.Mathlib.Text.{◌==◌ as str_eq}
use zilina_eirvah_edge_impl.Prelude.{
  ℕ, ◌≤◌, String, Bool, true, false, not, ◌&&◌, ◌||◌, Option, none, some, ltb, leb, ◌==◌,
  if◌then◌else◌,
}
use zilina_eirvah_edge_impl.Prelude.Exceptions.{Exc, Result, ok, err, ◌>>=◌, ◌>>◌}
use zilina_eirvah_edge_impl.Contracts.Actuation.{
  ActuationRequest, SignedEvidence, Purpose, Datetime,
}

-- hashlib and hmac, each applied to the canonical text of its arguments.
pub record Crypto (F : Type 0) : Type 0 where
  -- SHA-256 of the canonical text of a command whose times are given in UTC; `none` if the command
  -- has a number that the text cannot hold
  pub sha256 : ActuationRequest F → Option ℕ
  -- HMAC-SHA-256 under a key, of an evidence without its signature
  pub hmac : String → Purpose → ℕ → String → ℕ → ℕ

pub record AuthenticatedRequest (F : Type 0) : Type 0 where
  pub command : ActuationRequest F
  pub identity : SignedEvidence

pub record ApprovedWriteRequest (F : Type 0) : Type 0 where
  pub command : ActuationRequest F
  pub approval : SignedEvidence

-- require_key
unfoldable pub require_key : String → Result String
require_key key =
    if ltb (len key) 32
    then err (Exc.value_error "actuation authentication key must contain at least 32 bytes")
    else ok key

abbrev pub same_purpose : Purpose → Purpose → Bool
same_purpose Purpose.ingress Purpose.ingress = true
same_purpose Purpose.ingress Purpose.approval = false
same_purpose Purpose.approval Purpose.ingress = false
same_purpose Purpose.approval Purpose.approval = true

-- command.deadline is None or command.deadline.utcoffset() is None
abbrev pub lacks_aware : Option Datetime → Bool
lacks_aware none = true
lacks_aware (some t) = not t.aware

abbrev pub is_none {ℓ} : {A : Type ℓ} → Option A → Bool
is_none none = true
is_none (some _) = false

-- `t > deadline`, of a deadline that is there
abbrev pub is_past : ℕ → Option Datetime → Bool
is_past t none = false
is_past t (some d) = ltb d.at t

module _ {F : Type 0} (crypto : Crypto F) where
  unfoldable pub command_digest : ActuationRequest F → Result ℕ
  command_digest command =
      if lacks_aware command.deadline
      then err (Exc.value_error "command requires a timezone-aware deadline")
      else if not command.requested_at.aware
      then err (Exc.value_error "command requires a timezone-aware requested_at")
      else elim (crypto.sha256 command) [
        | none ↦ err (Exc.value_error "Out of range float values are not JSON compliant")
        | some digest ↦ ok digest
      ]

  -- _signature
  unfoldable pub signature_of : SignedEvidence → String → Result ℕ
  signature_of e key =
      require_key key >>= λ k. ok (crypto.hmac k e.purpose e.command_digest e.writer e.issued_at)

  -- _sign; `now` and `now'` are the readings of the clock for the evidence and for the deadline.
  -- `command.deadline is None` raises whatever `allow_expired` is.
  unfoldable pub sign :
      ActuationRequest F → String → Purpose → String → Bool → ℕ → ℕ → Result SignedEvidence
  sign command key purpose writer allow_expired now now' = command_digest command >>= λ digest.
      let e : SignedEvidence = record {
        purpose = purpose;
        command_digest = digest;
        writer = writer;
        issued_at = now;
        signature = 0;
      } in
      if is_none command.deadline || (not allow_expired && is_past now' command.deadline)
      then err (Exc.value_error "command expired")
      else (signature_of e key >>= λ s. ok (record e { signature = s }))

  abbrev pub sign_ingress : ActuationRequest F → String → Bool → ℕ → ℕ → Result SignedEvidence
  sign_ingress command key allow_expired now now' =
      sign command key Purpose.ingress "" allow_expired now now'

  abbrev pub sign_approval :
      ActuationRequest F → String → String → Bool → ℕ → ℕ → Result SignedEvidence
  sign_approval command key writer allow_expired now now' =
      sign command key Purpose.approval writer allow_expired now now'

  -- verify_evidence at the instant `at`
  unfoldable pub verify_evidence :
      ActuationRequest F → SignedEvidence → String → Purpose → String → ℕ → Bool → Result (Unit {0})
  verify_evidence command e key purpose writer at allow_expired =
      if not (same_purpose e.purpose purpose) || not (str_eq e.writer writer)
      then err (Exc.value_error "approval purpose or writer mismatch")
      else (command_digest command >>= λ digest.
          if not (e.command_digest == digest)
          then err (Exc.value_error "approved command mismatch")
          else (signature_of e key >>= λ s.
              if not (e.signature == s)
              then err (Exc.value_error "invalid command authentication")
              else if is_none command.deadline
                  || ((not allow_expired && is_past at command.deadline) || ltb at e.issued_at)
              then err (Exc.value_error "command expired or evidence time invalid")
              else ok tt))
