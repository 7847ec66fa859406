-- ===== src/Validator/Policy.antt =====
-- actuation-event-validator, validate_request: what is approved.
use text.Mathlib.Text.{◌==◌ as str_eq}
use zilina_eirvah_edge_impl.Prelude.{
  String, ◌≡◌, ◌↔◌, refl, ap, ◌∙◌, Bool, true, Option, none, some, List, [], ◌∷◌, arith,
  if◌then◌else◌,
}
use zilina_eirvah_edge_impl.Prelude.Exceptions.{Exc, Result, ok, err}
use zilina_eirvah_edge_impl.Prelude.Numbers.{ℤ, Floats, Value, double, int, bool}
use zilina_eirvah_edge_impl.Prelude.Dict.{Dict, lookup, insert, contains, lookup-insert}
use zilina_eirvah_edge_impl.Contracts.Actuation.{
  ActuationRequest, SignalValueType, Decision, ValidationResult,
}
use zilina_eirvah_edge_impl.Validator.{
  NodePolicy, add_policies, load_policy, same_type, has_type, to_float, validate_request,
  approval_result, check_policy, numeric, in_range,
}

-- A value of the type that a policy names: a whole number passes as a double, a Boolean does not.
pub data HasType {F : Type 0} : SignalValueType → Value F → Type 0 where
  a_double : (x : F) → HasType SignalValueType.double_type (double x)
  a_whole : (n : ℤ) → HasType SignalValueType.double_type (int n)
  an_int : (n : ℤ) → HasType SignalValueType.int64_type (int n)
  a_bool : (b : Bool) → HasType SignalValueType.bool_type (bool b)

has_type-HasType :
    {F : Type 0} (t : SignalValueType) (v : Value F) → has_type t v ≡ true → HasType t v
has_type-HasType SignalValueType.double_type (double x) h = a_double x
has_type-HasType SignalValueType.double_type (int n) h = a_whole n
has_type-HasType SignalValueType.int64_type (int n) h = an_int n
has_type-HasType SignalValueType.bool_type (bool b) h = a_bool b
has_type-HasType SignalValueType.bool_type (int b) h = absurd (cc)
has_type-HasType _ _ h = absurd (cc)

HasType-has_type :
    {F : Type 0} (t : SignalValueType) (v : Value F) → HasType t v → has_type t v ≡ true
HasType-has_type _ _ (a_double x) = refl
HasType-has_type _ _ (a_whole n) = refl
HasType-has_type _ _ (an_int n) = refl
HasType-has_type _ _ (a_bool b) = refl

same_type-eq : (s t : SignalValueType) → same_type s t ≡ true → s ≡ t
same_type-eq s t h = ground arith

same_type_refl : (s : SignalValueType) → same_type s s ≡ true
same_type_refl s = ground arith

-- The last policy of a topic in a list, or else `found`.
unfoldable pub last_of :
    {F : Type 0} → String → List (NodePolicy F) → Option (NodePolicy F) → Option (NodePolicy F)
last_of topic [] found = found
last_of topic (p ∷ ps) found = last_of topic ps (if str_eq topic p.uns_topic then some p else found)

module _ (floats : Floats) where
  open floats use {Float, le, is_finite}

  -- What a command needs to be approved.
  pub record Permitted (req : ActuationRequest Float) (policies : Dict (NodePolicy Float))
      : Type 0 where
    pub policy : NodePolicy Float
    pub found : lookup req.target_uns_topic policies ≡ some policy
    pub allowed : contains req.requester policy.allowlist ≡ true
    pub declared : req.value_type ≡ policy.value_type
    pub typed : HasType policy.value_type req.requested_value
    pub value : Float
    pub converted : to_float floats req.requested_value ≡ ok value
    pub finite : is_finite value ≡ true
    pub from_low : le policy.allowed_range.0 value ≡ true
    pub to_high : le value policy.allowed_range.1 ≡ true

  Permitted-approve :
      (req : ActuationRequest Float) (policies : Dict (NodePolicy Float))
      → Permitted req policies
      → validate_request floats req policies ≡ ok (approval_result none)
  unfolding validate_request
  Permitted-approve req policies p =
      let same : same_type req.value_type p.policy.value_type ≡ true =
        rw p.declared (same_type_refl p.policy.value_type) in
      rw (
        p.found,
        p.allowed,
        same,
        HasType-has_type _ _ p.typed,
        p.converted,
        p.finite,
        p.from_low,
        p.to_high,
      )

  numeric-approve :
      (range : Float × Float) (w : Result Float) (r : ValidationResult)
      → numeric floats range w ≡ ok r
      → r.decision ≡ Decision.approve
      → (v : Float) × (w ≡ ok v) × (in_range floats range v ≡ true)
  numeric-approve range (ok v) r h d = (v, refl, ground arith)
  numeric-approve range (err (Exc.value_error m)) r h d = ground arith
  numeric-approve range (err (Exc.runtime_error m)) r h d = ground arith
  numeric-approve range (err e) r h d = ground arith

  policy-approve :
      (req : ActuationRequest Float) (o : Option (NodePolicy Float)) (r : ValidationResult)
      → check_policy floats req o ≡ ok r
      → r.decision ≡ Decision.approve
      → (p : NodePolicy Float) × (o ≡ some p)
        × (contains req.requester p.allowlist ≡ true)
        × (same_type req.value_type p.value_type ≡ true)
        × (has_type p.value_type req.requested_value ≡ true)
        × (numeric floats p.allowed_range (to_float floats req.requested_value) ≡ ok r)
  policy-approve req none r h d = ground arith
  policy-approve req (some p) r h d =
      (p, refl, ground arith, ground arith, ground arith, ground arith)

  approve-Permitted :
      (req : ActuationRequest Float) (policies : Dict (NodePolicy Float)) (r : ValidationResult)
      → validate_request floats req policies ≡ ok r
      → r.decision ≡ Decision.approve
      → Permitted req policies
  unfolding validate_request
  approve-Permitted req policies r h d =
      let (p, found, allowed, same, typed, n) =
        policy-approve req (lookup req.target_uns_topic policies) r h d in
      let (v, converted, fits) =
        numeric-approve p.allowed_range (to_float floats req.requested_value) r n d in
      record {
        policy = p;
        found = found;
        allowed = allowed;
        declared = same_type-eq _ _ same;
        typed = has_type-HasType _ _ typed;
        value = v;
        converted = converted;
        finite = ground arith;
        from_low = ground arith;
        to_high = ground arith;
      }

  -- The validator's policy check approves a command exactly if the topic has a policy, the requester
  -- is on its list, the declared type is the policy's and the value is of it, and the value is a
  -- finite number in the policy's range.
  pub validate_request_iff :
      (req : ActuationRequest Float) (policies : Dict (NodePolicy Float))
      → ((r : ValidationResult) × (validate_request floats req policies ≡ ok r)
          × (r.decision ≡ Decision.approve))
        ↔ Permitted req policies
  validate_request_iff req policies = (
    λ (r, h, d). approve-Permitted req policies r h d,
    λ p. (approval_result none, Permitted-approve req policies p, refl),
  )

lookup-add_policies :
    {F : Type 0} (topic : String) (ps : List (NodePolicy F)) (d : Dict (NodePolicy F))
    → lookup topic (add_policies ps d) ≡ last_of topic ps (lookup topic d)
unfolding last_of
lookup-add_policies topic [] d = refl
lookup-add_policies topic (p ∷ ps) d =
    lookup-add_policies topic ps (insert p.uns_topic p d)
    ∙ ap (last_of topic ps) (ground (arith, lookup-insert p.uns_topic topic p d))

-- The policy of a topic is the last one that the file gives for it.
pub lookup-load_policy :
    {F : Type 0} (topic : String) (ps : List (NodePolicy F))
    → lookup topic (load_policy ps) ≡ last_of topic ps none
unfolding load_policy
lookup-load_policy topic ps = lookup-add_policies topic ps []
