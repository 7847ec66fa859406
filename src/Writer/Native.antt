-- ===== src/Writer/Native.antt =====
-- services/actuation-signal-publisher/src/actuation_signal_publisher/native.py, and write_opcua_value of
-- service.py: the encoding of a value and the writes to a device.
use zilina_eirvah_edge_impl.Prelude.{
  ℕ, zero, suc, ◌+◌, ◌%◌, ◌≤◌, ◌<◌, refl, ◌≡◌, ◌≢◌, String, Bool, true, false, not, ◌&&◌, ◌||◌,
  List, [], ◌∷◌, ◌==◌, leb, is_some, some, if◌then◌else◌, arith,
}
use Prim.Native.String.{◌++◌ as ◌<>◌}
use text.Mathlib.TextEquality.{eq_iff}
use zilina_eirvah_edge_impl.Prelude.Exceptions.{Exc, Result, ok, err, check-inv}
use zilina_eirvah_edge_impl.Prelude.Exec.{Exec, pure, raise, lift, attempt, require, ◌>>=◌, ◌>>◌}
use zilina_eirvah_edge_impl.Prelude.Numbers.{ℤ, pos, negsuc, Floats, Value}
use zilina_eirvah_edge_impl.Prelude.Dict.{Dict, lookup, insert, lookup-insert}
use zilina_eirvah_edge_impl.Contracts.Actuation.{SignalValueType}
use zilina_eirvah_edge_impl.Validator.{has_type, to_float}
use zilina_eirvah_edge_impl.Writer.World.{Env, World, registers, block, node, send, read_ack}

pub data Protocol : Type 0 where
  modbus s7 : Protocol

pub record NativeTarget (F : Type 0) : Type 0 where
  pub protocol : Protocol
  pub command_address : ℕ
  pub operation : ℕ
  pub value_type : SignalValueType
  pub scale : ℕ
  pub minimum : F
  pub maximum : F
  pub db : ℕ

pub record WriteTarget : Type 0 where
  pub browse_names : List String

abbrev pub type_name : SignalValueType → String
type_name SignalValueType.double_type = "double"
type_name SignalValueType.int64_type = "int64"
type_name SignalValueType.bool_type = "bool"
type_name SignalValueType.string_type = "string"

module _ (floats : Floats) where
  open floats use {Float, le, is_finite, times, round, is_close}

  -- 0 <= raw <= 65535, and the encoding is that of the value
  abbrev pub encode_raw : Float → ℤ → Result ℕ
  encode_raw scaled (pos n) =
      if not (is_close scaled (pos n)) || not (leb n 65535)
      then err (Exc.value_error "value cannot be represented by target encoding")
      else ok n
  encode_raw scaled (negsuc n) =
      err (Exc.value_error "value cannot be represented by target encoding")

  abbrev pub encode_number : NativeTarget Float → Result Float → Result ℕ
  encode_number target (err e) = err e
  encode_number target (ok x) =
      if not (is_finite x) || not (le target.minimum x && le x target.maximum)
      then err (Exc.value_error "value outside native target range")
      else encode_raw (times x target.scale) (round (times x target.scale))

  -- encode_value
  unfoldable pub encode_value : NativeTarget Float → Value Float → Result ℕ
  encode_value target value =
      if not (has_type target.value_type value)
      then err (Exc.value_error ("expected " <> type_name target.value_type))
      else encode_number target (to_float floats value)

-- load_native_targets, of the entries that the file validates to, from those that are in already
unfoldable pub load_native_targets :
    {F : Type 0}
    → List (String × NativeTarget F)
    → Dict (NativeTarget F)
    → Result (Dict (NativeTarget F))
load_native_targets [] d = ok d
load_native_targets ((topic, target) ∷ entries) d =
    let rest = load_native_targets entries (insert topic target d) in
    if is_some (lookup topic d)
    then err (Exc.value_error ("duplicate native target: " <> topic))
    else rest

-- _sequence, with `random` for secrets.randbelow(65535)
unfoldable pub next_sequence : ℕ → ℕ → ℕ
next_sequence random previous =
    let sequence = random + 1 in
    if not (sequence == previous) then sequence else sequence % 65535 + 1

-- _check_ack
unfoldable pub check_ack : ℕ → ℕ × ℕ → Result Bool
check_ack sequence (seen, status) =
    if not (seen == sequence)
    then ok false
    else if not (status == 1)
    then err (Exc.value_error "device rejected command")
    else ok true

module _ {F : Type 0} (env : Env) where
  -- The loop that waits for the acknowledgement, with the polls that are left.
  unfoldable pub poll : Exc → String → ℕ → ℕ → Exec (World F) (Unit {0})
  poll failed timeout zero sequence = raise (Exc.timeout_error timeout)
  poll failed timeout (suc rounds) sequence = read_ack env failed >>= λ ack.
      lift (check_ack sequence ack) >>= λ done.
      if done then pure tt else poll failed timeout rounds sequence

  module _ (before_write : Exec (World F) (Unit {0})) where
    -- _write_modbus
    unfoldable pub write_modbus : NativeTarget F → ℕ → Exec (World F) (Unit {0})
    write_modbus target raw = lift env.connects >>= λ connected.
        require connected (Exc.connection_error "Modbus connection failed")
        >> (read_ack env (Exc.connection_error "Modbus acknowledgement read failed") >>= λ first.
            let sequence = next_sequence env.random first.0 in
            (before_write
              >> send env (registers (target.command_address + 1) (target.operation ∷ raw ∷ []))
                  (Exc.connection_error "Modbus write failed"))
            >> (before_write
                >> send env (registers target.command_address (sequence ∷ []))
                    (Exc.connection_error "Modbus write failed"))
            >> poll (Exc.connection_error "Modbus acknowledgement read failed")
                "device outcome unknown: Modbus acknowledgement timeout" env.rounds sequence)

    -- _write_s7: what snap7 refuses it raises itself
    unfoldable pub write_s7 : NativeTarget F → ℕ → Exec (World F) (Unit {0})
    write_s7 target raw = lift env.connects >>= λ _.
        read_ack env (Exc.other_error "RuntimeError") >>= λ first.
        let sequence = next_sequence env.random first.0 in
        (before_write
          >> send env (block target.db (target.command_address + 2) (target.operation ∷ raw ∷ []))
              (Exc.other_error "RuntimeError"))
        >> (before_write
            >> send env (block target.db target.command_address (sequence ∷ []))
                (Exc.other_error "RuntimeError"))
        >> poll (Exc.other_error "RuntimeError")
            "device outcome unknown: S7 acknowledgement timeout" env.rounds sequence

    abbrev pub by_protocol : Protocol → NativeTarget F → ℕ → Exec (World F) (Unit {0})
    by_protocol modbus target raw = write_modbus target raw
    by_protocol s7 target raw = write_s7 target raw

    -- write_opcua_value: the session is closed also when a write raises.
    unfoldable pub write_opcua : WriteTarget → Value F → Exec (World F) (Unit {0})
    write_opcua target value =
        lift env.opens
        >> attempt
            (before_write >> send env (node target.browse_names value) (Exc.other_error "UaError"))
            (λ _. lift env.closes) (λ e. lift env.closes >> raise e)

-- write_native_value
unfoldable pub write_native :
    (floats : Floats)
    → Env
    → Exec (World floats.Float) (Unit {0})
    → NativeTarget floats.Float
    → Value floats.Float
    → Exec (World floats.Float) (Unit {0})
write_native floats env before_write target value =
    lift (encode_value floats target value) >>= λ raw.
    by_protocol env before_write target.protocol target raw

-- The sequence of a command differs from the last one that the device acknowledged, and is a
-- nonzero word, so that the device can tell it from an idle mailbox.
pub next_sequence_fresh :
    (random previous : ℕ)
    → random < 65535
    → (next_sequence random previous ≢ previous)
      × (1 ≤ next_sequence random previous)
      × (next_sequence random previous ≤ 65535)
unfolding next_sequence
next_sequence_fresh random previous h = ground arith

encode_raw-inv :
    (floats : Floats) (scaled : floats.Float) (n : ℤ) (raw : ℕ)
    → encode_raw floats scaled n ≡ ok raw
    → (n ≡ pos raw) × (raw ≤ 65535)
encode_raw-inv floats scaled (pos n) raw h = (ground arith, ground arith)
encode_raw-inv floats scaled (negsuc n) raw h = absurd (cc)

-- The number behind an encoding.
abbrev pub Encodes :
    (floats : Floats) → NativeTarget floats.Float → Result floats.Float → ℕ → Type 0
Encodes floats target r raw =
    (x : floats.Float) × (r ≡ ok x)
    × (floats.is_finite x ≡ true)
    × (floats.le target.minimum x ≡ true)
    × (floats.le x target.maximum ≡ true)
    × (floats.round (floats.times x target.scale) ≡ pos raw)

encode_number-inv :
    (floats : Floats) (target : NativeTarget floats.Float) (r : Result floats.Float) (raw : ℕ)
    → encode_number floats target r ≡ ok raw
    → (raw ≤ 65535) × Encodes floats target r raw
encode_number-inv floats target (err e) raw h = absurd (cc)
encode_number-inv floats target (ok x) raw h =
    let (limits, h1) =
      check-inv (floats.is_finite x && (floats.le target.minimum x && floats.le x target.maximum))
        (Exc.value_error "value outside native target range")
        (encode_raw floats (floats.times x target.scale)
          (floats.round (floats.times x target.scale)))
        raw (ground arith) in
    let (e, fits) =
      encode_raw-inv floats (floats.times x target.scale)
        (floats.round (floats.times x target.scale)) raw h1 in
    (fits, (x, refl, ground arith, ground arith, ground arith, e))

-- A value that is encoded is of the target's type, a finite number within the target's limits, and
-- its encoding is a word: the rounded number, scaled.
pub encode_value-bounds :
    (floats : Floats) (target : NativeTarget floats.Float) (value : Value floats.Float) (raw : ℕ)
    → encode_value floats target value ≡ ok raw
    → (has_type target.value_type value ≡ true)
      × (raw ≤ 65535)
      × Encodes floats target (to_float floats value) raw
unfolding encode_value
encode_value-bounds floats target value raw h =
    let (typed, h1) = check-inv (has_type target.value_type value) _ _ raw h in
    let (fits, number) = encode_number-inv floats target (to_float floats value) raw h1 in
    (typed, fits, number)

load-kept :
    {F : Type 0} (topic : String) (target : NativeTarget F)
    (entries : List (String × NativeTarget F)) (d d' : Dict (NativeTarget F))
    → load_native_targets entries d ≡ ok d'
    → lookup topic d ≡ some target
    → lookup topic d' ≡ some target
unfolding load_native_targets
load-kept topic target [] d d' h e = ground (arith, h, e)
load-kept topic target ((t, x) ∷ entries) d d' h e = ground (
  arith,
  h,
  e,
  lookup-insert t topic x d,
  eq_iff topic t,
  load-kept topic target entries (insert t x d) d',
)

-- When the targets of a file are loaded, the first entry is the target of its topic: no later entry
-- replaces it.
pub lookup-load_native_targets :
    {F : Type 0} (topic : String) (target : NativeTarget F)
    (entries : List (String × NativeTarget F)) (d : Dict (NativeTarget F))
    → load_native_targets ((topic, target) ∷ entries) [] ≡ ok d
    → lookup topic d ≡ some target
unfolding load_native_targets
lookup-load_native_targets topic target entries d h =
    load-kept topic target entries (insert topic target []) d (ground (arith, h))
      (ground (arith, lookup-insert topic topic target [], eq_iff topic topic))
