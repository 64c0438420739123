-- ===== src/Kspt/Fields.antt =====
-- The readers of wire/decode.rs, decode/inputs.rs and decode/trailers.rs that pass nothing on to the
-- sink.
pub mod Parsed
pub mod Shrunk
pub mod Limited
use kaspa_portal.Base.{
  ℕ, ◌+◌, not, Bool, true, false, Option, none, some, length, leb, ltb, ◌&&◌, ◌||◌, if◌then◌else◌,
  List, [], ◌∷◌, ◌==◌,
}
use kaspa_portal.Base.Bytes.{Bytes}
use kaspa_portal.Base.Checked.{checked_mul}
use kaspa_portal.Kspt.Model.{
  invalid_magic, unsupported_version, invalid_flags, too_many_inputs, too_many_outputs,
  payload_too_long, unsupported_transaction_version, count_overflow, too_many_signatures,
  duplicate_signature_position, invalid_sig_hash_type, redeem_too_long, invalid_trailer, Limits,
  Global, Input, Signature, Output, Derivation, Ms45Derivation, CovenantExecution, magic,
  kspt_version, valid_flags, supported_tx_version, allows_inputs, allows_outputs, allows_payload,
  max_signature_records, max_redeem_size, valid_sighash, valid_derivation, valid_ms45,
  valid_covenant_execution,
}
use kaspa_portal.Kspt.Reader
use kaspa_portal.Kspt.Reader.{Reader, ◌>>=◌, ◌>>◌, pure, ensure, u8, u16, u32, u64, script}

-- equality of byte strings
pub same_bytes : Bytes → Bytes → Bool
same_bytes [] [] = true
same_bytes (x ∷ xs) (y ∷ ys) = x == y && same_bytes xs ys
same_bytes _ _ = false

pub read_header : Reader ℕ
read_header = do
  m ← Reader.bytes 4
  ensure (same_bytes m magic) invalid_magic
  version ← u8
  ensure (version == kspt_version) unsupported_version
  flags ← u8
  ensure (valid_flags flags) invalid_flags
  pure flags

pub record GlobalPrefix : Type 0 where
  pub version : ℕ
  pub input_count : ℕ
  pub output_count : ℕ
  pub locktime : ℕ
  pub subnetwork_id : Bytes
  pub gas : ℕ
  pub payload_len : ℕ

pub read_global_counts : Limits → Reader (ℕ × ℕ × ℕ)
read_global_counts limits = do
  version ← u16
  ensure (supported_tx_version version) unsupported_transaction_version
  input_count ← u32
  ensure (allows_inputs limits input_count) too_many_inputs
  output_count ← u8
  ensure (allows_outputs limits output_count) too_many_outputs
  pure (version, input_count, output_count)

pub read_global_tail : Limits → Reader (ℕ × Bytes × ℕ × ℕ)
read_global_tail limits = do
  locktime ← u64
  subnetwork_id ← Reader.bytes 20
  gas ← u64
  payload_len ← u32
  ensure (allows_payload limits payload_len) payload_too_long
  pure (locktime, subnetwork_id, gas, payload_len)

pub read_global_prefix : Limits → Reader GlobalPrefix
read_global_prefix limits = do
  counts ← read_global_counts limits
  tail ← read_global_tail limits
  pure (record {
    version = counts.0;
    input_count = counts.1;
    output_count = counts.2;
    locktime = tail.0;
    subnetwork_id = tail.1;
    gas = tail.2;
    payload_len = tail.3;
  })

pub read_global : ℕ → GlobalPrefix → Reader Global
read_global flags prefix = do
  payload ← Reader.bytes prefix.payload_len
  pure (record {
    flags = flags;
    version = prefix.version;
    input_count = prefix.input_count;
    output_count = prefix.output_count;
    locktime = prefix.locktime;
    subnetwork_id = prefix.subnetwork_id;
    gas = prefix.gas;
    payload = payload;
  })

abbrev pub min_input_wire_bytes : ℕ
min_input_wire_bytes = 59

capacity_check : Option ℕ → Reader (Unit {0})
capacity_check none bs = Reader.reject count_overflow bs
capacity_check (some minimum) bs = Reader.ensure (leb minimum (length bs)) count_overflow bs

-- `remaining` is the length of what is left to read.
unfoldable pub validate_input_capacity : ℕ → Reader (Unit {0})
unfolding capacity_check
validate_input_capacity count = capacity_check (checked_mul count min_input_wire_bytes)

pub read_input_value : Reader Input
read_input_value = do
  previous_tx_id ← Reader.bytes 32
  previous_index ← u32
  amount ← u64
  sequence ← u64
  sig_op_count ← u8
  ensure (leb sig_op_count max_signature_records) too_many_signatures
  script_version ← u16
  script_bytes ← script
  pure (record {
    previous_tx_id = previous_tx_id;
    previous_index = previous_index;
    amount = amount;
    sequence = sequence;
    sig_op_count = sig_op_count;
    script_version = script_version;
    script = script_bytes;
  })

pub read_signature_count : Reader ℕ
read_signature_count = do
  count ← u8
  ensure (leb count max_signature_records) too_many_signatures
  pure count

-- The caller marks the position in `seen`.
pub read_signature : (ℕ → Bool) → Reader Signature
read_signature seen = do
  position ← u8
  ensure (not (seen position)) duplicate_signature_position
  sighash ← u8
  ensure (valid_sighash sighash) invalid_sig_hash_type
  signature ← Reader.bytes 64
  pure (record { position = position; sighash = sighash; bytes = signature })

-- `read_redeem` up to the call of the sink
pub read_redeem_bytes : Reader Bytes
read_redeem_bytes = do
  redeem_len ← u16
  ensure (leb redeem_len max_redeem_size) redeem_too_long
  Reader.bytes redeem_len

pub read_output_value : Reader Output
read_output_value = do
  amount ← u64
  script_version ← u16
  script_bytes ← script
  pure (record { amount = amount; script_version = script_version; script = script_bytes })

pub read_derivation_body : Reader Derivation
read_derivation_body = do
  branch ← u8
  index ← u32
  let value : Derivation = record { branch = branch; index = index }
  ensure (valid_derivation value) invalid_trailer
  pure value

pub read_ms45_body : Reader Ms45Derivation
read_ms45_body = do
  cosigner ← u32
  chain ← u32
  index ← u32
  let value : Ms45Derivation = record { cosigner = cosigner; chain = chain; index = index }
  ensure (valid_ms45 value) invalid_trailer
  pure value

-- the record of `read_covenant_execution`
pub read_covenant_execution_body : Reader CovenantExecution
read_covenant_execution_body = do
  supplied ← u16
  supplied_true ← u16
  let value : CovenantExecution = record {
    supplied_mask = supplied;
    supplied_true_mask = supplied_true;
  }
  ensure (valid_covenant_execution value) invalid_trailer
  pure value
