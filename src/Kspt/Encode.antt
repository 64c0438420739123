-- ===== src/Kspt/Encode.antt =====
-- wire/encode.rs: the encoder of an envelope into a buffer of a given length.
mod Trailers
pub mod Grammatical
use kaspa_portal.Base.{
  ℕ, zero, suc, ◌+◌, ◌%◌, ◌^◌, Bool, not, Option, [], length, leb, ltb, mark, unmarked,
}
use kaspa_portal.Base.Bytes.{Bytes}
use kaspa_portal.Base.Outcome.{Result, ok, err}
use kaspa_portal.Kspt.Model.{
  WireError, count_overflow, redeem_too_long, too_many_signatures, duplicate_signature_position,
  invalid_sig_hash_type, invalid_flags, invalid_network, invalid_trailer, too_many_inputs,
  too_many_outputs, payload_too_long, unsupported_transaction_version, Limits, Global, Input,
  Signature, Output, Derivation, Ms45Derivation, CovenantExecution, Covenant, magic, kspt_version,
  max_signature_records, max_redeem_size, network_marker, ms45_input_marker, ms45_output_marker,
  stealth_marker, covenant_marker, covenant_execution_marker, input_derivation_marker,
  output_derivation_marker, valid_flags, valid_sighash, valid_network, valid_derivation, valid_ms45,
  valid_covenant_execution, supported_tx_version, allows_inputs, allows_outputs, allows_payload,
}
use kaspa_portal.Kspt.Writer
use kaspa_portal.Kspt.Writer.{Writer, Write, ◌>>◌, ensure, for_range, if_some}

pub record EncodeSource : Type 0 where
  pub global : Global
  pub input : ℕ → Input
  pub signature_count : ℕ → ℕ
  pub signature : ℕ → ℕ → Signature
  pub redeem : ℕ → Bytes
  pub output : ℕ → Output
  pub network : ℕ
  pub stealth : Option Bytes
  pub input_derivation : ℕ → Option Derivation
  pub output_derivation : ℕ → Option Derivation
  pub input_ms45 : ℕ → Option Ms45Derivation
  pub output_ms45 : ℕ → Option Ms45Derivation
  pub covenant : ℕ → Option Covenant
  pub covenant_execution : ℕ → Option CovenantExecution

pub validate_global : Global → Limits → Write
validate_global global limits = do
  ensure (supported_tx_version global.version) unsupported_transaction_version
  ensure (valid_flags global.flags) invalid_flags
  ensure (allows_inputs limits global.input_count) too_many_inputs
  ensure (allows_outputs limits global.output_count) too_many_outputs
  ensure (allows_payload limits (length global.payload)) payload_too_long

pub write_header : ℕ → Write
write_header flags = do Writer.bytes magic; Writer.u8 kspt_version; Writer.u8 flags

pub write_global : Global → Write
write_global value = do
  Writer.u16 value.version
  Writer.u32 value.input_count
  Writer.u8 value.output_count
  Writer.u64 value.locktime
  Writer.bytes value.subnetwork_id
  Writer.u64 value.gas
  ensure (ltb (length value.payload) (2 ^ 32)) count_overflow
  Writer.u32 (length value.payload)
  Writer.bytes value.payload

pub write_input_value : Input → Write
write_input_value value = do
  ensure (leb value.sig_op_count max_signature_records) too_many_signatures
  Writer.bytes value.previous_tx_id
  Writer.u32 value.previous_index
  Writer.u64 value.amount
  Writer.u64 value.sequence
  Writer.u8 value.sig_op_count
  Writer.u16 value.script_version
  Writer.script value.script

pub write_signature : Signature → (ℕ → Bool) → Write
write_signature signature seen = do
  ensure (not (seen signature.position)) duplicate_signature_position
  ensure (valid_sighash signature.sighash) invalid_sig_hash_type
  Writer.u8 signature.position
  Writer.u8 signature.sighash
  Writer.bytes signature.bytes

-- A redeem script that passed the first test fits u16.
pub write_redeem : Bytes → Write
write_redeem redeem = do
  ensure (leb (length redeem) max_redeem_size) redeem_too_long
  Writer.u16 (length redeem)
  Writer.bytes redeem

pub write_output : Output → Write
write_output value = do
  Writer.u64 value.amount
  Writer.u16 value.script_version
  Writer.script value.script

-- `writer.u8(position(index)?)`
pub write_position : ℕ → Write
write_position index = do ensure (leb index 255) count_overflow; Writer.u8 index

pub write_network : ℕ → Write
write_network code = do
  ensure (valid_network code) invalid_network
  Writer.u8 network_marker
  Writer.u8 code

pub write_derivation : ℕ → ℕ → Derivation → Write
write_derivation marker index value = do
  ensure (valid_derivation value) invalid_trailer
  Writer.u8 marker
  write_position index
  Writer.u8 value.branch
  Writer.u32 value.index

pub write_ms45 : ℕ → ℕ → Ms45Derivation → Write
write_ms45 marker index value = do
  ensure (valid_ms45 value) invalid_trailer
  Writer.u8 marker
  write_position index
  Writer.u32 value.cosigner
  Writer.u32 value.chain
  Writer.u32 value.index

pub write_covenant : ℕ → Covenant → Write
write_covenant index value = do
  Writer.u8 covenant_marker
  write_position index
  Writer.u16 value.authorizing_input
  Writer.bytes value.id

-- the body of the loop in `write_covenant_execution_trailers`
pub write_covenant_execution : ℕ → CovenantExecution → Write
write_covenant_execution index value = do
  ensure (valid_covenant_execution value) invalid_trailer
  Writer.u8 covenant_execution_marker
  write_position index
  Writer.u16 value.supplied_mask
  Writer.u16 value.supplied_true_mask

pub write_stealth : Option Bytes → Write
write_stealth value = if_some value λ tweak. do Writer.u8 stealth_marker; Writer.bytes tweak

module _ (source : EncodeSource) where
  -- `for slot in 0..count`, with the table `seen`
  pub write_signature_slots : ℕ → ℕ → ℕ → (ℕ → Bool) → Write
  write_signature_slots input zero slot seen = Writer.done
  write_signature_slots input (suc n) slot seen = do
    write_signature (source.signature input slot) seen
    write_signature_slots input n (slot + 1) (mark seen (source.signature input slot).position)

  -- `count as u8` is exact behind the test.
  pub write_signatures : ℕ → Write
  write_signatures index = do
    ensure (leb (source.signature_count index) max_signature_records) too_many_signatures
    Writer.u8 (source.signature_count index % 256)
    write_signature_slots index (source.signature_count index) 0 unmarked

  pub write_input : ℕ → Write
  write_input index = do
    write_input_value (source.input index)
    write_signatures index
    write_redeem (source.redeem index)

  pub write_ms45_trailers : ℕ → ℕ → Write
  write_ms45_trailers inputs outputs = do
    for_range inputs 0
        λ index. if_some (source.input_ms45 index) (write_ms45 ms45_input_marker index)
    for_range outputs 0
        λ index. if_some (source.output_ms45 index) (write_ms45 ms45_output_marker index)

  pub write_covenant_trailers : ℕ → Write
  write_covenant_trailers outputs =
      for_range outputs 0 λ index. if_some (source.covenant index) (write_covenant index)

  pub write_covenant_execution_trailers : ℕ → Write
  write_covenant_execution_trailers inputs =
      for_range inputs 0
        λ index. if_some (source.covenant_execution index) (write_covenant_execution index)

  pub write_derivation_trailers : ℕ → ℕ → Write
  write_derivation_trailers inputs outputs = do
    for_range inputs 0 λ index.
        if_some (source.input_derivation index) (write_derivation input_derivation_marker index)
    for_range outputs 0 λ index.
        if_some (source.output_derivation index) (write_derivation output_derivation_marker index)

  pub write_trailers : ℕ → ℕ → Write
  write_trailers inputs outputs = do
    write_network source.network
    write_ms45_trailers inputs outputs
    write_stealth source.stealth
    write_covenant_trailers outputs
    write_covenant_execution_trailers inputs
    write_derivation_trailers inputs outputs

  -- `encode`, on a writer at the start of its buffer
  pub write_envelope : Limits → Write
  write_envelope limits = do
    validate_global source.global limits
    write_header source.global.flags
    write_global source.global
    for_range source.global.input_count 0 write_input
    for_range source.global.output_count 0 λ index. write_output (source.output index)
    write_trailers source.global.input_count source.global.output_count

written : Result WireError Writer → Result WireError Bytes
written (ok w) = ok w.written
written (err e) = err e

-- `encode`: the bytes that it leaves at the front of a buffer of that length.
pub encode : EncodeSource → ℕ → Limits → Result WireError Bytes
unfolding written
encode source capacity limits =
    written (write_envelope source limits (record { written = []; capacity = capacity }))
