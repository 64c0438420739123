-- ===== src/Kspt/Grammar/Conforms.antt =====
-- When a source has an encoding: the tests of the encoder, as conditions on the source.
use kaspa_portal.Base.{
  ℕ, zero, suc, ◌+◌, ◌≤◌, ◌<◌, ◌^◌, ◌≡◌, Bool, true, false, length, mark, unmarked, All,
}
use kaspa_portal.Kspt.Model.{
  Limits, Global, Signature, max_script_size, max_redeem_size, max_signature_records,
  supported_tx_version, valid_flags, valid_sighash, valid_network, valid_ms45, valid_derivation,
  valid_covenant_execution,
}
use kaspa_portal.Kspt.Encode.{EncodeSource}
use kaspa_portal.Kspt.Grammar.Trailer
use kaspa_portal.Kspt.Grammar.Trailer.{
  Trailer, network, ms45_input, ms45_output, stealth, covenant, covenant_execution,
  input_derivation, output_derivation, trailers,
}

-- P at i, i + 1, …, i + n - 1
abbrev pub Range : ℕ → ℕ → (ℕ → Type 0) → Type 0
Range zero i P = Unit {0}
Range (suc n) i P = P i × Range n (i + 1) P

pub record ValidGlobal (g : Global) (limits : Limits) : Type 0 where
  pub version : supported_tx_version g.version ≡ true
  pub flags : valid_flags g.flags ≡ true
  pub inputs : g.input_count ≤ limits.max_inputs
  pub outputs : g.output_count ≤ limits.max_outputs
  pub payload : length g.payload ≤ limits.max_payload

-- The signatures from a slot on: no position twice, and known sighash types.
abbrev pub GoodSlots : (ℕ → Signature) → ℕ → ℕ → (ℕ → Bool) → Type 0
GoodSlots signature zero slot seen = Unit {0}
GoodSlots signature (suc n) slot seen =
    (seen (signature slot).position ≡ false)
    × (valid_sighash (signature slot).sighash ≡ true)
    × GoodSlots signature n (slot + 1) (mark seen (signature slot).position)

pub record ValidInput (source : EncodeSource) (index : ℕ) : Type 0 where
  pub sig_op_count : (source.input index).sig_op_count ≤ max_signature_records
  pub script : length (source.input index).script ≤ max_script_size
  pub signature_count : source.signature_count index ≤ max_signature_records
  pub slots : GoodSlots (source.signature index) (source.signature_count index) 0 unmarked
  pub redeem : length (source.redeem index) ≤ max_redeem_size

abbrev pub Writable : Trailer → Type 0
Writable (network c) = valid_network c ≡ true
Writable (ms45_input i v) = (valid_ms45 v ≡ true) × (i ≤ 255)
Writable (ms45_output i v) = (valid_ms45 v ≡ true) × (i ≤ 255)
Writable (stealth t) = Unit {0}
Writable (covenant i v) = i ≤ 255
Writable (covenant_execution i v) = (valid_covenant_execution v ≡ true) × (i ≤ 255)
Writable (input_derivation i v) = (valid_derivation v ≡ true) × (i ≤ 255)
Writable (output_derivation i v) = (valid_derivation v ≡ true) × (i ≤ 255)

pub record Conforms (source : EncodeSource) (limits : Limits) : Type 0 where
  pub global : ValidGlobal source.global limits
  pub payload : length source.global.payload < 2 ^ 32
  pub inputs : Range source.global.input_count 0 (ValidInput source)
  pub outputs :
      Range source.global.output_count 0
        (λ index. length (source.output index).script ≤ max_script_size)
  pub trailers : All Writable (Trailer.trailers source)
