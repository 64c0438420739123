-- ===== src/Kspt/Fields/Parsed.antt =====
-- Each field of the envelope reads back from its bytes in the grammar.
use kaspa_portal.Base.{
  ℕ, ◌≤◌, ◌<◌, ◌^◌, ◌≡◌, refl, true, false, not, Bool, ◌++◌, length, arith, le→leb,
}
use kaspa_portal.Base.Bytes.{Bytes}
use kaspa_portal.Kspt.Model.{
  Limits, Global, Input, Signature, Output, Derivation, Ms45Derivation, CovenantExecution,
  allows_inputs, allows_outputs, allows_payload, valid_flags, valid_sighash, valid_derivation,
  valid_ms45, valid_covenant_execution, max_signature_records, max_script_size, max_redeem_size,
  magic,
}
use kaspa_portal.Kspt.Reader.Parses.{
  Parses, Parses-pure, Parses->>=, Parses->>=_last, Parses-ensure, Parses-bytes, Parses-u8,
  Parses-word, Parses-script,
}
use kaspa_portal.Kspt.Fields.{
  GlobalPrefix, same_bytes, read_header, read_global_counts, read_global_tail, read_global_prefix,
  read_global, read_input_value, read_signature_count, read_signature, read_redeem_bytes,
  read_output_value, read_derivation_body, read_ms45_body, read_covenant_execution_body,
}
use kaspa_portal.Kspt.Grammar.{
  header_bytes, counts_bytes, tail_bytes, input_bytes, signature_bytes, redeem_bytes, output_bytes,
}
use kaspa_portal.Kspt.Grammar.Conforms.{ValidGlobal}
use kaspa_portal.Kspt.Grammar.Typed.{TypedGlobal, TypedInput, TypedOutput, IsU32}
use kaspa_portal.Kspt.Grammar.Trailer.{byte, derivation_bytes, ms45_bytes, execution_bytes}

pub Parses-header :
    (flags : ℕ) → valid_flags flags ≡ true → Parses read_header (header_bytes flags) flags
unfolding read_header header_bytes same_bytes
Parses-header flags h = Parses->>= _ (Parses-bytes magic 4 refl) (
    Parses-ensure _ _ refl (
      Parses->>= _ (Parses-u8 1) (
        Parses-ensure _ _ refl
          (Parses->>=_last _ (Parses-u8 flags) (Parses-ensure _ _ h (Parses-pure flags))))))

-- What the decoder holds of a global before its payload.
abbrev pub prefix_of : Global → GlobalPrefix
prefix_of g = record {
  version = g.version;
  input_count = g.input_count;
  output_count = g.output_count;
  locktime = g.locktime;
  subnetwork_id = g.subnetwork_id;
  gas = g.gas;
  payload_len = length g.payload;
}

module _ {g : Global} {limits : Limits} (t : TypedGlobal g) (v : ValidGlobal g limits) where
  Parses-counts :
      Parses (read_global_counts limits) (counts_bytes g) (g.version, g.input_count, g.output_count)
  unfolding read_global_counts counts_bytes allows_inputs allows_outputs
  Parses-counts = Parses->>= _ (Parses-word 2 _ t.version) (
      Parses-ensure _ _ v.version (
        Parses->>= _ (Parses-word 4 _ t.input_count) (
          Parses-ensure _ _ (le→leb _ _ v.inputs) (
            Parses->>=_last _ (Parses-u8 _)
              (Parses-ensure _ _ (le→leb _ _ v.outputs) (Parses-pure _))))))

  Parses-tail :
      IsU32 (length g.payload)
      → Parses
          (read_global_tail limits)
          (tail_bytes g)
          (g.locktime, g.subnetwork_id, g.gas, length g.payload)
  unfolding read_global_tail tail_bytes allows_payload
  Parses-tail p = Parses->>= _ (Parses-word 8 _ t.locktime) (
      Parses->>= _ (Parses-bytes _ 20 t.subnetwork_id) (
        Parses->>= _ (Parses-word 8 _ t.gas) (
          Parses->>=_last _ (Parses-word 4 _ p)
            (Parses-ensure _ _ (le→leb _ _ v.payload) (Parses-pure _)))))

  pub Parses-prefix :
      IsU32 (length g.payload)
      → Parses (read_global_prefix limits) (counts_bytes g ++ tail_bytes g) (prefix_of g)
  unfolding read_global_prefix
  Parses-prefix p = Parses->>= _ Parses-counts (Parses->>=_last _ (Parses-tail p) (Parses-pure _))

pub Parses-global : (g : Global) → Parses (read_global g.flags (prefix_of g)) g.payload g
unfolding read_global
Parses-global g = Parses->>=_last _ (Parses-bytes _ _ refl) (Parses-pure _)

pub Parses-input_value :
    (v : Input)
    → TypedInput v
    → v.sig_op_count ≤ max_signature_records
    → length v.script ≤ max_script_size
    → Parses read_input_value (input_bytes v) v
unfolding read_input_value input_bytes
Parses-input_value v t s l = Parses->>= _ (Parses-bytes _ 32 t.previous_tx_id) (
    Parses->>= _ (Parses-word 4 _ t.previous_index) (
      Parses->>= _ (Parses-word 8 _ t.amount) (
        Parses->>= _ (Parses-word 8 _ t.sequence) (
          Parses->>= _ (Parses-u8 _) (
            Parses-ensure _ _ (le→leb _ _ s) (
              Parses->>= _ (Parses-word 2 _ t.script_version)
                (Parses->>=_last _ (Parses-script _ l) (Parses-pure _))))))))

pub Parses-signature_count :
    (n : ℕ) → n ≤ max_signature_records → Parses read_signature_count (byte n) n
unfolding read_signature_count
Parses-signature_count n h =
    Parses->>=_last _ (Parses-u8 n) (Parses-ensure _ _ (le→leb _ _ h) (Parses-pure n))

not-false : (b : Bool) → b ≡ false → not b ≡ true
not-false b h = ground arith

pub Parses-signature :
    (v : Signature) (seen : ℕ → Bool)
    → length v.bytes ≡ 64
    → seen v.position ≡ false
    → valid_sighash v.sighash ≡ true
    → Parses (read_signature seen) (signature_bytes v) v
unfolding read_signature signature_bytes
Parses-signature v seen l s h = Parses->>= _ (Parses-u8 _) (
    Parses-ensure _ _ (not-false _ s) (
      Parses->>= _ (Parses-u8 _)
        (Parses-ensure _ _ h (Parses->>=_last _ (Parses-bytes _ 64 l) (Parses-pure _)))))

pub Parses-redeem :
    (v : Bytes) → length v ≤ max_redeem_size → Parses read_redeem_bytes (redeem_bytes v) v
unfolding read_redeem_bytes redeem_bytes
Parses-redeem v h =
    Parses->>= _ (Parses-word 2 _ (omega arith))
      (Parses-ensure _ _ (le→leb _ _ h) (Parses-bytes v _ refl))

pub Parses-output :
    (v : Output)
    → TypedOutput v
    → length v.script ≤ max_script_size
    → Parses read_output_value (output_bytes v) v
unfolding read_output_value output_bytes
Parses-output v t l = Parses->>= _ (Parses-word 8 _ t.amount) (
    Parses->>= _ (Parses-word 2 _ t.script_version)
      (Parses->>=_last _ (Parses-script _ l) (Parses-pure _)))

pub Parses-derivation :
    (v : Derivation)
    → IsU32 v.index
    → valid_derivation v ≡ true
    → Parses read_derivation_body (derivation_bytes v) v
unfolding read_derivation_body derivation_bytes
Parses-derivation v t h =
    Parses->>= _ (Parses-u8 _)
      (Parses->>=_last _ (Parses-word 4 _ t) (Parses-ensure _ _ h (Parses-pure _)))

pub Parses-ms45 :
    (v : Ms45Derivation)
    → IsU32 v.cosigner × IsU32 v.chain × IsU32 v.index
    → valid_ms45 v ≡ true
    → Parses read_ms45_body (ms45_bytes v) v
unfolding read_ms45_body ms45_bytes
Parses-ms45 v (a, b, c) h = Parses->>= _ (Parses-word 4 _ a) (
    Parses->>= _ (Parses-word 4 _ b)
      (Parses->>=_last _ (Parses-word 4 _ c) (Parses-ensure _ _ h (Parses-pure _))))

pub Parses-covenant_execution :
    (v : CovenantExecution)
    → (v.supplied_mask < 2 ^ 16) × (v.supplied_true_mask < 2 ^ 16)
    → valid_covenant_execution v ≡ true
    → Parses read_covenant_execution_body (execution_bytes v) v
unfolding read_covenant_execution_body execution_bytes
Parses-covenant_execution v (a, b) h =
    Parses->>= _ (Parses-word 2 _ a)
      (Parses->>=_last _ (Parses-word 2 _ b) (Parses-ensure _ _ h (Parses-pure _)))
