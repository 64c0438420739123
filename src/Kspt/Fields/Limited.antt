-- ===== src/Kspt/Fields/Limited.antt =====
-- The global data that is read is within the limits.
use kaspa_portal.Base.{ℕ, ◌≤◌, length, leb→le, arith}
use kaspa_portal.Base.Bytes.{Bytes}
use kaspa_portal.Kspt.Fields.{
  GlobalPrefix, read_global_counts, read_global_tail, read_global_prefix, read_global,
}
use kaspa_portal.Kspt.Model.{
  Limits, Global, allows_inputs, allows_outputs, allows_payload, supported_tx_version,
  unsupported_transaction_version, too_many_inputs, too_many_outputs, payload_too_long,
}
use kaspa_portal.Kspt.Reader.{ensure, bytes, u8, u16, u32, u64}
use kaspa_portal.Kspt.Reader.Yields.{
  Yields, Yields->>=, Yields-any, Yields-pure, Yields-ensure, Yields-bytes,
}

pub record WithinLimits (limits : Limits) (g : Global) : Type 0 where
  pub inputs : g.input_count ≤ limits.max_inputs
  pub outputs : g.output_count ≤ limits.max_outputs
  pub payload : length g.payload ≤ limits.max_payload

abbrev pub FewPrefix : Limits → GlobalPrefix → Type 0
FewPrefix limits prefix =
    (prefix.input_count ≤ limits.max_inputs)
    × (prefix.output_count ≤ limits.max_outputs)
    × (prefix.payload_len ≤ limits.max_payload)

module _ (limits : Limits) where
  Yields-read_global_counts :
      Yields
        (λ (v : ℕ × ℕ × ℕ). (v.1 ≤ limits.max_inputs) × (v.2 ≤ limits.max_outputs))
        (read_global_counts limits)
  unfolding read_global_counts allows_inputs allows_outputs
  Yields-read_global_counts = Yields->>= (Yields-any u16) λ version _.
      Yields->>=
        (Yields-any (ensure (supported_tx_version version) unsupported_transaction_version))
        λ _ _. Yields->>= (Yields-any u32) λ inputs _.
          Yields->>= (Yields-ensure (allows_inputs limits inputs) too_many_inputs) λ _ h.
            Yields->>= (Yields-any u8) λ outputs _.
              Yields->>= (Yields-ensure (allows_outputs limits outputs) too_many_outputs)
                λ _ g. Yields-pure _ _ (leb→le _ _ h, leb→le _ _ g)

  Yields-read_global_tail :
      Yields (λ (v : ℕ × Bytes × ℕ × ℕ). v.3 ≤ limits.max_payload) (read_global_tail limits)
  unfolding read_global_tail allows_payload
  Yields-read_global_tail = Yields->>= (Yields-any u64) λ _ _.
      Yields->>= (Yields-any (bytes 20)) λ _ _. Yields->>= (Yields-any u64) λ _ _.
        Yields->>= (Yields-any u32) λ len _.
          Yields->>= (Yields-ensure (allows_payload limits len) payload_too_long)
            λ _ h. Yields-pure _ _ (leb→le _ _ h)

  pub Yields-read_global_prefix : Yields (FewPrefix limits) (read_global_prefix limits)
  unfolding read_global_prefix
  Yields-read_global_prefix =
      Yields->>= Yields-read_global_counts
        λ counts h. Yields->>= Yields-read_global_tail λ tail g. Yields-pure _ _ (h.0, h.1, g)

  pub Yields-read_global :
      (flags : ℕ) (prefix : GlobalPrefix)
      → FewPrefix limits prefix
      → Yields (WithinLimits limits) (read_global flags prefix)
  unfolding read_global
  Yields-read_global flags prefix (inputs, outputs, payload) =
      Yields->>= (Yields-bytes prefix.payload_len) λ _ h.
        Yields-pure _ _ (record { inputs = inputs; outputs = outputs; payload = omega arith })
