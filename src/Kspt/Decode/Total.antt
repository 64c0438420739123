-- ===== src/Kspt/Decode/Total.antt =====
-- The end of a decoding: how far each part of the decoder gets in its data.
use kaspa_portal.Base.{ℕ, zero, suc, Bool}
use kaspa_portal.Base.Bytes.{Bytes}
use kaspa_portal.Kspt.Model.{Limits}
use kaspa_portal.Kspt.Fields.Shrunk.{field_rules}
use kaspa_portal.Kspt.Decode
use kaspa_portal.Kspt.Decode.Sink.{DecodeSink}
use kaspa_portal.Kspt.Decode.Sink.Ends.{
  Ends, Ends-pure, ends_rules, Complete, Completes, Completes->>=, Completes->>-pure,
}
use kaspa_portal.Kspt.Decode.Trailers.Ended.{Completes-read_trailers}

module _ {E S : Type 0} (sink : DecodeSink E S) where
  Ends-read_signatures :
      (index n slot : ℕ) (seen : ℕ → Bool) → Ends (Decode.read_signatures sink index n slot seen)
  unfolding Decode.read_signatures
  Ends-read_signatures index zero slot seen = Ends-pure tt
  Ends-read_signatures index (suc n) slot seen =
      search (ends_rules, field_rules, Ends-read_signatures index n) depth 60

  Ends-read_redeem : (index : ℕ) → Ends (Decode.read_redeem sink index)
  unfolding Decode.read_redeem
  Ends-read_redeem index = search (ends_rules, field_rules) depth 60

  Ends-read_input : (index : ℕ) → Ends (Decode.read_input sink index)
  unfolding Decode.read_input
  Ends-read_input index =
      search (ends_rules, field_rules, Ends-read_signatures, Ends-read_redeem) depth 60

  Ends-read_inputs : (n index : ℕ) → Ends (Decode.read_inputs sink n index)
  unfolding Decode.read_inputs
  Ends-read_inputs zero index = Ends-pure tt
  Ends-read_inputs (suc n) index = search (ends_rules, Ends-read_input, Ends-read_inputs n) depth 60

  Ends-read_outputs : (n index : ℕ) → Ends (Decode.read_outputs sink n index)
  unfolding Decode.read_outputs
  Ends-read_outputs zero index = Ends-pure tt
  Ends-read_outputs (suc n) index = search (ends_rules, field_rules, Ends-read_outputs n) depth 60

  Completes-decode_envelope : (limits : Limits) → Completes (Decode.decode_envelope sink limits)
  unfolding Decode.decode_envelope
  Completes-decode_envelope limits =
      search
        (
          Completes->>=, Completes->>-pure, Completes-read_trailers, ends_rules, field_rules,
          Ends-read_inputs, Ends-read_outputs,
        )
        depth 60 fits 5000

  -- For every sink, every limits and every bytes, `decode` ends with a success or with a failure, and
  -- where it succeeds nothing is left to read: the fuel of the model never runs out.
  pub decode-Complete :
      (bs : Bytes) (s : S) (limits : Limits) → Complete (Decode.decode sink bs s limits)
  unfolding Decode.decode
  decode-Complete bs s limits = (Completes-decode_envelope limits).at bs s
