-- ===== src/Kspt/Decode.antt =====
-- wire/decode.rs and its children: the envelope, read into a sink. The loop over the trailers takes
-- fuel, and `stuck` says that it ran out.
pub mod Sink
pub mod Trailers
pub mod Body
pub mod RoundTrip
pub mod Total
pub mod Injective
pub mod Calls
use kaspa_portal.Base.{ℕ, zero, suc, ◌+◌, Bool, mark, unmarked}
use kaspa_portal.Base.Bytes.{Bytes}
use kaspa_portal.Base.Outcome.{Result, ok, err}
use kaspa_portal.Kspt.Model.{Limits}
use kaspa_portal.Kspt.Fields.{
  read_header, read_global_prefix, read_global, validate_input_capacity, read_input_value,
  read_signature_count, read_signature, read_redeem_bytes, read_output_value,
}
use Sink.{DecodeSink, Decoder, Outcome, ◌>>=◌, ◌>>◌, pure, lift, call}
use Trailers.{read_trailers}

module _ {E S : Type 0} (sink : DecodeSink E S) where
  -- `for slot in slot..slot + n`, with the table `seen`
  pub read_signatures : ℕ → ℕ → ℕ → (ℕ → Bool) → Decoder E S (Unit {0})
  read_signatures index zero slot seen = pure tt
  read_signatures index (suc n) slot seen = do
    signature ← lift (read_signature seen)
    call (sink.signature index slot signature)
    read_signatures index n (slot + 1) (mark seen signature.position)

  pub read_redeem : ℕ → Decoder E S (Unit {0})
  read_redeem index = do redeem ← lift read_redeem_bytes; call (sink.redeem index redeem)

  pub read_input : ℕ → Decoder E S (Unit {0})
  read_input index = do
    input ← lift read_input_value
    signature_count ← lift read_signature_count
    call (sink.input index input signature_count)
    read_signatures index signature_count 0 unmarked
    read_redeem index

  -- `for index in index..index + n`
  pub read_inputs : ℕ → ℕ → Decoder E S (Unit {0})
  read_inputs zero index = pure tt
  read_inputs (suc n) index = do read_input index; read_inputs n (index + 1)

  pub read_outputs : ℕ → ℕ → Decoder E S (Unit {0})
  read_outputs zero index = pure tt
  read_outputs (suc n) index = do
    output ← lift read_output_value
    call (sink.output index output)
    read_outputs n (index + 1)

  pub decode_envelope : Limits → Decoder E S ℕ
  decode_envelope limits = do
    flags ← lift read_header
    prefix ← lift (read_global_prefix limits)
    global ← lift (read_global flags prefix)
    lift (validate_input_capacity global.input_count)
    call (sink.global global)
    read_inputs global.input_count 0
    read_outputs global.output_count 0
    read_trailers sink global.input_count global.output_count
    pure flags

  -- `decode`; a success leaves nothing to read, and its value is the flags of the envelope.
  pub decode : Bytes → S → Limits → Outcome E S ℕ
  decode bs s limits = decode_envelope limits bs s

-- `NullSink`
unfoldable pub null_sink : {E : Type 0} → DecodeSink E (Unit {0})
null_sink = record {
  global = λ _ s. (ok tt, s);
  input = λ _ _ _ s. (ok tt, s);
  signature = λ _ _ _ s. (ok tt, s);
  redeem = λ _ _ s. (ok tt, s);
  output = λ _ _ s. (ok tt, s);
  network = λ _ s. (ok tt, s);
  stealth = λ _ s. (ok tt, s);
  input_derivation = λ _ _ s. (ok tt, s);
  output_derivation = λ _ _ s. (ok tt, s);
  input_ms45 = λ _ _ s. (ok tt, s);
  output_ms45 = λ _ _ s. (ok tt, s);
  covenant = λ _ _ _ s. (ok tt, s);
  covenant_execution = λ _ _ s. (ok tt, s);
}

-- `validate`, whose sink cannot fail: `Infallible` is ⊥.
pub validate : Bytes → Limits → Outcome ⊥ (Unit {0}) ℕ
validate bs limits = decode null_sink bs tt limits
