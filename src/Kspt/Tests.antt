-- ===== src/Kspt/Tests.antt =====
-- A small source with most kinds of records, on which the theorems of the codec are applied.
use kaspa_portal.Base.{
  leb, if◌then◌else◌, arith, ℕ, zero, suc, ◌≤◌, ◌≡◌, refl, none, some, [], ◌∷◌, length, All,
}
use kaspa_portal.Base.Bytes.{Bytes, to_le_bytes}
use kaspa_portal.Base.Outcome.{ok}
use kaspa_portal.Kspt.Model.{
  Limits, supported_tx_version, valid_flags, valid_sighash, valid_network, valid_ms45,
  valid_derivation, valid_covenant_execution,
}
use kaspa_portal.Kspt.Encode.{EncodeSource, encode}
use kaspa_portal.Kspt.Encode.Grammatical.{encode-eq-ok}
use kaspa_portal.Kspt.Decode.{decode, null_sink}
use kaspa_portal.Kspt.Decode.Sink.Ends.{Complete}
use kaspa_portal.Kspt.Decode.Sink.Delivers.{deliver}
use kaspa_portal.Kspt.Decode.Body.{events}
use kaspa_portal.Kspt.Decode.Calls.{AreInRange, calls_of, decode-AreInRange}
use kaspa_portal.Kspt.Decode.Sink.Log.{log_sink}
use kaspa_portal.Kspt.Decode.Injective.{encode-injective}
use kaspa_portal.Kspt.Decode.RoundTrip.{decode-encode}
use kaspa_portal.Kspt.Decode.Total.{decode-Complete}
use kaspa_portal.Kspt.Grammar.{
  script_len_bytes, script_bytes, header_bytes, counts_bytes, tail_bytes, global_bytes, input_bytes,
  signature_bytes, redeem_bytes, output_bytes, concat_range, signatures_bytes, input_record_bytes,
  envelope_bytes,
}
use kaspa_portal.Kspt.Grammar.Conforms.{Conforms, ValidInput}
use kaspa_portal.Kspt.Grammar.Typed.{Typed, Linked}
use kaspa_portal.Kspt.Grammar.Trailer.{
  byte, marker, derivation_bytes, ms45_bytes, execution_bytes, body_bytes, trailer_bytes,
  trailers_bytes, prepend, gather, stealth_trailer, trailers,
}

abbrev fill : ℕ → ℕ → Bytes
fill zero v = []
fill (suc n) v = v ∷ fill n v

-- two inputs, two outputs, and a record of every kind but MS45 outputs
abbrev source : EncodeSource
source = record {
  global = record {
    flags = 1;
    version = 1;
    input_count = 2;
    output_count = 2;
    locktime = 7;
    subnetwork_id = fill 20 0;
    gas = 0;
    payload = 1 ∷ 2 ∷ 3 ∷ [];
  };
  input = λ i. record {
    previous_tx_id = fill 32 5;
    previous_index = 1;
    amount = 5000;
    sequence = 9;
    sig_op_count = 1;
    script_version = 0;
    script = 0x51 ∷ [];
  };
  signature_count = λ i. 1;
  signature = λ i j. record { position = j; sighash = 0x01; bytes = fill 64 6 };
  redeem = λ i. 0x52 ∷ [];
  output = λ i. record { amount = 4000; script_version = 0; script = 0x53 ∷ [] };
  network = 1;
  stealth = some (fill 32 8);
  input_derivation = λ i. some (record { branch = 0; index = 3 });
  output_derivation = λ i. some (record { branch = 1; index = 4 });
  input_ms45 = λ i. some (record { cosigner = 1; chain = 0; index = 2 });
  output_ms45 = λ i. none;
  covenant = λ i. some (record { authorizing_input = 1; id = fill 32 9 });
  covenant_execution = λ i. some (record { supplied_mask = 3; supplied_true_mask = 1 });
}

abbrev limits : Limits
limits = record { max_inputs = 10; max_outputs = 10; max_payload = 100 }

source-Typed : Typed source
unfolding trailers gather prepend stealth_trailer
source-Typed = record {
  global = record {
    version = omega arith;
    input_count = omega arith;
    output_count = omega arith;
    locktime = omega arith;
    subnetwork_id = refl;
    gas = omega arith;
  };
  inputs = λ i. record {
    previous_tx_id = refl;
    previous_index = omega arith;
    amount = omega arith;
    sequence = omega arith;
    script_version = omega arith;
  };
  signatures = λ i j. refl;
  outputs = λ i. record { amount = omega arith; script_version = omega arith };
  trailers = (
    tt,
    (
      (omega arith, omega arith, omega arith),
      (
        (omega arith, omega arith, omega arith),
        (
          refl,
          (
            (omega arith, refl),
            (
              (omega arith, refl),
              (
                (omega arith, omega arith),
                (
                  (omega arith, omega arith),
                  (omega arith, (omega arith, (omega arith, (omega arith, tt)))),
                ),
              ),
            ),
          ),
        ),
      ),
    ),
  );
}

good : (i : ℕ) → ValidInput source i
unfolding valid_sighash
good i = record {
  sig_op_count = omega arith;
  script = omega arith;
  signature_count = omega arith;
  slots = (refl, refl, tt);
  redeem = omega arith;
}

source-Conforms : Conforms source limits
unfolding trailers gather prepend stealth_trailer supported_tx_version valid_flags valid_sighash
    valid_network valid_ms45 valid_derivation valid_covenant_execution
source-Conforms = record {
  global = record {
    version = refl;
    flags = refl;
    inputs = omega arith;
    outputs = omega arith;
    payload = omega arith;
  };
  payload = omega arith;
  inputs = (good 0, (good 1, tt));
  outputs = (omega arith, (omega arith, tt));
  trailers = (
    refl,
    (
      (refl, omega arith),
      (
        (refl, omega arith),
        (
          tt,
          (
            omega arith,
            (
              omega arith,
              (
                (refl, omega arith),
                (
                  (refl, omega arith),
                  (
                    (refl, omega arith),
                    ((refl, omega arith), ((refl, omega arith), ((refl, omega arith), tt))),
                  ),
                ),
              ),
            ),
          ),
        ),
      ),
    ),
  );
}

source_fits : length (envelope_bytes source) ≤ 4096
unfolding script_len_bytes script_bytes header_bytes counts_bytes tail_bytes global_bytes
    input_bytes signature_bytes redeem_bytes output_bytes concat_range signatures_bytes
    input_record_bytes envelope_bytes byte marker derivation_bytes ms45_bytes execution_bytes
    body_bytes trailer_bytes trailers_bytes prepend gather stealth_trailer trailers to_le_bytes
source_fits = omega arith

source-Linked : All (Linked 2) (trailers source)
unfolding trailers gather prepend stealth_trailer
source-Linked =
    (tt, (tt, (tt, (tt, (omega arith, (omega arith, (tt, (tt, (tt, (tt, (tt, (tt, tt))))))))))))

encoded : encode source 4096 limits ≡ ok (envelope_bytes source)
encoded =
    (encode-eq-ok source 4096 limits (envelope_bytes source)).1 (source-Conforms, refl, source_fits)

encode-eq-ok_example : encode source 4096 limits ≡ ok (envelope_bytes source)
encode-eq-ok_example =
    (encode-eq-ok source 4096 limits (envelope_bytes source)).1 (source-Conforms, refl, source_fits)

decode-encode_example :
    decode (null_sink {E = ⊥}) (envelope_bytes source) tt limits
    ≡ deliver null_sink (events source) 1 [] tt
decode-encode_example =
    decode-encode null_sink source limits 4096 source-Typed source-Linked encoded tt

-- the same source, but for redeem scripts of inputs that it does not have
abbrev spare : EncodeSource
spare = record source { redeem = λ i. if leb i 1 then 0x52 ∷ [] else 0x63 ∷ 0x68 ∷ [] }

spare-Typed : Typed spare
unfolding trailers
spare-Typed = record {
  global = source-Typed.global;
  inputs = source-Typed.inputs;
  signatures = source-Typed.signatures;
  outputs = source-Typed.outputs;
  trailers = source-Typed.trailers;
}

spare_good : (i : ℕ) → ValidInput spare i
unfolding valid_sighash
spare_good i = record {
  sig_op_count = omega arith;
  script = omega arith;
  signature_count = omega arith;
  slots = (refl, refl, tt);
  redeem = ground arith;
}

spare-Conforms : Conforms spare limits
unfolding trailers
spare-Conforms = record {
  global = source-Conforms.global;
  payload = source-Conforms.payload;
  inputs = (spare_good 0, (spare_good 1, tt));
  outputs = source-Conforms.outputs;
  trailers = source-Conforms.trailers;
}

same_bytes : envelope_bytes source ≡ envelope_bytes spare
unfolding script_len_bytes script_bytes header_bytes counts_bytes tail_bytes global_bytes
    input_bytes signature_bytes redeem_bytes output_bytes concat_range signatures_bytes
    input_record_bytes envelope_bytes byte marker derivation_bytes ms45_bytes execution_bytes
    body_bytes trailer_bytes trailers_bytes prepend gather stealth_trailer trailers to_le_bytes
same_bytes = refl

spare_encoded : encode spare 4096 limits ≡ ok (envelope_bytes source)
spare_encoded =
    (encode-eq-ok spare 4096 limits (envelope_bytes source)).1
      (spare-Conforms, same_bytes, source_fits)

spare-Linked : All (Linked 2) (trailers spare)
unfolding trailers
spare-Linked = source-Linked

encode-injective_example : events source ≡ events spare
encode-injective_example =
    encode-injective source spare limits 4096 source-Typed spare-Typed source-Linked spare-Linked
      encoded spare_encoded

decode-Complete_example : Complete (decode (null_sink {E = ⊥}) (fill 70 b'K') tt limits)
decode-Complete_example = decode-Complete null_sink (fill 70 b'K') tt limits

decode-AreInRange_example :
    AreInRange limits (calls_of (decode log_sink (envelope_bytes source) [] limits))
decode-AreInRange_example = decode-AreInRange limits (envelope_bytes source)
