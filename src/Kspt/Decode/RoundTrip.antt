-- ===== src/Kspt/Decode/RoundTrip.antt =====
-- The decoder on the bytes of the grammar, and behind the encoder.
use kaspa_portal.Base.{
  ℕ, zero, suc, ◌+◌, ◌*◌, ◌≤◌, ◌<◌, ◌^◌, ◌≡◌, refl, ap, ◌∙◌, List, [], ◌∷◌, ◌++◌, map, length,
  length-append, append_assoc, append-nil, arith, All,
}
use kaspa_portal.Base.Bytes.{Bytes, length-to_le_bytes}
use kaspa_portal.Base.Outcome.{ok}
use kaspa_portal.Kspt.Model.{Limits}
use kaspa_portal.Kspt.Encode.{EncodeSource, encode}
use kaspa_portal.Kspt.Encode.Grammatical.{encode-eq-ok}
use kaspa_portal.Kspt.Reader
use kaspa_portal.Kspt.Reader.{Reader}
use kaspa_portal.Kspt.Reader.Parses.{Parses}
use kaspa_portal.Kspt.Fields.{validate_input_capacity}
use kaspa_portal.Kspt.Fields.Parsed.{Parses-header, Parses-prefix, Parses-global}
use kaspa_portal.Kspt.Decode.{decode_envelope, decode}
use kaspa_portal.Kspt.Decode.Sink.{DecodeSink, Decoder, ◌>>=◌, ◌>>◌, lift, call, pure, continue}
use kaspa_portal.Kspt.Decode.Sink.Delivers.{
  Event, global, dispatch, deliver, Delivers, deliver-continue, Delivers-call_last,
}
use kaspa_portal.Kspt.Decode.Body.{events, Delivers-inputs, Delivers-outputs}
use kaspa_portal.Kspt.Decode.Trailers.{read_trailers}
use kaspa_portal.Kspt.Decode.Trailers.Run.{event_of, Readable, All-Readable}
use kaspa_portal.Kspt.Decode.Trailers.Canonical.{read_trailers_lem}
use kaspa_portal.Kspt.Grammar.{
  concat_range, script_bytes, script_len_bytes, signatures_bytes, redeem_bytes, output_bytes,
  input_bytes, input_record_bytes, envelope_bytes, global_bytes, counts_bytes, tail_bytes,
}
use kaspa_portal.Kspt.Grammar.Conforms.{Conforms}
use kaspa_portal.Kspt.Grammar.Typed.{Typed, Linked}
use kaspa_portal.Kspt.Grammar.Trailer.{byte, trailers, trailers_bytes}

-- A decoder that reads its data to the end.
module _ {E S : Type 0} (sink : DecodeSink E S) where
  record Finishes {A : Type 0} (m : Decoder E S A) (bs : Bytes) (es : List Event) (a : A)
      : Type 0 where
    before : (s : S) → m bs s ≡ deliver sink es a [] s

  Finishes->>= :
      {A B : Type 0} {m : Decoder E S A} (f : A → Decoder E S B) {x y : Bytes} {es fs : List Event}
      {a : A} {b : B}
      → Delivers sink m x es a
      → Finishes (f a) y fs b
      → Finishes (m >>= f) (x ++ y) (es ++ fs) b
  Finishes->>= f {y = y} {es = es} {fs = fs} {a = a} {b = b} hm hf = record {
    before = λ s. rw (hm.before y s) (deliver-continue sink es fs a b y [] s f hf.before);
  }

  Finishes-lift :
      {A B : Type 0} {m : Reader A} (f : A → Decoder E S B) {x y : Bytes} {es : List Event} {a : A}
      {b : B}
      → Parses m x a
      → Finishes (f a) y es b
      → Finishes (lift m >>= f) (x ++ y) es b
  unfolding lift
  Finishes-lift f {y = y} hm hf = record { before = λ s. rw (hm.before y) (hf.before s) }

  Finishes-call :
      {A : Type 0} (e : Event) {k : Decoder E S A} {y : Bytes} {es : List Event} {a : A}
      → Finishes k y es a
      → Finishes (call (dispatch sink e) >> k) y (e ∷ es) a
  Finishes-call e {k} {y} {es} {a} hk = record {
    before = λ s.
        ap (λ o. continue o (λ _. k)) ((Delivers-call_last sink e).before y s)
        ∙ deliver-continue sink (e ∷ []) es tt a y [] s _ hk.before;
  }

  -- A reader that only looks at what is left.
  Finishes-look :
      {A B : Type 0} (m : Reader A) (f : A → Decoder E S B) {y : Bytes} {es : List Event} {a : A}
      {b : B}
      → m y ≡ ok (a, y)
      → Finishes (f a) y es b
      → Finishes (lift m >>= f) y es b
  unfolding lift
  Finishes-look m f hm hf = record { before = λ s. rw hm (hf.before s) }

-- At least as many bytes as `min_input_wire_bytes` for each input.
script_takes : (v : Bytes) → 1 ≤ length (script_bytes v)
unfolding script_bytes script_len_bytes byte
script_takes v = ground (arith, length-append (script_len_bytes (length v)) v)

module _ (source : EncodeSource) (t : Typed source) where
  input_takes : (i : ℕ) → 59 ≤ length (input_record_bytes source i)
  unfolding input_record_bytes input_bytes signatures_bytes redeem_bytes byte
  input_takes i =
      simp (length-append, length-to_le_bytes)
        (omega (arith, (t.inputs i).previous_tx_id, script_takes (source.input i).script))

  inputs_take : (n i : ℕ) → n * 59 ≤ length (concat_range n i (input_record_bytes source))
  unfolding concat_range
  inputs_take zero i = omega arith
  inputs_take (suc n) i = omega (
    arith,
    input_takes i,
    inputs_take n (i + 1),
    length-append (input_record_bytes source i)
        (concat_range n (i + 1) (input_record_bytes source)),
  )

capacity_known :
    (n : ℕ) (bs : Bytes)
    → n < 2 ^ 32
    → n * 59 ≤ length bs
    → validate_input_capacity n bs ≡ ok (tt, bs)
unfolding validate_input_capacity Reader.ensure
capacity_known n bs w h = ground arith

regroup : (a b c d : Bytes) → (a ++ (b ++ c)) ++ d ≡ (a ++ b) ++ (c ++ d)
regroup a b c d = simp append_assoc

module _ {E S : Type 0} (sink : DecodeSink E S) (source : EncodeSource) where
  abbrev rest_bytes : Bytes
  rest_bytes =
      concat_range source.global.input_count 0 (input_record_bytes source)
      ++ (concat_range source.global.output_count 0 (λ index. output_bytes (source.output index))
          ++ trailers_bytes (trailers source))

  pure_delivers : (flags : ℕ) (s : S) → pure {E = E} flags [] s ≡ deliver sink [] flags [] s
  unfolding pure deliver
  pure_delivers flags s = refl

  Finishes-trailers :
      (flags : ℕ)
      → All (Readable source.global.input_count) (trailers source)
      → Finishes sink
          (read_trailers sink source.global.input_count source.global.output_count >> pure flags)
          (trailers_bytes (trailers source))
          (map event_of (trailers source))
          flags
  Finishes-trailers flags g = record {
    before = λ s.
        ap (λ o. continue o (λ _. pure flags)) (read_trailers_lem sink source g s)
        ∙ deliver-continue sink (map event_of (trailers source)) [] tt flags [] [] s _
            (λ t. pure_delivers flags t)
        ∙ rw append-nil;
  }

  Finishes-envelope :
      (limits : Limits)
      → Conforms source limits
      → Typed source
      → All (Linked source.global.input_count) (trailers source)
      → Finishes sink
          (decode_envelope sink limits)
          (envelope_bytes source)
          (events source)
          source.global.flags
  unfolding decode_envelope envelope_bytes global_bytes events dispatch
  Finishes-envelope limits c t l =
      let g = source.global in
      Finishes-lift sink _ (Parses-header g.flags c.global.flags) (
        rw (regroup (counts_bytes g) (tail_bytes g) g.payload rest_bytes) (
          Finishes-lift sink _ (Parses-prefix t.global c.global c.payload) (
            Finishes-lift sink _ (Parses-global g) (
              Finishes-look sink _ _ room (
                Finishes-call sink (global g) (
                  Finishes->>= sink _ (Delivers-inputs sink source t _ 0 c.inputs) (
                    Finishes->>= sink _ (Delivers-outputs sink source t _ 0 c.outputs) (
                      Finishes-trailers g.flags
                        (All-Readable _ (trailers source) c.trailers t.trailers l)))))))))
    where
      room : validate_input_capacity source.global.input_count rest_bytes ≡ ok (tt, rest_bytes)
      room = capacity_known source.global.input_count rest_bytes t.global.input_count (
          omega (
            arith,
            inputs_take source t source.global.input_count 0,
            length-append (concat_range source.global.input_count 0 (input_record_bytes source)) (
                concat_range source.global.output_count 0
                  (λ index. output_bytes (source.output index))
                ++ trailers_bytes (trailers source)),
          ))

  -- The decoder, given what the encoder wrote for a source, calls the sink's methods for that source
  -- in order, up to the first that the sink refuses, and if it refuses none returns the flags with
  -- no byte left. The source's fields are of their Rust types, and its covenants name inputs that are
  -- there.
  pub decode-encode :
      (limits : Limits) (capacity : ℕ) {bs : Bytes}
      → Typed source
      → All (Linked source.global.input_count) (trailers source)
      → encode source capacity limits ≡ ok bs
      → (s : S) → decode sink bs s limits ≡ deliver sink (events source) source.global.flags [] s
  unfolding decode
  decode-encode limits capacity t l h s =
      let (c, e, _) = (encode-eq-ok source capacity limits _).0 h in
      rw e ((Finishes-envelope limits c t l).before s)
