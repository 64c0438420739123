-- ===== src/Kspt/Decode/Body.antt =====
-- The inputs and outputs of the grammar are read back, and the events that this makes.
use kaspa_portal.Base.{
  ℕ, zero, suc, ◌+◌, ◌≤◌, ◌≡◌, Bool, List, [], ◌∷◌, ◌++◌, map, length, append_assoc, mark, unmarked,
}
use kaspa_portal.Kspt.Model.{max_script_size}
use kaspa_portal.Kspt.Encode.{EncodeSource}
use kaspa_portal.Kspt.Fields.Parsed.{
  Parses-input_value, Parses-signature_count, Parses-signature, Parses-redeem, Parses-output,
}
use kaspa_portal.Kspt.Decode.{read_signatures, read_redeem, read_input, read_inputs, read_outputs}
use kaspa_portal.Kspt.Decode.Sink.{DecodeSink}
use kaspa_portal.Kspt.Decode.Sink.Delivers.{
  Event, global, input, signature, redeem, output, dispatch, Delivers, Delivers->>=, Delivers-lift,
  Delivers-lift_last, Delivers-call, Delivers-call_last, Delivers-pure,
}
use kaspa_portal.Kspt.Decode.Trailers.Run.{event_of}
use kaspa_portal.Kspt.Grammar.{
  concat_range, signature_bytes, signatures_bytes, input_record_bytes, redeem_bytes, output_bytes,
}
use kaspa_portal.Kspt.Grammar.Conforms.{Range, GoodSlots, ValidInput}
use kaspa_portal.Kspt.Grammar.Typed.{Typed}
use kaspa_portal.Kspt.Grammar.Trailer.{trailers}

-- The events of i, i + 1, …, i + n - 1
unfoldable pub events_range : ℕ → ℕ → (ℕ → List Event) → List Event
events_range zero i f = []
events_range (suc n) i f = f i ++ events_range n (i + 1) f

unfoldable pub input_events : EncodeSource → ℕ → List Event
input_events source i =
    input i (source.input i) (source.signature_count i)
    ∷ (events_range (source.signature_count i) 0 (λ j. signature i j (source.signature i j) ∷ [])
        ++ (redeem i (source.redeem i) ∷ []))

-- What a sink is told of a source, in order.
unfoldable pub events : EncodeSource → List Event
events source =
    global source.global
    ∷ (events_range source.global.input_count 0 (input_events source)
        ++ (events_range source.global.output_count 0 (λ i. output i (source.output i) ∷ [])
            ++ map event_of (trailers source)))

module _ {E S : Type 0} (sink : DecodeSink E S) (source : EncodeSource) where
  Delivers-signatures :
      (i n slot : ℕ) (seen : ℕ → Bool)
      → ((j : ℕ) → length (source.signature i j).bytes ≡ 64)
      → GoodSlots (source.signature i) n slot seen
      → Delivers sink
          (read_signatures sink i n slot seen)
          (concat_range n slot λ j. signature_bytes (source.signature i j))
          (events_range n slot (λ j. signature i j (source.signature i j) ∷ []))
          tt
  unfolding read_signatures concat_range events_range dispatch
  Delivers-signatures i zero slot seen l g = Delivers-pure sink tt
  Delivers-signatures i (suc n) slot seen l (fresh, valid, g) =
      Delivers-lift sink _ (Parses-signature (source.signature i slot) seen (l slot) fresh valid) (
        Delivers-call sink (signature i slot (source.signature i slot))
          (Delivers-signatures i n (slot + 1) (mark seen (source.signature i slot).position) l g))

  Delivers-redeem :
      (i : ℕ)
      → ValidInput source i
      → Delivers sink
          (read_redeem sink i)
          (redeem_bytes (source.redeem i))
          (redeem i (source.redeem i) ∷ [])
          tt
  unfolding read_redeem dispatch
  Delivers-redeem i v =
      Delivers-lift_last sink _ (Parses-redeem (source.redeem i) v.redeem)
        (Delivers-call_last sink (redeem i (source.redeem i)))

  Delivers-input :
      Typed source
      → (i : ℕ) → ValidInput source i
      → Delivers sink (read_input sink i) (input_record_bytes source i) (input_events source i) tt
  unfolding read_input input_record_bytes signatures_bytes input_events dispatch
  Delivers-input t i v =
      Delivers-lift sink _
        (Parses-input_value (source.input i) (t.inputs i) v.sig_op_count v.script)
        (rw append_assoc (
          Delivers-lift sink _ (Parses-signature_count _ v.signature_count) (
            Delivers-call sink (input i (source.input i) (source.signature_count i)) (
              Delivers->>= sink _
                (Delivers-signatures i (source.signature_count i) 0 unmarked (t.signatures i)
                  v.slots)
                (Delivers-redeem i v)))))

  pub Delivers-inputs :
      Typed source
      → (n i : ℕ) → Range n i (ValidInput source)
      → Delivers sink
          (read_inputs sink n i)
          (concat_range n i (input_record_bytes source))
          (events_range n i (input_events source))
          tt
  unfolding read_inputs concat_range events_range
  Delivers-inputs t zero i v = Delivers-pure sink tt
  Delivers-inputs t (suc n) i (v, vs) =
      Delivers->>= sink _ (Delivers-input t i v) (Delivers-inputs t n (i + 1) vs)

  pub Delivers-outputs :
      Typed source
      → (n i : ℕ) → Range n i (λ j. length (source.output j).script ≤ max_script_size)
      → Delivers sink
          (read_outputs sink n i)
          (concat_range n i (λ j. output_bytes (source.output j)))
          (events_range n i (λ j. output j (source.output j) ∷ []))
          tt
  unfolding read_outputs concat_range events_range dispatch
  Delivers-outputs t zero i v = Delivers-pure sink tt
  Delivers-outputs t (suc n) i (v, vs) =
      Delivers-lift sink _ (Parses-output (source.output i) (t.outputs i) v)
        (Delivers-call sink (output i (source.output i)) (Delivers-outputs t n (i + 1) vs))
