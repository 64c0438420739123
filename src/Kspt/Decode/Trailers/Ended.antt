-- ===== src/Kspt/Decode/Trailers/Ended.antt =====
-- The end of the loop over the trailers.
use kaspa_portal.Base.{refl, ℕ, zero, suc, ◌≤◌, Option, none, some, [], ◌∷◌, length, arith}
use kaspa_portal.Base.Bytes.{Bytes}
use kaspa_portal.Kspt.Reader.{Reader}
use kaspa_portal.Kspt.Reader.Shrinks.{Shrinks, reader_rules}
use kaspa_portal.Kspt.Fields.Shrunk.{field_rules}
use kaspa_portal.Kspt.Model.{missing_network}
use kaspa_portal.Kspt.Decode.Sink
use kaspa_portal.Kspt.Decode.Sink.{Method, DecodeSink}
use kaspa_portal.Kspt.Decode.Sink.Ends.{
  Ended, Ends, Ended-continue, Ended-le, Complete, Completes, Complete-continue, Complete-ensured,
  Ends-pure, ends_rules,
}
use kaspa_portal.Kspt.Decode.Trailers

Shrinks-ranked :
    (marker : ℕ) (state : Trailers.TrailerState) (rank : Option ℕ)
    → Shrinks (Trailers.ranked marker state rank)
unfolding Trailers.ranked
Shrinks-ranked marker state none = search reader_rules depth 60
Shrinks-ranked marker state (some rank) = search reader_rules depth 60

Shrinks-require_canonical_marker_order :
    (marker : ℕ) (state : Trailers.TrailerState)
    → Shrinks (Trailers.require_canonical_marker_order marker state)
unfolding Trailers.require_canonical_marker_order
Shrinks-require_canonical_marker_order marker state = Shrinks-ranked marker state _

Shrinks-require_increasing :
    (position : ℕ) (p : Trailers.Positions) → Shrinks (Trailers.require_increasing position p)
unfolding Trailers.require_increasing
Shrinks-require_increasing position p = search reader_rules depth 60

module _ {E S : Type 0} (sink : DecodeSink E S) where
  Ends-read_positioned :
      {A : Type 0} (count : ℕ) (body : Reader A) (method : ℕ → A → Method E S)
      (p : Trailers.Positions)
      → Shrinks body
      → Ends (Trailers.read_positioned sink count body method p)
  unfolding Trailers.read_positioned
  Ends-read_positioned count body method p h =
      search (ends_rules, Shrinks-require_increasing) depth 60

  Ends-read_covenant :
      (inputs outputs : ℕ) (state : Trailers.TrailerState)
      → Ends (Trailers.read_covenant sink inputs outputs state)
  unfolding Trailers.read_covenant
  Ends-read_covenant inputs outputs state = search (ends_rules, Shrinks-require_increasing) depth 60

  Ends-read_marked :
      (marker inputs outputs : ℕ) (state : Trailers.TrailerState)
      → Ends (Trailers.read_marked sink marker inputs outputs state)
  unfolding Trailers.read_marked Trailers.read_network Trailers.read_stealth
      Trailers.read_input_derivation Trailers.read_output_derivation Trailers.read_ms45_input
      Trailers.read_ms45_output Trailers.read_covenant_execution
  Ends-read_marked marker inputs outputs state =
      search (ends_rules, Ends-read_covenant, Ends-read_positioned, field_rules) depth 60

  Ends-read_trailer :
      (marker inputs outputs : ℕ) (state : Trailers.TrailerState)
      → Ends (Trailers.read_trailer sink marker inputs outputs state)
  unfolding Trailers.read_trailer
  Ends-read_trailer marker inputs outputs state =
      search (ends_rules, Shrinks-require_canonical_marker_order, Ends-read_marked) depth 60

  Ended-trailer_loop :
      (fuel inputs outputs : ℕ) (state : Trailers.TrailerState) (bs : Bytes) (s : S)
      → length bs ≤ fuel
      → Ended (length bs) (Trailers.trailer_loop sink fuel inputs outputs state bs s)
  unfolding Trailers.trailer_loop
  Ended-trailer_loop fuel inputs outputs state [] s h = (Ends-pure state).at [] s
  Ended-trailer_loop zero inputs outputs state (marker ∷ bs) s h = omega arith
  Ended-trailer_loop (suc fuel) inputs outputs state (marker ∷ bs) s h =
      Ended-le _ (length bs) (suc (length bs)) (omega arith) (
        Ended-continue (Trailers.read_trailer sink marker inputs outputs state bs s) _ (length bs)
          ((Ends-read_trailer marker inputs outputs state).at bs s)
          (λ state' rest t le. Ended-trailer_loop fuel inputs outputs state' rest t (omega arith)))

  Complete-trailer_loop :
      (fuel inputs outputs : ℕ) (state : Trailers.TrailerState) (bs : Bytes) (s : S)
      → length bs ≤ fuel
      → Complete (Trailers.trailer_loop sink fuel inputs outputs state bs s)
  unfolding Trailers.trailer_loop Sink.pure
  Complete-trailer_loop fuel inputs outputs state [] s h = refl
  Complete-trailer_loop zero inputs outputs state (marker ∷ bs) s h = omega arith
  Complete-trailer_loop (suc fuel) inputs outputs state (marker ∷ bs) s h =
      Complete-continue (length bs) (Trailers.read_trailer sink marker inputs outputs state bs s) _
        ((Ends-read_trailer marker inputs outputs state).at bs s)
        (λ state' rest t le. Complete-trailer_loop fuel inputs outputs state' rest t (omega arith))

  pub Completes-read_trailers :
      (inputs outputs : ℕ) → Completes (Trailers.read_trailers sink inputs outputs)
  unfolding Trailers.read_trailers
  Completes-read_trailers inputs outputs = record {
    at = λ bs s.
        Complete-ensured _ (λ state. state.network) missing_network
          (Complete-trailer_loop (length bs) inputs outputs Trailers.initial bs s (omega arith));
  }
