-- ===== src/Kspt/Decode/Trailers/Steps.antt =====
-- One record of the trailer section: it is read back, and its event is delivered.
use kaspa_portal.Base.{
  ℕ, ◌+◌, ◌≤◌, ◌<◌, ◌≡◌, refl, Bool, true, false, not, ◌||◌, some, List, [], ◌∷◌, ◌++◌, length, leb,
  arith,
}
use kaspa_portal.Base.{◌^◌}
use kaspa_portal.Base.Bytes.{Bytes, to_le_bytes}
use kaspa_portal.Kspt.Model.{Covenant, valid_network, network_marker}
use kaspa_portal.Kspt.Grammar.Trailer.{byte}
use kaspa_portal.Kspt.Reader.{Reader}
use kaspa_portal.Kspt.Reader.Parses.{
  Parses, Parses-pure, Parses-test, Parses-bytes, Parses-u8, Parses-word,
}
use kaspa_portal.Kspt.Decode.Sink.{DecodeSink}
use kaspa_portal.Kspt.Decode.Sink.Delivers.{
  Event, network, stealth, covenant, dispatch, Delivers, Delivers-lift, Delivers-lift_last,
  Delivers-call, Delivers-pure,
}
use kaspa_portal.Kspt.Decode.Trailers.{
  Positions, TrailerState, initial, marker_rank, require_canonical_marker_order, passed,
  require_increasing, set_seen, read_positioned, read_network, read_stealth, read_covenant,
  read_marked, read_trailer,
}

-- Every position from i on is still free.
pub record FreshFrom (i : ℕ) (p : Positions) : Type 0 where
  pub free : (j : ℕ) → i ≤ j → (passed j p.last ≡ false) × (p.seen j ≡ false)

abbrev pub place : ℕ → Positions → Positions
place i p = set_seen i (record p { last = some i })

pub FreshFrom-skip : {i : ℕ} {p : Positions} → FreshFrom i p → FreshFrom (i + 1) p
FreshFrom-skip f = record { free = λ j h. f.free j (omega arith) }

pub FreshFrom-place : {i : ℕ} {p : Positions} → FreshFrom i p → FreshFrom (i + 1) (place i p)
unfolding passed
FreshFrom-place {i} {p} f = record { free = λ j h. ground (arith, f.free j) }

in_range : {count i : ℕ} {b : Bool} → i < count → b ≡ false → not (leb count i || b) ≡ true
in_range h e = ground arith

Parses-increasing :
    (i : ℕ) (p : Positions)
    → passed i p.last ≡ false
    → Parses (require_increasing i p) [] (record p { last = some i })
unfolding require_increasing
Parses-increasing i p h = rw h (Parses-pure _)

pub Parses-order :
    (marker rank : ℕ) (st : TrailerState)
    → marker_rank marker ≡ some rank
    → st.network ≡ true
    → st.last_rank ≤ rank
    → Parses (require_canonical_marker_order marker st) [] (record st { last_rank = rank })
unfolding require_canonical_marker_order
Parses-order marker rank st h n l = record {
  before = λ rest. ground (arith, (Parses-pure (record st { last_rank = rank })).before rest);
}

Parses-first : Parses (require_canonical_marker_order network_marker initial) [] initial
unfolding require_canonical_marker_order marker_rank
Parses-first = Parses-pure initial

module _ {E S : Type 0} (sink : DecodeSink E S) where
  pub Delivers-positioned :
      {A : Type 0} (make : ℕ → A → Event) {count i : ℕ} {body : Reader A} {bs : Bytes} {v : A}
      {p : Positions}
      → FreshFrom i p
      → i < count
      → Parses body bs v
      → Delivers sink
          (read_positioned sink count body (λ j u. dispatch sink (make j u)) p)
          (byte i ++ bs)
          (make i v ∷ [])
          (place i p)
  unfolding read_positioned
  Delivers-positioned make {count} {i} {p = p} f h hb =
      let (last, seen) = f.free i (omega arith) in
      Delivers-lift sink _ (Parses-u8 i) (
        Delivers-lift sink _ (Parses-increasing i p last) (
          Delivers-lift sink _ (Parses-test _ _ (in_range h seen))
            (Delivers-lift_last sink _ hb (Delivers-call sink (make i _) (Delivers-pure sink _)))))

  -- A reader of the section behind its marker: `st` is the state with the rank of the marker.
  pub Delivers-ranked :
      (marker rank inputs outputs : ℕ) (st st' : TrailerState) {bs : Bytes} {es : List Event}
      → marker_rank marker ≡ some rank
      → st.network ≡ true
      → st.last_rank ≤ rank
      → Delivers sink
          (read_marked sink marker inputs outputs (record st { last_rank = rank }))
          bs
          es
          st'
      → Delivers sink (read_trailer sink marker inputs outputs st) bs es st'
  unfolding read_trailer
  Delivers-ranked marker rank inputs outputs st st' h n l hb =
      Delivers-lift sink _ (Parses-order marker rank st h n l) hb

  pub Delivers-network :
      (c : ℕ) (st : TrailerState)
      → valid_network c ≡ true
      → st.network ≡ false
      → Delivers sink
          (read_network sink st)
          (byte c)
          (network c ∷ [])
          (record st { network = true })
  unfolding read_network dispatch
  Delivers-network c st h n = Delivers-lift_last sink _ (Parses-u8 c) (
      Delivers-lift sink _ (Parses-test _ _ (ground (arith, h, n)))
        (Delivers-call sink (network c) (Delivers-pure sink _)))

  pub Delivers-stealth :
      (t : Bytes) (st : TrailerState)
      → length t ≡ 32
      → st.stealth ≡ false
      → Delivers sink (read_stealth sink st) t (stealth t ∷ []) (record st { stealth = true })
  unfolding read_stealth dispatch
  Delivers-stealth t st h n = Delivers-lift sink _ (Parses-test _ _ (ground (arith, n))) (
      Delivers-lift_last sink _ (Parses-bytes t 32 h)
        (Delivers-call sink (stealth t) (Delivers-pure sink _)))

  pub Delivers-covenant :
      (i : ℕ) (v : Covenant) (inputs outputs : ℕ) (st : TrailerState)
      → FreshFrom i st.covenant
      → i < outputs
      → v.authorizing_input < inputs
      → v.authorizing_input < 2 ^ 16
      → length v.id ≡ 32
      → Delivers sink
          (read_covenant sink inputs outputs st)
          (byte i ++ (to_le_bytes 2 v.authorizing_input ++ v.id))
          (covenant i v.authorizing_input v.id ∷ [])
          (record st { covenant = place i st.covenant })
  unfolding read_covenant dispatch
  Delivers-covenant i v inputs outputs st f h a w l =
      let (last, seen) = f.free i (omega arith) in
      Delivers-lift sink _ (Parses-u8 i) (
        Delivers-lift sink _ (Parses-increasing i st.covenant last) (
          Delivers-lift sink _ (Parses-word 2 _ w) (
            Delivers-lift sink _ (Parses-test _ _ (ground (arith, seen, h, a))) (
              Delivers-lift_last sink _ (Parses-bytes v.id 32 l) (
                Delivers-call sink (covenant i v.authorizing_input v.id) (Delivers-pure sink _))))))

  -- The network comes first.
  pub Delivers-first :
      (c inputs outputs : ℕ)
      → valid_network c ≡ true
      → Delivers sink
          (read_trailer sink network_marker inputs outputs initial)
          (byte c)
          (network c ∷ [])
          (record initial { network = true })
  unfolding read_trailer read_marked
  Delivers-first c inputs outputs h =
      Delivers-lift sink _ Parses-first (Delivers-network c initial h refl)
