-- ===== src/Kspt/Decode/Injective.antt =====
-- What the round trip gives for a sink that keeps a log.
use kaspa_portal.Base.{ℕ, ◌≡◌, sym, ap, ◌∙◌, List, [], ◌∷◌, ◌++◌, append_assoc, append-nil, All}
use kaspa_portal.Base.Bytes.{Bytes}
use kaspa_portal.Base.Outcome.{ok}
use kaspa_portal.Kspt.Model.{Limits}
use kaspa_portal.Kspt.Encode.{EncodeSource, encode}
use kaspa_portal.Kspt.Decode.{decode}
use kaspa_portal.Kspt.Decode.Sink.{Outcome, done, failed, stuck, answered}
use kaspa_portal.Kspt.Decode.Sink.Delivers.{Event, deliver}
use kaspa_portal.Kspt.Decode.Sink.Log.{log_sink, dispatch-log}
use kaspa_portal.Kspt.Decode.Body.{events}
use kaspa_portal.Kspt.Decode.RoundTrip.{decode-encode}
use kaspa_portal.Kspt.Grammar.Typed.{Typed, Linked}
use kaspa_portal.Kspt.Grammar.Trailer.{trailers}

deliver-log :
    (es : List Event) (flags : ℕ) (s : List Event)
    → deliver log_sink es flags [] s ≡ done flags [] (s ++ es)
unfolding deliver answered
deliver-log [] flags s = ap (done flags []) (sym (append-nil s))
deliver-log (e ∷ es) flags s =
    rw (dispatch-log e s)
      (deliver-log es flags (s ++ (e ∷ [])) ∙ ap (done flags []) (append_assoc s (e ∷ []) es))

-- the log of a run that ended well
log_of : Outcome ⊥ (List Event) ℕ → List Event
log_of (done flags rest s) = s
log_of (failed e s) = []
log_of stuck = []

-- Two sources that are encoded to the same bytes, under the same limits and with the same capacity, make the
-- same calls of a sink: whatever the decoder passes on of a source is in its encoding. The fields of both are
-- of their Rust types, and the covenants of both name inputs that are there.
pub encode-injective :
    (source source' : EncodeSource) (limits : Limits) (capacity : ℕ) {bs : Bytes}
    → Typed source
    → Typed source'
    → All (Linked source.global.input_count) (trailers source)
    → All (Linked source'.global.input_count) (trailers source')
    → encode source capacity limits ≡ ok bs
    → encode source' capacity limits ≡ ok bs
    → events source ≡ events source'
unfolding log_of
encode-injective source source' limits capacity {bs} t t' l l' h h' =
    sym (logged source t l h) ∙ logged source' t' l' h'
  where
    logged :
        (src : EncodeSource)
        → Typed src
        → All (Linked src.global.input_count) (trailers src)
        → encode src capacity limits ≡ ok bs
        → log_of (decode log_sink bs [] limits) ≡ events src
    logged src ty li enc = ap log_of (
        decode-encode log_sink src limits capacity ty li enc []
        ∙ deliver-log (events src) src.global.flags [])
