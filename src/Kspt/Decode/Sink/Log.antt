-- ===== src/Kspt/Decode/Sink/Log.antt =====
-- A sink that takes every call and keeps a log of them.
use kaspa_portal.Base.{◌≡◌, refl, List, [], ◌∷◌, ◌++◌}
use kaspa_portal.Base.Outcome.{ok}
use kaspa_portal.Kspt.Decode.Sink.{DecodeSink, Method}
use kaspa_portal.Kspt.Decode.Sink.Delivers.{
  Event, global, input, signature, redeem, output, network, stealth, input_derivation,
  output_derivation, input_ms45, output_ms45, covenant, covenant_execution, dispatch,
}

unfoldable pub log : Event → Method ⊥ (List Event)
log e s = (ok tt, s ++ (e ∷ []))

unfoldable pub log_sink : DecodeSink ⊥ (List Event)
log_sink = record {
  global = λ v. log (global v);
  input = λ i v n. log (input i v n);
  signature = λ i j v. log (signature i j v);
  redeem = λ i v. log (redeem i v);
  output = λ i v. log (output i v);
  network = λ c. log (network c);
  stealth = λ t. log (stealth t);
  input_derivation = λ i v. log (input_derivation i v);
  output_derivation = λ i v. log (output_derivation i v);
  input_ms45 = λ i v. log (input_ms45 i v);
  output_ms45 = λ i v. log (output_ms45 i v);
  covenant = λ i a id. log (covenant i a id);
  covenant_execution = λ i v. log (covenant_execution i v);
}

pub dispatch-log : (e : Event) (s : List Event) → dispatch log_sink e s ≡ (ok tt, s ++ (e ∷ []))
unfolding dispatch log_sink log
dispatch-log (global g) s = refl
dispatch-log (input i v n) s = refl
dispatch-log (signature i j v) s = refl
dispatch-log (redeem i v) s = refl
dispatch-log (output i v) s = refl
dispatch-log (network c) s = refl
dispatch-log (stealth t) s = refl
dispatch-log (input_derivation i v) s = refl
dispatch-log (output_derivation i v) s = refl
dispatch-log (input_ms45 i v) s = refl
dispatch-log (output_ms45 i v) s = refl
dispatch-log (covenant i a id) s = refl
dispatch-log (covenant_execution i v) s = refl
