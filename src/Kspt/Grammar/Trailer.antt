-- ===== src/Kspt/Grammar/Trailer.antt =====
-- The records behind the outputs: their bytes, and those of a source in canonical order.
use kaspa_portal.Base.{
  ℕ, zero, suc, ◌+◌, ◌≡◌, refl, sym, ap, ◌∙◌, append_assoc, Option, none, some, List, [], ◌∷◌, ◌++◌,
}
use kaspa_portal.Base.Bytes.{Bytes, to_le_bytes}
use kaspa_portal.Kspt.Model.{
  Derivation, Ms45Derivation, CovenantExecution, Covenant, network_marker, ms45_input_marker,
  ms45_output_marker, stealth_marker, covenant_marker, covenant_execution_marker,
  input_derivation_marker, output_derivation_marker,
}
use kaspa_portal.Kspt.Encode.{EncodeSource}

unfoldable pub byte : ℕ → Bytes
byte v = v ∷ []

pub data Trailer : Type 0 where
  network : ℕ → Trailer
  ms45_input : ℕ → Ms45Derivation → Trailer
  ms45_output : ℕ → Ms45Derivation → Trailer
  stealth : Bytes → Trailer
  covenant : ℕ → Covenant → Trailer
  covenant_execution : ℕ → CovenantExecution → Trailer
  input_derivation : ℕ → Derivation → Trailer
  output_derivation : ℕ → Derivation → Trailer

unfoldable pub marker : Trailer → ℕ
marker (network c) = network_marker
marker (ms45_input i v) = ms45_input_marker
marker (ms45_output i v) = ms45_output_marker
marker (stealth t) = stealth_marker
marker (covenant i v) = covenant_marker
marker (covenant_execution i v) = covenant_execution_marker
marker (input_derivation i v) = input_derivation_marker
marker (output_derivation i v) = output_derivation_marker

unfoldable pub derivation_bytes : Derivation → Bytes
derivation_bytes v = byte v.branch ++ to_le_bytes 4 v.index

unfoldable pub ms45_bytes : Ms45Derivation → Bytes
ms45_bytes v = to_le_bytes 4 v.cosigner ++ (to_le_bytes 4 v.chain ++ to_le_bytes 4 v.index)

unfoldable pub execution_bytes : CovenantExecution → Bytes
execution_bytes v = to_le_bytes 2 v.supplied_mask ++ to_le_bytes 2 v.supplied_true_mask

unfoldable pub body_bytes : Trailer → Bytes
body_bytes (network c) = byte c
body_bytes (ms45_input i v) = byte i ++ ms45_bytes v
body_bytes (ms45_output i v) = byte i ++ ms45_bytes v
body_bytes (stealth t) = t
body_bytes (covenant i v) = byte i ++ (to_le_bytes 2 v.authorizing_input ++ v.id)
body_bytes (covenant_execution i v) = byte i ++ execution_bytes v
body_bytes (input_derivation i v) = byte i ++ derivation_bytes v
body_bytes (output_derivation i v) = byte i ++ derivation_bytes v

unfoldable pub trailer_bytes : Trailer → Bytes
trailer_bytes t = byte (marker t) ++ body_bytes t

unfoldable pub trailers_bytes : List Trailer → Bytes
trailers_bytes [] = []
trailers_bytes (t ∷ ts) = trailer_bytes t ++ trailers_bytes ts

unfoldable pub prepend : {V : Type 0} → (V → Trailer) → Option V → List Trailer → List Trailer
prepend make none rest = rest
prepend make (some v) rest = make v ∷ rest

pub trailers_bytes-append :
    (ts us : List Trailer) → trailers_bytes (ts ++ us) ≡ trailers_bytes ts ++ trailers_bytes us
unfolding trailers_bytes
trailers_bytes-append [] us = refl
trailers_bytes-append (t ∷ ts) us =
    ap (λ l. trailer_bytes t ++ l) (trailers_bytes-append ts us)
    ∙ sym (append_assoc (trailer_bytes t) (trailers_bytes ts) (trailers_bytes us))

-- The records of the positions i, i + 1, …, i + n - 1 that have one.
unfoldable pub gather : {V : Type 0} → (ℕ → V → Trailer) → (ℕ → Option V) → ℕ → ℕ → List Trailer
gather make of zero i = []
gather make of (suc n) i = prepend (make i) (of i) (gather make of n (i + 1))

unfoldable pub stealth_trailer : Option Bytes → List Trailer
stealth_trailer none = []
stealth_trailer (some t) = stealth t ∷ []

unfoldable pub trailers : EncodeSource → List Trailer
trailers source =
    let inputs = source.global.input_count in
    let outputs = source.global.output_count in
    (network source.network ∷ [])
    ++ ((gather ms45_input source.input_ms45 inputs 0
          ++ gather ms45_output source.output_ms45 outputs 0)
        ++ (stealth_trailer source.stealth
            ++ (gather covenant source.covenant outputs 0
                ++ (gather covenant_execution source.covenant_execution inputs 0
                    ++ (gather input_derivation source.input_derivation inputs 0
                        ++ gather output_derivation source.output_derivation outputs 0)))))
