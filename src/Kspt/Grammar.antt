-- ===== src/Kspt/Grammar.antt =====
-- The compact KSPT v1 envelope as plain byte strings, with no buffer, no cursor and no error: what
-- the encoder is to write and the decoder to accept.
pub mod Trailer
pub mod Conforms
pub mod Typed
use kaspa_portal.Base.{ℕ, zero, suc, ◌+◌, [], ◌∷◌, ◌++◌, length, ltb, if◌then◌else◌}
use kaspa_portal.Base.Bytes.{Bytes, to_le_bytes}
use kaspa_portal.Kspt.Model.{
  Global, Input, Signature, Output, magic, kspt_version, extended_script_length,
}
use kaspa_portal.Kspt.Encode.{EncodeSource}
use Trailer.{byte, trailers_bytes, trailers}

unfoldable pub script_len_bytes : ℕ → Bytes
script_len_bytes n =
    if ltb n extended_script_length then byte n else byte extended_script_length ++ to_le_bytes 2 n

unfoldable pub script_bytes : Bytes → Bytes
script_bytes value = script_len_bytes (length value) ++ value

unfoldable pub header_bytes : ℕ → Bytes
header_bytes flags = magic ++ (byte kspt_version ++ byte flags)

unfoldable pub counts_bytes : Global → Bytes
counts_bytes g = to_le_bytes 2 g.version ++ (to_le_bytes 4 g.input_count ++ byte g.output_count)

unfoldable pub tail_bytes : Global → Bytes
tail_bytes g =
    to_le_bytes 8 g.locktime
    ++ (g.subnetwork_id ++ (to_le_bytes 8 g.gas ++ to_le_bytes 4 (length g.payload)))

unfoldable pub global_bytes : Global → Bytes
global_bytes g = counts_bytes g ++ (tail_bytes g ++ g.payload)

unfoldable pub input_bytes : Input → Bytes
input_bytes v =
    v.previous_tx_id
    ++ (to_le_bytes 4 v.previous_index
        ++ (to_le_bytes 8 v.amount
            ++ (to_le_bytes 8 v.sequence
                ++ (byte v.sig_op_count
                    ++ (to_le_bytes 2 v.script_version ++ script_bytes v.script)))))

unfoldable pub signature_bytes : Signature → Bytes
signature_bytes v = byte v.position ++ (byte v.sighash ++ v.bytes)

unfoldable pub redeem_bytes : Bytes → Bytes
redeem_bytes v = to_le_bytes 2 (length v) ++ v

unfoldable pub output_bytes : Output → Bytes
output_bytes v = to_le_bytes 8 v.amount ++ (to_le_bytes 2 v.script_version ++ script_bytes v.script)

-- The strings of i, i + 1, …, i + n - 1, one behind the other.
unfoldable pub concat_range : ℕ → ℕ → (ℕ → Bytes) → Bytes
concat_range zero i f = []
concat_range (suc n) i f = f i ++ concat_range n (i + 1) f

module _ (source : EncodeSource) where
  unfoldable pub signatures_bytes : ℕ → Bytes
  signatures_bytes index =
      byte (source.signature_count index)
      ++ concat_range (source.signature_count index) 0
          λ slot. signature_bytes (source.signature index slot)

  unfoldable pub input_record_bytes : ℕ → Bytes
  input_record_bytes index =
      input_bytes (source.input index)
      ++ (signatures_bytes index ++ redeem_bytes (source.redeem index))

  unfoldable pub envelope_bytes : Bytes
  envelope_bytes =
      header_bytes source.global.flags
      ++ (global_bytes source.global
          ++ (concat_range source.global.input_count 0 input_record_bytes
              ++ (concat_range source.global.output_count 0
                    (λ index. output_bytes (source.output index))
                  ++ trailers_bytes (trailers source))))
