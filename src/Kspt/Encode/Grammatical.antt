-- ===== src/Kspt/Encode/Grammatical.antt =====
-- The encoder writes the grammar's bytes, exactly for the sources that conform.
use kaspa_portal.Base.{
  ℕ, zero, suc, ◌+◌, ◌≤◌, ◌<◌, ◌^◌, ◌%◌, ◌≡◌, refl, sym, ap, ◌∙◌, ◌↔◌, true, false, not, Bool, [],
  length, mark, unmarked, arith, append_assoc, leb→le, le→leb, ltb→lt, lt→ltb,
}
use kaspa_portal.Base.Bytes.{Bytes}
use kaspa_portal.Base.Outcome.{Result, ok, err}
use kaspa_portal.Kspt.Model.{
  WireError, Limits, Global, Input, Signature, Output, max_script_size, max_redeem_size,
  max_signature_records, allows_inputs, allows_outputs, allows_payload, valid_sighash,
}
use kaspa_portal.Kspt.Writer
use kaspa_portal.Kspt.Writer.{Writer, Write, ◌>>◌}
use kaspa_portal.Kspt.Writer.Emits.{
  Emits, extend, Emits->>, Emits_iff, Emits-done, Emits-ensure, Emits-ensure_then, Emits-u8,
  Emits-bytes, Emits-script, Emits-for_range,
}
use kaspa_portal.Kspt.Encode.{
  EncodeSource, validate_global, write_header, write_global, write_input_value, write_signature,
  write_redeem, write_output, write_signature_slots, write_signatures, write_input, write_envelope,
  written, encode,
}
use kaspa_portal.Kspt.Encode.Trailers.{Emits-trailers}
use kaspa_portal.Kspt.Grammar.{
  header_bytes, counts_bytes, tail_bytes, global_bytes, input_bytes, signature_bytes, redeem_bytes,
  output_bytes, concat_range, signatures_bytes, input_record_bytes, envelope_bytes,
}
use kaspa_portal.Kspt.Grammar.Conforms.{ValidGlobal, GoodSlots, ValidInput, Conforms}
use kaspa_portal.Kspt.Grammar.Trailer.{byte}

Emits-validate_global : (g : Global) (l : Limits) → Emits (validate_global g l) [] (ValidGlobal g l)
unfolding validate_global allows_inputs allows_outputs allows_payload
Emits-validate_global g l =
    Emits_iff
      (Emits->> (Emits-ensure _ _) (
        Emits->> (Emits-ensure _ _)
          (Emits->> (Emits-ensure _ _) (Emits->> (Emits-ensure _ _) (Emits-ensure _ _)))))
      (λ p. record {
        version = p.0;
        flags = p.1.0;
        inputs = leb→le _ _ p.1.1.0;
        outputs = leb→le _ _ p.1.1.1.0;
        payload = leb→le _ _ p.1.1.1.1;
      })
      (λ q.
        (q.version, (q.flags, (le→leb _ _ q.inputs, (le→leb _ _ q.outputs, le→leb _ _ q.payload)))))

Emits-header : (flags : ℕ) → Emits (write_header flags) (header_bytes flags) (Unit {0})
unfolding write_header header_bytes
Emits-header flags =
    Emits_iff (Emits->> (Emits-bytes _) (Emits->> (Emits-u8 _) (Emits-u8 _))) (λ p. tt)
      (λ q. (tt, (tt, tt)))

Emits-global : (g : Global) → Emits (write_global g) (global_bytes g) (length g.payload < 2 ^ 32)
unfolding write_global global_bytes counts_bytes tail_bytes
Emits-global g = simp append_assoc (
    Emits_iff
      (Emits->> (Emits-bytes _) (
        Emits->> (Emits-bytes _) (
          Emits->> (Emits-u8 _) (
            Emits->> (Emits-bytes _) (
              Emits->> (Emits-bytes _) (
                Emits->> (Emits-bytes _)
                  (Emits->> (Emits-ensure _ _) (Emits->> (Emits-bytes _) (Emits-bytes _)))))))))
      (λ p. ltb→lt _ _ p.1.1.1.1.1.1.0)
      (λ q. (tt, (tt, (tt, (tt, (tt, (tt, (lt→ltb _ _ q, (tt, tt))))))))))

abbrev GoodInputValue : Input → Type 0
GoodInputValue v = (v.sig_op_count ≤ max_signature_records) × (length v.script ≤ max_script_size)

Emits-input_value : (v : Input) → Emits (write_input_value v) (input_bytes v) (GoodInputValue v)
unfolding write_input_value input_bytes
Emits-input_value v =
    Emits_iff
      (Emits->> (Emits-ensure _ _) (
        Emits->> (Emits-bytes _) (
          Emits->> (Emits-bytes _) (
            Emits->> (Emits-bytes _) (
              Emits->> (Emits-bytes _)
                (Emits->> (Emits-u8 _) (Emits->> (Emits-bytes _) (Emits-script v.script))))))))
      (λ p. (leb→le _ _ p.0, p.1.1.1.1.1.1.1))
      (λ q. (le→leb _ _ q.0, (tt, (tt, (tt, (tt, (tt, (tt, q.1))))))))

abbrev GoodSlot : Signature → (ℕ → Bool) → Type 0
GoodSlot v seen = (seen v.position ≡ false) × (valid_sighash v.sighash ≡ true)

not-true : (b : Bool) → not b ≡ true → b ≡ false
not-true b h = ground arith

not-false : (b : Bool) → b ≡ false → not b ≡ true
not-false b h = ground arith

Emits-signature :
    (v : Signature) (seen : ℕ → Bool)
    → Emits (write_signature v seen) (signature_bytes v) (GoodSlot v seen)
unfolding write_signature signature_bytes
Emits-signature v seen =
    Emits_iff
      (Emits->> (Emits-ensure _ _) (
        Emits->> (Emits-ensure _ _)
          (Emits->> (Emits-u8 _) (Emits->> (Emits-u8 _) (Emits-bytes _)))))
      (λ p. (not-true _ p.0, p.1.0)) (λ q. (not-false _ q.0, (q.1, (tt, (tt, tt)))))

Emits-slots :
    (source : EncodeSource) (input n slot : ℕ) (seen : ℕ → Bool)
    → Emits
        (write_signature_slots source input n slot seen)
        (concat_range n slot λ j. signature_bytes (source.signature input j))
        (GoodSlots (source.signature input) n slot seen)
unfolding write_signature_slots concat_range
Emits-slots source input zero slot seen = Emits-done
Emits-slots source input (suc n) slot seen =
    Emits_iff
      (Emits->> (Emits-signature (source.signature input slot) seen)
        (Emits-slots source input n (slot + 1) (mark seen (source.signature input slot).position)))
      (λ p. (p.0.0, p.0.1, p.1)) (λ q. ((q.0, q.1), q.2))

Emits-redeem : (v : Bytes) → Emits (write_redeem v) (redeem_bytes v) (length v ≤ max_redeem_size)
unfolding write_redeem redeem_bytes
Emits-redeem v =
    Emits_iff (Emits->> (Emits-ensure _ _) (Emits->> (Emits-bytes _) (Emits-bytes v)))
      (λ p. leb→le _ _ p.0) (λ q. (le→leb _ _ q, (tt, tt)))

Emits-output :
    (v : Output) → Emits (write_output v) (output_bytes v) (length v.script ≤ max_script_size)
unfolding write_output output_bytes
Emits-output v =
    Emits_iff (Emits->> (Emits-bytes _) (Emits->> (Emits-bytes _) (Emits-script v.script)))
      (λ p. p.1.1) (λ q. (tt, (tt, q)))

abbrev GoodSignatures : EncodeSource → ℕ → Type 0
GoodSignatures source index =
    (source.signature_count index ≤ max_signature_records)
    × GoodSlots (source.signature index) (source.signature_count index) 0 unmarked

as_u8 : (n : ℕ) → n ≤ max_signature_records → n % 256 ≡ n
as_u8 n h = omega arith

Emits-u8_count :
    (n : ℕ) → n ≤ max_signature_records → Emits (Writer.u8 (n % 256)) (byte n) (Unit {0})
Emits-u8_count n h = rw (as_u8 n h) (Emits-u8 n)

Emits-signatures :
    (source : EncodeSource) (index : ℕ)
    → Emits
        (write_signatures source index)
        (signatures_bytes source index)
        (GoodSignatures source index)
unfolding write_signatures signatures_bytes
Emits-signatures source index =
    Emits_iff
      (Emits-ensure_then _ _
        (λ h. Emits->> (Emits-u8_count _ (leb→le _ _ h)) (Emits-slots source index _ 0 unmarked)))
      (λ p. (leb→le _ _ p.0, p.1.1)) (λ q. (le→leb _ _ q.0, (tt, q.1)))

Emits-input :
    (source : EncodeSource) (index : ℕ)
    → Emits (write_input source index) (input_record_bytes source index) (ValidInput source index)
unfolding write_input input_record_bytes
Emits-input source index =
    Emits_iff
      (Emits->> (Emits-input_value _) (Emits->> (Emits-signatures source index) (Emits-redeem _)))
      (λ p. record {
        sig_op_count = p.0.0;
        script = p.0.1;
        signature_count = p.1.0.0;
        slots = p.1.0.1;
        redeem = p.1.1;
      })
      (λ q. ((q.sig_op_count, q.script), ((q.signature_count, q.slots), q.redeem)))

Emits-envelope :
    (source : EncodeSource) (limits : Limits)
    → Emits (write_envelope source limits) (envelope_bytes source) (Conforms source limits)
unfolding write_envelope envelope_bytes
Emits-envelope s limits =
    Emits_iff
      (Emits->> (Emits-validate_global s.global limits) (
        Emits->> (Emits-header _) (
          Emits->> (Emits-global s.global) (
            Emits->> (Emits-for_range _ 0 _ _ _ (Emits-input s)) (
              Emits->> (Emits-for_range _ 0 _ _ _ (λ j. Emits-output (s.output j)))
                (Emits-trailers s))))))
      (λ p. record {
        global = p.0;
        payload = p.1.1.0;
        inputs = p.1.1.1.0;
        outputs = p.1.1.1.1.0;
        trailers = p.1.1.1.1.1;
      })
      (λ q. (q.global, (tt, (q.payload, (q.inputs, (q.outputs, q.trailers))))))

written-eq-ok :
    (r : Result WireError Writer) {bs : Bytes}
    → written r ≡ ok bs
    → (w : Writer) × (r ≡ ok w) × (w.written ≡ bs)
unfolding written
written-eq-ok (ok w) h = (w, refl, ground arith)
written-eq-ok (err e) h = cc

-- A source that the encoder accepts conforms, what it wrote are the bytes of the grammar, and they
-- fit the buffer.
encode_sound :
    (source : EncodeSource) (capacity : ℕ) (limits : Limits) {bs : Bytes}
    → encode source capacity limits ≡ ok bs
    → Conforms source limits × (bs ≡ envelope_bytes source) × (length bs ≤ capacity)
unfolding encode extend
encode_sound source capacity limits h =
    let (w, e, ew) = written-eq-ok _ h in
    let (p, ex, f) =
      (Emits-envelope source limits).sound (record { written = []; capacity = capacity }) w
        (omega arith) e in
    let eb = sym ew ∙ ap (λ (u : Writer). u.written) ex in (p, eb, rw eb (omega arith))

-- A source that conforms is encoded, in any buffer that its bytes fit.
encode_complete :
    (source : EncodeSource) (capacity : ℕ) (limits : Limits)
    → Conforms source limits
    → length (envelope_bytes source) ≤ capacity
    → encode source capacity limits ≡ ok (envelope_bytes source)
unfolding encode extend
encode_complete source capacity limits c f = rw (
    (Emits-envelope source limits).complete (record { written = []; capacity = capacity }) c
      (omega arith))

-- The encoder accepts a source exactly if it conforms and its bytes fit the buffer, and writes just
-- the bytes of the grammar.
pub encode-eq-ok :
    (source : EncodeSource) (capacity : ℕ) (limits : Limits) (bs : Bytes)
    → (encode source capacity limits ≡ ok bs)
      ↔ (Conforms source limits × (bs ≡ envelope_bytes source) × (length bs ≤ capacity))
encode-eq-ok source capacity limits bs = (
  λ h. encode_sound source capacity limits h,
  λ p. encode_complete source capacity limits p.0 (rw p.1 at p.2) ∙ ap ok (sym p.1),
)
