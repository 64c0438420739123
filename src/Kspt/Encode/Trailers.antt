-- ===== src/Kspt/Encode/Trailers.antt =====
-- The trailers that the encoder writes are those of the grammar.
use kaspa_portal.Base.{
  ℕ, zero, suc, ◌+◌, ◌≤◌, ◌≡◌, true, Option, none, some, List, [], ◌∷◌, ◌++◌, append-nil, All,
  All-append, leb→le, le→leb,
}
use kaspa_portal.Base.Bytes.{Bytes}
use kaspa_portal.Kspt.Model.{
  valid_derivation, valid_ms45, Derivation, Ms45Derivation, CovenantExecution, Covenant,
  input_derivation_marker, output_derivation_marker, ms45_input_marker, ms45_output_marker,
}
use kaspa_portal.Kspt.Writer
use kaspa_portal.Kspt.Writer.{Write, ◌>>◌}
use kaspa_portal.Kspt.Writer.Emits.{
  Emits, Emits->>, Emits_iff, Emits-done, Emits-ensure, Emits-u8, Emits-bytes,
}
use kaspa_portal.Kspt.Encode.{
  EncodeSource, write_position, write_network, write_derivation, write_ms45, write_covenant,
  write_covenant_execution, write_stealth, write_ms45_trailers, write_covenant_trailers,
  write_covenant_execution_trailers, write_derivation_trailers, write_trailers,
}
use kaspa_portal.Kspt.Grammar.Conforms.{Writable}
use kaspa_portal.Kspt.Grammar.Trailer.{
  Trailer, network, ms45_input, ms45_output, stealth, covenant, covenant_execution,
  input_derivation, output_derivation, byte, marker, body_bytes, derivation_bytes, ms45_bytes,
  execution_bytes, trailer_bytes, trailers_bytes, trailers_bytes-append, prepend, gather,
  stealth_trailer, trailers,
}

-- A write of whole trailers.
abbrev EmitsAll : Write → List Trailer → Type 0
EmitsAll m ts = Emits m (trailers_bytes ts) (All Writable ts)

All-left : (ts us : List Trailer) → All Writable (ts ++ us) → All Writable ts × All Writable us
All-left [] us h = (tt, h)
All-left (t ∷ ts) us (h, hs) = let (l, r) = All-left ts us hs in ((h, l), r)

EmitsAll->> :
    {m k : Write} (ts us : List Trailer)
    → EmitsAll m ts
    → EmitsAll k us
    → EmitsAll (m >> k) (ts ++ us)
EmitsAll->> ts us em ek =
    rw (trailers_bytes-append)
      (Emits_iff (Emits->> em ek) (λ p. All-append Writable ts us p.0 p.1) (λ q. All-left ts us q))

EmitsAll-one :
    {m : Write} (t : Trailer) → Emits m (trailer_bytes t) (Writable t) → EmitsAll m (t ∷ [])
unfolding trailers_bytes
EmitsAll-one t em = rw append-nil (Emits_iff em (λ p. (p, tt)) (λ q. q.0))

EmitsAll-if_some :
    {V : Type 0} (o : Option V) (w : V → Write) (make : V → Trailer) (rest : List Trailer)
    (m : Write)
    → ((v : V) → Emits (w v) (trailer_bytes (make v)) (Writable (make v)))
    → EmitsAll m rest
    → EmitsAll (Writer.if_some o w >> m) (prepend make o rest)
unfolding Writer.if_some prepend trailers_bytes
EmitsAll-if_some none w make rest m h em =
    Emits_iff (Emits->> Emits-done em) (λ p. p.1) (λ q. (tt, q))
EmitsAll-if_some (some v) w make rest m h em = Emits->> (h v) em

EmitsAll-gather :
    {V : Type 0} (make : ℕ → V → Trailer) (of : ℕ → Option V) (w : ℕ → V → Write)
    → ((j : ℕ) (v : V) → Emits (w j v) (trailer_bytes (make j v)) (Writable (make j v)))
    → (n i : ℕ)
    → EmitsAll (Writer.for_range n i (λ j. Writer.if_some (of j) (w j))) (gather make of n i)
unfolding Writer.for_range gather
EmitsAll-gather make of w h zero i = unfold trailers_bytes in Emits-done
EmitsAll-gather make of w h (suc n) i =
    EmitsAll-if_some (of i) (w i) (make i) _ _ (h i) (EmitsAll-gather make of w h n (i + 1))

Emits-position : (i : ℕ) → Emits (write_position i) (byte i) (i ≤ 255)
unfolding write_position
Emits-position i =
    Emits_iff (Emits->> (Emits-ensure _ _) (Emits-u8 i)) (λ p. leb→le _ _ p.0)
      (λ q. (le→leb _ _ q, tt))

Emits-network : (c : ℕ) → Emits (write_network c) (trailer_bytes (network c)) (Writable (network c))
unfolding write_network trailer_bytes marker body_bytes
Emits-network c =
    Emits_iff (Emits->> (Emits-ensure _ _) (Emits->> (Emits-u8 _) (Emits-u8 c))) (λ p. p.0)
      (λ q. (q, (tt, tt)))

Emits-derivation :
    (m i : ℕ) (v : Derivation)
    → Emits
        (write_derivation m i v)
        (byte m ++ (byte i ++ derivation_bytes v))
        ((valid_derivation v ≡ true) × (i ≤ 255))
unfolding write_derivation derivation_bytes
Emits-derivation m i v =
    Emits_iff
      (Emits->> (Emits-ensure _ _) (
        Emits->> (Emits-u8 m)
          (Emits->> (Emits-position i) (Emits->> (Emits-u8 _) (Emits-bytes _)))))
      (λ p. (p.0, p.1.1.0)) (λ q. (q.0, (tt, (q.1, (tt, tt)))))

Emits-ms45 :
    (m i : ℕ) (v : Ms45Derivation)
    → Emits
        (write_ms45 m i v)
        (byte m ++ (byte i ++ ms45_bytes v))
        ((valid_ms45 v ≡ true) × (i ≤ 255))
unfolding write_ms45 ms45_bytes
Emits-ms45 m i v =
    Emits_iff
      (Emits->> (Emits-ensure _ _) (
        Emits->> (Emits-u8 m) (
          Emits->> (Emits-position i)
            (Emits->> (Emits-bytes _) (Emits->> (Emits-bytes _) (Emits-bytes _))))))
      (λ p. (p.0, p.1.1.0)) (λ q. (q.0, (tt, (q.1, (tt, (tt, tt))))))

Emits-covenant :
    (i : ℕ) (v : Covenant)
    → Emits (write_covenant i v) (trailer_bytes (covenant i v)) (Writable (covenant i v))
unfolding write_covenant trailer_bytes marker body_bytes
Emits-covenant i v =
    Emits_iff
      (Emits->> (Emits-u8 _)
        (Emits->> (Emits-position i) (Emits->> (Emits-bytes _) (Emits-bytes v.id))))
      (λ p. p.1.0) (λ q. (tt, (q, (tt, tt))))

Emits-covenant_execution :
    (i : ℕ) (v : CovenantExecution)
    → Emits
        (write_covenant_execution i v)
        (trailer_bytes (covenant_execution i v))
        (Writable (covenant_execution i v))
unfolding write_covenant_execution trailer_bytes marker body_bytes execution_bytes
Emits-covenant_execution i v =
    Emits_iff
      (Emits->> (Emits-ensure _ _) (
        Emits->> (Emits-u8 _)
          (Emits->> (Emits-position i) (Emits->> (Emits-bytes _) (Emits-bytes _)))))
      (λ p. (p.0, p.1.1.0)) (λ q. (q.0, (tt, (q.1, (tt, tt)))))

EmitsAll-stealth : (o : Option Bytes) → EmitsAll (write_stealth o) (stealth_trailer o)
unfolding write_stealth stealth_trailer Writer.if_some
EmitsAll-stealth none = unfold trailers_bytes in Emits-done
EmitsAll-stealth (some t) = EmitsAll-one (stealth t) (
    unfold trailer_bytes marker body_bytes in
    Emits_iff (Emits->> (Emits-u8 _) (Emits-bytes t)) (λ p. tt) (λ q. (tt, tt)))

-- The encoder's trailers, in the grammar's order, behind exactly the tests of `Writable`.
pub Emits-trailers :
    (source : EncodeSource)
    → Emits
        (write_trailers source source.global.input_count source.global.output_count)
        (trailers_bytes (trailers source))
        (All Writable (trailers source))
unfolding write_trailers write_ms45_trailers write_covenant_trailers
    write_covenant_execution_trailers write_derivation_trailers trailers
Emits-trailers s =
    EmitsAll->> (network s.network ∷ []) _ (EmitsAll-one _ (Emits-network s.network)) (
      EmitsAll->>
        (gather ms45_input s.input_ms45 s.global.input_count 0
          ++ gather ms45_output s.output_ms45 s.global.output_count 0)
        _
        (EmitsAll->> _ _ (EmitsAll-gather ms45_input s.input_ms45 _ ms45_in s.global.input_count 0)
          (EmitsAll-gather ms45_output s.output_ms45 _ ms45_out s.global.output_count 0))
        (EmitsAll->> _ _ (EmitsAll-stealth s.stealth) (
          EmitsAll->> _ _
            (EmitsAll-gather covenant s.covenant _ Emits-covenant s.global.output_count 0)
            (EmitsAll->> _ _
              (EmitsAll-gather covenant_execution s.covenant_execution _ Emits-covenant_execution
                s.global.input_count 0)
              (EmitsAll->> _ _
                (EmitsAll-gather input_derivation s.input_derivation _ in_derivation
                  s.global.input_count 0)
                (EmitsAll-gather output_derivation s.output_derivation _ out_derivation
                  s.global.output_count 0))))))
  where
    ms45_in :
        (j : ℕ) (v : Ms45Derivation)
        → Emits
            (write_ms45 ms45_input_marker j v)
            (trailer_bytes (ms45_input j v))
            (Writable (ms45_input j v))
    ms45_in j v = unfold trailer_bytes marker body_bytes in Emits-ms45 _ j v

    ms45_out :
        (j : ℕ) (v : Ms45Derivation)
        → Emits
            (write_ms45 ms45_output_marker j v)
            (trailer_bytes (ms45_output j v))
            (Writable (ms45_output j v))
    ms45_out j v = unfold trailer_bytes marker body_bytes in Emits-ms45 _ j v

    in_derivation :
        (j : ℕ) (v : Derivation)
        → Emits
            (write_derivation input_derivation_marker j v)
            (trailer_bytes (input_derivation j v))
            (Writable (input_derivation j v))
    in_derivation j v = unfold trailer_bytes marker body_bytes in Emits-derivation _ j v

    out_derivation :
        (j : ℕ) (v : Derivation)
        → Emits
            (write_derivation output_derivation_marker j v)
            (trailer_bytes (output_derivation j v))
            (Writable (output_derivation j v))
    out_derivation j v = unfold trailer_bytes marker body_bytes in Emits-derivation _ j v
