-- ===== src/Kspt/Decode/Trailers/Run.antt =====
-- A run over the records of the trailer section, and the loop that makes it.
use kaspa_portal.Base.{
  ℕ, zero, suc, ◌+◌, ◌≤◌, ◌<◌, ◌≡◌, refl, ap, ◌∙◌, Option, none, some, List, [], ◌∷◌, ◌++◌, map,
  length, length-append, arith, All,
}
use kaspa_portal.Base.Bytes.{Bytes}
use kaspa_portal.Kspt.Decode.Sink.{DecodeSink, continue, pure}
use kaspa_portal.Kspt.Decode.Sink.Delivers
use kaspa_portal.Kspt.Decode.Sink.Delivers.{Event, Delivers, deliver, deliver-continue}
use kaspa_portal.Kspt.Decode.Trailers.{TrailerState, read_trailer, trailer_loop}
use kaspa_portal.Kspt.Grammar.Conforms.{Writable}
use kaspa_portal.Kspt.Grammar.Typed.{TypedTrailer, Linked}
use kaspa_portal.Kspt.Grammar.Trailer.{
  Trailer, network, ms45_input, ms45_output, stealth, covenant, covenant_execution,
  input_derivation, output_derivation, byte, marker, body_bytes, trailer_bytes, trailers_bytes,
  prepend, gather,
}

abbrev pub event_of : Trailer → Event
event_of (network c) = Delivers.network c
event_of (ms45_input i v) = Delivers.input_ms45 i v
event_of (ms45_output i v) = Delivers.output_ms45 i v
event_of (stealth t) = Delivers.stealth t
event_of (covenant i v) = Delivers.covenant i v.authorizing_input v.id
event_of (covenant_execution i v) = Delivers.covenant_execution i v
event_of (input_derivation i v) = Delivers.input_derivation i v
event_of (output_derivation i v) = Delivers.output_derivation i v

abbrev pub Readable : ℕ → Trailer → Type 0
Readable inputs t = Writable t × TypedTrailer t × Linked inputs t

pub All-Readable :
    (inputs : ℕ) (ts : List Trailer)
    → All Writable ts
    → All TypedTrailer ts
    → All (Linked inputs) ts
    → All (Readable inputs) ts
All-Readable inputs [] w t l = tt
All-Readable inputs (x ∷ xs) (w, ws) (t, ts) (l, ls) = ((w, t, l), All-Readable inputs xs ws ts ls)

module _ {E S : Type 0} (sink : DecodeSink E S) (inputs outputs : ℕ) where
  abbrev pub ReadsTo : TrailerState → Trailer → TrailerState → Type 0
  ReadsTo st t st' =
      Delivers sink (read_trailer sink (marker t) inputs outputs st) (body_bytes t)
        (event_of t ∷ []) st'

  -- The records are read one after the other, and `Post` holds of the last state.
  abbrev pub Run : List Trailer → TrailerState → (TrailerState → Type 0) → Type 0
  Run [] st Post = Post st
  Run (t ∷ ts) st Post = (st' : TrailerState) × ReadsTo st t st' × Run ts st' Post

  pub Run-append :
      (ts us : List Trailer) (st : TrailerState) (Mid Post : TrailerState → Type 0)
      → Run ts st Mid
      → ((st' : TrailerState) → Mid st' → Run us st' Post)
      → Run (ts ++ us) st Post
  Run-append [] us st Mid Post r k = k st r
  Run-append (t ∷ ts) us st Mid Post (st', d, r) k = (st', d, Run-append ts us st' Mid Post r k)

  pub Run-map :
      (ts : List Trailer) (st : TrailerState) (P Q : TrailerState → Type 0)
      → Run ts st P
      → ((t : TrailerState) → P t → Q t)
      → Run ts st Q
  Run-map [] st P Q r f = f st r
  Run-map (t ∷ ts) st P Q (st', d, r) f = (st', d, Run-map ts st' P Q r f)

  module _ {V : Type 0} (make : ℕ → V → Trailer) (of : ℕ → Option V) (count : ℕ)
      (P : ℕ → TrailerState → Type 0) (skip : (i : ℕ) (st : TrailerState) → P i st → P (i + 1) st)
      (step : (i : ℕ) (v : V) (st : TrailerState)
        → i < count
        → P i st
        → Readable inputs (make i v)
        → (st' : TrailerState) × ReadsTo st (make i v) st' × P (i + 1) st') where
    abbrev Ends : TrailerState → Type 0
    Ends st = (j : ℕ) × P j st

    one_more :
        (i : ℕ) (o : Option V) (rest : List Trailer) (st : TrailerState)
        → i < count
        → P i st
        → All (Readable inputs) (prepend (make i) o rest)
        → ((st' : TrailerState) → P (i + 1) st' → All (Readable inputs) rest → Run rest st' Ends)
        → Run (prepend (make i) o rest) st Ends
    unfolding prepend
    one_more i none rest st h p g k = k st (skip i st p) g
    one_more i (some v) rest st h p (g, gs) k =
        let (st', d, p') = step i v st h p g in (st', d, k st' p' gs)

    pub Run-gather :
        (n i : ℕ) (st : TrailerState)
        → i + n ≤ count
        → P i st
        → All (Readable inputs) (gather make of n i)
        → Run (gather make of n i) st Ends
    unfolding gather
    Run-gather zero i st h p g = (i, p)
    Run-gather (suc n) i st h p g =
        one_more i (of i) (gather make of n (i + 1)) st (omega arith) p g
          (λ st' p' g'. Run-gather n (i + 1) st' (omega arith) p' g')

  loop_end :
      (fuel : ℕ) (st : TrailerState) (s : S)
      → trailer_loop sink fuel inputs outputs st [] s ≡ deliver sink [] st [] s
  unfolding trailer_loop deliver pure
  loop_end zero st s = refl
  loop_end (suc fuel) st s = refl

  loop_step :
      (fuel m : ℕ) (st : TrailerState) (bs : Bytes) (s : S)
      → trailer_loop sink (suc fuel) inputs outputs st (m ∷ bs) s
        ≡ continue
            (read_trailer sink m inputs outputs st bs s)
            (trailer_loop sink fuel inputs outputs)
  unfolding trailer_loop
  loop_step fuel m st bs s = refl

  trailers_bytes_cons :
      (t : Trailer) (ts : List Trailer)
      → trailers_bytes (t ∷ ts) ≡ marker t ∷ (body_bytes t ++ trailers_bytes ts)
  unfolding trailers_bytes trailer_bytes byte
  trailers_bytes_cons t ts = refl

  -- With as much fuel as there are bytes the loop makes the run.
  pub trailer_loop-Run :
      (ts : List Trailer) (fuel : ℕ) (st : TrailerState) (Post : TrailerState → Type 0)
      → length (trailers_bytes ts) ≤ fuel
      → Run ts st Post
      → (st' : TrailerState) × Post st'
        × ((s : S)
            → trailer_loop sink fuel inputs outputs st (trailers_bytes ts) s
              ≡ deliver sink (map event_of ts) st' [] s)
  trailer_loop-Run [] fuel st Post h r = (st, r, λ s. unfold trailers_bytes in loop_end fuel st s)
  trailer_loop-Run (t ∷ ts) zero st Post h r =
      absurd (omega (arith, ap length (trailers_bytes_cons t ts)))
  trailer_loop-Run (t ∷ ts) (suc fuel) st Post h (st1, d, r) =
      let (st', p, e) =
        trailer_loop-Run ts fuel st1 Post
          (omega (
            arith,
            ap length (trailers_bytes_cons t ts),
            length-append (body_bytes t) (trailers_bytes ts),
          ))
          r in
      (
        st',
        p,
        λ s. rw trailers_bytes_cons (
            loop_step fuel (marker t) st _ s
            ∙ ap (λ o. continue o (trailer_loop sink fuel inputs outputs)) (d.before _ s)
            ∙ deliver-continue sink (event_of t ∷ []) (map event_of ts) st1 st' _ [] s _ e),
      )
