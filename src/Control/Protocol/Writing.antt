-- ===== src/Control/Protocol/Writing.antt =====
-- internal/control/protocol.go and `framedWriter` of server.go: what reaches a connection.
use winsh.Base.{
  ℕ, zero, suc, ◌+◌, ◌<◌, ◌≤◌, ◌≡◌, ◌⊎◌, refl, sym, subst, ◌∙◌, true, ◌||◌, Option, none, some,
  List, [], ◌∷◌, ◌++◌, length, length-append, length-take, length-drop, take, drop, All,
  take-append-drop, take-append-drop-length, ltb, ◌==◌, if◌then◌else◌, case_option,
  case_option-elim, if-elim, arith, inl, inr, Bool-cases, Writer,
}
use mathlib.Core.List.{append_assoc, append-nil}
use winsh.Control.Protocol.{
  max_frame_payload, valid_frame_type, frame_header, frame_allowed, WriteError, writer_error,
  short_write, bad_frame, write_rounds, write_all, write_frame, framed_rounds, framed_write,
}
use winsh.Control.Protocol.RoundTrip.{frame_bytes}

-- The frames of a list of payloads, one after the other.
abbrev pub frames : ℕ → List (List ℕ) → List ℕ
frames kind [] = []
frames kind (chunk ∷ chunks) = frame_bytes kind chunk ++ frames kind chunks

abbrev pub concat : List (List ℕ) → List ℕ
concat [] = []
concat (chunk ∷ chunks) = chunk ++ concat chunks

abbrev pub FitsFrame : List ℕ → Type 0
FitsFrame chunk = (0 < length chunk) × (length chunk ≤ max_frame_payload)

module _ (w : Writer) where
  open w use {State, write, sent, count_le, sent-write}

  -- What a write leaves on the other side: all of the bytes where it did not fail, and otherwise
  -- a part of them from their beginning.
  abbrev pub Delivers : List ℕ → State → Option WriteError × State → Type 0
  Delivers bytes s r =
      ((r.0 ≡ none) × (sent r.1 ≡ sent s ++ bytes))
      ⊎ ((e : WriteError) × (front : List ℕ) × (back : List ℕ) × (r.0 ≡ some e)
          × (bytes ≡ front ++ back)
          × (sent r.1 ≡ sent s ++ front))

  -- A first part that was delivered, and then the rest.
  Delivers-append :
      (front bytes : List ℕ) (s t : State) (r : Option WriteError × State)
      → sent t ≡ sent s ++ front
      → Delivers bytes t r
      → Delivers (front ++ bytes) s r
  Delivers-append front bytes s t r e (inl (ok, d)) = inl (ok, d ∙ rw (e, append_assoc) refl)
  Delivers-append front bytes s t r e (inr (x, sub, back, failed, split, d)) =
      inr (
        x,
        front ++ sub,
        back,
        failed,
        rw (split, append_assoc) refl,
        d ∙ rw (e, append_assoc) refl,
      )

  Delivers-part :
      (bytes : List ℕ) (s t : State) (e : WriteError) (n : ℕ)
      → sent t ≡ sent s ++ take n bytes
      → Delivers bytes s (some e, t)
  Delivers-part bytes s t e n d =
      inr (e, take n bytes, drop n bytes, refl, sym (take-append-drop n bytes), d)

  write_rounds-Delivers :
      (fuel : ℕ) (s : State) (bytes : List ℕ)
      → length bytes ≤ fuel
      → Delivers bytes s (write_rounds w fuel s bytes)
  unfolding write_rounds
  write_rounds-Delivers fuel s [] h = inl (refl, sym (append-nil (sent s)))
  write_rounds-Delivers zero s (b ∷ bytes) h = absurd (omega arith)
  write_rounds-Delivers (suc fuel) s (b ∷ bytes) h =
      let data' = b ∷ bytes in
      let r = write s data' in
      let part = sent-write s data' in
      case_option-elim (Delivers data' s) r.failure
        (λ _.
          if-elim (Delivers data' s) (r.count == 0 || ltb (length data') r.count)
            (λ _. Delivers-part data' s r.state short_write r.count part)
            (λ more.
              let fits : length (drop r.count data') ≤ fuel =
                ground (arith, length-drop r.count data') in
              rw (take-append-drop r.count data') at (
                Delivers-append (take r.count data') (drop r.count data') s r.state _ part
                  (write_rounds-Delivers fuel r.state (drop r.count data') fits))))
        (λ e _. Delivers-part data' s r.state (writer_error e) r.count part)

  -- `writeAll` delivers all of the bytes or fails with a part of them delivered.
  pub write_all-Delivers : (s : State) (bytes : List ℕ) → Delivers bytes s (write_all w s bytes)
  unfolding write_all
  write_all-Delivers s bytes = write_rounds-Delivers (length bytes) s bytes (omega arith)

  -- Two writes, the second only where the first did not fail.
  Delivers-then :
      (front bytes : List ℕ) (s : State) (r : Option WriteError × State)
      (k : State → Option WriteError × State)
      → Delivers front s r
      → ((t : State) → Delivers bytes t (k t))
      → Delivers (front ++ bytes) s (case_option r.0 (k r.1) (λ e. (some e, r.1)))
  Delivers-then front bytes s (none, t) k (inl (_, d)) all =
      Delivers-append front bytes s t (k t) d (all t)
  Delivers-then front bytes s (none, t) k (inr (x, sub, back, failed, split, d)) all = absurd (cc)
  Delivers-then front bytes s (some e, t) k (inl (ok, d)) all = absurd (cc)
  Delivers-then front bytes s (some e, t) k (inr (x, sub, back, failed, split, d)) all =
      inr (e, sub, back ++ bytes, refl, rw (split, append_assoc) refl, d)

  -- `writeFrame` refuses a frame that may not be written before a byte leaves, and delivers the
  -- bytes of any other, or fails with a part of them delivered.
  pub write_frame-Delivers :
      (s : State) (kind : ℕ) (payload : List ℕ)
      → if frame_allowed kind payload
        then Delivers (frame_bytes kind payload) s (write_frame w s kind payload)
        else write_frame w s kind payload ≡ (some bad_frame, s)
  unfolding write_frame
  write_frame-Delivers s kind payload = elim (Bool-cases (frame_allowed kind payload)) [
    | inl e ↦
        let header = frame_header kind (length payload) in
        rw (e, write_frame)
          (Delivers-then header payload s (write_all w s header) (λ t. write_all w t payload)
            (write_all-Delivers s header) (λ t. write_all-Delivers t payload))
    | inr e ↦ rw (e, write_frame) refl
  ]

  -- Nothing, or a beginning of the frame that carries the first bytes of the rest.
  abbrev pub Begins : ℕ → List ℕ → List ℕ → Type 0
  Begins kind rest partial =
      (partial ≡ [])
      ⊎ ((next : List ℕ) × (later : List ℕ) × (back : List ℕ) × FitsFrame next
          × (rest ≡ next ++ later)
          × (frame_bytes kind next ≡ partial ++ back))

  -- What `framedWriter.Write` leaves: the data up to the count that it returns as whole frames,
  -- and after a failure a beginning of the frame with the next bytes of the data.
  pub record Framed (kind : ℕ) (bytes : List ℕ) (s : State) (done : ℕ)
      (r : ℕ × Option WriteError × State) : Type 0 where
    pub chunks : List (List ℕ)
    pub rest : List ℕ
    pub partial : List ℕ
    pub fits : All FitsFrame chunks
    pub split : bytes ≡ concat chunks ++ rest
    pub count : r.0 ≡ done + length (concat chunks)
    pub complete : r.1 ≡ none → (rest ≡ []) × (partial ≡ [])
    pub begins : Begins kind rest partial
    pub delivered : sent r.2 ≡ sent s ++ (frames kind chunks ++ partial)

  Framed-cons :
      (kind : ℕ) (chunk rest : List ℕ) (s : State) (done : ℕ) (r : Option WriteError × State)
      (k : State → ℕ × Option WriteError × State)
      → FitsFrame chunk
      → Delivers (frame_bytes kind chunk) s r
      → ((t : State) → Framed kind rest t (done + length chunk) (k t))
      → Framed kind (chunk ++ rest) s done (case_option r.0 (k r.1) (λ e. (done, some e, r.1)))
  Framed-cons kind chunk rest s done (none, t) k fit (inl (_, d)) all =
      let f = all t in
      record {
        chunks = chunk ∷ f.chunks;
        rest = f.rest;
        partial = f.partial;
        fits = (fit, f.fits);
        split = rw (f.split, append_assoc) refl;
        count = omega (arith, f.count, length-append chunk (concat f.chunks));
        complete = f.complete;
        begins = f.begins;
        delivered = f.delivered ∙ rw d (simp append_assoc);
      }
  Framed-cons kind chunk rest s done (none, t) k fit (inr (x, sub, back, failed, cut, d)) all =
      absurd (cc)
  Framed-cons kind chunk rest s done (some e, t) k fit (inl (ok, d)) all = absurd (cc)
  Framed-cons kind chunk rest s done (some e, t) k fit (inr (x, sub, back, failed, cut, d)) all =
      record {
        chunks = [];
        rest = chunk ++ rest;
        partial = sub;
        fits = tt;
        split = refl;
        count = omega arith;
        complete = λ c. absurd (cc);
        begins = inr (chunk, rest, back, fit, refl, cut);
        delivered = d;
      }

  write_frame-fits :
      (s : State) (kind : ℕ) (chunk : List ℕ)
      → valid_frame_type kind ≡ true
      → length chunk ≤ max_frame_payload
      → Delivers (frame_bytes kind chunk) s (write_frame w s kind chunk)
  write_frame-fits s kind chunk valid h =
      let allowed : frame_allowed kind chunk ≡ true = unfold frame_allowed in ground arith in
      rw allowed at (write_frame-Delivers s kind chunk)

  framed_rounds-Framed :
      (fuel kind : ℕ) (s : State) (done : ℕ) (bytes : List ℕ)
      → valid_frame_type kind ≡ true
      → length bytes ≤ fuel
      → Framed kind bytes s done (framed_rounds w fuel kind s done bytes)
  unfolding framed_rounds
  framed_rounds-Framed fuel kind s done [] valid h = record {
    chunks = [];
    rest = [];
    partial = [];
    fits = tt;
    split = refl;
    count = omega arith;
    complete = λ _. (refl, refl);
    begins = inl refl;
    delivered = sym (append-nil (sent s));
  }
  framed_rounds-Framed zero kind s done (b ∷ bytes) valid h = absurd (omega arith)
  framed_rounds-Framed (suc fuel) kind s done (b ∷ bytes) valid h =
      let chunk : List ℕ = take max_frame_payload (b ∷ bytes) in
      let rest : List ℕ = drop (length chunk) (b ∷ bytes) in
      let size = length-take max_frame_payload (b ∷ bytes) in
      let fit : FitsFrame chunk = (omega arith, omega arith) in
      let shorter : length rest ≤ fuel = omega (arith, length-drop (length chunk) (b ∷ bytes)) in
      subst
        (λ (all : List ℕ).
          Framed kind all s done (framed_rounds w (suc fuel) kind s done (b ∷ bytes)))
        (take-append-drop-length max_frame_payload (b ∷ bytes))
        (Framed-cons kind chunk rest s done (write_frame w s kind chunk)
          (λ t. framed_rounds w fuel kind t (done + length chunk) rest) fit
          (write_frame-fits s kind chunk valid fit.1)
          (λ t. framed_rounds-Framed fuel kind t (done + length chunk) rest valid shorter))

  -- `framedWriter.Write` cuts the data into frames of 1 to `max_frame_payload` bytes. Where it
  -- does not fail, all of the data went out in whole frames; otherwise the data up to the count
  -- that it returns did, and behind it at most a beginning of one more frame, which carries the
  -- first bytes of the rest of the data. It never runs out of rounds.
  pub framed_write-Framed :
      (s : State) (kind : ℕ) (bytes : List ℕ)
      → valid_frame_type kind ≡ true
      → Framed kind bytes s 0 (framed_write w kind s bytes)
  unfolding framed_write
  framed_write-Framed s kind bytes valid =
      framed_rounds-Framed (length bytes) kind s 0 bytes valid (omega arith)
