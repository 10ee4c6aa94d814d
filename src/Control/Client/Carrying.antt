-- ===== src/Control/Client/Carrying.antt =====
-- internal/control/client.go: the frames of an output are passed on in order.
use winsh.Base.{
  ℕ, zero, suc, ◌+◌, ◌^◌, ◌<◌, ◌≤◌, ◌≡◌, refl, sym, ap, inl, inr, ◌∙◌, Bool, true, false, not,
  Option, none, some, List, [], ◌∷◌, ◌++◌, length, length-append, All, ltb, if◌then◌else◌,
  case_option, Writer, arith, ==_refl,
}
use mathlib.Core.List.{append_assoc, append-nil}
use winsh.Control.Protocol
use winsh.Control.Protocol.{
  Read, ok, err, read_frame, frame_allowed, frame_header, big_endian, max_frame_payload,
  frame_stdout, frame_stderr, frame_result, frame_error, WriteError, write_frame, framed_write,
}
use winsh.Control.Protocol.RoundTrip.{frame_bytes, read_frame-frame_bytes}
use winsh.Control.Protocol.Writing.{frames, concat, FitsFrame, write_frame-Delivers, Delivers}
use winsh.Control.Wire.{Decoder}
use winsh.Control.Client.{Outputs, Course, relay_output, invoke_rounds}

-- The kind of the frames of an output: `true` is stderr.
abbrev pub output_kind : Bool → ℕ
output_kind true = frame_stderr
output_kind false = frame_stdout

-- The writes of a command, in order, as long as none fails.
unfoldable pub send_outputs : (w : Writer) → w.State → List (Bool × List ℕ) → Option w.State
send_outputs w s [] = some s
send_outputs w s ((to_stderr, bytes) ∷ writes) =
    let r = framed_write w (output_kind to_stderr) s bytes in
    let more = send_outputs w r.2 writes in case_option r.1 more (λ e. none)

abbrev pub same_output : Bool → Bool → Bool
same_output true b = b
same_output false b = not b

-- All that was written to one output.
abbrev pub written_to : Bool → List (Bool × List ℕ) → List ℕ
written_to b [] = []
written_to b ((c, bytes) ∷ writes) = (if same_output b c then bytes else []) ++ written_to b writes

-- Writers of the caller that take everything.
pub record Accepting (outputs : Outputs) : Type 0 where
  pub taken : Bool → outputs.State → List ℕ
  pub whole : (b : Bool) (s : outputs.State) (p : List ℕ) → (outputs.write b s p).0 ≡ length p
  pub fine : (b : Bool) (s : outputs.State) (p : List ℕ) → (outputs.write b s p).1 ≡ none
  pub takes :
      (b c : Bool) (s : outputs.State) (p : List ℕ)
      → taken b (outputs.write c s p).2 ≡ taken b s ++ (if same_output b c then p else [])

-- A command that is neither canceled nor late.
pub record Undisturbed (course : Course) : Type 0 where
  pub running : (n : ℕ) → course.clock n ≡ none
  pub unblocked : (n : ℕ) → course.interrupts n ≡ none

output_allowed :
    (b : Bool) (chunk : List ℕ)
    → length chunk ≤ max_frame_payload
    → frame_allowed (output_kind b) chunk ≡ true
unfolding frame_allowed
output_allowed true chunk h = ground arith
output_allowed false chunk h = ground arith

pub frame_bytes_pos : (kind : ℕ) (chunk : List ℕ) → 0 < length (frame_bytes kind chunk)
unfolding frame_header
frame_bytes_pos kind chunk = omega arith

if-append :
    (b : Bool) (xs ys : List ℕ)
    → (if b then xs else []) ++ (if b then ys else []) ≡ (if b then xs ++ ys else [])
if-append true xs ys = refl
if-append false xs ys = refl

if_same : (b : Bool) → (if b then [] else []) ≡ ◌++◌ {A = ℕ} [] []
if_same true = refl
if_same false = refl

pub same_state : (w : Writer) {s t : w.State} → some s ≡ some t → s ≡ t
same_state w e = cc

pub kind_valid : (b : Bool) → winsh.Control.Protocol.valid_frame_type (output_kind b) ≡ true
kind_valid true = refl
kind_valid false = refl

pub in_range : (c : ℕ) → c < 2 ^ 32 → ltb 4294967295 c ≡ false
in_range c lt = ground arith

delivered :
    (w : Writer) (t u : w.State) (bytes : List ℕ)
    → Delivers w bytes t (none, u)
    → w.sent u ≡ w.sent t ++ bytes
delivered w t u bytes (inl (_, d)) = d
delivered w t u bytes (inr (x, sub, back, failed, split, d)) = absurd (cc)

pub answer_sent :
    (w : Writer) (t u : w.State) (payload : List ℕ)
    → frame_allowed frame_result payload ≡ true
    → write_frame w t frame_result payload ≡ (none, u)
    → w.sent u ≡ w.sent t ++ frame_bytes frame_result payload
answer_sent w t u payload allowed answered =
    let d : Delivers w (frame_bytes frame_result payload) t (none, u) =
      rw (allowed, answered) at (write_frame-Delivers w t frame_result payload) in
    delivered w t u (frame_bytes frame_result payload) d

module _ (decoder : Decoder) (course : Course) (outputs : Outputs) (calm : Undisturbed course)
    (accepts : Accepting outputs) where
  open outputs use {State, write}

  -- The loop reads what comes first, and goes on behind it.
  pub record Passes (m n : ℕ) (stream rest : List ℕ) (o : State) (got : Bool → List ℕ)
      : Type 0 where
    pub rounds : ℕ
    pub number : ℕ
    pub state : State
    pub left : m ≤ rounds + length stream
    pub goes_on :
        invoke_rounds decoder course outputs m n (stream ++ rest) o
        ≡ invoke_rounds decoder course outputs rounds number rest state
    pub given : (b : Bool) → accepts.taken b state ≡ accepts.taken b o ++ got b

  output_frame :
      (c : Bool) (chunk rest : List ℕ) (m n : ℕ) (o : State)
      → length chunk ≤ max_frame_payload
      → invoke_rounds decoder course outputs (suc m) n (frame_bytes (output_kind c) chunk ++ rest) o
        ≡ invoke_rounds decoder course outputs m (suc n) rest (write c o chunk).2
  unfolding invoke_rounds relay_output
  output_frame true chunk rest m n o h = rw (
    read_frame-frame_bytes (output_kind true) chunk rest (output_allowed true chunk h),
    calm.running n,
    calm.unblocked n,
    accepts.fine true o chunk,
    accepts.whole true o chunk,
    ==_refl (length chunk),
  )
  output_frame false chunk rest m n o h = rw (
    read_frame-frame_bytes (output_kind false) chunk rest (output_allowed false chunk h),
    calm.running n,
    calm.unblocked n,
    accepts.fine false o chunk,
    accepts.whole false o chunk,
    ==_refl (length chunk),
  )

  -- Nothing comes first.
  pub carry_nothing : (m n : ℕ) (rest : List ℕ) (o : State) → Passes m n [] rest o (λ b. [])
  carry_nothing m n rest o = record {
    rounds = m;
    number = n;
    state = o;
    left = omega arith;
    goes_on = refl;
    given = λ b. sym (append-nil (accepts.taken b o));
  }

  -- One part behind another.
  pub carry_then :
      (m n : ℕ) (xs ys rest : List ℕ) (o : State) (f g : Bool → List ℕ)
      → (a : Passes m n xs (ys ++ rest) o f) → Passes a.rounds a.number ys rest a.state g
      → Passes m n (xs ++ ys) rest o (λ b. f b ++ g b)
  carry_then m n xs ys rest o f g a c = record {
    rounds = c.rounds;
    number = c.number;
    state = c.state;
    left = omega (arith, a.left, c.left, length-append xs ys);
    goes_on =
        ap (λ z. invoke_rounds decoder course outputs m n z o) (append_assoc xs ys rest)
        ∙ a.goes_on
        ∙ c.goes_on;
    given = λ b.
        c.given b ∙ ap (λ z. z ++ g b) (a.given b) ∙ append_assoc (accepts.taken b o) (f b) (g b);
  }

  pub carry_as :
      (m n : ℕ) (stream rest : List ℕ) (o : State) (f g : Bool → List ℕ)
      → Passes m n stream rest o f
      → ((b : Bool) → f b ≡ g b)
      → Passes m n stream rest o g
  carry_as m n stream rest o f g a same = record {
    rounds = a.rounds;
    number = a.number;
    state = a.state;
    left = a.left;
    goes_on = a.goes_on;
    given = λ b. a.given b ∙ ap (◌++◌ (accepts.taken b o)) (same b);
  }

  carry_frame :
      (c : Bool) (chunk rest : List ℕ) (m n : ℕ) (o : State)
      → length chunk ≤ max_frame_payload
      → 0 < m
      → Passes m n
          (frame_bytes (output_kind c) chunk)
          rest
          o
          (λ b. if same_output b c then chunk else [])
  carry_frame c chunk rest zero n o h lt = absurd (omega arith)
  carry_frame c chunk rest (suc m) n o h lt = record {
    rounds = m;
    number = suc n;
    state = (write c o chunk).2;
    left = omega (arith, frame_bytes_pos (output_kind c) chunk);
    goes_on = output_frame c chunk rest m n o h;
    given = λ b. accepts.takes b c o chunk;
  }

  pub carry_frames :
      (c : Bool) (chunks : List (List ℕ)) (rest : List ℕ) (m n : ℕ) (o : State)
      → All FitsFrame chunks
      → length (frames (output_kind c) chunks) < m
      → Passes m n
          (frames (output_kind c) chunks)
          rest
          o
          (λ b. if same_output b c then concat chunks else [])
  carry_frames c [] rest m n o fit lt =
      carry_as m n [] rest o (λ b. []) _ (carry_nothing m n rest o)
        (λ b. sym (if_same (same_output b c)))
  carry_frames c (chunk ∷ chunks) rest m n o (fit, fits) lt =
      let a =
        carry_frame c chunk (frames (output_kind c) chunks ++ rest) m n o fit.1 (omega arith) in
      let later = carry_frames c chunks rest a.rounds a.number a.state fits (
        omega (
          arith,
          a.left,
          length-append (frame_bytes (output_kind c) chunk) (frames (output_kind c) chunks),
        )) in
      carry_as m n (frame_bytes (output_kind c) chunk ++ frames (output_kind c) chunks) rest o _ _
        (carry_then m n (frame_bytes (output_kind c) chunk) (frames (output_kind c) chunks) rest o _
          _ a later)
        (λ b. if-append (same_output b c) chunk (concat chunks))
