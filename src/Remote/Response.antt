-- ===== src/Remote/Response.antt =====
-- internal/remote/response.go: the parts of a SOAP reply that winsh reads. A reply stands for what
-- encoding/xml makes of it: `none` where it is no envelope. Texts are lists of code points.
pub mod Output
use winsh.Base.{
  ℕ, zero, suc, ◌≡◌, refl, ◌+◌, ◌*◌, ◌-◌, Bool, true, false, not, ◌&&◌, ◌||◌, Option, none, some,
  List, [], ◌∷◌, ◌++◌, length, ltb, leb, ◌==◌, if◌then◌else◌, case_option, Error, Mark,
  operation_timeout,
}

-- The addressing action of a reply, told apart as far as winsh compares it.
pub data Action : Type 0 where
  create_response command_response send_response receive_response signal_response : Action
  delete_response other_action : Action

abbrev pub same_action : Action → Action → Bool
same_action create_response create_response = true
same_action command_response command_response = true
same_action send_response send_response = true
same_action receive_response receive_response = true
same_action signal_response signal_response = true
same_action delete_response delete_response = true
same_action _ _ = false

-- The `Name` of an output stream.
pub data StreamName : Type 0 where
  stdout stderr other_stream : StreamName

-- The element ReceiveResponse. `done` says that the state is CommandState/Done, and `exit` is the
-- text of ExitCode.
pub record ReceiveBody : Type 0 where
  pub streams : List (StreamName × List ℕ)
  pub done : Bool
  pub exit : List ℕ

pub record Response : Type 0 where
  pub action : Action
  pub fault : Option (List ℕ)
  pub shell_id : List ℕ
  pub command_id : List ℕ
  pub receive : Option ReceiveBody

abbrev pub Reply : Type 0
Reply = Option Response

pub data Parsed {ℓ} (A : Type ℓ) : Type ℓ where
  parsed : A → Parsed A
  refused : Error → Parsed A

abbrev pub same_text : List ℕ → List ℕ → Bool
same_text [] [] = true
same_text (a ∷ as') (b ∷ bs) = a == b && same_text as' bs
same_text _ _ = false

-- "2150858793"
abbrev pub timeout_fault : List ℕ
timeout_fault = 50 ∷ 49 ∷ 53 ∷ 48 ∷ 56 ∷ 53 ∷ 56 ∷ 55 ∷ 57 ∷ 51 ∷ []

-- `parseResponse`. The other fault errors differ in their text alone.
unfoldable pub parse_response : Reply → Parsed Response
parse_response none = refused []
parse_response (some r) =
    case_option r.fault (parsed r) (λ code.
      if same_text code timeout_fault then refused (operation_timeout ∷ []) else refused [])

-- A character of an identifier: a letter, a digit or "-".
abbrev pub id_char : ℕ → Bool
id_char c = (leb 97 c && leb c 122) || (leb 65 c && leb c 90) || (leb 48 c && leb c 57) || c == 45

abbrev pub all_chars : (ℕ → Bool) → List ℕ → Bool
all_chars p [] = true
all_chars p (c ∷ cs) = p c && all_chars p cs

unfoldable pub valid_id : List ℕ → Bool
valid_id id = if length id == 0 || ltb 128 (length id) then false else all_chars id_char id

-- `unicode.IsSpace`
abbrev pub is_space : ℕ → Bool
is_space c =
    (leb 9 c && leb c 13)
    || c == 32
    || c == 0x85
    || c == 0xa0
    || c == 0x1680
    || (leb 0x2000 c && leb c 0x200a)
    || c == 0x2028
    || c == 0x2029
    || c == 0x202f
    || c == 0x205f
    || c == 0x3000

-- `strings.TrimSpace` is `trim_right (trim_left text)`.
unfoldable pub trim_left : List ℕ → List ℕ
trim_left [] = []
trim_left (c ∷ cs) = if is_space c then trim_left cs else c ∷ cs

unfoldable pub trim_right : List ℕ → List ℕ
trim_right [] = []
trim_right (c ∷ cs) =
    let rest = trim_right cs in if is_space c && length rest == 0 then [] else c ∷ rest

-- `strconv.ParseUint(text, 10, 32)`
abbrev pub is_digit : ℕ → Bool
is_digit c = leb 48 c && leb c 57

unfoldable pub digits_value : ℕ → List ℕ → Option ℕ
digits_value acc [] = some acc
digits_value acc (c ∷ cs) =
    let rest = digits_value (acc * 10 + (c - 48)) cs in if is_digit c then rest else none

unfoldable pub parse_uint32 : List ℕ → Option ℕ
parse_uint32 text =
    if length text == 0
    then none
    else case_option (digits_value 0 text) none (λ n. if ltb n 4294967296 then some n else none)

-- What `response.receive` answers: an error, or whether the command is done and its exit code.
pub data Received : Type 0 where
  failed : Error → Received
  running : Received
  finished : ℕ → Received

abbrev pub case_received {ℓ} : {B : Type ℓ} → Received → (Error → B) → B → (ℕ → B) → B
case_received (failed e) f x g = f e
case_received running f x g = x
case_received (finished n) f x g = g n

pub case_received-elim {ℓ κ} :
    {B : Type ℓ} (P : B → Type κ) (r : Received) {f : Error → B} {x : B} {g : ℕ → B}
    → ((e : Error) → r ≡ failed e → P (f e))
    → (r ≡ running → P x)
    → ((n : ℕ) → r ≡ finished n → P (g n))
    → P (case_received r f x g)
case_received-elim P (failed e) p q t = p e refl
case_received-elim P running p q t = q refl
case_received-elim P (finished n) p q t = t n refl

-- The writers of the caller, with one state for both, and base64 decoding.
pub record Sink : Type 1 where
  pub State : Type 0
  pub out : Bool → State → List ℕ → ℕ × Option Error × State
  pub decode : List ℕ → Option (List ℕ)

module _ (k : Sink) where
  open k use {State, out, decode}

  -- What a write means for the loop: its error, a short write, or none.
  abbrev pub write_failure : List ℕ → ℕ × Option Error × State → Option Error
  write_failure bytes (n, err, s) =
      case_option err (if n == length bytes then none else some []) (λ e. some e)

  abbrev pub after_write : List ℕ → ℕ × Option Error × State → Option Error × State
  after_write bytes r = (write_failure bytes r, r.2)

  abbrev pub put_bytes : StreamName → List ℕ → State → Option Error × State
  put_bytes stdout bytes s = after_write bytes (out false s bytes)
  put_bytes stderr bytes s = after_write bytes (out true s bytes)
  put_bytes other_stream bytes s = (some [], s)

  -- The loop over the stream elements; it ends at the first error.
  unfoldable pub put_streams : List (StreamName × List ℕ) → State → Option Error × State
  put_streams [] s = (none, s)
  put_streams ((name, text) ∷ streams) s =
      case_option (decode text) (some [], s)
        (λ bytes.
          let r = put_bytes name bytes s in
          let more = put_streams streams r.1 in case_option r.0 more (λ e. (some e, r.1)))

  -- The end of `response.receive`, behind the streams.
  unfoldable pub command_state : ReceiveBody → Received
  command_state body =
      if body.done
      then case_option (parse_uint32 (trim_right (trim_left body.exit))) (failed [])
          (λ code. finished code)
      else running

  -- `response.receive`
  unfoldable pub receive_output : Response → State → Received × State
  receive_output r s =
      if same_action r.action receive_response
      then case_option r.receive (failed [], s)
          (λ body.
            let put = put_streams body.streams s in
            case_option put.0 (command_state body, put.1) (λ e. (failed e, put.1)))
      else (failed [], s)
