-- ===== src/Control/Wire.antt =====
-- The result that a master sends, as a client decodes it: `Result` and `validCategory` of
-- internal/control/protocol.go.
use winsh.Base.{ℕ, Bool, true, false, Option, List, [], ◌∷◌, length, ◌==◌, if◌then◌else◌, Error}
use winsh.Remote.Response.{same_text}
use winsh.Control.Category.{Category, Result}

-- The text of a category: none, a known one, or another.
pub data CategoryText : Type 0 where
  no_category other_category : CategoryText
  known : Category → CategoryText

abbrev pub valid_category : CategoryText → Bool
valid_category (known c) = true
valid_category _ = false

-- The texts of the categories.
unfoldable pub category_text : Category → List ℕ
category_text Category.not_started =
    110 ∷ 111 ∷ 116 ∷ 45 ∷ 115 ∷ 116 ∷ 97 ∷ 114 ∷ 116 ∷ 101 ∷ 100 ∷ []
category_text Category.identity_mismatch =
    105 ∷ 100 ∷ 101 ∷ 110 ∷ 116 ∷ 105 ∷ 116 ∷ 121 ∷ 45 ∷ 109 ∷ 105 ∷ 115 ∷ 109 ∷ 97 ∷ 116 ∷ 99 ∷ 104
    ∷ []
category_text Category.persist_mismatch =
    112 ∷ 101 ∷ 114 ∷ 115 ∷ 105 ∷ 115 ∷ 116 ∷ 45 ∷ 109 ∷ 105 ∷ 115 ∷ 109 ∷ 97 ∷ 116 ∷ 99 ∷ 104 ∷ []
category_text Category.queue_full = 113 ∷ 117 ∷ 101 ∷ 117 ∷ 101 ∷ 45 ∷ 102 ∷ 117 ∷ 108 ∷ 108 ∷ []
category_text Category.timeout = 116 ∷ 105 ∷ 109 ∷ 101 ∷ 111 ∷ 117 ∷ 116 ∷ []
category_text Category.canceled = 99 ∷ 97 ∷ 110 ∷ 99 ∷ 101 ∷ 108 ∷ 101 ∷ 100 ∷ []
category_text Category.cleanup_failed =
    99 ∷ 108 ∷ 101 ∷ 97 ∷ 110 ∷ 117 ∷ 112 ∷ 45 ∷ 102 ∷ 97 ∷ 105 ∷ 108 ∷ 101 ∷ 100 ∷ []
category_text Category.remote_state_unknown =
    114 ∷ 101 ∷ 109 ∷ 111 ∷ 116 ∷ 101 ∷ 45 ∷ 115 ∷ 116 ∷ 97 ∷ 116 ∷ 101 ∷ 45 ∷ 117 ∷ 110 ∷ 107 ∷ 110
    ∷ 111 ∷ 119 ∷ 110 ∷ []
category_text Category.unavailable =
    117 ∷ 110 ∷ 97 ∷ 118 ∷ 97 ∷ 105 ∷ 108 ∷ 97 ∷ 98 ∷ 108 ∷ 101 ∷ []

-- `validCategory`, which also tells the category.
unfoldable pub read_category : List ℕ → CategoryText
read_category text =
    if same_text text (category_text Category.not_started)
    then known Category.not_started
    else (if same_text text (category_text Category.identity_mismatch)
        then known Category.identity_mismatch
        else (if same_text text (category_text Category.persist_mismatch)
            then known Category.persist_mismatch
            else (if same_text text (category_text Category.queue_full)
                then known Category.queue_full
                else (if same_text text (category_text Category.timeout)
                    then known Category.timeout
                    else (if same_text text (category_text Category.canceled)
                        then known Category.canceled
                        else (if same_text text (category_text Category.cleanup_failed)
                            then known Category.cleanup_failed
                            else (if same_text text (category_text Category.remote_state_unknown)
                                then known Category.remote_state_unknown
                                else (if same_text text (category_text Category.unavailable)
                                    then known Category.unavailable
                                    else (if length text == 0
                                        then no_category
                                        else other_category)))))))))

-- An exit code as JSON gives it; `negative` is one below 0.
pub data ExitCode : Type 0 where
  code : ℕ → ExitCode
  negative : ExitCode

pub record WireResult : Type 0 where
  pub exit_code : ExitCode
  pub category : CategoryText

-- What encoding/json finds in a payload: `decodeStrictJSON`, and `json.Unmarshal` into a result.
pub record Decoder : Type 0 where
  pub strict : List ℕ → Option WireResult
  pub loose : List ℕ → Option WireResult

-- An error of the control path, as its callers tell it apart: a context's error, a CategoryError,
-- `errMasterUnresponsive`, `ErrProtocol`, or any other.
pub data ControlFailure : Type 0 where
  context_done : Error → ControlFailure
  category_error : CategoryText → ControlFailure
  unresponsive protocol_error other_failure : ControlFailure

-- An error of the control path: whether it is a controlPasswordError, and the category that
-- `errors.As` finds in it.
pub record ControlError : Type 0 where
  pub marks : Error
  pub password : Bool
  pub category : Option Category

-- What `control.Invoke` returns.
pub data Invoked : Type 0 where
  invoked : Result → Invoked
  not_invoked : ControlError → Invoked

abbrev pub case_invoked {ℓ} : {B : Type ℓ} → Invoked → (Result → B) → (ControlError → B) → B
case_invoked (invoked r) f g = f r
case_invoked (not_invoked e) f g = g e
