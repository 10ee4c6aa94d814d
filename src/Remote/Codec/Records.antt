-- ===== src/Remote/Codec/Records.antt =====
-- `readRecord` of internal/remote/transfer_codec.go, the control record of a transfer. What
-- encoding/json's decoder finds in a body is a document: its tokens, and each member's raw value.
pub mod Schema
use winsh.Base.{
  ℕ, zero, suc, ◌+◌, ◌-◌, ◌≡◌, refl, Bool, true, false, not, ◌&&◌, ◌||◌, Option, none, some, List,
  [], ◌∷◌, length, ltb, leb, ◌==◌, if◌then◌else◌, case_option,
}
use winsh.Remote.Response.{same_text}

-- The int64 values.
pub data ℤ : Type 0 where
  pos : ℕ → ℤ
  negsuc : ℕ → ℤ

-- A member's key, told apart as far as the schema does.
pub data Key : Type 0 where
  version id bytes sha256 unknown_key : Key

pub data Opening : Type 0 where
  opening_error other_opening object_opening : Opening

pub data Trailing : Type 0 where
  at_end further_token trailing_error : Trailing

-- `json.Number` with its Int64, and JSON strings.
pub record Json : Type 1 where
  pub Raw : Type 0
  pub int64 : Raw → Option ℤ
  pub text : Raw → Option (List ℕ)

pub record Record : Type 0 where
  pub record_version : ℤ
  pub record_id : List ℕ
  pub record_bytes : ℤ
  pub record_sha256 : List ℕ

-- The map `required`.
pub record Present : Type 0 where
  pub has_version : Bool
  pub has_id : Bool
  pub has_bytes : Bool
  pub has_sha256 : Bool

abbrev pub present : Key → Present → Bool
present version p = p.has_version
present id p = p.has_id
present bytes p = p.has_bytes
present sha256 p = p.has_sha256
present unknown_key p = false

abbrev pub mark_present : Key → Present → Present
mark_present version p = record p { has_version = true }
mark_present id p = record p { has_id = true }
mark_present bytes p = record p { has_bytes = true }
mark_present sha256 p = record p { has_sha256 = true }
mark_present unknown_key p = p

abbrev pub is_unknown : Key → Bool
is_unknown unknown_key = true
is_unknown _ = false

abbrev pub no_keys : Present
no_keys = record { has_version = false; has_id = false; has_bytes = false; has_sha256 = false }

abbrev pub empty_record : Record
empty_record = record {
  record_version = pos 0;
  record_id = [];
  record_bytes = pos 0;
  record_sha256 = [];
}

-- 0 to 1<<31 - 1
abbrev pub in_version_range : ℤ → Bool
in_version_range (pos n) = leb n 2147483647
in_version_range (negsuc n) = false

abbrev pub is_version_one : ℤ → Bool
is_version_one (pos n) = n == 1
is_version_one (negsuc n) = false

abbrev pub is_negative : ℤ → Bool
is_negative (pos n) = false
is_negative (negsuc n) = true

-- A lower-case hexadecimal digit.
abbrev pub is_hex_digit : ℕ → Bool
is_hex_digit c = (leb 48 c && leb c 57) || (leb 97 c && leb c 102)

abbrev pub all_hex : List ℕ → Bool
all_hex [] = true
all_hex (c ∷ cs) = is_hex_digit c && all_hex cs

module _ (json : Json) where
  open json use {Raw, int64, text}

  -- A round of the loop over the members, as the decoder gives it: no key, a key that is no
  -- string, or a key with its raw value, where it has one.
  pub data Member : Type 0 where
    key_error : Member
    key_no_text : Member
    member : Key → Option Raw → Member

  pub record Document : Type 0 where
    pub opening : Opening
    pub members : List Member
    pub closes : Bool
    pub trailing : Trailing

  -- The switch over the key.
  unfoldable pub set_field : Key → Raw → Record → Option Record
  set_field version raw r =
      case_option (int64 raw) none
        (λ n. if in_version_range n then some (record r { record_version = n }) else none)
  set_field id raw r = case_option (text raw) none (λ t. some (record r { record_id = t }))
  set_field bytes raw r = case_option (int64 raw) none (λ n. some (record r { record_bytes = n }))
  set_field sha256 raw r = case_option (text raw) none (λ t. some (record r { record_sha256 = t }))
  set_field unknown_key raw r = none

  abbrev pub case_member {ℓ} : {B : Type ℓ} → Member → B → (Key → Option Raw → B) → B
  case_member key_error x f = x
  case_member key_no_text x f = x
  case_member (member key raw) x f = f key raw

  -- The loop over the members.
  unfoldable pub read_members : List Member → Present → Record → Option (Present × Record)
  read_members [] p r = some (p, r)
  read_members (m ∷ ms) p r = case_member m none (λ key raw.
      if is_unknown key || present key p
      then none
      else case_option raw none (λ value.
        case_option (set_field key value r) none (λ r'. read_members ms (mark_present key p) r')))

  abbrev pub is_object : Opening → Bool
  is_object object_opening = true
  is_object _ = false

  abbrev pub is_at_end : Trailing → Bool
  is_at_end at_end = true
  is_at_end _ = false

  abbrev pub all_present : Present → Bool
  all_present p = p.has_version && p.has_id && p.has_bytes && p.has_sha256

  -- The checks behind the decoding.
  unfoldable pub check_record : List ℕ → Record → Bool
  check_record expected r =
      is_version_one r.record_version
      && same_text r.record_id expected
      && not (is_negative r.record_bytes)
      && length r.record_sha256 == 64
      && all_hex r.record_sha256

  unfoldable pub read_document : Document → List ℕ → Option Record
  read_document d expected =
      if is_object d.opening
      then case_option (read_members d.members no_keys empty_record) none (λ (p, r).
        if d.closes && is_at_end d.trailing && all_present p && check_record expected r
        then some r
        else none)
      else none

  -- `readRecord`; its errors differ in their text alone. `body` is `none` where the reading fails,
  -- and otherwise what the reader gives, up to one byte above the limit.
  unfoldable pub read_record : (List ℕ → Document) → Option (List ℕ) → List ℕ → Option Record
  read_record decoder body expected =
      case_option body none
        (λ b. if ltb 4096 (length b) then none else read_document (decoder b) expected)
