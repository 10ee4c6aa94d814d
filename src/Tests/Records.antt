-- ===== src/Tests/Records.antt =====
-- A control record as the receiver writes it.
use winsh.Base.{ℕ, ◌≡◌, ◌≤◌, refl, true, Option, none, some, List, [], ◌∷◌, length}
use winsh.Remote.Codec.Records.{
  ℤ, pos, version, id, bytes, sha256, object_opening, at_end, Json, Record, member, Document,
  set_field, read_members, check_record, read_document, read_record,
}
use winsh.Remote.Codec.Records.Schema.{Accepted, read_record-Accepted}

pub data Value : Type 0 where
  number : ℤ → Value
  string : List ℕ → Value

abbrev pub value_int64 : Value → Option ℤ
value_int64 (number n) = some n
value_int64 (string t) = none

abbrev pub value_text : Value → Option (List ℕ)
value_text (number n) = none
value_text (string t) = some t

abbrev pub values : Json
values = record { Raw = Value; int64 = value_int64; text = value_text }

abbrev pub digest : List ℕ
digest =
    48 ∷ 48 ∷ 48 ∷ 48 ∷ 48 ∷ 48 ∷ 48 ∷ 48 ∷ 48 ∷ 48 ∷ 48 ∷ 48 ∷ 48 ∷ 48 ∷ 48 ∷ 48 ∷ 48 ∷ 48 ∷ 48
    ∷ 48 ∷ 48 ∷ 48 ∷ 48 ∷ 48 ∷ 48 ∷ 48 ∷ 48 ∷ 48 ∷ 48 ∷ 48 ∷ 48 ∷ 48 ∷ 48 ∷ 48 ∷ 48 ∷ 48 ∷ 48 ∷ 48
    ∷ 48 ∷ 48 ∷ 48 ∷ 48 ∷ 48 ∷ 48 ∷ 48 ∷ 48 ∷ 48 ∷ 48 ∷ 48 ∷ 48 ∷ 48 ∷ 48 ∷ 48 ∷ 48 ∷ 48 ∷ 48 ∷ 48
    ∷ 48 ∷ 48 ∷ 48 ∷ 48 ∷ 48 ∷ 48 ∷ 48 ∷ []

abbrev pub document : Document values
document = record {
  opening = object_opening;
  members =
      member id (some (string (97 ∷ [])))
      ∷ member version (some (number (pos 1)))
      ∷ member sha256 (some (string digest))
      ∷ member bytes (some (number (pos 5)))
      ∷ [];
  closes = true;
  trailing = at_end;
}

abbrev stage_record : Record
stage_record = record {
  record_version = pos 1;
  record_id = 97 ∷ [];
  record_bytes = pos 5;
  record_sha256 = digest;
}

record_read : read_record values (λ b. document) (some (123 ∷ [])) (97 ∷ []) ≡ some stage_record
unfolding read_record read_document read_members set_field check_record
record_read = refl

read_record-Accepted_example :
    (b : List ℕ) × (some (123 ∷ []) ≡ some b)
    × (length b ≤ 4096)
    × Accepted values document (97 ∷ []) stage_record
read_record-Accepted_example =
    read_record-Accepted values (λ b. document) (some (123 ∷ [])) (97 ∷ []) stage_record record_read
