-- ===== src/Remote/Codec/Paths.antt =====
-- `validateRemotePath` and `isReservedStem` of internal/remote/transfer_codec.go, and
-- `remoteStageParent` of internal/remote/localfile.go with the stage path that upload.go makes of
-- it. A path is the list of its bytes: every character that the code looks for is ASCII, and no
-- other character has one of the device names' letters as its upper case.
pub mod Parts
pub mod Trunk
pub mod Stage
use winsh.Base.{
  ℕ, zero, suc, ◌+◌, ◌-◌, Bool, true, false, not, ◌&&◌, ◌||◌, Option, none, some, List, [], ◌∷◌,
  ◌++◌, length, take, ltb, leb, ◌==◌, if◌then◌else◌, case_option,
}
use winsh.Remote.Response.{same_text}

pub data PathError : Type 0 where
  empty_path nul unc not_rooted no_drive_letter no_drive_colon no_drive_separator : PathError
  relative_component data_stream forbidden_character trailing_space_or_dot : PathError
  reserved_name : PathError

abbrev pub is_separator : ℕ → Bool
is_separator c = c == 92 || c == 47

abbrev pub is_letter : ℕ → Bool
is_letter c = (leb 65 c && leb c 90) || (leb 97 c && leb c 122)

abbrev pub contains : (ℕ → Bool) → List ℕ → Bool
contains p [] = false
contains p (c ∷ cs) = p c || contains p cs

-- `strings.FieldsFunc` with the separators of a path; `current` is the part being read.
abbrev pub flush : List ℕ → List (List ℕ)
flush [] = []
flush (c ∷ cs) = (c ∷ cs) ∷ []

unfoldable pub components : List ℕ → List ℕ → List (List ℕ)
components current [] = flush current
components current (c ∷ cs) =
    let rest = components [] cs in
    let longer = components (current ++ (c ∷ [])) cs in
    if is_separator c then flush current ++ rest else longer

-- `strings.TrimRight` with the characters of a predicate.
unfoldable pub trim_end : (ℕ → Bool) → List ℕ → List ℕ
trim_end p [] = []
trim_end p (c ∷ cs) = let rest = trim_end p cs in if p c && length rest == 0 then [] else c ∷ rest

abbrev pub upper : ℕ → ℕ
upper c = if leb 97 c && leb c 122 then c - 32 else c

abbrev pub to_upper : List ℕ → List ℕ
to_upper [] = []
to_upper (c ∷ cs) = upper c ∷ to_upper cs

-- `reservedDeviceNames`: CON, PRN, AUX, NUL, and COM and LPT with a digit from 1 to 9.
unfoldable pub is_reserved : List ℕ → Bool
is_reserved (a ∷ b ∷ c ∷ []) =
    let name = a ∷ b ∷ c ∷ [] in
    same_text name (67 ∷ 79 ∷ 78 ∷ [])
    || same_text name (80 ∷ 82 ∷ 78 ∷ [])
    || same_text name (65 ∷ 85 ∷ 88 ∷ [])
    || same_text name (78 ∷ 85 ∷ 76 ∷ [])
is_reserved (a ∷ b ∷ c ∷ d ∷ []) =
    let name = a ∷ b ∷ c ∷ [] in
    (same_text name (67 ∷ 79 ∷ 77 ∷ []) || same_text name (76 ∷ 80 ∷ 84 ∷ []))
    && leb 49 d
    && leb d 57
is_reserved _ = false

-- The bytes before the first dot, where there is one.
unfoldable pub stem : List ℕ → Option (List ℕ)
stem [] = none
stem (c ∷ cs) =
    let rest = case_option (stem cs) none (λ s. some (c ∷ s)) in if c == 46 then some [] else rest

unfoldable pub is_reserved_stem : List ℕ → Bool
is_reserved_stem component =
    let name = to_upper component in
    is_reserved name || case_option (stem name) false (λ s. ltb 0 (length s) && is_reserved s)

abbrev pub is_forbidden : ℕ → Bool
is_forbidden c = c == 42 || c == 63 || c == 60 || c == 62 || c == 124 || c == 34

-- One round of the loop over the components.
unfoldable pub check_component : List ℕ → Option PathError
check_component part =
    if length part == 0 || same_text part (46 ∷ []) || same_text part (46 ∷ 46 ∷ [])
    then some relative_component
    else (if contains (λ c. c == 58) part
        then some data_stream
        else (if contains is_forbidden part
            then some forbidden_character
            else (if not (same_text part (trim_end (λ c. c == 32 || c == 46) part))
                then some trailing_space_or_dot
                else (if is_reserved_stem part then some reserved_name else none))))

unfoldable pub check_components : List (List ℕ) → Option PathError
check_components [] = none
check_components (part ∷ parts) =
    let rest = check_components parts in case_option (check_component part) rest (λ e. some e)

abbrev pub is_unc : List ℕ → Bool
is_unc (a ∷ b ∷ rest) = a == 92 && b == 92
is_unc _ = false

-- The tests behind the length of the path.
abbrev pub check_rooted : List ℕ → Option PathError
check_rooted (c ∷ colon ∷ separator ∷ rest) =
    if is_letter c
    then (if colon == 58
        then (if is_separator separator
            then check_components (components [] rest)
            else some no_drive_separator)
        else some no_drive_colon)
    else some no_drive_letter
check_rooted _ = some not_rooted

-- `validateRemotePath`
unfoldable pub validate_remote_path : List ℕ → Option PathError
validate_remote_path p =
    if length p == 0
    then some empty_path
    else (if contains (λ c. c == 0) p
        then some nul
        else (if is_unc p then some unc else check_rooted p))

-- `strings.LastIndexAny` with the separators of a path.
unfoldable pub last_separator : List ℕ → Option ℕ
last_separator [] = none
last_separator (c ∷ cs) =
    case_option (last_separator cs) (if is_separator c then some 0 else none) (λ i. some (suc i))

abbrev pub looks_drive_rooted : List ℕ → Bool
looks_drive_rooted (a ∷ colon ∷ c ∷ rest) =
    is_unc (a ∷ colon ∷ c ∷ rest) || (colon == 58 && is_separator c && is_letter a)
looks_drive_rooted p = is_unc p

-- `remoteStageParent`
unfoldable pub remote_stage_parent : List ℕ → Option (List ℕ)
remote_stage_parent p =
    if looks_drive_rooted p
    then case_option (last_separator p) none
        (λ i. if i == 2 then some (take 3 p) else some (take i p))
    else none

-- ".winsh-stage-"
abbrev pub stage_prefix : List ℕ
stage_prefix = 46 ∷ 119 ∷ 105 ∷ 110 ∷ 115 ∷ 104 ∷ 45 ∷ 115 ∷ 116 ∷ 97 ∷ 103 ∷ 101 ∷ 45 ∷ []

-- The stage of an upload with a transfer identifier.
unfoldable pub stage_path : List ℕ → List ℕ → Option (List ℕ)
stage_path p id =
    case_option (remote_stage_parent p) none
      (λ parent. some (trim_end is_separator parent ++ (92 ∷ stage_prefix ++ id)))
