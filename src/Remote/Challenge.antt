-- ===== src/Remote/Challenge.antt =====
-- internal/remote/challenge.go: the checks of an NTLM type-2 message before the NTLM library reads
-- it. A message is the list of its bytes.
pub mod Fields
use winsh.Base.{
  ℕ, zero, suc, ◌+◌, ◌*◌, ◌/◌, ◌%◌, ◌^◌, Bool, true, false, not, ◌&&◌, ◌||◌, Option, none, some,
  List, [], ◌∷◌, length, take, drop, get_or, ltb, leb, ◌==◌, if◌then◌else◌,
}
use winsh.Remote.Response.{same_text}

pub data ChallengeError : Type 0 where
  malformed anonymous_session weak_session : ChallengeError

-- `binary.LittleEndian`
abbrev pub le16 : List ℕ → ℕ → ℕ
le16 b i = get_or b i 0 + 256 * get_or b (i + 1) 0

abbrev pub le32 : List ℕ → ℕ → ℕ
le32 b i = le16 b i + 65536 * le16 b (i + 2)

-- A bit of the flags.
abbrev pub has_bit : ℕ → ℕ → Bool
has_bit flags k = (flags / 2 ^ k) % 2 == 1

-- "NTLMSSP\0"
abbrev pub signature : List ℕ
signature = 78 ∷ 84 ∷ 76 ∷ 77 ∷ 83 ∷ 83 ∷ 80 ∷ 0 ∷ []

-- A field that does not lie in the message, behind its header.
unfoldable pub is_outside : List ℕ → ℕ → Bool
is_outside b offset =
    let size = le16 b offset in
    let start = le32 b (offset + 4) in ltb 0 size && (ltb start 48 || ltb (length b) (start + size))

-- The widths that the switch over the attribute's identifier rejects.
unfoldable pub is_bad_width : ℕ → ℕ → Bool
is_bad_width id n =
    if (leb 1 id && leb id 5) || id == 9
    then not (n % 2 == 0)
    else (if id == 6
        then not (n == 4)
        else (if id == 7 then not (n == 8) else (if id == 10 then not (n == 16) else false)))

abbrev pub is_seen : ℕ → List ℕ → Bool
is_seen id [] = false
is_seen id (s ∷ seen) = s == id || is_seen id seen

-- The loop over the attributes: `true` where it returns nil. Each round takes four bytes at least.
unfoldable pub attribute_rounds : ℕ → List ℕ → List ℕ → Bool
attribute_rounds zero seen data' = false
attribute_rounds (suc fuel) seen data' =
    let id = le16 data' 0 in
    let n = le16 data' 2 in
    let rest = drop 4 data' in
    let again = attribute_rounds fuel (id ∷ seen) (drop n rest) in
    if ltb (length data') 4
    then false
    else (if ltb (length rest) n || is_seen id seen
        then false
        else (if id == 0
            then n == 0 && length rest == 0
            else (if is_bad_width id n then false else again)))

-- The end of `validateChallenge`: the target information, where the flags announce it.
unfoldable pub check_target_info : List ℕ → Option ChallengeError
check_target_info b =
    if not (has_bit (le32 b 20) 23)
    then none
    else (if le16 b 40 == 0
        then some malformed
        else (let info = take (le16 b 40) (drop (le32 b 44) b) in
            if attribute_rounds (suc (length info)) [] info then none else some malformed))

-- `validateChallenge`
unfoldable pub validate_challenge : List ℕ → Bool → Option ChallengeError
validate_challenge b sealed =
    let flags = le32 b 20 in
    if ltb (length b) 48
      || ltb 65535 (length b)
      || not (same_text (take 8 b) signature)
      || not (le32 b 8 == 2)
    then some malformed
    else (if has_bit flags 11
        then some anonymous_session
        else (if sealed
              && not (has_bit flags 29 && has_bit flags 4 && has_bit flags 5 && has_bit flags 19)
            then some weak_session
            else (if has_bit flags 25 && ltb (length b) 56
                then some malformed
                else (if is_outside b 12 || is_outside b 40
                    then some malformed
                    else check_target_info b))))
