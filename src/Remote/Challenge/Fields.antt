-- ===== src/Remote/Challenge/Fields.antt =====
-- What an accepted type-2 message guarantees to the NTLM library that reads it.
use winsh.Base.{
  ℕ, zero, suc, ◌+◌, ◌-◌, ◌≤◌, ◌≡◌, ◌≢◌, sym, ap, subst, ◌∙◌, Bool, true, false, not, ◌&&◌, ◌||◌,
  Option, none, some, List, [], ◌∷◌, ◌++◌, length, take, drop, ltb, ◌==◌, if◌then◌else◌, if-elim,
  arith, length-take, length-drop, take-append-drop, ==→eq,
}
use winsh.Remote.Response.{same_text}
use winsh.Remote.Challenge.{
  anonymous_session, weak_session, ChallengeError, le16, le32, has_bit, is_outside, is_bad_width,
  is_seen, attribute_rounds, check_target_info, validate_challenge, signature, malformed,
}

-- A chain of attributes: each value has the length that its header says and a width that its
-- identifier allows, no identifier comes twice, and the one with identifier 0 and no value ends it.
pub data Attributes : List ℕ → List ℕ → Type 0 where
  last :
      {seen end : List ℕ}
      → length end ≡ 4
      → le16 end 0 ≡ 0
      → le16 end 2 ≡ 0
      → is_seen 0 seen ≡ false
      → Attributes seen end
  attribute :
      {seen data' : List ℕ} (value rest : List ℕ)
      → data' ≡ take 4 data' ++ (value ++ rest)
      → le16 data' 0 ≢ 0
      → le16 data' 2 ≡ length value
      → is_bad_width (le16 data' 0) (length value) ≡ false
      → is_seen (le16 data' 0) seen ≡ false
      → Attributes (le16 data' 0 ∷ seen) rest
      → Attributes seen data'

all_read : (l r n : ℕ) → ltb l 4 ≡ false → r ≡ l - 4 → (n == 0 && r == 0) ≡ true → (l ≡ 4) × (n ≡ 0)
all_read l r n a b c = (ground arith, ground arith)

fits : (r n : ℕ) (b : Bool) → (ltb r n || b) ≡ false → (n ≤ r) × (b ≡ false)
fits r n b e = (ground arith, ground arith)

nonzero_id : (id : ℕ) → (id == 0) ≡ false → id ≢ 0
nonzero_id id e z = ground arith

taken : (n : ℕ) (xs : List ℕ) → n ≤ length xs → length (take n xs) ≡ n
taken n xs h = omega (arith, length-take n xs)

attribute_rounds-Attributes :
    (fuel : ℕ) (seen data' : List ℕ)
    → attribute_rounds fuel seen data' ≡ true
    → Attributes seen data'
unfolding attribute_rounds
attribute_rounds-Attributes zero seen data' e = absurd (cc)
attribute_rounds-Attributes (suc fuel) seen data' e =
    let id = le16 data' 0 in
    let n = le16 data' 2 in
    let rest = drop 4 data' in
    let P : Bool → Type 0 = λ r. (r ≡ true → Attributes seen data') in
    if-elim P (ltb (length data') 4) (λ _ q. absurd (cc))
      (λ long.
        if-elim P (ltb (length rest) n || is_seen id seen) (λ _ q. absurd (cc))
          (λ inside.
            if-elim P (id == 0)
              (λ zero' q.
                let (four, none') =
                  all_read (length data') (length rest) n long (length-drop 4 data') q in
                last four (==→eq id 0 zero') none' (
                  subst (λ (k : ℕ). is_seen k seen ≡ false) (==→eq id 0 zero')
                    (fits (length rest) n (is_seen id seen) inside).1))
              (λ nonzero.
                if-elim P (is_bad_width id n) (λ _ q. absurd (cc))
                  (λ width q.
                    let (fit, fresh) = fits (length rest) n (is_seen id seen) inside in
                    let exact = taken n rest fit in
                    attribute (take n rest) (drop n rest)
                      (sym (
                        ap (◌++◌ (take 4 data')) (take-append-drop n rest)
                        ∙ take-append-drop 4 data'))
                      (nonzero_id id nonzero) (sym exact) (ap (is_bad_width id) exact ∙ width) fresh
                      (attribute_rounds-Attributes fuel (id ∷ seen) (drop n rest) q)))))
      e

-- A field that lies in the message behind its header, or is empty.
abbrev pub IsInside : List ℕ → ℕ → Type 0
IsInside b offset =
    le16 b offset ≢ 0
    → (48 ≤ le32 b (offset + 4)) × (le32 b (offset + 4) + le16 b offset ≤ length b)

-- What the NTLM library may rely on.
pub record Sound (b : List ℕ) (sealed : Bool) : Type 0 where
  pub long : 48 ≤ length b
  pub short : length b ≤ 65535
  pub signed : sealed ≡ true → (has_bit (le32 b 20) 4 ≡ true) × (has_bit (le32 b 20) 5 ≡ true)
  pub authenticated : has_bit (le32 b 20) 11 ≡ false
  pub name : IsInside b 12
  pub info : IsInside b 40
  pub attributes :
      has_bit (le32 b 20) 23 ≡ true
      → (le16 b 40 ≢ 0) × Attributes [] (take (le16 b 40) (drop (le32 b 44) b))

message-IsInside : (b : List ℕ) (offset : ℕ) → is_outside b offset ≡ false → IsInside b offset
unfolding is_outside
message-IsInside b offset e size = (ground arith, ground arith)

announced_info :
    (bit empty read : Bool)
    → bit ≡ true
    → ◌≡◌ {A = Option ChallengeError}
        (if not bit
          then none
          else (if empty then some malformed else (if read then none else some malformed)))
        none
    → (empty ≡ false) × (read ≡ true)
announced_info bit empty read b e = (ground arith, ground arith)

passes :
    (a b c d f : Bool) (x : Option ChallengeError)
    → (if a
        then some malformed
        else (if b
            then some anonymous_session
            else (if c
                then some weak_session
                else (if d then some malformed else (if f then some malformed else x)))))
      ≡ none
    → (a ≡ false) × (b ≡ false) × (c ≡ false) × (f ≡ false) × (x ≡ none)
passes a b c d f x e = (ground arith, ground arith, ground arith, ground arith, ground arith)

in_limits :
    (l : ℕ) (r q : Bool) → (ltb l 48 || ltb 65535 l || r || q) ≡ false → (48 ≤ l) × (l ≤ 65535)
in_limits l r q e = (ground arith, ground arith)

either_false : (a b : Bool) → (a || b) ≡ false → (a ≡ false) × (b ≡ false)
either_false a b e = (ground arith, ground arith)

strong_bits :
    (sealed a b c d : Bool)
    → (sealed && not (a && b && c && d)) ≡ false
    → sealed ≡ true
    → (b ≡ true) × (c ≡ true)
strong_bits sealed a b c d e on = (ground arith, ground arith)

target_info :
    (b : List ℕ)
    → check_target_info b ≡ none
    → has_bit (le32 b 20) 23 ≡ true
    → (le16 b 40 ≢ 0) × Attributes [] (take (le16 b 40) (drop (le32 b 44) b))
unfolding check_target_info
target_info b e announced =
    let info = take (le16 b 40) (drop (le32 b 44) b) in
    let (size, read) =
      announced_info (has_bit (le32 b 20) 23) (le16 b 40 == 0)
        (attribute_rounds (suc (length info)) [] info) announced e in
    (nonzero_id (le16 b 40) size, attribute_rounds-Attributes (suc (length info)) [] info read)

-- A type-2 message that `validateChallenge` accepts is between 48 and 65535 bytes long and not
-- anonymous; a sealed connection gets signing and sealing; its target name and target information
-- lie inside it behind the header; and where the flags announce target information, it is a chain
-- of attributes with fitting lengths and widths, no identifier twice, up to the end marker.
pub validate_challenge-Sound :
    (b : List ℕ) (sealed : Bool) → validate_challenge b sealed ≡ none → Sound b sealed
unfolding validate_challenge
validate_challenge-Sound b sealed e =
    let (framed, known, strong, inside, described) =
      passes
        (ltb (length b) 48
          || ltb 65535 (length b)
          || not (same_text (take 8 b) signature)
          || not (le32 b 8 == 2))
        (has_bit (le32 b 20) 11)
        (sealed
          && not (
              has_bit (le32 b 20) 29
              && has_bit (le32 b 20) 4
              && has_bit (le32 b 20) 5
              && has_bit (le32 b 20) 19))
        (has_bit (le32 b 20) 25 && ltb (length b) 56) (is_outside b 12 || is_outside b 40)
        (check_target_info b) e in
    let lengths =
      in_limits (length b) (not (same_text (take 8 b) signature)) (not (le32 b 8 == 2)) framed in
    let (first, second) = either_false (is_outside b 12) (is_outside b 40) inside in
    record {
      long = lengths.0;
      short = lengths.1;
      signed = λ on.
          strong_bits sealed (has_bit (le32 b 20) 29) (has_bit (le32 b 20) 4)
            (has_bit (le32 b 20) 5) (has_bit (le32 b 20) 19) strong on;
      authenticated = known;
      name = message-IsInside b 12 first;
      info = message-IsInside b 40 second;
      attributes = target_info b described;
    }
