-- ===== src/Tests/Challenges.antt =====
-- A type-2 message with one attribute, the name of a domain.
use winsh.Base.{ℕ, ◌≡◌, refl, true, none, List, [], ◌∷◌}
use winsh.Remote.Challenge.{
  validate_challenge, check_target_info, attribute_rounds, is_outside, is_bad_width,
}
use winsh.Remote.Challenge.Fields.{Sound, validate_challenge-Sound}

abbrev pub message : List ℕ
message =
    78 ∷ 84 ∷ 76 ∷ 77 ∷ 83 ∷ 83 ∷ 80 ∷ 0 ∷ 2 ∷ 0 ∷ 0 ∷ 0 ∷ 0 ∷ 0 ∷ 0 ∷ 0 ∷ 0 ∷ 0 ∷ 0 ∷ 0 ∷ 48 ∷ 0
    ∷ 136 ∷ 32 ∷ 0 ∷ 0 ∷ 0 ∷ 0 ∷ 0 ∷ 0 ∷ 0 ∷ 0 ∷ 0 ∷ 0 ∷ 0 ∷ 0 ∷ 0 ∷ 0 ∷ 0 ∷ 0 ∷ 10 ∷ 0 ∷ 10 ∷ 0
    ∷ 48 ∷ 0 ∷ 0 ∷ 0 ∷ 2 ∷ 0 ∷ 2 ∷ 0 ∷ 65 ∷ 0 ∷ 0 ∷ 0 ∷ 0 ∷ 0 ∷ []

pub message_accepted : validate_challenge message true ≡ none
unfolding validate_challenge check_target_info attribute_rounds is_outside is_bad_width
message_accepted = refl

validate_challenge-Sound_example : Sound message true
validate_challenge-Sound_example = validate_challenge-Sound message true message_accepted
