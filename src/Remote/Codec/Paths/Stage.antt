-- ===== src/Remote/Codec/Paths/Stage.antt =====
-- The stage of an upload stands in the destination's folder, under a path that winsh accepts.
use winsh.Base.{
  ℕ, ◌≡◌, ◌≢◌, inl, inr, refl, sym, ap, ◌∙◌, Bool, true, false, not, ◌&&◌, ◌||◌, none, some, List,
  [], ◌∷◌, ◌++◌, length, take, leb, ◌==◌, Bool-cases, Option-cases, arith,
}
use winsh.Remote.Codec.Paths.{
  is_separator, is_letter, contains, trim_end, is_reserved, is_reserved_stem, stem, is_forbidden,
  check_component, validate_remote_path, last_separator, looks_drive_rooted, remote_stage_parent,
  stage_prefix, stage_path,
}
use winsh.Remote.Codec.Paths.Parts.{
  trim_step, components-one, trim_end-keeps, same_text_refl, last_separator-Cut,
}
use winsh.Remote.Codec.Paths.Trunk.{
  is_nul, Rooted, valid-Rooted, Trunk, Cut-Trunk, trim-Trunk, IsName, join-valid,
}

abbrev pub is_hex : ℕ → Bool
is_hex c = (leb 48 c && leb c 57) || (leb 97 c && leb c 102)

-- A text of lower-case hexadecimal digits, one or more.
pub record IsHexText (id : List ℕ) : Type 0 where
  pub nonempty : length id ≢ 0
  pub digits : contains (λ c. not (is_hex c)) id ≡ false

hex-without :
    (p : ℕ → Bool) (id : List ℕ)
    → ((c : ℕ) → is_hex c ≡ true → p c ≡ false)
    → contains (λ c. not (is_hex c)) id ≡ false
    → contains p id ≡ false
hex-without p [] f e = refl
hex-without p (c ∷ cs) f e = ground (arith, f c, hex-without p cs f)

check_stage_name :
    (xs : List ℕ)
    → contains (λ c. c == 58) xs ≡ false
    → contains is_forbidden xs ≡ false
    → trim_end (λ c. c == 32 || c == 46) (stage_prefix ++ xs) ≡ stage_prefix ++ xs
    → check_component (stage_prefix ++ xs) ≡ none
unfolding check_component is_reserved_stem is_reserved stem
check_stage_name xs colon forbidden trimmed =
    let positive : (length (stage_prefix ++ xs) == 0) ≡ false = ground arith in
    rw (positive, colon, forbidden, trimmed, same_text_refl (stage_prefix ++ xs))

stage-IsName : (id : List ℕ) → IsHexText id → IsName (stage_prefix ++ id)
stage-IsName [] hex = absurd (hex.nonempty refl)
stage-IsName (d ∷ ds) hex = record {
  one = components-one [] (stage_prefix ++ (d ∷ ds)) (plain is_separator (λ c h. ground arith));
  clean = plain is_nul (λ c h. ground arith);
  allowed =
      check_stage_name (d ∷ ds) (plain (λ c. c == 58) (λ c h. ground arith))
        (plain is_forbidden (λ c h. ground arith))
        (trim_end-keeps (λ c. c == 32 || c == 46) stage_prefix d ds
          (plain (λ c. c == 32 || c == 46) (λ c h. ground arith)));
}
  where
    plain : (p : ℕ → Bool) → ((c : ℕ) → is_hex c ≡ true → p c ≡ false) → contains p (d ∷ ds) ≡ false
    plain p f = hex-without p (d ∷ ds) f hex.digits

separator_trim : (s : ℕ) → is_separator s ≡ true → trim_end is_separator (s ∷ []) ≡ []
unfolding trim_end
separator_trim s e = ground arith

colon_trim : (s : ℕ) → is_separator s ≡ true → trim_end is_separator (58 ∷ s ∷ []) ≡ 58 ∷ []
unfolding trim_end
colon_trim s e = ap (◌∷◌ 58) (separator_trim s e)

root_trim :
    (c s : ℕ) → is_separator s ≡ true → trim_end is_separator (c ∷ 58 ∷ s ∷ []) ≡ c ∷ 58 ∷ []
root_trim c s e = trim_step is_separator c (58 ∷ s ∷ []) 58 [] (colon_trim s e)

last_of_rooted :
    (c s : ℕ) (rest : List ℕ) → is_separator s ≡ true → last_separator (c ∷ 58 ∷ s ∷ rest) ≢ none
unfolding last_separator
last_of_rooted c s rest sep e = ground arith

drive_rooted :
    (c s : ℕ) (rest : List ℕ)
    → is_letter c ≡ true
    → is_separator s ≡ true
    → looks_drive_rooted (c ∷ 58 ∷ s ∷ rest) ≡ true
drive_rooted c s rest l e = ground arith

last_separator-some : (p : List ℕ) → Rooted p → last_separator p ≢ none
last_separator-some p r e =
    last_of_rooted r.drive r.separator r.rest r.separates (ap last_separator (sym r.whole) ∙ e)

parent-Trunk :
    (p : List ℕ)
    → Rooted p
    → (t : List ℕ) × (remote_stage_parent p ≡ some t) × Trunk (trim_end is_separator t)
unfolding remote_stage_parent
parent-Trunk p r =
    let looks : looks_drive_rooted p ≡ true =
      ap looks_drive_rooted r.whole
      ∙ drive_rooted r.drive r.separator r.rest r.is_drive r.separates in
    let root : trim_end is_separator (take 3 p) ≡ r.drive ∷ 58 ∷ [] =
      ap (λ x. trim_end is_separator (take 3 x)) r.whole
      ∙ root_trim r.drive r.separator r.separates in
    elim (Option-cases (last_separator p)) [
      | inl missing ↦ absurd (last_separator-some p r missing)
      | inr (i, found) ↦ elim (Bool-cases (i == 2)) [
        | inl two ↦ (take 3 p, rw (looks, found, two), inl (r.drive, r.is_drive, root))
        | inr other ↦ (
          take i p,
          rw (looks, found, other),
          trim-Trunk (take i p) (Cut-Trunk (take i p) p r (last_separator-Cut p i found)),
        )
      ]
    ]

-- For every remote path that `validateRemotePath` accepts and every transfer identifier of
-- hexadecimal digits, the upload's stage path exists and `validateRemotePath` accepts it too.
pub stage_path-valid :
    (p id : List ℕ)
    → validate_remote_path p ≡ none
    → IsHexText id
    → (stage : List ℕ) × (stage_path p id ≡ some stage) × (validate_remote_path stage ≡ none)
unfolding stage_path
stage_path-valid p id e hex =
    let (t, parent, trunk) = parent-Trunk p (valid-Rooted p e) in
    (
      trim_end is_separator t ++ (92 ∷ stage_prefix ++ id),
      rw parent,
      join-valid (trim_end is_separator t) (stage_prefix ++ id) trunk (stage-IsName id hex),
    )
