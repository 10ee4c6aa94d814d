-- ===== src/Remote/LocalFiles.antt =====
-- internal/remote/localfile.go and commit_unix.go: the stage of a download over a small file system,
-- a function from paths to contents.
use winsh.Base.{
  ℕ, zero, suc, ◌≡◌, refl, sym, ◌∙◌, Bool, true, false, ◌||◌, Option, none, some, List, [], ◌∷◌,
  ◌++◌, length, ◌==◌, if◌then◌else◌, if-elim, case_option, case_option-elim, arith, ap,
}
use winsh.Remote.Response.{same_text}
use winsh.Remote.Codec.Paths.{stage_prefix}

abbrev pub Store : Type 0
Store = List ℕ → Option (List ℕ)

unfoldable pub set_file : List ℕ → Option (List ℕ) → Store → Store
set_file path contents store other = if same_text other path then contents else store other

-- What `os.Lstat` says of the destination.
pub data Link : Type 0 where
  symlink other_file absent unreadable : Link

-- `rejectLocalLink`: whether it returns nil.
unfoldable pub reject_local_link : Link → Bool
reject_local_link symlink = false
reject_local_link other_file = true
reject_local_link absent = true
reject_local_link unreadable = false

-- The loop of `createStage`. `random` gives the hexadecimal name of an attempt, and `opens` says
-- that a path that is free can be created.
unfoldable pub create_rounds :
    List ℕ → (ℕ → Option (List ℕ)) → (ℕ → Bool) → Store → ℕ → ℕ → Option (List ℕ)
create_rounds parent random opens store zero n = none
create_rounds parent random opens store (suc attempts) n =
    let again = create_rounds parent random opens store attempts (suc n) in
    case_option (random n) none (λ hex.
      let stage = parent ++ (47 ∷ stage_prefix ++ hex) in
      case_option (store stage) (if opens n then some stage else none) (λ _. again))

-- `createStage`, with the parent that `filepath.Dir` gives. `parent_ok` says that it is a directory.
unfoldable pub create_stage :
    List ℕ → List ℕ → Bool → (ℕ → Option (List ℕ)) → (ℕ → Bool) → Store → Option (List ℕ)
create_stage destination parent parent_ok random opens store =
    if length destination == 0 || length parent == 0 || same_text parent (46 ∷ [])
    then none
    else (if parent_ok then create_rounds parent random opens store 8 0 else none)

-- `commitStage`: the file system behind it where it returns nil. `done` says that the system call
-- succeeds where the destination allows it.
unfoldable pub commit_stage : List ℕ → List ℕ → Bool → Bool → Store → Option Store
commit_stage stage destination force done store =
    if length stage == 0 || length destination == 0 || same_text stage destination
    then none
    else (if force
        then (if done
            then some (set_file stage none (set_file destination (store stage) store))
            else none)
        else case_option (store destination)
            (if done then some (set_file destination (store stage) store) else none) (λ _. none))

same_text_refl : (xs : List ℕ) → same_text xs xs ≡ true
same_text_refl [] = refl
same_text_refl (x ∷ xs) = ground (arith, same_text_refl xs)

pub same_text→eq : (xs ys : List ℕ) → same_text xs ys ≡ true → xs ≡ ys
same_text→eq [] [] e = refl
same_text→eq [] (y ∷ ys) e = absurd (cc)
same_text→eq (x ∷ xs) [] e = absurd (cc)
same_text→eq (x ∷ xs) (y ∷ ys) e =
    let h : x ≡ y = ground arith in
    let t : same_text xs ys ≡ true = ground arith in
    ap (λ z. z ∷ xs) h ∙ ap (λ z. y ∷ z) (same_text→eq xs ys t)

pub same_text_comm : (xs ys : List ℕ) → same_text xs ys ≡ same_text ys xs
same_text_comm [] [] = refl
same_text_comm [] (y ∷ ys) = refl
same_text_comm (x ∷ xs) [] = refl
same_text_comm (x ∷ xs) (y ∷ ys) = ground (arith, same_text_comm xs ys)

pub set_file_at :
    (path : List ℕ) (c : Option (List ℕ)) (store : Store) → set_file path c store path ≡ c
unfolding set_file
set_file_at path c store = rw (same_text_refl path) refl

pub set_file_other :
    (path other : List ℕ) (c : Option (List ℕ)) (store : Store)
    → same_text other path ≡ false
    → set_file path c store other ≡ store other
unfolding set_file
set_file_other path other c store e = rw e refl

same_path : (xs ys : List ℕ) → some xs ≡ some ys → xs ≡ ys
same_path xs ys e = cc

-- The stage that is created is a new file.
pub create_rounds-free :
    (parent : List ℕ) (random : ℕ → Option (List ℕ)) (opens : ℕ → Bool) (store : Store)
    (attempts n : ℕ) (stage : List ℕ)
    → create_rounds parent random opens store attempts n ≡ some stage
    → store stage ≡ none
unfolding create_rounds
create_rounds-free parent random opens store zero n stage e = absurd (cc)
create_rounds-free parent random opens store (suc attempts) n stage e =
    let P : Option (List ℕ) → Type 0 = λ o. o ≡ some stage → store stage ≡ none in
    case_option-elim P (random n) (λ _ x. absurd (cc))
      (λ hex _.
        let path = parent ++ (47 ∷ stage_prefix ++ hex) in
        case_option-elim P (store path)
          (λ free.
            if-elim P (opens n) (λ _ x. ap store (sym (same_path path stage x)) ∙ free)
              (λ _ x. absurd (cc)))
          (λ _ _ x. create_rounds-free parent random opens store attempts (suc n) stage x))
      e
