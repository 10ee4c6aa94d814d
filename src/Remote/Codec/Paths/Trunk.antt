-- ===== src/Remote/Codec/Paths/Trunk.antt =====
-- Remote paths taken apart, cut at their separators, and continued by a component.
use winsh.Base.{
  ℕ, ◌≡◌, ◌⊎◌, inl, inr, refl, sym, ap, subst, ◌∙◌, Bool, true, false, none, List, [], ◌∷◌, ◌++◌,
  ◌==◌, arith,
}
use winsh.Remote.Codec.Paths.{
  is_separator, is_letter, contains, components, trim_end, check_component, check_components,
  validate_remote_path,
}
use winsh.Remote.Codec.Paths.Parts.{
  components-append, contains-append, check-append, check-left, trim_end-keeps, Cut, trim_end-Cut,
}

abbrev pub is_nul : ℕ → Bool
is_nul c = c == 0

-- A path that `validateRemotePath` accepts, taken apart.
pub record Rooted (p : List ℕ) : Type 0 where
  pub drive : ℕ
  pub separator : ℕ
  pub rest : List ℕ
  pub is_drive : is_letter drive ≡ true
  pub separates : is_separator separator ≡ true
  pub whole : p ≡ drive ∷ 58 ∷ separator ∷ rest
  pub no_nul : contains is_nul p ≡ false
  pub checked : check_components (components [] rest) ≡ none

colon_of : (a b c : ℕ) (rest : List ℕ) → validate_remote_path (a ∷ b ∷ c ∷ rest) ≡ none → b ≡ 58
unfolding validate_remote_path
colon_of a b c rest e = ground arith

pub valid-Rooted : (p : List ℕ) → validate_remote_path p ≡ none → Rooted p
unfolding validate_remote_path
valid-Rooted [] e = absurd (cc)
valid-Rooted (a ∷ []) e = absurd (ground arith)
valid-Rooted (a ∷ b ∷ []) e = absurd (ground arith)
valid-Rooted (a ∷ b ∷ c ∷ rest) e = record {
  drive = a;
  separator = c;
  rest = rest;
  is_drive = ground arith;
  separates = ground arith;
  whole = ap (λ x. a ∷ x ∷ c ∷ rest) (colon_of a b c rest e);
  no_nul = ground arith;
  checked = ground arith;
}

rooted_valid :
    (c s : ℕ) (rest : List ℕ)
    → is_letter c ≡ true
    → is_separator s ≡ true
    → contains is_nul (c ∷ 58 ∷ s ∷ rest) ≡ false
    → check_components (components [] rest) ≡ none
    → validate_remote_path (c ∷ 58 ∷ s ∷ rest) ≡ none
unfolding validate_remote_path
rooted_valid c s rest letter sep nul checked = ground arith

head_eq : {a b : ℕ} {xs ys : List ℕ} → a ∷ xs ≡ b ∷ ys → a ≡ b
head_eq q = cc

tail_eq : {a b : ℕ} {xs ys : List ℕ} → a ∷ xs ≡ b ∷ ys → xs ≡ ys
tail_eq q = cc

-- What a path of this form may be continued from: a drive, or a path.
abbrev pub Trunk : List ℕ → Type 0
Trunk t = ((c : ℕ) × (is_letter c ≡ true) × (t ≡ c ∷ 58 ∷ [])) ⊎ Rooted t

-- The parts before a separator.
checked_before :
    (t : List ℕ) (s : ℕ) (ys : List ℕ)
    → is_separator s ≡ true
    → check_components (components [] (t ++ (s ∷ ys))) ≡ none
    → check_components (components [] t) ≡ none
checked_before t s ys sep e =
    check-left (components [] t) (components [] ys)
      (ap check_components (sym (components-append [] t s ys sep)) ∙ e)

nul_before : (t ys : List ℕ) → contains is_nul (t ++ ys) ≡ false → contains is_nul t ≡ false
nul_before t ys e = ground (arith, contains-append is_nul t ys)

pub Cut-Trunk : (t p : List ℕ) → Rooted p → Cut t p → Trunk t
Cut-Trunk [] p r cut =
    let e : cut.at ≡ r.drive = head_eq (sym cut.whole ∙ r.whole) in
    absurd (letter_no_separator r.drive r.is_drive (ap is_separator (sym e) ∙ cut.separates))
  where
    letter_no_separator : (c : ℕ) → is_letter c ≡ true → is_separator c ≡ true → ⊥
    letter_no_separator c l s = ground arith
Cut-Trunk (a ∷ []) p r cut =
    let e : cut.at ≡ 58 = head_eq (tail_eq (sym cut.whole ∙ r.whole)) in
    absurd (cc (ap is_separator (sym e) ∙ cut.separates))
Cut-Trunk (a ∷ b ∷ []) p r cut =
    let q = sym cut.whole ∙ r.whole in
    let e : b ≡ 58 = head_eq (tail_eq q) in
    inl (a, ap is_letter (head_eq q) ∙ r.is_drive, ap (λ x. a ∷ x ∷ []) e)
Cut-Trunk (a ∷ b ∷ c ∷ t) p r cut =
    let q = sym cut.whole ∙ r.whole in
    let e : b ≡ 58 = head_eq (tail_eq q) in
    let same : t ++ (cut.at ∷ cut.behind) ≡ r.rest = tail_eq (tail_eq (tail_eq q)) in
    inr (record {
      drive = a;
      separator = c;
      rest = t;
      is_drive = ap is_letter (head_eq q) ∙ r.is_drive;
      separates = ap is_separator (head_eq (tail_eq (tail_eq q))) ∙ r.separates;
      whole = ap (λ x. a ∷ x ∷ c ∷ t) e;
      no_nul =
          nul_before (a ∷ b ∷ c ∷ t) (cut.at ∷ cut.behind)
            (ap (contains is_nul) (sym cut.whole) ∙ r.no_nul);
      checked =
          checked_before t cut.at cut.behind cut.separates
            (ap (λ x. check_components (components [] x)) same ∙ r.checked);
    })

-- A trunk without the separators at its end.
pub trim-Trunk : (t : List ℕ) → Trunk t → Trunk (trim_end is_separator t)
trim-Trunk t (inl (c, l, e)) =
    inl (c, l, ap (trim_end is_separator) e ∙ trim_end-keeps is_separator (c ∷ []) 58 [] refl)
trim-Trunk t (inr r) = elim (trim_end-Cut t) [
  | inl same ↦ inr (subst Rooted (sym same) r)
  | inr cut ↦ Cut-Trunk (trim_end is_separator t) t r cut
]

-- A component that may be joined to a path.
pub record IsName (name : List ℕ) : Type 0 where
  pub one : components [] name ≡ name ∷ []
  pub clean : contains is_nul name ≡ false
  pub allowed : check_component name ≡ none

name-checked : (name : List ℕ) → IsName name → check_components (components [] name) ≡ none
unfolding check_components
name-checked name n = rw (n.one, n.allowed)

join-nul :
    (t name : List ℕ)
    → contains is_nul t ≡ false
    → IsName name
    → contains is_nul (t ++ (92 ∷ name)) ≡ false
join-nul t name clean n = ground (arith, contains-append is_nul t (92 ∷ name), n.clean)

pub join-valid :
    (t name : List ℕ) → Trunk t → IsName name → validate_remote_path (t ++ (92 ∷ name)) ≡ none
join-valid t name (inl (c, l, e)) n =
    let whole : t ++ (92 ∷ name) ≡ c ∷ 58 ∷ 92 ∷ name = ap (λ x. x ++ (92 ∷ name)) e in
    ap validate_remote_path whole
    ∙ rooted_valid c 92 name l refl (join-nul (c ∷ 58 ∷ []) name (no_nul_drive c l) n)
        (name-checked name n)
  where
    no_nul_drive : (c : ℕ) → is_letter c ≡ true → contains is_nul (c ∷ 58 ∷ []) ≡ false
    no_nul_drive c l = ground arith
join-valid t name (inr r) n =
    let whole : t ++ (92 ∷ name) ≡ r.drive ∷ 58 ∷ r.separator ∷ (r.rest ++ (92 ∷ name)) =
      ap (λ x. x ++ (92 ∷ name)) r.whole in
    ap validate_remote_path whole
    ∙ rooted_valid r.drive r.separator (r.rest ++ (92 ∷ name)) r.is_drive r.separates
        (ap (contains is_nul) (sym whole) ∙ join-nul t name r.no_nul n)
        (ap check_components (components-append [] r.rest 92 name refl)
          ∙ check-append (components [] r.rest) (components [] name) r.checked
              (name-checked name n))
