-- ===== src/Remote/Codec/Paths/Parts.antt =====
-- The components of remote paths, and what cutting a path does to them.
use winsh.Base.{
  ℕ, suc, ◌≡◌, ◌⊎◌, inl, inr, refl, sym, ap, subst, ◌∙◌, Bool, true, false, ◌&&◌, ◌||◌, Option,
  none, some, List, [], ◌∷◌, ◌++◌, length, take, ◌==◌, if◌then◌else◌, if-elim, case_option-elim,
  arith,
}
use mathlib.Core.List.{append_assoc, append-nil}
use winsh.Remote.Response.{same_text}
use winsh.Remote.Codec.Paths.{
  is_separator, contains, flush, components, trim_end, check_components, last_separator,
}

pub components-append :
    (current xs : List ℕ) (s : ℕ) (ys : List ℕ)
    → is_separator s ≡ true
    → components current (xs ++ (s ∷ ys)) ≡ components current xs ++ components [] ys
unfolding components
components-append current [] s ys e = rw e
components-append current (x ∷ xs) s ys e =
    if-elim
      (λ r.
        r
        ≡ (if is_separator x
            then flush current ++ components [] xs
            else components (current ++ (x ∷ [])) xs)
          ++ components [] ys)
      (is_separator x)
      (λ t. rw t (
        ap (◌++◌ (flush current)) (components-append [] xs s ys e)
        ∙ sym (append_assoc (flush current) (components [] xs) (components [] ys))))
      (λ f. rw f (components-append (current ++ (x ∷ [])) xs s ys e))

pub contains-append :
    (p : ℕ → Bool) (xs ys : List ℕ) → contains p (xs ++ ys) ≡ (contains p xs || contains p ys)
contains-append p [] ys = refl
contains-append p (x ∷ xs) ys = ground (arith, contains-append p xs ys)

pub check-append :
    (a b : List (List ℕ))
    → check_components a ≡ none
    → check_components b ≡ none
    → check_components (a ++ b) ≡ none
unfolding check_components
check-append [] b x y = y
check-append (part ∷ a) b x y = ground (arith, check-append a b)

pub check-left :
    (a b : List (List ℕ)) → check_components (a ++ b) ≡ none → check_components a ≡ none
unfolding check_components
check-left [] b x = refl
check-left (part ∷ a) b x = ground (arith, check-left a b)

-- A component that holds no separator is one part of the path.
pub components-one :
    (current name : List ℕ)
    → contains is_separator name ≡ false
    → components current name ≡ flush (current ++ name)
unfolding components
components-one current [] e = ap flush (sym (append-nil current))
components-one current (c ∷ cs) e =
    if-elim (λ r. r ≡ flush (current ++ (c ∷ cs))) (is_separator c) (λ t. absurd (cc))
      (λ f.
        components-one (current ++ (c ∷ [])) cs (ground arith)
        ∙ ap flush (append_assoc current (c ∷ []) cs))

pub trim_step :
    (p : ℕ → Bool) (c : ℕ) (cs : List ℕ) (d : ℕ) (ds : List ℕ)
    → trim_end p cs ≡ d ∷ ds
    → trim_end p (c ∷ cs) ≡ c ∷ d ∷ ds
unfolding trim_end
trim_step p c cs d ds e = rw e (ground arith)

pub trim_end-keeps :
    (p : ℕ → Bool) (xs : List ℕ) (c : ℕ) (cs : List ℕ)
    → contains p (c ∷ cs) ≡ false
    → trim_end p (xs ++ (c ∷ cs)) ≡ xs ++ (c ∷ cs)
unfolding trim_end
trim_end-keeps p [] c [] e = ground arith
trim_end-keeps p [] c (d ∷ cs) e =
    trim_step p c (d ∷ cs) d cs (trim_end-keeps p [] d cs (ground arith))
trim_end-keeps p (x ∷ []) c cs e = trim_step p x (c ∷ cs) c cs (trim_end-keeps p [] c cs e)
trim_end-keeps p (x ∷ y ∷ xs) c cs e =
    trim_step p x (y ∷ xs ++ (c ∷ cs)) y (xs ++ (c ∷ cs)) (trim_end-keeps p (y ∷ xs) c cs e)

pub same_text_refl : (xs : List ℕ) → same_text xs xs ≡ true
same_text_refl [] = refl
same_text_refl (x ∷ xs) = ground (arith, same_text_refl xs)

-- A path and what stands before one of its separators.
pub record Cut (t p : List ℕ) : Type 0 where
  pub at : ℕ
  pub behind : List ℕ
  pub separates : is_separator at ≡ true
  pub whole : p ≡ t ++ (at ∷ behind)

pub trim_end-Cut :
    (xs : List ℕ) → (trim_end is_separator xs ≡ xs) ⊎ Cut (trim_end is_separator xs) xs
unfolding trim_end
trim_end-Cut [] = inl refl
trim_end-Cut (c ∷ cs) =
    let P : List ℕ → Type 0 = λ r. ((r ≡ c ∷ cs) ⊎ Cut r (c ∷ cs)) in
    if-elim P (is_separator c && length (trim_end is_separator cs) == 0)
      (λ t. inr (record { at = c; behind = cs; separates = ground arith; whole = refl }))
      (λ _. elim (trim_end-Cut cs) [
        | inl same ↦ inl (ap (◌∷◌ c) same)
        | inr cut ↦ inr (record {
          at = cut.at;
          behind = cut.behind;
          separates = cut.separates;
          whole = ap (◌∷◌ c) cut.whole;
        })
      ])

inside : {a b : ℕ} → some a ≡ some b → a ≡ b
inside q = cc

later : (c : ℕ) (cs : List ℕ) (j : ℕ) → Cut (take j cs) cs → Cut (take (suc j) (c ∷ cs)) (c ∷ cs)
later c cs j cut = record {
  at = cut.at;
  behind = cut.behind;
  separates = cut.separates;
  whole = ap (◌∷◌ c) cut.whole;
}

pub last_separator-Cut : (p : List ℕ) (i : ℕ) → last_separator p ≡ some i → Cut (take i p) p
unfolding last_separator
last_separator-Cut [] i e = absurd (cc)
last_separator-Cut (c ∷ cs) i e =
    let P : Option ℕ → Type 0 = λ o. (o ≡ some i → Cut (take i (c ∷ cs)) (c ∷ cs)) in
    case_option-elim P (last_separator cs)
      (λ _.
        if-elim P (is_separator c)
          (λ t q.
            subst (λ (k : ℕ). Cut (take k (c ∷ cs)) (c ∷ cs)) (inside q)
              (record { at = c; behind = cs; separates = t; whole = refl }))
          (λ _ q. absurd (cc)))
      (λ j found q.
        subst (λ (k : ℕ). Cut (take k (c ∷ cs)) (c ∷ cs)) (inside q)
          (later c cs j (last_separator-Cut cs j found)))
      e
