-- ===== src/Config/Selected.antt =====
-- internal/config/config.go: what `Select` gives for a configuration that `Load` accepted.
use winsh.Base.{
  ◌≡◌, ◌≢◌, refl, sym, ap, ◌∙◌, Bool, true, not, ◌&&◌, ◌||◌, Option, none, some, [], ◌∷◌, length,
  ◌==◌, if-elim, case_option, case_option-elim, arith, ==→eq,
}
use winsh.Remote.Response.{same_text}
use winsh.Config.{
  Text, Host, Credentials, Context, Map, File, Selection, find, no_host, no_credentials, or_zero,
  OnDisk, read_file, is_bad_name, is_known, check_contexts, Yaml, load, chosen_name, select,
}

entry :
    {A : Type 0} (zero' : A) (o : Option A) (a : A)
    → is_known o ≡ true
    → or_zero zero' o ≡ a
    → o ≡ some a
entry zero' none a e x = absurd (cc)
entry zero' (some b) a e x = ap (λ z. some z) x

-- The references of a context that the map gives.
find-checked :
    (hosts : Map Host) (credentials : Map Credentials) (contexts : Map Context) (name : Text)
    (c : Context)
    → check_contexts hosts credentials contexts ≡ true
    → find name contexts ≡ some c
    → (is_known (find c.host hosts) ≡ true) × (is_known (find c.credentials credentials) ≡ true)
unfolding check_contexts find
find-checked hosts credentials [] name c checked found = absurd (cc)
find-checked hosts credentials ((key, d) ∷ contexts) name c checked found =
    let T : Type 0 =
      (is_known (find c.host hosts) ≡ true) × (is_known (find c.credentials credentials) ≡ true) in
    let P : Bool → Type 0 = λ b. b ≡ true → T in
    let Q : Option Context → Type 0 = λ o. o ≡ some c → T in
    if-elim P
      (is_bad_name key
        || not (is_known (find d.host hosts))
        || not (is_known (find d.credentials credentials)))
      (λ _ x. absurd (cc))
      (λ good later.
        if-elim Q (same_text name key) (λ _ x. same_known d c x (ground arith) (ground arith))
          (λ _ x. find-checked hosts credentials contexts name c later x) found)
      checked
  where
    same_known :
        (d c : Context)
        → some d ≡ some c
        → is_known (find d.host hosts) ≡ true
        → is_known (find d.credentials credentials) ≡ true
        → (is_known (find c.host hosts) ≡ true) × (is_known (find c.credentials credentials) ≡ true)
    same_known d c x h k =
        let e : d ≡ c = cc in
        (
          ap (λ z. is_known (find z.host hosts)) (sym e) ∙ h,
          ap (λ z. is_known (find z.credentials credentials)) (sym e) ∙ k,
        )

-- The context's own entries were selected.
pub record Entries (f : File) (name : Text) (s : Selection) : Type 0 where
  pub context : Context
  pub named : find name f.contexts ≡ some context
  pub host_entry : find context.host f.hosts ≡ some s.host
  pub credentials_entry : find context.credentials f.credentials ≡ some s.credentials

-- What `Select` returns for a name, where `chosen` is the name or else the current context.
pub record Chosen (f : File) (chosen : Text) (r : Option Selection) : Type 0 where
  pub nothing :
      length chosen ≡ 0
      → (s : Selection) × (r ≡ some s) × (s.host ≡ no_host) × (s.credentials ≡ no_credentials)
  pub unknown : length chosen ≢ 0 → find chosen f.contexts ≡ none → r ≡ none
  pub selected : length chosen ≢ 0 → (s : Selection) → r ≡ some s → Entries f chosen s
  pub present : length chosen ≢ 0 → (c : Context) → find chosen f.contexts ≡ some c → r ≢ none

load-checked :
    (yaml : Yaml) (resolved : Bool) (disk : OnDisk) (f : File)
    → load yaml resolved disk ≡ some f
    → check_contexts f.hosts f.credentials f.contexts ≡ true
unfolding load
load-checked yaml resolved disk f =
    let P : Option File → Type 0 =
      λ o. o ≡ some f → check_contexts f.hosts f.credentials f.contexts ≡ true in
    if-elim P resolved
      (λ _.
        case_option-elim P (read_file disk) (λ _ x. absurd (cc))
          (λ raw _.
            case_option-elim P (yaml.decode raw) (λ _ x. absurd (cc))
              (λ g _.
                if-elim P
                  (yaml.is_single raw
                    && yaml.is_mapping raw
                    && check_contexts g.hosts g.credentials g.contexts)
                  (λ good x. same_file g f x (ground arith)) (λ _ x. absurd (cc)))))
      (λ _ x. absurd (cc))
  where
    same_file :
        (g f : File)
        → some g ≡ some f
        → check_contexts g.hosts g.credentials g.contexts ≡ true
        → check_contexts f.hosts f.credentials f.contexts ≡ true
    same_file g f x h =
        let e : g ≡ f = cc in ap (λ z. check_contexts z.hosts z.credentials z.contexts) (sym e) ∙ h

-- For a configuration that `Load` accepted, `Select` fails exactly where a name is given, or else a
-- current context, that names no context. Otherwise, without a name it selects nothing, and with
-- one it selects the host and the credentials that the context names, which both exist.
pub load-Chosen :
    (yaml : Yaml) (resolved : Bool) (disk : OnDisk) (f : File) (name : Text)
    → load yaml resolved disk ≡ some f
    → Chosen f (chosen_name f name) (select f name)
unfolding select
load-Chosen yaml resolved disk f name loaded =
    let n = chosen_name f name in
    if-elim (Chosen f n) (length n == 0)
      (λ empty.
        let z = ==→eq (length n) 0 empty in
        record {
          nothing = λ _. (
            record { host = no_host; credentials = no_credentials; defaults = f.defaults },
            refl,
            refl,
            refl,
          );
          unknown = λ named. absurd (named z);
          selected = λ named. absurd (named z);
          present = λ named. absurd (named z);
        })
      (λ full.
        case_option-elim (Chosen f n) (find n f.contexts)
          (λ missing. record {
            nothing = λ z. absurd (ground arith);
            unknown = λ _ _. refl;
            selected = λ _ s x. absurd (cc);
            present = λ _ c found. absurd (cc);
          })
          (λ c found.
            let (h, k) =
              find-checked f.hosts f.credentials f.contexts n c
                (load-checked yaml resolved disk f loaded) found in
            record {
              nothing = λ z. absurd (ground arith);
              unknown = λ _ missing. absurd (cc);
              selected = λ _ s x. record {
                context = c;
                named = found;
                host_entry =
                    entry no_host (find c.host f.hosts) s.host h
                      (ap (λ (o : Option Selection). case_option o no_host (λ y. y.host)) x);
                credentials_entry =
                    entry no_credentials (find c.credentials f.credentials) s.credentials k (
                      ap
                        (λ (o : Option Selection).
                          case_option o no_credentials (λ y. y.credentials))
                        x);
              };
              present = λ _ d _ x. absurd (cc);
            }))
