-- ===== src/Config.antt =====
-- internal/config/config.go and internal/secret/resolve.go: loading a configuration, the choice of a
-- context, and the value of a credential.
pub mod Selected
pub mod Origin
use winsh.Base.{
  ℕ, Bool, true, false, not, ◌&&◌, ◌||◌, Option, none, some, List, [], ◌∷◌, ◌++◌, length, drop, ltb,
  ◌==◌, if◌then◌else◌, case_option,
}
use winsh.Remote.Response.{same_text}

abbrev pub Text : Type 0
Text = List ℕ

pub record Host : Type 0 where
  pub endpoint : Text
  pub target_host : Text

pub record Credentials : Type 0 where
  pub domain : Text
  pub env_file : Text
  pub user : Text
  pub password : Text

pub record Context : Type 0 where
  pub host : Text
  pub credentials : Text

pub record Defaults : Type 0 where
  pub auth : Text
  pub timeout : Text
  pub control_master : Text
  pub control_persist : Text
  pub control_path : Text

abbrev pub Map : Type 0 → Type 0
Map A = List (Text × A)

pub record File : Type 0 where
  pub current_context : Text
  pub hosts : Map Host
  pub credentials : Map Credentials
  pub contexts : Map Context
  pub defaults : Defaults

pub record Selection : Type 0 where
  pub host : Host
  pub credentials : Credentials
  pub defaults : Defaults

unfoldable pub find : {A : Type 0} → Text → Map A → Option A
find name [] = none
find name ((key, a) ∷ entries) = if same_text name key then some a else find name entries

-- What a map gives for a missing key.
abbrev pub no_host : Host
no_host = record { endpoint = []; target_host = [] }

abbrev pub no_credentials : Credentials
no_credentials = record { domain = []; env_file = []; user = []; password = [] }

abbrev pub or_zero : {A : Type 0} → A → Option A → A
or_zero zero' o = case_option o zero' (λ a. a)

-- A file as `readFile` finds it: whether it is regular and its size, before and behind the opening,
-- and its bytes up to one above the limit.
pub record OnDisk : Type 0 where
  pub before : Option (Bool × ℕ)
  pub after : Option (Bool × ℕ)
  pub bytes : Option (List ℕ)

abbrev pub max_file_size : ℕ
max_file_size = 1048576

abbrev pub is_readable : Option (Bool × ℕ) → Bool
is_readable none = false
is_readable (some (regular, size)) = regular && not (ltb max_file_size size)

-- `readFile`
unfoldable pub read_file : OnDisk → Option (List ℕ)
read_file d =
    if is_readable d.before && is_readable d.after
    then case_option d.bytes none (λ b. if ltb max_file_size (length b) then none else some b)
    else none

abbrev pub has_any : (ℕ → Bool) → Text → Bool
has_any p [] = false
has_any p (c ∷ cs) = p c || has_any p cs

abbrev pub is_bad_name : Text → Bool
is_bad_name name = length name == 0 || has_any (λ c. c == 9 || c == 13 || c == 10) name

abbrev pub is_known : {A : Type 0} → Option A → Bool
is_known none = false
is_known (some a) = true

-- The loop over the contexts.
unfoldable pub check_contexts : Map Host → Map Credentials → Map Context → Bool
check_contexts hosts credentials [] = true
check_contexts hosts credentials ((name, c) ∷ contexts) =
    if is_bad_name name
      || not (is_known (find c.host hosts))
      || not (is_known (find c.credentials credentials))
    then false
    else check_contexts hosts credentials contexts

-- The YAML decoder: the first document, with every field known; whether it is the only one; and
-- whether it is a mapping.
pub record Yaml : Type 0 where
  pub decode : List ℕ → Option File
  pub is_single : List ℕ → Bool
  pub is_mapping : List ℕ → Bool

-- `Load`. `resolved` says that the path could be resolved.
unfoldable pub load : Yaml → Bool → OnDisk → Option File
load yaml resolved disk =
    if resolved
    then case_option (read_file disk) none (λ raw. case_option (yaml.decode raw) none (λ f.
      if yaml.is_single raw
        && yaml.is_mapping raw
        && check_contexts f.hosts f.credentials f.contexts
      then some f
      else none))
    else none

abbrev pub chosen_name : File → Text → Text
chosen_name f name = if length name == 0 then f.current_context else name

-- `Select`
unfoldable pub select : File → Text → Option Selection
select f name =
    let chosen = chosen_name f name in
    if length chosen == 0
    then some (record { host = no_host; credentials = no_credentials; defaults = f.defaults })
    else case_option (find chosen f.contexts) none (λ c. some (record {
      host = or_zero no_host (find c.host f.hosts);
      credentials = or_zero no_credentials (find c.credentials f.credentials);
      defaults = f.defaults;
    }))

-- `strings.CutPrefix`
unfoldable pub cut_prefix : Text → Text → Option Text
cut_prefix [] value = some value
cut_prefix (p ∷ prefix) [] = none
cut_prefix (p ∷ prefix) (c ∷ value) = if p == c then cut_prefix prefix value else none

-- "literal:", "env:" and "base64:"
abbrev pub literal_prefix : Text
literal_prefix = 108 ∷ 105 ∷ 116 ∷ 101 ∷ 114 ∷ 97 ∷ 108 ∷ 58 ∷ []

abbrev pub env_prefix : Text
env_prefix = 101 ∷ 110 ∷ 118 ∷ 58 ∷ []

abbrev pub base64_prefix : Text
base64_prefix = 98 ∷ 97 ∷ 115 ∷ 101 ∷ 54 ∷ 52 ∷ 58 ∷ []

abbrev pub Lookup : Type 0
Lookup = Text → Option Text

abbrev pub is_bad_variable : Text → Bool
is_bad_variable name =
    length name == 0 || has_any (λ c. c == 61 || c == 0 || c == 13 || c == 10) name

-- Base64 in its strict form, UTF-8, the reading of an env file, and its parser.
pub record Library : Type 0 where
  pub strict_base64 : Text → Option Text
  pub is_utf8 : Text → Bool
  pub disk : Text → OnDisk
  pub parse_env : List ℕ → Option (Map Text)

-- The checks at the end of `secret.Resolve`.
unfoldable pub check_value : Library → Text → Option Text
check_value library value =
    if length value == 0 || not (library.is_utf8 value) || has_any (λ c. c == 0) value
    then none
    else some value

-- `secret.Resolve`
unfoldable pub resolve_secret : Library → Text → Lookup → Option Text
resolve_secret library value lookup =
    case_option (cut_prefix literal_prefix value)
      (case_option (cut_prefix env_prefix value)
        (case_option (cut_prefix base64_prefix value) (check_value library value)
          (λ text. case_option (library.strict_base64 text) none (λ v. check_value library v)))
        (λ name.
          if is_bad_variable name
          then none
          else case_option (lookup name) none (λ v. check_value library v)))
      (λ v. check_value library v)

abbrev pub looked_up : Lookup → Map Text → Lookup
looked_up lookup values name = case_option (lookup name) (find name values) (λ v. some v)

-- `Config.Resolve`. `locate` makes the path of an env file absolute.
unfoldable pub resolve : Library → (Text → Text) → Text → Credentials → Lookup → Option Text
resolve library locate value credentials lookup =
    case_option (cut_prefix env_prefix value) (resolve_secret library value lookup) (λ name.
      if is_known (lookup name) || length credentials.env_file == 0
      then resolve_secret library value lookup
      else case_option (read_file (library.disk (locate credentials.env_file))) none (λ raw.
        case_option (library.parse_env raw) none
          (λ values. resolve_secret library value (looked_up lookup values))))
