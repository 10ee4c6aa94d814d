-- ===== src/Tests/Settings.antt =====
-- A configuration with one context, whose password is a variable of an env file.
use winsh.Base.{◌≡◌, ◌⊎◌, refl, true, none, some, [], ◌∷◌, ◌++◌}
use winsh.Config.{
  Host, Credentials, File, OnDisk, Yaml, find, read_file, check_contexts, load, select, cut_prefix,
  env_prefix, Lookup, Library, check_value, resolve_secret, resolve,
}
use winsh.Config.Selected.{Chosen, load-Chosen}
use winsh.Config.Origin.{Origin, FromFile, Proper, resolve-Origin}

abbrev lab_host : Host
lab_host = record { endpoint = 104 ∷ []; target_host = [] }

abbrev lab_credentials : Credentials
lab_credentials = record {
  domain = [];
  env_file = 102 ∷ [];
  user = 117 ∷ [];
  password = env_prefix ++ (80 ∷ []);
}

abbrev settings : File
settings = record {
  current_context = 99 ∷ [];
  hosts = (1 ∷ [], lab_host) ∷ [];
  credentials = (2 ∷ [], lab_credentials) ∷ [];
  contexts = (99 ∷ [], record { host = 1 ∷ []; credentials = 2 ∷ [] }) ∷ [];
  defaults = record {
    auth = [];
    timeout = [];
    control_master = [];
    control_persist = [];
    control_path = [];
  };
}

abbrev yaml : Yaml
yaml = record { decode = λ b. some settings; is_single = λ b. true; is_mapping = λ b. true }

abbrev disk : OnDisk
disk = record { before = some (true, 3); after = some (true, 3); bytes = some (1 ∷ 2 ∷ 3 ∷ []) }

settings_loaded : load yaml true disk ≡ some settings
unfolding load read_file check_contexts find
settings_loaded = refl

load-Chosen_example : Chosen settings (99 ∷ []) (select settings [])
load-Chosen_example = load-Chosen yaml true disk settings [] settings_loaded

abbrev library : Library
library = record {
  strict_base64 = λ t. some t;
  is_utf8 = λ t. true;
  disk = λ path. disk;
  parse_env = λ raw. some ((80 ∷ [], 115 ∷ 51 ∷ []) ∷ []);
}

abbrev unset : Lookup
unset name = none

password_found :
    resolve library (λ p. p) lab_credentials.password lab_credentials unset ≡ some (115 ∷ 51 ∷ [])
unfolding resolve resolve_secret check_value cut_prefix read_file find
password_found = refl

resolve-Origin_example :
    (Origin library lab_credentials.password unset (115 ∷ 51 ∷ [])
      ⊎ FromFile library (λ p. p) lab_credentials.password lab_credentials unset (115 ∷ 51 ∷ []))
    × Proper library (115 ∷ 51 ∷ [])
resolve-Origin_example =
    resolve-Origin library (λ p. p) lab_credentials.password lab_credentials unset (115 ∷ 51 ∷ [])
      password_found
