-- ===== src/Config/Origin.antt =====
-- internal/secret/resolve.go and `Config.Resolve` of internal/config/config.go: where a credential
-- comes from.
use winsh.Base.{
  ℕ, ◌≡◌, ◌≢◌, ◌⊎◌, inl, inr, refl, sym, subst, ap, ◌∙◌, true, false, not, ◌||◌, Option, none, some,
  List, length, ◌==◌, if-elim, case_option, case_option-elim, arith,
}
use winsh.Config.{
  Text, Credentials, Map, find, read_file, is_known, has_any, cut_prefix, literal_prefix,
  env_prefix, base64_prefix, Lookup, is_bad_variable, Library, check_value, resolve_secret,
  looked_up, resolve,
}

module _ (library : Library) where
  -- Where a value was taken from: the text behind `literal:`, the decoding of the text behind
  -- `base64:`, a variable, or the whole value where it has none of the three prefixes.
  pub data Origin (value : Text) (lookup : Lookup) (v : Text) : Type 0 where
    literal : cut_prefix literal_prefix value ≡ some v → Origin value lookup v
    encoded :
        (text : Text)
        → cut_prefix base64_prefix value ≡ some text
        → library.strict_base64 text ≡ some v
        → Origin value lookup v
    variable :
        (name : Text)
        → cut_prefix env_prefix value ≡ some name
        → is_bad_variable name ≡ false
        → lookup name ≡ some v
        → Origin value lookup v
    plain :
        cut_prefix literal_prefix value ≡ none
        → cut_prefix env_prefix value ≡ none
        → cut_prefix base64_prefix value ≡ none
        → value ≡ v
        → Origin value lookup v

  -- A value that `secret.Resolve` returns is not empty, is UTF-8 and has no NUL.
  pub record Proper (v : Text) : Type 0 where
    pub nonempty : length v ≢ 0
    pub utf8 : library.is_utf8 v ≡ true
    pub no_nul : has_any (λ c. c == 0) v ≡ false

  check_value-Proper : (u v : Text) → check_value library u ≡ some v → (u ≡ v) × Proper v
  unfolding check_value
  check_value-Proper u v =
      if-elim (λ (o : Option Text). o ≡ some v → (u ≡ v) × Proper v)
        (length u == 0 || not (library.is_utf8 u) || has_any (λ c. c == 0) u) (λ _ x. absurd (cc))
        (λ good x. proper u v (same u v x) good)
    where
      same : (u v : Text) → some u ≡ some v → u ≡ v
      same u v x = cc

      proper :
          (u v : Text)
          → u ≡ v
          → (length u == 0 || not (library.is_utf8 u) || has_any (λ c. c == 0) u) ≡ false
          → (u ≡ v) × Proper v
      proper u v e good = (
        e,
        subst Proper e (record {
          nonempty = λ z. absurd (ground arith);
          utf8 = ground arith;
          no_nul = ground arith;
        }),
      )

  resolve_secret-Origin :
      (value : Text) (lookup : Lookup) (v : Text)
      → resolve_secret library value lookup ≡ some v
      → Origin value lookup v × Proper v
  unfolding resolve_secret
  resolve_secret-Origin value lookup v =
      let P : Option Text → Type 0 = λ o. o ≡ some v → Origin value lookup v × Proper v in
      case_option-elim P (cut_prefix literal_prefix value)
        (λ l.
          case_option-elim P (cut_prefix env_prefix value)
            (λ e.
              case_option-elim P (cut_prefix base64_prefix value)
                (λ b x. let (s, p) = check_value-Proper value v x in (plain l e b s, p))
                (λ text b.
                  case_option-elim P (library.strict_base64 text) (λ _ x. absurd (cc))
                    (λ u d x.
                      let (s, p) = check_value-Proper u v x in
                      (encoded text b (d ∙ ap (λ z. some z) s), p))))
            (λ name e.
              if-elim P (is_bad_variable name) (λ _ x. absurd (cc))
                (λ good.
                  case_option-elim P (lookup name) (λ _ x. absurd (cc))
                    (λ u found x.
                      let (s, p) = check_value-Proper u v x in
                      (variable name e good (found ∙ ap (λ z. some z) s), p)))))
        (λ u l x. let (s, p) = check_value-Proper u v x in (literal (l ∙ ap (λ z. some z) s), p))

  -- The variable was read from the credentials' env file.
  pub record FromFile (locate : Text → Text) (value : Text) (credentials : Credentials)
      (lookup : Lookup) (v : Text) : Type 0 where
    pub name : Text
    pub referred : cut_prefix env_prefix value ≡ some name
    pub unset : lookup name ≡ none
    pub raw : List ℕ
    pub stored : read_file (library.disk (locate credentials.env_file)) ≡ some raw
    pub values : Map Text
    pub parsed : library.parse_env raw ≡ some values
    pub listed : find name values ≡ some v

  unknown_none : (o : Option Text) → is_known o ≡ false → o ≡ none
  unknown_none none e = refl
  unknown_none (some v) e = absurd (cc)

  through_file :
      (locate : Text → Text) (value : Text) (credentials : Credentials) (lookup : Lookup)
      (v name : Text) (raw : List ℕ) (values : Map Text)
      → cut_prefix env_prefix value ≡ some name
      → lookup name ≡ none
      → read_file (library.disk (locate credentials.env_file)) ≡ some raw
      → library.parse_env raw ≡ some values
      → Origin value (looked_up lookup values) v
      → Origin value lookup v ⊎ FromFile locate value credentials lookup v
  through_file locate value credentials lookup v name raw values e unset stored parsed (literal l) =
      inl (literal l)
  through_file locate value credentials lookup v name raw values e unset stored parsed
        (encoded text b d) =
      inl (encoded text b d)
  through_file locate value credentials lookup v name raw values e unset stored parsed
        (plain l p b s) =
      inl (plain l p b s)
  through_file locate value credentials lookup v name raw values e unset stored parsed
        (variable other p good found) =
      let n : other ≡ name = same_name (sym p ∙ e) in
      let missing : lookup other ≡ none = ap lookup n ∙ unset in
      inr (record {
        name = other;
        referred = p;
        unset = missing;
        raw = raw;
        stored = stored;
        values = values;
        parsed = parsed;
        listed = listed_there (lookup other) (find other values) missing found;
      })
    where
      same_name : some other ≡ some name → other ≡ name
      same_name q = cc

      listed_there :
          (o u : Option Text) → o ≡ none → case_option o u (λ w. some w) ≡ some v → u ≡ some v
      listed_there none u m q = q
      listed_there (some w) u m q = absurd (cc)

  -- A credential that `Config.Resolve` returns is not empty, is UTF-8 and has no NUL, and it comes
  -- from the value's one prefix and the process's environment, or, for an `env:` reference to a
  -- variable that the process lacks, from the credentials' env file.
  pub resolve-Origin :
      (locate : Text → Text) (value : Text) (credentials : Credentials) (lookup : Lookup) (v : Text)
      → resolve library locate value credentials lookup ≡ some v
      → (Origin value lookup v ⊎ FromFile locate value credentials lookup v) × Proper v
  unfolding resolve
  resolve-Origin locate value credentials lookup v =
      let T : Type 0 =
        (Origin value lookup v ⊎ FromFile locate value credentials lookup v) × Proper v in
      let P : Option Text → Type 0 = λ o. o ≡ some v → T in
      let direct : resolve_secret library value lookup ≡ some v → T =
        λ x. let (o, p) = resolve_secret-Origin value lookup v x in (inl o, p) in
      case_option-elim P (cut_prefix env_prefix value) (λ _. direct)
        (λ name e.
          if-elim P (is_known (lookup name) || length credentials.env_file == 0) (λ _. direct)
            (λ consulted.
              case_option-elim P (read_file (library.disk (locate credentials.env_file)))
                (λ _ x. absurd (cc))
                (λ raw stored.
                  case_option-elim P (library.parse_env raw) (λ _ x. absurd (cc))
                    (λ values parsed x.
                      let (o, p) = resolve_secret-Origin value (looked_up lookup values) v x in
                      let unset = unknown_none (lookup name) (ground arith) in
                      (
                        through_file locate value credentials lookup v name raw values e unset
                            stored parsed o,
                        p,
                      )))))
