-- ===== src/Remote/Codec/Records/Schema.antt =====
-- What a control record that winsh accepts looks like.
use winsh.Base.{
  ℕ, ◌+◌, ◌≤◌, ◌≡◌, refl, ap, ◌∙◌, Bool, true, false, not, ◌&&◌, ◌||◌, Option, some, List, [], ◌∷◌,
  length, ltb, ◌==◌, if-elim, case_option-elim, arith, subst, ==→eq,
}
use winsh.Remote.Response.{same_text}
use winsh.Remote.Codec.Records.{
  Key, version, id, bytes, sha256, unknown_key, Json, Record, Present, present, mark_present,
  is_unknown, no_keys, empty_record, is_version_one, is_negative, all_hex, Member, key_error,
  key_no_text, member, Document, set_field, read_members, is_object, is_at_end, all_present,
  check_record, read_document, read_record,
}

abbrev same_key : Key → Key → Bool
same_key version version = true
same_key id id = true
same_key bytes bytes = true
same_key sha256 sha256 = true
same_key unknown_key unknown_key = true
same_key _ _ = false

abbrev bit : Bool → ℕ
bit true = 1
bit false = 0

-- Marking a key that was not there.
marked_bit :
    (k m : Key) (p : Present)
    → is_unknown m ≡ false
    → present m p ≡ false
    → bit (present k (mark_present m p)) ≡ bit (present k p) + bit (same_key k m)
marked_bit version version p e f = rw f
marked_bit version id p e f = omega arith
marked_bit version bytes p e f = omega arith
marked_bit version sha256 p e f = omega arith
marked_bit id version p e f = omega arith
marked_bit id id p e f = rw f
marked_bit id bytes p e f = omega arith
marked_bit id sha256 p e f = omega arith
marked_bit bytes version p e f = omega arith
marked_bit bytes id p e f = omega arith
marked_bit bytes bytes p e f = rw f
marked_bit bytes sha256 p e f = omega arith
marked_bit sha256 version p e f = omega arith
marked_bit sha256 id p e f = omega arith
marked_bit sha256 bytes p e f = omega arith
marked_bit sha256 sha256 p e f = rw f
marked_bit unknown_key version p e f = omega arith
marked_bit unknown_key id p e f = omega arith
marked_bit unknown_key bytes p e f = omega arith
marked_bit unknown_key sha256 p e f = omega arith
marked_bit k unknown_key p e f = absurd (cc)

neither : (a b : Bool) → (a || b) ≡ false → (a ≡ false) × (b ≡ false)
neither a b e = (ground arith, ground arith)

some_eq : {a b : Record} → some a ≡ some b → a ≡ b
some_eq e = cc

first_of :
    {p q : Present} {r s : Record}
    → ◌≡◌ {A = Option (Present × Record)} (some (p, r)) (some (q, s))
    → p ≡ q
first_of e = cc

module _ (json : Json) where
  abbrev pub names : Key → Member json → Bool
  names k key_error = false
  names k key_no_text = false
  names k (member m raw) = same_key k m

  -- How often a key stands among the members.
  abbrev pub count : Key → List (Member json) → ℕ
  count k [] = 0
  count k (m ∷ ms) = bit (names k m) + count k ms

  read_members-count :
      (k : Key) (ms : List (Member json)) (p q : Present) (r s : Record)
      → read_members json ms p r ≡ some (q, s)
      → bit (present k p) + count k ms ≡ bit (present k q)
  unfolding read_members
  read_members-count k [] p q r s e =
      let same : p ≡ q = first_of e in omega (arith, ap (λ (x : Present). bit (present k x)) same)
  read_members-count k (key_error ∷ ms) p q r s e = absurd (cc)
  read_members-count k (key_no_text ∷ ms) p q r s e = absurd (cc)
  read_members-count k (member m raw ∷ ms) p q r s e =
      let P : Option (Present × Record) → Type 0 = λ o.
        (o ≡ some (q, s)
          → bit (present k p) + (bit (same_key k m) + count k ms) ≡ bit (present k q)) in
      if-elim P (is_unknown m || present m p) (λ _ x. absurd (cc))
        (λ fresh.
          case_option-elim P raw (λ _ x. absurd (cc))
            (λ value _.
              case_option-elim P (set_field json m value r) (λ _ x. absurd (cc))
                (λ r' _ x.
                  step k m p (count k ms) (bit (present k q)) fresh
                    (read_members-count k ms (mark_present m p) q r' s x))))
        e
    where
      step :
          (k m : Key) (p : Present) (n t : ℕ)
          → (is_unknown m || present m p) ≡ false
          → bit (present k (mark_present m p)) + n ≡ t
          → bit (present k p) + (bit (same_key k m) + n) ≡ t
      step k m p n t fresh ih =
          let (known, absent) = neither (is_unknown m) (present m p) fresh in
          omega (arith, marked_bit k m p known absent, ih)

  -- An accepted record.
  pub record Accepted (d : Document json) (expected : List ℕ) (r : Record) : Type 0 where
    pub whole :
        (is_object json d.opening ≡ true) × (d.closes ≡ true) × (is_at_end json d.trailing ≡ true)
    pub once :
        (count version d.members ≡ 1)
        × (count id d.members ≡ 1)
        × (count bytes d.members ≡ 1)
        × (count sha256 d.members ≡ 1)
    pub known : count unknown_key d.members ≡ 0
    pub first_version : is_version_one r.record_version ≡ true
    pub expected_id : same_text r.record_id expected ≡ true
    pub natural : is_negative r.record_bytes ≡ false
    pub digest : (length r.record_sha256 ≡ 64) × (all_hex r.record_sha256 ≡ true)

  everything :
      (p : Present)
      → all_present json p ≡ true
      → (k : Key) → is_unknown k ≡ false
      → present k p ≡ true
  everything p e version f = ground arith
  everything p e id f = ground arith
  everything p e bytes f = ground arith
  everything p e sha256 f = ground arith
  everything p e unknown_key f = absurd (cc)

  counted :
      (k : Key) (ms : List (Member json)) (p : Present) (r : Record)
      → read_members json ms no_keys empty_record ≡ some (p, r)
      → bit (present k no_keys) ≡ 0
      → count k ms ≡ bit (present k p)
  counted k ms p r e z = omega (arith, read_members-count k ms no_keys p empty_record r e, z)

  record_checks :
      (a b c : Bool) (expected : List ℕ) (r : Record)
      → (a && b && c && check_record json expected r) ≡ true
      → (a ≡ true) × (b ≡ true) × (c ≡ true) × (check_record json expected r ≡ true)
  record_checks a b c expected r e = (ground arith, ground arith, ground arith, ground arith)

  field_checks :
      (a b c d f : Bool)
      → (a && b && not c && d && f) ≡ true
      → (a ≡ true) × (b ≡ true) × (c ≡ false) × (d ≡ true) × (f ≡ true)
  field_checks a b c d f e = (ground arith, ground arith, ground arith, ground arith, ground arith)

  document-Accepted :
      (d : Document json) (expected : List ℕ) (p : Present) (r : Record)
      → is_object json d.opening ≡ true
      → read_members json d.members no_keys empty_record ≡ some (p, r)
      → (d.closes
          && is_at_end json d.trailing
          && all_present json p
          && check_record json expected r)
        ≡ true
      → Accepted d expected r
  unfolding check_record
  document-Accepted d expected p r object read ok =
      let (closes, ends, all', checked) =
        record_checks d.closes (is_at_end json d.trailing) (all_present json p) expected r ok in
      let (v, i, b, l, h) =
        field_checks (is_version_one r.record_version) (same_text r.record_id expected)
          (is_negative r.record_bytes) (length r.record_sha256 == 64) (all_hex r.record_sha256)
          checked in
      let once' : (k : Key)
          → is_unknown k ≡ false
          → bit (present k no_keys) ≡ 0
          → count k d.members ≡ 1 =
        λ k f z. counted k d.members p r read z ∙ ap bit (everything p all' k f) in
      record {
        whole = (object, closes, ends);
        once = (
          once' version refl refl,
          once' id refl refl,
          once' bytes refl refl,
          once' sha256 refl refl,
        );
        known = counted unknown_key d.members p r read refl;
        first_version = v;
        expected_id = i;
        natural = b;
        digest = (==→eq (length r.record_sha256) 64 l, h);
      }

  read_document-Accepted :
      (d : Document json) (expected : List ℕ) (r : Record)
      → read_document json d expected ≡ some r
      → Accepted d expected r
  unfolding read_document
  read_document-Accepted d expected r e =
      let P : Option Record → Type 0 = λ o. (o ≡ some r → Accepted d expected r) in
      if-elim P (is_object json d.opening)
        (λ object.
          case_option-elim P (read_members json d.members no_keys empty_record) (λ _ x. absurd (cc))
            (λ found read.
              if-elim P
                (d.closes
                  && is_at_end json d.trailing
                  && all_present json found.0
                  && check_record json expected found.1)
                (λ ok x.
                  subst (Accepted d expected) (some_eq x)
                    (document-Accepted d expected found.0 found.1 object read ok))
                (λ _ x. absurd (cc))))
        (λ _ x. absurd (cc)) e

  -- A record that `readRecord` accepts comes from a body of at most 4096 bytes that is one JSON
  -- object and nothing else, in which each of the keys version, id, bytes and sha256 stands exactly
  -- once and no other key stands; its version is 1, its identifier the expected one, its count not
  -- negative and its digest 64 lower-case hexadecimal digits.
  pub read_record-Accepted :
      (decoder : List ℕ → Document json) (body : Option (List ℕ)) (expected : List ℕ) (r : Record)
      → read_record json decoder body expected ≡ some r
      → (b : List ℕ) × (body ≡ some b) × (length b ≤ 4096) × Accepted (decoder b) expected r
  unfolding read_record
  read_record-Accepted decoder body expected r e =
      let P : Option Record → Type 0 = λ o.
        (o ≡ some r
          → (b : List ℕ) × (body ≡ some b) × (length b ≤ 4096) × Accepted (decoder b) expected r) in
      case_option-elim P body (λ _ x. absurd (cc))
        (λ b got.
          if-elim P (ltb 4096 (length b)) (λ _ x. absurd (cc))
            (λ short x.
              (b, got, within (length b) short, read_document-Accepted (decoder b) expected r x)))
        e
    where
      within : (n : ℕ) → ltb 4096 n ≡ false → n ≤ 4096
      within n f = ground arith
