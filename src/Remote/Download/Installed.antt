-- ===== src/Remote/Download/Installed.antt =====
-- internal/remote/download.go: what a download leaves in the file system.
use winsh.Base.{
  ℕ, ◌≡◌, ◌≢◌, refl, sym, ap, ◌∙◌, Bool, true, false, not, ◌&&◌, ◌||◌, Option, none, some, List, [],
  length, ◌==◌, if-elim, case_option-elim, arith, Error, ==→eq,
}
use winsh.Remote.Codec.Records.{Record, read_record}
use winsh.Remote.Response.{same_text}
use winsh.Remote.Upload.{Failure, TransferResult, plain_failure, remote_exit, join_failure}
use winsh.Remote.Upload.Lanes.{Host, Codecs, Transferred, nothing, is_count, cleanup_remote_stage}
use winsh.Remote.LocalFiles.{
  Store, set_file, commit_stage, set_file_at, set_file_other, same_text_comm,
}
use winsh.Remote.Download.{Order, TrimSpace, transfer_control, install, fetch_record, settle}
use winsh.Remote.Session.{History}

-- What `commitStage` did where it returned nil.
pub record Placed (stage destination file : List ℕ) (force : Bool) (store store' : Store)
    : Type 0 where
  pub apart : same_text stage destination ≡ false
  pub fresh : force ≡ false → store destination ≡ none
  pub there : store' destination ≡ some file
  pub others :
      (p : List ℕ)
      → same_text p destination ≡ false
      → same_text p stage ≡ false
      → store' p ≡ store p

pub commit_stage-Placed :
    (stage destination file : List ℕ) (force installs : Bool) (store store' : Store)
    → store stage ≡ some file
    → commit_stage stage destination force installs store ≡ some store'
    → Placed stage destination file force store store'
unfolding commit_stage
commit_stage-Placed stage destination file force installs store store' held e =
    let P : Option Store → Type 0 =
      λ o. o ≡ some store' → Placed stage destination file force store store' in
    if-elim P (length stage == 0 || length destination == 0 || same_text stage destination)
      (λ _ x. absurd (cc))
      (λ distinct.
        let apart : same_text stage destination ≡ false = ground arith in
        if-elim P force
          (λ forced.
            if-elim P installs (λ _ x. renamed-Placed apart forced (same_store _ x))
              (λ _ x. absurd (cc)))
          (λ _.
            case_option-elim P (store destination)
              (λ free.
                if-elim P installs (λ _ x. linked-Placed apart free (same_store _ x))
                  (λ _ x. absurd (cc)))
              (λ c _ x. absurd (cc))))
      e
  where
    same_store : (s : Store) → some s ≡ some store' → s ≡ store'
    same_store s x = cc

    apart_back : same_text stage destination ≡ false → same_text destination stage ≡ false
    apart_back a = same_text_comm destination stage ∙ a

    linked-Placed :
        same_text stage destination ≡ false
        → store destination ≡ none
        → set_file destination (store stage) store ≡ store'
        → Placed stage destination file force store store'
    linked-Placed apart free x = record {
      apart = apart;
      fresh = λ _. free;
      there =
          ap (λ (s : Store). s destination) (sym x)
          ∙ set_file_at destination (store stage) store
          ∙ held;
      others = λ p d s.
          ap (λ (s : Store). s p) (sym x) ∙ set_file_other destination p (store stage) store d;
    }

    renamed-Placed :
        same_text stage destination ≡ false
        → force ≡ true
        → set_file stage none (set_file destination (store stage) store) ≡ store'
        → Placed stage destination file force store store'
    renamed-Placed apart forced x = record {
      apart = apart;
      fresh = λ c. absurd (cc);
      there =
          ap (λ (s : Store). s destination) (sym x)
          ∙ set_file_other stage destination none (set_file destination (store stage) store)
              (apart_back apart)
          ∙ set_file_at destination (store stage) store
          ∙ held;
      others = λ p d s.
          ap (λ (s : Store). s p) (sym x)
          ∙ set_file_other stage p none (set_file destination (store stage) store) s
          ∙ set_file_other destination p (store stage) store d;
    }

module _ (host : Host) (codecs : Codecs) (trim_space : TrimSpace) (fuel : ℕ) (order : Order) where
  -- A committed download: the record that the fetch command printed describes the stage, which now
  -- is the destination.
  pub record Fetched (stage destination : List ℕ) (store : Store) (r : TransferResult)
      (store' : Store) : Type 0 where
    pub id : List ℕ
    pub identified : order.transfer_id ≡ some id
    pub control : List ℕ
    pub before : History
    pub fetched :
        (transfer_control host codecs trim_space fuel order.fetch order.fetch_budget before).0
        ≡ some (control, 0)
    pub rec : Record
    pub read : read_record codecs.json codecs.decoder (some control) id ≡ some rec
    pub file : List ℕ
    pub counted : is_count (length file) rec.record_bytes ≡ true
    pub hashed : same_text (codecs.sha256_hex file) rec.record_sha256 ≡ true
    pub bytes : r.bytes ≡ length file
    pub sha256 : r.sha256 ≡ codecs.sha256_hex file
    pub placed : Placed stage destination file order.force store store'

  -- What a step that may commit does.
  pub record Effect (stage destination : List ℕ) (store : Store)
      (x : (TransferResult × Option Failure) × Store) : Type 0 where
    pub committed : x.0.0.committed ≡ true → Fetched stage destination store x.0.0 x.1
    pub failed : x.0.0.committed ≡ false → (x.0.1 ≢ none) × (x.1 ≡ store)

  pub failed-Effect :
      (stage destination : List ℕ) (store : Store) (f : Failure)
      → Effect stage destination store ((nothing, some f), store)
  failed-Effect stage destination store f = record {
    committed = λ c. absurd (cc);
    failed = λ _. (λ c. absurd (cc), refl);
  }

  install-Effect :
      (stage destination : List ℕ) (copied : ℕ) (control id : List ℕ) (store : Store) (h : History)
      → order.transfer_id ≡ some id
      → (transfer_control host codecs trim_space fuel order.fetch order.fetch_budget h).0
        ≡ some (control, 0)
      → Effect stage destination store
          (install host codecs trim_space fuel order stage destination copied control id store)
  unfolding install
  install-Effect stage destination copied control id store h identified fetched =
      let P : (TransferResult × Option Failure) × Store → Type 0 = Effect stage destination store in
      let no = failed-Effect stage destination store plain_failure in
      case_option-elim P (read_record codecs.json codecs.decoder (some control) id) (λ _. no)
        (λ rec read.
          case_option-elim P (store stage) (λ _. no)
            (λ file held.
              if-elim P (not (order.synced && order.hashed)) (λ _. no)
                (λ _.
                  if-elim P
                    (not (
                      length file == copied
                      && is_count (length file) rec.record_bytes
                      && same_text (codecs.sha256_hex file) rec.record_sha256))
                    (λ _. no)
                    (λ agrees.
                      if-elim P (not order.closed) (λ _. no)
                        (λ _.
                          case_option-elim P
                            (commit_stage stage destination order.force order.installs store)
                            (λ _. no)
                            (λ store' installed. record {
                              committed = λ _. record {
                                id = id;
                                identified = identified;
                                control = control;
                                before = h;
                                fetched = fetched;
                                rec = rec;
                                read = read;
                                file = file;
                                counted = ground arith;
                                hashed = ground arith;
                                bytes = refl;
                                sha256 = refl;
                                placed =
                                    commit_stage-Placed stage destination file order.force
                                      order.installs store store' held installed;
                              };
                              failed = λ c. absurd (cc);
                            }))))))

  pub fetch_record-Effect :
      (stage destination : List ℕ) (copied : ℕ) (id : List ℕ) (store : Store) (h : History)
      → order.transfer_id ≡ some id
      → Effect stage destination store
          (fetch_record host codecs trim_space fuel order stage destination copied id store h).0
  unfolding fetch_record
  fetch_record-Effect stage destination copied id store h identified =
      let Q : ((TransferResult × Option Failure) × Store) × History → Type 0 =
        λ x. Effect stage destination store x.0 in
      let P : (TransferResult × Option Failure) × Store → Type 0 = Effect stage destination store in
      if-elim Q order.fetch.built
        (λ _.
          case_option-elim P
            (transfer_control host codecs trim_space fuel order.fetch order.fetch_budget h).0
            (λ _. failed-Effect stage destination store plain_failure)
            (λ (text, code) got.
              if-elim P (code == 0)
                (λ zero'.
                  install-Effect stage destination copied text id store h identified
                    (got ∙ ap (λ c. some (text, c)) (==→eq code 0 zero')))
                (λ _. failed-Effect stage destination store (remote_exit code))))
        (λ _. failed-Effect stage destination store plain_failure)

  -- The deferred cleanup keeps the result and the error.
  pub record Keeps (r : TransferResult) (f : Option Failure) (t : Transferred) : Type 0 where
    pub same : t.result ≡ r
    pub still : f ≢ none → t.failure ≢ none

  joined_some : (f : Option Failure) (e : Option Error) → f ≢ none → join_failure f e ≢ none
  joined_some none e s c = absurd (s refl)
  joined_some (some f) e s c = absurd (cc)

  pub settle-Keeps :
      (metadata : List ℕ) (done : Bool) (r : TransferResult) (f : Option Failure) (e : Option Error)
      (h : History)
      → Keeps r f (settle host codecs trim_space fuel order metadata done (r, f) e h).0
  unfolding settle
  settle-Keeps metadata done r f e h =
      let P : Transferred × History → Type 0 = λ x. Keeps r f x.0 in
      let c = cleanup_remote_stage host codecs fuel order.cleaner order.removal h in
      case_option-elim P e
        (λ _.
          if-elim P (not done) (λ _. record { same = refl; still = λ s. s })
            (λ _.
              if-elim P c.0 (λ _. record { same = refl; still = λ s. s })
                (λ _. record { same = refl; still = joined_some f (some []) })))
        (λ x _. record { same = refl; still = joined_some f (some x) })
