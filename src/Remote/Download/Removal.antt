-- ===== src/Remote/Download/Removal.antt =====
-- internal/remote/download.go: the local files behind the removal of the stage.
use winsh.Base.{
  ℕ, ◌≡◌, ◌≢◌, refl, sym, ap, subst, ◌∙◌, Bool, true, false, ◌||◌, Option, none, some, List, [],
  ◌∷◌, length, ◌==◌, if-elim, Bool-cases, inl, inr, Error,
}
use winsh.Remote.Response.{same_text}
use winsh.Remote.Session.{History}
use winsh.Remote.Upload.{Failure, TransferResult}
use winsh.Remote.Upload.Lanes.{Host, Codecs, Transferred, nothing, refused}
use winsh.Remote.LocalFiles.{
  Store, create_stage, set_file_at, set_file_other, same_text→eq, same_text_comm,
  create_rounds-free,
}
use winsh.Remote.Download.{Order, TrimSpace, remove_stage, settle}
use winsh.Remote.Download.Installed.{Fetched, Effect, settle-Keeps}

pub create_stage-free :
    (destination parent : List ℕ) (ok : Bool) (random : ℕ → Option (List ℕ)) (opens : ℕ → Bool)
    (store : Store) (stage : List ℕ)
    → create_stage destination parent ok random opens store ≡ some stage
    → store stage ≡ none
unfolding create_stage
create_stage-free destination parent ok random opens store stage e =
    let P : Option (List ℕ) → Type 0 = λ o. o ≡ some stage → store stage ≡ none in
    if-elim P (length destination == 0 || length parent == 0 || same_text parent (46 ∷ []))
      (λ _ x. absurd (cc))
      (λ _.
        if-elim P ok (λ _ x. create_rounds-free parent random opens store 8 0 stage x)
          (λ _ x. absurd (cc)))
      e

-- A path that holds a file is not the free one.
occupied :
    (store : Store) (stage p c : List ℕ)
    → store stage ≡ none
    → store p ≡ some c
    → same_text p stage ≡ false
occupied store stage p c free held = elim (Bool-cases (same_text p stage)) [
  | inl same ↦ absurd (clash (same_text→eq p stage same))
  | inr other ↦ other
]
  where
    clash : p ≡ stage → ⊥
    clash e = absurd (cc (ap store e))

-- The file system while the stage holds some bytes.
pub record Staged (stage : List ℕ) (store store1 : Store) : Type 0 where
  pub free : store stage ≡ none
  pub others : (p : List ℕ) → same_text p stage ≡ false → store1 p ≡ store p

remove_stage-restores :
    (stage : List ℕ) (store store1 : Store)
    → Staged stage store store1
    → (p : List ℕ) → remove_stage true stage store1 p ≡ store p
remove_stage-restores stage store store1 s p = elim (Bool-cases (same_text p stage)) [
  | inl same ↦ at_stage (same_text→eq p stage same)
  | inr other ↦ set_file_other stage p none store1 other ∙ s.others p other
]
  where
    at_stage : p ≡ stage → remove_stage true stage store1 p ≡ store p
    at_stage e =
        ap (λ q. remove_stage true stage store1 q) e
        ∙ set_file_at stage none store1
        ∙ sym s.free
        ∙ ap store (sym e)

remove_stage-others :
    (removes : Bool) (stage : List ℕ) (store1 : Store) (p : List ℕ)
    → same_text p stage ≡ false
    → remove_stage removes stage store1 p ≡ store1 p
remove_stage-others true stage store1 p other = set_file_other stage p none store1 other
remove_stage-others false stage store1 p other = refl

module _ (host : Host) (codecs : Codecs) (trim_space : TrimSpace) (fuel : ℕ) (order : Order)
    (store : Store) where
  -- The destination holds the file that the record describes. Without force it held none before.
  pub record Landed (r : TransferResult) (store' : Store) : Type 0 where
    pub destination : List ℕ
    pub resolved : order.destination ≡ some destination
    pub stage : List ℕ
    pub staged : Store
    pub installed : Store
    pub evidence : Fetched host codecs trim_space fuel order stage destination staged r installed
    pub there : store' destination ≡ some evidence.file
    pub fresh : order.force ≡ false → store destination ≡ none
    pub others :
        (p c : List ℕ) → same_text p destination ≡ false → store p ≡ some c → store' p ≡ some c

  pub record Sound (x : (Transferred × History) × Store) : Type 0 where
    pub committed : x.0.0.result.committed ≡ true → Landed x.0.0.result x.1
    pub reported : x.0.0.result.committed ≡ false → x.0.0.failure ≢ none
    pub kept : x.0.0.result.committed ≡ false → (p c : List ℕ) → store p ≡ some c → x.1 p ≡ some c
    pub restored :
        x.0.0.result.committed ≡ false → order.removes ≡ true → (p : List ℕ) → x.1 p ≡ store p

  pub refused-Sound : (f : Failure) (h : History) → Sound ((refused f, h), store)
  refused-Sound f h = record {
    committed = λ c. absurd (cc);
    reported = λ _ c. absurd (cc);
    kept = λ _ p c held. held;
    restored = λ _ _ p. refl;
  }

  module _ (stage destination : List ℕ) (store1 : Store) (s : Staged stage store store1) where
    -- Nothing was installed, and the stage is removed.
    pub removed-Sound :
        (t : Transferred) (h : History)
        → t.result.committed ≡ false
        → t.failure ≢ none
        → Sound ((t, h), remove_stage order.removes stage store1)
    removed-Sound t h fresh fails = record {
      committed = λ c. absurd (cc);
      reported = λ _. fails;
      kept = λ _ p c held.
          let other = occupied store stage p c s.free held in
          remove_stage-others order.removes stage store1 p other ∙ s.others p other ∙ held;
      restored = λ _ removes p.
          ap (λ b. remove_stage b stage store1 p) removes
          ∙ remove_stage-restores stage store store1 s p;
    }

    landed-Sound :
        (t : Transferred) (h : History) (store2 : Store)
        → order.destination ≡ some destination
        → t.result.committed ≡ true
        → Fetched host codecs trim_space fuel order stage destination store1 t.result store2
        → Sound ((t, h), remove_stage order.removes stage store2)
    landed-Sound t h store2 resolved done f = record {
      committed = λ _. record {
        destination = destination;
        resolved = resolved;
        stage = stage;
        staged = store1;
        installed = store2;
        evidence = f;
        there = remove_stage-others order.removes stage store2 destination other ∙ f.placed.there;
        fresh = λ plain. sym (s.others destination other) ∙ f.placed.fresh plain;
        others = λ p c apart held.
            let away = occupied store stage p c s.free held in
            remove_stage-others order.removes stage store2 p away
            ∙ f.placed.others p apart away
            ∙ s.others p away
            ∙ held;
      };
      reported = λ c. absurd (cc);
      kept = λ c. absurd (cc);
      restored = λ c. absurd (cc);
    }
      where
        other : same_text destination stage ≡ false
        other = same_text_comm destination stage ∙ f.placed.apart

    pub settled-Sound :
        (metadata : List ℕ) (x : (TransferResult × Option Failure) × Store) (e : Option Error)
        (h : History)
        → order.destination ≡ some destination
        → Effect host codecs trim_space fuel order stage destination store1 x
        → Sound (
          settle host codecs trim_space fuel order metadata true x.0 e h,
          remove_stage order.removes stage x.1,
        )
    settled-Sound metadata ((r, f), store2) e h resolved effect =
        let k = settle-Keeps host codecs trim_space fuel order metadata true r f e h in
        let t = settle host codecs trim_space fuel order metadata true (r, f) e h in
        let kept : t.0.result.committed ≡ r.committed = ap (λ z. z.committed) k.same in
        elim (Bool-cases r.committed) [
          | inl done ↦ landed-Sound t.0 t.1 store2 resolved (kept ∙ done) (
              subst
                (λ z. Fetched host codecs trim_space fuel order stage destination store1 z store2)
                (sym k.same) (effect.committed done))
          | inr fresh ↦
              subst (λ z. Sound (t, remove_stage order.removes stage z))
                (sym (effect.failed fresh).1)
                (removed-Sound t.0 t.1 (kept ∙ fresh) (k.still (effect.failed fresh).0))
        ]

    pub given_up-Sound :
        (metadata : List ℕ) (f : Failure) (e : Option Error) (h : History)
        → Sound (
          settle host codecs trim_space fuel order metadata false (nothing, some f) e h,
          remove_stage order.removes stage store1,
        )
    given_up-Sound metadata f e h =
        let k =
          settle-Keeps host codecs trim_space fuel order metadata false nothing (some f) e h in
        let t = settle host codecs trim_space fuel order metadata false (nothing, some f) e h in
        removed-Sound t.0 t.1 (ap (λ z. z.committed) k.same) (k.still (λ c. absurd (cc)))
