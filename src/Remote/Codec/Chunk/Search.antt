-- ===== src/Remote/Codec/Chunk/Search.antt =====
-- The chunk that `chunkSize` returns fits, and is the largest that does.
use winsh.Base.{
  ℕ, zero, suc, ◌+◌, ◌-◌, ◌/◌, ◌<◌, ◌≤◌, ◌≡◌, refl, none, some, true, leb, ltb, ◌==◌, arith,
  Bool-cases, inl, inr, if-elim, case_option-elim, ltb→lt,
}
use winsh.Remote.Codec.Chunk.{
  Size, size, failed, Builder, search_rounds, chunk_size, builder_failed, envelope_too_small,
  int_limit,
}

-- A chunk of `n` bytes makes a message that the envelope takes.
abbrev pub Fits : ℕ → Builder → ℕ → Type 0
Fits max_envelope builder n = (l : ℕ) × (builder n ≡ some l) × (l ≤ max_envelope)

-- Longer chunks never make shorter messages, and every chunk has a message.
pub record IsMonotone (builder : Builder) : Type 0 where
  pub total : (n : ℕ) → (l : ℕ) × (builder n ≡ some l)
  pub monotone : (m n k l : ℕ) → m ≤ n → builder m ≡ some k → builder n ≡ some l → k ≤ l

-- What the search answers from a range whose lower end fits.
abbrev pub Found : ℕ → Builder → ℕ → ℕ → Size → Type 0
Found max_envelope builder lo hi (size n) =
    Fits max_envelope builder n
    × (lo ≤ n)
    × (n ≤ hi)
    × (IsMonotone builder → (m : ℕ) → n < m → m ≤ hi → ¬ (Fits max_envelope builder m))
Found max_envelope builder lo hi (failed e) = (e ≡ builder_failed) × (¬ (IsMonotone builder))

never_total : (builder : Builder) (n : ℕ) → builder n ≡ none → ¬ (IsMonotone builder)
never_total builder n e m = let (l, some') = m.total n in cc

Found-left :
    (max_envelope : ℕ) (builder : Builder) (lo mid hi : ℕ) (r : Size)
    → lo ≤ mid
    → Found max_envelope builder mid hi r
    → Found max_envelope builder lo hi r
Found-left max_envelope builder lo mid hi (size n) h (fit, l, u, best) = (fit, omega arith, u, best)
Found-left max_envelope builder lo mid hi (failed e) h f = f

Found-right :
    (max_envelope : ℕ) (builder : Builder) (lo mid hi k : ℕ) (r : Size)
    → builder mid ≡ some k
    → max_envelope < k
    → mid ≤ hi
    → Found max_envelope builder lo (mid - 1) r
    → Found max_envelope builder lo hi r
Found-right max_envelope builder lo mid hi k (size n) e big h (fit, l, u, best) =
    (fit, l, omega arith, largest)
  where
    largest : IsMonotone builder → (m : ℕ) → n < m → m ≤ hi → ¬ (Fits max_envelope builder m)
    largest mono m a b (j, ej, le) = elim (Bool-cases (ltb m mid)) [
      | inl below ↦ best mono m a (ground arith) (j, ej, le)
      | inr above ↦ absurd (omega (arith, mono.monotone mid m k j (ground arith) e ej))
    ]
Found-right max_envelope builder lo mid hi k (failed x) e big h f = f

search_rounds-Found :
    (fuel max_envelope : ℕ) (builder : Builder) (lo hi : ℕ)
    → lo ≤ hi
    → hi ≤ lo + fuel
    → hi + hi < int_limit
    → Fits max_envelope builder lo
    → Found max_envelope builder lo hi (search_rounds fuel max_envelope builder lo hi)
unfolding search_rounds
search_rounds-Found zero max_envelope builder lo hi h f small fit =
    if-elim (Found max_envelope builder lo hi) (ltb lo hi) (λ e. absurd (ground arith))
      (λ e. (fit, omega arith, h, λ _ m a b. absurd (omega arith)))
search_rounds-Found (suc fuel) max_envelope builder lo hi h f small fit =
    let mid = (lo + hi + 1) / 2 in
    let P = Found max_envelope builder lo hi in
    if-elim P (ltb lo hi)
      (λ e.
        let lt = ltb→lt lo hi e in
        if-elim P (leb int_limit (lo + hi + 1)) (λ wraps. absurd (ground arith))
          (λ _.
            case_option-elim P (builder mid) (λ x. (refl, never_total builder mid x))
              (λ n x.
                if-elim P (leb n max_envelope)
                  (λ y.
                    let fits : Fits max_envelope builder mid = (n, x, ground arith) in
                    Found-left max_envelope builder lo mid hi _ (omega arith) (
                      search_rounds-Found fuel max_envelope builder mid hi (omega arith)
                        (omega arith) small fits))
                  (λ y.
                    Found-right max_envelope builder lo mid hi n _ x (ground arith) (omega arith) (
                      search_rounds-Found fuel max_envelope builder lo (mid - 1) (omega arith)
                        (omega arith) (omega arith) fit)))))
      (λ e. (fit, omega arith, h, λ _ m a b. absurd (ground arith)))

-- The largest chunk that fits, or the finding that a chunk of one byte does not.
abbrev pub Chosen : ℕ → Builder → Size → Type 0
Chosen max_envelope builder (size n) =
    (1 ≤ n)
    × (n ≤ max_envelope)
    × Fits max_envelope builder n
    × ((m : ℕ) → n < m → m ≤ max_envelope → ¬ (Fits max_envelope builder m))
Chosen max_envelope builder (failed e) = (e ≡ envelope_too_small) × ¬ (Fits max_envelope builder 1)

Found-Chosen :
    (max_envelope : ℕ) (builder : Builder) (r : Size)
    → IsMonotone builder
    → Found max_envelope builder 1 max_envelope r
    → Chosen max_envelope builder r
Found-Chosen max_envelope builder (size n) mono (fit, l, u, best) = (l, u, fit, best mono)
Found-Chosen max_envelope builder (failed e) mono (x, never) = absurd (never mono)

-- For a positive envelope, twice of which an `int` holds, and a builder whose messages exist and do
-- not shrink as the chunk grows, `chunkSize` answers with the largest chunk of 1 to `max_envelope`
-- bytes whose message fits, and with an error only where not even one byte fits.
pub chunk_size-Chosen :
    (max_envelope : ℕ) (builder : Builder)
    → 0 < max_envelope
    → max_envelope + max_envelope < int_limit
    → IsMonotone builder
    → Chosen max_envelope builder (chunk_size max_envelope (some builder))
unfolding chunk_size
chunk_size-Chosen max_envelope builder h bounded mono =
    let P = Chosen max_envelope builder in
    if-elim P (max_envelope == 0) (λ e. absurd (ground arith))
      (λ _.
        case_option-elim P (builder 0) (λ e. absurd (never_total builder 0 e mono))
          (λ l _.
            case_option-elim P (builder 1) (λ e. absurd (never_total builder 1 e mono))
              (λ n e.
                if-elim P (ltb max_envelope n) (λ big. (refl, λ fit. too_big n fit e big))
                  (λ small.
                    let fit : Fits max_envelope builder 1 = (n, e, ground arith) in
                    Found-Chosen max_envelope builder _ mono (
                      search_rounds-Found max_envelope max_envelope builder 1 max_envelope h
                        (omega arith) bounded fit)))))
  where
    too_big :
        (n : ℕ) → Fits max_envelope builder 1 → builder 1 ≡ some n → ltb max_envelope n ≡ true → ⊥
    too_big n (l, e, le) e' big = ground arith
