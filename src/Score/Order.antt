-- ===== src/Score/Order.antt =====
-- The order of the global events.
use midi.Cursor.{new}
use midi.Result.Yields.{Yields, Yields-ok, Yields-any, value}
use midi.Result.{ok}
use midi.Score.Limits.{ScoreParsePolicy, ScoreGrammar}
use midi.Score.Types.{TickTempo, TickTimeSignature, TickKeySignature, TickText}
use midi.Score.Arena.{TickScore, empty_score}
use midi.Prelude.{
  ℕ, ◌≡◌, refl, ◌≤◌, ◌∙◌, ap, arith, false, Bool-cases, inl, inr, List, [], ◌∷◌, All, All-map, leb,
  ◌==◌, if◌then◌else◌, Bytes, length,
}
use midi.Score.Parse.{
  insert_by_key, sort_by_key, sort_globals, parse_score_smf_impl, score_header, parse_score_tracks,
  check_trailing,
}

module _ {A : Type 0} (key_of : A → ℕ) where
  -- Every key is at most the keys behind it.
  abbrev pub IsSorted : List A → Type 0
  IsSorted [] = Unit {0}
  IsSorted (x ∷ xs) = All (λ y. key_of x ≤ key_of y) xs × IsSorted xs

  -- The elements of one key, in their order.
  abbrev pub of_key : ℕ → List A → List A
  of_key k [] = []
  of_key k (x ∷ xs) = if key_of x == k then x ∷ of_key k xs else of_key k xs

  insert_by_key-All :
      (P : A → Type 0) (x : A) (xs : List A) → P x → All P xs → All P (insert_by_key key_of x xs)
  unfolding insert_by_key
  insert_by_key-All P x [] h k = (h, tt)
  insert_by_key-All P x (y ∷ ys) h k = elim (Bool-cases (leb (key_of x) (key_of y))) [
    | inl le ↦ rw le (h, k)
    | inr gt ↦ rw gt (k.0, insert_by_key-All P x ys h k.1)
  ]

  pub sort_by_key-All : (P : A → Type 0) (xs : List A) → All P xs → All P (sort_by_key key_of xs)
  unfolding sort_by_key
  sort_by_key-All P [] h = tt
  sort_by_key-All P (x ∷ xs) h =
      insert_by_key-All P x (sort_by_key key_of xs) h.0 (sort_by_key-All P xs h.1)

  insert_by_key-IsSorted :
      (x : A) (xs : List A) → IsSorted xs → IsSorted (insert_by_key key_of x xs)
  unfolding insert_by_key
  insert_by_key-IsSorted x [] h = (tt, tt)
  insert_by_key-IsSorted x (y ∷ ys) h = elim (Bool-cases (leb (key_of x) (key_of y))) [
    | inl le ↦
        let below : key_of x ≤ key_of y = ground arith in
        rw le ((below, All-map ys (λ z lt. omega (arith, lt, below)) h.0), h)
    | inr gt ↦
        let below : key_of y ≤ key_of x = ground arith in
        rw gt (
          insert_by_key-All (λ z. key_of y ≤ key_of z) x ys below h.0,
          insert_by_key-IsSorted x ys h.1,
        )
  ]

  insert_by_key-of_key :
      (k : ℕ) (x : A) (xs : List A) → of_key k (insert_by_key key_of x xs) ≡ of_key k (x ∷ xs)
  unfolding insert_by_key
  insert_by_key-of_key k x [] = refl
  insert_by_key-of_key k x (y ∷ ys) = elim (Bool-cases (leb (key_of x) (key_of y))) [
    | inl le ↦ rw le refl
    | inr gt ↦ elim (Bool-cases (key_of x == k)) [
      | inl same ↦
          let other : (key_of y == k) ≡ false = ground arith in
          rw (gt, other, same) (insert_by_key-of_key k x ys ∙ rw same refl)
      | inr apart ↦ elim (Bool-cases (key_of y == k)) [
        | inl same ↦
            rw (gt, same, apart) (ap (λ zs. y ∷ zs) (insert_by_key-of_key k x ys ∙ rw apart refl))
        | inr other ↦ rw (gt, other, apart) (insert_by_key-of_key k x ys ∙ rw apart refl)
      ]
    ]
  ]

  -- The sort is by key and stable: the result is in the order of the keys, and the elements of each key
  -- are those of the input, in the order of the input.
  sort_by_key-IsSorted :
      (xs : List A)
      → IsSorted (sort_by_key key_of xs)
        × ((k : ℕ) → of_key k (sort_by_key key_of xs) ≡ of_key k xs)
  unfolding sort_by_key
  sort_by_key-IsSorted [] = (tt, λ k. refl)
  sort_by_key-IsSorted (x ∷ xs) =
      let (sorted, stable) = sort_by_key-IsSorted xs in
      (
        insert_by_key-IsSorted x (sort_by_key key_of xs) sorted,
        λ k.
            insert_by_key-of_key k x (sort_by_key key_of xs)
            ∙ ap (λ zs. if key_of x == k then x ∷ zs else zs) (stable k),
      )

-- The global events of a score are in the order of their ticks.
pub record IsOrdered (score : TickScore) : Type 0 where
  pub tempos : IsSorted (λ (e : TickTempo). e.time) score.tempos
  pub time_signatures : IsSorted (λ (e : TickTimeSignature). e.time) score.time_signatures
  pub key_signatures : IsSorted (λ (e : TickKeySignature). e.time) score.key_signatures
  pub markers : IsSorted (λ (e : TickText). e.time) score.markers

sort_globals-IsOrdered : (score : TickScore) → IsOrdered (sort_globals score)
unfolding sort_globals
sort_globals-IsOrdered score = record {
  tempos = (sort_by_key-IsSorted (λ (e : TickTempo). e.time) score.tempos).0;
  time_signatures =
      (sort_by_key-IsSorted (λ (e : TickTimeSignature). e.time) score.time_signatures).0;
  key_signatures = (sort_by_key-IsSorted (λ (e : TickKeySignature). e.time) score.key_signatures).0;
  markers = (sort_by_key-IsSorted (λ (e : TickText). e.time) score.markers).0;
}

module _ {P : Type 0} (policy : ScoreParsePolicy P) (grammar : ScoreGrammar) where
  parse_score_smf_impl-Yields :
      (input : Bytes) (budget : P)
      → Yields IsOrdered (parse_score_smf_impl policy grammar input budget)
  unfolding parse_score_smf_impl
  parse_score_smf_impl-Yields input budget =
      Yields-any (policy.check_input budget (length input)) λ _ _.
        Yields-any (score_header policy grammar (new input 0) budget) λ (header, c) _.
          Yields-any
            (parse_score_tracks policy grammar header.track_count 0 c (empty_score header) budget)
            λ (c1, score) _.
              Yields-any (check_trailing policy grammar c1)
                λ _ _. value _ (sort_globals-IsOrdered _)

-- Under any policy and grammar the tempos, time signatures, key signatures and markers of a parsed
-- score are in the order of their ticks.
pub parse_score_smf_impl-IsOrdered :
    {P : Type 0} (policy : ScoreParsePolicy P) (grammar : ScoreGrammar) (input : Bytes) (budget : P)
    {score : TickScore}
    → parse_score_smf_impl policy grammar input budget ≡ ok score
    → IsOrdered score
parse_score_smf_impl-IsOrdered policy grammar input budget {score} e =
    Yields-ok score e (parse_score_smf_impl-Yields policy grammar input budget)
