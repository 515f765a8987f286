-- ===== src/Service/Observe/History.antt =====
-- The rows that `recordObservation` keeps of a domain: few, in order, and of one generation.
use platform_ipam.Prelude.{
  ℕ, zero, suc, ◌-◌, ◌≤◌, ◌<◌, ◌≡◌, ◌≢◌, refl, ◌∙◌, ap, String, List, [], ◌∷◌, ◌++◌, Bool, false,
  not, ◌||◌, All, AllPairs, All-append, All-map, AllPairs-snoc, Option, none, some, Option-cases,
  Bool-cases, inl, inr, length, drop, last?, lookup, insert, lookup-insert, ltb, ◌==◌, string_eq,
  nat_eq, text_eq_iff, arith,
}
use platform_ipam.Domain.Rows.{Observation}
use platform_ipam.Domain.State.{State, observations_at, or_zero}
use platform_ipam.Domain.Time.{before}
use platform_ipam.Service.Observe.{
  append_observation, newest, next_rows, record_observation, replace_last, on_last,
}

abbrev pub Earlier : Observation → Observation → Type 0
Earlier x y = x.finished_at < y.finished_at

-- At most 64 rows, each finished before the next, all of the generation.
pub record History (generation : String) (rows : List Observation) : Type 0 where
  pub few : length rows ≤ 64
  pub ordered : AllPairs Earlier rows
  pub same_generation : All (λ o. o.generation ≡ generation) rows

length-snoc : (xs : List Observation) (o : Observation) → length (xs ++ o ∷ []) ≡ suc (length xs)
length-snoc [] o = refl
length-snoc (x ∷ xs) o = ap suc (length-snoc xs o)

length-replace_last :
    (xs : List Observation) (o : Observation) → length (replace_last xs o) ≡ length xs
length-replace_last [] o = refl
length-replace_last (x ∷ []) o = refl
length-replace_last (x ∷ y ∷ xs) o = ap suc (length-replace_last (y ∷ xs) o)

-- Every row is at most as late as the last one.
before_last :
    (xs : List Observation) (l : Observation)
    → AllPairs Earlier xs
    → last? xs ≡ some l
    → All (λ x. x.finished_at ≤ l.finished_at) xs
before_last [] l h e = tt
before_last (x ∷ []) l h e = (ground (arith, e), tt)
before_last (x ∷ y ∷ xs) l h e =
    let rest = before_last (y ∷ xs) l h.1 e in (omega (arith, rest.0, h.0.0), rest)

All-replace_last :
    (P : Observation → Type 0) (xs : List Observation) (o : Observation)
    → All P xs
    → P o
    → All P (replace_last xs o)
All-replace_last P [] o h p = tt
All-replace_last P (x ∷ []) o h p = (p, tt)
All-replace_last P (x ∷ y ∷ xs) o h p = (h.0, All-replace_last P (y ∷ xs) o h.1 p)

-- The last of some rows is replaced by one of the same instant.
ordered-replace_last :
    (xs : List Observation) (o l : Observation)
    → last? xs ≡ some l
    → o.finished_at ≡ l.finished_at
    → AllPairs Earlier xs
    → AllPairs Earlier (replace_last xs o)
ordered-replace_last [] o l e f h = tt
ordered-replace_last (x ∷ []) o l e f h = (tt, tt)
ordered-replace_last (x ∷ y ∷ xs) o l e f h =
    let rest = before_last (y ∷ xs) l h.1 e in
    (
      All-replace_last (Earlier x) (y ∷ xs) o h.0 (omega (arith, h.0.0, rest.0, f)),
      ordered-replace_last (y ∷ xs) o l e f h.1,
    )

last_there : (x : Observation) (xs : List Observation) → last? (x ∷ xs) ≢ none
last_there x [] e = absurd cc
last_there x (y ∷ xs) e = last_there y xs e

none_before : (P : Observation → Type 0) (xs : List Observation) → last? xs ≡ none → All P xs
none_before P [] e = tt
none_before P (x ∷ xs) e = absurd (last_there x xs e)

ordered-append :
    (xs : List Observation) (o : Observation)
    → AllPairs Earlier xs
    → on_last (λ last. before o.finished_at last.finished_at) (last? xs) ≡ false
    → AllPairs Earlier (append_observation xs o)
unfolding append_observation
ordered-append xs o h late = elim (Option-cases (last? xs)) [
  | inl e ↦ rw e (AllPairs-snoc Earlier xs o h (none_before (λ x. Earlier x o) xs e))
  | inr (l, e) ↦ elim (Bool-cases (o.finished_at == l.finished_at)) [
    | inl s ↦ rw (e, s) (ordered-replace_last xs o l e (ground (arith, s)) h)
    | inr s ↦
        let after : l.finished_at < o.finished_at = ground (arith, late, e, s) in
        rw (e, s)
          (AllPairs-snoc Earlier xs o h (
            All-map (λ (x : Observation). x.finished_at ≤ l.finished_at) (λ x. Earlier x o)
              (λ x q. omega arith) xs (before_last xs l h e)))
  ]
]

All-append_observation :
    (P : Observation → Type 0) (xs : List Observation) (o : Observation)
    → All P xs
    → P o
    → All P (append_observation xs o)
unfolding append_observation
All-append_observation P xs o h p =
    elim (Bool-cases (on_last (λ last. o.finished_at == last.finished_at) (last? xs))) [
      | inl e ↦ rw e (All-replace_last P xs o h p)
      | inr e ↦ rw e (All-append P xs (o ∷ []) h (p, tt))
    ]

All-drop : (P : Observation → Type 0) (n : ℕ) (xs : List Observation) → All P xs → All P (drop n xs)
All-drop P zero xs h = h
All-drop P (suc n) [] h = tt
All-drop P (suc n) (x ∷ xs) h = All-drop P n xs h.1

ordered-drop : (n : ℕ) (xs : List Observation) → AllPairs Earlier xs → AllPairs Earlier (drop n xs)
ordered-drop zero xs h = h
ordered-drop (suc n) [] h = tt
ordered-drop (suc n) (x ∷ xs) h = ordered-drop n xs h.1

length-drop : (n : ℕ) (xs : List Observation) → length (drop n xs) ≡ length xs - n
length-drop zero xs = omega arith
length-drop (suc n) [] = omega arith
length-drop (suc n) (x ∷ xs) = rw (length-drop n xs) (omega arith)

newest-History :
    (g : String) (xs : List Observation)
    → AllPairs Earlier xs
    → All (λ o. o.generation ≡ g) xs
    → History g (newest 64 xs)
unfolding newest
newest-History g xs h k = elim (Bool-cases (ltb 64 (length xs))) [
  | inl e ↦ rw e (record {
    few = omega (arith, length-drop (length xs - 64) xs);
    ordered = ordered-drop (length xs - 64) xs h;
    same_generation = All-drop (λ o. o.generation ≡ g) (length xs - 64) xs k;
  })
  | inr e ↦ rw e (record { few = ground (arith, e); ordered = h; same_generation = k })
]

abbrev dropped : List Observation → Observation → Bool
dropped xs o = on_last (λ last. before o.finished_at last.finished_at) (last? xs)

-- What is appended to: the rows so far, or none.
kept-History :
    (xs : List Observation) (g : String) (o : Observation)
    → AllPairs Earlier xs
    → All (λ x. x.generation ≡ g) xs
    → g ≡ o.generation
    → dropped xs o ≡ false
    → History o.generation (newest 64 (append_observation xs o))
kept-History xs g o h k e late =
    newest-History o.generation (append_observation xs o) (ordered-append xs o h late) (
      All-append_observation (λ x. x.generation ≡ o.generation) xs o
        (All-map (λ (x : Observation). x.generation ≡ g) (λ x. x.generation ≡ o.generation)
          (λ x q. q ∙ e) xs k)
        refl)

next_rows-History :
    (xs : List Observation) (coverage : Option String) (o : Observation)
    → History (or_zero "" coverage) xs
    → dropped xs o ≡ false
    → History o.generation (next_rows xs coverage o)
unfolding next_rows
next_rows-History xs coverage o h late =
    elim (Bool-cases (not o.complete || not (or_zero "" coverage == o.generation))) [
      | inl e ↦ rw e (kept-History [] o.generation o tt tt refl refl)
      | inr e ↦ rw e (
          kept-History xs (or_zero "" coverage) o h.ordered h.same_generation
            ((text_eq_iff (or_zero "" coverage) o.generation).0 (ground (arith, e))) late)
    ]

-- Every domain has a history under its generation.
abbrev pub Kept : State → Type 0
Kept st = (d : String) → History (or_zero "" (lookup d st.coverage)) (observations_at st d)

stored-History :
    (st : State) (o : Observation)
    → Kept st
    → dropped (observations_at st o.domain_id) o ≡ false
    → Kept (record st {
      observations =
          insert o.domain_id
            (next_rows (observations_at st o.domain_id) (lookup o.domain_id st.coverage) o)
            st.observations;
      coverage = insert o.domain_id o.generation st.coverage;
    })
stored-History st o h late d = elim (Bool-cases (o.domain_id == d)) [
  | inl e ↦
      rw
        (
          lookup-insert o.domain_id d o.generation st.coverage,
          lookup-insert o.domain_id d
              (next_rows (observations_at st o.domain_id) (lookup o.domain_id st.coverage) o)
              st.observations,
          e,
        )
        (next_rows-History (observations_at st o.domain_id) (lookup o.domain_id st.coverage) o
          (h o.domain_id) late)
  | inr e ↦
      rw
        (
          lookup-insert o.domain_id d o.generation st.coverage,
          lookup-insert o.domain_id d
              (next_rows (observations_at st o.domain_id) (lookup o.domain_id st.coverage) o)
              st.observations,
          e,
        )
        (h d)
]

-- Where every domain has at most 64 observations, each finished before the next one and all of the
-- generation that its coverage names, the same holds after any observation is recorded.
pub record_observation-Kept :
    (st : State) (o : Observation) → Kept st → Kept (record_observation st o)
unfolding record_observation
record_observation-Kept st o h = elim (Bool-cases (dropped (observations_at st o.domain_id) o)) [
  | inl e ↦ rw e h
  | inr e ↦ rw e (stored-History st o h e)
]
