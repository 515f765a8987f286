-- ===== src/Service/Capacity/Union.antt =====
-- The merged intervals count each block that some interval holds once.
use native.Mathlib.Decide.{dec_le}
use platform_ipam.Prelude.{
  ℕ, suc, ◌+◌, ◌-◌, ◌≤◌, ◌<◌, ◌≡◌, refl, sym, ◌∙◌, ap, Bool, true, false, ◌||◌, any, List, [], ◌∷◌,
  All, AllPairs, leb, ltb, if◌then◌else◌, inl, inr, Bool-cases, arith,
}
use platform_ipam.Service.Capacity.{BlockInterval, insert_range, sort_ranges, merge_from, merge_all}
use platform_ipam.Service.Capacity.Counting.{
  count_below, count_below-ext, count_below-or, count_below-between, count_below-false, between,
}

-- The block is in the interval.
abbrev pub holds : ℕ → BlockInterval → Bool
holds k r = between r.first r.last k

abbrev pub covered : List BlockInterval → ℕ → Bool
covered rs k = any (holds k) rs

-- An interval is not empty and ends below the bound.
pub record Fits (bound : ℕ) (r : BlockInterval) : Type 0 where
  pub ordered : r.first ≤ r.last
  pub below : r.last < bound

abbrev Starts : ℕ → List BlockInterval → Type 0
Starts a rs = All (λ s. a ≤ s.first) rs

abbrev pub Sorted : List BlockInterval → Type 0
Sorted rs = AllPairs (λ r s. r.first ≤ s.first) rs

-- Sorting keeps what is covered and what holds of each interval, and puts the first blocks in
-- order.
covered-insert_range :
    (k : ℕ) (r : BlockInterval) (rs : List BlockInterval)
    → covered (insert_range r rs) k ≡ (holds k r || covered rs k)
unfolding insert_range
covered-insert_range k r [] = refl
covered-insert_range k r (s ∷ rs) = ground (arith, covered-insert_range k r rs)

pub covered-sort_ranges :
    (k : ℕ) (rs : List BlockInterval) → covered (sort_ranges rs) k ≡ covered rs k
unfolding sort_ranges
covered-sort_ranges k [] = refl
covered-sort_ranges k (r ∷ rs) =
    covered-insert_range k r (sort_ranges rs) ∙ ap (λ b. holds k r || b) (covered-sort_ranges k rs)

module _ (P : BlockInterval → Type 0) where
  All-insert_range :
      (r : BlockInterval) (rs : List BlockInterval) → P r → All P rs → All P (insert_range r rs)
  unfolding insert_range
  All-insert_range r [] h hs = (h, tt)
  All-insert_range r (s ∷ rs) h hs = elim (Bool-cases (ltb r.first s.first)) [
    | inl e ↦ rw e (h, (hs.0, hs.1))
    | inr e ↦ rw e (hs.0, All-insert_range r rs h hs.1)
  ]

  pub All-sort_ranges : (rs : List BlockInterval) → All P rs → All P (sort_ranges rs)
  unfolding sort_ranges
  All-sort_ranges [] hs = tt
  All-sort_ranges (r ∷ rs) hs = All-insert_range r (sort_ranges rs) hs.0 (All-sort_ranges rs hs.1)

Starts-mono : (a b : ℕ) (rs : List BlockInterval) → a ≤ b → Starts b rs → Starts a rs
Starts-mono a b [] h hs = tt
Starts-mono a b (r ∷ rs) h hs = (omega arith, Starts-mono a b rs h hs.1)

Sorted-insert_range :
    (r : BlockInterval) (rs : List BlockInterval) → Sorted rs → Sorted (insert_range r rs)
unfolding insert_range
Sorted-insert_range r [] h = (tt, tt)
Sorted-insert_range r (s ∷ rs) h = elim (dec_le s.first r.first) [
  | yes le ↦
      rw (not_lt r.first s.first le)
        (All-insert_range (λ t. s.first ≤ t.first) r rs le h.0, Sorted-insert_range r rs h.1)
  | no gt ↦
      rw (is_lt r.first s.first gt)
        ((omega arith, Starts-mono r.first s.first rs (omega arith) h.0), (h.0, h.1))
]
  where
    not_lt : (a b : ℕ) → b ≤ a → ltb a b ≡ false
    not_lt a b h = ground arith

    is_lt : (a b : ℕ) → ¬ (b ≤ a) → ltb a b ≡ true
    is_lt a b h = ground arith

pub Sorted-sort_ranges : (rs : List BlockInterval) → Sorted (sort_ranges rs)
unfolding sort_ranges
Sorted-sort_ranges [] = tt
Sorted-sort_ranges (r ∷ rs) = Sorted-insert_range r (sort_ranges rs) (Sorted-sort_ranges rs)

-- An interval that starts behind the last block of another one holds none of its blocks.
apart_from :
    (k last : ℕ) (rs : List BlockInterval)
    → Starts (suc last) rs
    → leb k last ≡ true
    → covered rs k ≡ false
apart_from k last [] h le = refl
apart_from k last (r ∷ rs) h le = ground (arith, apart_from k last rs h.1 le)

-- Two intervals that meet or follow one another, as one.
abbrev joined : BlockInterval → BlockInterval → BlockInterval
joined r s = record r { last = if ltb r.last s.last then s.last else r.last }

holds-joined :
    (k : ℕ) (r s : BlockInterval)
    → r.first ≤ r.last
    → s.first ≤ s.last
    → r.first ≤ s.first
    → leb s.first (r.last + 1) ≡ true
    → (holds k r || holds k s) ≡ holds k (joined r s)
holds-joined k r s f g h e = ground arith

or_assoc : (a b c : Bool) → (a || (b || c)) ≡ ((a || b) || c)
or_assoc a b c = ground arith

module _ (bound : ℕ) where
  Fits-joined : (r s : BlockInterval) → Fits bound r → Fits bound s → Fits bound (joined r s)
  Fits-joined r s f g = ground arith

  count-holds :
      (r : BlockInterval) → Fits bound r → count_below bound (λ k. holds k r) ≡ r.last - r.first + 1
  count-holds r f = count_below-between bound r.first r.last f.ordered f.below

  count-joined :
      (r s : BlockInterval) (rs : List BlockInterval)
      → Fits bound r
      → Fits bound s
      → r.first ≤ s.first
      → leb s.first (r.last + 1) ≡ true
      → count_below bound (covered (r ∷ s ∷ rs)) ≡ count_below bound (covered (joined r s ∷ rs))
  count-joined r s rs f g h e =
      count_below-ext (covered (r ∷ s ∷ rs)) (covered (joined r s ∷ rs)) bound λ k _.
        or_assoc (holds k r) (holds k s) (covered rs k)
        ∙ ap (λ b. b || covered rs k) (holds-joined k r s f.ordered g.ordered h e)

  holds-leb : (k : ℕ) (r : BlockInterval) → holds k r ≡ true → leb k r.last ≡ true
  holds-leb k r h = ground arith

  count-apart :
      (r : BlockInterval) (rs : List BlockInterval)
      → Fits bound r
      → Starts (suc r.last) rs
      → count_below bound (covered (r ∷ rs)) ≡ r.last - r.first + 1 + count_below bound (covered rs)
  count-apart r rs f starts =
      count_below-or (λ k. holds k r) (covered rs) bound
        (λ k _ h. apart_from k r.last rs starts (holds-leb k r h))
      ∙ ap (λ n. n + count_below bound (covered rs)) (count-holds r f)

  pub merge_from-covered :
      (rs : List BlockInterval) (r : BlockInterval)
      → Fits bound r
      → All (Fits bound) rs
      → Starts r.first rs
      → Sorted rs
      → merge_from r rs ≡ count_below bound (covered (r ∷ rs))
  unfolding merge_from
  merge_from-covered [] r f fs starts sorted = sym (
      count_below-ext (covered (r ∷ [])) (λ k. holds k r) bound (λ k _. ground arith)
      ∙ count-holds r f)
  merge_from-covered (s ∷ rs) r f fs starts sorted = elim (Bool-cases (leb s.first (r.last + 1))) [
    | inl e ↦ rw e (
        merge_from-covered rs (joined r s) (Fits-joined r s f fs.0) fs.1 starts.1 sorted.1
        ∙ sym (count-joined r s rs f fs.0 starts.0 e))
    | inr e ↦ rw e (
        ap (λ n. r.last - r.first + 1 + n) (merge_from-covered rs s fs.0 fs.1 sorted.0 sorted.1)
        ∙ sym (
            count-apart r (s ∷ rs) f (
              gap r.last s.first e,
              Starts-mono (suc r.last) s.first rs (gap r.last s.first e) sorted.0,
            )))
  ]
    where
      gap : (last first : ℕ) → leb first (last + 1) ≡ false → suc last ≤ first
      gap last first h = ground arith

  merge_all-covered :
      (rs : List BlockInterval)
      → All (Fits bound) rs
      → Sorted rs
      → merge_all rs ≡ count_below bound (covered rs)
  unfolding merge_all
  merge_all-covered [] fs sorted = sym (count_below-false bound)
  merge_all-covered (r ∷ rs) fs sorted = merge_from-covered rs r fs.0 fs.1 sorted.0 sorted.1

  -- The merge counts the blocks below the bound that some interval holds.
  pub merge-sort_ranges :
      (rs : List BlockInterval)
      → All (Fits bound) rs
      → merge_all (sort_ranges rs) ≡ count_below bound (covered rs)
  merge-sort_ranges rs fs =
      merge_all-covered (sort_ranges rs) (All-sort_ranges (Fits bound) rs fs)
        (Sorted-sort_ranges rs)
      ∙ count_below-ext (covered (sort_ranges rs)) (covered rs) bound
          (λ k _. covered-sort_ranges k rs)
