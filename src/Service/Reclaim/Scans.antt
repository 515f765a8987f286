-- ===== src/Service/Reclaim/Scans.antt =====
-- What the walk of `reclaimEligible` over the observations has found when it accepts.
use platform_ipam.Prelude.{
  ℕ, suc, ◌+◌, ◌≤◌, ◌≡◌, refl, ap, List, [], ◌∷◌, ◌++◌, Bool, true, ◌||◌, All, All-map, Memᴰ,
  length, leb, ◌==◌, nat_eq, inl, inr, Bool-cases, arith,
}
use platform_ipam.Domain.Rows.{Observation}
use platform_ipam.Domain.Time.{sub, seconds}
use platform_ipam.Service.Reclaim.{Gate, shows_absence, count_scans}

-- The scan may be counted after `count` others, the last of them at `previous`.
abbrev pub may_count : Gate → ℕ → ℕ → Observation → Bool
may_count g count previous o = count == 0 || leb (seconds g.spacing) (sub previous o.finished_at)

-- Scans from the newest back, each at least the spacing older than the one before.
abbrev pub Spaced : Gate → ℕ → ℕ → List Observation → Type 0
Spaced g count previous [] = Unit
Spaced g count previous (o ∷ os) =
    (may_count g count previous o ≡ true) × Spaced g (suc count) o.finished_at os

-- The newest rows, all of them showing absence, with enough spaced scans among them.
pub record Evidence (g : Gate) (count previous : ℕ) (rows : List Observation) : Type 0 where
  pub walked : List Observation
  pub older : List Observation
  pub picks : List Observation
  pub split : rows ≡ walked ++ older
  pub absent : All (λ o. shows_absence g o ≡ true) walked
  pub picked : All (λ o. Memᴰ o walked) picks
  pub spaced : Spaced g count previous picks
  pub enough : g.need ≤ count + length picks

module _ (g : Gate) where
  none_picked :
      (count previous : ℕ) (o : Observation) (rows : List Observation)
      → shows_absence g o ≡ true
      → g.need ≤ count
      → Evidence g count previous (o ∷ rows)
  none_picked count previous o rows a e = record {
    walked = o ∷ [];
    older = rows;
    picks = [];
    split = refl;
    absent = (a, tt);
    picked = tt;
    spaced = tt;
    enough = omega arith;
  }

  one_picked :
      (count previous : ℕ) (o : Observation) (rows : List Observation)
      → shows_absence g o ≡ true
      → may_count g count previous o ≡ true
      → g.need ≤ suc count
      → Evidence g count previous (o ∷ rows)
  one_picked count previous o rows a m e = record {
    walked = o ∷ [];
    older = rows;
    picks = o ∷ [];
    split = refl;
    absent = (a, tt);
    picked = (Memᴰ.head refl, tt);
    spaced = (m, tt);
    enough = omega arith;
  }

  behind :
      (o : Observation) (walked picks : List Observation)
      → All (λ x. Memᴰ x walked) picks
      → All (λ x. Memᴰ x (o ∷ walked)) picks
  behind o walked picks h =
      All-map (λ x. Memᴰ x walked) (λ x. Memᴰ x (o ∷ walked)) (λ x m. Memᴰ.tail m) picks h

  passed_over :
      (count previous : ℕ) (o : Observation) (rows : List Observation)
      → shows_absence g o ≡ true
      → Evidence g count previous rows
      → Evidence g count previous (o ∷ rows)
  passed_over count previous o rows a e = record {
    walked = o ∷ e.walked;
    older = e.older;
    picks = e.picks;
    split = ap (λ xs. o ∷ xs) e.split;
    absent = (a, e.absent);
    picked = behind o e.walked e.picks e.picked;
    spaced = e.spaced;
    enough = e.enough;
  }

  picked_first :
      (count previous : ℕ) (o : Observation) (rows : List Observation)
      → shows_absence g o ≡ true
      → may_count g count previous o ≡ true
      → Evidence g (suc count) o.finished_at rows
      → Evidence g count previous (o ∷ rows)
  picked_first count previous o rows a m e = record {
    walked = o ∷ e.walked;
    older = e.older;
    picks = o ∷ e.picks;
    split = ap (λ xs. o ∷ xs) e.split;
    absent = (a, e.absent);
    picked = (Memᴰ.head refl, behind o e.walked e.picks e.picked);
    spaced = (m, e.spaced);
    enough = omega (arith, e.enough);
  }

  pub count_scans-Evidence :
      (rows : List Observation) (count previous : ℕ)
      → count_scans g count previous rows ≡ true
      → Evidence g count previous rows
  unfolding count_scans
  count_scans-Evidence [] count previous h = absurd cc
  count_scans-Evidence (o ∷ rows) count previous h =
      elim (Bool-cases (may_count g count previous o)) [
        | inl m ↦ elim (Bool-cases (leb g.need (suc count))) [
          | inl n ↦ one_picked count previous o rows (ground (arith, h, m)) m (ground (arith, n))
          | inr n ↦
              picked_first count previous o rows (ground (arith, h, m)) m
                (count_scans-Evidence rows (suc count) o.finished_at (ground (arith, h, m, n)))
        ]
        | inr m ↦ elim (Bool-cases (leb g.need count)) [
          | inl n ↦ none_picked count previous o rows (ground (arith, h, m)) (ground (arith, n))
          | inr n ↦
              passed_over count previous o rows (ground (arith, h, m))
                (count_scans-Evidence rows count previous (ground (arith, h, m, n)))
        ]
      ]
