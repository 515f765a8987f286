-- ===== src/Assess/Sweep/Sound.antt =====
-- Every relationship of the sweep is one: the two ranges are compared and share addresses, and the
-- kind says how.
use mathlib.Core.Path.{◌≡◌}
use platform_ipam.Prelude.{
  ◌≤◌, ◌<◌, List, [], ◌∷◌, ◌++◌, true, false, inl, inr, All, AllPairs, All-append, All-map,
  All-of_mem, All-mem, All-keep_if, keep_if-passes, leb→le, Bool, Memᴰ, AllPairs-sort_by,
  All-sort_by, sort_by, keep_if, leb, nat_eq, bytes_eq, Bool-cases, arith,
}
use platform_ipam.Assess.{Association}
use platform_ipam.Assess.Sweep.{
  equal_cidr, contains, Relationship, sweep_less, exempt, related, relate, sweep_from, sweep,
}
use platform_ipam.Assess.Sweep.Blocks.{IsBlock, nested}

-- The order of the sweep, without the identities that break ties.
pub record Before (s c : Association) : Type 0 where
  pub start : s.start ≤ c.start
  pub tie : s.start ≡ c.start → c.end ≤ s.end

pub Before-trans : (x y z : Association) → Before x y → Before y z → Before x z
Before-trans x y z a b = record {
  start = omega (arith, a.start, b.start);
  tie = λ e.
      omega
        (arith, a.tie (omega (arith, a.start, b.start)), b.tie (omega (arith, a.start, b.start)));
}

pub less-Before : (x y : Association) → sweep_less y x ≡ true → Before y x
unfolding sweep_less
less-Before x y h = record { start = ground (arith, h); tie = λ e. ground (arith, h, e) }

pub not_less-Before : (x y : Association) → sweep_less y x ≡ false → Before x y
unfolding sweep_less
not_less-Before x y h = record { start = ground (arith, h); tie = λ e. ground (arith, h, e) }

pub sorted-Before : (items : List Association) → AllPairs Before (sort_by sweep_less items)
sorted-Before = AllPairs-sort_by sweep_less Before less-Before not_less-Before Before-trans

-- What a relationship says.
pub record IsConflict (r : Relationship) : Type 0 where
  pub compared : exempt r.x r.y ≡ false
  pub inner_start : r.x.start ≤ r.y.start
  pub inner_end : r.y.end ≤ r.x.end
  pub equal : r.kind ≡ equal_cidr → (r.x.start ≡ r.y.start) × (r.x.end ≡ r.y.end)
  pub proper : r.kind ≡ contains → r.x.start ≡ r.y.start → r.y.end < r.x.end

related-IsConflict :
    (s c : Association)
    → IsBlock s
    → IsBlock c
    → Before s c
    → c.start ≤ s.end
    → exempt s c ≡ false
    → IsConflict (related s c)
related-IsConflict s c v w b meets e =
    let inside : c.end ≤ s.end = nested s.start s.end c.start c.end v w b.start meets b.tie in
    record {
      compared = e;
      inner_start = b.start;
      inner_end = inside;
      equal = λ k. ground (arith, k);
      proper = λ k t. ground (arith, k, t, inside);
    }

-- The open ranges stand before the one that is read.
module _ {κ} (P : Association → Type κ) where
  abbrev Drawn : Relationship → Type κ
  Drawn r = P r.x × P r.y × IsConflict r

  abbrev Open : Association → Association → Type κ
  Open c s = P s × IsBlock s × Before s c

  relate-Drawn :
      (open_ranges : List Association) (c : Association)
      → P c
      → IsBlock c
      → All (Open c) open_ranges
      → All (λ s. c.start ≤ s.end) open_ranges
      → All Drawn (relate open_ranges c)
  unfolding relate
  relate-Drawn [] c p w h m = tt
  relate-Drawn (s ∷ ss) c p w h m = elim (Bool-cases (exempt s c)) [
    | inl e ↦ rw e (relate-Drawn ss c p w h.1 m.1)
    | inr e ↦
        let (q, v, b) = h.0 in
        rw e ((q, p, related-IsConflict s c v w b m.0 e), relate-Drawn ss c p w h.1 m.1)
  ]

  abbrev Waiting : List Association → Association → Type κ
  Waiting rest s = P s × IsBlock s × All (Before s) rest

  Waiting-Open :
      (c : Association) (rest open_ranges : List Association)
      → All (Waiting (c ∷ rest)) open_ranges
      → All (Open c) open_ranges
  Waiting-Open c rest open_ranges h =
      All-map (Waiting (c ∷ rest)) (Open c) (λ s (q : Waiting (c ∷ rest) s). (q.0, q.1, q.2.0))
        open_ranges h

  Waiting-append :
      (c : Association) (rest kept : List Association)
      → All (Waiting (c ∷ rest)) kept
      → P c
      → IsBlock c
      → All (Before c) rest
      → All (Waiting rest) (kept ++ c ∷ [])
  Waiting-append c rest kept h p w b =
      All-append (Waiting rest) kept (c ∷ [])
        (All-map (Waiting (c ∷ rest)) (Waiting rest)
          (λ s (q : Waiting (c ∷ rest) s). (q.0, q.1, q.2.1)) kept h)
        ((p, w, b), tt)

  sweep_from-Drawn :
      (open_ranges rest : List Association)
      → All (Waiting rest) open_ranges
      → All (λ c. P c × IsBlock c) rest
      → AllPairs Before rest
      → All Drawn (sweep_from open_ranges rest)
  unfolding sweep_from
  sweep_from-Drawn open_ranges [] h k b = tt
  sweep_from-Drawn open_ranges (c ∷ rest) h k b =
      let meets : Association → Bool = λ s. leb c.start s.end in
      let kept = keep_if meets open_ranges in
      let held : All (Waiting (c ∷ rest)) kept =
        All-keep_if (Waiting (c ∷ rest)) meets open_ranges h in
      let reach : All (λ s. c.start ≤ s.end) kept =
        All-map (λ s. meets s ≡ true) (λ s. c.start ≤ s.end) (λ s e. leb→le c.start s.end e) kept
          (keep_if-passes meets open_ranges) in
      All-append Drawn (relate kept c) (sweep_from (kept ++ c ∷ []) rest)
        (relate-Drawn kept c k.0.0 k.0.1 (Waiting-Open c rest kept held) reach)
        (sweep_from-Drawn (kept ++ c ∷ []) rest (Waiting-append c rest kept held k.0.0 k.0.1 b.0)
          k.1 b.1)

-- Of a list of blocks, every relationship that the sweep reports is between two of them that are
-- not exempt from comparison. The first holds the second; it is the same range where the kind is
-- equal, and a larger one where the kind is contains.
pub sweep-IsConflict :
    (items : List Association)
    → All IsBlock items
    → All (λ r. Memᴰ r.x items × Memᴰ r.y items × IsConflict r) (sweep items)
unfolding sweep
sweep-IsConflict items blocks =
    let P : Association → Type 0 = λ a. Memᴰ a items in
    sweep_from-Drawn P [] (sort_by sweep_less items) tt
      (All-sort_by sweep_less (λ c. P c × IsBlock c) items
        (All-of_mem (λ c. P c × IsBlock c) items (λ c m. (m, All-mem IsBlock items c blocks m))))
      (sorted-Before items)
