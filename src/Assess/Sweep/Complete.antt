-- ===== src/Assess/Sweep/Complete.antt =====
-- The sweep misses no conflict: closing the ranges that have ended loses no pair.
use platform_ipam.Prelude.{
  ◌≡◌, refl, ◌≤◌, ◌<◌, ◌⊎◌, inl, inr, List, [], ◌∷◌, ◌++◌, true, AllPairs, AllPairs-map, All-of_mem,
  All-mem, Memᴰ, AllPairs-of_sort_by, sort_by, keep_if, mem-keep_if, mem-append_left,
  mem-append_right, leb, nat_eq, bytes_eq, Bool, Bool-cases, arith,
}
use platform_ipam.Assess.{Association}
use platform_ipam.Assess.Sweep.{
  Relationship, sweep_less, exempt, related, relate, sweep_from, sweep,
}
use platform_ipam.Assess.Sweep.Sound.{Before, sorted-Before}

-- The pair needs no report, or has one, the first of the two on the outside.
pub data Reports (rs : List Relationship) (s c : Association) : Type 0 where
  spared : exempt s c ≡ true → Reports rs s c
  apart : s.end < c.start → Reports rs s c
  found : Memᴰ (related s c) rs → Reports rs s c

Reports-left :
    (rs rs' : List Relationship) (s c : Association) → Reports rs s c → Reports (rs ++ rs') s c
Reports-left rs rs' s c (spared e) = spared e
Reports-left rs rs' s c (apart l) = apart l
Reports-left rs rs' s c (found m) = found (mem-append_left rs rs' (related s c) m)

Reports-right :
    (rs rs' : List Relationship) (s c : Association) → Reports rs' s c → Reports (rs ++ rs') s c
Reports-right rs rs' s c (spared e) = spared e
Reports-right rs rs' s c (apart l) = apart l
Reports-right rs rs' s c (found m) = found (mem-append_right rs rs' (related s c) m)

relate-Reports :
    (open_ranges : List Association) (s c : Association)
    → Memᴰ s open_ranges
    → Reports (relate open_ranges c) s c
unfolding relate
relate-Reports [] s c m = elim m [ ]
relate-Reports (o ∷ os) s c (Memᴰ.head e) = elim (Bool-cases (exempt o c)) [
  | inl t ↦ spared (rw e t)
  | inr t ↦ rw t (found (Memᴰ.head (rw e refl)))
]
relate-Reports (o ∷ os) s c (Memᴰ.tail m) = elim (Bool-cases (exempt o c)) [
  | inl t ↦ rw t (relate-Reports os s c m)
  | inr t ↦ rw t (Reports-right (related o c ∷ []) (relate os c) s c (relate-Reports os s c m))
]

-- A range that is open when the rest is read has its reports.
open-Reports :
    (open_ranges rest : List Association) (s c : Association)
    → AllPairs Before rest
    → Memᴰ s open_ranges
    → Memᴰ c rest
    → Reports (sweep_from open_ranges rest) s c
unfolding sweep_from
open-Reports open_ranges [] s c b m n = elim n [ ]
open-Reports open_ranges (d ∷ rest) s c b m n =
    let meets : Association → Bool = λ s. leb d.start s.end in
    let kept = keep_if meets open_ranges in
    let after = sweep_from (kept ++ d ∷ []) rest in
    let begins : d.start ≤ c.start = elim n [
      | Memᴰ.head e ↦ rw e (omega arith)
      | Memᴰ.tail k ↦ (All-mem (Before d) rest c b.0 k).start
    ] in
    elim (Bool-cases (meets s)) [
      | inr t ↦ apart (ground (arith, t, begins))
      | inl t ↦ elim n [
        | Memᴰ.head e ↦ rw e (
            Reports-left (relate kept d) after s d
              (relate-Reports kept s d (mem-keep_if meets open_ranges s m t)))
        | Memᴰ.tail k ↦ Reports-right (relate kept d) after s c (
            open-Reports (kept ++ d ∷ []) rest s c b.1
              (mem-append_left kept (d ∷ []) s (mem-keep_if meets open_ranges s m t)) k)
      ]
    ]

sorted-Reports :
    (open_ranges rest : List Association)
    → AllPairs Before rest
    → AllPairs (Reports (sweep_from open_ranges rest)) rest
unfolding sweep_from
sorted-Reports open_ranges [] b = tt
sorted-Reports open_ranges (d ∷ rest) b =
    let meets : Association → Bool = λ s. leb d.start s.end in
    let kept = keep_if meets open_ranges in
    let after = sweep_from (kept ++ d ∷ []) rest in
    let first = All-of_mem (Reports (relate kept d ++ after) d) rest (λ c k.
      Reports-right (relate kept d) after d c (
        open-Reports (kept ++ d ∷ []) rest d c b.1
          (mem-append_right kept (d ∷ []) d (Memᴰ.head refl)) k)) in
    (
      first,
      AllPairs-map (Reports after) (Reports (relate kept d ++ after))
          (Reports-right (relate kept d) after) rest (sorted-Reports (kept ++ d ∷ []) rest b.1),
    )

-- What the sweep says of two items, in whichever order.
abbrev pub Settled : List Relationship → Association → Association → Type 0
Settled rs x y = Reports rs x y ⊎ Reports rs y x

-- Of any two items at different places, the sweep reports a relationship, in one order or the
-- other, unless they are exempt from comparison or one ends before the other begins.
pub sweep-Settled : (items : List Association) → AllPairs (Settled (sweep items)) items
unfolding sweep
sweep-Settled items =
    let rs = sweep_from [] (sort_by sweep_less items) in
    AllPairs-of_sort_by sweep_less (Settled rs) (λ x y h. elim h [ inl r ↦ inr r | inr r ↦ inl r ])
      items
      (AllPairs-map (Reports rs) (Settled rs) (λ x y r. inl r) (sort_by sweep_less items)
        (sorted-Reports [] (sort_by sweep_less items) (sorted-Before items)))
