-- ===== src/Assess/Report/Conflicts.antt =====
-- The conflicts of a report are those of its items: every one of them, and no other.
use platform_ipam.Prelude.{
  ◌≡◌, refl, subst, ◌<◌, ◌⊎◌, inl, inr, List, true, ltb, length, All, AllPairs, All-map,
  AllPairs-map, Memᴰ, map, mem-map, All-of_map, sort_by, mem-sort_by, All-sort_by, Option-cases,
  Bool-cases, arith,
}
use platform_ipam.Assess.{Text, Association, ResourceRecord, validate}
use platform_ipam.Assess.Sweep.{Relationship, exempt, related, sweep}
use platform_ipam.Assess.Sweep.Sound.{IsConflict, sweep-IsConflict}
use platform_ipam.Assess.Sweep.Complete.{Reports, spared, apart, found, Settled, sweep-Settled}
use platform_ipam.Assess.Conflict.{Conflict, conflict_of, build_conflicts, conflict_less}
use platform_ipam.Assess.Report.{Options, report, assessed_items, cap_of, assess}
use platform_ipam.Assess.Report.Collected.{assessed_items-IsBlock}

module _ (digest : Text → Text) (records : List ResourceRecord) (opts : Options) where
  abbrev pub items : List Association
  items = assessed_items records opts.fixed

  abbrev pub conflict : Relationship → Conflict
  conflict = conflict_of digest (sweep items) opts.ownership opts.matrix opts.decisions

  -- A conflict that the report shows, and the two items that it is between.
  pub record Shown (c : Conflict) : Type 0 where
    pub relationship : Relationship
    pub made : c ≡ conflict relationship
    pub has_x : Memᴰ relationship.x items
    pub has_y : Memᴰ relationship.y items
    pub is_conflict : IsConflict relationship

  -- The pair needs no conflict, or has one in the report.
  pub data Covered (cs : List Conflict) (x y : Association) : Type 0 where
    not_compared : exempt x y ≡ true → Covered cs x y
    disjoint : x.end < y.start → Covered cs x y
    conflicts : Memᴰ (conflict (related x y)) cs → Covered cs x y

  pub record Exact (cs : List Conflict) : Type 0 where
    pub sound : All Shown cs
    pub complete : AllPairs (λ x y. Covered cs x y ⊎ Covered cs y x) items

  abbrev shown : List Conflict
  shown =
      sort_by conflict_less
        (build_conflicts digest opts.ownership opts.matrix opts.decisions (sweep items))

  shown-Shown : All Shown shown
  unfolding build_conflicts
  shown-Shown =
      All-sort_by conflict_less Shown
        (build_conflicts digest opts.ownership opts.matrix opts.decisions (sweep items))
        (All-of_map conflict Shown (sweep items) (
          All-map (λ r. Memᴰ r.x items × Memᴰ r.y items × IsConflict r) (λ r. Shown (conflict r))
            (λ r (h : Memᴰ r.x items × Memᴰ r.y items × IsConflict r). record {
              relationship = r;
              made = refl;
              has_x = h.0;
              has_y = h.1;
              is_conflict = h.2;
            })
            (sweep items) (sweep-IsConflict items (assessed_items-IsBlock records opts.fixed))))

  Reports-Covered : (x y : Association) → Reports (sweep items) x y → Covered shown x y
  unfolding build_conflicts
  Reports-Covered x y (spared e) = not_compared e
  Reports-Covered x y (apart l) = disjoint l
  Reports-Covered x y (found m) = conflicts (
      mem-sort_by conflict_less (conflict (related x y)) (map conflict (sweep items))
        (mem-map conflict (sweep items) (related x y) m))

  shown-Exact : Exact shown
  shown-Exact = record {
    sound = shown-Shown;
    complete =
        AllPairs-map (Settled (sweep items)) (λ x y. Covered shown x y ⊎ Covered shown y x)
          (λ x y h. elim h [
            | inl r ↦ inl (Reports-Covered x y r)
            | inr r ↦ inr (Reports-Covered y x r)
          ])
          items (sweep-Settled items);
  }

  -- A report that is not refused shows exactly the conflicts of the deduplicated VPC ranges and the
  -- fixed ranges that parse. Each one is between two of these items that are compared, of which the
  -- first holds the second. Any two items at different places have theirs, unless they are exempt
  -- from comparison or have no address in common.
  pub assess-Exact : (cs : List Conflict) → assess digest records opts ≡ report cs → Exact cs
  unfolding assess
  assess-Exact cs h = elim (Option-cases (validate records)) [
    | inr (e, v) ↦ absurd (ground (arith, h, v))
    | inl v ↦ elim (Bool-cases (ltb (cap_of opts) (length (sweep items)))) [
      | inl t ↦ absurd (ground (arith, h, v, t))
      | inr t ↦ let is : shown ≡ cs = ground (arith, h, v, t) in subst Exact is shown-Exact
    ]
  ]
