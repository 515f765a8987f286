-- ===== src/Assess/Sweep.antt =====
-- `sweep` of internal/assess/sweep.go: the pairs of ranges that share an address.
pub mod Blocks
pub mod Sound
pub mod Complete
use platform_ipam.Prelude.{
  ℕ, List, [], ◌∷◌, ◌++◌, Bool, not, ◌&&◌, ◌||◌, keep_if, ltb, leb, text_lt, sort_by, ◌==◌,
  bytes_eq, nat_eq, if◌then◌else◌,
}
use platform_ipam.Assess.{Association}

pub data Kind : Type 0 where
  equal_cidr contains : Kind

-- `rawRelationship`: of a `contains` the first is the outer range.
pub record Relationship : Type 0 where
  pub kind : Kind
  pub x : Association
  pub y : Association

-- The order of the sweep: a range comes before those that it contains.
unfoldable pub sweep_less : Association → Association → Bool
sweep_less a b =
    if not (a.start == b.start)
    then ltb a.start b.start
    else if not (a.end == b.end)
    then ltb b.end a.end
    else text_lt a.identity b.identity

-- Two fixed ranges, or two ranges of one VPC, are not compared.
unfoldable pub exempt : Association → Association → Bool
exempt s cur = s.fixed && cur.fixed || not s.fixed && not cur.fixed && s.key == cur.key

abbrev pub same_range : Association → Association → Bool
same_range s cur = s.start == cur.start && s.end == cur.end

abbrev pub related : Association → Association → Relationship
related s cur = record { kind = if same_range s cur then equal_cidr else contains; x = s; y = cur }

-- The loop over the open ranges.
unfoldable pub relate : List Association → Association → List Relationship
unfolding exempt
relate [] cur = []
relate (s ∷ ss) cur =
    let rest = relate ss cur in if exempt s cur then rest else related s cur ∷ rest

-- The loop over the sorted ranges: those that have ended are closed before each step.
unfoldable pub sweep_from : List Association → List Association → List Relationship
unfolding relate
sweep_from open_ranges [] = []
sweep_from open_ranges (cur ∷ rest) =
    let kept = keep_if (λ s. leb cur.start s.end) open_ranges in
    relate kept cur ++ sweep_from (kept ++ cur ∷ []) rest

-- `sweep`
unfoldable pub sweep : List Association → List Relationship
unfolding sweep_less sweep_from
sweep items = sweep_from [] (sort_by sweep_less items)
