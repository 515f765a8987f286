-- ===== src/Assess/Report.antt =====
-- `Assess` of internal/assess/assess.go, as far as the conflicts of its report.
pub mod Collected
pub mod Conflicts
use platform_ipam.Prelude.{
  ℕ, List, [], ◌∷◌, Option, none, some, length, ltb, sort_by, ◌==◌, nat_eq, if◌then◌else◌,
}
use platform_ipam.Assess.{
  Text, ResourceRecord, FixedRange, Association, MissingFieldError, validate,
}
use platform_ipam.Assess.Collect.{dedupe_associations, build_associations}
use platform_ipam.Assess.Sweep.{Relationship, sweep}
use platform_ipam.Assess.Matrix.{Matrix, Ownership}
use platform_ipam.Assess.Conflict.{Conflict, Decision, build_conflicts, conflict_less}

pub record Options : Type 0 where
  pub matrix : Option Matrix
  pub ownership : Ownership
  pub fixed : List FixedRange
  pub decisions : Text → Option Decision
  pub max_relationships : ℕ

-- What `Assess` answers.
pub data Assessment : Type 0 where
  missing_field : MissingFieldError → Assessment
  too_many_relationships : ℕ → ℕ → Assessment
  report : List Conflict → Assessment

-- What the sweep compares.
unfoldable pub assessed_items : List ResourceRecord → List FixedRange → List Association
assessed_items records fixed = (build_associations (dedupe_associations records).0 fixed).0

abbrev default_max : ℕ
default_max = 100000

-- The cap: a value that is not positive stands for the default.
unfoldable pub cap_of : Options → ℕ
cap_of opts = if opts.max_relationships == 0 then default_max else opts.max_relationships

-- `Assess`
unfoldable pub assess : (Text → Text) → List ResourceRecord → Options → Assessment
unfolding assessed_items cap_of
assess digest records opts = elim (validate records) [
  | some e ↦ missing_field e
  | none ↦
      let rels = sweep (assessed_items records opts.fixed) in
      if ltb (cap_of opts) (length rels)
      then too_many_relationships (length rels) (cap_of opts)
      else report (
          sort_by conflict_less
            (build_conflicts digest opts.ownership opts.matrix opts.decisions rels))
]
