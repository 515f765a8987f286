-- ===== src/Assess/Collect.antt =====
-- What the sweep compares: `dedupeAssociations` and `buildAssociations` of
-- internal/assess/sweep.go.
use platform_ipam.Prelude.{
  ℕ, ◌+◌, String, List, [], ◌∷◌, ◌++◌, Bool, true, false, not, any, keep_if, length, Option, none,
  some, ltb, codes, text_lt, sort_by, ◌==◌, bytes_eq, nat_eq, if◌then◌else◌,
}
use platform_ipam.Assess.{
  Text, ResourceRecord, is_vpc, vpc_key, identity, FixedRange, Association, cidr_interval,
}

abbrev or_empty : Option String → Text
or_empty none = []
or_empty (some s) = codes s

-- `dedupeKey`
unfoldable pub dedupe_key : ResourceRecord → Text
dedupe_key r =
    codes r.account_id
    ++ 0x1f
      ∷ (codes r.region
          ++ 0x1f ∷ (codes r.resource_id ++ 0x1f ∷ (r.cidr ++ 0x1f ∷ or_empty r.association_id)))

-- `sourceLess`
unfoldable pub source_less : ResourceRecord → ResourceRecord → Bool
source_less a b =
    if a.source_file == b.source_file
    then ltb a.source_row b.source_row
    else text_lt a.source_file b.source_file

-- `order`: each key where it occurs first.
unfoldable pub new_keys : List Text → List ResourceRecord → List Text
new_keys seen [] = []
new_keys seen (r ∷ rs) =
    let key = dedupe_key r in
    let old = new_keys seen rs in
    let new = new_keys (key ∷ seen) rs in if any (λ k. k == key) seen then old else key ∷ new

unfoldable pub best_of : ResourceRecord → List ResourceRecord → ResourceRecord
best_of best [] = best
best_of best (r ∷ rs) = best_of (if source_less r best then r else best) rs

unfoldable pub group_of : Text → List ResourceRecord → List ResourceRecord
group_of key = keep_if (λ r. dedupe_key r == key)

-- The loop over the keys in their order: the survivors, and how many records are collapsed.
unfoldable pub survivors_of : List Text → List ResourceRecord → List ResourceRecord × ℕ
unfolding group_of
survivors_of [] rs = ([], 0)
survivors_of (key ∷ keys) rs =
    let (best, dropped) = survivors_of keys rs in
    elim (group_of key rs) [
      | [] ↦ (best, dropped)
      | g ∷ gs ↦ (best_of g gs ∷ best, length gs + dropped)
    ]

unfoldable pub vpc_records : List ResourceRecord → List ResourceRecord
vpc_records = keep_if (λ r. is_vpc r.type)

-- `dedupeAssociations`
unfoldable pub dedupe_associations : List ResourceRecord → List ResourceRecord × ℕ
unfolding new_keys survivors_of vpc_records
dedupe_associations records =
    let vpcs = vpc_records records in survivors_of (sort_by text_lt (new_keys [] vpcs)) vpcs

-- A note of the kind `NoteInvalidCIDR`, without its message.
pub record InvalidCidr : Type 0 where
  pub source_file : Text
  pub source_row : ℕ

unfoldable pub resource_items : List ResourceRecord → List Association × List InvalidCidr
resource_items [] = ([], [])
resource_items (r ∷ rs) =
    let (items, notes) = resource_items rs in
    elim (cidr_interval r.cidr) [
      | none ↦ (items, record { source_file = r.source_file; source_row = r.source_row } ∷ notes)
      | some (start, end) ↦ (
        record {
          start = start;
          end = end;
          key = vpc_key r;
          rec = some r;
          fixed = false;
          fx = none;
          identity = identity r;
        }
            ∷ items,
        notes,
      )
    ]

-- The order of the fixed ranges.
unfoldable pub fixed_less : FixedRange → FixedRange → Bool
fixed_less a b =
    if not (a.cidr == b.cidr)
    then text_lt a.cidr b.cidr
    else if not (a.description == b.description)
    then text_lt a.description b.description
    else if not (a.owner == b.owner)
    then text_lt a.owner b.owner
    else if not (a.source_file == b.source_file)
    then text_lt a.source_file b.source_file
    else ltb a.source_row b.source_row

-- `fixedIdentity`
unfoldable pub fixed_identity : FixedRange → Text
fixed_identity fx = codes "fixed:" ++ fx.cidr

unfoldable pub fixed_items : List Text → List FixedRange → List Association × List InvalidCidr
unfolding fixed_identity
fixed_items seen [] = ([], [])
fixed_items seen (fx ∷ fxs) =
    let (items, notes) = fixed_items seen fxs in
    let next = fixed_items (fx.cidr ∷ seen) fxs in
    elim (cidr_interval fx.cidr) [
      | none ↦ (items, record { source_file = fx.source_file; source_row = fx.source_row } ∷ notes)
      | some (start, end) ↦ if any (λ c. c == fx.cidr) seen then (items, notes) else (
        record {
          start = start;
          end = end;
          key = [];
          rec = none;
          fixed = true;
          fx = some fx;
          identity = fixed_identity fx;
        }
            ∷ next.0,
        next.1,
      )
    ]

-- `buildAssociations`
unfoldable pub build_associations :
    List ResourceRecord → List FixedRange → List Association × List InvalidCidr
unfolding resource_items fixed_items
build_associations records fixed =
    let (rows, row_notes) = resource_items records in
    let (ranges, range_notes) = fixed_items [] (sort_by fixed_less fixed) in
    (rows ++ ranges, row_notes ++ range_notes)
