-- ===== src/Ledger/Changes.antt =====
-- Every change keeps a sound ledger sound, and the rows that it had.
use platform_ipam.Prelude.{
  true, remove, lookup-remove_other, All-remove, AllPairs-remove, ◌≡◌, refl, sym, ◌∙◌, ap, String,
  List, [], ◌∷◌, false, inl, inr, none, some, values, lookup, insert, lookup-insert, All-mem,
  All-insert, lookup-mem, ◌≢◌, AllPairs-snoc, AllPairs-insert, values-insert_new, Bool-cases,
  text_eq_iff, ◌==◌, string_eq, arith, some_eq, subst,
}
use platform_ipam.Netip.Text.{parse_prefix}
use platform_ipam.Domain.Rows.{Allocation, AllocationState, unset, is_released}
use platform_ipam.Ledger.{
  Moves, stays, binds, gives_up, retires, ends, Continues, Apart, Distinct, Keyed, IsSound, Change,
  same, replace, add, withdraw, Course, unmoved, onward,
}

pub Continues-refl : (a : Allocation) → Continues a a
Continues-refl a = record {
  id = refl;
  tenant = refl;
  key = refl;
  domain = refl;
  scope = refl;
  parent = refl;
  space = refl;
  moves = stays;
  revision = omega arith;
  owned = λ h. h;
}

-- What has ended does not start again.
Moves-live : (s t : AllocationState) → Moves s t → is_released t ≡ false → is_released s ≡ false
Moves-live s t stays h = h
Moves-live s t binds h = refl
Moves-live s t gives_up h = refl
Moves-live s t retires h = refl
Moves-live s t ends h = absurd cc

-- A state that is set stays set.
Moves-begun : (s t : AllocationState) → Moves s t → s ≢ unset → t ≢ unset
Moves-begun s t stays h e = h e
Moves-begun s t binds h e = absurd cc
Moves-begun s t gives_up h e = absurd cc
Moves-begun s t retires h e = absurd cc
Moves-begun s t ends h e = absurd cc

pub lookup-Keyed :
    (k : String) (a : Allocation) (m : List (String × Allocation))
    → Keyed m
    → lookup k m ≡ some a
    → a.id ≡ k
unfolding lookup
lookup-Keyed k a [] h e = absurd cc
lookup-Keyed k a ((j, b) ∷ m) h e = elim (Bool-cases (j == k)) [
  | inl t ↦
      let b_is : b ≡ a = ground (arith, t, e) in
      ap (λ (x : Allocation). x.id) (sym b_is) ∙ h.0 ∙ (text_eq_iff j k).0 t
  | inr t ↦ lookup-Keyed k a m h.1 (rw t at e)
]

Keyed-insert :
    (k : String) (a : Allocation) (m : List (String × Allocation))
    → a.id ≡ k
    → Keyed m
    → Keyed (insert k a m)
unfolding insert
Keyed-insert k a [] e h = (e, tt)
Keyed-insert k a ((j, b) ∷ m) e h = elim (Bool-cases (j == k)) [
  | inl t ↦ rw t (e, h.1)
  | inr t ↦ rw t (h.0, Keyed-insert k a m e h.1)
]

Keyed-remove : (k : String) (m : List (String × Allocation)) → Keyed m → Keyed (remove k m)
unfolding remove
Keyed-remove k [] h = tt
Keyed-remove k ((j, b) ∷ m) h = elim (Bool-cases (j == k)) [
  | inl t ↦ rw t (Keyed-remove k m h.1)
  | inr t ↦ rw t (h.0, Keyed-remove k m h.1)
]

Apart-left : (a b x : Allocation) → Continues a b → Apart a x → Apart b x
Apart-left a b x c h p q ep eq o live live' d =
    let i =
      h p q (ap parse_prefix (sym c.space) ∙ ep) eq o (Moves-live a.state b.state c.moves live)
        live' (sym c.domain ∙ d) in
    record { scope = i.scope; parent = c.id ∙ i.parent; contained = i.contained }

Apart-right : (a b x : Allocation) → Continues a b → Apart x a → Apart x b
Apart-right a b x c h p q ep eq o live live' d =
    let i =
      h p q ep (ap parse_prefix (sym c.space) ∙ eq) o live
        (Moves-live a.state b.state c.moves live') (d ∙ c.domain) in
    record { scope = c.scope ∙ i.scope; parent = i.parent ∙ sym c.parent; contained = i.contained }

replace-IsSound :
    (k : String) (a b : Allocation) (m : List (String × Allocation))
    → lookup k m ≡ some a
    → Continues a b
    → IsSound m
    → IsSound (insert k b m)
replace-IsSound k a b m e c s = record {
  keyed = Keyed-insert k b m (c.id ∙ lookup-Keyed k a m s.keyed e) s.keyed;
  begun =
      All-insert (λ (x : Allocation). x.state ≢ unset) k b m s.begun
        (Moves-begun a.state b.state c.moves (
          All-mem (λ (x : Allocation). x.state ≢ unset) (values m) a s.begun (lookup-mem k a m e)));
  keys =
      AllPairs-insert Distinct k a b m e (λ x h t u. h (t ∙ c.tenant) (u ∙ c.key))
        (λ x h t u. h (sym c.tenant ∙ t) (sym c.key ∙ u)) s.keys;
  space =
      AllPairs-insert Apart k a b m e (λ x h. Apart-right a b x c h) (λ x h. Apart-left a b x c h)
        s.space;
}

pub Change-IsSound : (m n : List (String × Allocation)) → Change m n → IsSound m → IsSound n
Change-IsSound m n same s = s
Change-IsSound m n (replace k a b e c) s = replace-IsSound k a b m e c s
Change-IsSound m n (add k b e i set distinct apart) s = record {
  keyed = Keyed-insert k b m i s.keyed;
  begun = All-insert (λ (x : Allocation). x.state ≢ unset) k b m s.begun set;
  keys = rw (values-insert_new k b m e) (AllPairs-snoc Distinct (values m) b s.keys distinct);
  space = rw (values-insert_new k b m e) (AllPairs-snoc Apart (values m) b s.space apart);
}
Change-IsSound m n (withdraw k a e free) s = record {
  keyed = Keyed-remove k m s.keyed;
  begun = All-remove (λ (x : Allocation). x.state ≢ unset) k m s.begun;
  keys = AllPairs-remove Distinct k m s.keys;
  space = AllPairs-remove Apart k m s.space;
}

-- A committed row that is there stays there, and goes on from what it was.
pub record Kept (k : String) (a : Allocation) (n : List (String × Allocation)) : Type 0 where
  pub row : Allocation
  pub found : lookup k n ≡ some row
  pub continues : Continues a row

Kept-by_insert :
    (k j : String) (a b c : Allocation) (m : List (String × Allocation))
    → lookup j m ≡ some b
    → Continues b c
    → lookup k m ≡ some a
    → Kept k a (insert j c m)
Kept-by_insert k j a b c m e h ea = elim (Bool-cases (j == k)) [
  | inl t ↦ record {
    row = c;
    found = rw (lookup-insert j k c m, t) refl;
    continues =
        subst (λ x. Continues x c)
          (some_eq (sym e ∙ ap (λ i. lookup i m) ((text_eq_iff j k).0 t) ∙ ea)) h;
  }
  | inr t ↦ record {
    row = a;
    found = rw (lookup-insert j k c m, t) ea;
    continues = Continues-refl a;
  }
]

Kept-by_add :
    (k j : String) (a c : Allocation) (m : List (String × Allocation))
    → lookup j m ≡ none
    → lookup k m ≡ some a
    → Kept k a (insert j c m)
Kept-by_add k j a c m e ea = elim (Bool-cases (j == k)) [
  | inl t ↦ absurd (ground (arith, e, ea, text_eq_iff j k, t))
  | inr t ↦ record {
    row = a;
    found = rw (lookup-insert j k c m, t) ea;
    continues = Continues-refl a;
  }
]

Kept-by_remove :
    (k j : String) (a b : Allocation) (m : List (String × Allocation))
    → lookup j m ≡ some b
    → b.committed ≡ false
    → lookup k m ≡ some a
    → a.committed ≡ true
    → Kept k a (remove j m)
Kept-by_remove k j a b m e free ea owned = record {
  row = a;
  found =
      lookup-remove_other j k m (λ q.
        let same : some b ≡ some a = sym e ∙ ap (λ i. lookup i m) q ∙ ea in
        ground (arith, same, free, owned))
      ∙ ea;
  continues = Continues-refl a;
}

pub Change-Kept :
    (m n : List (String × Allocation))
    → Change m n
    → (k : String) (a : Allocation) → lookup k m ≡ some a
    → a.committed ≡ true
    → Kept k a n
Change-Kept m n same k a e owned = record { row = a; found = e; continues = Continues-refl a }
Change-Kept m n (replace j b c f h) k a e owned = Kept-by_insert k j a b c m f h e
Change-Kept m n (add j c f i w d s) k a e owned = Kept-by_add k j a c m f e
Change-Kept m n (withdraw j b f free) k a e owned = Kept-by_remove k j a b m f free e owned

pub one : {m n : List (String × Allocation)} → Change m n → Course m n
one c = onward c unmoved

pub Course-append : (m n o : List (String × Allocation)) → Course m n → Course n o → Course m o
Course-append m n o unmoved d = d
Course-append m n o (onward {n = n'} c rest) d = onward c (Course-append n' n o rest d)

pub Course-IsSound : (m n : List (String × Allocation)) → Course m n → IsSound m → IsSound n
Course-IsSound m n unmoved s = s
Course-IsSound m n (onward {n = n'} c rest) s = Course-IsSound n' n rest (Change-IsSound m n' c s)
