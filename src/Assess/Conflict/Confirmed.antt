-- ===== src/Assess/Conflict/Confirmed.antt =====
-- What the matrix says of two groups, and what the impact of a conflict rests on.
use platform_ipam.Prelude.{
  ◌≡◌, refl, ◌↔◌, String, List, [], ◌∷◌, Bool, true, false, ◌&&◌, ◌||◌, Option, none, some, ◌==◌,
  string_eq, text_eq_iff, arith, subst, ◌⊎◌, Memᴰ, any-found, mem-any, Bool-cases, inl, inr,
}
use platform_ipam.Assess.{Text}
use platform_ipam.Assess.Sweep.{Relationship}
use platform_ipam.Assess.Conflict.{
  Decision, supplied, matrix_of, position_for, side_of, conflict_of,
}
use platform_ipam.Assess.Matrix.{
  Ownership, Matrix, MatrixRelation, must_communicate, must_stay_isolated, undecided, not_in_matrix,
  is_shared_service, pair_listed, matrix_relation, confirmed, impact_for,
}

pair_listed_comm :
    (pairs : List (String × String)) (a b : String) → pair_listed pairs a b ≡ pair_listed pairs b a
unfolding pair_listed
pair_listed_comm [] a b = refl
pair_listed_comm (p ∷ ps) a b = ground (arith, pair_listed_comm ps a b)

-- The relation and the impact do not depend on which side comes first.
pub relation_comm :
    (m : Matrix) (a b : Option String) → matrix_relation m a b ≡ matrix_relation m b a
unfolding matrix_relation
relation_comm m none none = refl
relation_comm m none (some b) = refl
relation_comm m (some a) none = refl
relation_comm m (some a) (some b) = ground (
  arith,
  pair_listed_comm m.must_communicate a b,
  pair_listed_comm m.must_stay_isolated a b,
  text_eq_iff a b,
  text_eq_iff b a,
)

-- What makes two groups of the matrix communicate.
pub data Required (m : Matrix) (a b : String) : Type 0 where
  together : a ≡ b → Required m a b
  shared_first : Memᴰ a m.shared_services → Required m a b
  shared_second : Memᴰ b m.shared_services → Required m a b
  listed : Memᴰ (a, b) m.must_communicate → Required m a b
  listed_back : Memᴰ (b, a) m.must_communicate → Required m a b

shared-mem : (m : Matrix) (a : String) → (is_shared_service m a ≡ true) ↔ Memᴰ a m.shared_services
unfolding is_shared_service
shared-mem m a = (
  λ h.
      let (s, k, t) = any-found (λ s. s == a) m.shared_services h in
      subst (λ s. Memᴰ s m.shared_services) ((text_eq_iff s a).0 t) k,
  λ k. mem-any (λ s. s == a) m.shared_services a k ((text_eq_iff a a).1 refl),
)

abbrev listed_as : String → String → String × String → Bool
listed_as a b p = p.0 == a && p.1 == b || p.0 == b && p.1 == a

pair-mem :
    (pairs : List (String × String)) (a b : String)
    → pair_listed pairs a b ≡ true
    → Memᴰ (a, b) pairs ⊎ Memᴰ (b, a) pairs
unfolding pair_listed
pair-mem pairs a b h =
    let (p, k, t) = any-found (listed_as a b) pairs h in
    elim (Bool-cases (p.0 == a && p.1 == b)) [
      | inl e ↦
          let x : p.0 ≡ a = (text_eq_iff p.0 a).0 (ground (arith, e)) in
          let y : p.1 ≡ b = (text_eq_iff p.1 b).0 (ground (arith, e)) in
          inl (subst (λ q. Memᴰ q pairs) (λ i. (x i, y i)) k)
      | inr e ↦
          let x : p.0 ≡ b = (text_eq_iff p.0 b).0 (ground (arith, e, t)) in
          let y : p.1 ≡ a = (text_eq_iff p.1 a).0 (ground (arith, e, t)) in
          inr (subst (λ q. Memᴰ q pairs) (λ i. (x i, y i)) k)
    ]

mem-pair :
    (pairs : List (String × String)) (a b : String)
    → Memᴰ (a, b) pairs
    → pair_listed pairs a b ≡ true
unfolding pair_listed
mem-pair pairs a b k =
    mem-any (listed_as a b) pairs (a, b) k (ground (arith, text_eq_iff a a, text_eq_iff b b))

relation-Required :
    (m : Matrix) (a b : String)
    → matrix_relation m (some a) (some b) ≡ must_communicate
    → Required m a b
unfolding matrix_relation
relation-Required m a b h = elim (Bool-cases (a == b)) [
  | inl e ↦ together ((text_eq_iff a b).0 e)
  | inr e ↦ elim (Bool-cases (is_shared_service m a)) [
    | inl s ↦ shared_first ((shared-mem m a).0 s)
    | inr s ↦ elim (Bool-cases (is_shared_service m b)) [
      | inl t ↦ shared_second ((shared-mem m b).0 t)
      | inr t ↦ elim (pair-mem m.must_communicate a b (ground (arith, h, e, s, t))) [
        | inl k ↦ listed k
        | inr k ↦ listed_back k
      ]
    ]
  ]
]

Required-relation :
    (m : Matrix) (a b : String)
    → Required m a b
    → matrix_relation m (some a) (some b) ≡ must_communicate
unfolding matrix_relation
Required-relation m a b (together e) = ground (arith, text_eq_iff a b, e)
Required-relation m a b (shared_first k) = ground (arith, (shared-mem m a).1 k)
Required-relation m a b (shared_second k) = ground (arith, (shared-mem m b).1 k)
Required-relation m a b (listed k) = ground (arith, mem-pair m.must_communicate a b k)
Required-relation m a b (listed_back k) =
    ground (arith, mem-pair m.must_communicate b a k, pair_listed_comm m.must_communicate a b)

-- A matrix was supplied, it knows the groups of both sides, and it makes them communicate.
abbrev pub Communicates : Option Matrix → Option String → Option String → Type 0
Communicates none g h = ⊥
Communicates (some m) none h = ⊥
Communicates (some m) (some a) none = ⊥
Communicates (some m) (some a) (some b) = Required m a b

confirmed-relation :
    (r : MatrixRelation) (a b : Option String)
    → impact_for true r a b ≡ confirmed
    → r ≡ must_communicate
unfolding impact_for
confirmed-relation must_communicate a b h = refl
confirmed-relation must_stay_isolated a b h = absurd cc
confirmed-relation undecided a b h = absurd cc
confirmed-relation not_in_matrix a b h = absurd (ground (arith, h))

relation-Communicates :
    (m : Matrix) (a b : Option String)
    → matrix_relation m a b ≡ must_communicate
    → Communicates (some m) a b
relation-Communicates m none b h = unfold matrix_relation in cc
relation-Communicates m (some a) none h = unfold matrix_relation in cc
relation-Communicates m (some a) (some b) h = relation-Required m a b h

Communicates-impact :
    (m : Matrix) (a b : Option String)
    → Communicates (some m) a b
    → impact_for true (matrix_relation m a b) a b ≡ confirmed
unfolding impact_for
Communicates-impact m none b h = elim h [ ]
Communicates-impact m (some a) none h = elim h [ ]
Communicates-impact m (some a) (some b) h = rw (Required-relation m a b h) refl

impact_iff :
    (matrix : Option Matrix) (a b : Option String)
    → (impact_for (supplied matrix) (matrix_relation (matrix_of matrix) a b) a b ≡ confirmed)
      ↔ Communicates matrix a b
impact_iff none a b = (λ h. unfold impact_for in cc, λ h. elim h [ ])
impact_iff (some m) a b = (
  λ h. relation-Communicates m a b (confirmed-relation (matrix_relation m a b) a b h),
  Communicates-impact m a b,
)

-- The impact of a conflict is confirmed exactly when a matrix was supplied, it assigns both sides
-- to groups, and it makes the two groups communicate: they are one group, one of them is a shared
-- service, or the pair is listed in either order.
pub conflict_of-confirmed_iff :
    (digest : Text → Text) (rels : List Relationship) (table : Ownership) (matrix : Option Matrix)
    (decisions : Text → Option Decision) (r : Relationship)
    → ((conflict_of digest rels table matrix decisions r).impact ≡ confirmed)
      ↔ Communicates matrix
          (side_of rels (matrix_of matrix) table (position_for r.kind true) r.x).group
          (side_of rels (matrix_of matrix) table (position_for r.kind false) r.y).group
unfolding conflict_of
conflict_of-confirmed_iff digest rels table matrix decisions r = impact_iff matrix _ _
