-- ===== src/State/Sorting.antt =====
-- `sort.Slice` by ID in `State.Snapshot`: the result is sorted and has the same members, and a
-- sorted list with distinct IDs is determined by its members.
use go_cluster.Prelude.{
  Text, ◌==◌, ==_refl, text_is_eq, text_eq_iff, text_lt, text_lt_irrefl, text_lt_asymm,
  text_lt_trans, text_lt_total, ◌≡◌, refl, ap₂, ◌∙◌, true, Option, none, some, List, [], ◌∷◌, arith,
  if◌then◌else◌, Bool-cases, inl, inr, All,
}
use go_cluster.GoMap.{GoMap, lookup}
use go_cluster.GoMap.Unique.{IsUnique}
use go_cluster.Membership.{MemberInfo}
use go_cluster.State.{by_id, insert_sorted, sort_members}

-- A list of members as a map from their IDs.
abbrev pub entries : List MemberInfo → GoMap Text MemberInfo
entries [] = []
entries (m ∷ l) = (m.id, m) ∷ entries l

abbrev pub IsSorted : List MemberInfo → Type 0
IsSorted [] = Unit
IsSorted (a ∷ l) = All (λ b. by_id a b ≡ true) l × IsSorted l

lookup-insert_sorted :
    (k : Text) (a : MemberInfo) (l : List MemberInfo)
    → lookup a.id (entries l) ≡ none
    → lookup k (entries (insert_sorted a l)) ≡ (if a.id == k then some a else lookup k (entries l))
unfolding lookup insert_sorted
lookup-insert_sorted k a [] h = refl
lookup-insert_sorted k a (b ∷ l) h = ground (
  arith,
  text_eq_iff a.id k,
  text_eq_iff b.id k,
  text_eq_iff b.id a.id,
  lookup-insert_sorted k a l,
)

pub lookup-sort_members :
    (k : Text) (l : List MemberInfo)
    → IsUnique (entries l)
    → lookup k (entries (sort_members l)) ≡ lookup k (entries l)
unfolding lookup sort_members
lookup-sort_members k [] h = refl
lookup-sort_members k (a ∷ l) (fresh, h) = ground (
  arith,
  lookup-insert_sorted k a (sort_members l),
  lookup-sort_members a.id l h,
  lookup-sort_members k l h,
)

All-above_trans :
    (a b : MemberInfo) (l : List MemberInfo)
    → by_id a b ≡ true
    → All (λ c. by_id b c ≡ true) l
    → All (λ c. by_id a c ≡ true) l
All-above_trans a b [] h k = tt
All-above_trans a b (c ∷ l) h (k, ks) =
    (text_lt_trans a.id b.id c.id h k, All-above_trans a b l h ks)

All-insert_sorted :
    (x a : MemberInfo) (l : List MemberInfo)
    → by_id x a ≡ true
    → All (λ c. by_id x c ≡ true) l
    → All (λ c. by_id x c ≡ true) (insert_sorted a l)
unfolding insert_sorted
All-insert_sorted x a [] h k = (h, tt)
All-insert_sorted x a (b ∷ l) h (k, ks) = ground (arith, All-insert_sorted x a l h ks)

insert_sorted-IsSorted :
    (a : MemberInfo) (l : List MemberInfo)
    → lookup a.id (entries l) ≡ none
    → IsSorted l
    → IsSorted (insert_sorted a l)
unfolding lookup insert_sorted
insert_sorted-IsSorted a [] fresh s = (tt, tt)
insert_sorted-IsSorted a (b ∷ l) fresh (s, ss) = elim (Bool-cases (by_id b a)) [
  | inl below ↦
      rw below (All-insert_sorted b a l below s, insert_sorted-IsSorted a l (ground arith) ss)
  | inr above ↦
      let a_lt_b : by_id a b ≡ true =
        text_lt_total b.id a.id above (λ e. ground (arith, text_eq_iff b.id a.id)) in
      rw above ((a_lt_b, All-above_trans a b l a_lt_b s), (s, ss))
]

pub sort_members-IsSorted : (l : List MemberInfo) → IsUnique (entries l) → IsSorted (sort_members l)
unfolding sort_members
sort_members-IsSorted [] h = tt
sort_members-IsSorted (a ∷ l) (fresh, h) =
    insert_sorted-IsSorted a (sort_members l) (lookup-sort_members a.id l h ∙ fresh)
      (sort_members-IsSorted l h)

-- A sorted list holds no ID at or below that of a member in front of it.
lookup_above :
    (k : Text) (a : MemberInfo) (l : List MemberInfo) {m : MemberInfo}
    → All (λ b. by_id a b ≡ true) l
    → lookup k (entries l) ≡ some m
    → text_lt a.id k ≡ true
unfolding lookup
lookup_above k a [] s h = ground arith
lookup_above k a (b ∷ l) {m} (s, ss) h =
    ground (arith, text_eq_iff b.id k, lookup_above k a l {m = m} ss)

lookup_head :
    (a : MemberInfo) (l : List MemberInfo)
    → All (λ b. by_id a b ≡ true) l
    → lookup a.id (entries l) ≡ none
lookup_head a l s = go (lookup a.id (entries l)) refl
  where
    go : (o : Option MemberInfo) → lookup a.id (entries l) ≡ o → o ≡ none
    go none e = refl
    go (some m) e = ground (arith, lookup_above a.id a l s e, text_lt_irrefl a.id)

pub IsSorted-IsUnique : (l : List MemberInfo) → IsSorted l → IsUnique (entries l)
IsSorted-IsUnique [] s = tt
IsSorted-IsUnique (a ∷ l) (s, ss) = (lookup_head a l s, IsSorted-IsUnique l ss)

abbrev pub SameEntries : List MemberInfo → List MemberInfo → Type 0
SameEntries xs ys = (k : Text) → lookup k (entries xs) ≡ lookup k (entries ys)

heads_agree :
    (x y : MemberInfo) (xs ys : List MemberInfo)
    → IsSorted (x ∷ xs)
    → IsSorted (y ∷ ys)
    → SameEntries (x ∷ xs) (y ∷ ys)
    → x ≡ y
unfolding lookup
heads_agree x y xs ys (sx, _) (sy, _) h = ground (
  arith,
  h x.id,
  h y.id,
  ==_refl x.id,
  ==_refl y.id,
  lookup_above x.id y ys {m = x} sy,
  lookup_above y.id x xs {m = y} sx,
  text_lt_asymm x.id y.id,
)

tails_agree :
    (x : MemberInfo) (xs ys : List MemberInfo)
    → IsSorted (x ∷ xs)
    → IsSorted (x ∷ ys)
    → SameEntries (x ∷ xs) (x ∷ ys)
    → SameEntries xs ys
unfolding lookup
tails_agree x xs ys (sx, _) (sy, _) h k =
    ground (arith, h k, text_eq_iff x.id k, lookup_head x xs sx, lookup_head x ys sy)

-- Two sorted lists with the same members are one list.
pub IsSorted-unique :
    (xs ys : List MemberInfo) → IsSorted xs → IsSorted ys → SameEntries xs ys → xs ≡ ys
IsSorted-unique [] [] sx sy h = refl
IsSorted-unique [] (y ∷ ys) sx sy h = unfold lookup in ground (arith, h y.id, ==_refl y.id)
IsSorted-unique (x ∷ xs) [] sx sy h = unfold lookup in ground (arith, h x.id, ==_refl x.id)
IsSorted-unique (x ∷ xs) (y ∷ ys) sx sy h =
    let e : x ≡ y = heads_agree x y xs ys sx sy h in
    let sy' : IsSorted (x ∷ ys) = rw e sy in
    let h' : SameEntries (x ∷ xs) (x ∷ ys) = rw e (rw e at h) in
    ap₂ ◌∷◌ e (IsSorted-unique xs ys sx.1 sy'.1 (tails_agree x xs ys sx sy' h'))
