-- ===== src/Discovery/Ordering.antt =====
-- A sorted list of distinct texts, and what sorting and the removal of duplicates keep.
use go_cluster.Prelude.{
  Text, ◌==◌, text_is_eq, text_eq_iff, text_lt, text_lt_trans, text_lt_total, text_lt_irrefl,
  text_lt_asymm, ==_refl, ap₂, subst, sym, ◌≡◌, refl, ◌∙◌, true, false, ◌||◌, List, [], ◌∷◌, ◌++◌,
  All, arith, Bool-cases, inl, inr, contains,
}
use go_cluster.Discovery.Texts.{insert_text, sort_texts, distinct}

-- Strictly ascending: sorted, and no text twice.
abbrev pub IsAscending : List Text → Type 0
IsAscending [] = Unit
IsAscending (a ∷ l) = All (λ b. text_lt a b ≡ true) l × IsAscending l

abbrev pub IsDistinct : List Text → Type 0
IsDistinct [] = Unit
IsDistinct (a ∷ l) = (contains a l ≡ false) × IsDistinct l

contains-insert_text :
    (x a : Text) (l : List Text) → contains x (insert_text a l) ≡ (a == x || contains x l)
unfolding insert_text
contains-insert_text x a [] = refl
contains-insert_text x a (b ∷ l) = ground (arith, contains-insert_text x a l)

pub contains-sort_texts : (x : Text) (l : List Text) → contains x (sort_texts l) ≡ contains x l
unfolding sort_texts
contains-sort_texts x [] = refl
contains-sort_texts x (a ∷ l) =
    ground (arith, contains-insert_text x a (sort_texts l), contains-sort_texts x l)

pub contains-distinct : (x : Text) (l : List Text) → contains x (distinct l) ≡ contains x l
unfolding distinct
contains-distinct x [] = refl
contains-distinct x (a ∷ l) =
    ground (arith, contains-distinct x l, contains-distinct a l, text_eq_iff a x)

pub distinct-IsDistinct : (l : List Text) → IsDistinct (distinct l)
unfolding distinct
distinct-IsDistinct [] = tt
distinct-IsDistinct (a ∷ l) = ground (arith, distinct-IsDistinct l)

above_trans :
    (a b : Text) (l : List Text)
    → text_lt a b ≡ true
    → All (λ c. text_lt b c ≡ true) l
    → All (λ c. text_lt a c ≡ true) l
above_trans a b [] h k = tt
above_trans a b (c ∷ l) h (k, ks) = (text_lt_trans a b c h k, above_trans a b l h ks)

above-insert_text :
    (x a : Text) (l : List Text)
    → text_lt x a ≡ true
    → All (λ c. text_lt x c ≡ true) l
    → All (λ c. text_lt x c ≡ true) (insert_text a l)
unfolding insert_text
above-insert_text x a [] h k = (h, tt)
above-insert_text x a (b ∷ l) h (k, ks) = ground (arith, above-insert_text x a l h ks)

insert_text-IsAscending :
    (a : Text) (l : List Text)
    → contains a l ≡ false
    → IsAscending l
    → IsAscending (insert_text a l)
unfolding insert_text
insert_text-IsAscending a [] fresh s = (tt, tt)
insert_text-IsAscending a (b ∷ l) fresh (s, ss) = elim (Bool-cases (text_lt b a)) [
  | inl below ↦
      rw below (above-insert_text b a l below s, insert_text-IsAscending a l (ground arith) ss)
  | inr above ↦
      let a_lt_b : text_lt a b ≡ true =
        text_lt_total b a above (λ e. ground (arith, text_eq_iff b a)) in
      rw above ((a_lt_b, above_trans a b l a_lt_b s), (s, ss))
]

pub sort_texts-IsAscending : (l : List Text) → IsDistinct l → IsAscending (sort_texts l)
unfolding sort_texts
sort_texts-IsAscending [] h = tt
sort_texts-IsAscending (a ∷ l) (fresh, h) =
    insert_text-IsAscending a (sort_texts l) (contains-sort_texts a l ∙ fresh)
      (sort_texts-IsAscending l h)

pub contains-append :
    (x : Text) (l m : List Text) → contains x (l ++ m) ≡ (contains x l || contains x m)
contains-append x [] m = refl
contains-append x (a ∷ l) m = ground (arith, contains-append x l m)

-- A list holds no text at or below one that is below all of its texts.
below_every :
    (a x : Text) (l : List Text)
    → All (λ b. text_lt a b ≡ true) l
    → contains x l ≡ true
    → text_lt a x ≡ true
below_every a x [] h p = ground arith
below_every a x (b ∷ l) (h, hs) p = ground (arith, below_every a x l hs, text_eq_iff b x)

not_below : (a : Text) (l : List Text) → All (λ b. text_lt a b ≡ true) l → contains a l ≡ false
not_below a l h = elim (Bool-cases (contains a l)) [
  | inl e ↦ ground (arith, below_every a a l h e, text_lt_irrefl a)
  | inr e ↦ e
]

heads_agree :
    (a b : Text) (l m : List Text)
    → IsAscending (a ∷ l)
    → IsAscending (b ∷ m)
    → ((x : Text) → contains x (a ∷ l) ≡ contains x (b ∷ m))
    → a ≡ b
heads_agree a b l m (h, _) (k, _) same = ground (
  arith,
  same a,
  same b,
  ==_refl a,
  ==_refl b,
  text_eq_iff a b,
  text_eq_iff b a,
  below_every a b l h,
  below_every b a m k,
  text_lt_asymm a b,
)

tails_agree :
    (a : Text) (l m : List Text)
    → IsAscending (a ∷ l)
    → IsAscending (a ∷ m)
    → ((x : Text) → contains x (a ∷ l) ≡ contains x (a ∷ m))
    → (x : Text) → contains x l ≡ contains x m
tails_agree a l m (h, _) (k, _) same x =
    ground (arith, same x, text_eq_iff a x, not_below a l h, not_below a m k)

-- Two ascending lists of the same texts are equal.
pub ascending_unique :
    (l m : List Text)
    → IsAscending l
    → IsAscending m
    → ((x : Text) → contains x l ≡ contains x m)
    → l ≡ m
ascending_unique [] [] s t same = refl
ascending_unique [] (b ∷ m) s t same = ground (arith, same b, ==_refl b)
ascending_unique (a ∷ l) [] s t same = ground (arith, same a, ==_refl a)
ascending_unique (a ∷ l) (b ∷ m) s t same =
    let e = heads_agree a b l m s t same in
    ap₂ ◌∷◌ e (
      ascending_unique l m s.1 t.1 (
        tails_agree a l m s (subst (λ c. IsAscending (c ∷ m)) (sym e) t)
          (subst (λ c. (x : Text) → contains x (a ∷ l) ≡ contains x (c ∷ m)) (sym e) same)))
