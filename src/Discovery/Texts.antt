-- ===== src/Discovery/Texts.antt =====
-- What discovery uses of Go's `strings`, `sort` and `strconv`. White space is ASCII's.
use go_cluster.Prelude.{
  ℕ, Text, is_empty, ◌==◌, nat_eq, text_is_eq, Bool, true, false, ◌&&◌, ◌||◌, Option, none, some,
  List, [], ◌∷◌, suc, if◌then◌else◌, contains, text_lt,
}
use go_cluster.Prelude.Int.{ℤ, pos, negsuc}
use go_cluster.Cluster.Disk.{format_uint}

unfoldable pub is_space : ℕ → Bool
is_space c = c == b' ' || (c == 9 || (c == 10 || (c == 11 || (c == 12 || c == 13))))

unfoldable pub trim_left : Text → Text
trim_left [] = []
trim_left (c ∷ s) = let rest = trim_left s in if is_space c then rest else c ∷ s

unfoldable pub trim_right : Text → Text
trim_right [] = []
trim_right (c ∷ s) = let rest = trim_right s in if is_empty rest && is_space c then [] else c ∷ rest

-- `strings.TrimSpace`
unfoldable pub trim_space : Text → Text
unfolding trim_left trim_right is_space
trim_space s = trim_right (trim_left s)

-- Puts a byte in front of the first part.
abbrev pub cons_first : ℕ → List Text → List Text
cons_first c [] = (c ∷ []) ∷ []
cons_first c (part ∷ parts) = (c ∷ part) ∷ parts

-- `strings.Split`, at a separator of one byte.
unfoldable pub split : ℕ → Text → List Text
split sep [] = [] ∷ []
split sep (c ∷ s) = let rest = split sep s in if c == sep then [] ∷ rest else cons_first c rest

-- The text in front of the first separator, and the text behind it.
unfoldable pub split_first : ℕ → Text → Option (Text × Text)
split_first sep [] = none
split_first sep (c ∷ s) =
    let rest : Option (Text × Text) = elim (split_first sep s) [
      | none ↦ none
      | some (a, b) ↦ some (c ∷ a, b)
    ] in
    if c == sep then some ([], s) else rest

-- `strings.HasPrefix`
unfoldable pub has_prefix : Text → Text → Bool
has_prefix [] s = true
has_prefix (c ∷ p) [] = false
has_prefix (c ∷ p) (d ∷ s) = c == d && has_prefix p s

-- `strings.Contains`
unfoldable pub has_part : Text → Text → Bool
unfolding has_prefix
has_part part [] = is_empty part
has_part part (c ∷ s) = let rest = has_part part s in has_prefix part (c ∷ s) || rest

-- `strings.TrimPrefix`, at a prefix of one byte.
unfoldable pub trim_prefix : ℕ → Text → Text
trim_prefix c [] = []
trim_prefix c (d ∷ s) = if d == c then s else d ∷ s

-- `strings.TrimSuffix`, at a suffix of one byte.
unfoldable pub trim_suffix : ℕ → Text → Text
trim_suffix c [] = []
trim_suffix c (d ∷ s) = let rest = trim_suffix c s in if is_empty s && d == c then [] else d ∷ rest

-- `sort.Strings`, as an insertion sort.
unfoldable pub insert_text : Text → List Text → List Text
insert_text a [] = a ∷ []
insert_text a (b ∷ l) = let rest = insert_text a l in if text_lt b a then b ∷ rest else a ∷ b ∷ l

unfoldable pub sort_texts : List Text → List Text
unfolding insert_text
sort_texts [] = []
sort_texts (a ∷ l) = insert_text a (sort_texts l)

-- The keys of a `map[string]struct{}` that the texts are put into, in some order.
unfoldable pub distinct : List Text → List Text
distinct [] = []
distinct (a ∷ l) = let rest = distinct l in if contains a rest then rest else a ∷ rest

-- Trims the parts and drops those that are empty.
unfoldable pub clean : List Text → List Text
unfolding trim_space
clean [] = []
clean (a ∷ l) = let rest = clean l in if is_empty (trim_space a) then rest else trim_space a ∷ rest

-- `strconv.Itoa`
unfoldable pub itoa : ℤ → Text
itoa (pos n) = format_uint n
itoa (negsuc n) = b'-' ∷ format_uint (suc n)
