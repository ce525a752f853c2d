-- ===== src/Cluster/Disk/Decimals.antt =====
-- `FormatUint` and `ParseUint`.
use native.Mathlib.Nat.{pow-suc}
use go_cluster.Prelude.{
  ℕ, zero, suc, ◌+◌, ◌*◌, ◌/◌, ◌%◌, ◌^◌, ◌<◌, Text, is_empty, false, some, [], ◌∷◌, ◌≡◌, ◌≢◌, ap,
  ◌∙◌, arith, ltb, Bool-cases, inl, inr, ◌⊎◌, All,
}
use go_cluster.Cluster.Disk.{digits, format_uint, parse_digits, parse_uint}

parse_digits-digit :
    (n d m : ℕ) (s : Text)
    → d < 10
    → n * 10 + d ≡ m
    → parse_digits n ((48 + d) ∷ s) ≡ parse_digits m s
unfolding parse_digits
parse_digits-digit n d m s h e = ground arith

div_lt : (f n : ℕ) → n < 10 ^ suc f → n / 10 < 10 ^ f
div_lt f n h = omega (arith, pow-suc 10 f)

-- Parsing the digits of `n` goes on with `n` at the rest.
parse_digits-digits :
    (f n : ℕ) (rest : Text) → n < 10 ^ f → parse_digits 0 (digits f n rest) ≡ parse_digits n rest
unfolding digits
parse_digits-digits zero n rest h =
    ap (λ (k : ℕ). parse_digits k rest) (let e : 0 ≡ n = omega arith in e)
parse_digits-digits (suc f) n rest h = elim (Bool-cases (ltb n 10)) [
  | inl small ↦ rw (small, digits) (parse_digits-digit 0 n n rest (ground arith) (omega arith))
  | inr large ↦
      rw (large, digits)
        (parse_digits-digits f (n / 10) ((48 + n % 10) ∷ rest) (div_lt f n h)
          ∙ parse_digits-digit (n / 10) (n % 10) n rest (omega arith) (omega arith))
]

digits-ne-nil : (f n : ℕ) (rest : Text) → is_empty (digits (suc f) n rest) ≡ false
unfolding digits
digits-ne-nil zero n rest = ground arith
digits-ne-nil (suc f) n rest = ground (arith, digits-ne-nil f (n / 10) ((48 + n % 10) ∷ rest))

-- What `FormatUint` prints, `ParseUint` reads back, for every uint64.
pub parse_uint-format_uint : (n : ℕ) → n < 2 ^ 64 → parse_uint (format_uint n) ≡ some n
unfolding parse_uint format_uint parse_digits
parse_uint-format_uint n h =
    rw (digits-ne-nil 19 n []) (parse_digits-digits 20 n [] (omega arith) ∙ ground arith)

-- A byte that is no digit does not stand among the digits.
digits-ne :
    (c f n : ℕ) (rest : Text)
    → c < 48 ⊎ 57 < c
    → All (λ d. d ≢ c) rest
    → All (λ d. d ≢ c) (digits f n rest)
unfolding digits
digits-ne c zero n rest out h = h
digits-ne c (suc f) n rest out h = ground (arith, digits-ne c f (n / 10) ((48 + n % 10) ∷ rest) out)

pub format_uint-ne : (c n : ℕ) → c < 48 ⊎ 57 < c → All (λ d. d ≢ c) (format_uint n)
unfolding format_uint
format_uint-ne c n out = digits-ne c 20 n [] out tt
