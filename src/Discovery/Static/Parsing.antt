-- ===== src/Discovery/Static/Parsing.antt =====
-- Parsing a list of seeds: what comes out, and that a printed list is read back.
use go_cluster.Prelude.{
  Text, is_empty, nat_eq, eqb_iff, ◌≡◌, refl, ap, ◌∙◌, ◌≢◌, false, List, [], ◌∷◌, ◌++◌, All, arith,
}
use go_cluster.Discovery.Texts.{trim_space, split, clean}
use go_cluster.Discovery.Static.{parse}

-- The first and the last byte are no white space.
abbrev pub IsTrimmed : Text → Type 0
IsTrimmed s = trim_space s ≡ s

-- A seed: not empty, no white space around it, and no comma in it.
pub record IsSeed (s : Text) : Type 0 where
  pub ne_nil : s ≢ []
  pub trimmed : IsTrimmed s
  pub no_comma : All (λ c. c ≢ b',') s

-- `strings.Join(seeds, ",")`
abbrev pub join : List Text → Text
join [] = []
join (a ∷ []) = a
join (a ∷ b ∷ l) = a ++ b',' ∷ join (b ∷ l)

split_one : (s : Text) → All (λ c. c ≢ b',') s → split b',' s ≡ s ∷ []
unfolding split
split_one [] h = refl
split_one (c ∷ s) (ne, h) = ground (arith, split_one s h, eqb_iff c b',')

split-append :
    (s rest : Text) → All (λ c. c ≢ b',') s → split b',' (s ++ b',' ∷ rest) ≡ s ∷ split b',' rest
unfolding split
split-append [] rest h = ground (arith, eqb_iff b',' b',')
split-append (c ∷ s) rest (ne, h) = ground (arith, split-append s rest h, eqb_iff c b',')

pub clean-cons : (a : Text) (l : List Text) → IsSeed a → clean (a ∷ l) ≡ a ∷ clean l
unfolding clean
clean-cons [] l h = absurd (h.ne_nil refl)
clean-cons (c ∷ a) l h = rw (h.trimmed) refl

clean-split-join :
    (a : Text) (l : List Text) → IsSeed a → All IsSeed l → clean (split b',' (join (a ∷ l))) ≡ a ∷ l
clean-split-join a [] h hs =
    ap clean (split_one a h.no_comma) ∙ clean-cons a [] h ∙ unfold clean in refl
clean-split-join a (b ∷ l) h (k, ks) =
    ap clean (split-append a (join (b ∷ l)) h.no_comma)
    ∙ clean-cons a (split b',' (join (b ∷ l))) h
    ∙ ap (◌∷◌ a) (clean-split-join b l k ks)

join-ne : (a : Text) (l : List Text) → a ≢ [] → is_empty (join (a ∷ l)) ≡ false
join-ne [] l h = absurd (h refl)
join-ne (c ∷ a) [] h = refl
join-ne (c ∷ a) (b ∷ l) h = refl

-- A list of seeds that is joined with commas is parsed back to the same list.
pub parse-join : (l : List Text) → All IsSeed l → parse (join l) ≡ l
unfolding parse
parse-join [] h = refl
parse-join (a ∷ l) (h, hs) = rw (join-ne a l h.ne_nil) (clean-split-join a l h hs)
