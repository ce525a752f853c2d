-- ===== src/Discovery/File/Freshness.antt =====
-- How old the seeds of a file may be.
use go_cluster.Prelude.{
  ℕ, ◌+◌, ◌≤◌, ◌<◌, Text, is_empty, ◌≡◌, refl, ap, ◌∙◌, false, ◌||◌, List, [], ◌∷◌, arith, subst,
  Bool-cases, Option-cases, inl, inr, ◌⊎◌, some, none, ltb, leb,
}
use go_cluster.Discovery.Texts.{distinct, sort_texts}
use go_cluster.Discovery.File.{
  Options, Impl, Surroundings, new, uses_env, load_file, load_matches, file_seeds, seeds,
}

-- What a call reads from the file system, where it reads anything.
abbrev pub read : Surroundings → Text → List Text
read w path = elim (w.stat path) [
  | some changed ↦ load_file w path
  | none ↦ sort_texts (distinct (load_matches w (w.glob path)))
]

-- The state after calls, the newest first.
abbrev pub after : List Surroundings → Impl → Impl
after [] i = i
after (w ∷ past) i = (seeds w (after past i)).1

-- One of the calls.
abbrev pub IsAmong : Surroundings → List Surroundings → Type 0
IsAmong v [] = ⊥
IsAmong v (w ∷ past) = (v ≡ w) ⊎ IsAmong v past

-- The cache is empty and never filled, or what one of the calls read at the time `last`.
abbrev IsCached : List Surroundings → Impl → Type 0
IsCached past i =
    ((i.last ≡ 0) × (i.mtime ≡ 0))
    ⊎ ((v : Surroundings) × IsAmong v past × (i.cache ≡ read v i.path) × (i.last ≡ v.now))

IsCached-later :
    (w : Surroundings) (past : List Surroundings) (i : Impl)
    → IsCached past i
    → IsCached (w ∷ past) i
IsCached-later w past i (inl h) = inl h
IsCached-later w past i (inr (v, a, e, f)) = inr (v, inr a, e, f)

file_seeds-IsCached :
    (w : Surroundings) (past : List Surroundings) (i : Impl)
    → IsCached past i
    → IsCached (w ∷ past) (file_seeds w i).1
unfolding file_seeds
file_seeds-IsCached w past i h = elim (Option-cases (w.stat i.path)) [
  | inl e ↦ elim (Bool-cases (is_empty (w.glob i.path))) [
    | inl f ↦ rw (file_seeds, e, f) (IsCached-later w past i h)
    | inr f ↦ rw (file_seeds, e, f) (inr (w, inl refl, rw (read, e) refl, refl))
  ]
  | inr (changed, e) ↦ elim (Bool-cases (ltb i.mtime changed || leb (i.last + i.refresh) w.now)) [
    | inl f ↦ rw (file_seeds, e, f) (inr (w, inl refl, rw (read, e) refl, refl))
    | inr f ↦ rw (file_seeds, e, f) (IsCached-later w past i h)
  ]
]

seeds-IsCached :
    (w : Surroundings) (past : List Surroundings) (i : Impl)
    → IsCached past i
    → IsCached (w ∷ past) (seeds w i).1
unfolding seeds
seeds-IsCached w past i h = elim (Bool-cases (uses_env w i)) [
  | inl e ↦ rw e (IsCached-later w past i h)
  | inr e ↦ elim (Bool-cases (is_empty i.path)) [
    | inl f ↦ rw (e, f) (IsCached-later w past i h)
    | inr f ↦ rw (e, f) (file_seeds-IsCached w past i h)
  ]
]

after-IsCached : (o : Options) (past : List Surroundings) → IsCached past (after past (new o))
unfolding new
after-IsCached o [] = inl (refl, refl)
after-IsCached o (w ∷ past) = seeds-IsCached w past (after past (new o)) (after-IsCached o past)

seeds-options :
    (w : Surroundings) (i : Impl)
    → ((seeds w i).1.path ≡ i.path)
      × ((seeds w i).1.env ≡ i.env)
      × ((seeds w i).1.refresh ≡ i.refresh)
unfolding seeds file_seeds
seeds-options w i = ground arith

after-options :
    (past : List Surroundings) (i : Impl)
    → ((after past i).path ≡ i.path)
      × ((after past i).env ≡ i.env)
      × ((after past i).refresh ≡ i.refresh)
after-options [] i = (refl, refl, refl)
after-options (w ∷ past) i =
    let (p, e, r) = after-options past i in
    let (p', e', r') = seeds-options w (after past i) in (p' ∙ p, e' ∙ e, r' ∙ r)

-- The answer is what one of the calls read from a path, that call being the newest one or made less
-- than a refresh time ago.
abbrev pub IsFresh : Surroundings → List Surroundings → Text → ℕ → List Text → Type 0
IsFresh w past path refresh answer =
    (v : Surroundings) × IsAmong v (w ∷ past)
    × (answer ≡ read v path)
    × ((v ≡ w) ⊎ (w.now < v.now + refresh))

file_seeds-IsFresh :
    (w : Surroundings) (past : List Surroundings) (i : Impl) (changed : ℕ)
    → IsCached past i
    → w.stat i.path ≡ some changed
    → i.refresh ≤ w.now
    → IsFresh w past i.path i.refresh (file_seeds w i).0
unfolding file_seeds
file_seeds-IsFresh w past i changed h e late =
    elim (Bool-cases (ltb i.mtime changed || leb (i.last + i.refresh) w.now)) [
      | inl f ↦ (w, inl refl, rw (file_seeds, read, e, f) refl, inl refl)
      | inr f ↦ elim h [
        | inl (l, m) ↦ ground (arith, l, f)
        | inr (v, a, c, l) ↦ (v, inr a, rw (file_seeds, e, f) c, inr (ground (arith, l, f)))
      ]
    ]

uses_env-after :
    (o : Options) (past : List Surroundings) (w : Surroundings)
    → uses_env w (new o) ≡ false
    → uses_env w (after past (new o)) ≡ false
unfolding uses_env
uses_env-after o past w h = let (p, q, r) = after-options past (new o) in rw (uses_env, q) h

-- After any calls of `Seeds` of a new discovery, a call for a path that exists, where the
-- environment variable is not used and the clock shows at least the refresh time, returns what this
-- call or an earlier one, made less than the refresh time ago, reads from the file system.
pub seeds-IsFresh :
    (o : Options) (past : List Surroundings) (w : Surroundings) (changed : ℕ)
    → uses_env w (new o) ≡ false
    → is_empty o.path ≡ false
    → w.stat o.path ≡ some changed
    → (new o).refresh ≤ w.now
    → IsFresh w past o.path (new o).refresh (seeds w (after past (new o))).0
unfolding new seeds
seeds-IsFresh o past w changed no_env has_path e late =
    let i = after past (new o) in
    let (p, q, r) = after-options past (new o) in
    let stat_path : w.stat i.path ≡ some changed = rw p e in
    let is_late : i.refresh ≤ w.now = rw r late in
    subst (λ path. IsFresh w past path (new o).refresh (seeds w i).0) p
      (subst (λ t. IsFresh w past i.path t (seeds w i).0) r
        (rw (seeds, uses_env-after o past w no_env, ap is_empty p ∙ has_path)
          (file_seeds-IsFresh w past i changed (after-IsCached o past) stat_path is_late)))
