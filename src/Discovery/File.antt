-- ===== src/Discovery/File.antt =====
-- pkg/discovery/file/file.go. What one call of `Seeds` sees of the environment, the file system and
-- the clock is its argument. Times are nanoseconds since Go's zero time.
pub mod Loading
pub mod Freshness
use go_cluster.Prelude.{
  ℕ, ◌+◌, Text, codes, is_empty, Bool, not, ◌&&◌, ◌||◌, Option, none, some, List, [], ◌∷◌, ◌++◌,
  if◌then◌else◌, ltb, leb,
}
use go_cluster.Prelude.Int.{ℤ, positive_or}
use go_cluster.Discovery.Texts.{trim_space, split, has_prefix, clean, distinct, sort_texts}

pub record Options : Type 0 where
  pub path : Text
  pub env : Text
  pub refresh : ℤ

-- `impl`. `refresh` is positive once `New` has set its default.
pub record Impl : Type 0 where
  pub path : Text
  pub env : Text
  pub refresh : ℕ
  pub last : ℕ
  pub mtime : ℕ
  pub cache : List Text

-- What a call sees: `stat` is the time of the last change of a file, none on an error; `lines` are
-- the lines that a scanner reads, none where the file cannot be opened or read to its end.
pub record Surroundings : Type 0 where
  pub getenv : Text → Text
  pub stat : Text → Option ℕ
  pub now : ℕ
  pub glob : Text → List Text
  pub lines : Text → Option (List Text)

unfoldable pub new : Options → Impl
new o = record {
  path = o.path;
  env = o.env;
  refresh = positive_or 5000000000 o.refresh;
  last = 0;
  mtime = 0;
  cache = [];
}

-- The loop of `loadFile` over the lines.
unfoldable pub line_seeds : List Text → List Text
unfolding clean split trim_space
line_seeds [] = []
line_seeds (l ∷ ls) =
    let rest = line_seeds ls in
    let line = trim_space l in
    if is_empty line || has_prefix (codes "#") line then rest else clean (split b',' line) ++ rest

-- `loadFile`
unfoldable pub load_file : Surroundings → Text → List Text
unfolding line_seeds sort_texts distinct
load_file w path = elim (w.lines path) [
  | none ↦ []
  | some ls ↦ sort_texts (distinct (line_seeds ls))
]

-- `parseSeeds`
unfoldable pub parse_seeds : Text → List Text
unfolding clean split sort_texts
parse_seeds csv = if is_empty csv then [] else sort_texts (clean (split b',' csv))

-- What the loop over the matches of a pattern puts into `set`, in some order and with repetitions.
unfoldable pub load_matches : Surroundings → List Text → List Text
unfolding load_file
load_matches w [] = []
load_matches w (m ∷ ms) = load_file w m ++ load_matches w ms

unfoldable pub uses_env : Surroundings → Impl → Bool
unfolding trim_space
uses_env w i = not (is_empty i.env) && not (is_empty (trim_space (w.getenv i.env)))

-- The part of `Seeds` behind the environment variable and the test of the path.
unfoldable pub file_seeds : Surroundings → Impl → List Text × Impl
unfolding load_matches sort_texts distinct
file_seeds w i = elim (w.stat i.path) [
  | some changed ↦
      (if ltb i.mtime changed || leb (i.last + i.refresh) w.now
        then (
          load_file w i.path,
          record i { cache = load_file w i.path; last = w.now; mtime = changed },
        )
        else (i.cache, i))
  | none ↦
      (let out = sort_texts (distinct (load_matches w (w.glob i.path))) in
        if is_empty (w.glob i.path)
        then (i.cache, i)
        else (out, record i { cache = out; last = w.now }))
]

-- `Seeds`
unfoldable pub seeds : Surroundings → Impl → List Text × Impl
unfolding uses_env parse_seeds file_seeds
seeds w i =
    if uses_env w i
    then (parse_seeds (trim_space (w.getenv i.env)), i)
    else if is_empty i.path
    then ([], i)
    else file_seeds w i
