-- ===== src/Discovery/File/Loading.antt =====
-- What a file of seeds is loaded to.
use go_cluster.Prelude.{
  Text, text_is_eq, ◌≡◌, sym, ◌∙◌, List, Option-cases, inl, inr, contains, some,
}
use go_cluster.Discovery.Texts.{distinct}
use go_cluster.Discovery.Ordering.{
  IsAscending, contains-sort_texts, contains-distinct, distinct-IsDistinct, sort_texts-IsAscending,
  ascending_unique,
}
use go_cluster.Discovery.File.{Surroundings, line_seeds, load_file}

pub load_file-IsAscending : (w : Surroundings) (path : Text) → IsAscending (load_file w path)
unfolding load_file
load_file-IsAscending w path = elim (Option-cases (w.lines path)) [
  | inl e ↦ rw (load_file, e) tt
  | inr (ls, e) ↦
      rw (load_file, e)
        (sort_texts-IsAscending (distinct (line_seeds ls)) (distinct-IsDistinct (line_seeds ls)))
]

contains-load_file :
    (w : Surroundings) (path x : Text) (ls : List Text)
    → w.lines path ≡ some ls
    → contains x (load_file w path) ≡ contains x (line_seeds ls)
unfolding load_file
contains-load_file w path x ls e =
    rw (load_file, e)
      (contains-sort_texts x (distinct (line_seeds ls)) ∙ contains-distinct x (line_seeds ls))

-- A file is loaded to the one ascending list whose elements are the seeds of its lines.
pub load_file_unique :
    (w : Surroundings) (path : Text) (ls l : List Text)
    → w.lines path ≡ some ls
    → IsAscending l
    → ((x : Text) → contains x l ≡ contains x (line_seeds ls))
    → load_file w path ≡ l
load_file_unique w path ls l e s same =
    ascending_unique (load_file w path) l (load_file-IsAscending w path) s
      (λ x. contains-load_file w path x ls e ∙ sym (same x))
