-- ===== src/Git/Paths.antt =====
-- The part of pathlib.PurePosixPath that git/client.py and services/verify.py use. A path that
-- begins with two slashes is read as one that begins with one.
use bonerepo.Prelude.{Bool, true, false, not, ◌&&◌, ◌||◌, List, [], ◌∷◌, ◌++◌, if◌then◌else◌}
use bonerepo.Prelude.Texts.{Text, codes, text_eq, is_empty, split_on, starts_with}

-- The names of a path, the innermost first.
pub record PurePath : Type 0 where
  pub absolute : Bool
  pub names : List Text

-- An empty name and a single dot are dropped.
unfoldable pub is_name : Text → Bool
unfolding is_empty text_eq
is_name s = not (is_empty s || text_eq s (codes "."))

unfoldable pub collect : List Text → List Text → List Text
unfolding is_name
collect names [] = names
collect names (s ∷ rest) = collect (if is_name s then s ∷ names else names) rest

-- Path(s)
unfoldable pub path_of : Text → PurePath
unfolding collect split_on starts_with
path_of s = record { absolute = starts_with (codes "/") s; names = collect [] (split_on b'/' s) }

-- p / q
unfoldable pub join : PurePath → PurePath → PurePath
join p q = if q.absolute then q else record p { names = q.names ++ p.names }

unfoldable pub tail : List Text → List Text
tail [] = []
tail (name ∷ names) = names

-- p.parent
unfoldable pub parent : PurePath → PurePath
unfolding tail
parent p = record p { names = tail p.names }

unfoldable pub joined : List Text → Text
joined [] = []
joined (name ∷ []) = name
joined (name ∷ next ∷ names) = joined (next ∷ names) ++ b'/' ∷ name

-- p.as_posix()
unfoldable pub as_posix : PurePath → Text
unfolding joined is_empty
as_posix p =
    if p.absolute
    then b'/' ∷ joined p.names
    else if is_empty (joined p.names)
    then codes "."
    else joined p.names

unfoldable pub same_names : List Text → List Text → Bool
unfolding text_eq
same_names [] [] = true
same_names (a ∷ p) (b ∷ q) = text_eq a b && same_names p q
same_names _ _ = false
