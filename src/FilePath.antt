-- ===== src/FilePath.antt =====
-- src/common/utils.cpp: `simplify_path` and `get_parent_path`, over what they use of
-- `std::filesystem::path` on a POSIX system (`lexically_normal`, `parent_path`, `filename`).
pub mod Normal
use thesis_dfs.Prelude.{
  ℕ, Text, codes, text_eq, Bool, true, false, ◌&&◌, ◌||◌, List, [], ◌∷◌, ◌++◌, reverse, ◌==◌,
  if◌then◌else◌,
}
use thesis_dfs.Prelude.Split.{split, join, is_empty}

abbrev pub slash : ℕ
slash = b'/'

abbrev pub dot : Text
dot = b'.' ∷ []

abbrev pub dot_dot : Text
dot_dot = b'.' ∷ b'.' ∷ []

abbrev pub is_absolute : Text → Bool
is_absolute [] = false
is_absolute (c ∷ t) = c == slash

-- What a dot-dot does to the components before it, the last one first.
unfoldable pub up : Bool → List Text → List Text
up true [] = []
up false [] = dot_dot ∷ []
up absolute (q ∷ stack) = if text_eq q dot_dot then dot_dot ∷ q ∷ stack else stack

unfoldable pub push : Bool → List Text → Text → List Text
push absolute stack p =
    if is_empty p || text_eq p dot
    then stack
    else if text_eq p dot_dot
    then up absolute stack
    else p ∷ stack

unfoldable pub push_all : Bool → List Text → List Text → List Text
push_all absolute stack [] = stack
push_all absolute stack (p ∷ ps) = push_all absolute (push absolute stack p) ps

-- The last component is empty, a dot or a dot-dot, so what stands before it ends in a separator.
ends_open : List Text → Bool
ends_open [] = false
ends_open (p ∷ []) = is_empty p || text_eq p dot || text_eq p dot_dot
ends_open (p ∷ q ∷ ps) = ends_open (q ∷ ps)

-- The separator that the normal form keeps at its end.
unfoldable pub tail_slash : Bool → List Text → Text
tail_slash open_end [] = []
tail_slash open_end (q ∷ stack) =
    if open_end then (if text_eq q dot_dot then [] else slash ∷ []) else []

unfoldable pub or_dot : Text → Text
or_dot [] = dot
or_dot (c ∷ t) = c ∷ t

unfoldable pub root_slash : Bool → Text
root_slash true = slash ∷ []
root_slash false = []

unfoldable pub lexically_normal : Text → Text
unfolding up push push_all ends_open tail_slash or_dot root_slash text_eq split join
lexically_normal [] = []
lexically_normal (c ∷ t) =
    let absolute = is_absolute (c ∷ t) in
    let stack = push_all absolute [] (split slash (c ∷ t)) in
    or_dot (
      root_slash absolute
      ++ (join slash (reverse stack) ++ tail_slash (ends_open (split slash (c ∷ t))) stack))

-- `if (res.size() > 1 && res.back() == '/') res.pop_back();`, on the text backwards.
unfoldable pub pop_slash : Text → Text
pop_slash [] = []
pop_slash (c ∷ []) = c ∷ []
pop_slash (c ∷ d ∷ t) = if c == slash then d ∷ t else c ∷ d ∷ t

unfoldable pub simplify_path : Text → Text
unfolding lexically_normal pop_slash
simplify_path path = reverse (pop_slash (reverse (lexically_normal path)))

-- On a text backwards: the part before the first separator, and the rest with it.
take_name : Text → Text
take_name [] = []
take_name (c ∷ t) = let more = take_name t in if c == slash then [] else c ∷ more

drop_name : Text → Text
drop_name [] = []
drop_name (c ∷ t) = let more = drop_name t in if c == slash then c ∷ t else more

drop_slashes : Text → Text
drop_slashes [] = []
drop_slashes (c ∷ t) = let more = drop_slashes t in if c == slash then more else c ∷ t

-- A text of separators alone is the root directory, which is its own parent.
or_root : Text → Text → Text
or_root [] [] = []
or_root (c ∷ t) [] = slash ∷ []
or_root before (d ∷ u) = d ∷ u

unfoldable pub filename : Text → Text
unfolding take_name
filename path = reverse (take_name (reverse path))

unfoldable pub get_parent_path : Text → Text
unfolding drop_name drop_slashes or_root
get_parent_path path =
    let front = drop_name (reverse path) in reverse (or_root front (drop_slashes front))
