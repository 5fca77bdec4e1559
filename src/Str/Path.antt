-- ===== src/Str/Path.antt =====
-- `pathlib.PurePosixPath`: a path is whether it starts at the root, and its parts. The special root
-- `//` is read as `/`.
use tai_mcp_ssh.Prelude.{
  Bool, true, false, not, ◌&&◌, ◌||◌, List, [], ◌∷◌, ◌++◌, ◌==◌, if◌then◌else◌, Text, codes,
  text_eq, select,
}
use tai_mcp_ssh.Str.Chars.{split, join}

pub record PurePath : Type 0 where
  pub rooted : Bool
  pub parts : List Text

-- a part that stays: neither empty nor `.`
is_part_kept : Text → Bool
is_part_kept s = not (text_eq s [] || text_eq s (codes "."))

starts_at_root : Text → Bool
starts_at_root [] = false
starts_at_root (c ∷ s) = c == b'/'

-- `Path(s)`
unfoldable pub path_of : Text → PurePath
unfolding is_part_kept starts_at_root
path_of s = record { rooted = starts_at_root s; parts = select is_part_kept (split b'/' s) }

-- `p / q`
unfoldable pub join_path : PurePath → PurePath → PurePath
join_path p q = if q.rooted then q else record { rooted = p.rooted; parts = p.parts ++ q.parts }

last_part : List Text → Text
last_part [] = []
last_part (p ∷ []) = p
last_part (p ∷ q ∷ ps) = last_part (q ∷ ps)

-- `p.name`
unfoldable pub path_name : PurePath → Text
unfolding last_part
path_name p = last_part p.parts

but_last : List Text → List Text
but_last [] = []
but_last (p ∷ []) = []
but_last (p ∷ q ∷ ps) = p ∷ but_last (q ∷ ps)

-- `p.parent`
unfoldable pub parent : PurePath → PurePath
unfolding but_last
parent p = record p { parts = but_last p.parts }

-- `str(p)`
unfoldable pub path_text : PurePath → Text
path_text p = if p.rooted then b'/' ∷ join (codes "/") p.parts else join (codes "/") p.parts

unfoldable pub starts_with : List Text → List Text → Bool
starts_with [] ps = true
starts_with (r ∷ rs) [] = false
starts_with (r ∷ rs) (p ∷ ps) = text_eq r p && starts_with rs ps

same_root : Bool → Bool → Bool
same_root true b = b
same_root false b = not b

-- `p.is_relative_to(root)`
unfoldable pub is_relative_to : PurePath → PurePath → Bool
unfolding same_root
is_relative_to p root = same_root root.rooted p.rooted && starts_with root.parts p.parts
