-- ===== src/Disk/Paths.antt =====
-- Names of files, as `std::path::Path` takes them apart.
use corsget.Prelude.{Bool, false, Option, none, some, [], ◌++◌, if◌then◌else◌, is_empty, last, ◌==◌}
use corsget.Text.{Text, text, text_eq, rsplit_once}

-- A directory in front of a name: no separator is added to an empty path, or behind one.
unfoldable pub dir_prefix : Text → Text
dir_prefix root = elim (last root) [
  | none ↦ []
  | some c ↦ if c == b'/' then root else root ++ text "/"
]

-- `root.join(name)` of a relative name.
abbrev pub join_path : Text → Text → Text
join_path root name = dir_prefix root ++ name

-- The stem and the extension of a file's name: a dot at the front begins no extension.
unfoldable pub split_name : Text → Text × Option Text
split_name name = if text_eq name (text "..") then (name, none) else elim (rsplit_once b'.' name) [
  | none ↦ (name, none)
  | some (stem, ext) ↦ if is_empty stem then (name, none) else (stem, some ext)
]

-- `path.file_stem()` and `path.extension()`.
abbrev pub file_stem : Text → Text
file_stem name = (split_name name).0

abbrev pub extension : Text → Option Text
extension name = (split_name name).1

-- `extension.and_then(to_str) == Some(wanted)`.
unfoldable pub has_extension : Text → Text → Bool
has_extension wanted name = elim (extension name) [ none ↦ false | some ext ↦ text_eq ext wanted ]
