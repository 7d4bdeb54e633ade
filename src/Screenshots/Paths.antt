-- ===== src/Screenshots/Paths.antt =====
-- Paths of pathlib, as scripts/screenshot_ui.py uses them.
use owon_xdm1041_server.Base.{
  Bool, true, false, Option, none, some, List, [], ◌∷◌, ◌++◌, if◌then◌else◌, Text, codes, text_eq,
}

-- A path of pathlib by its parts.
pub record FilePath : Type 0 where
  pub absolute : Bool
  pub parts : List Text

-- `path / name`
abbrev pub child : FilePath → Text → FilePath
child path name = record path { parts = path.parts ++ (name ∷ []) }

abbrev pub after_slashes : List Text → Text
after_slashes [] = []
after_slashes (part ∷ parts) = b'/' ∷ (part ++ after_slashes parts)

abbrev pub parts_text : Bool → List Text → Text
parts_text true [] = codes "/"
parts_text true (part ∷ parts) = after_slashes (part ∷ parts)
parts_text false [] = codes "."
parts_text false (part ∷ parts) = part ++ after_slashes parts

-- `str(path)`
unfoldable pub path_text : FilePath → Text
path_text path = parts_text path.absolute path.parts

-- The parts of a path below the parts of another, if it is below it.
unfoldable pub parts_below : List Text → List Text → Option (List Text)
parts_below [] parts = some parts
parts_below (above ∷ root) [] = none
parts_below (above ∷ root) (part ∷ parts) =
    let below = parts_below root parts in if text_eq part above then below else none

-- `path.relative_to(root)`, where `path.is_relative_to(root)`.
unfoldable pub relative_to : FilePath → FilePath → Option FilePath
relative_to path root =
    if path.absolute
    then (elim (parts_below root.parts path.parts) [
      | none ↦ none
      | some parts ↦ some (record { absolute = false; parts = parts })
    ])
    else none
