-- ===== src/Restore/Archive.antt =====
-- app/cli/restore_archive.py: which members of a backup's archive are extracted, and where to. A
-- member is given by its parsed header, so that the guards inside the gzip and tar parsers, the
-- deadline and the contents of the files are left out. A name is a list of code points.
pub mod Placed
pub mod Extraction
mod Tests
use picture_stage.Base.{
  ℕ, ◌+◌, ◌≡◌, Bool, true, false, not, ◌&&◌, ◌||◌, Option, none, some, List, [], ◌∷◌, ◌++◌, Bytes,
  bytes_eq, length, any, contains, is_empty, ltb, leb, ◌==◌, if◌then◌else◌,
}
use picture_stage.Base.Results.{Result, ok, err, raise_if, or_raise, ◌>>=◌, ◌>>◌}
use picture_stage.Security.Csrf.{rstrip}
use picture_stage.Lookup.SignupToken.{split}

-- The limits of `RestoreLimits` that a header is held against.
pub record RestoreLimits : Type 0 where
  pub file_bytes : ℕ
  pub objects : ℕ
  pub path_depth : ℕ
  pub path_bytes : ℕ
  pub json_bytes : ℕ

pub data Error : Type 0 where
  file_limit not_utf8 path_limit invalid_path unsupported_root : Error
  unsupported_member duplicate_target invalid_directory images_not_directory : Error
  json_limit conflicting_targets object_limit : Error

abbrev pub Parts : Type 0
Parts = List Bytes

abbrev pub paths_eq : Parts → Parts → Bool
paths_eq [] [] = true
paths_eq [] (_ ∷ _) = false
paths_eq (_ ∷ _) [] = false
paths_eq (a ∷ s) (b ∷ t) = bytes_eq a b && paths_eq s t

-- The bytes of a code point; a surrogate has none.
unfoldable pub utf8_size : ℕ → Option ℕ
utf8_size a =
    if ltb a 128
    then some 1
    else if ltb a 2048
    then some 2
    else if leb 55296 a && leb a 57343
    then none
    else if ltb a 65536
    then some 3
    else some 4

abbrev pub plus_size : Option ℕ → Option ℕ → Option ℕ
plus_size (some a) (some b) = some (a + b)
plus_size _ _ = none

-- `len(name.encode("utf-8"))`
unfoldable pub encoded_size : Bytes → Option ℕ
unfolding utf8_size
encoded_size [] = some 0
encoded_size (a ∷ name) = plus_size (utf8_size a) (encoded_size name)

-- `part in ("", ".", "..")`
abbrev pub is_relative : Bytes → Bool
is_relative part = is_empty part || bytes_eq part (46 ∷ []) || bytes_eq part (46 ∷ 46 ∷ [])

-- `images`, and the names of the four files at the root.
abbrev pub images_name : Bytes
images_name = 105 ∷ 109 ∷ 97 ∷ 103 ∷ 101 ∷ 115 ∷ []

abbrev pub metadata_name : Bytes
metadata_name = 109 ∷ 101 ∷ 116 ∷ 97 ∷ 100 ∷ 97 ∷ 116 ∷ 97 ∷ 46 ∷ 106 ∷ 115 ∷ 111 ∷ 110 ∷ []

abbrev pub manifest_name : Bytes
manifest_name = 109 ∷ 97 ∷ 110 ∷ 105 ∷ 102 ∷ 101 ∷ 115 ∷ 116 ∷ 46 ∷ 106 ∷ 115 ∷ 111 ∷ 110 ∷ []

abbrev pub dump_name : Bytes
dump_name = 100 ∷ 98 ∷ 46 ∷ 100 ∷ 117 ∷ 109 ∷ 112 ∷ []

abbrev pub sql_name : Bytes
sql_name = 100 ∷ 98 ∷ 46 ∷ 115 ∷ 113 ∷ 108 ∷ []

abbrev pub is_json : Bytes → Bool
is_json part = bytes_eq part metadata_name || bytes_eq part manifest_name

abbrev pub is_supported_root : Parts → Bool
is_supported_root [] = false
is_supported_root (root ∷ []) =
    bytes_eq root images_name || is_json root || bytes_eq root dump_name || bytes_eq root sql_name
is_supported_root (root ∷ _ ∷ _) = bytes_eq root images_name

-- `_target`
unfoldable pub target : RestoreLimits → Bytes → Result Error Parts
unfolding encoded_size
target limits name = do
  size ← or_raise (encoded_size name) not_utf8
  raise_if (ltb limits.path_bytes size || ltb limits.path_depth (length (split 47 (rstrip name))))
      path_limit
  raise_if (any is_relative (split 47 (rstrip name)) || contains 0 name || contains 92 name)
      invalid_path
  raise_if (not (is_supported_root (split 47 (rstrip name)))) unsupported_root
  ok (split 47 (rstrip name))

pub data Kind : Type 0 where
  directory regular other_kind : Kind

pub record Member : Type 0 where
  pub kind : Kind
  pub is_sparse : Bool
  pub name : Bytes
  pub size : ℕ

abbrev pub is_dir : Kind → Bool
is_dir directory = true
is_dir _ = false

abbrev pub is_other : Kind → Bool
is_other other_kind = true
is_other _ = false

abbrev pub root_is : (Bytes → Bool) → Parts → Bool
root_is test [] = false
root_is test (root ∷ _) = test root

-- `objects`: each path, with whether it is a directory.
abbrev pub Objects : Type 0
Objects = List (Parts × Bool)

abbrev pub find_object : Parts → Objects → Option Bool
find_object path [] = none
find_object path ((p, dir) ∷ objects) =
    let rest = find_object path objects in if paths_eq p path then some dir else rest

abbrev pub same_kind : Bool → Bool → Bool
same_kind true d = d
same_kind false d = not d

unfoldable pub add_object : Parts → Bool → Objects → Result Error Objects
add_object path dir objects = elim (find_object path objects) [
  | none ↦ ok ((path, dir) ∷ objects)
  | some known ↦ if same_kind known dir then ok objects else err conflicting_targets
]

-- Every prefix of a path is a directory, and the path is what its member is.
unfoldable pub add_paths : Parts → Parts → Bool → Objects → Result Error Objects
unfolding add_object
add_paths before [] dir objects = ok objects
add_paths before (part ∷ parts) dir objects =
    add_object (before ++ part ∷ []) (not (is_empty parts) || dir) objects
    >>= add_paths (before ++ part ∷ []) parts dir

pub record Progress : Type 0 where
  pub seen : List Parts
  pub objects : Objects
  -- The targets that were made, the last first, with whether each is a directory.
  pub made : List (Parts × Bool)

-- The checks of a header, and of a header with its target.
unfoldable pub check_member : RestoreLimits → Member → Result Error (Unit {0})
check_member limits m = do
  raise_if (ltb limits.file_bytes m.size) file_limit
  raise_if (is_other m.kind || m.is_sparse) unsupported_member

unfoldable pub check_target : RestoreLimits → Member → Parts → List Parts → Result Error (Unit {0})
check_target limits m parts seen = do
  raise_if (any (paths_eq parts) seen) duplicate_target
  raise_if (is_dir m.kind && (not (root_is (bytes_eq images_name) parts) || not (m.size == 0)))
      invalid_directory
  raise_if (not (is_dir m.kind) && paths_eq parts (images_name ∷ [])) images_not_directory
  raise_if (root_is is_json parts && ltb limits.json_bytes m.size) json_limit

abbrev pub made_at : Member → Parts → Objects → Progress → Progress
made_at m parts objects p = record {
  seen = parts ∷ p.seen;
  objects = objects;
  made = (parts, is_dir m.kind) ∷ p.made;
}

-- One turn of the loop of `extract_archive`.
unfoldable pub extract_member : RestoreLimits → Member → Progress → Result Error Progress
extract_member limits m p = do
  check_member limits m
  parts ← target limits m.name
  check_target limits m parts p.seen
  objects ← add_paths [] parts (is_dir m.kind) p.objects
  raise_if (ltb limits.objects (length objects)) object_limit
  ok (made_at m parts objects p)

unfoldable pub extract_archive : RestoreLimits → List Member → Progress → Result Error Progress
extract_archive limits [] p = ok p
extract_archive limits (m ∷ members) p =
    extract_member limits m p >>= extract_archive limits members
