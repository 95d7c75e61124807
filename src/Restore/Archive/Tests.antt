-- ===== src/Restore/Archive/Tests.antt =====
-- An archive with one image, and one that climbs out of its directory.
use picture_stage.Base.{◌≡◌, refl, true, false, [], ◌∷◌, ◌++◌, All}
use picture_stage.Base.Results.{ok, err}
use picture_stage.Security.Csrf.{rstrip}
use picture_stage.Lookup.SignupToken.{split}
use picture_stage.Restore.Archive.{
  RestoreLimits, images_name, directory, regular, Member, Progress, target, add_paths, check_member,
  check_target, extract_member, extract_archive, invalid_path, duplicate_target, unsupported_root,
}
use picture_stage.Restore.Archive.Extraction.{IsSafe, extract_archive-IsSafe}

abbrev limits : RestoreLimits
limits = record {
  file_bytes = 1000;
  objects = 10;
  path_depth = 16;
  path_bytes = 4096;
  json_bytes = 100;
}

abbrev nothing : Progress
nothing = record { seen = []; objects = []; made = [] }

-- `images/` and `images/a`.
abbrev folder : Member
folder = record { kind = directory; is_sparse = false; name = images_name ++ 47 ∷ []; size = 0 }

abbrev file : Member
file = record { kind = regular; is_sparse = false; name = images_name ++ 47 ∷ 97 ∷ []; size = 9 }

abbrev extracted : Progress
extracted = record {
  seen = (images_name ∷ (97 ∷ []) ∷ []) ∷ (images_name ∷ []) ∷ [];
  objects = (images_name ∷ (97 ∷ []) ∷ [], false) ∷ (images_name ∷ [], true) ∷ [];
  made = (images_name ∷ (97 ∷ []) ∷ [], false) ∷ (images_name ∷ [], true) ∷ [];
}

is_extracted : extract_archive limits (folder ∷ file ∷ []) nothing ≡ ok extracted
unfolding extract_archive extract_member check_member check_target target add_paths rstrip split
is_extracted = refl

extract_archive-IsSafe_example : All (IsSafe limits extracted.objects) extracted.made
extract_archive-IsSafe_example =
    extract_archive-IsSafe limits (folder ∷ file ∷ []) nothing tt is_extracted

-- `images/../a`
climbing_refused : target limits (images_name ++ 47 ∷ 46 ∷ 46 ∷ 47 ∷ 97 ∷ []) ≡ err invalid_path
unfolding target rstrip split
climbing_refused = refl

other_root_refused : target limits (97 ∷ []) ≡ err unsupported_root
unfolding target rstrip split
other_root_refused = refl

again_refused : extract_archive limits (file ∷ file ∷ []) nothing ≡ err duplicate_target
unfolding extract_archive extract_member check_member check_target target add_paths rstrip split
again_refused = refl
