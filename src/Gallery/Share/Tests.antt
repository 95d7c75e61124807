-- ===== src/Gallery/Share/Tests.antt =====
-- The credential commands on one gallery, with a hash that keeps its input.
use picture_stage.Base.{◌≡◌, refl, true, none, some, [], ◌∷◌, bytes_eq, bytes_eq_refl}
use picture_stage.Base.Results.{ok, err}
use picture_stage.Models.{Crypto, Gallery, Database, draft, shared, completed}
use picture_stage.Gallery.Status.{change_gallery_status, not_found}
use picture_stage.Gallery.Share.{create, revoke, apply_command, run_command, create_share_link}
use picture_stage.Gallery.Share.Credentials.{
  HasLink, linked, unlinked, apply_command-HasLink, change_gallery_status-HasLink,
}

abbrev plain : Crypto
plain = record {
  sha256 = λ s. s;
  checkpw = bytes_eq;
  hashpw = λ s. s;
  checkpw-hashpw = bytes_eq_refl;
}

abbrev fresh : Gallery
fresh = record {
  id = 5;
  owner_id = 1;
  status = draft;
  share_token_hash = none;
  share_token_salt = none;
  share_token = none;
  share_token_lookup = none;
  password_hash = none;
  expires_at = none;
  authorization_epoch = 0;
}

abbrev one_gallery : Database
one_gallery = record {
  pending_signups = [];
  revoked_tokens = [];
  upload_cleanup_intents = [];
  users = [];
  galleries = fresh ∷ [];
  images = [];
  share_sessions = [];
  checkpoints = λ _. none;
  selection_events = [];
  current_selections = λ _. none;
  audit_log = [];
  next_event_id = 0;
}

fresh-HasLink : HasLink plain fresh
fresh-HasLink = unlinked refl refl refl refl (λ e. cc)

apply_command-HasLink_example :
    HasLink plain (apply_command plain (create (7 ∷ []) (8 ∷ []) none) fresh)
apply_command-HasLink_example =
    apply_command-HasLink plain (create (7 ∷ []) (8 ∷ []) none) fresh fresh-HasLink

abbrev published : Gallery
published = record fresh {
  status = shared;
  share_token_hash = some (7 ∷ 8 ∷ []);
  share_token_salt = some (8 ∷ []);
  share_token = some (7 ∷ []);
  share_token_lookup = some (7 ∷ []);
  authorization_epoch = 1;
}

change_gallery_status-HasLink_example : HasLink plain (record published { status = completed })
unfolding change_gallery_status
change_gallery_status-HasLink_example =
    change_gallery_status-HasLink plain published (record published { status = completed })
      completed true (linked (7 ∷ []) (8 ∷ []) refl refl refl refl) refl

stranger_refused : run_command plain revoke 5 2 one_gallery ≡ err not_found
unfolding run_command
stranger_refused = refl

abbrev published_database : Database
published_database = record one_gallery { galleries = published ∷ [] }

publish :
    run_command plain (create (7 ∷ []) (8 ∷ []) none) 5 1 one_gallery
    ≡ ok (published, published_database)
unfolding run_command
publish = refl

abbrev protected : Gallery
protected = record published { password_hash = some (9 ∷ []) }

create_protected :
    create_share_link plain (some (9 ∷ [])) (7 ∷ []) (8 ∷ []) 5 1 one_gallery
    ≡ ok (
      record { token = 7 ∷ []; has_password = true },
      protected,
      record one_gallery { galleries = protected ∷ [] },
    )
unfolding create_share_link
create_protected = refl

create_unprotected :
    create_share_link plain (some []) (7 ∷ []) (8 ∷ []) 5 1 one_gallery
    ≡ ok (record { token = 7 ∷ []; has_password = true }, published, published_database)
unfolding create_share_link
create_unprotected = refl
