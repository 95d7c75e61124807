-- ===== src/Guest/Access/Revocation.antt =====
-- The changes of a gallery's credentials by its owner (app/galleries/management.py) and the
-- sessions that guests were granted before them (app/guest/service.py).
use native.Mathlib.Nat.{le_trans}
use picture_stage.Base.{
  ◌∙◌, All-find_where, All-update_where, ℕ, ◌+◌, ◌≤◌, ◌≡◌, refl, Option, none, some, List, [], ◌∷◌,
  All, arith, find_where,
}
use picture_stage.Base.Results.{ok}
use picture_stage.Models.{Gallery, ShareSession, Database, Crypto, gallery_is}
use picture_stage.Gallery.Share.{Command, apply_command, run_command, is_owned}
use picture_stage.Gallery.Share.Credentials.{
  apply_command-epoch, apply_command-id, run_command_safe, run_command-db,
}
use picture_stage.Guest.Access.{current_share_session, is_current}

-- No session of a gallery was granted under an epoch that is still to come.
abbrev pub IsBounded : Gallery → ShareSession → Type 0
IsBounded g s = s.gallery_id ≡ g.id → s.authorization_epoch ≤ g.authorization_epoch

none_current :
    (now id : ℕ) (g g' : Gallery) (rows : List ShareSession)
    → g'.id ≡ g.id
    → g'.authorization_epoch ≡ g.authorization_epoch + 1
    → All (IsBounded g) rows
    → find_where (is_current now g' id) rows ≡ none
none_current now id g g' [] same next h = refl
none_current now id g g' (s ∷ rows) same next h =
    ground (arith, h.0, none_current now id g g' rows same next h.1)

-- No session anywhere was granted under an epoch that its gallery has not reached.
abbrev pub EpochsBounded : Database → Type 0
EpochsBounded db = All (λ g. All (IsBounded g) db.share_sessions) db.galleries

IsBounded-mono :
    (g g' : Gallery) (rows : List ShareSession)
    → g'.id ≡ g.id
    → g.authorization_epoch ≤ g'.authorization_epoch
    → All (IsBounded g) rows
    → All (IsBounded g') rows
IsBounded-mono g g' [] same le h = tt
IsBounded-mono g g' (s ∷ rows) same le h =
    (λ q. le_trans (h.0 (q ∙ same)) le, IsBounded-mono g g' rows same le h.1)

module _ (c : Crypto) (command : Command) (gallery owner : ℕ) (db : Database) where
  -- Where no session is ahead of its gallery's epoch, creating, revoking or rotating a link and
  -- changing a password each revoke every session that any guest held: afterwards no session id is
  -- current in the gallery, at any time.
  pub run_command-revokes :
      {r : Gallery × Database}
      → EpochsBounded db
      → run_command c command gallery owner db ≡ ok r
      → (session : Option ℕ) (now : ℕ) → current_share_session r.0 session now r.1 ≡ none
  unfolding current_share_session
  run_command-revokes bounded e none now = refl
  run_command-revokes bounded e (some id) now =
      let (g, found, _, _, new) = run_command_safe c command gallery owner db e in
      rw (run_command-db c command gallery owner db e, new)
        (none_current now id g (apply_command c command g) db.share_sessions
          (apply_command-id c command g) (apply_command-epoch c command g)
          (All-find_where (λ g. All (IsBounded g) db.share_sessions) (is_owned gallery owner)
            db.galleries bounded found))

  -- A credential command keeps every session's epoch at or below its gallery's.
  pub run_command-EpochsBounded :
      {r : Gallery × Database}
      → EpochsBounded db
      → run_command c command gallery owner db ≡ ok r
      → EpochsBounded r.1
  run_command-EpochsBounded bounded e = rw (run_command-db c command gallery owner db e) (
      All-update_where (λ g. All (IsBounded g) db.share_sessions) (gallery_is gallery)
        (apply_command c command) db.galleries
        (λ g t h.
          IsBounded-mono g (apply_command c command g) db.share_sessions
            (apply_command-id c command g) (omega (arith, apply_command-epoch c command g)) h)
        bounded)
