-- ===== src/Selections.antt =====
-- The review state of images: the projection of selection events in app/db/models.py
-- (`_project_selection_event`, which runs after each insert), and the reads of
-- app/selections/service.py.
pub mod Order
pub mod Latest
mod Tests
use picture_stage.Base.{
  ℕ, Bool, true, false, ◌&&◌, ◌||◌, Option, none, some, List, [], ◌∷◌, map, filter, count_where,
  Bytes, find_where, any, ltb, leb, ◌==◌, if◌then◌else◌,
}
use picture_stage.Base.Results.{Result, ok, err, raise_if}
use picture_stage.Models.{
  SelectionAction, select, deselect, favorite, unfavorite, comment, SelectionEvent, Versioned,
  CurrentSelection, Image, Database,
}

-- SQL's `(a_at, a_id) < (b_at, b_id)`
abbrev pub version_lt : ℕ × ℕ → ℕ × ℕ → Bool
version_lt (a, i) (b, j) = ltb a b || a == b && ltb i j

abbrev pub is_newer : ℕ × ℕ → Option (ℕ × ℕ) → Bool
is_newer n none = true
is_newer n (some v) = version_lt v n

-- The update of one dimension, under the `where` of the upsert.
unfoldable pub upsert : {V : Type 0} → V → ℕ × ℕ → Versioned V → Versioned V
upsert v n d = if is_newer n d.version then record { value = v; version = some n } else d

-- A row with the column defaults, as an insert of one dimension completes it.
abbrev pub unrated : CurrentSelection
unrated = record {
  selected = record { value = false; version = none };
  favorited = record { value = false; version = none };
  comment = record { value = none; version = none };
}

abbrev pub row_or_default : Option CurrentSelection → CurrentSelection
row_or_default none = unrated
row_or_default (some s) = s

abbrev pub version_of : SelectionEvent → ℕ × ℕ
version_of e = (e.created_at, e.id)

-- What an event does to the row of its image; `none` is a comment event without a comment, which
-- writes nothing.
unfoldable pub apply_action :
    SelectionAction → Option Bytes → ℕ × ℕ → CurrentSelection → Option CurrentSelection
unfolding upsert
apply_action select _ n s = some (record s { selected = upsert true n s.selected })
apply_action deselect _ n s = some (record s { selected = upsert false n s.selected })
apply_action favorite _ n s = some (record s { favorited = upsert true n s.favorited })
apply_action unfavorite _ n s = some (record s { favorited = upsert false n s.favorited })
apply_action comment none n s = none
apply_action comment (some text) n s = some (record s { comment = upsert (some text) n s.comment })

abbrev pub Selections : Type 0
Selections = ℕ → Option CurrentSelection

abbrev keep_if_none : Option CurrentSelection → Option CurrentSelection → Option CurrentSelection
keep_if_none none old = old
keep_if_none (some s) _ = some s

-- `_project_selection_event`
unfoldable pub project : SelectionEvent → Selections → Selections
unfolding apply_action
project e t image =
    if image == e.image_id
    then keep_if_none (apply_action e.action e.comment (version_of e) (row_or_default (t image)))
        (t image)
    else t image

-- The projection of a whole log, oldest insert first.
unfoldable pub replay : List SelectionEvent → Selections → Selections
replay [] t = t
replay (e ∷ log) t = replay log (project e t)

-- `SelectionState`
pub record SelectionState : Type 0 where
  pub image_id : ℕ
  pub selected : Bool
  pub favorited : Bool
  pub comment : Option Bytes

-- `order_by(Image.sort_order, Image.id)`
unfoldable pub insert_image : Image → List Image → List Image
insert_image a [] = a ∷ []
insert_image a (b ∷ rows) =
    let rest = insert_image a rows in
    if version_lt (b.sort_order, b.id) (a.sort_order, a.id) then b ∷ rest else a ∷ b ∷ rows

unfoldable pub order_images : List Image → List Image
unfolding insert_image
order_images [] = []
order_images (a ∷ rows) = insert_image a (order_images rows)

abbrev pub state_of : Selections → Image → SelectionState
state_of t i =
    let s = row_or_default (t i.id) in
    record {
      image_id = i.id;
      selected = s.selected.value;
      favorited = s.favorited.value;
      comment = s.comment.value;
    }

unfoldable pub get_current_selections : ℕ → Database → List SelectionState
unfolding order_images
get_current_selections gallery db =
    map (state_of db.current_selections)
      (order_images (filter (λ i. i.gallery_id == gallery) db.images))

-- `SelectionHistoryFull`
pub data HistoryFull : Type 0 where
  history_full : HistoryFull

abbrev pub in_gallery : ℕ → Database → ℕ → Bool
in_gallery gallery db image = any (λ i. i.id == image && i.gallery_id == gallery) db.images

abbrev pub retained_events : ℕ → Database → ℕ
retained_events gallery db = count_where (λ e. in_gallery gallery db e.image_id) db.selection_events

unfoldable pub assert_selection_budget : ℕ → ℕ → Database → Result HistoryFull (Unit {0})
assert_selection_budget max_selection_events_per_gallery gallery db =
    raise_if (leb max_selection_events_per_gallery (retained_events gallery db)) history_full
