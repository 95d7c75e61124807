-- ===== src/Selections/Tests.antt =====
-- Selections of one image in two orders.
use mathlib.Core.List.Perm
use picture_stage.Base.{◌≡◌, refl, none, some, false, List, [], ◌∷◌, arith}
use picture_stage.Models.{SelectionEvent, deselect}
use picture_stage.Examples.{selected_event}
use picture_stage.Selections.{project, replay, row_or_default}
use picture_stage.Selections.Order.{replay-perm, DistinctIds}
use picture_stage.Selections.Latest.{IsNewest, IsIn, replay-IsNewest}

abbrev deselected_event : SelectionEvent
deselected_event = record selected_event { id = 2; action = deselect; created_at = 600 }

abbrev log : List SelectionEvent
log = selected_event ∷ deselected_event ∷ []

log-DistinctIds : DistinctIds log
log-DistinctIds = ground arith

-- The later event wins although its insert comes first.
late_select_loses :
    (row_or_default (replay (deselected_event ∷ selected_event ∷ []) (λ _. none) 70)).selected
    ≡ record { value = false; version = some (600, 2) }
unfolding replay project
late_select_loses = refl

replay-perm_example :
    replay log (λ _. none) ≡ replay (deselected_event ∷ selected_event ∷ []) (λ _. none)
replay-perm_example =
    replay-perm log (deselected_event ∷ selected_event ∷ []) (λ _. none)
      (Perm.swap deselected_event selected_event []) log-DistinctIds

replay-IsNewest_example :
    IsNewest 70 (λ x. IsIn x log) (row_or_default (replay log (λ _. none) 70)).selected
replay-IsNewest_example = replay-IsNewest 70 log
