-- ===== src/Selections/Order.antt =====
-- The projection of selection events (app/db/models.py) under different orders of the inserts.
use mathlib.Core.Path.{fun_ext, subst}
use mathlib.Core.Logic.{∥∥₁_elim}
use mathlib.Core.List.{Perm, Permᴰ}
use picture_stage.Base.{
  ℕ, ◌≡◌, refl, ◌≢◌, ◌∙◌, sym, ap, Option, none, some, List, [], ◌∷◌, Bytes, All, arith,
}
use picture_stage.Models.{
  SelectionAction, select, comment, SelectionEvent, Versioned, CurrentSelection,
}
use picture_stage.Selections.{Selections, upsert, apply_action, project, replay, row_or_default}

-- Two updates of one dimension with different versions: the newer one wins in both orders.
upsert_comm :
    {V : Type 0} (v w : V) (a i b j : ℕ) (d : Versioned V)
    → i ≢ j
    → upsert v (a, i) (upsert w (b, j) d) ≡ upsert w (b, j) (upsert v (a, i) d)
unfolding upsert
upsert_comm v w a i b j d ne = ground arith

-- The effect of an event on the row of its image.
abbrev step :
    SelectionAction → Option Bytes → ℕ × ℕ → Option CurrentSelection → Option CurrentSelection
step a c n row = elim (apply_action a c n (row_or_default row)) [ none ↦ row | some s ↦ some s ]

step_comm :
    (a b : SelectionAction) (c d : Option Bytes) (t i u j : ℕ) (row : Option CurrentSelection)
    → i ≢ j
    → step a c (t, i) (step b d (u, j) row) ≡ step b d (u, j) (step a c (t, i) row)
unfolding apply_action
step_comm select select c d t i u j row ne = ground arith
step_comm comment comment (some x) (some y) t i u j row ne = ground arith
step_comm a b c d t i u j row ne = ground arith

project_comm :
    (e f : SelectionEvent) (t : Selections)
    → e.id ≢ f.id
    → project e (project f t) ≡ project f (project e t)
unfolding project
project_comm e f t ne = fun_ext λ image. ground (
  arith,
  step_comm e.action f.action e.comment f.comment e.created_at e.id f.created_at f.id (t image),
)

-- No two events of a log share an id, which is their primary key.
abbrev pub DistinctIds : List SelectionEvent → Type 0
DistinctIds [] = Unit
DistinctIds (e ∷ log) = All (λ (f : SelectionEvent). e.id ≢ f.id) log × DistinctIds log

All-perm :
    (P : SelectionEvent → Type 0) {xs ys : List SelectionEvent} → Permᴰ xs ys → All P xs → All P ys
All-perm P Permᴰ.nil h = h
All-perm P (Permᴰ.cons e p) h = (subst P e h.0, All-perm P p h.1)
All-perm P (Permᴰ.swap e f) h = (subst P f h.1.0, (subst P e h.0, h.1.1))
All-perm P (Permᴰ.trans p q) h = All-perm P q (All-perm P p h)

DistinctIds-perm : {xs ys : List SelectionEvent} → Permᴰ xs ys → DistinctIds xs → DistinctIds ys
DistinctIds-perm Permᴰ.nil h = h
DistinctIds-perm (Permᴰ.cons {l₂ = ys} e p) h =
    (subst (λ a. All (λ f. a.id ≢ f.id) ys) e (All-perm _ p h.0), DistinctIds-perm p h.1)
DistinctIds-perm (Permᴰ.swap {l = l} e f) h = (
  (
    λ q. h.0.0 (ap (λ x. x.id) e ∙ sym q ∙ sym (ap (λ x. x.id) f)),
    subst (λ a. All (λ g. a.id ≢ g.id) l) f h.1.0,
  ),
  (subst (λ a. All (λ g. a.id ≢ g.id) l) e h.0.1, h.1.1),
)
DistinctIds-perm (Permᴰ.trans p q) h = DistinctIds-perm q (DistinctIds-perm p h)

replay-permᴰ :
    {xs ys : List SelectionEvent} (p : Permᴰ xs ys) (t : Selections)
    → DistinctIds xs
    → replay xs t ≡ replay ys t
unfolding replay
replay-permᴰ Permᴰ.nil t h = refl
replay-permᴰ (Permᴰ.cons e p) t h = rw e (replay-permᴰ p (project _ t) h.1)
replay-permᴰ (Permᴰ.swap {a = a} {b = b} {l = l} e f) t h =
    rw (← e, ← f) (ap (replay l) (project_comm b a t (λ q. h.0.0 (sym q))))
replay-permᴰ (Permᴰ.trans p q) t h = replay-permᴰ p t h ∙ replay-permᴰ q t (DistinctIds-perm p h)

Selections-set : IsSet Selections
Selections-set = hlevel

-- Two logs with the same events, each with its own id, leave the same review state, in whatever
-- order their inserts reach the table.
pub replay-perm :
    (xs ys : List SelectionEvent) (t : Selections)
    → Perm xs ys
    → DistinctIds xs
    → replay xs t ≡ replay ys t
replay-perm xs ys t p h = ∥∥₁_elim p (Selections-set _ _) (λ q. replay-permᴰ q t h)
