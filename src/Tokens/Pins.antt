-- ===== src/Tokens/Pins.antt =====
-- What a click and the pointer leave of the tooltip: a pinned cell keeps it.
use mathlib.Core.Path.{subst}
use cpa_keeper_dashboard.Prelude.{
  ◌≡◌, refl, Bool, true, false, Option, none, some, List, [], ◌∷◌, arith, Bool-cases, inl, inr, sym,
  ap, ◌∙◌,
}
use cpa_keeper_dashboard.Prelude.Sorting.{All}
use cpa_keeper_dashboard.Tokens.Pinned.{
  DetailCell, Tips, Place, in_cell, in_part, in_container, in_tooltip, elsewhere, is_cell,
  cell_content, container_over, document_over, container_out, document_out, by_pin, unpin,
  click_place, health_over, health_leave, TipEvent, mouse_over, clicked, mouse_out, over_health,
  leave_health, others_show, others_hide, tip_event, tip_events,
}

-- A pinned cell: its button alone is marked, and where the tooltip is still the cell's it is visible
-- with the cell's detail.
pub record Pins (own : Bool) (t : Tips) (c : DetailCell) : Type 0 where
  pub mark : t.pinned_marks ≡ c.id ∷ []
  pub shown : own ≡ true → t.is_visible ≡ true
  pub detail : own ≡ true → t.content ≡ some (cell_content c)

abbrev pub IsPinnedTo : Bool → Tips → Option DetailCell → Type 0
IsPinnedTo own t none = t.pinned_marks ≡ []
IsPinnedTo own t (some c) = Pins own t c

abbrev pub IsConsistent : Bool → Tips → Type 0
IsConsistent own t = IsPinnedTo own t t.pinned_trigger

-- Whether the tooltip is still the pinned cell's: a click outside of it leaves it so, and what another
-- listener writes does not.
abbrev pub stands : TipEvent → Bool → Bool
stands (mouse_over place) own = own
stands (mouse_out target related) own = own
stands (clicked in_tooltip) own = own
stands (clicked _) own = true
stands _ own = false

abbrev pub stands_all : List TipEvent → Bool → Bool
stands_all [] own = own
stands_all (e ∷ es) own = stands_all es (stands e own)

-- What a handler leaves alone that only a click may change.
abbrev Keeps : Tips → Tips → Type 0
Keeps t u = (u.pinned_trigger ≡ t.pinned_trigger) × (u.pinned_marks ≡ t.pinned_marks)

over-Keeps : (place : Place) (t : Tips) → Keeps t (document_over place (container_over place t))
unfolding document_over container_over
over-Keeps (in_cell c) t = (refl, refl)
over-Keeps (in_part p) t = ground arith
over-Keeps in_container t = (refl, refl)
over-Keeps in_tooltip t = (refl, refl)
over-Keeps elsewhere t = (refl, refl)

out-Keeps :
    (target related : Place) (t : Tips)
    → Keeps t (document_out target related (container_out target related t))
unfolding document_out container_out
out-Keeps target related t = ground arith

unpinned_lem :
    (own : Bool) (t u : Tips)
    → t.pinned_trigger ≡ none
    → Keeps t u
    → IsConsistent own t
    → IsConsistent own u
unpinned_lem own t u e k c =
    let unmarked = subst (IsPinnedTo own t) e c in
    subst (IsPinnedTo own u) (sym (k.0 ∙ e)) (k.1 ∙ unmarked)

-- A handler that writes the tooltip and no more.
overwritten_lem :
    (own : Bool) (t u : Tips) (o : Option DetailCell)
    → u.pinned_marks ≡ t.pinned_marks
    → IsPinnedTo own t o
    → IsPinnedTo false u o
overwritten_lem own t u none m c = m ∙ c
overwritten_lem own t u (some d) m c = record {
  mark = m ∙ c.mark;
  shown = λ e. absurd (ground (arith, e));
  detail = λ e. absurd (ground (arith, e));
}

by_pin-IsConsistent :
    (own : Bool) (o : Option DetailCell) (t u : Tips)
    → (o ≡ none → IsConsistent own t)
    → ((c : DetailCell) → o ≡ some c → IsConsistent own u)
    → IsConsistent own (by_pin o t u)
by_pin-IsConsistent own none t u h k = h refl
by_pin-IsConsistent own (some c) t u h k = k c refl

-- A click outside of the cells and the tooltip.
unpin-IsConsistent :
    (own : Bool) (o : Option DetailCell) (t : Tips)
    → t.pinned_trigger ≡ o
    → IsConsistent own t
    → IsConsistent true (by_pin o t (unpin t))
unpin-IsConsistent own none t e c = subst (IsPinnedTo true t) (sym e) (subst (IsPinnedTo own t) e c)
unpin-IsConsistent own (some d) t e c = refl

click_place-IsConsistent :
    (place : Place) (own : Bool) (t : Tips)
    → IsConsistent own t
    → IsConsistent (stands (clicked place) own) (click_place place t)
unfolding click_place
click_place-IsConsistent (in_cell d) own t c = elim (Bool-cases (is_cell t.pinned_trigger d)) [
  | inl again ↦ rw again refl
  | inr new ↦ rw new (record { mark = refl; shown = λ _. refl; detail = λ _. refl })
]
click_place-IsConsistent (in_part p) own t c = unpin-IsConsistent own t.pinned_trigger t refl c
click_place-IsConsistent in_container own t c = unpin-IsConsistent own t.pinned_trigger t refl c
click_place-IsConsistent in_tooltip own t c = c
click_place-IsConsistent elsewhere own t c = unpin-IsConsistent own t.pinned_trigger t refl c

tip_event-IsConsistent :
    (e : TipEvent) (own : Bool) (t : Tips)
    → IsConsistent own t
    → IsConsistent (stands e own) (tip_event e t)
unfolding tip_event
tip_event-IsConsistent (mouse_over place) own t c =
    by_pin-IsConsistent own t.pinned_trigger _ t
      (λ e. unpinned_lem own t _ e (over-Keeps place t) c) (λ _ _. c)
tip_event-IsConsistent (mouse_out target related) own t c =
    by_pin-IsConsistent own t.pinned_trigger _ t
      (λ e. unpinned_lem own t _ e (out-Keeps target related t) c) (λ _ _. c)
tip_event-IsConsistent (clicked place) own t c = click_place-IsConsistent place own t c
tip_event-IsConsistent over_health own t c =
    unfold health_over in overwritten_lem own t _ t.pinned_trigger refl c
tip_event-IsConsistent leave_health own t c =
    unfold health_leave in overwritten_lem own t _ t.pinned_trigger refl c
tip_event-IsConsistent (others_show content) own t c =
    overwritten_lem own t _ t.pinned_trigger refl c
tip_event-IsConsistent others_hide own t c = overwritten_lem own t _ t.pinned_trigger refl c

-- After any of these events, those of the other listeners of the tooltip among them, from any
-- consistent state: while a cell is pinned its button alone is marked, and otherwise none is; and the
-- tooltip is visible with the details of the pinned cell, unless another listener has shown or hidden
-- it after the last click outside of the tooltip. (The cells are not drawn anew meanwhile.)
pub tip_events-IsConsistent :
    (es : List TipEvent) (own : Bool) (t : Tips)
    → IsConsistent own t
    → IsConsistent (stands_all es own) (tip_events es t)
unfolding tip_events
tip_events-IsConsistent [] own t c = c
tip_events-IsConsistent (e ∷ es) own t c =
    tip_events-IsConsistent es (stands e own) (tip_event e t) (tip_event-IsConsistent e own t c)

-- What shows nothing and pins nothing where a cell is pinned: the pointer on the cells and on the
-- composition, and a listener that hides the tooltip.
abbrev pub is_quiet : TipEvent → Bool
is_quiet (mouse_over place) = true
is_quiet (mouse_out target related) = true
is_quiet leave_health = true
is_quiet others_hide = true
is_quiet _ = false

abbrev pub IsHiddenPin : DetailCell → Tips → Type 0
IsHiddenPin c t = (t.is_visible ≡ false) × (t.pinned_trigger ≡ some c)

tip_event-IsHiddenPin :
    (e : TipEvent) (t : Tips) (c : DetailCell)
    → is_quiet e ≡ true
    → IsHiddenPin c t
    → IsHiddenPin c (tip_event e t)
unfolding tip_event
tip_event-IsHiddenPin (mouse_over place) t c m h =
    let still : by_pin t.pinned_trigger (document_over place (container_over place t)) t ≡ t =
      ap (λ o. by_pin o (document_over place (container_over place t)) t) h.1 in
    subst (IsHiddenPin c) (sym still) h
tip_event-IsHiddenPin (mouse_out target related) t c m h =
    let still : by_pin t.pinned_trigger
          (document_out target related (container_out target related t)) t
        ≡ t =
      ap (λ o. by_pin o (document_out target related (container_out target related t)) t) h.1 in
    subst (IsHiddenPin c) (sym still) h
tip_event-IsHiddenPin leave_health t c m h = unfold health_leave in (refl, h.1)
tip_event-IsHiddenPin others_hide t c m h = (refl, h.1)
tip_event-IsHiddenPin (clicked place) t c m h = absurd (ground arith)
tip_event-IsHiddenPin over_health t c m h = absurd (ground arith)
tip_event-IsHiddenPin (others_show content) t c m h = absurd (ground arith)

tip_events-IsHiddenPin :
    (es : List TipEvent) (t : Tips) (c : DetailCell)
    → All (λ e. is_quiet e ≡ true) es
    → IsHiddenPin c t
    → IsHiddenPin c (tip_events es t)
unfolding tip_events
tip_events-IsHiddenPin [] t c m h = h
tip_events-IsHiddenPin (e ∷ es) t c m h =
    tip_events-IsHiddenPin es (tip_event e t) c m.1 (tip_event-IsHiddenPin e t c m.0 h)

-- Where a cell is pinned and the pointer passes over the health grid, the tooltip is hidden with the
-- cell still pinned, and both stay so whatever the pointer does on the cells and on the composition
-- and whatever hides the tooltip again: only a click, or another listener that shows the tooltip, may
-- end it.
pub health_leave-pinned :
    (es : List TipEvent) (t : Tips) (c : DetailCell)
    → All (λ e. is_quiet e ≡ true) es
    → t.pinned_trigger ≡ some c
    → ((tip_events es (health_leave (health_over t))).is_visible ≡ false)
      × ((tip_events es (health_leave (health_over t))).pinned_trigger ≡ some c)
health_leave-pinned es t c m e =
    tip_events-IsHiddenPin es (health_leave (health_over t)) c m
      (unfold health_leave health_over in (refl, e))
