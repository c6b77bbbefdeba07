-- ===== src/Selects/Labels.antt =====
-- A select's trigger is labelled by the choice that is selected.
use cpa_keeper_dashboard.Prelude.{
  ℕ, zero, suc, ◌≡◌, refl, Bool, true, false, ◌&&◌, ◌||◌, some, List, [], ◌∷◌, if◌then◌else◌,
  get_elem?, arith, Bool-cases, Option-cases, inl, inr,
}
use cpa_keeper_dashboard.Prelude.Interface.{◌===◌, beq_refl}
use cpa_keeper_dashboard.Prelude.Text.{Text, text_eq}
use cpa_keeper_dashboard.Session.State.{is_empty}
use cpa_keeper_dashboard.Selects.{
  Choice, Select, all_label, find_choice, first_choice, or_choice, choice_text, mark_choices,
  sync_options, has_choice, set_value, fill_select, close_all, update_at, is_open_at, click_trigger,
  pick_button, click_button, reset_select, reset_all, range_all, Click, click, clicks,
}

-- A choice with this value has this text; a button shows 全部 for an empty text.
abbrev pub has_label : Text → Text → List Choice → Bool
has_label label value [] = false
has_label label value (c ∷ cs) =
    (c.value === value && (c.text === label || (is_empty c.text && label === all_label)))
    || has_label label value cs

abbrev pub is_label : Text → Text → List Choice → Bool
is_label label value options =
    if has_choice (find_choice value options)
    then has_label label value options
    else label === choice_text (first_choice options)

abbrev button_text : Choice → Text
button_text c = if is_empty c.text then all_label else c.text

-- Every choice of a list stands among the options.
abbrev AllListed : List Choice → List Choice → Type 0
AllListed options [] = Unit
AllListed options (c ∷ cs) =
    (has_label (button_text c) c.value options ≡ true) × AllListed options cs

abbrev AllOffered : List Choice → List (Choice × Bool) → Type 0
AllOffered options [] = Unit
AllOffered options ((c, marked) ∷ buttons) =
    (has_label (button_text c) c.value options ≡ true) × AllOffered options buttons

-- The value is that of an option or empty, and the dropdown offers options only; where the labels are
-- in step, the label is the text of an option with this value, or of the first option where none has
-- it.
pub record IsLabelled (in_step : Bool) (s : Select) : Type 0 where
  pub valued : (has_choice (find_choice s.value s.options) || is_empty s.value) ≡ true
  pub labelled : in_step ≡ true → is_label s.label s.value s.options ≡ true
  pub offered : AllOffered s.options s.buttons

found-has_label :
    (value : Text) (cs : List Choice) (c : Choice)
    → find_choice value cs ≡ some c
    → has_label c.text value cs ≡ true
unfolding find_choice
found-has_label value [] c h = absurd (ground arith)
found-has_label value (d ∷ cs) c h = ground (arith, beq_refl c.text, found-has_label value cs c)

labelled-sync :
    (value : Text) (options : List Choice)
    → is_label
        (choice_text (or_choice (find_choice value options) (first_choice options)))
        value
        options
      ≡ true
labelled-sync value options = elim (Option-cases (find_choice value options)) [
  | inl n ↦ rw n (beq_refl (choice_text (first_choice options)))
  | inr (c, e) ↦ rw e (found-has_label value options c e)
]

AllListed-cons :
    (c : Choice) (options cs : List Choice) → AllListed options cs → AllListed (c ∷ options) cs
AllListed-cons c options [] h = tt
AllListed-cons c options (d ∷ cs) (e, h) = (ground arith, AllListed-cons c options cs h)

AllListed-self : (options : List Choice) → AllListed options options
AllListed-self [] = tt
AllListed-self (c ∷ cs) = (
  ground (arith, beq_refl c.value, beq_refl c.text, beq_refl all_label),
  AllListed-cons c cs cs (AllListed-self cs),
)

AllOffered-mark :
    (value : Text) (options cs : List Choice)
    → AllListed options cs
    → AllOffered options (mark_choices value cs)
unfolding mark_choices
AllOffered-mark value options [] h = tt
AllOffered-mark value options (c ∷ cs) (e, h) = (e, AllOffered-mark value options cs h)

sync-IsLabelled :
    (in_step : Bool) (s : Select)
    → (has_choice (find_choice s.value s.options) || is_empty s.value) ≡ true
    → IsLabelled in_step (sync_options s)
unfolding sync_options
sync-IsLabelled in_step s v = record {
  valued = v;
  labelled = λ _. labelled-sync s.value s.options;
  offered = AllOffered-mark s.value s.options s.options (AllListed-self s.options);
}

set_value-valued :
    (value : Text) (s : Select)
    → (has_choice (find_choice (set_value value s).value (set_value value s).options)
        || is_empty (set_value value s).value)
      ≡ true
unfolding set_value
set_value-valued value s = ground arith

has_label-found :
    (label value : Text) (cs : List Choice)
    → has_label label value cs ≡ true
    → has_choice (find_choice value cs) ≡ true
unfolding find_choice
has_label-found label value [] h = h
has_label-found label value (c ∷ cs) h = ground (arith, has_label-found label value cs)

pick-IsLabelled :
    (in_step : Bool) (c : Choice) (marked : Bool) (s : Select)
    → has_label (button_text c) c.value s.options ≡ true
    → AllOffered s.options s.buttons
    → IsLabelled in_step (pick_button (some (c, marked)) s)
unfolding pick_button set_value
pick-IsLabelled in_step c marked s h o =
    let found = has_label-found (button_text c) c.value s.options h in
    rw found (record { valued = rw found refl; labelled = λ _. rw found h; offered = o })

offered-button :
    (options : List Choice) (buttons : List (Choice × Bool)) (j : ℕ) (c : Choice) (marked : Bool)
    → AllOffered options buttons
    → get_elem? buttons j ≡ some (c, marked)
    → has_label (button_text c) c.value options ≡ true
offered-button options [] j c marked h e = absurd (ground arith)
offered-button options ((d, m) ∷ buttons) zero c marked (f, h) e = ground arith
offered-button options ((d, m) ∷ buttons) (suc j) c marked (f, h) e =
    offered-button options buttons j c marked h e

button-IsLabelled :
    (in_step : Bool) (j : ℕ) (s : Select)
    → IsLabelled in_step s
    → IsLabelled in_step (pick_button (get_elem? s.buttons j) s)
button-IsLabelled in_step j s h = elim (Option-cases (get_elem? s.buttons j)) [
  | inl n ↦ rw n (unfold pick_button in h)
  | inr ((c, marked), e) ↦ rw e (
      pick-IsLabelled in_step c marked s (offered-button s.options s.buttons j c marked h.offered e)
        h.offered)
]

abbrev pub AllLabelled : Bool → List Select → Type 0
AllLabelled in_step [] = Unit
AllLabelled in_step (s ∷ ss) = IsLabelled in_step s × AllLabelled in_step ss

-- Whether the labels are in step: after a range is activated they need not be, and the reset of the
-- filters brings them there again.
abbrev pub stays_in_step : Click → Bool → Bool
stays_in_step Click.range in_step = false
stays_in_step Click.reset in_step = true
stays_in_step _ in_step = in_step

abbrev pub stay_in_step : List Click → Bool → Bool
stay_in_step [] in_step = in_step
stay_in_step (c ∷ cs) in_step = stay_in_step cs (stays_in_step c in_step)

close-AllLabelled :
    (in_step : Bool) (ss : List Select)
    → AllLabelled in_step ss
    → AllLabelled in_step (close_all ss)
unfolding close_all
close-AllLabelled in_step [] h = tt
close-AllLabelled in_step (s ∷ ss) (l, h) = (
  record { valued = l.valued; labelled = l.labelled; offered = l.offered },
  close-AllLabelled in_step ss h,
)

update-AllLabelled :
    (in_step : Bool) (i : ℕ) (f : Select → Select) (ss : List Select)
    → ((s : Select) → IsLabelled in_step s → IsLabelled in_step (f s))
    → AllLabelled in_step ss
    → AllLabelled in_step (update_at i f ss)
unfolding update_at
update-AllLabelled in_step i f [] k h = tt
update-AllLabelled in_step zero f (s ∷ ss) k (l, h) = (k s l, h)
update-AllLabelled in_step (suc i) f (s ∷ ss) k (l, h) = (l, update-AllLabelled in_step i f ss k h)

reset-AllLabelled :
    (in_step : Bool) (ss : List Select) → AllLabelled in_step ss → AllLabelled true (reset_all ss)
unfolding reset_all reset_select
reset-AllLabelled in_step [] h = tt
reset-AllLabelled in_step (s ∷ ss) (l, h) =
    (sync-IsLabelled true _ (set_value-valued [] s), reset-AllLabelled in_step ss h)

range-AllLabelled :
    (in_step : Bool) (ss : List Select) → AllLabelled in_step ss → AllLabelled false (range_all ss)
unfolding range_all
range-AllLabelled in_step [] h = tt
range-AllLabelled in_step (s ∷ ss) (l, h) = (
  record {
    valued = set_value-valued [] s;
    labelled = λ e. absurd (ground (arith, e));
    offered = unfold set_value in l.offered;
  },
  range-AllLabelled in_step ss h,
)

trigger-AllLabelled :
    (in_step : Bool) (i : ℕ) (ss : List Select)
    → AllLabelled in_step ss
    → AllLabelled in_step (click_trigger i ss)
unfolding click_trigger
trigger-AllLabelled in_step i ss h = elim (Bool-cases (is_open_at (get_elem? ss i))) [
  | inl shown ↦ rw shown (close-AllLabelled in_step ss h)
  | inr shut ↦ rw shut (
      update-AllLabelled in_step i _ (close_all ss)
        (λ s l.
          let k = sync-IsLabelled in_step s l.valued in
          record { valued = k.valued; labelled = k.labelled; offered = k.offered })
        (close-AllLabelled in_step ss h))
]

click-AllLabelled :
    (c : Click) (in_step : Bool) (ss : List Select)
    → AllLabelled in_step ss
    → AllLabelled (stays_in_step c in_step) (click c ss)
unfolding click click_button fill_select
click-AllLabelled (Click.trigger i) in_step ss h = trigger-AllLabelled in_step i ss h
click-AllLabelled (Click.button i j) in_step ss h =
    close-AllLabelled in_step _ (update-AllLabelled in_step i _ ss (button-IsLabelled in_step j) h)
click-AllLabelled Click.outside in_step ss h = close-AllLabelled in_step ss h
click-AllLabelled Click.escape in_step ss h = close-AllLabelled in_step ss h
click-AllLabelled Click.reset in_step ss h = reset-AllLabelled in_step ss h
click-AllLabelled Click.range in_step ss h = range-AllLabelled in_step ss h
click-AllLabelled (Click.fill i items) in_step ss h =
    update-AllLabelled in_step i _ ss
      (λ s l. sync-IsLabelled in_step _ (set_value-valued s.value _)) h
click-AllLabelled (Click.field i value) in_step ss h =
    update-AllLabelled in_step i _ ss (λ s l. sync-IsLabelled in_step _ (set_value-valued value s))
      h

-- Whatever is clicked, and whatever choices a response brings, each select keeps a value that is an
-- option's or empty, and a dropdown that offers options only. Its label is the text of an option with
-- this value, or of the first option where none has it, unless a range has been activated after the
-- last reset of the filters.
pub clicks-AllLabelled :
    (cs : List Click) (in_step : Bool) (ss : List Select)
    → AllLabelled in_step ss
    → AllLabelled (stay_in_step cs in_step) (clicks cs ss)
unfolding clicks
clicks-AllLabelled [] in_step ss h = h
clicks-AllLabelled (c ∷ cs) in_step ss h =
    clicks-AllLabelled cs (stays_in_step c in_step) (click c ss) (click-AllLabelled c in_step ss h)
