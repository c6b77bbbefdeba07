-- ===== src/Drawer/Tests.antt =====
-- The drawer after concrete uses, and the theorems at them.
use cpa_keeper_dashboard.Prelude.{ℕ, ◌≡◌, refl, true, false, none, List, [], ◌∷◌}
use cpa_keeper_dashboard.Prelude.Text.{codes}
use cpa_keeper_dashboard.Session.State.{contains}
use cpa_keeper_dashboard.Drawer.{
  empty, event, body, Drawer, Use, use_all, use_drawer, open_upstream, open_event_detail,
  finish_upstream, show_answer, find_opening, remove_opening, click_upstream,
}
use cpa_keeper_dashboard.Drawer.Current.{
  IsCurrent, ChangesOwn, use_all-IsCurrent, finish_upstream-ChangesOwn,
}

abbrev shut : Drawer ℕ
shut = record {
  is_open = false;
  inert = true;
  content = empty;
  request_id = 0;
  controller = none;
  aborted_ids = [];
  openings = [];
  return_focus = none;
  focus = 7;
}

-- An event is opened before the answer for the upstream comes.
abbrev changed_mind : List (Use ℕ)
changed_mind = Use.click_on (codes "a") 1 ∷ Use.detail 9 2 ∷ Use.answer 1 (body 5) ∷ []

changed_mind_end : (use_all changed_mind shut).content ≡ event 9
unfolding use_all use_drawer open_upstream open_event_detail finish_upstream show_answer
    find_opening remove_opening click_upstream contains
changed_mind_end = refl

shut-IsCurrent : IsCurrent shut
shut-IsCurrent = record { fits = tt }

use_all-IsCurrent_example : IsCurrent (use_all changed_mind shut)
use_all-IsCurrent_example = use_all-IsCurrent changed_mind shut shut-IsCurrent

abbrev loading_a : Drawer ℕ
loading_a = open_upstream (codes "a") 1 shut

abbrev use_a : List (Use ℕ)
use_a = Use.click_on (codes "a") 1 ∷ []

finish_upstream-ChangesOwn_example :
    ChangesOwn
      (body 5)
      (use_all use_a shut)
      (finish_upstream (find_opening 1 (use_all use_a shut).openings) (body 5) (use_all use_a shut))
finish_upstream-ChangesOwn_example =
    finish_upstream-ChangesOwn 1 (body 5) (use_all use_a shut)
      (use_all-IsCurrent use_a shut shut-IsCurrent)
