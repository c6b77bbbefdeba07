-- ===== src/Drawer/Current.antt =====
-- The drawer shows what was opened last.
use mathlib.Core.Path.{subst}
use cpa_keeper_dashboard.Prelude.{
  ℕ, ◌+◌, ◌≤◌, ◌≡◌, refl, Bool, true, false, none, some, List, [], ◌∷◌, ◌==◌, if◌then◌else◌, arith,
  Bool-cases, Option-cases, inl, inr, ◌⊎◌,
}
use cpa_keeper_dashboard.Prelude.Text.{Text}
use cpa_keeper_dashboard.Drawer.{
  Content, loading, upstream, load_failed, Opening, Answer, body, aborted, failed, Drawer,
  find_opening, remove_opening, open_upstream, is_stale, show_answer, finish_upstream,
  open_event_detail, close, range_changed, click_upstream, press_escape, Use, use_drawer, use_all,
}

module _ {D : Type 0} where
  -- An opening is not newer than the last change, and where none came after it the drawer is open
  -- and says that its upstream is loading.
  abbrev Fits : ℕ → Bool → Content D → Opening → Type 0
  Fits last is_open content o =
      (o.id ≤ last) × (o.id ≡ last → (is_open ≡ true) × (content ≡ loading o.key))

  abbrev AllFit : ℕ → Bool → Content D → List Opening → Type 0
  AllFit last is_open content [] = Unit
  AllFit last is_open content (o ∷ os) =
      Fits last is_open content o × AllFit last is_open content os

  AllFit-later :
      (last later : ℕ) (b b' : Bool) (c c' : Content D) (os : List Opening)
      → last + 1 ≤ later
      → AllFit last b c os
      → AllFit later b' c' os
  AllFit-later last later b b' c c' [] p h = h
  AllFit-later last later b b' c c' (o ∷ os) p ((l, _), h) =
      ((omega arith, λ e. absurd (omega arith)), AllFit-later last later b b' c c' os p h)

  -- Without the openings of one number, nothing is asked of those with that number.
  AllFit-remove :
      (last i : ℕ) (b : Bool) (c c' : Content D) (os : List Opening)
      → (c ≡ c') ⊎ (i ≡ last)
      → AllFit last b c os
      → AllFit last b c' (remove_opening i os)
  unfolding remove_opening
  AllFit-remove last i b c c' [] p h = h
  AllFit-remove last i b c c' (o ∷ os) p ((l, f), h) = elim (Bool-cases (o.id == i)) [
    | inl same ↦ rw same (AllFit-remove last i b c c' os p h)
    | inr other ↦ rw other (
      (
        l,
        λ e. elim p [
          | inl q ↦ subst (λ d. (b ≡ true) × (d ≡ loading o.key)) q (f e)
          | inr q ↦ absurd (ground arith)
        ],
      ),
      AllFit-remove last i b c c' os p h,
    )
  ]

  pub record IsCurrent (s : Drawer D) : Type 0 where
    pub fits : AllFit s.request_id s.is_open s.content s.openings

  find-Fits :
      (i last : ℕ) (b : Bool) (c : Content D) (os : List Opening) (o : Opening)
      → find_opening i os ≡ some o
      → AllFit last b c os
      → Fits last b c o
  unfolding find_opening
  find-Fits i last b c [] o e h = absurd (ground arith)
  find-Fits i last b c (p ∷ os) o e (f, h) = elim (Bool-cases (p.id == i)) [
    | inl same ↦ let q : p ≡ o = ground arith in subst (Fits last b c) q f
    | inr other ↦ find-Fits i last b c os o (ground arith) h
  ]

  -- What an answer may change of the drawer.
  abbrev pub ChangesOwn : Answer D → Drawer D → Drawer D → Type 0
  ChangesOwn a s end =
      (end.content ≡ s.content)
      ⊎ ((key : Text) × (s.is_open ≡ true)
          × (s.content ≡ loading key)
          × ((end.content ≡ load_failed)
              ⊎ ((d : D) × (a ≡ body d) × (end.content ≡ upstream key d))))

  finish-ChangesOwn :
      (o : Opening) (a : Answer D) (s : Drawer D)
      → Fits s.request_id s.is_open s.content o
      → ChangesOwn a s (finish_upstream (some o) a s)
  unfolding finish_upstream show_answer
  finish-ChangesOwn o (body d) s (l, f) = elim (Bool-cases (is_stale o s)) [
    | inl stale ↦ inl (ground arith)
    | inr now ↦
        let (shown, key) = f (ground arith) in inr (o.key, shown, key, inr (d, refl, ground arith))
  ]
  finish-ChangesOwn o aborted s (l, f) = inl (ground arith)
  finish-ChangesOwn o failed s (l, f) = elim (Bool-cases (is_stale o s)) [
    | inl stale ↦ inl (ground arith)
    | inr now ↦ let (shown, key) = f (ground arith) in inr (o.key, shown, key, inl (ground arith))
  ]

  -- An answer leaves what the drawer shows, or the drawer is open and says that an upstream is
  -- loading, and then it shows this upstream, as the answer gives it, or that the loading failed.
  pub finish_upstream-ChangesOwn :
      (i : ℕ) (a : Answer D) (s : Drawer D)
      → IsCurrent s
      → ChangesOwn a s (finish_upstream (find_opening i s.openings) a s)
  finish_upstream-ChangesOwn i a s h = elim (Option-cases (find_opening i s.openings)) [
    | inl n ↦ rw n (inl (unfold finish_upstream in refl))
    | inr (o, e) ↦ rw e (
        finish-ChangesOwn o a s
          (find-Fits i s.request_id s.is_open s.content s.openings o e h.fits))
  ]

  -- The drawer that has shown an answer, without the opening that it was for.
  show-IsCurrent :
      (o : Opening) (a : Answer D) (s : Drawer D)
      → IsCurrent s
      → IsCurrent (show_answer o a (record s { openings = remove_opening o.id s.openings }))
  unfolding show_answer
  show-IsCurrent o (body d) s h = elim (Bool-cases (is_stale o s)) [
    | inl stale ↦
        rw stale (record { fits = AllFit-remove _ o.id _ _ _ s.openings (inl refl) h.fits })
    | inr now ↦
        rw now (record { fits = AllFit-remove _ o.id _ _ _ s.openings (inr (ground arith)) h.fits })
  ]
  show-IsCurrent o aborted s h = record {
    fits = AllFit-remove _ o.id _ _ _ s.openings (inl refl) h.fits;
  }
  show-IsCurrent o failed s h = elim (Bool-cases (is_stale o s)) [
    | inl stale ↦
        rw stale (record { fits = AllFit-remove _ o.id _ _ _ s.openings (inl refl) h.fits })
    | inr now ↦
        rw now (record { fits = AllFit-remove _ o.id _ _ _ s.openings (inr (ground arith)) h.fits })
  ]

  finally-IsCurrent :
      (b : Bool) (s : Drawer D)
      → IsCurrent s
      → IsCurrent (if b then record s { controller = none } else s)
  finally-IsCurrent true s h = record { fits = h.fits }
  finally-IsCurrent false s h = h

  answer-IsCurrent :
      (i : ℕ) (a : Answer D) (s : Drawer D)
      → IsCurrent s
      → IsCurrent (finish_upstream (find_opening i s.openings) a s)
  unfolding finish_upstream
  answer-IsCurrent i a s h = elim (Option-cases (find_opening i s.openings)) [
    | inl n ↦ rw n h
    | inr (o, e) ↦ rw e (finally-IsCurrent _ _ (show-IsCurrent o a s h))
  ]

  open-IsCurrent :
      (key : Text) (trigger : ℕ) (s : Drawer D)
      → IsCurrent s
      → IsCurrent (click_upstream key trigger s)
  unfolding click_upstream open_upstream
  open-IsCurrent [] trigger s h = h
  open-IsCurrent (c ∷ key) trigger s h = record {
    fits = (
      (omega arith, λ _. (refl, refl)),
      AllFit-later _ _ _ _ _ _ s.openings (omega arith) h.fits,
    );
  }

  close-IsCurrent : (b : Bool) (s : Drawer D) → IsCurrent s → IsCurrent (close b s)
  unfolding close
  close-IsCurrent b s h = record { fits = AllFit-later _ _ _ _ _ _ s.openings (omega arith) h.fits }

  escape-IsCurrent :
      (b : Bool) (s : Drawer D) → IsCurrent s → IsCurrent (if b then close true s else s)
  escape-IsCurrent true s h = close-IsCurrent true s h
  escape-IsCurrent false s h = h

  use-IsCurrent : (u : Use D) (s : Drawer D) → IsCurrent s → IsCurrent (use_drawer u s)
  unfolding use_drawer range_changed press_escape open_event_detail close
  use-IsCurrent (Use.click_on key trigger) s h = open-IsCurrent key trigger s h
  use-IsCurrent (Use.detail d trigger) s h = record {
    fits = AllFit-later _ _ _ _ _ _ s.openings (omega arith) h.fits;
  }
  use-IsCurrent Use.close_click s h = close-IsCurrent true s h
  use-IsCurrent Use.escape s h = escape-IsCurrent s.is_open s h
  use-IsCurrent Use.leave s h = close-IsCurrent false s h
  use-IsCurrent Use.change_range s h = record {
    fits = AllFit-later _ _ _ _ _ _ s.openings (omega arith) h.fits;
  }
  use-IsCurrent (Use.answer i a) s h = answer-IsCurrent i a s h
  use-IsCurrent (Use.move_focus element) s h = record { fits = h.fits }

  -- Whatever is done with a drawer, and in whatever order its answers come: where it waits for the
  -- answer of the newest opening, and nothing came after that, it is open and says that this
  -- upstream is loading; no opening is newer than `drawerRequestID`.
  pub use_all-IsCurrent :
      (us : List (Use D)) (s : Drawer D) → IsCurrent s → IsCurrent (use_all us s)
  unfolding use_all
  use_all-IsCurrent [] s h = h
  use_all-IsCurrent (u ∷ us) s h = use_all-IsCurrent us (use_drawer u s) (use-IsCurrent u s h)
