-- ===== src/Kpis/Animation.antt =====
-- A number that is animated comes to rest at its target (`animateNumber`), also where it is given
-- another target on the way.
use cpa_keeper_dashboard.Prelude.{
  ℕ, ◌+◌, ◌≡◌, ◌≤◌, refl, ap, ◌∙◌, true, false, some, List, [], ◌∷◌, ◌++◌, arith, if◌then◌else◌,
  Bool-cases, inl, inr, ◌⊎◌,
}
use cpa_keeper_dashboard.Prelude.Floats.{Floats}
use cpa_keeper_dashboard.Prelude.Sorting.{All}
use cpa_keeper_dashboard.Kpis.{
  Run, Figure, animation_ms, previous_or, is_immediate, animate_number, is_running, current_value,
  tick_text, run_ticks, still_running, animation_frame, animation_frames,
}

module _ {F : Type 0} ⦃f : Floats F⦄ (cube : F → F) where
  -- The newest run is the last one, and none started later.
  abbrev EndsWith : Run F → List (Run F) → Type 0
  EndsWith r [] = ⊥
  EndsWith r (x ∷ []) = x ≡ r
  EndsWith r (x ∷ y ∷ ys) = (x.start_time ≤ r.start_time) × EndsWith r (y ∷ ys)

  run_ticks-EndsWith :
      (r : Run F) (now : ℕ) (rs : List (Run F)) (text : F)
      → EndsWith r rs
      → run_ticks cube now rs text ≡ tick_text cube now r
  unfolding run_ticks
  run_ticks-EndsWith r now [] text e = absurd e
  run_ticks-EndsWith r now (x ∷ []) text e = ap (tick_text cube now) e
  run_ticks-EndsWith r now (x ∷ y ∷ ys) text e =
      run_ticks-EndsWith r now (y ∷ ys) (tick_text cube now x) e.1

  still_running-over :
      (r : Run F) (now : ℕ) (rs : List (Run F))
      → EndsWith r rs
      → is_running now r ≡ false
      → still_running now rs ≡ []
  unfolding still_running
  still_running-over r now [] e h = refl
  still_running-over r now (x ∷ []) e h = rw (ap (is_running now) e ∙ h) refl
  still_running-over r now (x ∷ y ∷ ys) e h =
      let late : is_running now x ≡ false = ground (arith, e.0, h) in
      rw late (still_running-over r now (y ∷ ys) e.1 h)

  cons-EndsWith :
      (r x : Run F) (rs : List (Run F))
      → x.start_time ≤ r.start_time
      → EndsWith r rs
      → EndsWith r (x ∷ rs)
  cons-EndsWith r x [] h e = absurd e
  cons-EndsWith r x (y ∷ ys) h e = (h, e)

  still_running-EndsWith :
      (r : Run F) (now : ℕ) (rs : List (Run F))
      → EndsWith r rs
      → is_running now r ≡ true
      → EndsWith r (still_running now rs)
  unfolding still_running
  still_running-EndsWith r now [] e h = absurd e
  still_running-EndsWith r now (x ∷ []) e h = rw (ap (is_running now) e ∙ h) e
  still_running-EndsWith r now (x ∷ y ∷ ys) e h =
      let rest = still_running-EndsWith r now (y ∷ ys) e.1 h in
      elim (Bool-cases (is_running now x)) [
        | inl on ↦ rw on (cons-EndsWith r x (still_running now (y ∷ ys)) e.0 rest)
        | inr over ↦ rw over rest
      ]

  append-EndsWith :
      (r : Run F) (rs : List (Run F))
      → All (λ x. x.start_time ≤ r.start_time) rs
      → EndsWith r (rs ++ (r ∷ []))
  append-EndsWith r [] a = refl
  append-EndsWith r (x ∷ rs) a = cons-EndsWith r x (rs ++ (r ∷ [])) a.0 (append-EndsWith r rs a.1)

  -- The newest run goes on, or all are over and the text is what it ends with.
  abbrev Settles : Run F → Figure F → Type 0
  Settles r s = EndsWith r s.runs ⊎ ((s.runs ≡ []) × (s.text ≡ r.end_value))

  animation_frame-over :
      (r : Run F) (now : ℕ) (s : Figure F)
      → (s.runs ≡ []) × (s.text ≡ r.end_value)
      → ((animation_frame cube now s).runs ≡ []) × ((animation_frame cube now s).text ≡ r.end_value)
  unfolding animation_frame run_ticks still_running
  animation_frame-over r now s e =
      (ap (still_running now) (e.0), ap (λ rs. run_ticks cube now rs s.text) (e.0) ∙ e.1)

  animation_frame-last :
      (r : Run F) (now : ℕ) (s : Figure F)
      → EndsWith r s.runs
      → is_running now r ≡ false
      → ((animation_frame cube now s).runs ≡ []) × ((animation_frame cube now s).text ≡ r.end_value)
  unfolding animation_frame
  animation_frame-last r now s e h = (
    still_running-over r now s.runs e h,
    run_ticks-EndsWith r now s.runs s.text e
        ∙ ap (λ b. if b then current_value cube now r else r.end_value) h,
  )

  animation_frame-Settles :
      (r : Run F) (now : ℕ) (s : Figure F) → Settles r s → Settles r (animation_frame cube now s)
  unfolding animation_frame
  animation_frame-Settles r now s (inr over) = inr (animation_frame-over r now s over)
  animation_frame-Settles r now s (inl e) = elim (Bool-cases (is_running now r)) [
    | inl on ↦ inl (still_running-EndsWith r now s.runs e on)
    | inr over ↦ inr (animation_frame-last r now s e over)
  ]

  frames-settle :
      (r : Run F) (now : ℕ) (nows : List ℕ) (s : Figure F)
      → Settles r s
      → r.start_time + animation_ms ≤ now
      → ((animation_frames cube (nows ++ (now ∷ [])) s).runs ≡ [])
        × ((animation_frames cube (nows ++ (now ∷ [])) s).text ≡ r.end_value)
  unfolding animation_frames
  frames-settle r now [] s (inl e) h = animation_frame-last r now s e (ground arith)
  frames-settle r now [] s (inr over) h = animation_frame-over r now s over
  frames-settle r now (n ∷ nows) s e h =
      frames-settle r now nows (animation_frame cube n s) (animation_frame-Settles r n s e) h

  -- A number that is animated to a target, whatever is still running to earlier targets: after any
  -- frames, with one at least 450 ms after the call, no run is left and the number is the target.
  pub animate_number-settles :
      (start : ℕ) (target : F) (s : Figure F) (nows : List ℕ) (now : ℕ)
      → All (λ r. r.start_time ≤ start) s.runs
      → is_immediate (previous_or s.previous target) target ≡ false
      → start + animation_ms ≤ now
      → ((animation_frames cube (nows ++ (now ∷ [])) (animate_number start target s)).runs ≡ [])
        × ((animation_frames cube (nows ++ (now ∷ [])) (animate_number start target s)).text
            ≡ target)
  unfolding animate_number
  animate_number-settles start target s nows now a h late =
      let newest : Run F = record {
        start_time = start;
        prev = previous_or s.previous target;
        end_value = target;
      } in
      rw h (
        frames-settle newest now nows
          (record s { previous = some target; runs = s.runs ++ (newest ∷ []) })
          (inl (append-EndsWith newest s.runs a)) late)
