-- ===== src/Settings/Runtime.antt =====
-- The strip of the plugin's runtime: `renderRuntime`, with `state.reportedStorageErrors`. The markup,
-- the colours and the label for assistive technology are left out.
use cpa_keeper_dashboard.Prelude.{
  ℕ, ◌≡◌, ◌∙◌, Bool, true, false, ◌||◌, ◌&&◌, not, List, [], ◌∷◌, ◌++◌, ltb, if◌then◌else◌, arith,
}
use cpa_keeper_dashboard.Prelude.Interface.{◌===◌, list_beq_iff, nat_eq}
use cpa_keeper_dashboard.Prelude.Sorting.{sum_by}
use cpa_keeper_dashboard.Prelude.Text.{Text, text_eq, is_empty}
use cpa_keeper_dashboard.Tokens.{count_or}

-- The numbers of a response, 0 where they are left out, and `storage.last_error || ''`.
pub record Report (F : Type 0) : Type 0 where
  pub queue_depth : ℕ
  pub queue_capacity : ℕ
  pub accepted : ℕ
  pub written : ℕ
  pub dropped : ℕ
  pub write_dropped : ℕ
  pub write_uncertain : ℕ
  pub last_batch_ms : F
  pub last_error : Text

pub data Label : Type 0 where
  queue accepted_events written_events dropped_events last_batch lost_writes uncertain_writes :
      Label
  storage_failure : Label

pub data Shown (F : Type 0) : Type 0 where
  depth_of : (depth capacity : ℕ) → Shown F
  count : ℕ → Shown F
  millis : F → Shown F
  message : Text → Shown F

pub record RuntimeItem (F : Type 0) : Type 0 where
  pub label : Label
  pub shown : Shown F
  pub warning : Bool

pub record Strip (F : Type 0) : Type 0 where
  pub items : List (RuntimeItem F)
  pub has_warning : Bool
  pub reported_errors : List Text
  pub toasts : List Text

abbrev pub has : Text → List Text → Bool
has e [] = false
has e (x ∷ xs) = x === e || has e xs

module _ {F : Type 0} where
  abbrev item : Label → Shown F → Bool → RuntimeItem F
  item label shown warning = record { label = label; shown = shown; warning = warning }

  abbrev item_if : Bool → Label → Shown F → List (RuntimeItem F)
  item_if false label shown = []
  item_if true label shown = item label shown true ∷ []

  unfoldable pub runtime_items : Report F → List (RuntimeItem F)
  runtime_items r =
      item queue (depth_of r.queue_depth (count_or r.queue_capacity 256)) false
        ∷ item accepted_events (count r.accepted) false
        ∷ item written_events (count r.written) false
        ∷ item dropped_events (count r.dropped) (ltb 0 r.dropped)
        ∷ item last_batch (millis r.last_batch_ms) false
        ∷ item_if (ltb 0 r.write_dropped) lost_writes (count r.write_dropped)
      ++ item_if (ltb 0 r.write_uncertain) uncertain_writes (count r.write_uncertain)
      ++ item_if (not (is_empty r.last_error)) storage_failure (message r.last_error)

  unfoldable pub report_error : Text → Strip F → Strip F
  report_error error s =
      if not (is_empty error) && not (has error s.reported_errors)
      then record s { reported_errors = error ∷ s.reported_errors; toasts = error ∷ s.toasts }
      else s

  unfoldable pub render_runtime : Report F → Strip F → Strip F
  unfolding runtime_items report_error
  render_runtime r s = report_error r.last_error (record s {
    items = runtime_items r;
    has_warning =
        not (is_empty r.last_error)
        || ltb 0 r.dropped
        || ltb 0 r.write_dropped
        || ltb 0 r.write_uncertain;
  })

  unfoldable pub render_runtimes : List (Report F) → Strip F → Strip F
  unfolding render_runtime
  render_runtimes [] s = s
  render_runtimes (r ∷ rs) s = render_runtimes rs (render_runtime r s)

abbrev pub any_warning : {F : Type 0} → List (RuntimeItem F) → Bool
any_warning [] = false
any_warning (i ∷ is) = i.warning || any_warning is

abbrev pub occurrences : Text → List Text → ℕ
occurrences e ts = sum_by (λ t. if t === e then 1 else 0) ts

abbrev pub errors_of : {F : Type 0} → List (Report F) → List Text
errors_of [] = []
errors_of (r ∷ rs) = r.last_error ∷ errors_of rs

module _ {F : Type 0} where
  -- The strip is marked exactly where one of its items is.
  pub render_runtime-warning :
      (r : Report F) (s : Strip F)
      → (render_runtime r s).has_warning ≡ any_warning (render_runtime r s).items
  unfolding render_runtime runtime_items report_error
  render_runtime-warning r s = ground arith

  -- An error has as many toasts as it has reports, one or none.
  abbrev pub IsReported : Text → Strip F → Type 0
  IsReported e s = occurrences e s.toasts ≡ (if has e s.reported_errors then 1 else 0)

  report_error-IsReported :
      (e error : Text) (s : Strip F) → IsReported e s → IsReported e (report_error error s)
  unfolding report_error
  report_error-IsReported e error s h = ground (arith, list_beq_iff error e)

  report_error-has :
      (e error : Text) (s : Strip F)
      → is_empty e ≡ false
      → has e (report_error error s).reported_errors ≡ (error === e || has e s.reported_errors)
  unfolding report_error
  report_error-has e error s h = ground (arith, list_beq_iff error e)

  -- However often an error of the storage is reported, and whatever is reported between, it is announced
  -- by exactly one toast, and one that is never reported by none.
  pub render_runtimes-toasts :
      (e : Text) (rs : List (Report F)) (s : Strip F)
      → is_empty e ≡ false
      → IsReported e s
      → occurrences e (render_runtimes rs s).toasts
        ≡ (if has e s.reported_errors || has e (errors_of rs) then 1 else 0)
  unfolding render_runtimes render_runtime
  render_runtimes-toasts e [] s n h = ground arith
  render_runtimes-toasts e (r ∷ rs) s n h =
      let shown : Strip F = record s {
        items = runtime_items r;
        has_warning =
            not (is_empty r.last_error)
            || ltb 0 r.dropped
            || ltb 0 r.write_dropped
            || ltb 0 r.write_uncertain;
      } in
      render_runtimes-toasts e rs (report_error r.last_error shown) n
        (report_error-IsReported e r.last_error shown h)
      ∙ ground (arith, report_error-has e r.last_error shown n)
