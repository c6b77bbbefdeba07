-- ===== src/Settings/Tests.antt =====
-- A form that is saved while an entry is cached, and an error that is reported twice.
use cpa_keeper_dashboard.Prelude.{
  ℕ, ◌≡◌, refl, true, false, none, some, [], ◌∷◌, length, ◌||◌, if◌then◌else◌, arith,
}
use cpa_keeper_dashboard.Prelude.Int.{pos}
use cpa_keeper_dashboard.Prelude.Text.{Text, codes}
use cpa_keeper_dashboard.Cache.{Entry, Codec, Parsed, throws, an_entry, cached_lookup}
use cpa_keeper_dashboard.Api.{value, refused, Fetched, responds, Client, api_finish}
use cpa_keeper_dashboard.Settings.{
  Panel, Form, storage, backup, Messages, end_form, save_storage_settings, render_storage, failed,
  restore_backup, Readers, saving_storage, end_request,
}
use cpa_keeper_dashboard.Settings.Saving.{is_value, end_request-cached_lookup}
use cpa_keeper_dashboard.Settings.Runtime.{
  Report, Strip, has, occurrences, errors_of, runtime_items, render_runtimes,
  render_runtimes-toasts,
}

write_numbers : Entry ℕ → Text
write_numbers e = e.content ∷ e.expires_at ∷ []

read_numbers : Text → Parsed ℕ
read_numbers (a ∷ b ∷ []) = an_entry (record { content = a; expires_at = b })
read_numbers _ = throws

-- Responses that are numbers.
abbrev numbers : Codec ℕ
unfolding write_numbers read_numbers
numbers = record {
  stringify = write_numbers;
  parse = read_numbers;
  parse-stringify = λ e. refl;
  stringify-ne-nil = λ e h. absurd (unfold write_numbers in ground arith);
}

abbrev key : Text
key = codes "usage-keeper-cache:0:summary"

abbrev panel : Panel ℕ ℕ
panel = record {
  rows = record { model = codes "gpt"; prices = 3 } ∷ [];
  retention_days = 30;
  export_max_records = 50_000;
  frontend_cache = record {
    cache = (key, record { content = 7; expires_at = 9_000 }) ∷ [];
    refresh_deadline = 9_000;
    storage = record { enabled = true; items = (key, 7 ∷ 9_000 ∷ []) ∷ [] };
  };
  toasts = [];
  reloads = 0;
}

abbrev messages : Messages ℕ
messages = record {
  of_prices = λ r. codes "prices";
  of_storage = λ r. codes "storage";
  of_backup = λ r. [];
}

abbrev submit : Form ℕ → Panel ℕ ℕ
submit form = end_form (λ s. s) (λ s. s) 0 messages form panel

abbrev settings : Form ℕ
settings = storage (value (record { retention_days = 0; export_max_records = 10 }))

default_days : (submit settings).retention_days ≡ 30
unfolding end_form save_storage_settings render_storage
default_days = refl

not_restored : (submit (backup (some (refused 400 none)))).toasts ≡ failed (codes "导入失败") ∷ []
unfolding end_form restore_backup
not_restored = refl

abbrev client : Client ℕ
client = record {
  management_key = codes "key";
  key_stored = true;
  pending_requests = pos 1;
  frontend_cache = panel.frontend_cache;
  online = true;
  auth_dialog = false;
  toasts = 0;
  downloads_done = 0;
  api_calls = 1;
  download_calls = 0;
}

abbrev readers : Readers ℕ ℕ
readers = record {
  prices_of = λ b. [];
  config_of = λ b. record { retention_days = b; export_max_records = 0 };
  restored_of = λ b. b;
}

-- The key is refused while the settings are saved.
abbrev unauthorized : Fetched ℕ
unauthorized =
    responds (record {
      status = 401;
      aborted = false;
      aborted_reading = false;
      body = none;
      message = none;
    })

abbrev refused_settings : Panel ℕ ℕ
refused_settings =
    end_request (λ s. s) (λ s. s) 0 messages readers saving_storage unauthorized client panel

end_request-cached_lookup_example :
    ((cached_lookup numbers key false 0 0 refused_settings.frontend_cache).1 ≡ (
      if is_value (api_finish unauthorized client).1 || true
      then none
      else (cached_lookup numbers key false 0 0 panel.frontend_cache).1))
    × (length refused_settings.toasts ≡ 1)
end_request-cached_lookup_example =
    end_request-cached_lookup (λ s. s) (λ s. s) 0 messages numbers readers saving_storage
      unauthorized client panel key false 0 0 refl

abbrev report : Report ℕ
report = record {
  queue_depth = 1;
  queue_capacity = 0;
  accepted = 5;
  written = 4;
  dropped = 0;
  write_dropped = 0;
  write_uncertain = 1;
  last_batch_ms = 2;
  last_error = codes "disk full";
}

abbrev no_strip : Strip ℕ
no_strip = record { items = []; has_warning = false; reported_errors = []; toasts = [] }

seven_items : length (runtime_items report) ≡ 7
unfolding runtime_items
seven_items = refl

render_runtimes-toasts_example :
    occurrences (codes "disk full") (render_runtimes (report ∷ report ∷ []) no_strip).toasts
    ≡ (if has (codes "disk full") (errors_of (report ∷ report ∷ [])) then 1 else 0)
render_runtimes-toasts_example =
    render_runtimes-toasts (codes "disk full") (report ∷ report ∷ []) no_strip refl refl
