-- ===== src/Settings.antt =====
-- The forms of the settings page (go/dashboard/app.js): `savePrices`, `saveStorageSettings` and
-- `restoreBackup`, each cut at its request, `renderStorage`'s two fields, and in the child Runtime
-- what `renderRuntime` shows. The text of a toast about an error is a parameter.
pub mod Saving
pub mod Runtime
mod Tests
use cpa_keeper_dashboard.Prelude.{ℕ, suc, Bool, Option, none, some, List, [], ◌∷◌, length}
use cpa_keeper_dashboard.Prelude.Text.{Text, codes}
use cpa_keeper_dashboard.Cache.{FrontendCache, clear_frontend_cache}
use cpa_keeper_dashboard.Api.{
  Result, value, auth_required, abort_error, network_error, unreadable, storage_error, refused,
  Fetched, Client, api_finish,
}
use cpa_keeper_dashboard.Prices.{Price, table_prices, render_prices}
use cpa_keeper_dashboard.Tokens.{count_or}

pub data Toast : Type 0 where
  saved_prices restored_events : ℕ → Toast
  saved_settings : Toast
  failed : Text → Toast

-- Of the page: the rows of the price table, the two fields of the storage form, the cache, the toasts
-- with the newest first, and how often `restoreBackup` has called `loadActivePage`.
pub record Panel (D P : Type 0) : Type 0 where
  pub rows : List (Price P)
  pub retention_days : ℕ
  pub export_max_records : ℕ
  pub frontend_cache : FrontendCache D
  pub toasts : List Toast
  pub reloads : ℕ

-- What `renderStorage` reads of a response for the two fields; what is left out is 0.
pub record Config : Type 0 where
  pub retention_days : ℕ
  pub export_max_records : ℕ

abbrev pub notify : {D P : Type 0} → Toast → Panel D P → Panel D P
notify toast p = record p { toasts = toast ∷ p.toasts }

-- What a request that did not give a value leaves of the page.
abbrev error_of : {D P R : Type 0} → (Result R → Text) → Result R → Panel D P → Panel D P
error_of message error p = notify (failed (message error)) p

module _ {D P : Type 0} (trim lower : Text → Text) (zeros : P) where
  -- The prices that `savePrices` sends.
  unfoldable pub save_prices_start : Panel D P → List (Price P)
  save_prices_start p = table_prices trim p.rows

  -- The rest of `savePrices`, of what it sent.
  unfoldable pub save_prices_finish :
      (Result (List (Price P)) → Text)
      → (sent : List (Price P)) → Result (List (Price P))
      → Panel D P
      → Panel D P
  unfolding clear_frontend_cache
  save_prices_finish message sent (value prices) p = notify (saved_prices (length sent)) (record p {
    rows = render_prices lower trim zeros prices;
    frontend_cache = clear_frontend_cache p.frontend_cache;
  })
  save_prices_finish message sent error p = error_of message error p

-- `error.message || '导入失败'`
abbrev or_import_failed : Text → Text
or_import_failed [] = codes "导入失败"
or_import_failed (c ∷ s) = c ∷ s

module _ {D P : Type 0} where
  -- `config.retention_days || 30`, `config.export_max_records || 50000`
  unfoldable pub render_storage : Config → Panel D P → Panel D P
  render_storage config p = record p {
    retention_days = count_or config.retention_days 30;
    export_max_records = count_or config.export_max_records 50000;
  }

  unfoldable pub save_storage_settings :
      (Result Config → Text) → Result Config → Panel D P → Panel D P
  unfolding render_storage clear_frontend_cache
  save_storage_settings message (value config) p =
      let q = render_storage config p in
      notify saved_settings (record q { frontend_cache = clear_frontend_cache q.frontend_cache })
  save_storage_settings message error p = error_of message error p

  -- `none` where no file was chosen; the result is that of the request, of the events restored
  unfoldable pub restore_backup : (Result ℕ → Text) → Option (Result ℕ) → Panel D P → Panel D P
  unfolding clear_frontend_cache
  restore_backup message none p = p
  restore_backup message (some (value events)) p = record (notify (restored_events events) p) {
    frontend_cache = clear_frontend_cache p.frontend_cache;
    reloads = suc p.reloads;
  }
  restore_backup message (some error) p = notify (failed (or_import_failed (message error))) p

-- The end of one of the three; `restoreBackup` has no request where no file was chosen.
pub data Form (P : Type 0) : Type 0 where
  prices : (sent : List (Price P)) → Result (List (Price P)) → Form P
  storage : Result Config → Form P
  backup : Option (Result ℕ) → Form P

-- The texts of the errors.
pub record Messages (P : Type 0) : Type 0 where
  pub of_prices : Result (List (Price P)) → Text
  pub of_storage : Result Config → Text
  pub of_backup : Result ℕ → Text

unfoldable pub end_form :
    {D P : Type 0} → (trim lower : Text → Text) → P → Messages P → Form P → Panel D P → Panel D P
unfolding save_prices_finish save_storage_settings restore_backup
end_form trim lower zeros m (prices sent result) p =
    save_prices_finish trim lower zeros m.of_prices sent result p
end_form trim lower zeros m (storage result) p = save_storage_settings m.of_storage result p
end_form trim lower zeros m (backup result) p = restore_backup m.of_backup result p

-- What each form asks `api` for, and how a body, which is taken to be an object, is read as the answer.
pub data Asked (P : Type 0) : Type 0 where
  saving_prices : (sent : List (Price P)) → Asked P
  saving_storage restoring_backup : Asked P

pub record Readers (B P : Type 0) : Type 0 where
  pub prices_of : B → List (Price P)
  pub config_of : B → Config
  pub restored_of : B → ℕ

abbrev pub map_result : {A B : Type 0} → (A → B) → Result A → Result B
map_result f (value a) = value (f a)
map_result f auth_required = auth_required
map_result f abort_error = abort_error
map_result f network_error = network_error
map_result f unreadable = unreadable
map_result f storage_error = storage_error
map_result f (refused status message) = refused status message

abbrev pub form_of : {B P : Type 0} → Readers B P → Asked P → Result B → Form P
form_of readers (saving_prices sent) result = prices sent (map_result readers.prices_of result)
form_of readers saving_storage result = storage (map_result readers.config_of result)
form_of readers restoring_backup result = backup (some (map_result readers.restored_of result))

-- How a form goes on when its `fetch` ends: the rest of `api`, which may clear the cache, and then its
-- own rest, with what `api` returns or throws.
unfoldable pub end_request :
    {B P : Type 0}
    → (trim lower : Text → Text) → P
    → Messages P
    → Readers B P
    → Asked P
    → Fetched B
    → Client B
    → Panel B P
    → Panel B P
unfolding end_form
end_request trim lower zeros m readers asked f c p =
    let (c', result) = api_finish f c in
    end_form trim lower zeros m (form_of readers asked result)
      (record p { frontend_cache = c'.frontend_cache })
