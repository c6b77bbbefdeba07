-- ===== src/Lib.antt =====
-- A model of the dashboard of CPA usage keeper: the browser program go/dashboard/app.js, which
-- shows the usage that the plugin's HTTP API reports, and theorems on what it does.
--
-- The program is one closure over a shared record `state`. A page load (`loadActivePage`) asks the
-- cache (`cached`) for the responses that the page needs, which asks the API (`api`) for those it
-- lacks; a timer, the navigation and the visibility of the tab start loads, and each load gives
-- way to the ones started after it.
--
--   Prelude      helpers: Boolean tests, lists, integers, equality, maps in insertion order, sorting,
--                text
--   Cache        `cached`, `trackCacheExpiry`, `cacheScope`, `clearFrontendCache`
--   Markup       `esc`, `unescapeHTML`, and five pieces of markup
--   Dates        `chinaInputToMillis`, `chinaMillisToInput`, `isCalendarDay`
--   Session      `loadActivePage`, `loadOverview`, `loadInterfaces`, `loadSettings`, the refresh
--                timer, `bindNavigation`, `handleVisibilityChange`, `bindAuth`
--   Listing      `bindEvents`, `eventParams`, `loadEvents`, `setEventFilterForm`, `activateRange`, the
--                chips of the filters and the drill-downs to the list of events
--   Calendar     `bindRange`, `loadCalendarDays`, `updateCalendarSelection`, `shiftMonth`,
--                `renderCalendars`, `renderRangeSummary`
--   Api          `api`, `download`
--   Prices       `renderPrices`, `getTablePrices`, the import in `bindSettings`,
--                `parseImportedPrices`, `exportPricesJSON`, `autoFillUnpricedModels`, the picker of
--                models and `getRequestedModelsList`
--   Health       `renderHealth`, `bindHealthInteractivity`
--   Selects      `fillSelect`, `initCustomSelects`, `syncCustomSelectOptions`
--   Drawer       `openUpstream`, `openEventDetail`, `closeDrawer`, `bindDrawer`
--   Charts       `cacheHitRate`, `healthLevel`, `buildClampedSmoothPath`
--   Distributions  `distributionCard`, `bindDistributionInteractivity`
--   Tokens       `renderTokenComposition`, `bindTokenInteractivity`
--   Trend        `renderTrend`, `bindTrendInteractiveLegend`
--   Providers    `renderProviderTokenChart` with its legend, `renderUpstreamLatencyBoard`,
--                `renderInterfaceSummary`, and the labels of `renderUpstreams`
--   Settings     `savePrices`, `saveStorageSettings`, `restoreBackup`, `renderRuntime`
--   Rows         `renderEvents`, `renderTokenCell`, `formatTPS`, and the counts of `openUpstream`
--   Kpis         `animateNumber`, `makeSparkline`
--   Tooltip      `positionFloatingTooltip`
--   Errors       `formatErrorMessage`
--   Keys         `readManagementKey`, `decodeObfuscated`, `parseJSON`, `findManagementKey`
--
-- An async function is its pieces between awaits, each a function on the state it finds: `cached`
-- is `cached_lookup` and `cached_store`, a page load is `load_active_page` and then `resume_load`
-- at each end of a wait. `Session.Events.step` takes the browser's events and the ends of waits
-- in any order, so a list of them is an interleaving. A Map is a list of keys and values in
-- insertion order; sessionStorage is such a list that may be disabled or full; a text is the list
-- of its UTF-16 code units; times are milliseconds, as numbers from the year 0 on where dates are
-- computed and as integers from 1970 where the program keeps them. The clock's readings are
-- arguments.
--
-- The loop that makes room in the cache runs on as much fuel as the Map has entries, and each of
-- its rounds removes one; `parseJSON` runs on one more than its text has code units, and each text
-- inside another is shorter. Years end at 9999, which the input's four digits guarantee.
--
-- `JSON` on cache entries, `JSON.parse` and `JSON.stringify` elsewhere, `atob` and `TextDecoder`
-- on the stored key, `toLowerCase` on names of models, `trim` in the table of prices, and what an
-- engine makes of a date that does not exist are parameters; doubles are a record of operations
-- with the laws of order that hold away from NaN, and the numbers in JSON one without laws.
-- `String` and `Number` of JSON values, `trim` elsewhere and the regular expressions are defined.
-- Of rendering, the numbers and the choices are modelled, and of the markup five pieces: a percentage
-- or a length is the double before its digits are cut, a chart is the list of what it draws, and a
-- handler of the pointer works on what `closest` and `contains` tell of the event's place. The one
-- floating tooltip is written by several components; the model of each takes what the others write as
-- further events. A session
-- holds what was last rendered as the response it was rendered from. The rest of the markup and the
-- texts of the Intl formatters are left out. The Go plugin is not part of the model.
pub mod Prelude
pub mod Cache
pub mod Markup
pub mod Dates
pub mod Session
pub mod Listing
pub mod Prices
pub mod Health
pub mod Calendar
pub mod Api
pub mod Selects
pub mod Drawer
pub mod Keys
pub mod Charts
pub mod Errors
pub mod Distributions
pub mod Tokens
pub mod Trend
pub mod Providers
pub mod Settings
pub mod Rows
pub mod Kpis
pub mod Tooltip
