-- ===== src/Cache/Runs.antt =====
-- A run of the cache.
use cpa_keeper_dashboard.Prelude.{ℕ, refl, true, false, List, [], ◌∷◌, arith}
use cpa_keeper_dashboard.Prelude.OrdMap.{get}
use cpa_keeper_dashboard.Prelude.Text.{Text, codes}
use cpa_keeper_dashboard.Cache.{Entry, Codec, Parsed, throws, an_entry, FrontendCache}
use cpa_keeper_dashboard.Cache.Log.{Refines}
use cpa_keeper_dashboard.Cache.Served.{Event, lookup, store, clear, Serves, answer-Serves}

write_numbers : Entry ℕ → Text
write_numbers e = e.content ∷ e.expires_at ∷ []

read_numbers : Text → Parsed ℕ
read_numbers (a ∷ b ∷ []) = an_entry (record { content = a; expires_at = b })
read_numbers _ = throws

abbrev numbers : Codec ℕ
unfolding write_numbers read_numbers
numbers = record {
  stringify = write_numbers;
  parse = read_numbers;
  parse-stringify = λ e. refl;
  stringify-ne-nil = λ e h. absurd (unfold write_numbers in ground arith);
}

abbrev first_visit : FrontendCache ℕ
first_visit = record {
  cache = [];
  refresh_deadline = 0;
  storage = record { enabled = true; items = [] };
}

abbrev path : Text
path = codes "/summary"

abbrev visit : List (Event ℕ)
visit =
    store [] path 7 1_000 true
    ∷ lookup [] path false 2_000 2_000
    ∷ clear
    ∷ lookup [] path false 3_000 3_000
    ∷ []

first_visit-Refines : Refines numbers first_visit []
first_visit-Refines = record {
  in_map = λ k e g. absurd (unfold get in ground arith);
  in_storage = λ on k raw e p g r. absurd (unfold get in ground arith);
}

answer-Serves_example : Serves numbers visit first_visit []
answer-Serves_example = answer-Serves numbers visit first_visit [] first_visit-Refines
