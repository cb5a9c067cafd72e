-- ===== src/Core/Tests.antt =====
-- Runs of the port allocation, and the theorems about them at those runs.
use hobbyist.Base.{
  codes, all, Text, true, false, ℕ, ◌+◌, ◌-◌, ◌==◌, not, Bool, List, [], ◌∷◌, ◌++◌, none, arith,
  ◌≡◌, refl,
}
use hobbyist.Core.Types.{Resource, running, postgres_config, worker_config}
use hobbyist.Core.Cron.{CronSchedule, has, fires, next_cron_time, five_years_ms}
use hobbyist.Core.Cron.First.{IsFirst, next_cron_time-IsFirst}
use hobbyist.Core.Cron.Words.{split}
use hobbyist.Core.Cron.Parse.{ok, parse_cron, parse_item, parse_field, day_of_week_field}
use hobbyist.Core.Cron.Parse.Gives.{Gives}
use hobbyist.Core.Cron.Parse.Fields.{is_ok, field_means, parse_field_lem}
use hobbyist.Core.Cron.Parse.Expressions.{day_of_week_field-IsField}
use hobbyist.Core.Ports.{stored_ports, allocate_port, allocate_host_port, allocated}
use hobbyist.Core.Ports.Probed.{Probed, allocate_host_port-Probed}

abbrev rows : List Resource
rows =
    record {
      id = "a";
      project_id = "p";
      name = "db";
      state = running;
      config = postgres_config 5432;
    }
    ∷ record {
      id = "b";
      project_id = "p";
      name = "api";
      state = running;
      config = worker_config (record {
        manifest = none;
        host_port = 5433;
        control_port = 5434;
        database_resource_id = none;
      });
    }
    ∷ []

-- The host holds 5436.
abbrev probe : ℕ → ℕ → Bool
probe attempt port = not (port == 5436)

gives_5437 : allocate_host_port probe rows 5432 5440 10 (5435 ∷ []) ≡ allocated 5437
unfolding allocate_host_port hobbyist.Core.Ports.probe_loop allocate_port
    hobbyist.Core.Ports.first_free stored_ports
gives_5437 = refl

allocate_host_port-Probed_example :
    Probed probe rows 5432 5440 (5435 ∷ []) (allocate_host_port probe rows 5432 5440 10 (5435 ∷ []))
allocate_host_port-Probed_example =
    allocate_host_port-Probed probe rows 5432 5440 10 (5435 ∷ []) (omega arith)

abbrev candlemas : CronSchedule
candlemas = record {
  expression = codes "30 5 2 2 *";
  minutes = 30 ∷ [];
  hours = 5 ∷ [];
  days_of_month = 2 ∷ [];
  months = 2 ∷ [];
  days_of_week = [];
  any_day_of_month = false;
  any_day_of_week = true;
}

-- 32 days, five hours and a half.
candlemas_time : next_cron_time candlemas 4 ≡ fires 2784600000
unfolding next_cron_time hobbyist.Core.Cron.next_loop hobbyist.Core.Calendar.civil
    hobbyist.Core.Calendar.date_utc hobbyist.Core.Calendar.month_start
    hobbyist.Core.Calendar.days_before_year hobbyist.Core.Calendar.days_before_month
    hobbyist.Core.Calendar.days_in_month hobbyist.Core.Calendar.next_day
    hobbyist.Core.Cron.day_matches
candlemas_time = refl

next_cron_time-IsFirst_example :
    IsFirst candlemas 5 (4 + five_years_ms) (next_cron_time candlemas 4)
next_cron_time-IsFirst_example = next_cron_time-IsFirst candlemas 4

parse_field_lem_example :
    (is_ok (parse_field day_of_week_field (codes "mon-fri,7"))
      ≡ all (λ item. is_ok (parse_item day_of_week_field item)) (split b',' (codes "mon-fri,7")))
    × Gives
        (λ set. (v : ℕ) → has v set ≡ field_means day_of_week_field (codes "mon-fri,7") v)
        (parse_field day_of_week_field (codes "mon-fri,7"))
parse_field_lem_example =
    parse_field_lem day_of_week_field day_of_week_field-IsField (codes "mon-fri,7")

abbrev noon : CronSchedule
noon = record {
  expression = codes " 0  12 * * 7";
  minutes = 0 ∷ [];
  hours = 12 ∷ [];
  days_of_month =
      1 ∷ 2 ∷ 3 ∷ 4 ∷ 5 ∷ 6 ∷ 7 ∷ 8 ∷ 9 ∷ 10 ∷ 11 ∷ 12 ∷ 13 ∷ 14 ∷ 15 ∷ 16 ∷ 17 ∷ 18 ∷ 19 ∷ 20 ∷ 21
      ∷ 22 ∷ 23 ∷ 24 ∷ 25 ∷ 26 ∷ 27 ∷ 28 ∷ 29 ∷ 30 ∷ 31 ∷ [];
  months = 1 ∷ 2 ∷ 3 ∷ 4 ∷ 5 ∷ 6 ∷ 7 ∷ 8 ∷ 9 ∷ 10 ∷ 11 ∷ 12 ∷ [];
  days_of_week = 0 ∷ [];
  any_day_of_month = true;
  any_day_of_week = false;
}

parse_noon : parse_cron (codes " 0  12 * * 7") ≡ ok noon
unfolding parse_cron hobbyist.Core.Cron.Parse.parse_fields hobbyist.Core.Cron.Words.split_spaces
    parse_field hobbyist.Core.Cron.Parse.parse_items split parse_item
    hobbyist.Core.Cron.Parse.parse_parts hobbyist.Core.Cron.Parse.parse_span
    hobbyist.Core.Cron.Parse.parse_step hobbyist.Core.Cron.Parse.parse_bounds hobbyist.Base.text_eq
    hobbyist.Core.Cron.Parse.parse_value hobbyist.Core.Cron.Parse.named_value
    hobbyist.Core.Cron.Parse.index_of hobbyist.Core.Cron.Parse.parse_number
    hobbyist.Core.Cron.Parse.number hobbyist.Core.Cron.Parse.add_values
parse_noon = refl
