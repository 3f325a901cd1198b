-- ===== src/Resources/Tests.antt =====
-- A run of the macro guard on two releases.
use braiker.Resources.MacroGuard.{MacroCalendarEvent, active_macro_guard}
use braiker.Resources.MacroGuard.Earliest.{Chosen, active_macro_guard-Chosen}
use braiker.Prelude.{List, [], ◌∷◌, none, some}

abbrev releases : List MacroCalendarEvent
releases =
    record {
      id = "fomc";
      title = "FOMC decision";
      starts_at = 7_200_000;
      impact = "HIGH";
      before_minutes = some 30;
      after_minutes = none;
    }
    ∷ record {
      id = "cpi";
      title = "CPI";
      starts_at = 6_000_000;
      impact = "HIGH";
      before_minutes = none;
      after_minutes = none;
    }
    ∷ []

active_macro_guard-Chosen_example :
    Chosen 6_300_000 releases (active_macro_guard releases 6_300_000)
active_macro_guard-Chosen_example = active_macro_guard-Chosen releases 6_300_000
