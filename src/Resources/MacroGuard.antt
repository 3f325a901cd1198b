-- ===== src/Resources/MacroGuard.antt =====
-- src/modules/resources/macro-guard.ts and macro-guard-settings.ts. A date is its number of
-- milliseconds, and `a >= b - c` stands as `a + c >= b`, since these numbers stop at 0. A guard is the
-- event that it names, less its source URL, or `none` where it is not active.
pub mod Earliest
use braiker.Prelude.Sort.{sort_by}
use braiker.Prelude.{
  List, [], ◌∷◌, Option, none, some, Bool, true, false, ℕ, zero, suc, ◌≡◌, refl, arith, inl, inr,
  String, str_eq, leb, keep, ◌+◌, get_or, ◌*◌, ◌&&◌,
}

pub record MacroCalendarEvent : Type 0 where
  pub id : String
  pub title : String
  pub starts_at : ℕ
  pub impact : String
  pub before_minutes : Option ℕ
  pub after_minutes : Option ℕ

-- `defaultMacroGuardWindow`
abbrev pub default_before_minutes : ℕ
default_before_minutes = 10

abbrev pub default_after_minutes : ℕ
default_after_minutes = 15

unfoldable pub is_high_impact : MacroCalendarEvent → Bool
is_high_impact event = str_eq event.impact "HIGH"

unfoldable pub holds_now : ℕ → MacroCalendarEvent → Bool
holds_now now event =
    leb event.starts_at (now + get_or event.before_minutes default_before_minutes * 60_000)
    && leb now (event.starts_at + get_or event.after_minutes default_after_minutes * 60_000)

unfoldable pub starts_no_later : MacroCalendarEvent → MacroCalendarEvent → Bool
starts_no_later left right = leb left.starts_at right.starts_at

unfoldable pub first_of : List MacroCalendarEvent → Option MacroCalendarEvent
first_of [] = none
first_of (event ∷ events) = some event

unfoldable pub active_macro_guard : List MacroCalendarEvent → ℕ → Option MacroCalendarEvent
active_macro_guard events now =
    first_of (sort_by starts_no_later (keep (holds_now now) (keep is_high_impact events)))
