-- ===== src/Resources/MacroGuard/Earliest.antt =====
-- The event that src/modules/resources/macro-guard.ts chooses.
use braiker.Prelude.Sort.{sort_by, insert_by, IsSortedBy, sort_by-IsSortedBy}
use braiker.Resources.MacroGuard.{
  MacroCalendarEvent, is_high_impact, holds_now, starts_no_later, first_of, active_macro_guard,
}
use braiker.Prelude.{
  List, [], ◌∷◌, Option, none, some, true, false, ℕ, ◌≡◌, refl, arith, inl, inr, All, keep, ◌↔◌,
  Bool-cases, ◌≤◌, subst, sym,
}

-- A high-impact event whose window holds now.
abbrev pub Applies : ℕ → MacroCalendarEvent → Type 0
Applies now event = (is_high_impact event ≡ true) × (holds_now now event ≡ true)

module _ {κ} (P : MacroCalendarEvent → Type κ) where
  All-insert :
      (x : MacroCalendarEvent) (ys : List MacroCalendarEvent)
      → All P (insert_by starts_no_later x ys) ↔ (P x × All P ys)
  unfolding insert_by
  All-insert x [] = (λ h. h, λ h. h)
  All-insert x (y ∷ ys) = elim (Bool-cases (starts_no_later x y)) [
    | inl e ↦ rw e (λ h. h, λ h. h)
    | inr e ↦
        let rest = All-insert x ys in
        rw e (λ h. ((rest.0 h.1).0, (h.0, (rest.0 h.1).1)), λ h. (h.1.0, rest.1 (h.0, h.1.1)))
  ]

  All-sorted : (xs : List MacroCalendarEvent) → All P (sort_by starts_no_later xs) ↔ All P xs
  unfolding sort_by
  All-sorted [] = (λ h. h, λ h. h)
  All-sorted (x ∷ xs) =
      let here = All-insert x (sort_by starts_no_later xs) in
      let rest = All-sorted xs in
      (λ h. ((here.0 h).0, rest.0 (here.0 h).1), λ h. here.1 (h.0, rest.1 h.1))

All-keep :
    (now : ℕ) (events : List MacroCalendarEvent)
    → All (Applies now) (keep (holds_now now) (keep is_high_impact events))
All-keep now [] = tt
All-keep now (e ∷ events) = elim (Bool-cases (is_high_impact e)) [
  | inr h ↦ rw h (All-keep now events)
  | inl h ↦ elim (Bool-cases (holds_now now e)) [
    | inr w ↦ rw (h, w) (All-keep now events)
    | inl w ↦ rw (h, w) ((h, w), All-keep now events)
  ]
]

All-from_kept {κ} :
    (P : MacroCalendarEvent → Type κ) (now : ℕ) (events : List MacroCalendarEvent)
    → All P (keep (holds_now now) (keep is_high_impact events))
    → All (λ e. Applies now e → P e) events
All-from_kept P now [] h = tt
All-from_kept P now (e ∷ events) h = elim (Bool-cases (is_high_impact e)) [
  | inr i ↦ (λ a. absurd (cc (a.0, i)), All-from_kept P now events (rw i at h))
  | inl i ↦ elim (Bool-cases (holds_now now e)) [
    | inr w ↦ (λ a. absurd (cc (a.1, w)), All-from_kept P now events (rw (i, w) at h))
    | inl w ↦ let h' = rw (i, w) at h in (λ a. h'.0, All-from_kept P now events h'.1)
  ]
]

-- What the guard says of the events.
abbrev pub Chosen : ℕ → List MacroCalendarEvent → Option MacroCalendarEvent → Type 0
Chosen now events none = All (λ e. ¬ (Applies now e)) events
Chosen now events (some event) =
    Applies now event × All (λ e. Applies now e → event.starts_at ≤ e.starts_at) events

All-no_later :
    (event : MacroCalendarEvent) (rest : List MacroCalendarEvent)
    → All (λ y. starts_no_later event y ≡ true) rest
    → All (λ x. event.starts_at ≤ x.starts_at) rest
unfolding starts_no_later
All-no_later event [] h = tt
All-no_later event (e ∷ rest) h = (ground arith, All-no_later event rest h.1)

starts_total : (a b : MacroCalendarEvent) → starts_no_later a b ≡ false → starts_no_later b a ≡ true
unfolding starts_no_later
starts_total a b h = ground arith

starts_trans :
    (a b c : MacroCalendarEvent)
    → starts_no_later a b ≡ true
    → starts_no_later b c ≡ true
    → starts_no_later a c ≡ true
unfolding starts_no_later
starts_trans a b c h h' = ground arith

first_of-Chosen :
    (now : ℕ) (events sorted : List MacroCalendarEvent)
    → sort_by starts_no_later (keep (holds_now now) (keep is_high_impact events)) ≡ sorted
    → IsSortedBy starts_no_later sorted
    → Chosen now events (first_of sorted)
unfolding first_of
first_of-Chosen now events [] e s =
    All-from_kept (λ e. ⊥) now events ((All-sorted (λ e. ⊥) _).0 (subst (All (λ e. ⊥)) (sym e) tt))
first_of-Chosen now events (event ∷ rest) e s =
    let kept = keep (holds_now now) (keep is_high_impact events) in
    let applies = (All-sorted (Applies now) kept).1 (All-keep now events) in
    let earliest =
      All-from_kept (λ x. event.starts_at ≤ x.starts_at) now events
        ((All-sorted (λ x. event.starts_at ≤ x.starts_at) kept).0 (
          subst (All (λ x. event.starts_at ≤ x.starts_at)) (sym e)
            (omega arith, All-no_later event rest s.0))) in
    ((subst (All (Applies now)) e applies).0, earliest)

-- For every list of events and every time, where no guard is active no high-impact event's window
-- holds then, and otherwise the guard is such an event and starts no later than any other.
pub active_macro_guard-Chosen :
    (events : List MacroCalendarEvent) (now : ℕ) → Chosen now events (active_macro_guard events now)
unfolding active_macro_guard
active_macro_guard-Chosen events now = first_of-Chosen now events _ refl (
    sort_by-IsSortedBy starts_no_later starts_total starts_trans
      (keep (holds_now now) (keep is_high_impact events)))
