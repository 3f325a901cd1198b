-- ===== src/Prelude/Table.antt =====
-- `updateMany({ where, data })` on a table, which is a list of rows: the rows that the clause picks.
use mathlib.Core.Path.{◌≡◌}
use mathlib.Core.Bool.{Bool, true}
use mathlib.Core.List.{List, [], ◌∷◌}
use mathlib.Core.Logic.{inl, inr}
use braiker.Prelude.Tests.{if◌then◌else◌, Bool-cases}
use braiker.Prelude.Lists.{All}
use braiker.Prelude.{String, length, not, keep, ◌==◌, arith, false, refl, ◌++◌}
use braiker.Prelude.Result.{Result, ok, throw_if, throw_if->>, ◌>>◌, ok-injective}

module _ {ℓ} {A : Type ℓ} where
  unfoldable pub update_rows : (A → Bool) → (A → A) → List A → List A
  update_rows picks change [] = []
  update_rows picks change (row ∷ rows) =
      let rest = update_rows picks change rows in
      if picks row then change row ∷ rest else row ∷ rest

  -- What the change keeps where the clause picks holds of every row after it.
  pub All-update_rows {κ} :
      (P : A → Type κ) (picks : A → Bool) (change : A → A) (rows : List A)
      → ((row : A) → picks row ≡ true → P row → P (change row))
      → All P rows
      → All P (update_rows picks change rows)
  unfolding update_rows
  All-update_rows P picks change [] keeps h = tt
  All-update_rows P picks change (row ∷ rows) keeps h = elim (Bool-cases (picks row)) [
    | inl e ↦ rw e (keeps row e h.0, All-update_rows P picks change rows keeps h.1)
    | inr e ↦ rw e (h.0, All-update_rows P picks change rows keeps h.1)
  ]

  -- What the change makes of every row, whatever it was.
  pub All-made {κ} :
      (P : A → Type κ) (picks : A → Bool) (change : A → A) (rows : List A)
      → ((row : A) → picks row ≡ true → P (change row))
      → ((row : A) → picks row ≡ false → P row)
      → All P (update_rows picks change rows)
  unfolding update_rows
  All-made P picks change [] makes passes = tt
  All-made P picks change (row ∷ rows) makes passes = elim (Bool-cases (picks row)) [
    | inl e ↦ rw e (makes row e, All-made P picks change rows makes passes)
    | inr e ↦ rw e (passes row e, All-made P picks change rows makes passes)
  ]

  pub All-weaken {κ μ} :
      (P : A → Type κ) (Q : A → Type μ) (rows : List A)
      → ((row : A) → P row → Q row)
      → All P rows
      → All Q rows
  All-weaken P Q [] weaken h = tt
  All-weaken P Q (row ∷ rows) weaken h = (weaken row h.0, All-weaken P Q rows weaken h.1)

  pub All-append {κ} :
      (P : A → Type κ) (rows : List A) (last : A) → All P rows → P last → All P (rows ++ last ∷ [])
  All-append P [] last h l = (l, tt)
  All-append P (row ∷ rows) last h l = (h.0, All-append P rows last h.1 l)

  pub keep-none :
      (picks : A → Bool) (rows : List A)
      → All (λ row. picks row ≡ false) rows
      → keep picks rows ≡ []
  keep-none picks [] h = refl
  keep-none picks (row ∷ rows) h = rw (h.0, keep-none picks rows h.1) refl

  -- `updateMany` whose count must be 1, and `update` by a key: anything else throws.
  unfoldable pub update_one : (A → Bool) → (A → A) → String → List A → Result (List A)
  update_one picks change e rows =
      throw_if (not (length (keep picks rows) == 1)) e >> ok (update_rows picks change rows)

  pub update_one-ok :
      (picks : A → Bool) (change : A → A) (e : String) (rows rows' : List A)
      → update_one picks change e rows ≡ ok rows'
      → (length (keep picks rows) ≡ 1) × (update_rows picks change rows ≡ rows')
  unfolding update_one
  update_one-ok picks change e rows rows' h =
      let (one, made) = throw_if->> (not (length (keep picks rows) == 1)) e _ h in
      (ground arith, ok-injective made)
