-- ===== src/Wallets/Transfers/Totals.antt =====
-- Sums of a column over a table, and what the routes' updates do to them.
use braiker.Prelude.{
  ◌≡◌, List, Bool, ◌∷◌, ◌∙◌, ap, sym, [], ◌++◌, length, keep, Bool-cases, arith, inl, inr, refl,
  String, subst,
}
use braiker.Decimal.{ExactColumns, Decimal}
use braiker.Wallets.Transfers.{incremented, decremented}
use braiker.Prelude.Table.{update_rows, update_one, update_one-ok}
use braiker.Prelude.Result.{ok}

module _ (d : Decimal) where
  abbrev pub total : {R : Type 0} → (R → d.Carrier) → List R → d.Carrier
  total column [] = d.zero_value
  total column (row ∷ rows) = d.plus (column row) (total column rows)

  module _ (exact : ExactColumns d) where
    pub plus-incremented : (x y : d.Carrier) → incremented d x y ≡ d.plus y x
    unfolding incremented
    plus-incremented x y = exact.is_column (d.plus y x)

    pub decremented-plus : (x y : d.Carrier) → d.plus (decremented d x y) x ≡ y
    unfolding decremented
    decremented-plus x y = rw (exact.is_column (d.minus y x)) (exact.minus_plus y x)

    swap_last : (x y z : d.Carrier) → d.plus (d.plus x y) z ≡ d.plus (d.plus x z) y
    swap_last x y z =
        exact.plus_assoc x y z ∙ ap (d.plus x) (exact.plus_comm y z) ∙ sym (exact.plus_assoc x z y)

    -- What one side gains, the other loses.
    pub moved :
        {a a' b b' : d.Carrier} (x : d.Carrier)
        → a' ≡ d.plus a x
        → d.plus b' x ≡ b
        → d.plus a' b' ≡ d.plus a b
    moved {a = a} {b' = b'} x gains loses =
        ap (λ z. d.plus z b') gains
        ∙ exact.plus_assoc a x b'
        ∙ ap (d.plus a) (exact.plus_comm x b' ∙ loses)

    module _ {R : Type 0} (column : R → d.Carrier) where
      pub total-append :
          (rows : List R) (row : R)
          → total column (rows ++ row ∷ []) ≡ d.plus (total column rows) (column row)
      total-append [] row = exact.plus_comm (column row) d.zero_value
      total-append (r ∷ rows) row =
          ap (d.plus (column r)) (total-append rows row)
          ∙ sym (exact.plus_assoc (column r) (total column rows) (column row))

      module _ (picks : R → Bool) (change : R → R) where
        total-none :
            (rows : List R) → length (keep picks rows) ≡ 0 → update_rows picks change rows ≡ rows
        unfolding update_rows
        total-none [] h = refl
        total-none (r ∷ rows) h = elim (Bool-cases (picks r)) [
          | inl e ↦ absurd (ground (arith, e, h))
          | inr e ↦ ground (arith, e, total-none rows)
        ]

        -- The one row picked changes by an amount; so does the sum.
        pub total-raised :
            (x : d.Carrier)
            → ((r : R) → column (change r) ≡ d.plus (column r) x)
            → (rows : List R) → length (keep picks rows) ≡ 1
            → total column (update_rows picks change rows) ≡ d.plus (total column rows) x
        unfolding update_rows
        total-raised x raises [] h = absurd (omega arith)
        total-raised x raises (r ∷ rows) h = elim (Bool-cases (picks r)) [
          | inl e ↦
              let others : length (keep picks rows) ≡ 0 = ground (arith, e, h) in
              rw (e, total-none rows others, raises r) (swap_last (column r) x (total column rows))
          | inr e ↦
              let later : length (keep picks rows) ≡ 1 = ground (arith, e, h) in
              rw e (
                ap (d.plus (column r)) (total-raised x raises rows later)
                ∙ sym (exact.plus_assoc (column r) (total column rows) x))
        ]

        pub total-lowered :
            (x : d.Carrier)
            → ((r : R) → d.plus (column (change r)) x ≡ column r)
            → (rows : List R) → length (keep picks rows) ≡ 1
            → d.plus (total column (update_rows picks change rows)) x ≡ total column rows
        unfolding update_rows
        total-lowered x lowers [] h = absurd (omega arith)
        total-lowered x lowers (r ∷ rows) h = elim (Bool-cases (picks r)) [
          | inl e ↦
              let others : length (keep picks rows) ≡ 0 = ground (arith, e, h) in
              rw (e, total-none rows others)
                (swap_last (column (change r)) (total column rows) x
                  ∙ ap (λ z. d.plus z (total column rows)) (lowers r))
          | inr e ↦
              let later : length (keep picks rows) ≡ 1 = ground (arith, e, h) in
              rw e (
                exact.plus_assoc (column r) _ x
                ∙ ap (d.plus (column r)) (total-lowered x lowers rows later))
        ]

        pub update_one-raised :
            (x : d.Carrier) (e : String) (rows rows' : List R)
            → update_one picks change e rows ≡ ok rows'
            → ((r : R) → column (change r) ≡ d.plus (column r) x)
            → total column rows' ≡ d.plus (total column rows) x
        update_one-raised x e rows rows' h raises =
            let (one, made) = update_one-ok picks change e rows rows' h in
            subst (λ out. total column out ≡ d.plus (total column rows) x) made
              (total-raised x raises rows one)

        pub update_one-lowered :
            (x : d.Carrier) (e : String) (rows rows' : List R)
            → update_one picks change e rows ≡ ok rows'
            → ((r : R) → d.plus (column (change r)) x ≡ column r)
            → d.plus (total column rows') x ≡ total column rows
        update_one-lowered x e rows rows' h lowers =
            let (one, made) = update_one-ok picks change e rows rows' h in
            subst (λ out. d.plus (total column out) x ≡ total column rows) made
              (total-lowered x lowers rows one)

        total-kept :
            ((r : R) → column (change r) ≡ column r)
            → (rows : List R) → total column (update_rows picks change rows) ≡ total column rows
        unfolding update_rows
        total-kept keeps [] = refl
        total-kept keeps (r ∷ rows) = elim (Bool-cases (picks r)) [
          | inl e ↦ rw (e, total-kept keeps rows, keeps r) refl
          | inr e ↦ rw (e, total-kept keeps rows) refl
        ]

        pub update_one-kept :
            (e : String) (rows rows' : List R)
            → update_one picks change e rows ≡ ok rows'
            → ((r : R) → column (change r) ≡ column r)
            → total column rows' ≡ total column rows
        update_one-kept e rows rows' h keeps =
            let (_, made) = update_one-ok picks change e rows rows' h in
            subst (λ out. total column out ≡ total column rows) made (total-kept keeps rows)
