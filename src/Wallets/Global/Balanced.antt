-- ===== src/Wallets/Global/Balanced.antt =====
-- The pool's ledger under the requests of the wallet and pool routes.
use braiker.Prelude.Result.{
  ok, ok-injective, >>=-eq-ok, or_throw->>=, throw_if->>, >>-eq-ok, Result-cases, or_else,
}
use braiker.Prelude.{
  List, ◌≡◌, some, not, ◌∙◌, subst, sym, find, String, ap, refl, Option, ◌∷◌, inl, inr, none, [],
}
use braiker.Decimal.{ExactColumns, Decimal, money}
use braiker.Wallets.Transfers.Totals.{
  total, moved, total-append, update_one-raised, update_one-lowered, plus-incremented,
  decremented-plus,
}
use braiker.Wallets.Transfers.{WalletRow, CapitalDb, PaperCapitalPool, is_wallet, has_unallocated}
use braiker.Wallets.Global.{
  reserve_from_pool, move_wallet_capital, adjust_wallet_capital, create_wallet, set_paper_capital,
  draws_from_pool, funds_wallet, WalletCapitalRequest, NewWallet, draws_from_wallet,
  returns_to_pool, transfer, transfers, Transfer, bot_capital, wallet_capital, new_wallet,
  paper_capital,
}
use braiker.Prelude.Text.{Text}
use braiker.Wallets.Pool.{validate_paper_capital_pool, validate_virtual_wallet_capital_adjustment}
use braiker.Capital.Policy.{withdraw, Direction, add}
use braiker.Bots.Control.{throw_some}
use braiker.Prelude.Table.{update_one}
use braiker.Wallets.Transfers.Conserves.{managed_of, adjust_bot_capital-Adjusted}

module _ (d : Decimal) (exact : ExactColumns d) where
  -- What the pool has given out is exactly what the wallets manage.
  abbrev IsFunded : List (WalletRow d.Carrier) → PaperCapitalPool d.Carrier → Type 0
  IsFunded wallets pool =
      pool.managed_capital ≡ d.plus pool.unallocated_capital (total d (managed_of d exact) wallets)

  abbrev Balance : List (WalletRow d.Carrier) → Option (PaperCapitalPool d.Carrier) → Type 0
  Balance wallets none = Unit
  Balance wallets (some pool) = IsFunded wallets pool

  abbrev pub IsBalanced : CapitalDb d.Carrier → Type 0
  IsBalanced db = Balance db.wallets db.pool

  Balance-kept :
      (wallets wallets' : List (WalletRow d.Carrier)) (pool : Option (PaperCapitalPool d.Carrier))
      → total d (managed_of d exact) wallets' ≡ total d (managed_of d exact) wallets
      → Balance wallets pool
      → Balance wallets' pool
  Balance-kept wallets wallets' none kept balanced = tt
  Balance-kept wallets wallets' (some pool) kept balanced =
      balanced ∙ ap (d.plus pool.unallocated_capital) (sym kept)

  reserve_from_pool-ok :
      (x : d.Carrier) (pool reserved : PaperCapitalPool d.Carrier)
      → reserve_from_pool d x pool ≡ ok reserved
      → (reserved.managed_capital ≡ pool.managed_capital)
        × (d.plus reserved.unallocated_capital x ≡ pool.unallocated_capital)
  unfolding reserve_from_pool draws_from_pool
  reserve_from_pool-ok x pool reserved h =
      let (_, made) = throw_if->> (not (d.lte x pool.unallocated_capital)) _ _ h in
      subst
        (λ (r : PaperCapitalPool d.Carrier).
          (r.managed_capital ≡ pool.managed_capital)
          × (d.plus r.unallocated_capital x ≡ pool.unallocated_capital))
        (ok-injective made) (refl, decremented-plus d exact x pool.unallocated_capital)

  -- What leaves the pool arrives in the wallets.
  handed_over :
      (x : d.Carrier) (wallets wallets' : List (WalletRow d.Carrier))
      (pool reserved : PaperCapitalPool d.Carrier)
      → reserve_from_pool d x pool ≡ ok reserved
      → total d (managed_of d exact) wallets' ≡ d.plus (total d (managed_of d exact) wallets) x
      → IsFunded wallets pool
      → IsFunded wallets' reserved
  handed_over x wallets wallets' pool reserved h gains funded =
      let (same, loses) = reserve_from_pool-ok x pool reserved h in
      same ∙ funded ∙ exact.plus_comm _ _ ∙ sym (moved d exact x gains loses) ∙ exact.plus_comm _ _

  move_wallet_capital-IsFunded :
      (direction : Direction) (wallet_id : String) (x : d.Carrier)
      (wallets : List (WalletRow d.Carrier)) (pool : PaperCapitalPool d.Carrier)
      (out : List (WalletRow d.Carrier) × PaperCapitalPool d.Carrier)
      → move_wallet_capital d direction wallet_id x wallets pool ≡ ok out
      → IsFunded wallets pool
      → IsFunded out.0 out.1
  unfolding move_wallet_capital funds_wallet draws_from_wallet returns_to_pool
  move_wallet_capital-IsFunded add wallet_id x wallets pool out h funded =
      let (reserved, er, h1) = >>=-eq-ok (reserve_from_pool d x pool) _ h in
      let (rows, ew, h2) =
        >>=-eq-ok (update_one (is_wallet wallet_id) (funds_wallet d x) _ wallets) _ h1 in
      subst (λ (r : List (WalletRow d.Carrier) × PaperCapitalPool d.Carrier). IsFunded r.0 r.1)
        (ok-injective h2)
        (handed_over x wallets rows pool reserved er
          (update_one-raised d exact (managed_of d exact) _ _ x _ wallets rows ew
            (λ r. plus-incremented d exact x r.managed_capital))
          funded)
  move_wallet_capital-IsFunded withdraw wallet_id x wallets pool out h funded =
      let (rows, ew, h1) =
        >>=-eq-ok (update_one (has_unallocated d wallet_id x) (draws_from_wallet d x) _ wallets) _
          h in
      subst (λ (r : List (WalletRow d.Carrier) × PaperCapitalPool d.Carrier). IsFunded r.0 r.1)
        (ok-injective h1)
        (funded
          ∙ sym (
              moved d exact x (plus-incremented d exact x pool.unallocated_capital) (
                update_one-lowered d exact (managed_of d exact) _ _ x _ wallets rows ew
                  (λ r. decremented-plus d exact x r.managed_capital))))

  adjust_wallet_capital-IsBalanced :
      (request : WalletCapitalRequest) (db db' : CapitalDb d.Carrier)
      → adjust_wallet_capital d request db ≡ ok db'
      → IsBalanced db
      → IsBalanced db'
  unfolding adjust_wallet_capital
  adjust_wallet_capital-IsBalanced request db db' h balanced =
      let (amount, _, h1) = >>=-eq-ok (money d request.amount) _ h in
      let (wallet, _, h2) = or_throw->>= (find (is_wallet request.wallet_id) db.wallets) _ _ h1 in
      let (pool, ep, h3) = or_throw->>= db.pool _ _ h2 in
      let (_, _, h4) = >>=-eq-ok (validate_virtual_wallet_capital_adjustment d _) _ h3 in
      let (_, h5) = >>-eq-ok (throw_some _) _ h4 in
      let (out, em, h6) =
        >>=-eq-ok (move_wallet_capital d request.direction wallet.id amount db.wallets pool) _ h5 in
      subst IsBalanced (ok-injective h6) (
        move_wallet_capital-IsFunded request.direction wallet.id amount db.wallets pool out em
          (subst (Balance db.wallets) ep balanced))

  create_wallet-IsBalanced :
      (new : NewWallet) (db db' : CapitalDb d.Carrier)
      → create_wallet d new db ≡ ok db'
      → IsBalanced db
      → IsBalanced db'
  unfolding create_wallet
  create_wallet-IsBalanced new db db' h balanced =
      let (amount, _, h1) = >>=-eq-ok (money d new.managed_capital) _ h in
      let (_, h2) = throw_if->> (d.lte amount d.zero_value) _ _ h1 in
      let (pool, ep, h3) = or_throw->>= db.pool _ _ h2 in
      let (reserved, er, h4) = >>=-eq-ok (reserve_from_pool d amount pool) _ h3 in
      subst IsBalanced (ok-injective h4) (
        handed_over amount db.wallets _ pool reserved er
          (total-append d exact (managed_of d exact) db.wallets _
            ∙ ap (d.plus (total d (managed_of d exact) db.wallets)) (exact.is_column amount))
          (subst (Balance db.wallets) ep balanced))

  -- What the row that was read had given out is what the pool has given out now.
  abbrev IsCurrent : PaperCapitalPool d.Carrier → Option (PaperCapitalPool d.Carrier) → Type 0
  IsCurrent read none = Unit
  IsCurrent read (some pool) =
      d.minus read.managed_capital read.unallocated_capital
      ≡ d.minus pool.managed_capital pool.unallocated_capital

  set_paper_capital-IsBalanced :
      (managed_capital broker_cash : Text) (read : PaperCapitalPool d.Carrier)
      (db db' : CapitalDb d.Carrier)
      → set_paper_capital d managed_capital broker_cash read db ≡ ok db'
      → IsCurrent read db.pool
      → IsBalanced db
      → IsBalanced db'
  unfolding set_paper_capital
  set_paper_capital-IsBalanced managed_capital broker_cash read db db' h current balanced =
      let (_, _, h1) = >>=-eq-ok (validate_paper_capital_pool d _) _ h in
      let (_, h2) = >>-eq-ok (throw_some _) _ h1 in
      let (next, _, h3) = >>=-eq-ok (money d managed_capital) _ h2 in
      let (pool, ep, h4) = or_throw->>= db.pool _ _ h3 in
      let given : d.minus read.managed_capital read.unallocated_capital
          ≡ total d (managed_of d exact) db.wallets =
        subst (IsCurrent read) ep current
        ∙ ap (λ z. d.minus z pool.unallocated_capital)
            (subst (Balance db.wallets) ep balanced ∙ exact.plus_comm _ _)
        ∙ exact.plus_minus (total d (managed_of d exact) db.wallets) pool.unallocated_capital in
      subst IsBalanced (ok-injective h4) (
        exact.is_column next
        ∙ sym (exact.minus_plus next (total d (managed_of d exact) db.wallets))
        ∙ ap (λ z. d.plus z (total d (managed_of d exact) db.wallets))
            (ap (d.minus next) (sym given)
              ∙ sym (
                  exact.is_column
                    (d.minus next (d.minus read.managed_capital read.unallocated_capital)))))

  -- Of the step, that the row it has read is current.
  abbrev IsTimely : Transfer d.Carrier → CapitalDb d.Carrier → Type 0
  IsTimely (bot_capital _) db = Unit
  IsTimely (wallet_capital _) db = Unit
  IsTimely (new_wallet _) db = Unit
  IsTimely (paper_capital _ _ read) db = IsCurrent read db.pool

  abbrev pub AreTimely : List (Transfer d.Carrier) → CapitalDb d.Carrier → Type 0
  AreTimely [] db = Unit
  AreTimely (t ∷ ts) db = IsTimely t db × AreTimely ts (or_else (transfer d t db) db)

  transfer-IsBalanced :
      (t : Transfer d.Carrier) (db db' : CapitalDb d.Carrier)
      → transfer d t db ≡ ok db'
      → IsTimely t db
      → IsBalanced db
      → IsBalanced db'
  unfolding transfer
  transfer-IsBalanced (bot_capital request) db db' h timely balanced =
      let ((_, kept), pool_kept) = adjust_bot_capital-Adjusted d exact request db db' h in
      subst (Balance db'.wallets) (sym pool_kept)
        (Balance-kept db.wallets db'.wallets db.pool kept balanced)
  transfer-IsBalanced (wallet_capital request) db db' h timely balanced =
      adjust_wallet_capital-IsBalanced request db db' h balanced
  transfer-IsBalanced (new_wallet new) db db' h timely balanced =
      create_wallet-IsBalanced new db db' h balanced
  transfer-IsBalanced (paper_capital managed_capital broker_cash read) db db' h timely balanced =
      set_paper_capital-IsBalanced managed_capital broker_cash read db db' h timely balanced

  -- Where the columns' arithmetic is exact, every sequence of requests that fund a bot, fund a
  -- wallet or make a wallet, each rolled back if it throws, and of updates of the pool, each under
  -- a row that its request read before, keeps the pool's managed capital equal to what it has not
  -- allocated plus what all wallets manage, as long as at every such update what the row read had
  -- given out is what the pool has given out then.
  pub transfers-IsBalanced :
      (ts : List (Transfer d.Carrier)) (db : CapitalDb d.Carrier)
      → AreTimely ts db
      → IsBalanced db
      → IsBalanced (transfers d ts db)
  unfolding transfers
  transfers-IsBalanced [] db timely balanced = balanced
  transfers-IsBalanced (t ∷ ts) db timely balanced =
      transfers-IsBalanced ts (or_else (transfer d t db) db) timely.1
        (elim (Result-cases (transfer d t db)) [
          | inl (next, e) ↦ rw e (transfer-IsBalanced t db next e timely.0 balanced)
          | inr (message, e) ↦ rw e balanced
        ])

  plus-cancel : (x y z : d.Carrier) → d.plus x y ≡ d.plus x z → y ≡ z
  plus-cancel x y z h =
      sym (exact.plus_minus y x)
      ∙ ap (λ s. d.minus s x) (exact.plus_comm y x ∙ h ∙ exact.plus_comm x z)
      ∙ exact.plus_minus z x

  -- Only an update under a current row keeps the balance: one under a row that a funded wallet has
  -- made stale leaves the pool's columns apart from what the wallets manage.
  set_paper_capital-IsCurrent :
      (managed_capital broker_cash : Text) (read pool : PaperCapitalPool d.Carrier)
      (db db' : CapitalDb d.Carrier)
      → set_paper_capital d managed_capital broker_cash read db ≡ ok db'
      → db.pool ≡ some pool
      → IsBalanced db
      → IsBalanced db'
      → IsCurrent read (some pool)
  unfolding set_paper_capital
  set_paper_capital-IsCurrent managed_capital broker_cash read pool db db' h here balanced after =
      let (_, _, h1) = >>=-eq-ok (validate_paper_capital_pool d _) _ h in
      let (_, h2) = >>-eq-ok (throw_some _) _ h1 in
      let (next, _, h3) = >>=-eq-ok (money d managed_capital) _ h2 in
      let (_, _, h4) = or_throw->>= db.pool _ _ h3 in
      let allocated = d.minus read.managed_capital read.unallocated_capital in
      let wallets = total d (managed_of d exact) db.wallets in
      let settled : d.to_places 12 next ≡ d.plus (d.to_places 12 (d.minus next allocated)) wallets =
        subst IsBalanced (sym (ok-injective h4)) after in
      let same : allocated ≡ wallets = plus-cancel (d.minus next allocated) allocated wallets (
        exact.minus_plus next allocated
        ∙ sym (exact.is_column next)
        ∙ settled
        ∙ ap (λ z. d.plus z wallets) (exact.is_column (d.minus next allocated))) in
      same
      ∙ sym (exact.plus_minus wallets pool.unallocated_capital)
      ∙ ap (λ z. d.minus z pool.unallocated_capital)
          (exact.plus_comm _ _ ∙ sym (subst (Balance db.wallets) here balanced))
