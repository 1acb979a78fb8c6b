-- ===== src/History.antt =====
-- The committed states of the running system: the calls of the services in any order, whoever
-- makes them. A call that raises is rolled back, so only calls that return are steps.
use apna_mandla.Prelude.{ℕ, ◌+◌, String, Option, none, some, List, [], ◌∷◌, ◌≡◌, inl, inr, ap}
use apna_mandla.Prelude.Int.{ℤ}
use apna_mandla.Money.{Decimal}
use apna_mandla.Schema.{Db, Wallet, UdharAccount, UdharTransaction, GatewayPayment, GatewayProvider}
use apna_mandla.Env.{Env}
use apna_mandla.Session.{ok, Result-cases}
use apna_mandla.Ledger.{
  Split, topup_wallet, process_order_payment, process_refund, credit_delivery_fee,
}
use apna_mandla.Ledger.Invariant.{IsValid}
use apna_mandla.Ledger.Validity.{
  topup_wallet-Keeps, process_order_payment-Keeps, process_refund-Keeps, credit_delivery_fee-Keeps,
}
use apna_mandla.Withdrawal.{withdraw, approve_withdrawal, reject_withdrawal}
use apna_mandla.Withdrawal.Validity.{
  withdraw-Keeps, approve_withdrawal-Keeps, reject_withdrawal-Keeps,
}
use apna_mandla.Udhar.{
  create_account, use_credit, repay, apply_interest, interest_loop, apply_udhar_interest,
  mark_overdue_accounts, add_udhar_debit,
}
use apna_mandla.Udhar.Validity.{
  create_account-Keeps, use_credit-Keeps, repay-Keeps, apply_interest-Keeps,
  mark_overdue_accounts-Keeps, add_udhar_debit-Keeps,
}
use apna_mandla.Json.{Json}
use apna_mandla.Orders.{add_money, pay_for_order, payment_success, refund_payment}
use apna_mandla.Orders.Validity.{
  add_money-Keeps, pay_for_order-Keeps, payment_success-Keeps, refund_payment-Keeps,
}
use apna_mandla.Gateway.{initiate, handle_webhook, handle_refund_webhook}
use apna_mandla.Gateway.Validity.{initiate-Keeps, handle_webhook-Keeps, handle_refund_webhook-Keeps}

module _ (env : Env) where
  -- One call; `other` is any code that leaves wallets and ledger rows alone.
  pub data Step : Db → Db → Type 0 where
    topup_step :
        (u : ℕ) (a : Decimal) (key : Option String) (s : Option ℕ) (d d' : Db) (w : Wallet)
        → topup_wallet env u a key s d ≡ ok (w, d')
        → Step d d'
    payment_step :
        (c shop o : ℕ) (a : Decimal) (key ip : Option String) (s : Option ℕ) (d d' : Db) (x : Split)
        → process_order_payment env c shop a o key s ip d ≡ ok (x, d')
        → Step d d'
    refund_step :
        (c shop o : ℕ) (a pct : Decimal) (key : Option String) (s : Option ℕ) (d d' : Db)
        → process_refund env c shop a o pct key s d ≡ ok (tt, d')
        → Step d d'
    delivery_fee_step :
        (r o : ℕ) (a : Decimal) (key : Option String) (s : Option ℕ) (d d' : Db)
        → credit_delivery_fee env r a o key s d ≡ ok (tt, d')
        → Step d d'
    withdraw_step :
        (u i : ℕ) (type : String) (bank key : Option String) (a : ℤ) (d d' : Db)
        → withdraw env u type bank a key d ≡ ok (i, d')
        → Step d d'
    approve_step :
        (i admin : ℕ) (d d' : Db) → approve_withdrawal env i admin d ≡ ok (tt, d') → Step d d'
    reject_step :
        (i admin : ℕ) (reason : Option String) (d d' : Db)
        → reject_withdrawal env i reason admin d ≡ ok (tt, d')
        → Step d d'
    open_step :
        (b shop days : ℕ) (limit rate : Decimal) (key : Option String) (d d' : Db)
        (x : UdharAccount)
        → create_account env b shop limit rate days key d ≡ ok (x, d')
        → Step d d'
    use_step :
        (i u : ℕ) (a : Decimal) (o : Option ℕ) (key : Option String) (d d' : Db)
        (t : UdharTransaction)
        → use_credit env i a u o key d ≡ ok (t, d')
        → Step d d'
    delivery_step :
        (shop c o : ℕ) (a : Decimal) (d d' : Db) (t : UdharTransaction)
        → add_udhar_debit env shop c o a d ≡ ok (t, d')
        → Step d d'
    repay_step :
        (i u : ℕ) (a : Decimal) (key : Option String) (d d' : Db) (t : UdharTransaction)
        → repay env i u a key d ≡ ok (t, d')
        → Step d d'
    initiate_step :
        (u : ℕ) (a : Decimal) (p : GatewayProvider) (o : Option ℕ) (d d' : Db) (g : GatewayPayment)
        → initiate env u a p o d ≡ ok (g, d')
        → Step d d'
    webhook_step :
        (p : GatewayProvider) (body signature secret : String) (payload : Json) (d d' : Db)
        (g : GatewayPayment)
        → handle_webhook env p body signature secret payload d ≡ ok (g, d')
        → Step d d'
    refund_webhook_step :
        (p : GatewayProvider) (body signature secret : String) (payload : Json) (d d' : Db)
        (g : GatewayPayment)
        → handle_refund_webhook env p body signature secret payload d ≡ ok (g, d')
        → Step d d'
    add_money_step :
        (u : ℕ) (a : Decimal) (key : Option String) (d d' : Db) (w : Wallet)
        → add_money env u a key d ≡ ok (w, d')
        → Step d d'
    pay_step :
        (u i : ℕ) (key : Option String) (d d' : Db) (x : Split)
        → pay_for_order env u i key d ≡ ok (x, d')
        → Step d d'
    success_step :
        (u p x : ℕ) (t : String) (d d' : Db) → payment_success env u p t d ≡ ok (x, d') → Step d d'
    refund_payment_step : (p x : ℕ) (d d' : Db) → refund_payment env p d ≡ ok (x, d') → Step d d'
    interest_step : (n : ℕ) (d d' : Db) → apply_udhar_interest env d ≡ (n, d') → Step d d'
    overdue_step : (n : ℕ) (d d' : Db) → mark_overdue_accounts env d ≡ ok (n, d') → Step d d'
    other : (d d' : Db) → d'.books ≡ d.books → Step d d'

  -- The states after any number of calls.
  pub data Reachable (start : Db) : Db → Type 0 where
    at_start : Reachable start start
    then_step : {d d' : Db} → Reachable start d → Step d d' → Reachable start d'

  abbrev Sound : Db → Type 0
  Sound d = IsValid env d.books

  interest_loop-valid :
      (ids : List ℕ) (saved d : Db) (n : ℕ)
      → Sound saved
      → Sound d
      → Sound (interest_loop env ids saved n d).1
  unfolding interest_loop
  interest_loop-valid [] saved d n vs vd = vd
  interest_loop-valid (i ∷ ids) saved d n vs vd = elim (Result-cases (apply_interest env i d)) [
    | inl (x, failed) ↦ rw (failed, interest_loop) (interest_loop-valid ids saved saved n vs vs)
    | inr (none, d1, done) ↦
        rw (done, interest_loop)
          (interest_loop-valid ids saved d1 n vs
            ((apply_interest-Keeps env i).at d none d1 vd done))
    | inr (some t, d1, done) ↦
        rw (done, interest_loop)
          (interest_loop-valid ids saved d1 (n + 1) vs
            ((apply_interest-Keeps env i).at d (some t) d1 vd done))
  ]

  Step-IsValid : {d d' : Db} → IsValid env d.books → Step d d' → IsValid env d'.books
  unfolding apply_udhar_interest
  Step-IsValid v (topup_step _ _ _ _ _ _ _ h) = (topup_wallet-Keeps env _ _ _ _).at _ _ _ v h
  Step-IsValid v (payment_step _ _ _ _ _ _ _ _ _ _ h) =
      (process_order_payment-Keeps env _ _ _ _ _ _ _).at _ _ _ v h
  Step-IsValid v (refund_step _ _ _ _ _ _ _ _ _ h) =
      (process_refund-Keeps env _ _ _ _ _ _ _).at _ _ _ v h
  Step-IsValid v (delivery_fee_step _ _ _ _ _ _ _ h) =
      (credit_delivery_fee-Keeps env _ _ _ _ _).at _ _ _ v h
  Step-IsValid v (withdraw_step _ _ _ _ _ _ _ _ h) = (withdraw-Keeps env _ _ _ _ _).at _ _ _ v h
  Step-IsValid v (approve_step _ _ _ _ h) = (approve_withdrawal-Keeps env _ _).at _ _ _ v h
  Step-IsValid v (reject_step _ _ _ _ _ h) = (reject_withdrawal-Keeps env _ _ _).at _ _ _ v h
  Step-IsValid v (open_step _ _ _ _ _ _ _ _ _ h) =
      (create_account-Keeps env _ _ _ _ _ _).at _ _ _ v h
  Step-IsValid v (use_step _ _ _ _ _ _ _ _ h) = (use_credit-Keeps env _ _ _ _ _).at _ _ _ v h
  Step-IsValid v (delivery_step _ _ _ _ _ _ _ h) = (add_udhar_debit-Keeps env _ _ _ _).at _ _ _ v h
  Step-IsValid v (repay_step _ _ _ _ _ _ _ h) = (repay-Keeps env _ _ _ _).at _ _ _ v h
  Step-IsValid v (initiate_step _ _ _ _ _ _ _ h) = (initiate-Keeps env _ _ _ _).at _ _ _ v h
  Step-IsValid v (webhook_step _ _ _ _ _ _ _ _ h) =
      (handle_webhook-Keeps env _ _ _ _ _).at _ _ _ v h
  Step-IsValid v (refund_webhook_step _ _ _ _ _ _ _ _ h) =
      (handle_refund_webhook-Keeps env _ _ _ _ _).at _ _ _ v h
  Step-IsValid v (add_money_step _ _ _ _ _ _ h) = (add_money-Keeps env _ _ _).at _ _ _ v h
  Step-IsValid v (pay_step _ _ _ _ _ _ h) = (pay_for_order-Keeps env _ _ _).at _ _ _ v h
  Step-IsValid v (success_step _ _ _ _ _ _ h) = (payment_success-Keeps env _ _ _).at _ _ _ v h
  Step-IsValid v (refund_payment_step _ _ _ _ h) = (refund_payment-Keeps env _).at _ _ _ v h
  Step-IsValid v (interest_step _ d _ h) = rw (← ap (λ x. x.1) h) (interest_loop-valid _ d d 0 v v)
  Step-IsValid v (overdue_step _ _ _ h) = (mark_overdue_accounts-Keeps env).at _ _ _ v h
  Step-IsValid v (other _ _ same) = rw same v

  -- From valid books, every sequence of calls of the services leads to valid books: wallets are
  -- distinct, every wallet holds what its rows add up to and never less than nothing, rows are
  -- numbered and chained by their hashes, and no key of a wallet stands on two rows.
  pub Reachable-IsValid :
      {start d : Db} → IsValid env start.books → Reachable start d → IsValid env d.books
  Reachable-IsValid v at_start = v
  Reachable-IsValid v (then_step r s) = Step-IsValid (Reachable-IsValid v r) s
