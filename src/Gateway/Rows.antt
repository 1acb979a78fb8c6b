-- ===== src/Gateway/Rows.antt =====
-- The queries on gateway payments, and the flush of a new or a changed row.
use apna_mandla.Prelude.{
  ℕ, ◌+◌, String, Bool, true, false, not, ◌&&◌, ◌||◌, Option, none, some, List, ◌∷◌, ◌==◌,
  if◌then◌else◌, first, is_some,
}
use apna_mandla.Prelude.Int.{pos, ltb_ℤ}
use apna_mandla.Prelude.Text.{str_eq}
use apna_mandla.Table.{find_row, put_row}
use apna_mandla.Schema.{Db, GatewayPayment, GatewayPaymentStatus, initiated, success, refunded}
use apna_mandla.Session.{M, ok, err, integrity_error}

-- `column == value`, where `None` asks for NULL.
abbrev pub column_is : Option String → Option String → Bool
column_is none none = true
column_is (some a) (some b) = str_eq a b
column_is _ _ = false

unfoldable pub find_order : Option String → List GatewayPayment → Option GatewayPayment
find_order v = first (λ g. column_is v g.gateway_order_id)

unfoldable pub find_payment : Option String → List GatewayPayment → Option GatewayPayment
find_payment v = first (λ g. column_is v g.gateway_payment_id)

abbrev pub is_initiated : GatewayPaymentStatus → Bool
is_initiated initiated = true
is_initiated _ = false

abbrev pub is_success : GatewayPaymentStatus → Bool
is_success success = true
is_success _ = false

abbrev pub is_refunded : GatewayPaymentStatus → Bool
is_refunded refunded = true
is_refunded _ = false

-- Whether another row has this payment id: the column is unique, NULL apart.
unfoldable pub payment_id_taken : ℕ → Option String → List GatewayPayment → Bool
payment_id_taken id none rows = false
payment_id_taken id (some p) rows =
    is_some (first (λ g. not (g.id == id) && column_is (some p) g.gateway_payment_id) rows)

unfoldable pub save_payment : GatewayPayment → M (Unit {0})
save_payment g d =
    if payment_id_taken g.id g.gateway_payment_id d.tables.gateway_payments
    then err integrity_error
    else ok (
      tt,
      record d {
        tables = record d.tables {
          gateway_payments = put_row (λ x. x.id) g d.tables.gateway_payments;
        };
      },
    )

-- The constraints on a new row: `amount > 0` and a unique `gateway_order_id`.
unfoldable pub add_payment : GatewayPayment → M (Unit {0})
add_payment g d =
    if not (ltb_ℤ (pos 0) g.amount)
      || is_some (find_order g.gateway_order_id d.tables.gateway_payments)
    then err integrity_error
    else ok (
      tt,
      record d {
        tables = record d.tables {
          gateway_payments = g ∷ d.tables.gateway_payments;
          next_gateway_payment_id = d.tables.next_gateway_payment_id + 1;
        };
      },
    )

-- The row with an id, of a state.
abbrev pub gateway_payment : ℕ → Db → Option GatewayPayment
gateway_payment i d = find_row (λ g. g.id) i d.tables.gateway_payments
