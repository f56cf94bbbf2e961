-- ===== src/Tests/Orders.antt =====
-- One order with a service under a benefit and two units of a product, paid in cash and by card.
use nexasalon_api.Prelude.{
  All, ◌+◌, sum_of, ℕ, ◌≡◌, refl, true, false, none, some, List, [], ◌∷◌, Result, ok, err, conflict,
}
use nexasalon_api.Appointments.Status as Machine
use nexasalon_api.Stock.Levels.{quantity_of, lock_or_create, set_quantity}
use nexasalon_api.Stock.Records.{Stock, unit}
use nexasalon_api.Stock.Movements as Movements
use nexasalon_api.Payments.Fees.{cash, credit, visa, resolve_fee, find_matching, with_rule}
use nexasalon_api.Payments.Cents.{◌⊖◌, quantize}
use nexasalon_api.Payments.Commissions.{resolve_commission, get_for_pair, commission_amount}
use nexasalon_api.Orders.Records.{
  PaymentCreate, closed, consumption, Db, Order, opened, loyalty, sale, CashRegisterStatus,
  OrderClose, Clock,
}
use nexasalon_api.Orders.Totals.{order_charged_total}
use nexasalon_api.Orders.Store.{
  cancel_appointment_for_order_cancel, get_order_for_update_or_404, mark_paid,
  demote_appointment_from_paid_for_order_reopen,
}
use nexasalon_api.Orders.Registers.{
  get_open_for_branch, stale_open_register, assert_operational_prerequisites,
  assert_register_open_and_in_org,
}
use nexasalon_api.Orders.Lifecycle.{
  cancel_order, settle, write_off_by, create_payment, write_closed, write_off_and_pay, close_order,
  assert_register_still_open, give_back_by, write_reopened, give_all_back, reopen_order,
}
use nexasalon_api.Orders.Lifecycle.Goods.{to_take}
use nexasalon_api.Orders.Lifecycle.Properties.{
  cancel_order-spares, close_order-settles, close_order-stock,
}
use nexasalon_api.Orders.Lifecycle.Undone.{reopen_order-reverts, close-reopen}
use nexasalon_api.Orders.Lines.{update_order_item, change_item, edit_line}
use nexasalon_api.Orders.Lines.Edits.{LineEdit, item_edit, run, run-IsSound}
use nexasalon_api.Orders.Correction.{
  correct_consumption, compensate_once, compensate, more, less, correct_consumption-once,
}
use nexasalon_api.Orders.Split.{
  IsCents, to_cents, serve, distribute, split_payments, split_payments-exact,
}

runs : Unit {0}
unfolding cancel_order cancel_appointment_for_order_cancel Machine.is_cancellable_via_linked_order
    close_order get_order_for_update_or_404 assert_operational_prerequisites get_open_for_branch
    stale_open_register settle order_charged_total assert_register_open_and_in_org write_off_and_pay
    write_off_by create_payment resolve_fee find_matching with_rule ◌⊖◌ quantize write_closed
    resolve_commission get_for_pair commission_amount mark_paid Machine.mark_paid
    Movements.record_sale_movement Movements.record_consumption_correction Movements.create_movement
    Movements.get_product_or_404 Movements.get_branch_or_404 Movements.apply_delta
    Movements.insert_movement Movements.audit quantity_of lock_or_create set_quantity reopen_order
    assert_register_still_open give_all_back give_back_by write_reopened
    demote_appointment_from_paid_for_order_reopen Machine.demote_paid_for_reopen run
    update_order_item edit_line change_item
runs = tt

abbrev stock : Stock
stock = record {
  products =
      record {
        id = 1;
        unit_of = unit;
        is_active = true;
        for_sale = true;
        sale_price = some 500;
        cost_price = 300;
      }
      ∷ [];
  branches = 10 ∷ [];
  levels = record { product_id = 1; branch_id = 10; quantity_on_hand = 5000 } ∷ [];
  movements = [];
  transfers = [];
  counts = [];
  count_items = [];
  audit_logs = [];
  next_id = 50;
}

abbrev pub first_order : Order
first_order = record {
  id = 1;
  appointment_id = 2;
  branch_id = 10;
  client_id = some 5;
  status = opened;
  closed_at = none;
  closed_by = none;
  sale_competence_override = none;
  items =
      record {
        id = 20;
        service_id = 30;
        professional_id = 40;
        duration_minutes = 60;
        price = 10000;
        benefit_type = some loyalty;
        benefit_amount = some 2000;
        commission = none;
        commission_settlement_id = none;
      }
      ∷ [];
  product_items =
      record {
        id = 21;
        product_id = 1;
        quantity = 2000;
        unit_price = 500;
        item_type = sale;
        stock_movement_id = none;
      }
      ∷ [];
  payments = [];
}

abbrev pub db : Db
db = record {
  stock = stock;
  orders = first_order ∷ [];
  registers =
      record {
        id = 3;
        branch_id = 10;
        status = CashRegisterStatus.opened;
        created_at = 100;
        opened_by = 1;
        initial_amount = 5000;
        closed_at = none;
        closed_by = none;
        expected_amount = none;
        counted_amount = none;
        difference = none;
      }
      ∷ [];
  appointments = record { id = 2; status = Machine.finished; updated_by = none } ∷ [];
  fee_rules = [];
  professional_services = [];
  config = record {
    require_open_register_for_order = true;
    require_open_register_for_payment = true;
    require_open_register_for_appointment = false;
    block_if_previous_day_open = true;
    require_close_previous_before_opening_today = true;
    single_open_register_per_branch = true;
    allow_admin_open_close = true;
    allow_receptionist_open_close = false;
  };
  audit_logs = [];
  next_id = 60;
}

abbrev pub clock : Clock
clock = record { now = 200; operational_date = λ b t. 0; noon = λ b d. d }

abbrev request : OrderClose
request = record {
  payments =
      record {
        method = cash;
        card_brand = none;
        installments = none;
        amount = 4000;
        cash_register_id = 3;
      }
      ∷ record {
        method = credit;
        card_brand = some visa;
        installments = some 2;
        amount = 5000;
        cash_register_id = 3;
      }
      ∷ [];
  sale_date = none;
}

abbrev value : {A : Type 0} → A → Result A → A
value d (ok a) = a
value d (err e) = d

abbrev after_close : Order × Db
unfolding runs
after_close = value (first_order, db) (close_order clock 7 1 request db)

closes : close_order clock 7 1 request db ≡ ok (after_close.0, after_close.1)
unfolding runs
closes = refl

close_order-settles_example : close_order clock 9 1 request after_close.1 ≡ err conflict
close_order-settles_example = (close_order-settles clock 7 1 request db closes).8 clock 9 request

abbrev after_reopen : Order × Db
unfolding runs
after_reopen = value (first_order, db) (reopen_order (λ n. n) clock 7 1 after_close.1)

reopens : reopen_order (λ n. n) clock 7 1 after_close.1 ≡ ok (after_reopen.0, after_reopen.1)
unfolding runs
reopens = refl

reopen_order-reverts_example : after_reopen.0.status ≡ opened
reopen_order-reverts_example = (reopen_order-reverts (λ n. n) clock 7 1 after_close.1 reopens).6

close-reopen_example : quantity_of 1 10 after_reopen.1.stock.levels ≡ quantity_of 1 10 stock.levels
close-reopen_example =
    close-reopen (λ n. n) clock clock 7 7 1 request first_order db refl (refl, tt) closes reopens 1
      10

abbrev cheaper : LineEdit
cheaper = item_edit 20 (some 9000) none

abbrev edited : Order × Db
unfolding runs
edited = value (first_order, db) (run cheaper 7 1 db)

edits : run cheaper 7 1 db ≡ ok (edited.0, edited.1)
unfolding runs
edits = refl

run-IsSound_example : edited.1.stock ≡ stock
run-IsSound_example = (run-IsSound cheaper 7 1 db edits).5

abbrev found : Order
found = (close_order-stock clock 7 1 request db closes).0

close_order-stock_example :
    quantity_of 1 found.branch_id after_close.1.stock.levels
      + sum_of (to_take 1) found.product_items
    ≡ quantity_of 1 found.branch_id stock.levels
close_order-stock_example = (close_order-stock clock 7 1 request db closes).3 1

abbrev totals : List ℕ
totals = 3000000 ∷ 6000000 ∷ []

whole : All IsCents totals
whole = ((3000, refl), ((6000, refl), tt))

split_payments-exact_example :
    split_payments totals request.payments
    ≡ ok ((split_payments-exact totals request.payments).1 whole refl).0
split_payments-exact_example = ((split_payments-exact totals request.payments).1 whole refl).1

-- The closed order again, its line now a consumption.
abbrev consumed : Db
consumed = record db {
  orders =
      record first_order {
        status = closed;
        product_items =
            record {
              id = 21;
              product_id = 1;
              quantity = 2000;
              unit_price = 0;
              item_type = consumption;
              stock_movement_id = some 50;
            }
            ∷ [];
      }
      ∷ [];
}

abbrev corrected : Order × Db
unfolding runs correct_consumption compensate_once compensate
corrected = value (first_order, db) (correct_consumption 7 1 21 (more 1000) 99 consumed)

corrects : correct_consumption 7 1 21 (more 1000) 99 consumed ≡ ok (corrected.0, corrected.1)
unfolding runs correct_consumption compensate_once compensate
corrects = refl

correct_consumption-once_example :
    correct_consumption 8 1 21 (less 5) 99 corrected.1 ≡ ok (corrected.0, corrected.1)
correct_consumption-once_example =
    (correct_consumption-once 7 1 21 (more 1000) 99 consumed corrects).6 8 (less 5)

abbrev cancelled_order : Order × Db
unfolding runs
cancelled_order = value (first_order, db) (cancel_order 7 1 db)

cancels : cancel_order 7 1 db ≡ ok (cancelled_order.0, cancelled_order.1)
unfolding runs
cancels = refl

cancel_order-spares_example : cancelled_order.1.stock ≡ stock
cancel_order-spares_example = (cancel_order-spares 7 1 db cancels).4

-- Two orders of half a unit at 10.01, paid with 10.01: two payments of 5.01 are stored.
abbrev one_payment : PaymentCreate
one_payment = record {
  method = cash;
  card_brand = none;
  installments = none;
  amount = 1001;
  cash_register_id = 3;
}

half_cents :
    split_payments (500500 ∷ 500500 ∷ []) (one_payment ∷ [])
    ≡ ok (
        (record { source = one_payment; amount = 501000 } ∷ [])
        ∷ (record { source = one_payment; amount = 501000 } ∷ [])
        ∷ [])
unfolding split_payments distribute serve to_cents
half_cents = refl
