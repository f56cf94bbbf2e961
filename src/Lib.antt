-- ===== src/Lib.antt =====
-- A model of the core of the salon's API (src/nexasalon_api, paths below from there) and what holds
-- of it.
--
-- The program is a set of services over one database. A salon's appointments have a status
-- (services/appointment_state_machine.py); each appointment gets an order, a comanda, to which
-- services and products are charged (services/orders.py). Closing an order takes payments, takes the
-- products from the stock of the branch (services/stock.py), freezes the fee of each payment
-- (services/payment_fees.py) and the commission of each service (services/commissions.py), and
-- promotes the appointment to paid; reopening undoes that. The availability
-- (services/availability.py) offers the times that can still be booked, and an appointment is made
-- (services/appointments.py) after the same checks. Payments go into the cash register of the branch
-- (services/cash_register.py), and the frozen commissions are paid out in settlements
-- (services/commissions.py). Who may do what comes from sessions, memberships and permissions
-- (services/auth.py, user_management.py, agenda_access.py).
--
-- Files:
--   Prelude: shared names; Prelude/Outcome is a service call as a function from the state to an
--     exception (core/exceptions.py) or a value with the new state, as the transaction of a
--     request (api/deps.py) rolls everything back on an exception.
--   Appointments/Status: services/appointment_state_machine.py, function by function;
--     Appointments/History: sequences of changes of one status.
--   Scheduling/Windows, Slots, Availability: services/availability.py, with
--     services/business_hours.py and the two queries for what is busy, over the rows of
--     Scheduling/Records; Windows/Coverage, Slots/Grid and Availability/Safety hold the proofs.
--   Stock/Units: core/units.py; Stock/Levels, Stock/Movements: services/stock.py and its
--     repositories over the tables of Stock/Records; Stock/Counts: services/inventory_counts.py.
--   Payments/Cents, Fees, Commissions: rounding, services/payment_fees.py, `resolve_commission`.
--   Orders/Records, Totals, Store, Registers: the tables, services/order_totals.py, the rows of
--     orders and appointments, the checks of services/cash_register.py; Orders/Lines: the edits of
--     an open order; Orders/Lifecycle: `close_order`, `cancel_order`, `reopen_order`; Orders/Split:
--     the distribution of the payments in `close_orders_consolidated`; Orders/Correction:
--     `correct_consumption`.
--   Cash: `build_summary` of services/cash_register.py; Cash/Registers: `open_register` and
--     `close_register`.
--   Booking/Records, Snapshots, Creation: `create_appointment` of services/appointments.py with the
--     trigger of alembic/versions/0004_agenda_integrity_triggers.py, over the rows of the orders and
--     of the availability.
--   RateLimit: core/rate_limit.py.
--   Access/Records, Members, Tokens: the tables of users, memberships and refresh tokens;
--     Access/Permissions: `compute_effective_permissions`; Access/Sessions: `refresh` and `logout`,
--     with the store of tickets that they stand for in Tickets, sequences of calls in Traces, and
--     the calls that begin a session in Entry (services/auth.py); Access/Users, Employees:
--     services/user_management.py; Access/Agenda: services/agenda_access.py; Access/Actor: who
--     asks (api/deps.py).
--   Settlements, Settlements/Records: `create_adjustment` and `create_settlement` of
--     services/commissions.py and their tables.
--   Tests: concrete runs.
--
-- Conventions. Each query filters by organization, so the tables are those of one organization.
-- Ids are numbers, and a fresh UUID is the next number. Prices are whole cents, the
-- quantities in the tables thousandths of a unit, as their columns have it; a quantity that was
-- converted from another unit, and a payment that was split, are rounded when they are written.
-- A row lock makes the transactions on an order or a level follow each other, so a request is one
-- step. A list of rows that an insertion extends has the newest row first, except where the file
-- says otherwise.
--
-- Parameters: the digests, password hashes and signatures of core/security.py (hashlib, argon2,
-- jwt), of which nothing is assumed; the clocks of the time zones (`zoneinfo`) with the zone of each
-- datetime that the availability handles (Scheduling/Slots `Zones`), of which the results on slots
-- assume that they keep their distance to the universal time; the clock, and the UUIDs that
-- reopening draws. The loop over the slots of a free interval runs on fuel, a day more than the end
-- of the interval on the wall clock in seconds; each turn moves at least a second and no two zones
-- are a day apart, so that the fuel is not used up before the interval is.
--
-- Not modelled: replacing and rescheduling appointments, the creation of orders, the movements of a
-- cash register, customer accounts, public booking, fixed expenses, tax rates, reports, catalogues,
-- the HTTP layer; names, texts and notes of the rows; the values that an audit row records.
pub mod Access
pub mod Appointments
pub mod Booking
pub mod Cash
pub mod Orders
pub mod Payments
pub mod Prelude
pub mod RateLimit
pub mod Scheduling
pub mod Settlements
pub mod Stock
pub mod Tests
