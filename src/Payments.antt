-- ===== src/Payments.antt =====
-- What a payment costs and what a service pays out: services/payment_fees.py and
-- `resolve_commission` of services/commissions.py.
pub mod Cents
pub mod Fees
pub mod Commissions
