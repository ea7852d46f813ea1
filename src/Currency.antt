-- ===== src/Currency.antt =====
-- packages/core/src/domain/currency: payment methods, exchange rates and conversion.
pub mod PaymentMethod
pub mod ExchangeRate
