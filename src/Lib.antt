-- ===== src/Lib.antt =====
-- Cullen, a point of sale for supermarkets: the domain of its core.
--
-- The program is a monorepo. packages/shared holds the value objects that every part uses: amounts of
-- money in minor units, scaled quantities, percentages and tax rates. packages/core/src/domain holds
-- the aggregates. A sale collects items (copies of products at their price) with discounts and taxes,
-- takes a batch of payments that must match its total, and is completed or voided. A shift of a cash
-- register collects cash movements, among them the payments of sales, and is closed against declared
-- balances. A fiscal document says what a sale must print, and follows the fiscal printer through
-- errors, retries and commits; a fiscal day collects the X reports of a printer and is closed by its Z
-- report. A stock item keeps the movements of a product, with balances and
-- indexes that it updates as they come. A stock count compares what was counted with the balances, and a
-- purchase receipt says what a supplier delivered. The aggregates share money, payment methods and exchange
-- rates, and meet only in the use cases of packages/core/src/application, which are not modelled.
--
-- Where what is modelled:
--   Prelude       integers with the truncating division of bigint, texts as lists of UTF-16 code
--                 units, dates, numbers, lists; Double: the sums and differences of `number`
--   Shared        Errors: the codes of `DomainError`; Result: code that throws or returns;
--                 Action: methods that change an object, which comes back after a throw too;
--                 Rounding, Money: packages/shared/src/money.ts; Quantity: quantity.ts and
--                 percentage.ts; TaxRate: tax-rate.ts
--   Currency      packages/core/src/domain/currency: PaymentMethod (payment-method.ts) and
--                 ExchangeRate (exchange-rate.ts, currency-converter.ts, mixed-payment.ts)
--   Cash          packages/core/src/domain/cash: Movement (cash-movement.ts, cash-register.ts),
--                 Balances (the balances of shift.ts), Shift (shift.ts, shift-events.ts)
--   Fiscal        packages/core/src/domain/fiscal: Evidence and Content (fiscal-types.ts and
--                 `validateContent`), Document (fiscal-document.ts), Day (fiscal-day.ts: State,
--                 Open, Methods; Slots, Shows, Steps and Calls say how a call changes a
--                 day)
--   Sales         packages/core/src/domain/sales: Product (product-snapshot.ts and cost-snapshot.ts
--                 of the catalog), Item (sale-item.ts, discount.ts), Payment (payment.ts),
--                 Sale (sale.ts, sale-events.ts), Return (sale-return.ts), Recipient
--                 (sale-recipient.ts)
--   Inventory     packages/core/src/domain/inventory: Maps (`Map` and `Set`), Movement
--                 (stock-movement.ts), Item (stock-item.ts, batch.ts, stock-events.ts), Count
--                 (stock-count.ts)
--   Purchasing    packages/core/src/domain/purchasing: Receipt (purchase-receipt.ts)
--   Tests         concrete values, and the theorems applied to them
--
-- A class is a record of its fields. A static factory returns a Result; a method is an Action, a
-- function from the object to its outcome and the object afterwards, so that what was assigned before
-- a throw stays. A getter that may throw returns a Result. Private fields with public getters are one
-- field; defensive copies of dates and lists are not told apart from what they copy. The messages of
-- errors are left out, their codes are kept.
--
-- A `number` is an integer or anything else, and code that asks for a safe integer refuses the rest.
-- Integers have no bound: after each `+` or `-` on numbers the code checks for a safe integer, and
-- the sum of two safe integers is exact or is seen to be unsafe. The running balances of a stock item
-- are checked only when they are read: their sums are rounded to doubles (Prelude/Double), and so is
-- the subtraction that a stock count checks, whose amounts may be any doubles, with fractions,
-- infinities and NaN. Versions and counters are natural numbers. The loops of the code run over lists;
-- two definitions take fuel: the digits of a number one more than the number (Prelude/Text/Decimal
-- shows that more gives the same), and the search of a double's spacing 2046, the number of
-- powers of two among the exponents of doubles, so that it ends for every finite double.
--
-- `localeCompare` (the order of balances and of batches), `toUpperCase` (in fiscal documents, stock
-- and recipients) and `normalize` are parameters, since their tables are not in the repository.
--
-- Objects that a method finds in a list and then changes are held by their position, and a change is
-- written back there.
--
-- Not modelled: the rest of the domain (suppliers, the catalog, identity and configuration), parsing of
-- decimal quantities, the use cases, synchronization, the drivers of the database and of devices,
-- the server and the desktop application.
pub mod Prelude
pub mod Shared
pub mod Currency
pub mod Cash
pub mod Fiscal
pub mod Sales
pub mod Inventory
pub mod Purchasing
pub mod Tests
