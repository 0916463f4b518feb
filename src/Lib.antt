-- ===== src/Lib.antt =====
-- The order platform's backend: what a customer is quoted and charged, what becomes of the order,
-- and who is paid for it.
--
-- The program is a set of asyncio services over one PostgreSQL database. A customer fills a cart,
-- checkout prices it and places an order, the kitchen accepts and prepares it, a rider is assigned or
-- takes the offer, proves with a PIN that the food is theirs, and delivers it for cash. The vendor
-- and the rider then draw what the delivered orders earned them. A worker declines the orders that
-- no kitchen accepted in time.
--
-- A row is a record with the columns that the code reads or writes, a table is a list of rows, and a
-- call is a function from the rows to `Result.Result`: `ok` with the new rows, `err` where an
-- exception rolled the session back, `saved` where the code committed before it raised (a wrong PIN).
-- An endpoint runs in one transaction, and concurrent requests are a sequence of calls here. The
-- vendor's acceptance and rejection, the operator's cancellation and refund, the sweep and the
-- payouts lock the rows that they decide about, and an offer locks the rider's profile and claims the
-- order by a conditional update. `mark_ready`, `handoff_order` with its counter of wrong PINs, the
-- operator's assignment of a rider, the deliveries, the customer's cancellation and the promo code of
-- a placement read their rows unlocked, so for those the sequence is an assumption. The database's
-- triggers on `updated_at` are left out. Money is in paisa and a rate in basis points, both
-- natural numbers; a balance is an integer (Prelude/Int.antt). Ids and instants are numbers.
--
-- The files, and the code that they model:
--   Enums          app/models/enums.py, with ORDER_TRANSITIONS; Enums/Graph: it only goes forward
--   Money          app/core/money.py; Money/Rounding: its rounding
--   Commission     app/services/commission.py, with `_basis_points` of app/services/pricing.py
--   Orders         app/models/order.py; Orders/Checks: the CHECK constraints of its table
--   Orders/Vendor, Orders/Handoff, Orders/Moves
--                  the calls on one loaded order: `_transition`, `accept_order`, `reject_order`,
--                  `mark_ready`, `handoff_order` and the sweep of app/services/vendor/orders.py,
--                  `cancel_order` of app/services/customer/orders.py and app/services/admin/orders.py,
--                  `refund_order`, `_complete` of app/services/rider/jobs.py, `assign_rider` of
--                  app/services/rider/dispatch.py, the claim of app/services/rider/offers.py, and what
--                  app/services/account_deletion.py erases of an order
--   Orders/Invariants, Orders/Lifecycle
--                  what holds of an order's row, and any sequence of those calls on it
--   Store          the same calls on the tables, behind the lookups of their endpoints; Store/Dispatch:
--                  app/services/rider/dispatch.py and offers.py; Store/Interleaving: any order of calls
--   Pricing        app/services/pricing.py
--   Promos         app/services/customer/promos.py and app/models/promo.py; Promos/Exact: when a code
--                  applies; Promos/Limits: what the other modules use of it
--   Cart           app/services/customer/cart.py: Cart/Price reads it, Cart/Edit changes it
--   BusinessHours  app/services/business_hours.py; BusinessHours/Next: `next_change`, Next/Quiet: between
--                  its moments nothing changes;
--                  BusinessHours/Sync: `apply` and `sync_all`
--   Checkout       `_prepare`, `checkout_summary` and `place_order` of app/services/customer/orders.py
--   Payouts        app/services/vendor/finance.py and app/services/rider/earnings.py
--   Idempotency    app/services/idempotency.py with `create_order` of app/api/v1/endpoints/orders.py
--   Redis          what the services use of Redis: an interface with its documented behaviour
--   RateLimit      app/core/rate_limit.py
--   Otp            app/services/otp_service.py: Otp/Accept, Otp/Guesses, Otp/Limit, Otp/Cooldown
--   Tokens         app/services/token_service.py
--   Reviews        `create_review` of app/services/customer/reviews.py
--   Menu           app/services/menu_service.py: Menu/Variants edits one row of an item, Menu/Sync the
--                  replace-sets, Menu/Items whole items, Menu/Sections sections and the order
--   Prelude, Result, Tests
--                  shared helpers, the results of calls, and examples at concrete rows
--
-- What the program takes from outside is an argument: the clock, random PINs and references, HMAC,
-- Fernet and SHA-256 (Orders.Handoff.Crypto, Cart.Edit.Calls.Digest), the comparison of CITEXT codes,
-- JWT, `str.lower`, Redis, the verdict of a flush on name clashes (Menu.Database), the platform's categories
-- (Menu.Sections.Taxonomy), the answer of
-- Redis's geo search, the local time of an instant, and a distance, which the code
-- computes in floating point (Checkout.Place.World, Pricing.Distance), and the rounded average of ratings.
--
-- All recursion is on lists or numbers, so nothing needs fuel; the four draws of a payout reference
-- are the list of draws.
--
-- Not modelled: the read models and reports, sign-in by password, provider or biometrics, the
-- platform's taxonomy, discovery, chat, content, notifications and storage, which neither move an
-- order nor money; the HTTP layer and the schemas, whose bounds are hypotheses where a theorem needs
-- them; and the reading of a time of day from its text.
pub mod Prelude
pub mod Result
pub mod Money
pub mod Enums
pub mod Orders
pub mod Store
pub mod Commission
pub mod Pricing
pub mod Payouts
pub mod Promos
pub mod Cart
pub mod BusinessHours
pub mod Checkout
pub mod Idempotency
pub mod Redis
pub mod RateLimit
pub mod Otp
pub mod Tokens
pub mod Menu
pub mod Reviews
pub mod Tests
