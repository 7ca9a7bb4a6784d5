-- ===== src/Lib.antt =====
-- TransHub: an Express backend (backend/src) for seat e-ticketing, parcel waybills and vehicle
-- charters, with a Next.js frontend. This library models the core of the backend, the operations
-- on the rows that money and seats depend on, and what keeps them right, and of the frontend the
-- service worker, the HTTP client, the lists of the dashboards and the pages that wait for a
-- payment.
--
-- Each table is a list of rows. A conditional `updateMany` of Prisma is `update_many` with the
-- WHERE as a Boolean test of a row, a `findFirst` or `findUnique` is `find_first`, and the count
-- that `updateMany` returns is `count_where`. A handler is a function from the table to a
-- `Result`: it returns its value with the new table, or it throws an application error and has
-- then written nothing. Where a handler reads and later writes without a transaction, what other
-- requests write in between is the argument `meanwhile`. Ids, references, texts and instants are
-- natural numbers, and money is in kobo, except for the price of a trip and the total of a
-- booking, which are in naira as in the source. The clock, the lookup of a user's email and the
-- replies of Paystack are arguments.
--
-- Prelude: Boolean tests, lists, the tables and tables with a primary key.
-- Errors, Errors/Response: backend/src/shared/errors and backend/src/middleware/error.ts, the
-- typed errors and how they are answered.
-- Roles: backend/src/middleware/rbac.ts, the guard of a route.
-- Accounts: the rows of users, companies, drivers and reset tokens (backend/prisma/schema.prisma)
-- and the writes of backend/src/modules/users, operators, drivers and auth to them;
-- Accounts/Hashing has argon2 and SHA-256 as interfaces of operations and laws.
-- Auth: backend/src/modules/auth: registration, logins, sessions (Auth/Session) and forgotten
-- passwords (Auth/Reset).
-- Operators: backend/src/modules/operators: application, approval and refusal (Operators.antt), an
-- approval up to the first login and reviews that overlap (Operators/Approval), the link of
-- companies and accounts (Operators/Linked) over sequences of requests (Operators/Requests).
-- Users: the profile and the change of a password of backend/src/modules/users.
-- Drivers: backend/src/modules/drivers: creation, update, deactivation and what it shuts a driver
-- out of.
-- Vehicles: backend/src/modules/vehicles (Vehicles.antt) and the smallest capacities
-- (Vehicles/Fit).
-- Inventory: backend/src/modules/inventory, the seats: the repository's WHERE conditions and
-- writes (Inventory.antt), the hold transaction (Inventory/Claim), the confirm lock
-- (Inventory/Booked), the service with the Redis keys and the job queue (Inventory/Service), the
-- sweeper and the expiry job of backend/src/modules/bookings/bookings.job.ts (Inventory/Expiry).
-- Trips: backend/src/modules/trips: the rows, the replies and the writes (Trips.antt), the labels
-- of seats (Trips/Labels), the handlers with the guards of the controller (Trips/Service), who
-- sets the capacity and what follows (Trips/Capacity), the search and the trips of a driver
-- (Trips/Search), the search by what a passenger asks for (Trips/Search/Wanted), the list for an
-- admin or a company (Trips/Lists), the names of cities (Trips/Cities).
-- Paystack: the calls of backend/src/modules/payments/payments.service.ts to Paystack, whose reply
-- is an argument.
-- Bookings: backend/src/modules/bookings: the rows of bookings, hold and confirm (Bookings.antt),
-- the seats that a trip can sell (Bookings/Capacity), a hold of what a search shows
-- (Bookings/Found), the lists, a single booking and the passengers of a trip (Bookings/Reads), the
-- confirm of a payment that arrives more than once (Bookings/Confirm, Bookings/Race).
-- Payments: settleBookingCharge, handleWebhook and verifyPayment of
-- backend/src/modules/payments/payments.service.ts (Payments.antt, Payments/Settle), initialize up
-- to the settlement of its charge (Payments/Initialize), and the charges of waybills and charters
-- (Payments/Charges).
-- Waybills: backend/src/modules/waybills: the rows and writes (Waybills.antt), the handlers
-- (Waybills/Service), the invariant (Waybills/Invariant), the handlers as steps (Waybills/Steps),
-- sequences of requests (Waybills/Lifecycle), payment (Waybills/Payment), access
-- (Waybills/Access). The amount of a quote comes in ten-thousandths of a naira and is stored in
-- hundredths. The lists and the public view are in Waybills/Reads.
-- Charters: backend/src/modules/charters: the rows and writes (Charters.antt), the handlers
-- (Charters/Service), the flip of a charter to confirmed (Charters/Payment), deliveries of the
-- webhook and races (Charters/Charges), the verify endpoint (Charters/Verify), any sequence of
-- requests (Charters/Requests), the lists and a single charter (Charters/Reads). The float product
-- of a price and 100 is an argument, since JavaScript computes it without rounding.
-- Pagination: backend/src/shared/pagination.ts, the pages of a list endpoint.
-- RateLimit: backend/src/middleware/rate-limit.ts, the counter (RateLimit.antt) and what gets
-- through in the time of a window (RateLimit/Window). Redis is a function from a key to a counter,
-- the clock an argument.
-- ServiceWorker: frontend/public/sw.js: the routes, the strategies and the caches
-- (ServiceWorker.antt), what is put into them (ServiceWorker/Proper), what they come to have
-- (ServiceWorker/Stored), a ticket that stays in one (ServiceWorker/Shared). The network is an
-- argument of each event, and what an event does in the background is taken as settled at its end.
-- ListQuery: backend/src/shared/list-query.ts: the ranges of dates and numbers.
-- Transactions: backend/src/modules/transactions: the union of the payments of three tables, its
-- filters and the scope of a role (Transactions.antt), and that the rows of others do not show
-- (Transactions/Scope).
-- Tickets: backend/src/modules/tickets: a ticket and the list of a passenger's tickets
-- (Tickets.antt), and that the bookings of others do not show (Tickets/Unseen).
-- Analytics: backend/src/modules/analytics: the aggregates over bookings, trips, vehicles and
-- companies (Analytics.antt), and what the groups add up to (Analytics/Totals). A column without a
-- zone is in UTC, and so is the session of the database.
-- Sockets: backend/src/infra/socket/index.ts: the rooms of a connection, the messages of a client
-- and the pushes (Sockets.antt), and whom the news of a booking reaches (Sockets/Staff).
-- Api: frontend/src/lib/api.ts: the two interceptors of the HTTP client and a request with its
-- retries (Api.antt), how often it is sent and what a retry gives (Api/Retry). A request is a
-- recursion on fuel; three are enough, the attempts that the counter of the source allows.
-- AuthStore: frontend/src/lib/auth.ts and frontend/src/store/authStore.ts: the two keys and the
-- state of a tab (AuthStore.antt), and the session after a reload (AuthStore/Reload).
-- ServerList: frontend/src/hooks/useServerList.ts: the hook's state, its functions and effects
-- (ServerList.antt), what the list shows after any events (ServerList/Latest) and any order of
-- replies (ServerList/Order). A list of events has the user's acts, the timer and the replies.
-- Checkout: verifyPayment of frontend/src/services/payments.ts and the polls of
-- frontend/src/app/(passenger)/checkout/page.js and frontend/src/app/(waybill)/pay-success/page.js
-- (Checkout.antt), what they come to, also through the client (Checkout/Polls). The fuel is the
-- number of polls, fifteen and six.
--
-- Fuel elsewhere: the sweeper's loop has an attempt counter of its own in the source, at most
-- three, and is a recursion on the attempts that are left; all else is recursion on a list.
--
-- Not modelled: the HTTP server, the signing of tokens, the validation and normalization of the
-- text of requests but for the names of cities, mails, metrics, the matching of texts in the list
-- endpoints, and the layout of the pages of the frontend.
pub mod Prelude
pub mod Errors
pub mod Roles
pub mod Accounts
pub mod Auth
pub mod Operators
pub mod Users
pub mod Drivers
pub mod Vehicles
pub mod Inventory
pub mod Trips
pub mod Paystack
pub mod Bookings
pub mod Payments
pub mod Waybills
pub mod Charters
pub mod Pagination
pub mod RateLimit
pub mod ServiceWorker
pub mod ListQuery
pub mod Transactions
pub mod Tickets
pub mod Analytics
pub mod Sockets
pub mod Api
pub mod AuthStore
pub mod ServerList
pub mod Checkout
