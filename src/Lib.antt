-- ===== src/Lib.antt =====
-- Verification of the back end of a mentoring platform: mentees book sessions with mentors, pay for
-- them in coins or by card, and mentors offer times. The paths below are from the repository's root.
--
-- The parts and how they meet. A use case reads and writes documents through repositories and calls
-- other use cases and services. The state of all of them is the record World of Store/State.antt, one
-- list to a collection, but for authentication, whose state (Auth/State.antt) has the users, the login
-- sessions and Redis; a call is a function from a state to a result and a state (Action), and what
-- it wrote before it threw stays written, as no use case runs in a transaction. A payment provider's
-- event reaches the bookings and the wallet through the handlers of Payment/Webhook.antt; a job five
-- minutes after the end of a session runs the settlement of Booking/Settle.antt; a cancellation pays
-- back through Payment/Refund.antt; all coins move through Wallet.antt.
--
-- Base and its children: numbers, Boolean tests, lists and integers, and the library names that the
--   other files share.
-- Store/Docs: the documents (src/domain/entities), with the fields that are read or written here.
-- Store/Collection, Repositories, Queries, Ledger: the methods of
--   src/infrastructure/database/mongodb/repositories that the use cases below call. findById is
--   find_key, findByIdAndUpdate is update_key; create_payment has the unique index of the payments.
-- Money: calculateBookingAmount, SessionSettlementCalculatorService and the amounts of
--   RefundSessionAmountUseCase. Money/Bounds and Money/Policy are about them.
-- Wallet: WalletService. Wallet/Balance and Wallet/Transfers are about it.
-- Payment/Refund: RefundService. Payment/Confirm: ConfirmBookingPaymentService. Payment/Topup:
--   ProcessWalletTopupService and UpsertPaymentTransactionService. Payment/Webhook:
--   ProcessPaymentEventUseCase and the handlers of src/application/events/handlers/payment.
-- Booking/Conflict, Schedule, Cancel, Settle, Reschedule: the use cases of
--   src/application/modules/booking/use-cases and the services that they call; each has children for
--   what is shown of it.
-- Booking/Offers: GetAvailableSlotsUseCase, the slots of a day as a mentee sees them.
-- Booking/Create: CreateBookingUseCase; the payment provider is a parameter. Its children Free and
--   Price are about it.
-- LiveCall: the use cases of src/application/modules/live-call.
-- Lifecycle: any sequence of the requests that change a booking (join, terminate, feedback, both
--   cancellations, rescheduling, settlement, payment events) and the moves that the life of a booking
--   is to make. Its children show that each use case makes only such moves.
-- Auth/Redis, Auth/Services: what is used of the Redis server and of the token and password libraries,
--   as records of operations and laws. Auth/State: the state of authentication.
-- Auth/Otp: RedisOtpRepository, the policies of src/domain/policies, and what the use cases do alike.
-- Auth/Registration, PasswordReset, ChangePassword, Users: the use cases of registration, password
--   reset and password change. Auth/Flow puts a reset together with the login.
-- Auth/Sessions: SessionRepository, RedisTokenRevocationRepository and session.middleware.ts;
--   Auth/Sessions/Logins: AuthSessionService, LoginWithEmailUseCase and RefreshSessionUseCase;
--   Auth/Sessions/Logouts: the use cases of logout.
-- Availability/Breaks, Entity, Conflict, Slots, Manage: validateBreaks, Availability.create,
--   isAvailabilityConflict, computeSlotsForDate and the use cases of src/application/modules/availability.
-- Review: CreateReviewUseCase and what it uses of MongoReviewRepository, with its own state.
-- Cache: LRUCache of src/infrastructure/cache, its nodes in memory with their links. Cache/Spec is the
--   list of entries that it stands for; Chain, Links and Keys are about linked nodes and their keys;
--   Moves, Sets, Evicts and Refines about the methods; Served and Kept about sequences of calls.
-- Article: the entities and collections of articles, comments, reactions, views and reports.
--   Article/Reactions, Comments and Moderation: the use cases of src/application/modules/article and
--   report. Article/Counts and Counted: the counters of articles and comments.
-- Chat: the entities and collections of chats and messages, and CreateChatUseCase. Chat/Messages: the
--   other use cases of src/application/modules/chat. Chat/Pages: listByChatId and its cursors; its
--   children put the pages together. Chat/Kept: what chats and messages know of each other.
-- Tests: runs at concrete states.
--
-- Numbers and bounds. Identifiers are numbers, dates are milliseconds since the epoch, a time of day
-- is its minutes, and the date of an availability its days. Amounts of coins and rupees are whole
-- numbers of 1/3,600,000, of which every price is a multiple, so that the arithmetic is exact where the
-- source has binary floats; a balance is an integer. Subtraction stops at 0, and is guarded where the
-- source's does not. The one loop that is not over a list, that of computeSlotsForDate, runs on a bound
-- of one turn for each minute until the end and one more: each turn moves forward by the slot's length,
-- so that no more are taken where that is not 0. Redis is asked at a time in milliseconds, and a time to
-- live is in seconds.
--
-- Not modelled: texts for people, mails, live notifications and logs; searches, statistics and other
-- pages than those of a chat; the HTTP and websocket layers but for the check of a session; social
-- logins, the applications and lists of mentors, and the administration; the payment provider, the
-- queue, the databases, tokens and hashes themselves, which are libraries or services. Use cases run
-- one after the other: the interleaving of two requests is not modelled.
pub mod Base
pub mod Store
pub mod Money
pub mod Wallet
pub mod Payment
pub mod Booking
pub mod LiveCall
pub mod Lifecycle
pub mod Auth
pub mod Availability
pub mod Review
pub mod Cache
pub mod Article
pub mod Chat
pub mod Tests
