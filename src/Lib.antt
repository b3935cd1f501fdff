-- ===== src/Lib.antt =====
-- The commerce core of the AgriLink backend: orders, payments, purchase requests and contracts,
-- with the amounts, quantities, idempotency ledger and fingerprints that they share; and around it
-- the reviews of products, the status and the certificates of products, and the stored files.
--
-- Base         texts, results, tables as lists of rows, and `Base.Action`, a call that may throw
--              and that reads and writes a store. `Base.Action.execute` is
--              src/shared/infrastructure/persistence/transaction/typeorm-transaction-context.ts.
-- Store        one record with the rows of the seven commerce tables, from the entities under
--              src/modules/*/infrastructure/persistence/entities.
-- Platform     one record with that store and the tables of users, products, reviews, certificates and
--              files, and the notifications that were published.
-- Enums        the enums of src/common/enums/index.ts that the code here reads.
-- Commerce     src/modules/commerce. MoneyVnd and Quantity: domain/commerce-values.ts. Operations:
--              the repository of the operation ledger (`claim`, `complete`), and `idempotent`, the
--              opening, replay and transaction that every repository method has in common.
--              Fingerprint: application/services/commerce-fingerprint.ts.
-- Orders       src/modules/orders. Status and Order: domain. Repository: the TypeORM repository, its
--              mapper and models. UseCases: application/use-cases and the boundary service.
-- Payments     src/modules/payments, in the same way.
-- Contracts    src/modules/contracts, in the same way, with a repository for purchase requests and
--              one for contracts.
-- Reviews      src/modules/reviews. Policy, Models, Repository, ReadModel and UseCases are the code;
--              Board is the abstract view of it, with the acts that it is asked for. The readers of users and products that it calls
--              are those of src/modules/users/users.service.ts and of the product repository.
-- Products     src/modules/products. Status: domain/policies. UseCases: the status, deletion and
--              images of a product, its moderation in application/services, and its projection for
--              the orders. Certifications: the certificates that are written with a file.
-- Storage      src/modules/storage. Files: the repository of stored files. Service: the private
--              documents of application/storage.service.ts. Calls: sequences of its calls.
--              Download: who gets a link to which object.
-- Tests        concrete runs.
--
-- A use case checks the actor and the loaded aggregate and then calls one repository method. Such a
-- method runs in a transaction: it claims an operation row for the actor, the type and the key of the
-- request, and replays the recorded result if the row was there, or does its work and completes the
-- row. Every write to a commerce aggregate is an update that names the id, the version and the status that
-- were read. Names are those of the code in snake case: `refundAtomically` is `refund_atomically`, and
-- the work behind the claim is `refund_body`.
--
-- Ids, codes, keys and fingerprints are only compared by the code and stand as numbers. A numeric
-- column holds the text that the code writes to it; what PostgreSQL makes of scale and precision is
-- not modelled. A table is the list of its rows in the order of insertion, and transactions run one
-- after the other, so that lock waits and serialisation failures do not appear; a throw restores the
-- store as the transaction found it. `Draw` holds what the database supplies to one call: ids and the
-- time. Messages of errors are left out, their classes are kept.
--
-- The only fuel is that of `emit`, which prints the digits of a number: one more than the number,
-- and each round divides by ten.
--
-- The use cases of reviews, products and files open no transaction: what they wrote before a throw
-- stays, and they compensate by hand where two tables have to agree. A review is created by one insert
-- that fails on the unique index; replies and visibility are updates with a condition whose number of
-- affected rows is read. The verification of a certificate takes what happens between its steps as an
-- argument: what other requests write, and which calls fail. A status ACTIVE of a stored file is `ready` here. Of users, products and
-- certificates the rows have the columns that the code here reads. The order of rows that were created
-- at one time is not determined by the queries, and is that of the sorting in the model.
--
-- Parameters are code that is not here or not read: the hash and the key order of the fingerprint,
-- the text that PostgreSQL gives for the SUM of quantities, the reader of
-- products of the orders, the rounding of an average rating, which is computed in floating point, the
-- object store and what the validation of a document tells, and the outcome of the insertion of a
-- certificate.
--
-- The available quantity of a product is a natural number, so that `<= 0` is `== 0`.
--
-- Not modelled: the HTTP layer (controllers, DTO validation, error mapping), migrations, seeds and
-- configuration; creation, update, search, wishlist and categories of products; audit records, image
-- upload and the cleanup job of the storage; and the modules for auth, profiles, notifications,
-- traceability, advertisements, cooperatives, users beyond its readers, admin, forum, geography and
-- market prices.
pub mod Base
pub mod Enums
pub mod Store
pub mod Commerce
pub mod Orders
pub mod Payments
pub mod Platform
pub mod Products
pub mod Reviews
pub mod Storage
pub mod Contracts
pub mod Tests
