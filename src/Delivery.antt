-- ===== src/Delivery.antt =====
-- app/app/infrastructure/messaging/durable_delivery.py: the outbox, from the claim of a message by a
-- publisher to its acknowledgement, its repetition and the journal of dead letters. Every method is
-- one transaction on locked rows. A time is a natural number of seconds after '-infinity', which
-- is 0, and the time that a method reads (`clock_timestamp()`) is its argument `now`; so is the
-- random owner of a lease.
pub mod Outbox
pub mod Leases
pub mod Endings
pub mod Burial
pub mod Consumers
pub mod Repository
pub mod Intents
mod Tests
