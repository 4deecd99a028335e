-- ===== src/RelayErrors.antt =====
-- pkg/errors/errors.go: relay errors, the search for patterns in a message, the classification of an
-- error, and the retry strategy.
pub mod Contains
pub mod Codes
pub mod Retry
