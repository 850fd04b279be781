-- ===== src/Ledger.antt =====
-- The double-entry ledger: swx_core/services/ledger_service.py over
-- swx_core/repositories/ledger_repository.py and swx_core/models/ledger.py.
pub mod Model
pub mod Repository
pub mod Service
pub mod Transfers
pub mod Books
pub mod Posting
pub mod Reconciled
pub mod Legs
pub mod TransferLaws
pub mod History
pub mod Atomic
pub mod Replay
pub mod Holding
pub mod Retried
pub mod Limits
mod Tests
