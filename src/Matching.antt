-- ===== src/Matching.antt =====
-- The matching engine (apps/api/src/matching): ranking, eligibility, the progressive dispatch of
-- batches, and the calls of clients and providers.
pub mod Numbers
pub mod Ranking
pub mod Eligibility
pub mod Platform
pub mod Loops
pub mod Dispatch
pub mod Service
