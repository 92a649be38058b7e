-- ===== src/Lib.antt =====
-- Verification of gridpool-sv2-pool: the payout modes of the pool (stratum-apps/src/payout.rs),
-- its GridPool client (pool-apps/pool/src/lib/gridpool.rs), its channel manager
-- (pool-apps/pool/src/lib/channel_manager), and the Job Declarator Server (pool-apps/jd-server) with
-- the part of bitcoin-core-sv2 that validates its jobs.
--
-- Parts. A miner's `user_identity` names a payout mode; the pool builds coinbase outputs for it and
-- verifies outputs that others built. When a GridPool node selects the work, its client resolves a
-- payout for each channel, and every job of the channel pays it; shares become telemetry and proofs
-- for the node. A client of the Job Declarator Server allocates a token,
-- declares a job under it, and gets an active token if Bitcoin Core accepts the job; a
-- `SetCustomMiningJob` with the active token is checked against the declared job.
--
-- - Prelude: shared helpers: Boolean tests, lists and texts as lists of bytes, results, and
--   `Outcome`, which is a value or a panic.
-- - Map: the concurrent maps (`DashMap`, `HashMap`), as lists of entries.
-- - Payout/Script: config_helpers/coinbase_output; the crates miniscript and bitcoin are the
--   parameters `Miniscript` and `BitcoinLib`.
-- - Payout/Mode, Payout/Identity: stratum-apps/src/payout.rs, distribution and parsing. A `u64`
--   product and sum wrap at 2 ^ 64, as in a release build.
-- - Payout/Distribution, Payout/Agreement, Payout/Parsing: its theorems.
-- - GridPool: pool-apps/pool/src/lib/gridpool.rs, with the crates and the arithmetic of f64 as the
--   parameter `Libs`. Client: the state, the fee window, the coinbase's outputs, the test for a fee
--   job. Network, Address: the networks' names, the payout of an identity, the checks of a start.
--   Pulse: which shares become proofs. Telemetry: aggregates and batches. Time: their timestamps.
--   Refresh: the work of a new chain tip; its loop runs on the source's 600 attempts.
-- - Pool: pool-apps/pool/src/lib/channel_manager/ over channels_sv2, whose channels are the parameter
--   `Channels` in `Crates`. State: the manager, clients that come and go (also downstream/mod.rs and
--   error.rs), closed channels, error actions. Open, Shares, Submit: mining_message_handler.rs.
--   Templates, PrevHash: template_distribution_message_handler.rs. Update: new targets
--   (`handle_update_channel`, and `run_vardiff` of mod.rs). FeeJobs: the rounds of fee jobs
--   (mod.rs). Each, Kept: `try_for_each_mut` where an error ends the pool or is logged. Pairs: maps
--   keyed by a downstream and a channel. History: any interleaving of the handlers. A handler's
--   messages are a result; locks do not fail.
-- - Fallback/Coordinator: stratum-apps/src/fallback_coordinator.rs, one atomic access at a time; an
--   event is one access of some task, and a list of events is one order of them.
-- - Jds/Timeouts, Jds/Tokens: the constants of job_declarator/mod.rs, and
--   job_declarator/token_management/mod.rs. A call that reads the clock takes the time in
--   nanoseconds, and the janitor is one round; Tokens/History runs any sequence of calls.
-- - Jds/Bitcoin: the crate bitcoin as a record of the operations that the code calls.
-- - Jds/Mempool: bitcoin-core-sv2/src/unix_capnp/v31x/job_declaration_protocol/mempool.rs.
-- - Jds/Validator: handlers.rs and mod.rs beside it. What happens while the handler awaits (templates
--   that the monitor stores, the answer of checkBlock, the attempts to refresh) is an argument,
--   `World`; an expectation that fails is a panic.
-- - Jds/Engine: job_declarator/job_validation/bitcoin_core_ipc.rs: the coinbase and the merkle path
--   of a declared job, the two handlers, the janitor, and histories of them. `DeclareMiningJob` is
--   split at the wait for Bitcoin Core's answer, where other calls may come in between.
-- - Jds/Declarator: job_declarator/mod.rs, job_declaration_message_handler.rs and downstream/mod.rs
--   over any engine (State: the state, the messages and the world around a call; Clients: clients
--   coming and going; Declare, Custom: the handlers). What other tasks do while a handler awaits the
--   engine is a function that the theorems quantify over, or none where they say so.
--
-- Hashes are the numbers that their bytes write. Fuel: the loop of the merkle path runs on the
-- number of hashes, which each round halves; the refresh runs on the source's three attempts.
--
-- Not modelled: the transport (sockets, queues, frames), the negotiation of extensions, the run loops
-- and their cancellation, logging, configuration and monitoring, HTTP and the spool of proofs, of the
-- pool's channel manager SetCustomMiningJob and the contents of proofs, and the other programs (the
-- JD client, the translator).
pub mod Prelude
pub mod Map
pub mod Fallback
pub mod GridPool
pub mod Jds
pub mod Payout
pub mod Pool
