-- ===== src/Lib.antt =====
-- Bodkin, a trading tool for token launches: a verification library of the decision and bookkeeping
-- core of crates/bodkin.
--
-- How the parts interact: an entry task of the runner quotes a buy on the bonding curve with the
-- opening tax of its entry second, reserves budget and a position slot, waits for the scheduler's
-- permit within the windows of its entry deadline, journals what it signs before it sends, and opens a
-- position when the entry lands. The deployer index tells the decision how a launch's deployer did
-- before, and the flow of buys and sells of the curve, followed from its logs, what happens to it
-- now. Each exit takes tokens and cost from the position. After a restart, recovery asks the chain what
-- came of each operation that the journal left open, opens and closes the positions that are missing,
-- and settles the operation. A research run takes the same decisions without sending: its portfolio
-- admits an entry, settles or fails it, marks the position and settles its exits. The outcome log counts
-- what came of the entries and exits, and a replay asks what another entry second would have bought.
--
-- Which file models which part:
--   Prelude, and its modules: Boolean tests, list helpers, machine words (`u64_mod`, `u256_mod` and the
--     checked, saturating and wrapping operations on them), integers, text, and the operators of
--     256-bit words.
--   Research (crates/bodkin/src/research.rs): Profile has ResearchProfile, its validation and the
--     checked arithmetic; Portfolio has ResearchPortfolio, known_equity and refresh_risk; Methods has
--     admission, settle_entry, fail_entry, mark, settle_exit and snapshot. A method on `&mut self` is a
--     function from the portfolio to a result and the portfolio, so what is written before an error
--     stays written. Calls has histories of calls. Refresh, Outcomes and Books hold lemmas; Validity,
--     Latch and Cash prove.
--   Reservation (crates/bodkin/src/run.rs, EntryResv and try_reserve): Defs has the operations, whole
--     and as the single accesses of a task; Ledger has interleavings of tasks; Slots has the slot test.
--   Curve (crates/bodkin/src/pons/curve.rs and pons/tax.rs): Tax and Quote have the code; Exact shows
--     where no word wraps, Fair has the inequalities of the formula, Buy proves.
--   Scheduler (crates/bodkin/src/trade/scheduler.rs): Deadline has EntryDeadline; Queue has the waiters
--     and one round of acquire; Priority and Ownership prove.
--   Journal (crates/bodkin/src/trade/journal.rs): Record has operations, transactions, apply_event and
--     operation_requires_recovery; Store has begin, record and requires_recovery of TxJournal, each with
--     whether the save succeeds; Distinct, Recovery and Pending prove. How hashes, addresses and amounts
--     are printed is a parameter.
--   Deployer (crates/bodkin/src/pons/deployer.rs): Maps has the hash maps, Index has DeployerIndex,
--     Checkpoint has checkpoint and restore, Counts proves.
--   Burst (crates/bodkin/src/trade/burst.rs, trade/wallet.rs): Outcome has what the sends of a burst came
--     to and the adaptive lead, Sends has best_send of trade/submitter.rs, Nonces the nonce allocator,
--     Classes proves. What the network answered and how long it took are arguments.
--   Flow (crates/bodkin/src/pons/stream.rs): Keys has the order of events and their ordered map; Tracker
--     has FlowTracker, watch, sync, rewind, unwatch and records; Ingest has ingest and apply_range;
--     Snapshot has snapshot. Identities and Consistent say when the two maps of a flow agree, Held reads
--     them as one map from a log's identity to its event, and Order, Ranges, Sync and Streams prove. What
--     topics and data decode to is a parameter. `FlowEvent::Tax` is called snipe_tax.
--   Positions (crates/bodkin/src/trade/positions.rs): Record has Position and what is read from it, Exits
--     has apply_exit, Store the list of PositionStore; Exact, Conserve, Realized, Overhead and Owned
--     prove. How numbers are written as text is a parameter, of which it is asked that a number is read
--     back from its own text; Decimal is an instance.
--     Rules has pnl_pct, the ladder and exit_reason over floats that are a parameter, Ladder proves of
--     them, Whole is an instance.
--   Clock (crates/bodkin/src/pons/clock.rs): State has ChainClock, Boundary and Projection prove. The
--     instant and the wall time of a call are arguments.
--   Decision (crates/bodkin/src/engine.rs): Rules has SnipeRules and validate, Decide has decide and
--     live_gate with what they read of pons/enrich.rs, Exit has pick_exit, Rungs has parse_exit_ladder of
--     crates/bodkin/src/config.rs; Gates and Fraction prove, Gates with the reservation that follows.
--   Score (crates/bodkin/src/score.rs): Points has the sum, Launch has score_launch with progress of
--     pons/curve.rs, Bounds proves.
--   Capture (crates/bodkin/src/research.rs): Format has the limits, the envelope and the manifest, Recorder
--     has ResearchRecorder, Scan has verify_capture and visit_capture; Sizes, Lines, Sound, Appends,
--     RoundTrip and Tamper prove. JSON and keccak256 are parameters, what the disk answers is an argument.
--   Book (crates/bodkin/src/research.rs): Defs has ResearchPortfolioBook with its file, Durable proves.
--   Recovery (crates/bodkin/src/trade/journal.rs): Fills has what the logs of a receipt say, from
--     trade/curve.rs, trade/pool.rs and trade/v4.rs; World has the node, the report and the steps on
--     journal and positions; Receipts has refresh_receipts and canonical_issues, Entry, Exit and Command
--     the three ways to settle an operation, with Settle for what they share, Recover the loop. Kept, Once,
--     EntryOnce, ExitOnce and ExitSteps hold lemmas; Attempts, ExitAttempts and Known prove. What the node
--     answers is an argument, the same for the same question within one recovery, and so is whether each
--     save succeeds; an `expect` that fails is an error of its own. net_pool_quote stands in Exit.
--   Outcomes (crates/bodkin/src/outcomes.rs): Summary has summarize; Balance, Kinds and Totals prove. JSON values
--     are a parameter, the floats those of Positions.
--   Replay (crates/bodkin/src/replay.rs): Launches has state_before and quoted_entry; Reserves proves.
--   The modules called Tests hold concrete runs.
--
-- Numbers: all amounts are natural numbers. `U256` is a word of 256 bits: its operators wrap, its
-- checked operations give none out of range, its saturating ones stop at the last word; division by
-- zero panics in the source and is none here. A `u64` wraps or is checked as the source writes it.
-- Instants are nanoseconds since some start, chain times milliseconds. Theorems on the curve assume
-- amounts below 2 ^ 112, which every supply on the chain is far below; there no product of two amounts
-- leaves the word. Every loop is structural but two on fuel: the decimal digits
-- of an operation's id, for which 20 digits are enough for a `u64`, and the loop of `finish` that settles
-- the size of a manifest, whose 21 rounds are enough where numbers are written in decimal.
--
-- Not modelled: network, files, the database, signing, logging and presentation; the async runtime,
-- which only decides the order of steps; what a float operation gives. Reads of shared state are atomic,
-- as the locks and atomics of the source make them; SeqCst accesses interleave.
pub mod Prelude
pub mod Research
pub mod Reservation
pub mod Curve
pub mod Scheduler
pub mod Journal
pub mod Deployer
pub mod Burst
pub mod Flow
pub mod Positions
pub mod Clock
pub mod Decision
pub mod Score
pub mod Capture
pub mod Book
pub mod Recovery
pub mod Outcomes
pub mod Replay
