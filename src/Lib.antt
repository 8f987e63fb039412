-- ===== src/Lib.antt =====
-- JointSave: the logic that decides and records, modelled from the TypeScript of the repository.
--
-- JointSave runs savings pools on Stellar. The contracts hold the money; the program that is
-- modelled here sits before them. It reads and prints amounts, decides which actions a viewer is
-- offered, keeps two transactions from being signed or sent where one was meant, follows what was
-- sent until the network has answered, limits the requests of its API, keeps the disputes of a pool
-- and their votes, and pauses a pool where a scan finds it attacked.
--
--   Gating (sdk/src/gating/engine.ts, sdk/src/gating/types.ts): from a snapshot of a pool and a viewer,
--     whether each action is allowed, or why not. Gating/Types has the snapshot, Gating/Snapshot
--     buildSnapshot with its defaults, Gating/Engine the gates on money, Gating/Actions the gates on
--     governance and yield and computeActionEligibility. A bigint is ℤ, a missing field an Option;
--     toBigInt of a text is Prelude/BigInt.
--   SignQueue (frontend/lib/tx-queue.ts): one wallet popup at a time. SignQueue/Machine has the module's
--     variables as a state and one event for each way in: enqueueSign, the answer that processQueue
--     awaits, the timer of an entry, setSigningKit. SignQueue/Invariant, Preserve and Steps carry the
--     invariant over the events.
--   TxRetry (frontend/lib/tx-retry.ts): the way of a transaction to the network. TxRetry/Errors classifies
--     failures, TxRetry/Tracker is the list of pending transactions, TxRetry/Options has the state and
--     what the world does in an attempt, TxRetry/Submit pollForConfirmation and submitWithRetry. It
--     calls the store of Pending, and its callers sign by SignQueue.
--   Pending (frontend/lib/pending-transactions.ts): the records of transactions in flight for each
--     address, and their recovery (reconcilePendingTransactions) against the network's answers.
--   Security (frontend/lib/security-rules.ts): the rules that read a pool's activity and raise alerts.
--     Security/Types has the alerts, Security/Context the rows and thresholds, Security/Rules and
--     Security/Engine the eight detectors and runSecurityRules, Security/Collections the sets and maps
--     they keep, Security/Raised what holds of every alert of a run.
--   Incident (frontend/lib/incident-response.ts): the circuit breaker's decisions. Incident/Config reads
--     its settings, Incident/Grouping counts the critical alerts of each pool, Incident/Decision decides
--     and summarises, Incident/Authorization chooses the signed authorization that a pause spends.
--     Incident/Escalation joins the rules to the grouping.
--   Incident/Response (frontend/lib/server/incident-actions.ts): what is done with the decisions. Store
--     has the tables as lists of rows, Steps the single writes, Onchain the attempt to pause the
--     contract, Run the loop over the decisions, Entry the reads before it and the run from a scan's
--     alerts. What each read, write and call gives is a `Luck`.
--   BatchDeposit (frontend/lib/batch-deposit.ts, frontend/hooks/useBatchDeposit.ts): deposits to several
--     pools, one transaction each. Pools has the split into batches, the order by urgency and the
--     progress, Run the hook's run and its retry, with a `Deposit` for what the wallet, the network and
--     the user do in each; Chunks, Order, Settled, Due, Terminal and Retry are the proofs.
--   Optimistic (frontend/hooks/useOptimisticTransactions.ts): what a page shows ahead of the network.
--     Optimistic/Manager is OptimisticTransactionManager, whose transactions are objects that the map, the
--     requests in flight and the subscribers share; Optimistic/Hook is the hook's state. Picking,
--     Invariant, Watched, Registered, Settled and Polling are the proofs.
--   Disputes (frontend/lib/disputes.ts, frontend/app/api/disputes): disputes in a pool. Disputes/Rules has
--     the rules, Disputes/Store the tables with the constraints of
--     supabase/migrations/20260824010000_dispute_resolution.sql, Filing, Voting and Closing the routes, and
--     Requests the requests as they are served one after another. A vote is three steps, so that Race can
--     put another request between them. Moves says how each request changes the tables and Served carries
--     a property over any requests; Rows, Tally, Closed, Ballots and Race are the properties.
--   RateLimit (frontend/lib/rate-limit.ts): the limits on requests of the API. RateLimit/Limiter has the
--     store of timestamps and applyLimit, RateLimit/History the ideal limiter, which keeps every request
--     that it let through; Refinement, Bound and Waiting are the proofs.
--   Recovery (sdk/src/recovery/retry.ts, sdk/src/recovery/lookup.ts, sdk/src/errors.ts): what the SDK does
--     when a call fails. Recovery/Errors classifies failures, Recovery/Retry is withRpcRetry,
--     Recovery/Lookup lookupTransaction; Rounds and Polls are the proofs.
--   Amounts (sdk/src/utils/amounts.ts, frontend/lib/cctp-bridge.ts, frontend/lib/governance.ts): decimal
--     texts and base units. A text is a list of character codes here. Digits has numbers as digits,
--     Decimals the regular expressions, Units toBaseUnits and fromBaseUnits, Format the display, Frontend
--     the conversions of the bridge and of governance; RoundTrip, Agreement and Rounding are the proofs.
--   Prelude: lists, tests, texts, signed integers and sorting, as JavaScript has them.
--
-- Numbers. Amounts are ℤ in Gating, without bounds, as bigint is, and whole base
--   units in Security. Times, counts and ledger numbers are ℕ: the
--   source's numbers here are whole, not negative and far below 2^53, so doubles are exact on them,
--   and a difference that is compared is written as a sum.
-- Loops. Every loop is structural: over a list, over the attempts or the polls that are left, over a
--   list of events. The decimal text of a number has one round more than the number, and each round
--   divides by ten, and the split into batches has a round for each item, of which a batch takes one at
--   least. A lookup of a transaction runs on fuel, and Recovery/Polls proves how many checks end it. No
--   other result depends on fuel.
-- The world. Wallet, network, RPC client and clock are parameters: an event of the queue or of the
--   optimistic manager, a record for each attempt of a submission, an answer for each hash of a recovery,
--   a `Poll` for each check of a lookup. How a call of the database turns out is a field of a record that
--   the request comes with. A random number is an exact fraction. Nothing is assumed of them but what a
--   theorem lists, but that localStorage is there and takes what is written. Text for people (toasts, labels, descriptions) is left out, or is its template with the
--   values that go into it. Case is changed at ASCII letters.
-- Not modelled. The React interface, the API routes but those of Disputes, the database but for the
--   tables and constraints that a part names, the clients of the contracts and of the Stellar SDK, and
--   the contracts themselves, which are Rust programs.
pub mod Prelude
pub mod Amounts
pub mod BatchDeposit
pub mod Disputes
pub mod Gating
pub mod Incident
pub mod Optimistic
pub mod Pending
pub mod RateLimit
pub mod Recovery
pub mod Security
pub mod SignQueue
pub mod TxRetry
