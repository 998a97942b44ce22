-- ===== src/Lib.antt =====
-- HLiquity: the frontend libraries of a collateralised stablecoin (HCHF against HBAR).
--
-- The program. packages/lib-base holds the data and the calculations: fixed-point numbers
-- (Decimal.ts), Troves and the changes between them (Trove.ts), fees that decay (Fees.ts), deposits
-- in the Stability Pool (StabilityDeposit.ts), stakes (HLQTStake.ts), the payout of a redemption
-- (redemptionDetails.ts), and the store that keeps the state read from the network and derives from
-- it (HLiquityStore.ts). packages/dev-frontend edits Troves, deposits and stakes, validates the
-- edits against the store's state, and moves between views by events. packages/providers collects
-- calls of contracts into batches. packages/lib-hashgraph reads the state from the contracts
-- (HashgraphLiquity.ts), fills the store with it, searches for the hints that a transaction needs,
-- and builds the transactions; packages/lib-ethers answers readings from a store that polls blocks
-- (ReadableEthersLiquity.ts).
--
-- The files, each with the code that it models:
--   Base        shared names, tests on numbers, errors as results, lists over the native numbers
--   Decimal     packages/lib-base/src/Decimal.ts, class Decimal; Decimal/Arith rounding,
--               Decimal/Power the powers, Decimal/Text `from` and `toString`, Decimal/Text/Scan
--               and Decimal/Text/RoundTrip their proofs, Decimal/BigText the parameter of them
--   Percent     packages/lib-base/src/Decimal.ts, class Percent
--   Constants   packages/lib-base/src/constants.ts
--   Fees        packages/lib-base/src/Fees.ts; Fees/Bounds its bounds
--   Trove       packages/lib-base/src/Trove.ts: Trove/Params the parameters of transactions,
--               Trove/Defs class Trove, Trove/Change `whatChanged` and `apply`, Trove/User the
--               Troves of owners, Trove/Normalize the parameters from objects, `create` and
--               `adjust`; Trove/Laws, Trove/Rounding, Trove/Adjustment, Trove/RoundTrip and
--               Trove/Recreate and Trove/AdjustBy proofs
--   StabilityDeposit, HlqtStake
--               packages/lib-base/src/StabilityDeposit.ts and packages/lib-base/src/HLQTStake.ts
--   Redemption  packages/lib-base/src/redemptionDetails.ts; Redemption/Loop and
--               Redemption/Details proofs
--   Store       packages/lib-base/src/HLiquityStore.ts: Store/State the base state and its
--               reduction, Store/Derive the derived state, Store/Listeners subscriptions,
--               Store/Update `_load` and `_update`; Store/Identity, Store/Rates and
--               Store/Agrees proofs
--   Validation  packages/dev-frontend/src/components/Trove/validation/validateTroveChange.tsx
--               (Validation/TroveChecks, Validation/TroveValidation, proofs in
--               Validation/TroveSafety) and
--               packages/dev-frontend/src/components/Stability/validation/
--               validateStabilityDepositChange.tsx (Validation/StabilityValidation)
--   BatchedProvider
--               packages/providers/src/BatchedProvider.ts; BatchedProvider/Events what happens to
--               it and the answers to its batches, with proofs in BatchedProvider/Batch,
--               BatchedProvider/Promises and BatchedProvider/Answers
--   Hints       packages/lib-hashgraph/src/hints.ts and `findHintsForNominalCollateralRatio` of
--               packages/lib-hashgraph/src/HashgraphLiquity.ts; Hints/Trials and Hints/Search proofs
--   Readings    packages/lib-base/src/ReadableLiquity.ts and _CachedReadableLiquity.ts: the interface
--               of readings and the reader with a cache, hypotheses in Readings/Coherence and proofs in
--               Readings/Cached;
--               Readings/StoreCache `BlockPolledLiquityStoreBasedCache` of
--               packages/lib-ethers/src/ReadableEthersLiquity.ts, hypotheses
--               in Readings/StoreCache/Loaded and proofs in Readings/StoreCache/Refines;
--               Readings/Contracts and Readings/Contracts/Others the
--               getters of packages/lib-hashgraph/src/HashgraphLiquity.ts and trove_status.ts there;
--               Readings/FetchStore `fetchStoreValues`, Readings/Refresh the start and the refresh of
--               the store; Readings/Laws and Readings/Derived proofs
--   Transactions
--               packages/lib-hashgraph/src/HashgraphLiquity.ts, the functions `populate...`, with
--               contract_functions.ts, gas.ts and transactions.ts there: Transactions/Troves,
--               Transactions/Redemptions, Transactions/Pools and Transactions/Receipts;
--               Transactions/Effects, Transactions/Opening and Transactions/Limits proofs
--   Borrowing   packages/dev-frontend/src/hooks/useFee.ts and useMaxNetDebt.ts
--   AffectedTroves
--               packages/dev-frontend/src/utils/redemption-page/extractAffectedTroves.ts;
--               AffectedTroves/Enrichment the extraction and the enrichment, with proofs,
--               AffectedTroves/Search proofs on the backward search
--   Views       the folders `context` under packages/dev-frontend/src/components: Views/Provider
--               what the providers share, Views/TroveView, Views/StabilityView, Views/MineView,
--               Views/StakingView; Views/TransactionMonitor the sending and the monitor of
--               packages/dev-frontend/src/components/Transaction.tsx, with proofs in
--               Views/TransactionMonitor/Settling
-- The files named Tests, Store/UpdateTests and Readings/CacheTests apply the theorems to concrete
-- values and run definitions.
--
-- Names keep the source's words in snake case. A function that can throw returns a Result with
-- the error as a value (Base/Throw). `undefined` and `null` are `none`.
--
-- How the code is modelled:
--   * A Decimal is its field `_bigNumber`, a natural number of units of 10^-8; the constructor
--     refuses negative numbers, so a subtraction returns a Result. An argument that the code
--     converts by `Decimal.from` enters as the converted number.
--   * BigNumber of @ethersproject/bignumber counts with integers of any size, as the native
--     numbers do. Its conversions from and to texts are the parameter BigText, and IsDecimal is
--     what is relied on. A text is the list of its code points.
--   * `_fromString` calls itself on a coefficient, which has no exponent: the call is a function
--     of its own. A text is split at the first separator; the format allows at most one.
--   * `pow` halves an exponent of at most 32 bits: 32 rounds of fuel suffice for every exponent
--     that passes its assertion.
--   * A Date is its time in milliseconds.
--   * The store compares some fields by `===`: an object carries an identity (Obj), and the
--     objects that a derivation creates have new identities.
--   * A listener is the number of its subscription. What listeners, `onLoaded` and the subclass of
--     the store do is a parameter: operations on the set of listeners, and `_reduceExtra`.
--   * A JSX element is data that says which message it shows, with the amounts in it.
--   * The batched provider awaits in steps: the events of a run are calls, the timer, and answers
--     to a batch that was sent, in any order. A promise is known by the request and the block tag
--     that it was returned for. The node that answers is a parameter, which is told the sender:
--     Multicall for the calls of a batch of several, and none for one that is alone in its batch,
--     since the code drops the `from` of a request that it batches. Calls that are not batched go to
--     the class below, and only their number is modelled.
--   * A view provider is its view, the reference to it and a count of refreshes; the reference
--     follows the view in an effect, and events and effects come in any order; in a run, each event
--     comes after the effect of the render of the one before it.
--   * A contract is a parameter: each of its view functions answers a number or an error, by block
--     tag. Several readings that the code awaits together are read in their order, so that the first
--     error in that order is the one that is thrown; the code rejects with the earliest in time.
--   * The reader with a cache equals the reader without under named hypotheses: each answer of the
--     cache is the one of the reader, a reading without address is that of the user (or frontend),
--     and a reading without block tag is that of the block of the store.
--   * A populated transaction is its contract, amount, gas and arguments; what the contract does
--     with the arguments of `openTrove` and `adjustTrove` is read back by definitions that stand with
--     the theorems. The amount in hbar is a text with eight decimals, read back as tinybars.
--   * The transaction monitor handles the call of `sendTransaction`, whatever the state is, the
--     answers to `send`, which is awaited any number of times at once, and to `waitForReceipt`, and the
--     end of the timer, each followed by the renders that it causes, of which three are enough. What
--     is rendered is left out, the disabled buttons included. A transaction is a number, and the
--     identifiers of the calls are texts.
--   * Amounts between the contracts and the code are numbers; their texts are left out. The number
--     of trials, a square root of floating point, the random seed, and the number that `parseInt`
--     makes of a seed that a contract answers, which is exact below 2^53 only, are parameters.
--   * `generateTrials` and the backward search over windows of seven days run on fuel: the number of
--     trials, of which each batch takes at least one, and one round more than there are windows of
--     seven days back to the beginning of time. Times of the mirror node are nanoseconds, and
--     `parseFloat` is a parameter.
--   * `waitForReceipt` gets what the details and the refresh of the store answer after the
--     transaction.
--
-- Not modelled: `prettify`, `shorten` and class Difference of Decimal.ts, the logging of the store
-- and the states that its listeners receive, the setter and the balances of the batched provider; of
-- HashgraphLiquity.ts the set up of contracts, the event emitter, the details that receipts report,
-- and the association and approval of tokens; and whatever else talks to a network, a wallet or
-- React: the rest of packages/lib-ethers, packages/lib-react and the rest of
-- packages/dev-frontend.
pub mod Base
pub mod Decimal
pub mod Constants
pub mod Fees
pub mod Trove
pub mod StabilityDeposit
pub mod HlqtStake
pub mod Percent
pub mod Redemption
pub mod BatchedProvider
pub mod Views
pub mod Validation
pub mod Hints
pub mod Readings
pub mod Transactions
pub mod Borrowing
pub mod AffectedTroves
pub mod Store
