-- ===== src/Transactions/Receipts.antt =====
-- packages/lib-hashgraph/src/transactions.ts and the receipts of
-- packages/lib-hashgraph/src/HashgraphLiquity.ts: sending a transaction, and waiting for its receipt.
-- Of the statuses of the network's SDK those are named that the code names.
use Prim.Native.String.{String}
use hliquity.Base.{◌≡◌, ◌⊎◌, Result, ok, err, Error, ◌>>=◌, >>=-then, arith}
use hliquity.Transactions.{PopulatedTransaction, ContractExecuteTransaction}

pub data Status : Type 0 where
  success fail_balance fail_fee fail_invalid account_update_failed authorization_failed : Status
  serialization_failed contract_update_failed : Status
  other_status : String → Status

pub data LiquityReceiptStatus : Type 0 where
  pending succeeded failed : LiquityReceiptStatus

unfoldable pub get_liquity_receipt_status : Status → LiquityReceiptStatus
get_liquity_receipt_status success = succeeded
get_liquity_receipt_status fail_balance = failed
get_liquity_receipt_status fail_fee = failed
get_liquity_receipt_status fail_invalid = failed
get_liquity_receipt_status account_update_failed = failed
get_liquity_receipt_status authorization_failed = failed
get_liquity_receipt_status serialization_failed = failed
get_liquity_receipt_status contract_update_failed = failed
get_liquity_receipt_status (other_status name) = pending

pub record MinedReceipt (Details : Type 0) : Type 0 where
  pub status : LiquityReceiptStatus
  pub raw_receipt : Status
  pub details : Details

-- A receipt that is no longer pending.
abbrev pub IsMined : {Details : Type 0} → MinedReceipt Details → Type 0
unfolding get_liquity_receipt_status
IsMined receipt =
    ((receipt.status ≡ succeeded) × (receipt.raw_receipt ≡ success))
    ⊎ ((receipt.status ≡ failed) × (get_liquity_receipt_status receipt.raw_receipt ≡ failed))

module _ {Details State : Type 0} where
  -- A pending receipt is refused; else the store is refreshed.
  abbrev pub mined :
      Details → Status → Result State → LiquityReceiptStatus → Result (MinedReceipt Details × State)
  mined details raw refresh pending = err Error.still_pending
  mined details raw refresh status = do
    state ← refresh
    ok (record { status = status; raw_receipt = raw; details = details }, state)

  -- `waitForReceipt`, with `getDetails` and `refresh` as they answer after the transaction, and the
  -- state that the refreshed store has.
  unfoldable pub wait_for_receipt :
      (Status → Result Details) → Result State → Status → Result (MinedReceipt Details × State)
  unfolding get_liquity_receipt_status
  wait_for_receipt get_details refresh raw = do
    details ← get_details raw
    mined details raw refresh (get_liquity_receipt_status raw)

  -- `send` and `waitForReceipt`: the network's answer to the transaction is its status.
  unfoldable pub send_and_wait :
      (ContractExecuteTransaction → Result Status)
      → PopulatedTransaction
      → (Status → Result Details)
      → Result State
      → Result (MinedReceipt Details × State)
  unfolding wait_for_receipt
  send_and_wait send_transaction populated get_details refresh = do
    raw ← send_transaction populated.raw
    wait_for_receipt get_details refresh raw

  mined_cases :
      (details : Details) (raw : Status) (refresh : Result State) (receipt : MinedReceipt Details)
      (state : State)
      → mined details raw refresh (get_liquity_receipt_status raw) ≡ ok (receipt, state)
      → (receipt.raw_receipt ≡ raw)
        × ((refresh ≡ ok state)
            × (((receipt.status ≡ succeeded) × (raw ≡ success))
                ⊎ ((receipt.status ≡ failed) × (get_liquity_receipt_status raw ≡ failed))))
  unfolding get_liquity_receipt_status
  mined_cases details raw refresh receipt state h = ground arith

  -- A receipt that is returned is the network's status of the transaction that was sent, comes with
  -- the state of the refreshed store, and is never pending: it has succeeded with the status
  -- success, or failed with one of the statuses that count as failures.
  pub send_and_wait_lem :
      (send_transaction : ContractExecuteTransaction → Result Status)
      (populated : PopulatedTransaction) (get_details : Status → Result Details)
      (refresh : Result State) (receipt : MinedReceipt Details) (state : State)
      → send_and_wait send_transaction populated get_details refresh ≡ ok (receipt, state)
      → (send_transaction populated.raw ≡ ok receipt.raw_receipt)
        × ((refresh ≡ ok state) × IsMined receipt)
  unfolding send_and_wait wait_for_receipt
  send_and_wait_lem send_transaction populated get_details refresh receipt state h =
      >>=-then (send_transaction populated.raw) _ h λ raw at_raw h0.
        >>=-then (get_details raw) _ h0 λ details at_details h1.
          let (same, cases) = mined_cases details raw refresh receipt state h1 in
          rw same (at_raw, cases)
