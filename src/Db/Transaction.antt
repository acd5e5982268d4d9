-- ===== src/Db/Transaction.antt =====
-- kernel/db/transaction.c: the state of the one transaction.
use vault_os.Prelude.{ℕ, ◌+◌, ◌%◌, ◌^◌, ◌≡◌, refl}
use vault_os.ErrorCode.{ErrorCode}

-- `txn_state_t`, `transaction_t`
pub data TxnState : Type 0 where
  txn_active txn_committed txn_aborted : TxnState

pub record Transaction : Type 0 where
  pub txn_id : ℕ
  pub state : TxnState
  pub pid : ℕ

-- `next_txn_id` and `current_txn`
pub record Transactions : Type 0 where
  pub next_txn_id : ℕ
  pub current_txn : Transaction

-- `txn_begin`
unfoldable pub begin : Transactions → ℕ → Transactions
begin s pid = record {
  next_txn_id = (s.next_txn_id + 1) % 2 ^ 64;
  current_txn = record { txn_id = s.next_txn_id; state = TxnState.txn_active; pid = pid };
}

-- `txn_commit`, `txn_abort`, on the transaction that they are given.
unfoldable pub commit_state : TxnState → ErrorCode × TxnState
commit_state TxnState.txn_active = (ErrorCode.ok, TxnState.txn_committed)
commit_state TxnState.txn_committed = (ErrorCode.txn_abort, TxnState.txn_committed)
commit_state TxnState.txn_aborted = (ErrorCode.txn_abort, TxnState.txn_aborted)

unfoldable pub commit : Transaction → ErrorCode × Transaction
commit txn = let r = commit_state txn.state in (r.0, record txn { state = r.1 })

unfoldable pub abort : Transaction → ErrorCode × Transaction
abort txn = (ErrorCode.ok, record txn { state = TxnState.txn_aborted })

second_commit : (s : TxnState) → (commit_state (commit_state s).1).0 ≡ ErrorCode.txn_abort
unfolding commit_state
second_commit TxnState.txn_active = refl
second_commit TxnState.txn_committed = refl
second_commit TxnState.txn_aborted = refl

-- A transaction commits at most once.
pub commit-commit : (txn : Transaction) → (commit (commit txn).1).0 ≡ ErrorCode.txn_abort
unfolding commit
commit-commit txn = second_commit txn.state
