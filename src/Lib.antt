-- ===== src/Lib.antt =====
-- A model of the EVM contract for Antelope chains: the contract's tables, the actions that keep
-- accounts, balances, prices and settings in them, and the object through which the EVM's interpreter
-- reads and writes its state. Paths are from the root of the repository.
--
-- Parts, and the files that model them:
--
--   * Promoter (include/evm_runtime/value_promoter.hpp): a value with a pending change that is in force
--     from the EVM block after the change. A value_promoter_T is the record Promoter T.
--   * Balance (include/evm_runtime/tables.hpp, balance_with_dust; src/utils.cpp, pow10_const): token
--     balances with the part of an EVM amount that the token's precision cannot show. add_amount and
--     sub_amount are += and -=.
--   * PriceQueue (src/config_wrapper.cpp, enqueue and process_queue): scheduled changes, keyed by the
--     block in which they take effect. The templates' types and update function are parameters.
--   * Config (src/config_wrapper.cpp, include/evm_runtime/config_wrapper.hpp, tables.hpp): the wrapper
--     of the configuration row, with the two queue tables that its methods open. Config.Prices has the
--     price queues, Config.Version and Config.Fees the setters with rules, Config.Consensus and
--     Config.RamPrice the gas parameters, Config.Row the constructor and flush.
--   * Bytes (src/utils.cpp): byte strings, index keys and fixed sizes.
--   * State (src/state.cpp, include/evm_runtime/state.hpp, tables.hpp): accounts, codes, storage scopes
--     and the garbage of removed accounts; State.Read, State.Update, State.Gc and State.Chain have its
--     methods. State.World is what the tables stand for, with no ids, scopes or counts: accounts by
--     address, storage by address and location, and what each method means for that. World.Invariant
--     states what the tables keep, World.Accounts, World.Coding, World.Storage and World.Collection take
--     the methods one by one, World.Refinement a sequence of them, and World.Reads the reads.
--   * Contract (src/actions.cpp, src/admin_actions.cpp): the actions, over a record of all tables.
--     Contract.Accounts has open, close, withdraw, assertnonce and the egress list, Contract.Settings
--     the settings, Contract.Init the first action, Contract.Ingress the notification of transfers
--     into the contract, Contract.Bridge the receivers, Contract.Messages the bridge messages,
--     Contract.Repair the repair actions, Contract.Swap the change of the gas token.
--     Contract.Execute has execute_tx and Contract.Egress its payouts, both over Contract.Rows, the
--     changes of one balance; Contract.Process has process_tx, pushtx and dispatch_tx, Contract.Calls
--     what dispatches (call, callotherpay, admincall, transfer), exec and gc. Contract.Books
--     states what the contract answers for, in EVM units, Contract.Vault what deposits, withdrawals,
--     opening and closing do to it, and Contract.Solvency is the relation of all actions that move
--     money, but for the repair actions and the change of the token.
--     Contract.Interface (include/evm_runtime/evm_contract.hpp) has all actions as one type, and an
--     action between the reading of the configuration row and its writing. Contract.Fixed follows
--     the chain's part of that row and the nonces of accounts through the actions; Contract.Nonces has
--     what opening, closing and taking a nonce do to these, and Interface.Nonces all actions.
--   * Message (include/evm_runtime/bridge.hpp): the messages that contracts of the EVM send to others
--     through the bridge, decoded from their call data; Message.Layout is that data as the ABI lays it out.
--   * Transaction (include/evm_runtime/transaction.hpp, runtime_config.hpp): transactions, and what runs
--     them.
--   * Table: eosio::multi_index as a list of rows in the order of their keys; Table.Order and
--     Table.Bounds are about keys, Table.Index about secondary indices. Prelude: numbers, tests and the
--     result of a call that may abort.
--
-- An action takes the wrapper, the tables and what the chain tells it, and returns the new state or the
-- message of the eosio::check that fails; an abort undoes the transaction, so it carries no state. The
-- actions use the wrapper through Config's methods, and the repair actions share the removal of
-- accounts with State.
--
-- Numbers are natural numbers. Where the source's arithmetic wraps, the wrap is written out: the dust
-- and the nonces modulo 2^64, the amount of an asset as a signed 64-bit number, reference counts and
-- activation blocks modulo 2^32, and the products of gas and fees modulo 2^256, at which they wrap before
-- they are widened and tested (Contract.Execute.Width). Loops are structural, over the rows of a table or
-- down to zero, so no model runs on fuel.
--
-- What the code takes from elsewhere is a parameter: the clock and eosevm::block_mapping (Platform),
-- intx's big-endian form of numbers (Intx), += and -= of eosio::asset (AssetOps), the authority, sender
-- and accounts of the running action (Host), the names and addresses that text stands for (Names,
-- Parsing), the datastream (Stream), silkworm's known chains, its empty hash and its tests on accounts
-- and words (Evm), and what it does with transactions and blocks (Silkworm): pre-validation, validation,
-- execution, what its processor keeps of reserved addresses and messages, and the tables that it writes;
-- and the arithmetic on doubles (Double), of which only the error of a rounded quotient is bounded.
-- Nothing is assumed of what the EVM computes; the invariants on money ask that the reserved objects are a
-- map, as they are, and that they and the messages have values below 2^256 in all.
--
-- Inline actions are values: token transfers are listed in the state, the others (configchange, evmtx,
-- onbridgemsg, pushtx) are a list of events that process_tx returns, behind the transfers.
--
-- Not modelled: the digits that the messages of check_result and of a failed inline transaction append;
-- the callback of exec, which gets its output as it is; test actions, tracing, and the counters of table
-- accesses.

pub mod Prelude
pub mod Table
pub mod Promoter
pub mod Balance
pub mod PriceQueue
pub mod Config
pub mod Bytes
pub mod State
pub mod Message
pub mod Transaction
pub mod Contract
pub mod Tests
