-- ===== src/Lib.antt =====
-- btcwallet: the transaction store, the key store and the making of transactions of a Bitcoin wallet.
--
-- The program. btcwallet is a daemon between a btcd node and wallet clients. Package txstore keeps
-- the wallet's transactions: txstore/tx.go holds the mined ones by block and the unconfirmed ones in
-- maps, with what they credit and debit, and txstore/serialization.go writes the store to a file.
-- Package keystore (keystore/keystore.go) keeps the addresses with their encrypted private keys, the
-- deterministic chain that new addresses come from, and the blocks that the wallet has seen last.
-- createtx.go makes transactions: it chooses unspent credits of the store as inputs, finds the fee
-- and signs. disksync.go writes the files of the accounts, and rescan.go asks btcd for rescans.
-- account.go has the account that holds a key store and a transaction store, and the outpoints that
-- the RPC handler LockUnspent of rpcserver.go locks. The account manager and the rest of the RPC
-- server stand around these; they are not modelled.
--
-- The parts.
--   Prelude            Lists, machine integers and maps that the parts share.
--   Errors             Go's errors, those of txstore and of keystore, and the outcome of a call.
--   Bytes, Reader      Words in bytes, and io.Reader: a reader gives a result, the count of bytes that
--                      it reports, and the bytes that it leaves.
--   TxStore/Types      The types of txstore/tx.go. A *txRecord and a *blockTxCollection are shared
--                      between maps and slices, so `Store` has a heap of each, and a reference is an
--                      address in it.
--   TxStore/Monad      The calls that read and write the store: a call returns a value, an error or a
--                      panic, with the store that it leaves. What was written before an error stays.
--   TxStore/Lookup     lookupBlock, lookupBlockTx, lookupBlockDebits, lookupBlockCredit.
--   TxStore/Insert     blockCollectionForInserts and both txRecordForInserts. `insert_before` is the
--                      branch for a key below the last, where append writes into the array that the
--                      detached slice shares.
--   TxStore/Mine       moveMinedTx and InsertTx.
--   TxStore/Spend      AddDebits, findPreviousCredits, markOutputsSpent, setCredit, AddCredit.
--   TxStore/Conflict   removeDoubleSpends, findDoubleSpend, removeConflict.
--   TxStore/Rollback   Rollback and swapDebits.
--   TxStore/Query      confirmed, confirms, Balance, Records, UnspentOutputs,
--                      creditSlice.Less, UnminedDebitTxs and the small methods of TxRecord, Debits and Credit.
--   TxStore/Codec      txstore/serialization.go: keys, transaction records, the collections of
--                      blocks, and the whole store. The contents that are read and written hold
--                      records in place of the pointers to them.
--   Keystore/Version   The file's version: LT, EQ, GT and its bytes.
--   Keystore/Recent    recentBlocks, its iterator, SetSyncedWith, and its bytes in unusedSpace.
--   Keystore/Address   btcAddress and scriptAddress: the sync status and watchingCopy, and in Keys
--                      encrypt, lock, unlock and changeEncryptionKey. The record `Crypto` has what
--                      other packages give.
--   Keystore/Kdf       keyOneIter and Key.
--   Keystore/BigInt    pad, and what ChainedPrivKey uses of math/big.
--   Keystore/Chain     ChainedPrivKey and ChainedPubKey.
--   Keystore/Codec     The serialized flags, checksums, public keys, scripts and addresses.
--   Keystore/Entries   The entries behind them, and varEntries.
--   Keystore/Store     The key store in memory, with a heap of the addresses that its maps share: Lock,
--                      ChangePassphrase, SetSyncStatus, SyncHeight.
--   Keystore/Chained   newBtcAddress, NextChainedAddress, ChangeAddress, extendKeypool and
--                      extendLockedWallet.
--   Keystore/Unlock    Unlock and createMissingPrivateKeys.
--   Keystore/Imports   ImportPrivateKey, ImportScript and ExportWatchingWallet.
--   CreateTx           selectInputs, minimumFee and chainDepth of createtx.go.
--   CreateTx/Pairs     txToPairs and allowFree, over the record `Calls` of what they call.
--   Account            The locked outpoints of account.go, its balances and AddressUsed, and the
--                      handler LockUnspent of rpcserver.go.
--   Rescan             The batches of rescan.go, jobHandler as a function of the events that it
--                      receives, with what it does to its channels, and the body of rpcHandler.
--   DiskSync/Os        What disksync.go and Rename use of the operating system, and laws of it.
--   DiskSync/Rename    Rename of rename_unix.go, rename_windows.go and rename_plan9.go.
--   DiskSync/Files     accountFilename, writeWallet, writeTxStore, freshDir, batchWriteAccounts.
--   DiskSync/Schedule  syncSchedule with flushAccount and flush.
--   DiskSync/Handler   DiskSyncer.handler as a step relation.
--   Tests              The theorems at concrete inputs.
-- The operations of Insert, Mine, Spend, Conflict and Rollback act on one `Store`: InsertTx uses the
-- insertion of records, the removal of double spends and the move from the unconfirmed maps to a
-- block, and AddDebits and AddCredit work on the record that it returns. Those of Keystore/Store,
-- Chained and Unlock act on one `KeyStore`: what extendLockedWallet leaves without a private key,
-- Unlock completes, and both use the chain of keys and the encryption of an address. txToPairs
-- uses the selection, the fees and `confirmed` of TxStore/Query, and the locked outpoints of the
-- account.
--
-- Numbers. An int32 or int64 result wraps around (`wrap32`, `wrap64`), and a conversion to an
-- unsigned word takes the value modulo its range. An int is taken to have 64 bits. A map is an
-- association list, and a loop over a map takes it in that order; Go's order is any. A hash of
-- txstore and of the recent blocks is a number; the bytes of keystore's addresses and keys are lists.
--
-- Fuel. `remove_conflict` calls itself for the spender of each spent credit; its fuel bounds the
-- length of such a chain, and a store without a cycle of spends has no chain longer than the number
-- of its records. Used-up fuel is a panic, as the overflowing stack of Go is. `read_entries` takes a
-- byte at each step, and gives `none` where its fuel runs out. `create_each` takes an index of the
-- chain at each step, and its fuel is one more than the number of indices. `big_bytes` makes at most
-- 32 bytes, as many as a number below the curve's order has. `fee_loop` tries one fee with each
-- unit of fuel, and gives `none` where it runs out; the value of the unspent coins and two is enough.
--
-- Parameters. btcwire's format of a transaction is the record `Wire`; what the reading relies on is
-- `IsCountedWire` and `IsFaithfulWire`. btcutil.TxIndexUnknown, its amounts (`Limits`),
-- btcchain.CoinbaseMaturity and the time are arguments. The cipher, the digests and the curve are the
-- record `Crypto`, and SHA-512, the signatures and the random vectors are arguments; what is relied on is
-- `IsInverted` (decryption undoes encryption), `IsDigest` (a digest has bytes) and `IsGroup` (to
-- multiply a public key by a number is to multiply its private key, and the order has at most 256
-- bits). For txToPairs the record `Calls` has the key store, the scripts, the size of a transaction,
-- the random place of the change and package sort, which loses nothing (`IsSorting`). The record `Os`
-- has the operating system and its platform, with `IsLawful` for what its calls do to the bytes of
-- files, and `IsDirectory` for a directory that tells names apart; the theorems on files leave Plan 9
-- out, whose Rename removes a file first. An RPC client and its errors are arguments.
--
-- Not modelled. The maps that ReadFrom of txstore makes of what it has read, but for the index maps
-- of blocks; the errors of WriteTo, and the store that a failed ReadFrom leaves;
-- SortedUnspentOutputs and txstore/json.go; of the key store NewStore, ReadFrom and WriteTo of the
-- whole file, the networks, the serialized parameters of the key derivation, the active addresses,
-- and the comments of addresses and transactions in memory; log lines; the channels by which other
-- goroutines reach the handlers of disksync.go and rescan.go; of account.go the lists of
-- transactions, the notifications, and the calls of the key store with what they schedule; acctmgr.go,
-- the rest of the RPC files, and the start-up of the process.
pub mod Prelude
pub mod Errors
pub mod Bytes
pub mod Reader
pub mod Keystore
pub mod TxStore
pub mod CreateTx
pub mod Account
pub mod Rescan
pub mod DiskSync
pub mod Tests
