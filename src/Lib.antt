-- ===== src/Lib.antt =====
-- Verification library of kaspa-portal: the transaction core of the wallet.
--
-- The program builds Kaspa transactions from a wallet's UTXOs, prices them, and hands them between an
-- online and an offline device as compact KSPT envelopes; an in-memory index keeps the transactions it sees.
-- Three of its parts are modelled here, and the reader of scripts.
--
-- Kspt: the wire codec, src/transaction/interchange/kspt/wire.
--   Kspt.Model      model.rs, error.rs and ../format.rs: values, limits, errors, validity tests
--   Kspt.Reader     `Reader` of io.rs: a function from the data that is left to a result
--   Kspt.Writer     `Writer` of io.rs: what is written so far, and the length of the buffer
--   Kspt.Encode     encode.rs, with the methods of `EncodeSource` as a record
--   Kspt.Fields     the readers of decode.rs and its children that call no sink
--   Kspt.Decode     decode.rs, decode/inputs.rs and decode/trailers.rs, with the methods of `DecodeSink` as a
--                   record over a state that they may change and refuse to change
--   Kspt.Grammar    the bytes of an envelope without buffer, cursor or error: the specification that the
--                   encoder is compared with and the decoder reads
-- The child modules hold the proofs: Writer.Emits, Reader.Parses, Reader.Yields, Sink.Delivers and Sink.Runs
-- have one rule for each way to build a writer, a reader or a decoder, and the other files compose them.
-- Sink.Log is a sink that takes every call and keeps a log of them.
--
-- Planning: the arithmetic of a plan, src/transaction/mass.rs and src/transaction/builder.
--   Planning.Amounts    planning/amounts.rs: dust, checked sums, KIP-9 storage mass
--   Planning.Mass       mass.rs: the fee estimates of a planned transaction and of a covenant
--   Planning.Withdraw   mass.rs: `ThreadWithdrawFee`, its price and the largest withdrawal
--   Planning.Selection  selection/mod.rs, selection/automatic.rs and selection/consolidation.rs
--   Planning.Change     planning/change.rs, planning/multisig.rs and the plans of model
-- Planning feeds the codec: a plan is encoded by an `EncodeSource` that is not modelled.
--
-- Indexer: the index of transactions, blocks and matches, src/indexer.
--   Indexer.Config      config.rs, and one constructor for each error message
--   Indexer.Event       the records of event.rs, metrics.rs, scanner/mod.rs and sync/mod.rs
--   Indexer.Matcher     matcher/mod.rs and the scan of scanner/mod.rs
--   Indexer.Dedupe      storage/dedupe.rs
--   Indexer.Store       storage/memory.rs
--   Indexer.Engine      engine.rs: one record taken in; Engine.Persist what is saved and restored, Engine.Sync
--                       batches and changes of the virtual chain
--   Indexer.Query       query/mod.rs
--   Indexer.Facade      facade.rs, over one engine
-- A method that changes the engine and may fail is an `Action` (Indexer.Action): it returns its result and the
-- state that it leaves, also where it fails. A run of an engine is a sequence of the steps of Engine.Reach, one
-- for each method. A hash map is a list of keys and values, a queue a list; the values of a map are iterated in
-- the order of that list, which the source leaves open. A string is the list of its Unicode scalar values.
--
-- Script: the elements of scripts, src/primitives/script.rs and push.rs, walk.rs, number.rs and locktime.rs of
-- src/contract/script. Script.ReadBack and Script.Walk hold the proofs.
--
-- Numbers are native natural numbers; a u64 operation that can overflow is one of Base.Checked and has the
-- source's error. Types of the source with a fixed width are conditions of the theorems (Grammar.Typed).
-- usize is taken as 64 bits wide. Messages of errors are constructors.
--
-- Fuel: only the loop over the trailers takes it, as many rounds as there are bytes: each round consumes its
-- marker. The search for the largest withdrawal runs over the 64 bits. The walks over a script are bounded by its
-- length in the source.
--
-- Not modelled: I/O, the network and the node, key derivation and hashing by third-party crates, JSON values
-- (a type parameter where they are passed on), the semantic layer above the codec, `encode_vec`, the analysis
-- of a consensus transaction, covenant scripts and addresses; of the indexer, the lock of the API, its clock (an
-- argument), the asynchronous calls of a persistence adapter, and its methods that only forward to the engine.
pub mod Base
pub mod Kspt
pub mod Planning
pub mod Indexer
pub mod Script
