-- ===== src/Lib.antt =====
-- Birdwatcher, a debugging tool for Milvus: its log reader, and its reader of stored segments.
--
-- The program has three cores that keep state of their own. The first reads a write-ahead log and
-- hands its messages to a consumer in time tick order (wal/). The second reads the files of a
-- segment: binary log files of events (storage/binlog/v1), batches of files, one file for each field
-- (storage/common), and a scan that filters the entries and counts, finds or deduplicates them
-- (storage/, storage/tasks). The third is the store of metadata, etcd or TiKV, with its backup and
-- restore (states/kv, states/etcd_restore.go). The rest of the repository prints what remote services
-- answer.
--
-- How the log reader works. The consume loop (wal/adaptor/scanner_adaptor.go, Wal/Scanner.antt)
-- offers one message to the consumer while it receives others. A message that it receives goes into
-- the reorder buffer (wal/utility/reorder_buffer.go, Wal/ReorderBuffer.antt), a heap by time tick
-- with the set of its message ids. A time tick message takes out what is confirmed and passes it
-- through the transaction buffer (wal/utility/txn_buffer.go, Wal/TxnBuffer.antt), which collects the
-- messages of a transaction under its id until its commit, and clears the expired ones. What comes
-- out waits in the pending queue (wal/utility/pending_queue.go, Wal/PendingQueue.antt) for the
-- consumer. Wal/Message.antt has the messages, Wal/Typeutil.antt the interfaces of the heap, the set
-- and the queue of milvus/pkg with the laws that the code relies on, and Wal/Reference.antt a list
-- implementation of each, on which the tests run.
--
-- How the segment reader works. Binlog/Bytes.antt models encoding/binary on a reader whose state is
-- the bytes that are left. Binlog/Header.antt is event_header.go, Binlog/EventData.antt and
-- Binlog/Descriptor.antt are event_data.go, and Binlog/Reader.antt is the opening of a file and the
-- payload of an event (binlog_reader.go, event_reader.go, index_reader.go and
-- storage/deltalog_reader.go). Storage/PrimaryKey.antt and Storage/Ids.antt are
-- storage/common/primary_key.go, Storage/PrimaryKeys.antt is primary_keys.go, and
-- Storage/DeltaData.antt is storage/delta_data.go. Storage/Batches.antt is binlog_selector.go and
-- batch_iterator.go. Storage/Tasks.antt is storage/tasks, and of storage/segment_iterator.go and
-- entry_filter.go the filtering of entries.
--
-- How the store works. Kv/Client.antt is the client of etcd as an interface: the calls that
-- states/kv/kv.go makes, and the laws that their documentation states, on the pairs in the order of
-- their keys; Kv/Memory.antt fills it. Kv/Paths.antt is states/kv/utils.go with path.Join,
-- Kv/Etcd.antt is etcdKV but for its backup, which is Kv/Backup.antt, and Kv/Tikv.antt is txnTiKV over
-- an interface of its own. Kv/Audit.antt is states/kv/kv_audit.go, over an interface that etcdKV
-- fills. Kv/Restore.antt reads backups (states/etcd_restore.go, and readBackupBytes of
-- states/etcd_backup.go). The goroutines of a restore are a reader, and workers that save its batches in
-- an order that is an argument.
--
-- Mq.antt has the insert messages of mq/msg.go and mq/utils.go, and Mq/Delete.antt the delete messages:
-- decoding, the check that their parts are aligned, and the message of a single row.
--
-- Of the command line, Autocomplete.antt is the parsing of an input and the search for suggestions
-- (states/autocomplete), Framework/Use.antt is ParseUseSegments (framework/command.go), and
-- Framework/Output.antt the choice of an output format (framework/command.go, resultset.go, state.go
-- and configs/format.go).
--
-- How Go is modelled. A call that returns an error is a Result of ok, fail and panic; a call that
-- gives a value or panics is an Option. A method on a pointer takes the state and returns the new
-- one. An int64, a uint64 or an int is a bit pattern below 2 ^ 64 with its wrap-around (Base/Word),
-- an int32 one below 2 ^ 32; the values of integer keys are ℤ. A Go string that the code takes apart
-- is its list of bytes, and a map is an association list (Base/Dict) or a function. The order in
-- which `range` visits a map is not fixed: the clearing loop takes any.
--
-- Fuel. PopUtilTimeTick runs on the length of the heap, since each round takes a message out, and
-- DeltaData.Range on the count that the source's loop runs to. The loops of pages
-- over etcd and TiKV have no bound in the code and take fuel; each page moves behind a pair, so that
-- more fuel than there are pairs is enough. A restore takes one more than there are messages. All other
-- loops are over lists. The
-- consume loop has no end of its own, and is a step relation (Run), in which receiving and sending
-- interleave freely.
--
-- Not modelled, and why: goroutines, closing and backoff of the scanner (input and output); Parquet
-- and Arrow, which decode the payloads; JSON, a parameter where the code calls it; the errors of a
-- writer; revisions of etcd, and other clients that write during a loop of pages; nil pointers as keys; the commands, clients and generated code of the rest of the
-- repository.
pub mod Base
pub mod Framework
pub mod Autocomplete
pub mod Binlog
pub mod Wal
pub mod Storage
pub mod Kv
pub mod Mq
