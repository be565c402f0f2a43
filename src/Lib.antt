-- ===== src/Lib.antt =====
-- FIX protocol engine: messages, the stream parser, the message builder, the memory store, the file
-- store, the data dictionary, the audit log, the error buffers, the session and the registry of the
-- sessions.
--
-- Bytes that a transport receives go to a session, which feeds its stream parser and processes the
-- messages that come out; what it sends it serializes with its message builder under a number that
-- its store hands out, keeps in the store and gives to the transport.
--
-- - Prelude: tests on numbers, lists, 64-bit integers, text as bytes; Prelude.Decimal is
--   `std::from_chars` and `std::to_chars` on decimals.
-- - Core: include/fix/core. Types has the error codes, results, versions and session identifiers of
--   types.hpp; Tags, MsgTypes and RejectReason the values of constants.hpp; Message the ordered list
--   of fields of message.hpp and field.hpp, with `set`, `add`, `get`, `get_all` and `remove`.
-- - Parser: src/parser/parser.cpp. Field has `parse_field`, the checksum and the header tags; Frame
--   what `try_parse_one` decides about the bytes in front (a verdict: wait, skip, accept); Stream the
--   state of `StreamParser` and its operations, `feed` and `next` among them.
-- - Serializer: src/parser/serializer.cpp and include/fix/parser/serializer.hpp. A call of
--   `MessageBuilder` changes the builder and has a result; the early returns are the binds.
-- - Store: include/fix/store. The interface is a record of operations with a contract; Store.Memory
--   is `MemoryStore`, whose maps are lists of entries with ascending keys (Store.SortedMap).
-- - Store.File: src/store/file_store.cpp and include/fix/store/file_store.hpp. Name is the encoding of
--   a session's identifier as file names; Disk the files of the store directory with `write_all`;
--   Sequences `load_seqs` and `persist_seqs`; Log the text of the logs, the loop of `rebuild_index` and
--   what `get_messages` reads; State the fields of `FileStore` and the operations on the numbers;
--   Frames the operations on the logs; Lifecycle the constructor with the migration of old files,
--   `reset`, `refresh` and `close`; Lawful the store as a `MessageStore`. The proofs compare the store
--   with the memory store: Mirror says that the log and the index stand for a map of frames, Torn and
--   Recovery follow a write that was cut short into the next start, and Durable compares the sequence
--   file with the numbers in memory.
-- - Dictionary: src/dictionary/data_dictionary.cpp and include/fix/dictionary/data_dictionary.hpp.
--   Definitions has the types and definitions of fields and messages; Tables the tables, lookup,
--   registration, `validate` and the registry; Builtin the built-in dictionaries. A pointer into a
--   table is the key of what it points to, and a set of values is a list of them.
-- - Audit: src/log/message_log.cpp and include/fix/log/message_log.hpp. File has the lines, rotation and
--   retention; Writer the queue and the writer thread. An `Action` is what a thread does in one lock
--   scope, and a run is any list of them. Trace and Kept follow the entries through the queue and the
--   files, Flush and Drains say what a flush waits for and that it ends, Rotation what is opened and
--   removed. What the system answers is a parameter of each action (`Outside`).
-- - Errors: the buffers of src/session/session.cpp and include/fix/engine.hpp for errors that are
--   reported under the send lock; Drained says what a drain delivers.
-- - Session: src/session/session.cpp and include/fix/session/session.hpp. Session has the state and
--   what the operations share; Sending the send path with its rollback; Sequence the numbers of
--   inbound messages; Admin the handlers; Resend the replay, whose frames Spec
--   describes; Inbound `process_message` and the
--   public operations; Timer `on_timer` and a new connection. The store is any record of store
--   operations; the clock, the timestamp, the dictionary and what the application's callbacks throw
--   are parameters (`Env`). Everything done to the outside is an `Effect`, in order.
-- - Session.Conforming: a session that validates against a data dictionary.
-- - Session.Manager: src/session/session_manager.cpp, the registry of the sessions by their keys, which
--   are compared in Keys and looked up in Registry.
-- - Tests: the theorems at concrete inputs, and a few runs.
--
-- A byte is a number; `std::size_t` and `SeqNum` are numbers below 2^64 whose wrap-around is written
-- out. The vector of the parser is its written part. `std::abort` is an outcome of its own.
--
-- Loops that are not structural run on fuel. `drain` has a round more than there are bytes, since a
-- round that does not end it takes one at least; `feed` has two rounds for each byte and two more,
-- since a round appends a byte or makes room for one; the body of a frame has a round for each byte.
--
-- `write_all` has a round more than there are bytes, since a round that goes on takes one.
--
-- The system calls of the file store are a parameter (`Os`): whether the n-th call fails, and how many
-- bytes it takes if it is a write. A call that fails changes no file, and a process that is killed is
-- one all of whose later calls fail. An interrupted write is made again until it is answered. What is
-- written and not yet synced is not lost, so a power cut is not modelled. A start on a later day is
-- another `Os` on the files that were left.
--
-- The loops over the unordered maps of a dictionary go in an order that is a parameter (`Orders`).
--
-- An operation of a session runs alone and reads the clock once: the locks, the I/O thread and the
-- timer thread are not modelled. There an error reaches the sink at once; the buffer in between is in
-- Errors. An unset callback is one that does nothing. The transport's send and the heartbeat
-- timeout callback are taken not to throw. The counter behind TestReqID is each session's own.
--
-- Not modelled: values of type double, the wall clock and its text, the loop of `on_data`, the engine
-- and the TCP transport, whose code is threads, sockets and locks; the specification files that
-- `DataDictionary::load` is to read one day.
pub mod Prelude
pub mod Core
pub mod Parser
pub mod Serializer
pub mod Store
pub mod Dictionary
pub mod Audit
pub mod Errors
pub mod Session
pub mod Tests
