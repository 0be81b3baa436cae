-- ===== src/Lib.antt =====
-- The storage engine under leveldb/, part by part.
--
-- The program keeps sorted tables on levels. A write goes through DBImpl::Write (leveldb/db/db_impl.cc)
-- to the log and the memtable, which stands on a SkipList (leveldb/db/skiplist.h). A full memtable
-- becomes a table file; a VersionEdit (leveldb/db/version_edit.h) collects the files that a change adds
-- and removes, and VersionSet::LogAndApply (leveldb/db/version_set.cc) builds the next Version from it,
-- records it in the MANIFEST and installs it. File names and the switch of CURRENT are in
-- leveldb/db/filename.cc. Every operation answers a Status (leveldb/include/leveldb/status.h).
--
-- Files:
--   Status, Env: leveldb/include/leveldb/status.h; the environment and log::Writer as an interface
--     (leveldb/include/leveldb/env.h, leveldb/db/log_writer.h).
--   Env/Posix, Env/Stubs: leveldb/util/env_posix.cc, Stubs the members that do nothing.
--     Env/RecordTypes: leveldb/db/log_format.h and InitTypeCrc of leveldb/db/log_writer.cc.
--   VersionEdit: leveldb/db/version_edit.h, version_edit.cc, and InternalKey of
--     leveldb/db/dbformat.h.
--   Filename: leveldb/db/filename.cc, with the proofs Numbers, Distinct and Current.
--   VersionSet/Version, VersionSet/State: the state of leveldb/db/version_set.h.
--   VersionSet/Builder: class VersionSet::Builder; its children hold the proofs about one level
--     (Saved, Order), about all levels (Levels) and about Apply (Edits). VersionSet/Merge is std::upper_bound and the merge
--     that SaveTo is compared with.
--   VersionSet/Append, VersionSet/Finalize, VersionSet/LogAndApply: the members of those names, with
--     WriteSnapshot; Ring, Steps, Outcome, NewVersion, Edited, Picked and Rings are proofs. VersionSet/Get is
--     Version::Get, with the proofs Accounts, Answer and Ends.
--   SkipList: Node, the searches, Insert, Contains and the constructor; SkipList/Iterator is the
--     iterator, SkipList/Sequence runs of Insert, and SkipList/Readers a reader beside Insert, with the
--     proofs Behind, Stands, Shape, Rounds, Turns, Stores and Answers. Chain, Search, Insertion, Place,
--     Keys, Valid, Splice, Insert, Last and Less are proofs.
--   DbImpl: the state of class DBImpl; DbImpl/Schedule is MaybeScheduleCompaction, DbImpl/MakeRoom is
--     MakeRoomForWrite, DbImpl/Write is Write, DbImpl/Flush is WriteLevel0Table and CompactMemtable,
--     DbImpl/Background is BackgroundCompaction and BackgroundCall with the steps that the database and
--     the environment take, DbImpl/Get is Get and DbImpl/Put is Put. Their children are proofs:
--     DbImpl/MakeRoom/Numbered, DbImpl/Write/Leader and Synced, DbImpl/Flush/Written and
--     Loss, DbImpl/Background/Jobs and Move, DbImpl/Get/Unlocked and Sources, and DbImpl/Put/ReadBack.
--     DbImpl/Put/Runs and DbImpl/Put/Reads are runs of Put by one client. DbImpl/Write/Queue has the
--     threads in Write, with the proofs Turns, Served and Leads; DbImpl/References has the references
--     of memtables, with the proofs Counts; DbImpl/Open is DB::Open and Recover.
--   MemTable: the count of references of leveldb/db/memtable.h and memtable.cc; MemTable/Counted is
--     proofs. Program: test.cc.
--   TableBuilder, Options: the constructors, the destructor and ChangeOptions of
--     leveldb/table/table_builder.cc, and the options they read. TableBuilder/BuildTable is
--     leveldb/db/builder.cc.
--   Table, Table/Reader: leveldb/table/table.cc, Reader for BlockReader, and the lengths of
--     leveldb/table/format.h. Table/Opening and Table/Blocks are proofs, about Open and BlockReader.
--   TableCache, TableCache/Find, TableCache/Gets: leveldb/db/table_cache.cc, and the proofs about
--     FindTable and Get. Cache: the interface of leveldb/include/leveldb/cache.h, which is empty, with
--     its documented behaviour.
--   Base, Order: shared lemmas, and the laws of comparators. Demo, Tests: concrete inputs.
--
-- State and operations: a C++ object is a record and an operation takes it and returns the new one. A
-- pointer is an address where two parts share what is behind it (nodes, versions, files), and a null
-- pointer is `none`. An operation that can fail an assertion, or use a null pointer, returns an Option
-- whose `none` is that. Numbers are natural numbers; the one cast that can lose bits, in
-- Builder::Apply, is written out. File and sequence numbers have 64 bits in the source and reference
-- counts 32; that they overflow is not modelled.
--
-- Parameters: what the repository declares and does not define, or leaves empty. These are the
-- comparator (a total preorder), the arena and random numbers, doubles (a weak order where Finalize
-- compares them), the environment's files, AddRecord, crc32c, Version::Ref and Unref, the entries of
-- memtables, write batches, what the constructor of DBImpl leaves in the fields that it does not set,
-- BuildBatchGroup and RecordBackgroundError, the work of a compaction and the clean-up after it, the
-- table builder's Add and Finish, caches, blocks, filters, the encodings of numbers, handles and
-- footers, Table::InternalGet, ForEachOverlapping, SaveValue and UpdateStats. The test of a status is
-- a parameter of what uses it: Status::ok as written does not look at the status, and the documented
-- test does; where a theorem needs more than that the status OK is ok, its text says so. Where the mutex is released, the function `others` is what other threads do.
--
-- Fuel: a search in a skip list moves along at most `fresh` nodes and down at most `max_height` levels,
-- so that their sum is enough, which the theorems on the searches show. The digits of a file number
-- are at most 20, since it has 64 bits. MakeRoomForWrite and the wait for the front of the queue take
-- fuel from outside, since how often they wait is up to other threads.
--
-- Not modelled: the memory orders of the skip list's atomic fields, whose memory is taken to be
-- sequentially consistent; a DBImpl whose log, memtable and version set are not set, which is what
-- DB::Open returns as it is written; when a cache runs its deleters; and the headers that only declare.
mod Base
pub mod Status
pub mod Order
pub mod Env
pub mod Filename
pub mod VersionEdit
pub mod VersionSet
pub mod MemTable
pub mod SkipList
pub mod Options
pub mod Cache
pub mod Table
pub mod TableCache
pub mod TableBuilder
pub mod DbImpl
pub mod Program
mod Demo
mod Tests
