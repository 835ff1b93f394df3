-- ===== src/Lib.antt =====
-- BitLSM: a verification library for the index and the query layer of the engine.
--
-- BitLSM keeps rows of typed attributes in RocksDB and gives each table file (SST) a secondary attribute bitmap
-- index (SABI). A row's attributes are packed into its value; a builder bins the values of each attribute and
-- keeps a bitmap of rows for each bin; a query, a conjunction of disjunctions of conditions, is checked against the
-- schema, encoded into intervals and byte strings in memcmp order, used to skip tables and to select bins, and
-- evaluated on the rows that remain.
--
-- Base: helpers shared by all (lists, tests and integers over the native numbers). Bytes: byte strings in memcmp
-- order. The parts, under src/include of the repository:
-- - Memory, Scalar: memcpy of scalars, byte swap, two's complement and IEEE-754 bit patterns, as
--   bit_lsm_utils.h and bit_lsm_encoding.h use them.
-- - Schema, Status: bit_lsm_option.h. A status is its code.
-- - Row: bit_lsm_utils.h, the row value format (ValueLayout, EncodeValue, DecodeAttr, DecodePayload).
-- - Okey: bit_lsm_encoding.h, the order-preserving keys.
-- - Query: the query types of bit_lsm_query.h, with CheckCondition and Validate of bit_lsm_query.cpp.
-- - Compiled: CompiledQuery of bit_lsm_query.h and bit_lsm_query.cpp.
-- - Interval: ByteInterval of bit_lsm_query.h.
-- - SabiQuery: SABISchema and ValueLayoutExtractor of bit_lsm_encoding.h, EncodeQuery of bit_lsm_query.cpp.
-- - BytesList: bytes_list.h.
-- - Reader: bin selection and pruning of sabi_reader.cpp.
-- - Factory: the checks of sabi_factory.cpp on opening an index.
-- - SpanPlan: which bins SABISpanPrefetch of sabi_reader.cpp reads ahead.
-- - BinCache: loading a span of bins, LoadRun and BinRange of sabi_reader.cpp. The probe of the block cache, the read
--   of the file and the frozen view of a bin are parameters.
-- - TableScan: the query bitmap of sabi_table_iterator.cpp. CRoaring's bitmaps are a parameter, operations with their
--   documented laws, and so is the reading of a bin.
-- - PrefetchQueue: the blocks read ahead, block_prefetch_queue.h and block_prefetch_queue.cpp. RocksDB's cache and its
--   asynchronous reads are a parameter.
-- - Scan: SABIInternalIterator of bit_lsm_iterator.h as an interface, and its implementations: Scan.Level for
--   bit_lsm_level_iterator.cpp, Scan.MemTable for bit_lsm_memtable_iterator.cpp, Scan.Merging for
--   bit_lsm_merging_iterator.cpp. An iterator stands for a stream, rows and a final status. RocksDB's memtable
--   iterator, its table cache and its order of keys are parameters. The fuel of the memtable's loop is above the
--   number of its entries.
-- - Batch: BitLSMIterator of bit_lsm_iterator.cpp, the scan a caller sees, over any merge: Batch for a batch of
--   candidates, Batch.Fetch for the loop, Batch.Construct and Batch.Judgement for the
--   constructor. RocksDB's MultiGet, the parse of its keys and the check for newer versions are parameters. The fuel of both loops is above the number of rows of the merge.
-- - ShadowCheck: bit_lsm_shadow_check.cpp, whether a newer version of a key may exist. What RocksDB guarantees of its
--   files and reads is a record of laws.
-- - Database: the column families of bit_lsm.cpp and bit_lsm_column_family.h; Database.Writes for Put and
--   PutBatch, Database.NewIterator for NewIterator.
--   RocksDB's operations are parameters with a state of their own.
-- - Axis: ByteAxis of bit_lsm_estimator.h and bit_lsm_estimator.cpp, the coordinates of byte strings. The fuel of the
--   loop over digits is one more than the bits of a coordinate.
-- - Examples: runs of the definitions, and each theorem at a concrete input.
--
-- Numbers: a byte is a number below 256; 32-bit offsets are kept modulo 2^32 where the source computes in 32 bits;
-- int32_t and int64_t are integers, uint64_t a natural number, a double its bit pattern. A read past the end of a
-- value gives the bytes there are. The variant accesses that throw in the source give none, and so do a payload that
-- starts past the end and a batch with fewer rows than keys. The binary searches run on fuel: one round more than the
-- size of the list, since the interval shrinks in each.
--
-- Not modelled: RocksDB and CRoaring, which are third party; the builder, the block reads of the table iterator, the
-- reader's parse of its directory, its histograms and its asynchronous reads, and the estimates; the options that are
-- handed to RocksDB; printing and benchmark helpers.
pub mod Base
pub mod Bytes
pub mod Memory
pub mod Scalar
pub mod Okey
pub mod Status
pub mod Schema
pub mod Row
pub mod Query
pub mod Interval
pub mod SabiQuery
pub mod BytesList
pub mod Reader
pub mod Compiled
pub mod TableScan
pub mod Factory
pub mod SpanPlan
pub mod BinCache
pub mod PrefetchQueue
pub mod Scan
pub mod Batch
pub mod ShadowCheck
pub mod Database
pub mod Axis
mod Examples
