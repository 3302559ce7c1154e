-- ===== src/Lib.antt =====
-- Akumuli, a time-series database: a model of its code, and theorems about the model.
--
-- The storage engine keeps each series in blocks of four kilobytes. A point is a timestamp, a word of
-- 64 bits, and a value, a double, which the model has as the 64 bits that the code's unions make of it.
-- A block is filled by a DataBlockWriter: points are buffered by sixteens; sixteen of them are a chunk,
-- whose timestamps are written by a DeltaDeltaStreamWriter and whose values are written by a
-- FcmStreamWriter, both to the same VByteStreamWriter over the block's memory. When there might be no
-- room for another chunk, points are written without compression until the block is full. A
-- DataBlockReader goes the same way back, through the readers of both codecs.
--
-- Blocks go to a block store, which gives each one an address: the generation of a volume and the place
-- in it. A FileStorage writes to its current volume until that is full and moves to the next; one of a
-- fixed size goes around its volumes and recycles the next one, whose generation grows by the number of
-- volumes, so that old addresses are not found any more. The generations and the numbers of blocks are
-- in a MetaVolume. On the way a block is an IOVecBlock, four buffers of one kilobyte that are allocated
-- as it grows; a block that was read is one buffer of four.
--
-- Clients write points in a protocol whose elements a RESPStream reads from a stream of bytes. The
-- stream of a connection is a ReadBuffer, which hands a piece of itself to the network (pull), gets it
-- back with new bytes (push), and goes back to the start of a message that is not complete (discard).
--
-- Files, and the code that they model:
--   Status                     include/akumuli_def.h: aku_Status
--   Compression/Base128        libakumuli/storage_engine/compression.h: Base128Int
--   Compression/VByte          the same file: VByteStreamWriter (Writer), VByteStreamReader (Reader); the
--                              bytes of a chunk (Bytes), what a write does (Writes, Emits), and reading
--                              it back (RoundTrip)
--   Compression/DeltaDelta     the same file: DeltaDeltaStreamWriter, DeltaDeltaStreamReader
--   Compression/Predictor      libakumuli/storage_engine/compression.cpp: the three predictors
--   Compression/Fcm            compression.h: FcmStreamWriter (Writer), FcmStreamReader (Reader)
--   Compression/Chunks         the codecs' writers against their readers
--   Compression/DataBlock      compression.cpp: DataBlockWriter (Writer), DataBlockReader (Reader); the
--                              state between two calls (Invariant), its content (Content), the steps of
--                              `put` (Chunk, Tail, Put), `commit` (Commit), reading (Reads, RoundTrip)
--   Storage/IoVecBlock         libakumuli/storage_engine/volume.cpp, volume.h: IOVecBlock, with
--                              read_chunk and append_chunk (Chunks); its bytes as one list (View), and
--                              the operations on that list (Bytes, Gets, Appends, Reads, Pods)
--   Storage/MetaVolume         volume.cpp: MetaVolume
--   Storage/Volume             volume.cpp: Volume; what is written for a block (Bytes),
--                              and what the blocks of a volume are (Blocks)
--   Storage/FileStorage        libakumuli/storage_engine/blockstore.cpp, blockstore.h: FileStorage and its
--                              two kinds; the constructor (Open), flush and statistics (Stats), the two
--                              halves of an address (Addresses), the invariant of a fixed-size store
--                              (Invariant), what it has at an address (Lookup), a write with room
--                              (Fixed), the next volume (Transition), and append_block (Append)
--   Storage/MemStore           blockstore.cpp: MemStore; the list that it stands for (Blocks)
--   Storage/Checksum           blockstore.cpp: the checksum of a block, over its components (Slices)
--   Storage/BlockCache         blockstore.cpp: BlockCache; its cells (Cells), what an insertion may change (Changes),
--                              and insertions (Inserts)
--   Storage/Examples           a disk for concrete runs, and the theorems at concrete inputs (Runs,
--                              MemRuns)
--   Protocol/ByteStream        akumulid/stream.h: ByteStreamReader, and what a stream promises (IsStream)
--   Protocol/Window            parts of a buffer as lists
--   Protocol/MemStream         akumulid/stream.cpp: MemStreamReader; that it is a stream (Bytes)
--   Protocol/ReadBuffer        akumulid/protocolparser.cpp: ReadBuffer; that it is a stream (Bytes), and
--                              the room for new bytes (Space)
--   Protocol/Resp              akumulid/resp.cpp: RESPStream; integers (Ints), strings (Strings), and an
--                              integer in two pieces (Pieces)
--   Protocol/Examples          the theorems on the protocol at concrete inputs
--   Base                       shared names, bit operations, machine words, lists, and the results of
--                              code that can throw or run into undefined behaviour (Outcome)
--
-- A C++ object is a record with the same fields, and a method is a function from the record to the
-- record and the answer, with the method's name. The stream that the codecs share by reference is an
-- argument and a result of their methods. A memory region with a position is the bytes written so far
-- and the region's size (writers), or the bytes ahead (readers). The cells `*nchunks_` and `*ntail_` of
-- a block's header are read and written in these bytes. Integers are natural numbers with the wrap at
-- their width written out; hosts are little-endian, as the code assumes. The `int`s that count points
-- of one block (`write_index_`, `put_calls_`, `counter_`) have no wrap: a block holds fewer than 2 ^ 16
-- points wherever a theorem needs it; `buffers_allocated_` is an integer (Base/Ints). AKU_PANIC is the outcome `panic`; a shift by the width of the
-- type or more is `undefined`. `assert` is compiled out, as in a release build;
-- the theorem on an integer in two pieces makes its calls in the order that the asserts want. An access of
-- a predictor's table has no bounds in the model, and the theorems on predictors show that it needs none.
-- The random numbers of a BlockCache are arguments, and the bounds of its distribution are its fields.
-- All loops are structural recursion: over the bytes of the region, the input, or the count of the loop.
--
-- Files are a parameter of the volumes (Files), and the theorems suppose a disk without errors
-- (IsReliable): a write within a file succeeds, can be read back, and changes nothing else. The CRC of a
-- checksum is a parameter that can be continued (Continues). The registry of the volumes is a log of the
-- calls that it gets.
--
-- Not modelled: the codecs' variants over an IOVecBlock, the tree of blocks, the input log, the column
-- store, the index of series, queries, the parsers of whole messages and the servers; SQLite, Boost,
-- LZ4 and Roaring are other projects.
pub mod Base
pub mod Status
pub mod Compression
pub mod Storage
pub mod Protocol
