-- ===== src/Lib.antt =====
-- Tarsnap: the core of the backup client.
--
-- Tarsnap cuts archives into chunks and stores each distinct chunk once. The chunk layer
-- (tar/chunks) keeps a hash table (lib/datastruct) of the chunks that exist, with the number of
-- archives that use each (nrefs) and of its uses (ncopies). A write transaction stores new chunks and
-- counts uses of old ones; a delete transaction counts them down, and has the storage layer remove a
-- chunk that no archive uses any more. Both keep statistics of all archives.
--
-- Base            shared names, lists, Boolean tests, equality as an instance, the laws of & and
--                 |, and the byte order functions that the formats rely on, as a record (Endian).
-- Datastruct      lib/datastruct. KeyedTable is what the chunk layer relies on of rwhashtab.h, as
--                 a record of operations and laws; Rwhashtab is rwhashtab.c (rwhashtab_search is
--                 search_pos, its loop probe; the other functions keep their names without the
--                 prefix), and Rwhashtab/Implements fills the record from it. Patricia is
--                 patricia.c: the loop of patricia_insert is insert, a round of it grow, fit and
--                 descend. Patricia/Compare is about compare, Lookup about patricia_lookup, Split
--                 and Reshape about splitting a node, Law, Attach, Descend, Divide, Round, Leaf
--                 and Insert about the rounds of an insertion, Refines about the whole, and Walk,
--                 Entries, Order and Foreach about the traversal.
-- Chunks          tar/chunks. Data is chunks_internal.h with the arithmetic of
--                 chunks_stats_internal.c, Write is chunks_write.c (with padme in Padme, its
--                 loops in Padme/Bits and how far it pads in Padme/Exact), Delete is
--                 chunks_delete.c and Read is chunks_read.c (Read/Written is about reading what
--                 was written, Read/Checked about what is returned). Flags, Stats and Refs are
--                 about the flag bits of zlen_flags, the statistics and the counts of one chunk.
--                 Directory is chunks_directory.c, with what is accepted in Directory/Load and
--                 what is read back in Directory/Roundtrip; Commit is its
--                 chunks_directory_commit and chunks_directory_exists, with chunks_transaction.c
--                 (the file of a name is its inode, and a crash leaves each name as it was at
--                 some time since the last sync): failures are in Commit/Moved, crashes in
--                 Commit/Safe and Commit/Recovery. Session has the functions that start and end
--                 transactions. Write/Account and Delete/Account are about the statistics,
--                 Write/Counts and Delete/Counts about what an operation does to each chunk,
--                 Lifetime follows whole transactions, and Session/Archive follows them through
--                 the file in between.
-- Multitape       tar/multitape. Wire has the byte formats and the decoders' cursor, Metadata is
--                 multitape_metadata.c and Metaindex is multitape_metaindex.c (an index is stored
--                 in fragments through the write transaction of Chunks/Write); Files has the
--                 functions of both that store, read and delete whole files of metadata, and that
--                 delete an index. The Roundtrip modules are about reading again what is stored,
--                 and Metadata/Signed about what is accepted. Chunkify is chunkify.c: a chunkifier
--                 whose parameters are given cuts a stream (the names follow the source;
--                 find_cycle is the middle of chunkify_write's loop, with its loops over the hash
--                 table as look and insert_queued). Chunkify/Table is about these loops,
--                 Chunkify/Root about the counters r and rs, Chunkify/Sizes about the sizes,
--                 Chunkify/Montgomery about the arithmetic modulo p, Chunkify/Primes about the
--                 test for primes, and Chunkify/Written and Chunkify/Conserved about the bytes.
--
-- Conventions. A record that C reaches by a pointer in a table is a value, and a write through
-- the pointer is poke (the table of rwhashtab.c with that record replaced); a tree is a value
-- too, and what an insertion changes is returned. Machine integers are natural numbers with the
-- wrap-around written out. The loop of rwhashtab_search has cursize rounds of fuel, which a
-- table that is not full does not use up; the two loops of padme have 64, the bits of a size_t,
-- and its shift is one of an int: what becomes of a shift by 31 or more, which C leaves
-- undefined, is a parameter (undefined). The loops over the hash table of the chunkifier have a
-- round for each slot, and more is a missing result; the loop that moves r on has 4, each of
-- which adds to rs, isqrt and isprime have one for each number below 65536, and the loop that
-- doubles the table 16, since each takes two bits off. The loop of patricia_insert has a round
-- for each node of the tree and byte of the key. The loops over the fragments of an index have a
-- round of fuel for each byte, and a round takes at least one. Memory that runs out is a
-- parameter (alloc), and so are the keyed hash, entropy, zlib's compress2 and uncompress, the
-- storage layer's operations, the hashes and signatures of lib/crypto, the byte order functions
-- of sysendian.h, and the calls on files: Io says which of them succeed while the directory is
-- read or written, CacheDir what they do to its names. The asserts of chunks_write_chunk are
-- hypotheses of its theorems.
--
-- Not modelled: output, freeing of memory, the choice of the chunkifier's modulus, the archive
-- streams, and the storage and network layers.
pub mod Base
pub mod Datastruct
pub mod Chunks
pub mod Multitape
