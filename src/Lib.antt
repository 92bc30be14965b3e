-- ===== src/Lib.antt =====
-- Verification of the workloads of the Wasm cloud computing benchmark suite.
--
-- The suite measures servers that are compiled to WebAssembly (wasm32, little endian). Two workloads
-- are modelled. Each is a TCP server in C that hands every connection to a thread:
--
-- workloads/machine_learning/wasm-src: `main` loads a file of MNIST images, fills a network of one
--   layer with random weights, and serves connections; a request is a number, and the answer is the
--   labels of the images of that batch. Ml and its children.
--   Ml/ByteOrder is `map_uint32`; Ml/ImageFile is `get_images`; Ml/Dataset is `mnist_get_dataset`,
--   `mnist_free_dataset` and `mnist_batch`; Ml/Network is the `neural_network_` functions;
--   Ml/Connection is `run`; Ml/Main is `main`.
-- workloads/no_sql_db/wasm-src: `main` attaches a database, fills it with 5600 records and serves
--   connections; a request is two digits, which choose between writing thirty records and counting the
--   records with a value. NoSql and its children: NoSql/Work is `run0`, `run1`, `work` and `fill_db`;
--   NoSql/Connection is `run`; NoSql/Main is `main`.
--   Engine and its children are a part of the engine below it.
--   The allocator, dballoc.c: Engine/Chunks is `alloc_db_segmentchunk` and `init_db_subarea`;
--   Engine/Fixlen is the objects of fixed length; Engine/Buckets is the lists of free objects;
--   Engine/Varlen and Engine/Gints are `split_free`, `extend_varlen_area` and `wg_alloc_gints`;
--   Engine/Release is `wg_free_object`.
--   Values and records, dbdata.c: Engine/Dates is the calendar, the dates and the times; Engine/Values is
--   the words of integers, characters, dates, times and variables; Engine/Records is the records and their
--   fields on the allocator's area; Engine/Records/Atomic is the setting of a field without a lock, among
--   changes that other threads make; Engine/Records/Scan is the walk over all records.
--   The set of words, dbhash.c: Engine/Hash.
--   The comparison of values, dbcompare.c: Engine/Compare.
--   The queries, dbquery.c: Engine/Query is the conditions and `wg_find_record` by a scan; Query/Follow is the
--   order of the scan; Query/Results is the sets of results, with
--   Query/Join for their intersection.
--   The T-tree index, dbindex.c: Engine/Ttree is the nodes, with Ttree/Shape for the tree that they make up;
--   Ttree/Rotate is the rotations; Ttree/Search is the search for a node that bounds a key;
--   Ttree/Insert is what `ttree_add_row` does to a node.
--   The locks, dblock.c: Engine/Locks is the queue of locks; Locks/Chain, Queue, Order, Leave and Release
--   relate it to a list; Locks/Fair is what the list promises; Locks/Session is threads that share it.
--
-- Threads models miscellaneous/tiny-threads-example/threads.c: the steps of `main` and of its ten threads,
-- in any order, as a relation,
-- with calls that fail and the undefined behaviour that follows.
--
-- Server and its children model what both contain: socket_utils.h and the loop that accepts
-- connections. Prelude holds the shared names, the list lemmas, the bit laws of words, the signed
-- integers and `atoi`. Tests holds concrete inputs.
--
-- State is passed explicitly: a function that changes memory returns what it leaves. What the
-- operating system and the C library answer (bytes read, results of `malloc`, `accept`, `write`)
-- enters as arguments, in order, and what a function does to the world is a list of events.
-- Undefined behaviour, a trap, a write out of bounds and a loop that does not end are results of their own.
--
-- Numbers are natural numbers with the wrap-around of `uint32_t` and of the 32-bit `size_t` written
-- out; an `int` that can be negative is a ℤ. Floats are a parameter (Ml.Network.Floats): the loops are
-- written out over it, and what a theorem needs of the comparison is a hypothesis (IsOrdered: `<` on
-- floats without NaN). The calls of the database are a record (NoSql.Db), so that what is proved of the
-- connection and of `main` holds whatever they answer; NoSql/Engine puts the engine behind it.
--
-- Loops recur on the list that they walk. The `while` loop of `run1` takes fuel; a round for each row and one
-- more are enough. The loop of the database connection is given a number of rounds, since it does not end by
-- itself. The loops of the allocator that halve a size take fuel; a size has 32 bits. `wg_alloc_gints` calls
-- itself only after it made a subarea, of which there are 64, so that fuel of 64 is enough; the loop that
-- doubles a size takes 32 rounds, after which the number is negative or 0 for ever. The loops of the atomic
-- functions take 1002 rounds at most, which is their fuel. The loop that looks for the year of a day takes the
-- day number as fuel; the walk over the records takes a round for each object and each subarea. A search by a
-- scan takes a round for each record and one more, and so does each loop over a set of results; a search in
-- the T-tree takes the height of the tree.
--
-- Not modelled: the texts printed to the console under DEBUG; of the engine, strings, the encoding of doubles,
-- the other hashes, the lists of parents, the new nodes of an insertion into an index and the removal from it,
-- the queries that use an index, logging and child databases (the last two are not compiled in), and its JSON
-- parser, a copy of yajl; the spin loop of the queue mutex; the scheduling of the servers' threads; the Python
-- programs that drive the benchmark.
pub mod Prelude
pub mod Ml
pub mod NoSql
pub mod Server
pub mod Engine
pub mod Threads
mod Tests
