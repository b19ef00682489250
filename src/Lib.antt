-- ===== src/Lib.antt =====
-- XFireDB is an in-memory key-value database. This library models its storage engine,
-- libxfiredbengine. Strings and lists are kept in containers, whose addresses stand in a hashed
-- dictionary; each change is queued for a worker thread that writes it to disk.
--
-- The parts, from the bottom up:
-- - Base: runs that may fault, Boolean tests, lists, words and integers over the native numbers.
-- - Dict: libxfiredbengine/storage/dict.c. Dict has the data model, Dict.Hash `dict_hash_key`,
--   Dict.Size `dict_real_size`, Dict.Rehash `dict_rehash` and `dict_rehash_step`, Dict.Expand
--   the growth, Dict.Entries `__dict_add`, `__dict_delete` and `__dict_lookup`, Dict.Api the
--   public functions, Dict.Iterator the iterators, Dict.Worker `dict_rehash_ms`. Dict.Table and
--   Dict.Valid state when a map and a dictionary are well formed and what a key reads;
--   Dict.Session puts calls in sequence.
-- - Database: libxfiredbengine/storage/database.c, which keeps addresses in a dictionary.
-- - Bio: libxfiredbengine/storage/bio.c, the queue of changes and its worker, over an interface
--   `DiskOps` for storage/disk.c.
-- - Engine: strings and lists of libxfiredbengine/xfiredb.c (Engine.Items has
--   `xfiredb_list_get`, `xfiredb_list_set` and `xfiredb_list_pop`), with what they use of
--   storage/string.c, storage/list.c and storage/container.c. Its state holds the dictionary, a
--   heap of containers and the background I/O.
-- - SkipList: libxfiredbengine/storage/skiplist.c on a heap of nodes. SkipList.Towers states
--   when a heap holds a skip list of given nodes: on each level the pointers lead through the
--   nodes that stand on it, by growing hashes. SkipList.Chains and SkipList.Heap have chains of
--   pointers and writes to them; SkipList.Walks, Spots, Fronts and Search are about the search,
--   Links, Insert and Inserts about the insertion, Approach, Unlinks, Lowers, Delete and Deletes
--   about the deletion, Keys and Lookups about the map from keys to nodes, Iterator about
--   iterators.
-- - Hashmap and Set: libxfiredbengine/storage/hashmap.c and set.c over the skip list.
-- - LinkedList: libxfiredbengine/storage/list.c on a heap of cells, by chains of forward and
--   back pointers.
-- - Bitops: libxfiredbengine/bitops.c on a register of words; Bitops.Digits has the binary
--   digits of a word.
-- - Objects: libxfiredbengine/storage/object.c, the expiry of objects, over Bitops.
-- - Quote: libxfiredbengine/quotearg.c.
-- - Crc: libxfiredbengine/crc16.c.
--
-- A function that may read or write out of bounds, through a dangling pointer or against an
-- `assert` returns a `Run`, whose `fault` is that behaviour. A pointer to an entry of the
-- dictionary is its bucket and key, an address of a container is a number. What memory holds at
-- the address that `dict_add` is given is the parameter `memory`, and the clock of
-- `dict_rehash_ms` the parameter `late`. Each call of the dictionary is one step, so sequences
-- of calls stand for the interleavings of whole calls of several threads, the rehashing worker's
-- calls among them; that the code gives the lock back between parts of a call is left out.
--
-- The loops along buckets and strings are recursions on the list. `dict_rehash` recurses on its
-- number of rounds and on the visits it allows. Fuel bounds `dict_rehash_ms`, where more than
-- the number of buckets is enough, the worker of the background I/O, where more than the length
-- of the queue is enough, `dict_iterator_next`, and the loops of the skip list, where more than
-- the number of its nodes is enough.
--
-- The C integers are of two kinds here. Where a theorem depends on it they have their width:
-- hashes, masks and pointers' words, the number of a bucket that `dict_calc_index` returns as an
-- `int`, and the counts that the engine's functions return as an `int`, so that the theorems on
-- the dictionary and the engine state how many buckets, entries and texts there may be. The
-- 32-bit counters of the skip list, the linked list, the hashmap and the set are written as
-- natural numbers, which they are as long as they stay below 2 ^ 31.
--
-- Not modelled: threads, locks and memory allocation, which cannot fail here; the engine's
-- functions on hashmaps; skip lists in which two keys have one hash; the SQL of storage/disk.c;
-- logging; the clients and the Ruby bindings.
pub mod Base
pub mod Bio
pub mod Bitops
pub mod Crc
pub mod Database
pub mod Dict
pub mod Engine
pub mod Hashmap
pub mod LinkedList
pub mod Objects
pub mod Quote
pub mod Set
pub mod SkipList
