-- ===== src/Lib.antt =====
-- A verification library for dsa-c, a collection of data structures in C headers (dsa/*.h). The
-- headers are templates: NAME and VALUE_TYPE are set before each inclusion, so a structure here is a
-- type over its values, and a function `NAME_push` is the definition `push` of the structure's module.
--
-- How C is read. A struct is a record, and a function that changes `*self` returns the new record.
-- An array is a list of the length that was allocated. A number of 32 bits (`uint32_t`) or of 64
-- (`size_t`, `uintptr_t`) is a natural number, and every operation on it writes its wrap-around out
-- (Word). A call returns a value or a fault (Run): a failed `assert`, an access outside an array, or
-- too little fuel in a loop of the model. The NULL tests `assert(self)` have no counterpart where a
-- record stands for the struct. `calloc` is a Boolean that says whether the memory is found, with a
-- block of zero bytes; what the compiler knows of a struct (offset of its array, size of an element)
-- is the record Layout. `destroy` only calls `free` and is left out.
--
-- The files, in the order of their dependence:
--   Prelude    names of the libraries, Boolean tests, arrays, bits, rings of indices
--   Run        outcomes of calls, reads and writes of arrays
--   Machine    programs of calls and the passage from single calls to programs
--   Word       arithmetic of 32 and 64 bits
--   Bytes      memory as bytes, for the arena and the pool: memset, pointers of 8 bytes
--   Pow2       dsa/is_pow2.h and dsa/round_up_pow2.h, both branches of the rounding
--   Align      dsa/align.h
--   Arena      dsa/arena.h: Allocate, Blocks (sequences of allocations), Reallocate
--   Pool       dsa/pool.h: FreeList, Init
--   NodeList   dsa/list.h, over a store of nodes: Ring (the list of a head), Calls, Removal
--   Rbtree     dsa/rbtree.h: Insert and Delete; Shape and Context say which tree is in memory, Color,
--              Write and Turn what the single writes do to it, Rotation, Fixup, Rebalance, Climb and
--              Link lead to insertion; Balance, Height, Order and Keys are about the trees; Descent,
--              Search, Insertion and Termination about the calls. For deletion, Sunk is what the
--              rebalancing does to a tree, Cases, Sink, Rounds and Fall that delete_fixup does it,
--              Restore and Kept that it is right, Sinking both; Detach, Successor, Place and Handover
--              are about taking a node out, Outer and Inner about nodes with at most one and with two
--              children, Remove and Deletion about delete_node, and Undo about a
--              deletion after an insertion
--   Hash       dsa/fnvhash.h (Fnv) and dsa/murmurhash.h (Murmur)
--   Flexible   what the three fixed structures share: size macros, array loops
--   Fstack     dsa/fstack.h: Invariant, Spec (a bounded list), Refine, Transfer (copy, iteration)
--   Fqueue     dsa/fqueue.h: the same over a ring whose capacity is a power of two, with Calls
--   Fpqueue    dsa/fpqueue.h: a binary heap; Order and Swap, Upheap and Downheap, Calls, Spec (a
--              bounded bag), Refine, Sort (removing everything), Transfer
--   Fhashtable dsa/fhashtable.h: a Robin Hood hash table
--
-- fqueue.h uses is_pow2 and round_up_pow2_32; the three structures use the size macros; the queue's
-- indices go round by `& (capacity - 1)`, which is a remainder as the capacity is a power of two.
--
-- Fuel: `upheap` has as many rounds as the index it starts from, which each round at least halves,
-- and `downheap` one more than the count, as each call moves to a larger index below the count. The
-- theorems on the operations show that no call runs out. The loops of the hash table are given
-- a round more than there are slots. A heap's capacity is below 2^31, which
-- `create` enforces for elements of at least 4 bytes, so that the index of a child does not wrap.
--
-- The arena and the pool use align. Memory is a byte for each address, and the pointer in a free
-- node of the pool takes 8 of them, the lowest first. `alignof(max_align_t)` and the signedness of
-- `char` are parameters; murmur3_32 reads its words as a little-endian machine does, too.
--
-- The red-black tree keeps each member of a node as an array over the addresses, so that two members
-- never overlap; NULL is 0, and an access through it is a fault. Its loops have a round for each level.
--
-- Not modelled: the free-list allocator, the example programs, the tests and the benchmark.
pub mod Prelude
pub mod Run
pub mod Machine
pub mod Word
pub mod Pow2
pub mod Align
pub mod Flexible
pub mod Fstack
pub mod Fqueue
pub mod Fpqueue
pub mod Bytes
pub mod Arena
pub mod Hash
pub mod Pool
pub mod Rbtree
pub mod NodeList
pub mod Fhashtable
