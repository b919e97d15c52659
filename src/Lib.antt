-- ===== src/Lib.antt =====
-- Transaction system: the concurrency control protocols Silo (silo/, kvsilo/) with what they share
-- (common/), the multi-version protocol Cicada as far as it is written (cicada/), Masstree, a trie of
-- B+ trees with concurrent readers (masstree/), and the B+ tree
-- that the repository studies as an index (bptree/main.c).
--
-- The parts and how they interact. A worker thread draws a list of steps (common/step.h) and runs
-- it through a transaction executor: reads and writes are collected in two sets; at the end the
-- executor locks the records of the write set in order, validates the read set against the shared
-- table, and either installs its values under a new TID or releases the locks. A leader thread
-- advances the global epoch that TIDs are drawn from.
--
-- Files.
--   Base            shared names, lists under native indices, commands that may fault or be starved
--                   of turns (Base.Run), and accesses to a shared memory (Base.Shared)
--   TidWord         TidWord of silo/tuple.h and kvsilo/record.h; Order and Commit prove what a new
--                   TID exceeds
--   Common          common/step.h, common/result.h, checkClockSpan of common/helper.h
--   Silo.Memory     Table, GlobalEpoch and ThreadLocalEpochs of silo/consts.h, with the accesses of
--                   common/atomic_wrapper.h
--   Silo.Executor   TXNExecutor of silo/txn_executor.h: begin, abort, read, write, searchReadSet,
--                   searchWriteSet
--   Silo.Commit     lockWriteSet, unlockWriteSet, validationPhase, writePhase of
--                   silo/txn_executor.cpp
--   Silo.Worker     the transaction loop of silo/main.cpp
--   Silo.Epoch      silo/epoch.h
--   KvSilo.Memory, KvSilo.Transaction, KvSilo.Database   kvsilo/record.h, kvsilo/transaction.cpp,
--                   kvsilo/database.cpp and kvsilo/result.h; KvSilo.Database.Drift proves how its
--                   epoch goes
--   KvSilo.PrimaryTree   kvsilo/primary_tree.cpp, as BpTree at order 4; Reads and Initial prove what
--                   its read, write and constructor do
--
--   BpTree.Heap     nodes, records, arrays, malloc and free of bptree/main.c, and its queue
--   BpTree.Search   find_leaf, find, find_range, cut, height, path_to_root
--   BpTree.Slots    insertion in one node: get_left_index, insert_into_leaf, insert_into_node
--   BpTree.Insertion   splits, insert_into_parent, insert
--   BpTree.Removal  deletion in one node: get_neighbor_index, remove_entry_from_node
--   BpTree.Deletion    adjust_root, coalesce_nodes, redistribute_nodes, delete_entry, delete,
--                   destroy_tree
--   BpTree.Printing    enqueue, dequeue, what print_leaves and print_tree print
--   BpTree.Entries, BpTree.Tree, BpTree.Looks   the entries of a node and of a whole tree, as lists
--   Below these, modules for what they prove: BpTree.Search.Range and InRange; BpTree.Slots.Sorted,
--                   Cells, Leaf, Overfull and Split; BpTree.Insertion.Shape, Changed, Room, Pair
--                   and Halves; BpTree.Removal.Neighbor, Shift, Leaf and Lookup; BpTree.Deletion.Found
--   Cicada.TimeStamp, Cicada.Memory   cicada/time_stamp.h; versions, tuples and globals of
--                   cicada/version.h, cicada/tuple.h, cicada/consts.h
--   Cicada.Executor TXExecutor of cicada/tx_executor.cpp: begin, read, write, earlyAbort
--   Cicada.Leader, Cicada.Collector   cicada/leader_work.h; maintain of cicada/tx_executor.cpp
--   Cicada.Memory.Alone, Cicada.Executor.Found and Visible   what a read meets in a version chain
--   Masstree.Version, Masstree.Key   masstree/version.h and masstree/key.h
--   Masstree.Heap   border and interior nodes of masstree/masstree.h
--   Masstree.Search, Masstree.Access   its readers: stableVersion, lockedParent, findChild and
--                   extractLinkOrValueFor; findBorder, get, write
--   Masstree.Entry  masstree/bptree.h: start_new_tree, key_insert_after_new_layer, insert_into_border
--   Masstree.Split, Masstree.Insertion   split_keys_among; insert_into_parent, split, insert
--   Masstree.Samples   masstree/sample.h
--   Below these, what they prove: Masstree.Version.Check; Masstree.Key.Rest; Masstree.Search.Gives
--                   and Reads, Masstree.Access.Reads, Writes and Settles among other threads;
--                   Masstree.Alone and Masstree.Entry.Stores for one thread alone; Masstree.Entry.Contents, Suffixes,
--                   Layers, Shift and Inserted; Masstree.Access.Found, RoundTrip, AfterInsert,
--                   AfterWrite and LeftBehind; Masstree.Insertion.Readable
--
-- The tree. Its order is a parameter. An int key is represented by a natural number in the same
-- order (keys are only compared). Addresses are numbers, 0 is NULL; an access outside an array, to a
-- cell that nothing was stored in, to NULL or to a freed object is a fault, and so is exit. A descent
-- or a climb takes as many turns as it may make steps.
--
-- Concurrency. Methods are run as one thread among others: before each access to a shared word the
-- other threads may change the memory, by an arbitrary function of the access's number and of the
-- memory. A statement about one method says what it needs of the other threads; memory is
-- sequentially consistent. compare_exchange_weak fails only where the words differ.
--
-- Turns. A loop that spins until another thread acts takes a number of turns, and is `starved` when
-- they are used up. A statement that a method returns says how many turns it needs; where the other
-- threads leave its records alone, one is enough for each lock.
--
-- Machine integers keep their wrap-around: the tid field has 29 bits and the epoch 32, counters and
-- the clock 64 bits. std::sort is an insertion sort by the elements' operator<.
--
-- Not modelled: threads, the allocation of silo's table and a failing malloc, sleeping, printing (but
-- for what print_leaves and print_tree of bptree/main.c print), the random generators (their draws
-- are arguments), the logger, the command loop of bptree/main.c, the worker of
-- cicada/main.cpp, printing and compile-time checks of masstree/.
pub mod Base
pub mod TidWord
pub mod Common
pub mod Silo
pub mod KvSilo
pub mod BpTree
pub mod Cicada
pub mod Masstree
