-- ===== src/Lib.antt =====
-- The ULMT version of the GNU OpenMP runtime (libgomp): the queues that hold explicit tasks,
-- their dependences and the pool of their states, the iteration of work-sharing loops, the
-- ordered sections in them, and the free work shares. Each model is a shallow embedding: a C
-- function is a function that returns the new state with its result, a node is its address, a
-- pointer that may be NULL is an option.
--
-- A task queue (`struct priority_queue` of priority_queue.h) keeps, per priority, one `struct
-- priority_list`: a circular list of the tasks and one of the blocked tasks. With several
-- priorities in use these lists are the keys of a splay tree (splay-tree.c), whose nodes are also
-- linked in order of priority, with a mark on those that have a waiting task: this is the HP-LIST
-- of splay-tree.c, which gives the scheduler the highest priority that can run.
--
-- Base has the shared notation: Boolean tests on the native numbers, lists without repetition,
-- memory as a function of the address, and signed integers. Ring is `struct priority_node` of
-- priority_queue.h: the `next` and `prev` fields of all nodes are one memory; Ring.Seg reads a
-- circular list out of it and Ring.Laws has what each group of pointer writes does to it.
--
-- PriorityList is `struct priority_list` with `priority_list_insert`,
-- `priority_list_insert_running` and `priority_list_remove` of priority_queue.h, one definition
-- per block of these functions. PriorityList.View is the abstract list: the waiting tasks that
-- the parent depends on, the other waiting tasks, the running ones, and the blocked ones. The
-- memory order that a removal is given, and the poisoning of a removed node in a checking build,
-- are left out: neither changes a value that is read later.
--
-- Splay is splay-tree.c. A tree is data with NULL as the empty tree, and a node is of any type
-- with a priority, compared as by `prio_splay_compare` of priority_queue.c. The loop of
-- `splay_tree_splay` has fuel, two rounds for each node and two more, which Splay.Terminates
-- shows to be enough. What is compared with the code is the tree of nodes by child pointers;
-- `splay_tree_insert` also resets the links of the new node, which is HpList.insert_unlisted.
--
-- HpList is the HP-LIST: `splay_tree_hp_list_mark_node`, `splay_tree_hp_list_insert` and
-- `splay_tree_hp_list_remove` of splay-tree.c, with the fields `marked`, `next` and `prev` of all
-- nodes in one memory. The walk to the next marked node has as fuel the number of nodes of the
-- tree. `num_marked` is a natural number: the code's `int` does not overflow with fewer than 2^31
-- nodes.
--
-- IterUll is iter_ull.c: `gomp_iter_ull_static_next`, `gomp_iter_ull_dynamic_next_locked`, both
-- branches of `gomp_iter_ull_dynamic_next`, the atomic addition and the compare-and-swap loop,
-- whose attempts find the values of a list, and `gomp_iter_ull_guided_next_locked` and
-- `gomp_iter_ull_guided_next`. The work share is a record with the fields that these functions
-- use, an `unsigned long long` is a natural number with the wrap-around at 2^64 written out, and
-- a call's result holds what it returns, the range that it writes, and the thread's
-- `static_trip`.
--
-- IterLong is iter.c, the same functions for a loop over `long`, and `gomp_loop_init` of loop.c.
-- A `long` is its word in two's complement; its operations wrap, comparisons and division read
-- the sign. The code that iter.c and iter_ull.c have in common, on the unsigned numbers of a
-- static schedule, is the code of IterUll. IterLong.Bias compares the order of `long` with that
-- of the words plus 2^63.
--
-- ListMoves is what task.h and task.c do to a task within its list: `priority_list_adjust_task`,
-- `priority_list_block_task`, `priority_list_unblock_task`, `priority_list_upgrade_task` and
-- `priority_list_downgrade_task`. The condition on the task's taskwait is a Boolean argument, and
-- `gomp_queue_policy_var` a number.
--
-- PriorityQueue is `struct priority_queue` with the functions on whole queues of priority_queue.h
-- and priority_queue.c: the search for a priority, the insertion, the insertion of a running task
-- and the removal, in the list or the tree, with the counters as words and `highest_priority`.
-- The list of a tree node is kept by the address of the node, what gomp_malloc gives is an
-- argument, the fields of the tasks are a function of the node, and a result `none` is a call of
-- gomp_fatal or a read through NULL. QueueMoves has the functions of ListMoves on whole queues,
-- and NextTask the choice of the next task: `priority_queue_next_task` and
-- `priority_queue_next_suspended_task` of task.c, and the choice from an array in task.h. An
-- atomic store is a store: the model is what one thread does under the lock.
--
-- Hashtab is the part of hashtab.h that chooses a size and computes the two hashes:
-- `higher_prime_index`, `htab_mod` and `htab_mod_m2`. `htab_mod_1` is modelled for a `hashval_t`
-- of 32 bits, and an ending of `higher_prime_index` is a datum: the index, the call of abort, or
-- a read past the end of the table.
--
-- StatePool is state.c: the free task states of a thread and of the group, linked by their
-- `next`, with `gomp_task_state_list_alloc`, `gomp_get_task_state` and `gomp_free_task_state`. A
-- state is its address, the address that gomp_malloc gives is an argument, and what each attempt
-- to take the spin lock of the group reads is a list, of which the last attempt gets the lock.
--
-- Ordered is ordered.c up to the doacross loops: the ring of the threads of a team that have
-- iterations of an ordered loop. The semaphores of the team are counters, and `gomp_ordered_sync`
-- gives no result while the thread waits. Ordered.Step is one call of one thread under the lock
-- of the work share, as loop.c makes them: a thread that is not in the ring registers, and only
-- the owner passes the section on. Ordered.Ring reads the ring as a list, Ordered.Fair is what
-- each function does to it, and Ordered.Steps is what holds in all states that a team reaches.
--
-- Depend is what task.c does for `depend` clauses: `gomp_task_handle_depend`, and
-- `gomp_task_run_post_handle_depend` with the functions that it calls. The chain of an address is
-- the list of its entries, from the slot of the hash table along `next`: a move within the list
-- stands for the writes to `next` and `prev`, and the table is a function of the address. A task
-- is a number, `num_dependees` a natural number, since there are fewer than 2^64 tasks, and what
-- is released is a list of tasks, in the order in which they go to the queues. Depend.Counted and
-- Depend.Create are the creation of a task, Depend.Release, Depend.Unchain and Depend.Finish its
-- end, Depend.Order the order of the tasks, and Depend.Runs any sequence of these.
--
-- WorkShares is `alloc_work_share` and `free_work_share` of work.c, in the variant with atomic
-- builtins: the work shares of a team that are linked by their `next_free`. The address that
-- gomp_malloc gives is an argument, and so is what the attempts of `free_work_share` that fail
-- read. Lists of pointers are those of StatePool.Linked.
--
-- Not modelled: the checking code of priority_queue.c, the slots of the hash table,
-- `gomp_loop_ull_init` and the entry points of loop.c, the start and end of the state lists, the
-- insertion of released tasks into the queues and the loops of the scheduler in task.c, teams and
-- barriers, the start and end of work shares, the locks of config/, offloading and OpenACC, and
-- the assembly of the context switch. Memory is as one thread sees it under the team's or the
-- parent's lock.
pub mod Base
pub mod Ring
pub mod PriorityList
pub mod Splay
pub mod HpList
pub mod IterUll
pub mod IterLong
pub mod ListMoves
pub mod PriorityQueue
pub mod QueueMoves
pub mod NextTask
pub mod Hashtab
pub mod StatePool
pub mod Ordered
pub mod Depend
pub mod WorkShares
