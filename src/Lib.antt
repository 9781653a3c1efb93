-- ===== src/Lib.antt =====
-- A model of libgomp, the OpenMP runtime library, in the variant whose PARALLEL, SINGLE and CRITICAL
-- constructs run over an ARINC 653 layer.
--
-- The program hands out work to the threads of a team. A PARALLEL region (parallel.c) chooses how
-- many threads its team gets. In it, a LOOP (loop.c), a SECTIONS (sections.c) or a SINGLE
-- (single.c) construct sets up a work share, the record `struct gomp_work_share` of libgomp.h, and
-- the threads ask it for blocks of iterations (iter.c). A loop with an ORDERED section (ordered.c)
-- queues its threads in the order of their blocks. In a doacross loop (ordered.c) a thread waits
-- for iterations that others post. A TASKLOOP (taskloop.c) cuts a loop into tasks. At the end of a
-- region the threads meet at a barrier (config/linux/bar.c). Tasks wait in
-- priority queues (priority_queue.h), which task.c reorders. The environment variables (env.c) and
-- the calls of icv.c set the control variables. Arinc653.c gives SINGLE its compare and swap and
-- gives out mutexes.
--
-- Files and the code that they model:
--   Base        numbers, lists, `long` and `unsigned long`, shared lemmas and rules
--   Iter        iter.c: gomp_iter_static_next, gomp_iter_dynamic_next_locked,
--               gomp_iter_guided_next_locked
--   Claim       iter.c: gomp_iter_dynamic_next and gomp_iter_guided_next, run by many threads
--   Ordered     ordered.c: gomp_ordered_first, _last, _next, _static_init, _static_next, _sync
--   Doacross    ordered.c: gomp_doacross_init, GOMP_doacross_post, GOMP_doacross_wait
--   Loop        loop.c: gomp_loop_init, the start and next routines; Loop/InOrder has the
--               gomp_loop_ordered_* routines
--   IterUll     iter_ull.c: gomp_iter_ull_static_next, gomp_iter_ull_dynamic_next_locked,
--               gomp_iter_ull_guided_next_locked
--   LoopUll     loop_ull.c: gomp_loop_ull_init, the static and the ordered routines
--   Sections    sections.c: gomp_sections_init, GOMP_sections_start, GOMP_sections_next
--   Parallel    parallel.c: gomp_resolve_num_threads, GOMP_parallel, GOMP_parallel_end
--   Single      single.c: GOMP_single_start
--   Arinc       Arinc653.c: Arinc_compare_and_swap, Get_Free_Mutex
--   Taskloop    taskloop.c: the split into tasks, for loops over `long`
--   Env         env.c: parse_unsigned_long_1, parse_int_1, parse_unsigned_long_list;
--               Env/RunSched has parse_schedule, Env/Switch the parsers of the other variables
--   Pool        work.c: alloc_work_share, free_work_share
--   WorkShares  work.c: gomp_work_share_start, gomp_work_share_end_nowait; libgomp.h:
--               gomp_work_share_init_done; config/linux/ptrlock.h and ptrlock.c
--   Priority    priority_queue.h, priority_queue.c, task.c: priority_list_insert,
--               priority_list_remove; Priority/Reorder has priority_list_upgrade_task and
--               priority_list_downgrade_task, Priority/Tree priority_tree_next_task,
--               Priority/Walk the checks of a list
--   Barrier     config/linux/bar.h and config/linux/bar.c: gomp_barrier_wait, run by many threads
--   Icv         icv.c: omp_set_schedule, omp_get_schedule and other omp_set_ and omp_get_ functions
--   Examples    runs on concrete inputs, and the theorems applied at them
-- A C function gomp_f or GOMP_f is the definition f.
--
-- State. A function that changes a work share, a thread or the ORDERED state takes it and returns
-- it; out-parameters are options, `none` where C leaves them alone or a thread blocks. Code that
-- several threads run at once is a step relation whose steps are the accesses to the shared
-- variable, so every interleaving is a path of the relation.
--
-- Numbers. `unsigned long` has 64 bits and `unsigned` 32, with the wrap written out, but for
-- work_share_chunk, whose doubling is taken not to wrap. A `long` is an integer without bound: C
-- leaves its overflow undefined, and the hypotheses keep the values in range where a cast or an
-- atomic addition would wrap. The configuration is an LP64 target with HAVE_SYNC_BUILTINS,
-- USE_ARINC653 and BY_PTHREAD defined; Priority/Walk is about _LIBGOMP_CHECKING_.
--
-- Fuel. The loops of the code are structural here but for the parsers of lists in Env, whose fuel
-- is more than the length of the text, of which each turn reads some, and the walks round a list
-- in Priority/Walk, whose fuel is its number of entries. A compare-and-swap loop is a path of
-- steps of any length. `dynamic_calls` counts calls; a call for each unit of distance to the
-- loop's end is enough.
--
-- Not modelled: gomp_work_share_end of work.c, which runs a team barrier, the list next_alloc of
-- blocks to free and work_shares_to_free; the constructs take the answer of gomp_work_share_start
-- as an argument; threads and pools (team.c), the life of a task and its dependences (task.c), the
-- splay tree and the hash table, which are copies of libiberty's, the doacross functions over
-- unsigned long long, the compare-and-swap loops of iter_ull.c, places and affinity (env.c), team
-- barriers with tasks and cancellation, devices (target.c, oacc-*.c, plugin/) and the rest of the
-- system layer (config/). Under USE_ARINC653 GOMP_task ends the program, so the queues of Priority
-- serve the target tasks there. gomp_dynamic_max_threads asks the system for its load and is an
-- argument. Mutexes are taken to be correct: what they guard is one step.
pub mod Base
pub mod Arinc
pub mod Single
pub mod Iter
pub mod IterUll
pub mod Claim
pub mod Doacross
pub mod Icv
pub mod Barrier
pub mod Pool
pub mod Priority
pub mod WorkShares
pub mod Env
pub mod Ordered
pub mod Loop
pub mod LoopUll
pub mod Parallel
pub mod Sections
pub mod Taskloop
pub mod Examples
