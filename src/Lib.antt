-- ===== src/Lib.antt =====
-- Process management system: a verification library.
--
-- The program simulates a process manager. allocate reads processes from a file, keeps them in an
-- input queue until there is memory for them, and runs them one at a time under shortest job first
-- (SJF) or round robin (RR), in rounds of `quantum` time units. Each process is a child program,
-- process, which the manager starts, suspends, continues and terminates by signals; they exchange
-- the time through pipes, and the child ends with a hash of what it has received.
--
-- The parts, and the file of each (paths of the repository, C functions under their own names):
--   ProcessData: src/process_data.c, src/process_data.h. A process is a record; where the program
--   mutates the object, the changed record is passed on. get_value returns an exact quotient in
--   place of a double.
--   Loading: load_processes and read_process of src/process_data.c. A file is its characters from
--   the current position on, fscanf a scanner over them. Format is about a line in the format of
--   README.md, Lines about whole files of them, Stuck about others.
--   MinHeap: src/min_heap.c, the ready queue of SJF. Order says when an array is a heap, Up and
--   Down follow up_heap and down_heap, Laws has the operations, Sessions many of them in a row.
--   LinkedList: src/linked_list.c, doubly linked nodes on a heap with explicit addresses, where a
--   read or a write through NULL or a freed node is a fault. NodeList is the view that the lists
--   stand for, the nodes from head to tail; Links says when a heap holds it. Ends, Middle, Between
--   and Sorted relate the operations to the view, ByData relates delete_node_by_data to the list of
--   holes of MemoryAllocation; Turns has what two of them share; Stale is about the link that
--   dequeue leaves behind.
--   MemoryAllocation: src/memory_allocation.c. The memory is a NodeList of blocks and a list of the
--   addresses of its holes. Holes is about the list of holes, Tiles about blocks that lie end to
--   end, Invariant joins them; Split is about split, Fit about best_fit, Pair about two neighbours,
--   Update, Merges and Release about the merges of deallocate_memory; Allocate has allocate_memory,
--   Conserve says what it keeps, Holders, Owners and Holding which process holds which block, Free
--   and Clear when a memory without blocks in use takes a process.
--   ReadyQueue: the queue behind the function pointers insert_func, extract_func and is_empty_func,
--   a record of operations; Laws has what the callers rely on, for the heap and for the list.
--   ChildProcess: src/process.c. Store is about the bounds of its buffer, Life about the signals
--   that it handles from its start on, Sha256 is the hash, Digits is about its string, Blocks and
--   Padding about its blocks, Rfc is RFC 6234 on the hash of one block, Compression relates the
--   two, Standard the whole hash to that of the RFC.
--   Scheduler: cycle of src/main.c and what it calls. Real has the functions that talk to a child,
--   System those that a round calls, Cycle the rounds, shared by SJF and RR but for what becomes of
--   a process that goes on running. Arrivals is about update_input, Protocol about the bytes
--   exchanged, Faults about an input in which nothing arrives at time 0. Pids says that each
--   started process has its child, and that no name is an option of the child; Steps, Running and
--   Finish follow the functions of a round, Loops, Sound, FinishRound and FullRound a round, Rounds
--   and Runs a whole run; Ahead and Timely count the processes that are ahead of the clock. The
--   modules of Ending say that a run ends, those of Order in which order it finishes the processes:
--   Turns, Fair and ShortestFirst for SJF, Jobs, Line, RoundRobin, Rotation and TakingTurns for RR,
--   against a relation that says how jobs take turns. Statistics is print_statistics, over exact
--   quotients in place of doubles; Greatest is about its maximum, Hundredths about its overheads,
--   Ceiling about all that it prints.
--   Program: main and process_args of src/main.c, over what getopt returns; Printing is about what
--   it prints, Usage about the program called as README.md says.
--   Cleanup: free_process of src/process_data.c and free_heap of src/min_heap.c, over the addresses
--   that are allocated and the descriptors that are open; Laws has what they and free_list give
--   back, Queues the frees at the end of cycle.
--   Base: Boolean tests, lists as arrays, C strings, decimal numbers in a text; Returns, which says
--   that a run ends well with a value that has a property, and Ensures, which says it only of a run
--   that ends well.
--
-- A run that may fault returns an Option; `none` is a fault, an exit or, for cycle, a run that does
-- not end in the rounds given. Bounds and fuel: up_heap and down_heap get one call for each item
-- and the place past them, merge_loop one round for each block, the walks of insert_node_sorted and
-- free_list one step for each node; load_loop needs a round for each line and one more, cycle the
-- rounds that enough_rounds counts. The theorems show that these are enough. A uint32_t is a
-- natural with its wrap-around written out. An int is a natural: memory requirements are
-- non-negative, and counts stay far below 2 ^ 31. The average that print_statistics converts to an
-- int may not fit, which is a fault; an overhead over a service time of 0 is printed as no number.
-- A process whose name getopt_long takes for an option does not start, which is a fault as well.
--
-- Not modelled: getopt and fopen (parameters of main), negative numbers in the input, the frees at
-- the end of main, and the operating system but for a table of children; fork, pipe, kill, read and
-- write succeed, and a signal runs the handler of the child at once.
pub mod Base
pub mod ProcessData
pub mod MinHeap
pub mod NodeList
pub mod Loading
pub mod LinkedList
pub mod MemoryAllocation
pub mod ReadyQueue
pub mod ChildProcess
pub mod Scheduler
pub mod Program
pub mod Cleanup
