-- ===== src/Lib.antt =====
-- graph_benchmark: compressed sparse rows, breadth-first search and PageRank on many threads.
--
-- The program reads an edge list, builds a graph of compressed rows (`create_graph`), and runs a kernel
-- on it (`bfs_hub`, `pr_hub`) with the `parallel_for` of oneTBB. The loader counts degrees, sums them
-- into offsets and fills the rows; the kernels read the rows and share property arrays; the push search
-- collects the nodes that each thread found in buffers, and moves those to the next frontier.
--
-- Parts, with the paths of the sources in the repository:
--   Base        Booleans on numbers, arrays as lists (`get_or` reads and `set` writes a cell; out of
--               range a read gives a default and a write is lost), orders of indices, machine words,
--               options.
--   Parallel    `parallel_for`: a loop body is a state machine over shared memory, a schedule says which
--               task moves next. Parallel/Rule has the proof rule for invariants, Parallel/Commute the one
--               for tasks whose steps commute, Parallel/Owner the one for tasks with cells of their own.
--   Graph       include/config.h: `edge_t` (Edge) and `Graph`.
--   File        the binary files of edges, as src/loader.cpp and reorder.cpp read them with `read`, and as
--               reorder.cpp writes them.
--   Loader      src/loader.cpp: `count_degree` and its two ways to count, `sum_degree`, `create_edges`,
--               the part of `create_graph` behind the reading of the file (build_graph), `create_graph`
--               (Loader/Input) and `write_to_file` (Loader/Output).
--   Buffer      include/config.h and src/config.cpp: `thread_buffer` and its operations.
--   Bfs         src/bfs.cpp: `bfs_push` (Bfs/Push), `bfs_pull` (Bfs/Pull), `bfs_pushpull` (Bfs/PushPull) and
--               the choice between them, `bfs_hub` (Bfs/Hub), and the reachability that they are to compute.
--               Bfs/Loaded, Bfs/LoadedPull and Bfs/Hub/Loaded put the loader and the searches together.
--   Pagerank    src/pagerank.cpp: `pr_hub` and `pr_push`, with `atomicAdd` of include/util.h.
--   Chasing     pointer_chasing/pointer_chasing.h: `create_random`, `read_chase`, `cas_chase_fail` and
--               `cas_hub`, and pointer_chasing/main.cpp (Chasing/Program). It is a tool of its own;
--               `std::random_shuffle` is a parameter that permutes its argument.
--   Reorder     reorder.cpp: the loop that fills `mapping` (assign_numbers) and the parallel loop that renames
--               the edges (relabel); the degrees, the order and the whole `sort_by_degree` (Reorder/Sort),
--               with `std::sort` as a parameter that sorts; `main` (Reorder/Program).
--   Pebs        src/pebs.cpp: the performance events that are opened, and the thread that collects samples,
--               its start and its end.
--   Program     main.cpp: the options, and from the file to the result of `bfs_hub`.
--   Bandwidth   bw/bw.h, bw/bw.cpp and bw/main.cpp, a tool of its own: the buffer and its parts (Bandwidth),
--               the access loops and what starts the threads (Access), the barrier as a step relation
--               (Barrier), the first start and the last stop (Times), the options and the run (Program).
--               Places, Bounds, Sequential, Parts and Random have the proofs on where the accesses go.
--   Tests       runs on a small input, and the theorems at that input.
--
-- Modelling:
--   - `NB_NODES`, `NB_EDGES` and `THREADS`, globals of the program, are arguments, or the length of the
--     list of edges.
--   - Words keep their size: offsets are taken modulo 2^64, nodes and ranks modulo 2^32.
--   - `malloc` leaves memory as it is, so the cells of a new array are an argument. `count_degree`
--     increments such cells without clearing them, and `bfs_pull` reads its frontier without clearing it:
--     their theorems are for cells that hold 0 or false.
--   - One index of a parallel range is one task, and one access to shared memory is one step; every
--     schedule is allowed, and what the schedule leaves is run to its end. A statement that touches only
--     cells of its own index is one step. This covers every way oneTBB may cut the range. Memory is
--     sequentially consistent.
--   - In the push search, where the runs on a thread share its buffer, a task is a thread with the indices
--     that it is given, whose runs follow one after the other; every division of the range is allowed. A
--     push to a buffer is two steps, the write of the cell and `next++`. That threads which run at once
--     differ in `gettid()%THREADS` is a hypothesis (`IsSound`): the program does not see to it.
--   - A task gets a budget of steps in which it ends when nothing else moves: four for an edge in the
--     push search, one in the pull search, two in PageRank. With that budget
--     each task reaches its end, since no other task moves. In the push phase of `bfs_pushpull` it is two
--     for an edge and three.
--   - The loop of a search has `NB_NODES + 1` rounds of fuel. Each round but the last visits a node,
--     so that the fuel is enough; running out of it is an outcome of its own. The push phase of
--     `bfs_pushpull` has `NB_NODES + 2` rounds: the nodes of the frontier and the unvisited ones, together
--     at most `NB_NODES + 1` at the start, get fewer by at least one in a round.
--   - A `concurrent_vector` is the list of its elements, and its `push_back` one step. A `combinable` is the
--     sum of what the threads have added.
--   - In the bandwidth tool an address is its distance from the start of the buffer, and an access outside
--     of the buffer is `none`. The calls of the operating system and of pthreads are parameters: whether
--     they succeed, what `atol` and `atoi` read, which times the threads take. A thread in
--     `pthread_cond_wait` stays there until a broadcast. The access loop of a thread is a function of
--     the buffer, so that the threads' loops run one after the other.
--   - `assert` and `die` are the result `none`.
--   - `read` gives at least one byte while some are left, no more than it is asked for, and does not fail;
--     in how many pieces the file comes is left open. The loop over it has one round of fuel for a byte and
--     one more. Words in files have their lowest byte first.
--   - The ring of a performance event is a list of words of eight bytes. The kernel's answers are parameters.
--   - A run of main.cpp with a negative number of threads, which it does not reject, is not followed.
--   - `bfs_hub` starts and joins the collecting thread, which can fail. The thread shares no variable with
--     the search, so that the two are not interleaved.
--
-- Not modelled: messages on the terminal, timing, the arena and thread pinning, and the builds for
-- persistent memory.
pub mod Base
pub mod Parallel
pub mod Graph
pub mod Loader
pub mod File
pub mod Buffer
pub mod Bfs
pub mod Pagerank
pub mod Chasing
pub mod Reorder
pub mod Bandwidth
pub mod Pebs
pub mod Program
pub mod Tests
