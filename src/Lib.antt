-- ===== src/Lib.antt =====
-- Models of C_lang_project: of the containers of src/libs/data_structs, the parts of src/libs/lang
-- they stand on, the search of src/libs/algorithms, the tiny C compiler of
-- src/bin/paradigms/tiny_c/tinyc.c, and search trees,
-- heaps, stacks and a queue of src/bin/books/advanced_data_structures.
--
-- The containers are given their node memory by NEW and FREE of src/libs/lang/memory.h, and report
-- errors by exceptions (Require and Ensure of src/libs/lang/assert.h, the memory functions) or by a
-- Boolean. A list is a pointer to a chain of nodes; list_stack.c is built on list.c; queue.c has
-- nodes of its own; array_stack.c and heap.c keep an array that grows by realloc. In tinyc.c the
-- parser builds a tree, the generator writes byte code into `object`, and the machine runs it.
--
-- Which file models which part:
--   * Common, Common/Tests, Common/Lists, Common/Int: shared names, Boolean tests, lists and
--     signed integers over the native numbers.
--   * Lang/Memory, Lang/Returns: the heap of nodes, pointers, NEW and FREE, the assertions, and
--     total correctness of a run. Lang/Result, Lang/Array, Lang/Array/Access: results and array
--     access of code that needs no heap of nodes.
--   * DataStructs/ListRep and its Chain, Apart: list_rep.h, list_rep.c, and chains of nodes.
--   * DataStructs/List and its Insert, Delete, Walk: list.c. DataStructs/ListStack and its Lifo:
--     list_stack.c. DataStructs/Queue and its Fifo, Loops: queue.c. DataStructs/ArrayStack and its
--     Lifo: array_stack.c. DataStructs/Heap and its Order, Up, Down, Insert, Delete: heap.c.
--     DataStructs/BinaryTree and its Orders: binary_tree.c. DataStructs/CircList and its Ring:
--     circ_list.c. DataStructs/DoubleList and its Links, Change, Splice, Walk: double_list.c, whose
--     nodes are linked both ways.
--   * TinyC/Lexer and its Progress, TinyC/Parser and its Total, Statements: `next_sym` and the
--     recursive descent of tinyc.c, on a list of characters. TinyC/Outcome: how they can end.
--   * TinyC/Syntax, TinyC/Code, TinyC/Vm: the tree, the generator `c` and the machine `run` of
--     tinyc.c, with what `main` does of them. TinyC/Emit and its Jumps, Program: the code of a
--     node by itself, and that the generator writes it. TinyC/Meaning: what expressions and
--     statements mean. TinyC/Vm/Steps, TinyC/Correct and its Jumps, Branches, Program: that
--     generated code does it.
--   * Algorithms and its Extremes: src/libs/algorithms/minmax.c.
--   * Books/SearchTree and its Paths, Split, Regroup: what the search trees of the book share, ways
--     into them, a new key at a leaf, and rotations. Books/WeightBalanced and its Balance, Rebuild,
--     Bounds, Insert, Delete: ch3/w_bl_tree.c. Books/HeightBalanced and its Balance, Rebuild,
--     Bounds, Insert, Delete: ch3/h_bl_tree.c. Books/TrivialTree and its Operations, Remove, Interval:
--     ch2/triv_tree.c. Books/NodePool and its Counts: the nodes of triv_tree.c.
--     Books/RedBlack and its Remove, Keys, InsertKeys, DeleteKeys, Colors, InsertColors, Bounds,
--     Insert, Shrink, Delete: ch3/rb_tree.c; Books/SearchTree/Drop: a leaf leaves a search tree.
--     Books/LeftistHeap and its Invariant, Lift, Insert, Settle, Merge, DeleteMin, Remove:
--     ch5/left_heap.c. Books/SkewHeap and its Laws: ch5/skew_heap.c.
--     Books/SplayTree and its Keys, Descend, Find, Insert, Outside, Delete: ch3/spla_tree.c.
--   * Books/Container and its Client, Items: what the stacks and queues of ch1 share, as a record
--     of operations and laws, and a caller of it. Its Fixed: ch1/ar_stack.c. Circular and its Wrap:
--     ch1/ar_queue.c. Blocks: ch1/bl_stack.c. Shadow and its Copy, Laws: ch1/shd_stack.c. Runs: the
--     caller with each of them.
--   * DataStructs/Examples, Algorithms/Examples, TinyC/Examples and Books/Examples: the theorems at
--     concrete inputs.
--
-- A C function has the same name without its prefix: List_delete_node is `delete_node` of
-- DataStructs/List, __siftup is `siftup` of DataStructs/Heap. An operation that changes the object
-- behind a pointer takes the object and returns the new one; one that returns `false` for "nothing
-- there" returns `none`.
--
-- malloc and realloc are not part of the repository: their answers are arguments (`fresh` or
-- `block`, and `more`, which is what lies in the cells that realloc adds), and the theorems ask of
-- them that the new address is not null and not in use, or that the block has the size asked for.
-- The trees of the book are values, since no node is shared; a key is its place among the ints.
-- The answers of get_node are an argument of the models of h_bl_tree.c, w_bl_tree.c,
-- rb_tree.c, left_heap.c and skew_heap.c, and of insert of spla_tree.c, which leave the pool and
-- with it return_node and the counts of calls out; they come from the modelled pool in that of
-- triv_tree.c and in find of spla_tree.c, where a NULL that is written to, and a count of calls
-- beyond INT_MAX, is undefined. The stacks of 100 and 200 nodes are those of the source, and
-- what the theorems ask for keeps them from overflowing.
-- The comparisons of w_bl_tree.c with multiples of 0.288 and 0.293 are parameters: the theorems ask
-- that they be exact, or on a tie either way, which holds of double precision and int weights.
-- Callbacks are functions on a state of their own, and leave the nodes alone. Assertions are on,
-- as in a build without NDEBUG; logging, the file and line of an exception, and the bookkeeping of
-- memory-dev.c are left out.
--
-- Runs of the parser need fuel above the length of the text. Walks along nodes run on fuel: one
-- unit for each node and one more, so that the theorems ask for fuel above the length of the
-- list. The machine runs on fuel for each round, and its theorem gives the fuel. __siftup needs
-- fuel above its index, __siftdown fuel such that index and fuel exceed the number of data.
-- remove_tree and interval_find of triv_tree.c need two rounds for each leaf, remove_heap of
-- left_heap.c two for each node and one more; the other walks of the book follow the tree.
-- `size` of array_stack.c wraps at 2 ^ 32, that of heap.c at 2 ^ 64; the weights of w_bl_tree.c,
-- the sums of indices of ar_queue.c and the counts of calls of the pool are undefined beyond
-- INT_MAX; other sizes and counters count memory that exists, and do not wrap. `object` has 1000
-- cells of a signed `char`, and the machine's stack 1000 cells of an `int` of 32 bits.
--
-- Not modelled: what the programs print; CircList_nth; sparse_matrix.c and graph_adj_list.c;
-- arena.c, atom.c, except.c, log.c and memory-dev.c; the other programs of src/bin/books; the
-- other paradigms; the operating systems under src/bin/OS; the copy of protothreads under
-- src/ext-libs; tests.
pub mod Common
pub mod Lang
pub mod DataStructs
pub mod Algorithms
pub mod Books
pub mod TinyC
