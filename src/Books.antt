-- ===== src/Books.antt =====
-- src/bin/books/advanced_data_structures: the programs of a book on data structures.
pub mod SearchTree
pub mod HeightBalanced
pub mod WeightBalanced
pub mod RedBlack
pub mod SplayTree
pub mod Container
pub mod NodePool
pub mod TrivialTree
pub mod LeftistHeap
pub mod SkewHeap
mod Examples
