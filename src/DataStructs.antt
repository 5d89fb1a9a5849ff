-- ===== src/DataStructs.antt =====
-- src/libs/data_structs: the containers of the library.
pub mod ListRep
pub mod List
pub mod ListStack
pub mod Queue
pub mod ArrayStack
pub mod Heap
pub mod Examples
pub mod BinaryTree
pub mod CircList
pub mod DoubleList
