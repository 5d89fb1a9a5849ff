-- ===== src/DataStructs/Examples/Queues.antt =====
-- The theorems on queue.c, at two linked nodes.

use c_lang_project.DataStructs.Examples.{two, two-IsList, two_cells, unused}
use c_lang_project.Common.{[], arith, refl, ◌∷◌}
use c_lang_project.Lang.Returns.{Returns}
use c_lang_project.DataStructs.Queue.{Queue, add, remove}
use c_lang_project.DataStructs.Queue.Fifo.{Added, IsQueue, Removed, add-snoc, remove-cons}
use c_lang_project.DataStructs.Queue

abbrev queue : Queue
queue = record { front = 1; rear = 2 }

queue-IsQueue : IsQueue two queue two_cells
queue-IsQueue = record { items = two-IsList; back = refl }

add-snoc_example : Returns (Added two 3 30 two_cells) (Queue.add 3 queue 30 two)
add-snoc_example = add-snoc two 3 queue 30 two_cells queue-IsQueue (ground arith) unused

remove-cons_example : Returns (Removed two (1, 10) ((2, 20) ∷ [])) (Queue.remove queue two)
remove-cons_example = remove-cons two queue 1 10 ((2, 20) ∷ []) queue-IsQueue
