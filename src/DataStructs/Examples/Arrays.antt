-- ===== src/DataStructs/Examples/Arrays.antt =====
-- The theorems on array_stack.c and heap.c, at small arrays.

use c_lang_project.DataStructs.Heap.Up.{UpInv}
use c_lang_project.DataStructs.Heap.Down.{DownInv}
use c_lang_project.Common.Int.{sub_ℕ, ℤ}
use c_lang_project.DataStructs.Heap.Delete.{delete-IsValid, delete-breaks, Deleted}
use c_lang_project.Lang.Array.{at}
use c_lang_project.DataStructs.ArrayStack.{Stack, destroy, free_data, peel, pop, push}
use c_lang_project.DataStructs.ListRep.{Object}
use c_lang_project.DataStructs.ArrayStack.Lifo.{
  IsStack, destroy-fold, peel-cons_array, pop-push_array,
}
use c_lang_project.DataStructs.Heap.Order.{IsHeap, IsOrder, Le}
use c_lang_project.DataStructs.Heap.{Heap, delete, insert, parent, siftdown, siftup}
use c_lang_project.Lang.Result.{◌>>=◌, Ends}
use c_lang_project.DataStructs.Heap.Insert.{CanGrow, Inserted, IsValid, holds, insert-Inserted}
use c_lang_project.Common.{
  ◌<◌, List, [], ap, arith, inl, inr, length, refl, some, suc, zero, ℕ, ◌∷◌, ◌≡◌,
}
use c_lang_project.DataStructs.ArrayStack
use c_lang_project.DataStructs.Heap

-- `n` cells of a new block.
abbrev cells : ℕ → List Object
cells zero = []
cells (suc n) = 0 ∷ cells n

length-cells : (n : ℕ) → length (cells n) ≡ n
length-cells zero = refl
length-cells (suc n) = ap suc (length-cells n)

abbrev stack : Stack
stack = record { storage = 10 ∷ 20 ∷ []; top = 2; size = 2 }

stack-IsStack : IsStack stack (20 ∷ 10 ∷ [])
stack-IsStack = record {
  whole = refl;
  fits = omega arith;
  counted = refl;
  holds = (refl, (refl, tt));
}

stack-CanGrow : ArrayStack.Lifo.CanGrow stack (cells 100)
stack-CanGrow = record { added = length-cells 100; small = omega arith }

pop-push_array_example :
    Ends
      (λ (out, st). (out ≡ some 30) × IsStack st (20 ∷ 10 ∷ []))
      (ArrayStack.push (some (cells 100)) stack 30 >>= ArrayStack.pop)
pop-push_array_example =
    pop-push_array (cells 100) stack 30 (20 ∷ 10 ∷ []) stack-IsStack stack-CanGrow

-- The order of the numbers.
abbrev cmp : Object → Object → ℤ
cmp x y = sub_ℕ x y

cmp-IsOrder : IsOrder cmp
cmp-IsOrder = record {
  flip = λ x y. ground arith;
  asym = λ x y h. ground arith;
  trans = λ x y z h k. ground arith;
}

abbrev heap : Heap
heap = record { storage = 1 ∷ 10 ∷ 2 ∷ 20 ∷ 11 ∷ 3 ∷ []; next = 6; size = 6 }

le-six : (c : ℕ) → 0 < c → c < 6 → Le cmp (at heap.storage (parent c)) (at heap.storage c)
unfolding at
le-six zero p q = absurd (omega arith)
le-six (suc zero) p q = refl
le-six (suc (suc zero)) p q = refl
le-six (suc (suc (suc zero))) p q = refl
le-six (suc (suc (suc (suc zero)))) p q = refl
le-six (suc (suc (suc (suc (suc zero))))) p q = refl
le-six (suc (suc (suc (suc (suc (suc c)))))) p q = absurd (omega arith)

heap-IsValid : IsValid cmp heap
heap-IsValid = record { whole = refl; fits = omega arith; heap = le-six }

heap-CanGrow : Heap.Insert.CanGrow heap (cells 128)
heap-CanGrow = record { added = length-cells 128; small = omega arith }

insert-Inserted_example :
    Ends (Inserted cmp cmp-IsOrder 5 heap) (Heap.insert (some (cells 128)) heap 5 cmp)
insert-Inserted_example =
    insert-Inserted cmp cmp-IsOrder (cells 128) heap 5 heap-IsValid heap-CanGrow

delete-IsValid_example :
    Ends
      (λ r. Heap.Delete.Deleted cmp cmp-IsOrder heap 0 r × IsValid cmp r.1)
      (Heap.delete heap 0 cmp)
delete-IsValid_example =
    delete-IsValid cmp cmp-IsOrder heap 0 heap-IsValid (omega arith) (inr (inl refl))

delete-breaks_example :
    Ends
      (λ r. Heap.Delete.Deleted cmp cmp-IsOrder heap 3 r × ¬ IsHeap cmp r.1.storage r.1.next)
      (Heap.delete heap 3 cmp)
unfolding at
delete-breaks_example =
    delete-breaks cmp cmp-IsOrder heap 3 heap-IsValid (omega arith) (omega arith) refl

up-UpInv : UpInv cmp cmp-IsOrder 2 (5 ∷ 3 ∷ []) 1
up-UpInv = record {
  inside = omega arith;
  room = omega arith;
  edges = λ c p q r. absurd (omega arith);
  bridged = λ c p q e z. absurd (omega arith);
}

down-DownInv : DownInv cmp cmp-IsOrder 0 3 (9 ∷ 5 ∷ 3 ∷ []) 0
down-DownInv = record {
  inside = omega arith;
  room = omega arith;
  edges = λ c p q u r. absurd (omega arith);
  bridged = λ c p q e z u. absurd (omega arith);
}
