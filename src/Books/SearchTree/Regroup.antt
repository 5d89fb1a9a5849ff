-- ===== src/Books/SearchTree/Regroup.antt =====
-- What rotations do to the tests on the way down.
use c_lang_project.DataStructs.ListRep.{Object}
use c_lang_project.Common.{◌<◌, arith, if◌then◌else◌, ltb, ℕ, ◌≡◌}

-- Tests of keys in another order.
module _ (q : ℕ) (x y z : Object) where
  pub regroup :
      (k k' : ℕ)
      → k < k'
      → (if ltb q k then x else (if ltb q k' then y else z))
        ≡ (if ltb q k' then (if ltb q k then x else y) else z)
  regroup k k' h = ground arith

  pub regroup_inner_left :
      (w : Object) (k m k' : ℕ)
      → k < m
      → m < k'
      → (if ltb q m then (if ltb q k then w else x) else (if ltb q k' then y else z))
        ≡ (if ltb q k' then (if ltb q k then w else (if ltb q m then x else y)) else z)
  regroup_inner_left w k m k' h i = ground arith

  pub regroup_inner_right :
      (w : Object) (k m k' : ℕ)
      → k < m
      → m < k'
      → (if ltb q m then (if ltb q k then w else x) else (if ltb q k' then y else z))
        ≡ (if ltb q k then w else (if ltb q k' then (if ltb q m then x else y) else z))
  regroup_inner_right w k m k' h i = ground arith
