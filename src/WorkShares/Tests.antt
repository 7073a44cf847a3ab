-- ===== src/WorkShares/Tests.antt =====
-- A team with one work share to allocate from, 1, and three freed ones, 2, 3 and 4.
use ulmt_open_mp_gcc.Base.{◌≡◌, refl, arith, none, some, [], ◌∷◌, update}
use ulmt_open_mp_gcc.WorkShares.{ShareLinks, Shares, alloc_work_share, free_work_share}
use ulmt_open_mp_gcc.WorkShares.Lists.{
  HasShares, Allocated, alloc_work_share-Allocated, free_work_share-HasShares,
}

abbrev links : ShareLinks
links = record {
  next_free = update (update (λ a. none) 2 (some 3)) 3 (some 4);
  next_alloc = λ a. none;
}

abbrev team : Shares
team = record {
  work_share_list_alloc = some 1;
  work_share_list_free = some 2;
  work_share_chunk = 8;
  work_shares = 0;
}

abbrev used_up : Shares
used_up = record team { work_share_list_alloc = none }

team-HasShares : HasShares links team (1 ∷ []) (2 ∷ 3 ∷ 4 ∷ [])
team-HasShares = ground arith

used_up-HasShares : HasShares links used_up [] (2 ∷ 3 ∷ 4 ∷ [])
used_up-HasShares = ground arith

-- With nothing left, a chunk of 16 work shares of size 10 at 100 is made.
chunk_made :
    (alloc_work_share
        (record { next_free = λ a. none; next_alloc = λ a. none })
        (record used_up { work_share_list_free = none })
        100
        10).1.0.next_free
      240
    ≡ some 250
unfolding alloc_work_share ulmt_open_mp_gcc.WorkShares.alloc_chunk
chunk_made = refl

alloc_work_share-Allocated_example :
    Allocated (alloc_work_share links used_up 100 10) (3, 4 ∷ [], 2 ∷ [])
alloc_work_share-Allocated_example =
    alloc_work_share-Allocated links used_up [] (2 ∷ 3 ∷ 4 ∷ []) 100 10 (omega arith) (ground arith)
      used_up-HasShares

five_freed :
    let (m, t) = free_work_share links team (none ∷ []) 5 in
    HasShares m t (1 ∷ []) (5 ∷ 2 ∷ 3 ∷ 4 ∷ [])
five_freed =
    free_work_share-HasShares links team (1 ∷ []) (2 ∷ 3 ∷ 4 ∷ []) (none ∷ []) 5 (ground arith)
      team-HasShares
