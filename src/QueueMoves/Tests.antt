-- ===== src/QueueMoves/Tests.antt =====
-- The moves on a small queue.
use ulmt_open_mp_gcc.Base.{Gives, false}
use ulmt_open_mp_gcc.PriorityList.{team_untied}
use ulmt_open_mp_gcc.PriorityQueue.Sample.{numbered, rings, oaks, oaks-HpOk, found_seven}
use ulmt_open_mp_gcc.PriorityQueue.Reads.{HpOk}
use ulmt_open_mp_gcc.QueueMoves.{block_task, unblock_task, adjust_task, downgrade_task}
use ulmt_open_mp_gcc.QueueMoves.HpOk.{moves-HpOk}

moves-HpOk_example :
    Gives (block_task numbered team_untied rings oaks 7) (λ s. HpOk s.1)
    × Gives (unblock_task numbered team_untied 0 false rings oaks 7) (λ s. HpOk s.1)
    × Gives (adjust_task numbered team_untied 0 false rings oaks 7 false) (λ s. HpOk s.1)
    × Gives (downgrade_task numbered rings oaks 7) (λ s. HpOk s.1)
moves-HpOk_example =
    moves-HpOk numbered oaks 7 rings oaks-HpOk team_untied 0 false false (λ e. (7, found_seven))
