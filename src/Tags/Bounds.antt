-- ===== src/Tags/Bounds.antt =====
-- The tags stay within MPI_TAG_UB, and NBX_cnt within its cycle.
use openfpm_vcluster.Prelude.{ℕ, ◌+◌, ◌%◌, ◌<◌, ◌≡◌, some, arith}
use openfpm_vcluster.Tags.{next_cnt}

-- After a step of the counter it is below the cycle, and the step is undefined only for cycle 0.
pub next_cnt_lem : (cycle cnt : ℕ) → 0 < cycle → next_cnt cycle cnt ≡ some ((cnt + 1) % cycle)
unfolding next_cnt
next_cnt_lem cycle cnt h = ground arith

pub next_cnt_lt : (cycle cnt : ℕ) → 0 < cycle → (cnt + 1) % cycle < cycle
next_cnt_lt cycle cnt h = grind arith
