-- ===== src/Alloc/Choice/Laws.antt =====
-- Whatever `famfs_file_alloc` returns: the pages in a map were free, and are taken now.
use famfs.Prelude.{ℕ, ◌≡◌, inl, inr, Bool, true, some, Bool-cases}
use famfs.Alloc.Param.{alloc_is_interleaved}
use famfs.Alloc.File.{LockedLog}
use famfs.Alloc.Strided.{StridedResult}
use famfs.Alloc.Strided.Sound.{Sound}
use famfs.Alloc.Strided.Calls.{IsAskable, IsStripable, strided-Sound, contiguous_call-Sound}
use famfs.Alloc.Choice.{choose_alloc}

pub choose_alloc-Sound :
    (mock_stripe : Bool) (rand : ℕ → ℕ) (lp : LockedLog) (size : ℕ) (lp' : LockedLog)
    (r : StridedResult)
    → IsAskable lp size
    → ((alloc_is_interleaved lp.interleave_param ≡ true) → IsStripable lp size)
    → choose_alloc mock_stripe rand lp size ≡ some (lp', r)
    → Sound lp lp' r
unfolding choose_alloc
choose_alloc-Sound mock_stripe rand lp size lp' r h st e =
    elim (Bool-cases (alloc_is_interleaved lp.interleave_param)) [
      | inl inter ↦ strided-Sound mock_stripe rand lp lp' size r h (st inter) inter (rw inter at e)
      | inr plain ↦ contiguous_call-Sound lp lp' size r h (rw plain at e)
    ]
