-- ===== src/Queue/Spec.antt =====
-- What src/utils/queue.c promises: a first-in first-out queue of at most `cap` pointers.
use arax_g_rpc.Prelude.{ℕ, List, [], ◌∷◌, ◌++◌, not, ◌==◌, if◌then◌else◌, length}
use arax_g_rpc.Prelude.Outcome.{Outcome, ok, ◌>>=◌, ◌>>◌, arax_assert}

abbrev pub Fifo : Type 0
Fifo = List ℕ

unfoldable pub pop : Fifo → ℕ × Fifo
pop [] = (0, [])
pop (x ∷ q) = (x, q)

unfoldable pub push : ℕ → Fifo → ℕ → Outcome (ℕ × Fifo)
push cap q x = do
  arax_assert (not (x == 0))
  if length q == cap then ok (0, q) else ok (x, q ++ (x ∷ []))

unfoldable pub peek : Fifo → ℕ
peek [] = 0
peek (x ∷ q) = x

-- A call of the queue's users.
pub data Call : Type 0 where
  put : ℕ → Call
  get : Call
  look : Call

-- The pointers that a sequence of calls returns.
unfoldable pub run : ℕ → Fifo → List Call → Outcome (List ℕ)
run cap q [] = ok []
run cap q (put x ∷ cs) = do (r, q') ← push cap q x; rs ← run cap q' cs; ok (r ∷ rs)
run cap q (get ∷ cs) = let (r, q') = pop q in do rs ← run cap q' cs; ok (r ∷ rs)
run cap q (look ∷ cs) = do rs ← run cap q cs; ok (peek q ∷ rs)
