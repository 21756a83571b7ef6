-- ===== src/Spin/Completion.antt =====
-- `async_completion_s` of src/async/spin/async.c: a word that is 1 while it is completed.
use arax_g_rpc.Prelude.{ℕ, ◌==◌, if◌then◌else◌}
use arax_g_rpc.Prelude.Outcome.{Outcome, ok, blocked}

unfoldable pub init : ℕ
init = 0

-- From 0 to 1, or as it is.
unfoldable pub complete : ℕ → ℕ
complete completed = if completed == 0 then 1 else completed

-- From 1 to 0.
unfoldable pub wait : ℕ → Outcome ℕ
wait completed = if completed == 1 then ok 0 else blocked

unfoldable pub check : ℕ → ℕ
check completed = completed
