-- ===== src/Start/Nested.antt =====
-- The threads of a process that attach and leave while others stay (src/arch/shm/impl.c).
use arax_g_rpc.Prelude.{
  ℕ, ◌+◌, ◌-◌, ◌%◌, ◌^◌, ◌<◌, ◌≡◌, ◌≢◌, refl, ap, ◌∙◌, Bool, true, false, List, [], ◌∷◌, ◌==◌,
  if_true, if_false, arith,
}
use arax_g_rpc.Prelude.Outcome.{Outcome, ok, ◌>>=◌}
use arax_g_rpc.Config.{File}
use arax_g_rpc.Start.{Kernel, Process, Segment, Attached, exited, running, good, init, exit}

-- `_arax_init` and `arax_exit`
pub data Call : Type 0 where
  enter : (wait_controller : Bool) → Call
  leave : Call

unfoldable pub call : Kernel → File → Call → Process → Segment → Outcome Attached
unfolding init exit
call k file (enter wait_controller) p s = init k file wait_controller p s
call k file leave p s = do r ← exit k p s; ok r.0

unfoldable pub then_run : (Process → Segment → Outcome Attached) → Attached → Outcome Attached
then_run f exited = ok exited
then_run f (running p s) = f p s

-- The calls of the threads of one process, one after the other.
unfoldable pub run : Kernel → File → List Call → Process → Segment → Outcome Attached
unfolding call then_run
run k file [] p s = ok (running p s)
run k file (c ∷ cs) p s = do a ← call k file c p s; then_run (λ p' s'. run k file cs p' s') a

-- How many threads are attached after the calls.
unfoldable pub after : ℕ → List Call → ℕ
after n [] = n
after n (enter w ∷ cs) = after (n + 1) cs
after n (leave ∷ cs) = after (n - 1) cs

-- At every time at least one thread stays, and they can be counted.
unfoldable pub Stay : ℕ → List Call → Type 0
Stay n [] = Unit {0}
Stay n (enter w ∷ cs) = (n + 1 < 2 ^ 64) × Stay (n + 1) cs
Stay n (leave ∷ cs) = (1 < n) × Stay (n - 1) cs

good-ready :
    (w : Bool) (p : Process) (s : Segment) → s.cntrl_ready ≡ true → good w p s ≡ ok (running p s)
unfolding good
good-ready true p s c = rw c refl
good-ready false p s c = refl

pub enter-attached :
    (k : Kernel) (file : File) (w : Bool) (p : Process) (s : Segment)
    → p.initialized ≡ true
    → s.cntrl_ready ≡ true
    → 0 < p.threads
    → p.threads + 1 < 2 ^ 64
    → init k file w p s ≡ ok (running (record p { threads = p.threads + 1 }) s)
unfolding init
enter-attached k file w p s i c pos small =
    let z : (p.threads == 0) ≡ false = ground (arith, pos) in
    if_false _ _ z
    ∙ if_true _ _ i
    ∙ good-ready w (record p { threads = (p.threads + 1) % 2 ^ 64 }) s c
    ∙ ap (λ n. ok (running (record p { threads = n }) s)) (omega (arith, small))

leave-attached :
    (k : Kernel) (p : Process) (s : Segment)
    → p.vpipe ≢ 0
    → 1 < p.threads
    → p.threads < 2 ^ 64
    → exit k p s ≡ ok (running (record p { threads = p.threads - 1 }) s, false)
unfolding exit
leave-attached k p s v more small =
    let z : (p.vpipe == 0) ≡ false = ground (arith, v) in
    let o : (p.threads == 1) ≡ false = ground (arith, more) in
    if_false _ _ z
    ∙ if_false _ _ o
    ∙ ap (λ n. ok (running (record p { threads = n }) s, false)) (omega (arith, small, more))

-- While a process is attached and the controller is ready, the calls of its threads, as long as one of
-- them stays, do nothing but count: the segment, its address and all else of the process are as before.
pub run_nested :
    (k : Kernel) (file : File) (cs : List Call) (p : Process) (s : Segment)
    → p.initialized ≡ true
    → p.vpipe ≢ 0
    → s.cntrl_ready ≡ true
    → 0 < p.threads
    → p.threads < 2 ^ 64
    → Stay p.threads cs
    → run k file cs p s ≡ ok (running (record p { threads = after p.threads cs }) s)
unfolding run after Stay
run_nested k file [] p s i v c pos small st = refl
run_nested k file (enter w ∷ cs) p s i v c pos small st =
    ap (λ m. do a ← m; then_run (λ p' s'. run k file cs p' s') a)
      (enter-attached k file w p s i c pos st.0)
    ∙ run_nested k file cs (record p { threads = p.threads + 1 }) s i v c (omega arith) st.0 st.1
run_nested k file (leave ∷ cs) p s i v c pos small st =
    ap (λ m. do a ← (do r ← m; ok r.0); then_run (λ p' s'. run k file cs p' s') a)
      (leave-attached k p s v st.0 small)
    ∙ run_nested k file cs (record p { threads = p.threads - 1 }) s i v c (omega (arith, st.0))
        (omega (arith, small)) st.1
