-- ===== src/Start/Undo.antt =====
-- The last thread of a process that leaves the segment (src/arch/shm/impl.c).
use arax_g_rpc.Prelude.{
  ℕ, ◌+◌, ◌-◌, ◌%◌, ◌^◌, ◌<◌, ◌≡◌, ◌≢◌, refl, ap, sym, ◌∙◌, Bool, true, false, ◌==◌, ltb, if_true,
  if_false, if◌then◌else◌, length, set, arith,
}
use arax_g_rpc.Prelude.Outcome.{ok, ◌>>=◌, ◌>>◌, arax_assert}
use arax_g_rpc.Config.{File}
use arax_g_rpc.ProcMap.{Pipe, index_of, move_at, mark_unmap}
use arax_g_rpc.ProcMap.Mapped.{count}
use arax_g_rpc.Start.{Kernel, Process, Segment, running, init, pipe_exit, exit}
use arax_g_rpc.Start.Once.{init-Attaches}

mark_unmap-ok :
    (pipe : Pipe) (pid : ℕ)
    → pid ≢ 0
    → index_of pid pipe.proc_map < length pipe.proc_map
    → (pipe' : Pipe) × (mark_unmap pipe pid ≡ ok pipe') × (pipe'.processes ≡ pipe.processes)
unfolding mark_unmap
mark_unmap-ok pipe pid nz listed =
    let z : (pid == 0) ≡ false = ground (arith, nz) in
    let l : ltb (index_of pid pipe.proc_map) (length pipe.proc_map) ≡ true =
      ground (arith, listed) in
    let xs = pipe.proc_map in
    let c = index_of pid xs in
    (
      record pipe { proc_map = set (move_at c (length xs - (c + 1)) xs) (length xs - 1) 0 },
      rw (z, l) refl,
      refl,
    )

assert_balanced :
    (last : Bool) (a b : ℕ) → a ≡ b → arax_assert (if last then a == b else true) ≡ ok tt
assert_balanced true a b e = ap arax_assert {x = a == b} {y = true} (ground (arith, e))
assert_balanced false a b e = refl

same_test : (n m : ℕ) → n ≡ m + 1 → (n == 1) ≡ (m == 0)
same_test n m e = ground (arith, e)

-- `arax_exit` of the last thread.
exit-last :
    (k : Kernel) (p : Process) (s : Segment)
    → p.vpipe ≢ 0
    → p.threads ≡ 1
    → p.available ≡ s.throttle.available
    → k.process_id ≢ 0
    → index_of k.process_id (s.pipe).proc_map < length (s.pipe).proc_map
    → (p' : Process) × (s' : Segment) × (exit k p s ≡ ok (running p' s', (s.pipe).processes == 1))
      × (p'.vpipe ≡ 0)
      × (p'.threads ≡ 0)
      × ((s'.pipe).processes ≡ ((s.pipe).processes + 2 ^ 64 - 1) % 2 ^ 64)
unfolding exit pipe_exit
exit-last k p s mapped one same pid listed =
    let d : Pipe = record s.pipe { processes = ((s.pipe).processes + 2 ^ 64 - 1) % 2 ^ 64 } in
    let m = mark_unmap-ok d k.process_id pid listed in
    let last = (s.pipe).processes == 1 in
    let left : Process = record p { threads = (p.threads + 2 ^ 64 - 1) % 2 ^ 64; vpipe = 0 } in
    let z : (p.vpipe == 0) ≡ false = ground (arith, mapped) in
    let o : (p.threads == 1) ≡ true = ground (arith, one) in
    (
      left,
      record s { pipe = m.0 },
      if_false _ _ z
          ∙ if_true _ _ o
          ∙ ap
              (λ t. do
                t
                pipe ← mark_unmap d k.process_id
                ok (running left (record s { pipe = pipe }), last))
              (assert_balanced last s.throttle.available p.available (sym same))
          ∙ ap (λ t. do pipe ← t; ok (running left (record s { pipe = pipe }), last)) m.1,
      refl,
      omega (arith, one),
      m.2,
    )

-- A process none of whose threads is attached, with an id that is not 0 and room in the map of processes,
-- and that then attaches by `arax_init`, can leave again by one `arax_exit`: no assertion fails, the
-- segment is unmapped and no thread is counted, as many processes use the segment as before, and the
-- call removes the segment exactly where none did.
pub exit-init :
    (k : Kernel) (file : File) (w : Bool) (p : Process) (s : Segment) {p' : Process} {s' : Segment}
    → p.threads ≡ 0
    → k.process_id ≢ 0
    → 0 < count 0 (s.pipe).proc_map + count k.process_id (s.pipe).proc_map
    → (s.pipe).processes + 1 < 2 ^ 64
    → init k file w p s ≡ ok (running p' s')
    → (p'' : Process) × (s'' : Segment) × (exit k p' s'
        ≡ ok (running p'' s'', (s.pipe).processes == 0))
      × (p''.vpipe ≡ 0)
      × (p''.threads ≡ 0)
      × ((s''.pipe).processes ≡ (s.pipe).processes)
exit-init k file w p s {p'} {s'} zero_threads pid room small e =
    let a = init-Attaches k file w p s {p' = p'} {s' = s'} zero_threads pid room e in
    let x =
      exit-last k p' s' a.mapped (omega (arith, a.same_threads, zero_threads)) a.same_available pid
        a.listed in
    let count_is : (s'.pipe).processes ≡ (s.pipe).processes + 1 =
      omega (arith, a.one_more, small) in
    (
      x.0,
      x.1,
      x.2
          ∙ ap (λ b. ok (running x.0 x.1, b))
              (same_test (s'.pipe).processes (s.pipe).processes count_is),
      x.3,
      x.4,
      omega (arith, x.5, count_is, small),
    )
