-- ===== src/Start/Once.antt =====
-- A process that attaches to a segment and leaves it (src/arch/shm/impl.c).
use arax_g_rpc.Prelude.{
  ℕ, ◌+◌, ◌-◌, ◌%◌, ◌^◌, ◌<◌, ◌≡◌, ◌≢◌, refl, ap, subst, sym, ◌∙◌, Bool, false, not, ◌&&◌, ◌||◌,
  List, [], ◌∷◌, Option, none, some, inl, inr, ◌==◌, if-cases, if_true, length, arith,
}
use arax_g_rpc.Prelude.Outcome.{Outcome, ok, abort, fault, blocked, no_fuel, ok-eq, ◌>>=◌}
use arax_g_rpc.Config.{File}
use arax_g_rpc.Throttle
use arax_g_rpc.Throttle.{Throttle}
use arax_g_rpc.ProcMap.{Pipe, claim_cell, index_of, add_process, have_to_mmap, mmap_address}
use arax_g_rpc.ProcMap.Mapped.{count}
use arax_g_rpc.Start.{
  Kernel, Process, Segment, Attached, exited, running, Settings, settings, opened, configured,
  same_revision, set_up, pipe_init, ready, join, placed, attach_at, attach, good, first, wait_good,
  init,
}

-- A process has its cell in the map after it asked for it.
claim_cell-index_of :
    (pid : ℕ) (xs : List ℕ)
    → pid ≢ 0
    → 0 < count 0 xs + count pid xs
    → index_of pid (claim_cell pid xs).0 < length (claim_cell pid xs).0
unfolding claim_cell index_of count
claim_cell-index_of pid [] nz h = absurd (omega arith)
claim_cell-index_of pid (x ∷ xs) nz h = ground (arith, claim_cell-index_of pid xs nz)

ready-running :
    (v : ℕ) (p : Process) (o : Option Segment) {p' : Process} {s' : Segment}
    → ready v p o ≡ ok (running p' s')
    → (s : Segment) × (o ≡ some s)
      × (p'.vpipe ≡ v)
      × (p'.threads ≡ p.threads)
      × (p'.available ≡ s.throttle.available)
      × (s'.pipe ≡ s.pipe)
      × (s'.throttle ≡ s.throttle)
unfolding ready
ready-running v p none e = cc
ready-running v p (some s) e = (s, refl, cc, cc, cc, cc, cc)

some-eq : {A : Type 0} {x y : A} → some x ≡ some y → x ≡ y
some-eq e = cc

same_revision-some :
    (k : Kernel) (enforce : Bool) (s : Segment) (r : Option ℕ) {s' : Segment}
    → same_revision k enforce s r ≡ ok (some s')
    → s'.pipe ≡ s.pipe
unfolding same_revision
same_revision-some k enforce s none e = cc
same_revision-some k enforce s (some r) e =
    elim (if-cases ((r == k.revision) || not enforce) (ok (some s)) (ok none) e) [
      | inl h ↦ sym (ap (λ x. x.pipe) (some-eq (ok-eq h.1)))
      | inr h ↦ cc
    ]

set_up-some :
    (k : Kernel) (size : ℕ) (s : Segment) (m : Outcome Throttle) {s' : Segment}
    → (do t ← m; ok (some (set_up k size s t))) ≡ ok (some s')
    → s'.pipe ≡ s.pipe
set_up-some k size s (ok t) e = sym (ap (λ x. x.pipe) (some-eq (ok-eq e)))
set_up-some k size s abort e = cc
set_up-some k size s fault e = cc
set_up-some k size s blocked e = cc
set_up-some k size s no_fuel e = cc

pipe_init-some :
    (k : Kernel) (size : ℕ) (enforce : Bool) (s : Segment) {s' : Segment}
    → pipe_init k size enforce s ≡ ok (some s')
    → s'.pipe ≡ (add_process s.pipe).0
unfolding pipe_init
pipe_init-some k size enforce s {s'} e =
    let joined : Segment = record s { pipe = (add_process s.pipe).0 } in
    let left = (size + 2 ^ 64 - k.header) % 2 ^ 64 in
    elim (if-cases (s.pipe.processes == 0)
      (do t ← Throttle.init left left; ok (some (set_up k size joined t)))
      (same_revision k enforce joined s.revision) e) [
        | inl h ↦ set_up-some k size joined (Throttle.init left left) {s' = s'} h.1
        | inr h ↦ same_revision-some k enforce joined s.revision {s' = s'} h.1
      ]

-- What a process that joined a segment is like, which has its map of processes already.
record Joined (p : Process) (s : Segment) (p' : Process) (s' : Segment) : Type 0 where
  pub mapped : p'.vpipe ≢ 0
  pub same_threads : p'.threads ≡ p.threads
  one_more : s'.pipe ≡ (add_process s.pipe).0
  pub same_available : p'.available ≡ s'.throttle.available

ready-Joined :
    (k : Kernel) (size : ℕ) (enforce : Bool) (v : ℕ) (p : Process) (s : Segment)
    (m : Outcome (Option Segment)) {p' : Process} {s' : Segment}
    → v ≢ 0
    → pipe_init k size enforce s ≡ m
    → (do o ← m; ready v p o) ≡ ok (running p' s')
    → Joined p s p' s'
ready-Joined k size enforce v p s (ok o) {p'} {s'} nz i e =
    let r = ready-running v p o e in
    record {
      mapped = λ q. nz (sym r.2 ∙ q);
      same_threads = r.3;
      one_more = r.5 ∙ pipe_init-some k size enforce s {s' = r.0} (i ∙ ap ok r.1);
      same_available = r.4 ∙ sym (ap (λ t. t.available) r.6);
    }
ready-Joined k size enforce v p s abort nz i e = cc
ready-Joined k size enforce v p s fault nz i e = cc
ready-Joined k size enforce v p s blocked nz i e = cc
ready-Joined k size enforce v p s no_fuel nz i e = cc

join-Joined :
    (k : Kernel) (st : Settings) (p : Process) (s : Segment) (shm_addr : ℕ) (o : Option ℕ)
    {p' : Process} {s' : Segment}
    → shm_addr ≢ 0
    → join k st p s shm_addr o ≡ ok (running p' s')
    → Joined p s p' s'
unfolding join
join-Joined k st p s shm_addr none nz e = cc
join-Joined k st p s shm_addr (some v) {p'} {s'} nz e =
    elim (if-cases (v == shm_addr)
      (do o ← pipe_init k st.shm_size st.enforce_version s; ready v p o) (ok exited) e) [
        | inl h ↦
            ready-Joined k st.shm_size st.enforce_version v p s _ {p' = p'} {s' = s'}
              (λ q. ground (arith, q, h.0, nz)) refl h.1
        | inr h ↦ cc
      ]

-- What an attached process and the segment are like.
pub record Attaches (pid : ℕ) (p : Process) (s : Segment) (p' : Process) (s' : Segment)
    : Type 0 where
  pub mapped : p'.vpipe ≢ 0
  pub same_threads : p'.threads ≡ p.threads
  pub one_more : (s'.pipe).processes ≡ ((s.pipe).processes + 1) % 2 ^ 64
  pub listed : index_of pid (s'.pipe).proc_map < length (s'.pipe).proc_map
  pub same_available : p'.available ≡ s'.throttle.available

mmap_address-pipe :
    (pipe : Pipe) (here : ℕ)
    → here ≢ 0
    → ((mmap_address pipe here).1 ≢ 0)
      × ((mmap_address pipe here).0.processes ≡ pipe.processes)
      × ((mmap_address pipe here).0.proc_map ≡ pipe.proc_map)
unfolding mmap_address
mmap_address-pipe pipe here nz = (ground (arith, nz), ground (arith, nz), ground (arith, nz))

have_to_mmap-ok :
    (pipe : Pipe) (pid : ℕ)
    → pid ≢ 0
    → have_to_mmap pipe pid
      ≡ ok (
        record pipe { proc_map = (claim_cell pid pipe.proc_map).0 },
        (claim_cell pid pipe.proc_map).1,
      )
unfolding have_to_mmap
have_to_mmap-ok pipe pid nz = let z : (pid == 0) ≡ false = ground (arith, nz) in rw z refl

have_to_mmap-listed :
    (pipe : Pipe) (pid : ℕ) (m : Pipe × Bool)
    → pid ≢ 0
    → 0 < count 0 pipe.proc_map + count pid pipe.proc_map
    → have_to_mmap pipe pid ≡ ok m
    → ((m.0).processes ≡ pipe.processes) × (index_of pid (m.0).proc_map < length (m.0).proc_map)
have_to_mmap-listed pipe pid m nz room e =
    subst
      (λ m.
        ((m.0).processes ≡ pipe.processes) × (index_of pid (m.0).proc_map < length (m.0).proc_map))
      {x = (
        record pipe { proc_map = (claim_cell pid pipe.proc_map).0 },
        (claim_cell pid pipe.proc_map).1,
      )}
      (ok-eq (sym (have_to_mmap-ok pipe pid nz) ∙ e))
      (refl, claim_cell-index_of pid pipe.proc_map nz room)

mapped-Attaches :
    (k : Kernel) (st : Settings) (p : Process) (s : Segment) (here : ℕ) (m : Outcome (Pipe × Bool))
    {p' : Process} {s' : Segment}
    → here ≢ 0
    → k.process_id ≢ 0
    → 0 < count 0 (s.pipe).proc_map + count k.process_id (s.pipe).proc_map
    → have_to_mmap (mmap_address s.pipe here).0 k.process_id ≡ m
    → (do
      m ← m
      join k st p
          (record s { pipe = m.0 })
          (mmap_address s.pipe here).1
          (placed k here (mmap_address s.pipe here).1 m.1))
      ≡ ok (running p' s')
    → Attaches k.process_id p s p' s'
unfolding add_process
mapped-Attaches k st p s here (ok m) {p'} {s'} nz pid room h e =
    let a = mmap_address-pipe s.pipe here nz in
    let l =
      have_to_mmap-listed (mmap_address s.pipe here).0 k.process_id m pid
        (subst (λ xs. 0 < count 0 xs + count k.process_id xs) (sym a.2) room) h in
    let j = join-Joined k st p (record s { pipe = m.0 }) _ _ {p' = p'} {s' = s'} a.0 e in
    record {
      mapped = j.mapped;
      same_threads = j.same_threads;
      one_more = ap (λ x. x.processes) j.one_more ∙ ap (λ n. (n + 1) % 2 ^ 64) (l.0 ∙ a.1);
      listed =
          subst (λ xs. index_of k.process_id xs < length xs) (sym (ap (λ x. x.proc_map) j.one_more))
            l.1;
      same_available = j.same_available;
    }
mapped-Attaches k st p s here abort nz pid room h e = cc
mapped-Attaches k st p s here fault nz pid room h e = cc
mapped-Attaches k st p s here blocked nz pid room h e = cc
mapped-Attaches k st p s here no_fuel nz pid room h e = cc

attach_at-Attaches :
    (k : Kernel) (st : Settings) (p : Process) (s : Segment) (o : Option ℕ) {p' : Process}
    {s' : Segment}
    → k.process_id ≢ 0
    → 0 < count 0 (s.pipe).proc_map + count k.process_id (s.pipe).proc_map
    → attach_at k st p s o ≡ ok (running p' s')
    → Attaches k.process_id p s p' s'
unfolding attach_at
attach_at-Attaches k st p s none pid room e = cc
attach_at-Attaches k st p s (some here) {p'} {s'} pid room e =
    elim (if-cases (here == 0) fault
      (do
        m ← have_to_mmap (mmap_address s.pipe here).0 k.process_id
        join k st p (record s { pipe = m.0 }) (mmap_address s.pipe here).1
            (placed k here (mmap_address s.pipe here).1 m.1))
      e) [
        | inl h ↦ cc
        | inr h ↦
            mapped-Attaches k st p s here _ {p' = p'} {s' = s'} (λ q. ground (arith, q, h.0)) pid
              room refl h.1
      ]

first-Attaches :
    (k : Kernel) (p : Process) (s : Segment) (m : Outcome (Option Settings)) {p' : Process}
    {s' : Segment}
    → k.process_id ≢ 0
    → 0 < count 0 (s.pipe).proc_map + count k.process_id (s.pipe).proc_map
    → (do st ← m; configured k p s st) ≡ ok (running p' s')
    → Attaches k.process_id p s p' s'
unfolding configured attach
first-Attaches k p s (ok none) pid room e = cc
first-Attaches k p s (ok (some st)) {p'} {s'} pid room e =
    elim (if-cases (opened k st) (attach_at k st p s (k.map_any p.vpipe)) fault e) [
      | inl h ↦ attach_at-Attaches k st p s (k.map_any p.vpipe) {p' = p'} {s' = s'} pid room h.1
      | inr h ↦ cc
    ]
first-Attaches k p s abort pid room e = cc
first-Attaches k p s fault pid room e = cc
first-Attaches k p s blocked pid room e = cc
first-Attaches k p s no_fuel pid room e = cc

wait_good-running :
    (w : Bool) (m : Outcome Attached) {p : Process} {s : Segment}
    → (do a ← m; wait_good w a) ≡ ok (running p s)
    → m ≡ ok (running p s)
unfolding wait_good good
wait_good-running w (ok exited) e = cc
wait_good-running w (ok (running p' s')) e =
    elim (if-cases (w && not s'.cntrl_ready) blocked (ok (running p' s')) e) [
      | inl h ↦ cc
      | inr h ↦ h.1
    ]
wait_good-running w abort e = cc
wait_good-running w fault e = cc
wait_good-running w blocked e = cc
wait_good-running w no_fuel e = cc

pub init-Attaches :
    (k : Kernel) (file : File) (w : Bool) (p : Process) (s : Segment) {p' : Process} {s' : Segment}
    → p.threads ≡ 0
    → k.process_id ≢ 0
    → 0 < count 0 (s.pipe).proc_map + count k.process_id (s.pipe).proc_map
    → init k file w p s ≡ ok (running p' s')
    → Attaches k.process_id (record p { threads = (p.threads + 1) % 2 ^ 64 }) s p' s'
unfolding init first
init-Attaches k file w p s {p'} {s'} zero_threads pid room e =
    first-Attaches k (record p { threads = (p.threads + 1) % 2 ^ 64 }) s (settings k file) {p' = p'}
      {s' = s'} pid room
      (wait_good-running w _
        (sym (if_true {b = p.threads == 0} _ _ (ground (arith, zero_threads))) ∙ e))
