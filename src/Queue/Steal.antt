-- ===== src/Queue/Steal.antt =====
-- src/utils/queue.c under threads: the accesses of `utils_queue_pop` and, with UTILS_QUEUE_MPMC, of
-- `utils_queue_push` to the shared queue, one step each, in whatever order the threads make them. The
-- locals that a thread has read are in its place in the code. Beside the queue stand the pointers
-- pushed and popped so far, oldest first; `seen` is how many were popped when a thread read `top`.
pub mod Inv
pub mod Moves
pub mod Once
pub mod Tests
use arax_g_rpc.Prelude.{
  ℕ, zero, ◌+◌, ◌-◌, ◌%◌, ◌<◌, ◌≡◌, ◌≢◌, List, [], ◌∷◌, ◌++◌, Bool, true, false, Option, some, ◌==◌,
  if◌then◌else◌, length, get_or, set, replicate,
}
use arax_g_rpc.Prelude.Outcome.{ok}
use arax_g_rpc.Queue.{Queue, u16, slots}
use arax_g_rpc.Spinlock

-- Where a thread is.
pub data Place : Type 0 where
  idle : Place
  -- in `utils_queue_pop`
  read_top : (seen t : ℕ) → Place
  read_bottom : (seen t b : ℕ) → Place
  read_entry : (seen t x : ℕ) → Place
  -- in `utils_queue_push`
  asked : (x : ℕ) → Place
  locked : (x : ℕ) → Place
  push_bottom : (x b : ℕ) → Place
  push_top : (x b seen t : ℕ) → Place
  wrote : (x b : ℕ) → Place
  leaving : Place

-- Whether a thread holds the spinlock.
unfoldable pub holds : Place → Bool
holds idle = false
holds (read_top seen t) = false
holds (read_bottom seen t b) = false
holds (read_entry seen t x) = false
holds (asked x) = false
holds (locked x) = true
holds (push_bottom x b) = true
holds (push_top x b seen t) = true
holds (wrote x b) = true
holds leaving = true

pub record Threads : Type 0 where
  pub queue : Queue
  pub lock : ℕ
  pub place : ℕ → Place
  pub pushed : List ℕ
  pub popped : List ℕ

abbrev pub go : (ℕ → Place) → ℕ → Place → ℕ → Place
go place i p j = if i == j then p else place j

abbrev pub at : Threads → ℕ → Place → Threads
at s i p = record s { place = go s.place i p }

abbrev pub fresh : ℕ → Threads
fresh cap = record {
  queue = record { entries = replicate cap 0; bottom = 0; top = 0 };
  lock = Spinlock.init;
  place = λ i. idle;
  pushed = [];
  popped = [];
}

-- A step of the thread `i`. A compare-and-swap may take a counter that came round for the one it read,
-- so `win` has the condition that fewer than 65536 pointers were popped since.
pub data Step (cap : ℕ) : Threads → Threads → Type 0 where
  pop :
      (s : Threads) (i : ℕ)
      → s.place i ≡ idle
      → Step cap s (at s i (read_top (length s.popped) s.queue.top))
  look :
      (s : Threads) (i : ℕ) {seen t : ℕ}
      → s.place i ≡ read_top seen t
      → Step cap s (at s i (read_bottom seen t s.queue.bottom))
  empty :
      (s : Threads) (i : ℕ) {seen t b : ℕ}
      → s.place i ≡ read_bottom seen t b
      → b ≡ t
      → Step cap s (at s i idle)
  take :
      (s : Threads) (i : ℕ) {seen t b : ℕ}
      → s.place i ≡ read_bottom seen t b
      → b ≢ t
      → Step cap s (at s i (read_entry seen t (get_or s.queue.entries (t % cap) 0)))
  win :
      (s : Threads) (i : ℕ) {seen t x : ℕ}
      → s.place i ≡ read_entry seen t x
      → s.queue.top ≡ t
      → length s.popped - seen < u16
      → Step cap s (record s {
        queue = record s.queue { top = (t + 1) % u16 };
        place = go s.place i idle;
        popped = s.popped ++ (x ∷ []);
      })
  lose :
      (s : Threads) (i : ℕ) {seen t x : ℕ}
      → s.place i ≡ read_entry seen t x
      → s.queue.top ≢ t
      → Step cap s (at s i idle)
  push : (s : Threads) (i x : ℕ) → s.place i ≡ idle → x ≢ 0 → Step cap s (at s i (asked x))
  enter :
      (s : Threads) (i : ℕ) {x l : ℕ}
      → s.place i ≡ asked x
      → Spinlock.try_lock s.lock ≡ some l
      → Step cap s (record s { lock = l; place = go s.place i (locked x) })
  see_bottom :
      (s : Threads) (i : ℕ) {x : ℕ}
      → s.place i ≡ locked x
      → Step cap s (at s i (push_bottom x s.queue.bottom))
  see_top :
      (s : Threads) (i : ℕ) {x b : ℕ}
      → s.place i ≡ push_bottom x b
      → Step cap s (at s i (push_top x b (length s.popped) s.queue.top))
  full :
      (s : Threads) (i : ℕ) {x b seen t : ℕ}
      → s.place i ≡ push_top x b seen t
      → slots b t ≡ cap
      → Step cap s (at s i leaving)
  write :
      (s : Threads) (i : ℕ) {x b seen t : ℕ}
      → s.place i ≡ push_top x b seen t
      → slots b t ≢ cap
      → Step cap s (record s {
        queue = record s.queue { entries = set s.queue.entries (b % cap) x };
        place = go s.place i (wrote x b);
      })
  publish :
      (s : Threads) (i : ℕ) {x b : ℕ}
      → s.place i ≡ wrote x b
      → Step cap s (record s {
        queue = record s.queue { bottom = (b + 1) % u16 };
        place = go s.place i leaving;
        pushed = s.pushed ++ (x ∷ []);
      })
  leave :
      (s : Threads) (i : ℕ) {l : ℕ}
      → s.place i ≡ leaving
      → Spinlock.unlock s.lock ≡ ok l
      → Step cap s (record s { lock = l; place = go s.place i idle })

pub data Reach (cap : ℕ) (s : Threads) : Threads → Type 0 where
  here : Reach cap s s
  next : {t u : Threads} → Reach cap s t → Step cap t u → Reach cap s u
