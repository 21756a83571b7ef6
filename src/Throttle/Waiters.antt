-- ===== src/Throttle/Waiters.antt =====
-- The threads that share a throttle of src/core/arax_throttle.c: each call is one step under the
-- lock of `ready`, a thread that finds too little sleeps, and an increase wakes every sleeper, which
-- then makes its round of the wait again, in any order.
use arax_g_rpc.Prelude.{ℕ, ◌+◌, ◌-◌, ◌≤◌, ◌<◌, ◌≡◌, refl, List, [], ◌∷◌, ◌++◌, arith}
use arax_g_rpc.Prelude.Outcome.{ok, blocked}
use arax_g_rpc.Throttle.{Throttle, u64, size_inc, size_dec}
use arax_g_rpc.Throttle.Laws.{IsValid}

-- The throttle, the bytes handed out, and the sizes that the sleeping and the woken threads wait for.
pub record Shared : Type 0 where
  pub thr : Throttle
  pub held : ℕ
  pub asleep : List ℕ
  pub woken : List ℕ

abbrev pub All {ℓ} : {A : Type ℓ} → (A → Type 0) → List A → Type 0
All P [] = Unit
All P (x ∷ xs) = P x × All P xs

pub data Step : Shared → Shared → Type 0 where
  take :
      (s : Shared) (sz : ℕ) {thr : Throttle}
      → size_dec s.thr sz ≡ ok thr
      → Step s (record s { thr = thr; held = s.held + sz })
  sleep :
      (s : Shared) (sz : ℕ)
      → size_dec s.thr sz ≡ blocked
      → Step s (record s { asleep = sz ∷ s.asleep })
  give :
      (s : Shared) (sz : ℕ) {thr : Throttle}
      → 0 < sz
      → sz ≤ s.held
      → size_inc s.thr sz ≡ ok thr
      → Step s
          (record s { thr = thr; held = s.held - sz; asleep = []; woken = s.asleep ++ s.woken })
  retry_take :
      (s : Shared) (front : List ℕ) (sz : ℕ) (back : List ℕ) {thr : Throttle}
      → s.woken ≡ front ++ (sz ∷ back)
      → size_dec s.thr sz ≡ ok thr
      → Step s (record s { thr = thr; held = s.held + sz; woken = front ++ back })
  retry_sleep :
      (s : Shared) (front : List ℕ) (sz : ℕ) (back : List ℕ)
      → s.woken ≡ front ++ (sz ∷ back)
      → size_dec s.thr sz ≡ blocked
      → Step s (record s { asleep = sz ∷ s.asleep; woken = front ++ back })

pub data Reach (s : Shared) : Shared → Type 0 where
  here : Reach s s
  next : {t u : Shared} → Reach s t → Step t u → Reach s u

-- Nothing is lost, and no sleeper could be served.
pub record Inv (cap : ℕ) (s : Shared) : Type 0 where
  pub valid : IsValid s.thr
  pub whole : s.thr.capacity ≡ cap
  pub counted : s.thr.available + s.held ≡ cap
  pub hungry : All (λ sz. s.thr.available < sz) s.asleep

hungrier : (a b : ℕ) → b ≤ a → (xs : List ℕ) → All (λ sz. a < sz) xs → All (λ sz. b < sz) xs
hungrier a b h [] all = tt
hungrier a b h (x ∷ xs) (p, all) = (omega arith, hungrier a b h xs all)

size_dec-ok :
    {t thr : Throttle} (sz : ℕ)
    → IsValid t
    → size_dec t sz ≡ ok thr
    → IsValid thr × (thr.capacity ≡ t.capacity) × (thr.available + sz ≡ t.available)
unfolding size_dec
size_dec-ok sz v e = ground arith

size_dec-blocked : {t : Throttle} (sz : ℕ) → IsValid t → size_dec t sz ≡ blocked → t.available < sz
unfolding size_dec
size_dec-blocked sz v e = ground arith

size_inc-ok :
    {t thr : Throttle} (sz h : ℕ)
    → IsValid t
    → t.available + h ≡ t.capacity
    → sz ≤ h
    → size_inc t sz ≡ ok thr
    → IsValid thr × (thr.capacity ≡ t.capacity) × (thr.available ≡ t.available + sz)
unfolding size_inc
size_inc-ok sz h v c l e = ground arith

Step-Inv : {cap : ℕ} {s t : Shared} → Step s t → Inv cap s → Inv cap t
Step-Inv (take s sz e) i =
    let (v, c, a) = size_dec-ok sz i.valid e in
    record {
      valid = v;
      whole = omega (arith, i.whole);
      counted = omega (arith, i.counted);
      hungry = hungrier _ _ (omega arith) s.asleep i.hungry;
    }
Step-Inv (sleep s sz e) i = record {
  valid = i.valid;
  whole = i.whole;
  counted = i.counted;
  hungry = (size_dec-blocked sz i.valid e, i.hungry);
}
Step-Inv (give s sz p l e) i =
    let (v, c, a) = size_inc-ok sz s.held i.valid (omega (arith, i.counted, i.whole)) l e in
    record {
      valid = v;
      whole = omega (arith, i.whole);
      counted = omega (arith, i.counted);
      hungry = tt;
    }
Step-Inv (retry_take s front sz back w e) i =
    let (v, c, a) = size_dec-ok sz i.valid e in
    record {
      valid = v;
      whole = omega (arith, i.whole);
      counted = omega (arith, i.counted);
      hungry = hungrier _ _ (omega arith) s.asleep i.hungry;
    }
Step-Inv (retry_sleep s front sz back w e) i = record {
  valid = i.valid;
  whole = i.whole;
  counted = i.counted;
  hungry = (size_dec-blocked sz i.valid e, i.hungry);
}

Reach-Inv : {cap : ℕ} {s t : Shared} → Inv cap s → Reach s t → Inv cap t
Reach-Inv i here = i
Reach-Inv i (next r st) = Step-Inv st (Reach-Inv i r)

-- The state of a throttle of which nothing is taken.
abbrev pub fresh : ℕ → Shared
fresh cap = record {
  thr = record { available = cap; capacity = cap };
  held = 0;
  asleep = [];
  woken = [];
}

fresh-Inv : (cap : ℕ) → cap < u64 → Inv cap (fresh cap)
fresh-Inv cap h = record { valid = omega arith; whole = refl; counted = omega arith; hungry = tt }

-- However the threads' calls interleave, where an increase wakes every sleeper (as the notification of
-- src/async/mutex does), from a throttle of which nothing is taken, what is available and what is
-- handed out add up to the capacity, and no wakeup is lost: whoever sleeps asked for more than is
-- available. So a sleeper whose size fits the capacity waits for a thread that holds bytes.
pub no_lost_wakeup :
    {cap : ℕ} {s : Shared}
    → cap < u64
    → Reach (fresh cap) s
    → (s.thr.available + s.held ≡ cap)
      × All (λ sz. (s.thr.available < sz) × (sz ≤ cap → 0 < s.held)) s.asleep
no_lost_wakeup {cap} {s} h r = (i.counted, waiting s.asleep i.hungry)
  where
    i : Inv cap s
    i = Reach-Inv (fresh-Inv cap h) r

    waiting :
        (xs : List ℕ)
        → All (λ sz. s.thr.available < sz) xs
        → All (λ sz. (s.thr.available < sz) × (sz ≤ cap → 0 < s.held)) xs
    waiting [] all = tt
    waiting (x ∷ xs) (p, all) = ((p, omega (arith, i.counted)), waiting xs all)
