-- ===== src/Queue/Steal/Moves.antt =====
-- Each access to a shared queue of src/utils/queue.c keeps what holds of the threads.
use native.Mathlib.Nat.{mod-lt}
use arax_g_rpc.Prelude.{
  ℕ, suc, ◌+◌, ◌-◌, ◌%◌, ◌≤◌, ◌<◌, ◌≡◌, ◌≢◌, refl, ap, subst, ◌∙◌, sym, List, [], ◌∷◌, ◌++◌, true,
  false, some, ◌==◌, length, length-set, length-append, get_or, set, if-intro, Bool-cases, inl, inr,
  get_or-set_self, get_or-set_ne, get_or-append_left, get_or-append_last, ℕ_discrete, dec_lt, arith,
}
use arax_g_rpc.Queue.{Queue, u16, slots}
use arax_g_rpc.Queue.Inv.{IsCapacity, capacity_pos, capacity-lt}
use arax_g_rpc.Queue.Refine.{slot-ne, u16-mod}
use arax_g_rpc.Spinlock
use arax_g_rpc.Queue.Steal.{
  Place, idle, read_entry, locked, push_top, wrote, leaving, holds, Threads, go, at,
}
use arax_g_rpc.Queue.Steal.Inv.{Knows, Store, Inv, pop-Knows, push-Knows}

go-intro :
    (P : Place → Type 0) (place : ℕ → Place) (i j : ℕ) {p : Place}
    → P p
    → (i ≢ j → P (place j))
    → P (go place i p j)
go-intro P place i j h k = if-intro P (i == j) (λ e. h) λ e. k (ground (arith, e))

go_self : (place : ℕ → Place) (i : ℕ) (p : Place) → go place i p i ≡ p
go_self place i p = ground arith

go_ne : (place : ℕ → Place) (i j : ℕ) (p : Place) → i ≢ j → go place i p j ≡ place j
go_ne place i j p e = ground (arith, e)

-- Only a thread that held the lock may go where the lock is held.
go-holds :
    (place : ℕ → Place) (i j : ℕ) (p : Place)
    → (holds p ≡ true → holds (place i) ≡ true)
    → holds (go place i p j) ≡ true
    → holds (place j) ≡ true
go-holds place i j p h = elim (ℕ_discrete i j) [
  | yes e ↦
      subst (λ k. holds (go place i p k) ≡ true → holds (place k) ≡ true) e
        (λ q. h (subst (λ x. holds x ≡ true) (go_self place i p) q))
  | no e ↦ λ q. subst (λ x. holds x ≡ true) (go_ne place i j p e) q
]

module _ {cap : ℕ} {s : Threads} (v : Inv cap s) (i : ℕ) where
  -- Another thread does not hold the lock while this one does.
  alone : (j : ℕ) → holds (s.place i) ≡ true → i ≢ j → holds (s.place j) ≡ false
  alone j h e = elim (Bool-cases (holds (s.place j))) [
    | inl q ↦ absurd (e (v.one i j h q))
    | inr q ↦ q
  ]

  -- A thread that moves on while the queue is changed or not.
  moved :
      {q : Queue} {popped pushed : List ℕ} (p : Place)
      → (holds p ≡ true → holds (s.place i) ≡ true)
      → Store cap q popped pushed
      → Knows cap q (length popped) pushed p
      → ((j : ℕ) → i ≢ j → Knows cap q (length popped) pushed (s.place j))
      → Inv cap (record s { queue = q; place = go s.place i p; popped = popped; pushed = pushed })
  moved {q = q} {popped = popped} {pushed = pushed} p h st k rest = record {
    store = st;
    one = λ a b x y. v.one a b (go-holds s.place i a p h x) (go-holds s.place i b p h y);
    held = λ a x. v.held a (go-holds s.place i a p h x);
    knows = λ a. go-intro (Knows cap q (length popped) pushed) s.place i a k (rest a);
  }

  pub at-Inv :
      (p : Place)
      → (holds p ≡ true → holds (s.place i) ≡ true)
      → Knows cap s.queue (length s.popped) s.pushed p
      → Inv cap (at s i p)
  at-Inv p h k = moved p h v.store k (λ j e. v.knows j)

  pub enter-Inv :
      (x : ℕ) {l : ℕ}
      → Spinlock.try_lock s.lock ≡ some l
      → Inv cap (record s { lock = l; place = go s.place i (locked x) })
  unfolding Spinlock.try_lock Knows holds
  enter-Inv x {l} e =
      let nobody : (a : ℕ) → holds (s.place a) ≡ true → 1 ≤ 0 =
        λ a h. ground (arith, e, v.held a h) in
      let self : (a : ℕ) → holds (go s.place i (locked x) a) ≡ true → i ≡ a = λ a.
        elim (ℕ_discrete i a) [
          | yes d ↦ λ q. d
          | no d ↦ λ q. absurd (
              omega
                (arith, nobody a (subst (λ p. holds p ≡ true) (go_ne s.place i a (locked x) d) q)))
        ] in
      record {
        store = v.store;
        one = λ a b y z. sym (self a y) ∙ self b z;
        held = λ a y. ground (arith, e);
        knows = λ a.
            go-intro (Knows cap s.queue (length s.popped) s.pushed) s.place i a tt λ d. v.knows a;
      }

  pub leave-Inv :
      {l : ℕ}
      → holds (s.place i) ≡ true
      → Inv cap (record s { lock = l; place = go s.place i idle })
  unfolding Knows holds
  leave-Inv {l} h =
      let none : (a : ℕ) → holds (go s.place i idle a) ≡ true → 1 ≤ 0 = λ a.
        go-intro (λ p. holds p ≡ true → 1 ≤ 0) s.place i a (λ q. cc)
          λ d q. absurd (d (v.one i a h q)) in
      record {
        store = v.store;
        one = λ a b y z. absurd (omega (arith, none a y));
        held = λ a y. absurd (omega (arith, none a y));
        knows = λ a.
            go-intro (Knows cap s.queue (length s.popped) s.pushed) s.place i a tt λ d. v.knows a;
      }

  -- A compare-and-swap that takes the oldest pointer.
  pub win-Inv :
      {seen t x : ℕ}
      → s.place i ≡ read_entry seen t x
      → s.queue.top ≡ t
      → length s.popped - seen < u16
      → Inv cap (record s {
        queue = record s.queue { top = (t + 1) % u16 };
        place = go s.place i idle;
        popped = s.popped ++ (x ∷ []);
      })
  unfolding Knows holds
  win-Inv {seen} {t} {x} e top near =
      let st = v.store in
      let k = subst (Knows cap s.queue (length s.popped) s.pushed) e (v.knows i) in
      let same : length s.popped ≡ seen = omega (arith, k.0, k.1, st.top_is, top, near) in
      let grown : length (s.popped ++ (x ∷ [])) ≡ suc (length s.popped) =
        omega (arith, length-append s.popped (x ∷ [])) in
      moved idle (λ q. cc)
        (record {
          top_is = omega (arith, grown, st.top_is, top);
          bottom_is = st.bottom_is;
          storage = st.storage;
          popped_le = omega (arith, grown, k.2, same);
          fits = omega (arith, grown, st.fits);
          kept = λ j a b. st.kept j (omega (arith, grown, a)) b;
          order = λ j a. elim (dec_lt j (length s.popped)) [
            | yes p ↦ get_or-append_left s.popped (x ∷ []) j 0 p ∙ st.order j p
            | no p ↦
                get_or-append_last s.popped x j 0 (omega (arith, grown, a, p))
                ∙ k.3 same
                ∙ ap (λ m. get_or s.pushed m 0) (omega (arith, grown, a, p, same))
          ];
        })
        tt
        λ j d.
          subst (λ n. Knows cap (record s.queue { top = (t + 1) % u16 }) n s.pushed (s.place j))
            (sym grown)
            (pop-Knows cap ((t + 1) % u16) (length s.popped) s.queue s.pushed (s.place j)
              (v.knows j))

  -- The entry that a push writes is free.
  pub write-Inv :
      {x b seen t : ℕ}
      → IsCapacity cap
      → s.place i ≡ push_top x b seen t
      → slots b t ≢ cap
      → Inv cap (record s {
        queue = record s.queue { entries = set s.queue.entries (b % cap) x };
        place = go s.place i (wrote x b);
      })
  unfolding Knows holds slots
  write-Inv {x} {b} {seen} {t} c e room =
      let st = v.store in
      let h = ap holds e in
      let k = subst (Knows cap s.queue (length s.popped) s.pushed) e (v.knows i) in
      let less : length s.pushed < length s.popped + cap =
        ground (arith, k.0, k.1, k.2, k.3, st.bottom_is, st.popped_le, capacity-lt c, room) in
      let slot : b % cap ≡ length s.pushed % cap =
        ap (λ m. m % cap) (k.0 ∙ st.bottom_is) ∙ u16-mod c (length s.pushed) in
      moved (wrote x b) (λ q. h)
        (record {
          top_is = st.top_is;
          bottom_is = st.bottom_is;
          storage = length-set s.queue.entries (b % cap) x ∙ st.storage;
          popped_le = st.popped_le;
          fits = st.fits;
          kept = λ j a u.
              get_or-set_ne s.queue.entries {i = b % cap} {j = j % cap} x 0 (λ q.
                slot-ne cap j (length s.pushed - j) (omega (arith, u)) (omega (arith, a, less))
                  (ap (λ m. m % cap) (omega (arith, u)) ∙ sym slot ∙ q))
              ∙ st.kept j a u;
          order = st.order;
        })
        (
          k.0,
          less,
          ap (λ m. get_or (set s.queue.entries (b % cap) x) m 0) (sym slot)
              ∙ get_or-set_self s.queue.entries (b % cap) x 0
                  (subst (λ m. b % cap < m) (sym st.storage) (mod-lt b (capacity_pos c))),
        )
        λ j d.
          push-Knows cap (length s.popped) s.queue
            (record s.queue { entries = set s.queue.entries (b % cap) x }) s.pushed s.pushed
            (s.place j) (alone j h d) (omega arith) (λ m a. refl) (v.knows j)

  -- The pointer is in the queue when `bottom` has moved.
  pub publish-Inv :
      {x b : ℕ}
      → s.place i ≡ wrote x b
      → Inv cap (record s {
        queue = record s.queue { bottom = (b + 1) % u16 };
        place = go s.place i leaving;
        pushed = s.pushed ++ (x ∷ []);
      })
  unfolding Knows holds
  publish-Inv {x} {b} e =
      let st = v.store in
      let h = ap holds e in
      let k = subst (Knows cap s.queue (length s.popped) s.pushed) e (v.knows i) in
      let grown : length (s.pushed ++ (x ∷ [])) ≡ suc (length s.pushed) =
        omega (arith, length-append s.pushed (x ∷ [])) in
      moved leaving (λ q. h)
        (record {
          top_is = st.top_is;
          bottom_is = omega (arith, grown, st.bottom_is, k.0);
          storage = st.storage;
          popped_le = omega (arith, grown, st.popped_le);
          fits = omega (arith, grown, k.1);
          kept = λ j a u. elim (dec_lt j (length s.pushed)) [
            | yes p ↦ st.kept j a p ∙ sym (get_or-append_left s.pushed (x ∷ []) j 0 p)
            | no p ↦
                ap (λ m. get_or s.queue.entries (m % cap) 0) (omega (arith, grown, u, p))
                ∙ k.2
                ∙ sym (get_or-append_last s.pushed x j 0 (omega (arith, grown, u, p)))
          ];
          order = λ j a.
              st.order j a
              ∙ sym (get_or-append_left s.pushed (x ∷ []) j 0 (omega (arith, a, st.popped_le)));
        })
        tt
        λ j d.
          push-Knows cap (length s.popped) s.queue (record s.queue { bottom = (b + 1) % u16 })
            s.pushed (s.pushed ++ (x ∷ [])) (s.place j) (alone j h d) (omega (arith, grown))
            (λ m a. get_or-append_left s.pushed (x ∷ []) m 0 a) (v.knows j)
