-- ===== src/Core/World/Balance.antt =====
-- The balance of the segment: what the throttle has left and what the objects take make up the
-- capacity. The reads and writes of one object keep it.
use arax_g_rpc.Prelude.{ℕ, ◌+◌, ◌≡◌, refl, List, [], ◌∷◌, some, arith, Option-cases, inl, inr}
use arax_g_rpc.Core.World.{Ptr, Body, phys, virt, proc, datum, task, Object, Cell, World, ◌>>=◌}
use arax_g_rpc.Core.World.Keeps.{Keeps, Keeps-lift, keeps_rules}
use arax_g_rpc.Core.World.Memory.{
  find, replace, remove, load, store, store_body, load_phys, load_virt, load_proc, load_data,
  load_task, as_phys, as_virt, as_proc, as_data, as_task,
}

-- The bytes that the objects were registered with.
unfoldable pub total : List Cell → ℕ
total [] = 0
total (c ∷ cs) = c.object.alloc_size + total cs

pub record IsBalanced (cap : ℕ) (w : World) : Type 0 where
  pub counted : w.throttle.available + total w.cells ≡ cap
  pub whole : w.throttle.capacity ≡ cap

pub total-replace :
    (p : Ptr) (o n : Object) (cs : List Cell)
    → find p cs ≡ some o
    → n.alloc_size ≡ o.alloc_size
    → total (replace p n cs) ≡ total cs
unfolding find replace total
total-replace p o n [] f e = cc
total-replace p o n (c ∷ cs) f e = ground (arith, total-replace p o n cs)

pub total-remove :
    (p : Ptr) (o : Object) (cs : List Cell)
    → find p cs ≡ some o
    → total (remove p cs) + o.alloc_size ≡ total cs
unfolding find remove total
total-remove p o [] f = cc
total-remove p o (c ∷ cs) f = ground (arith, total-remove p o cs)

module _ {P : World → Type 0} where
  pub Keeps-load : (p : Ptr) → Keeps P (load p)
  unfolding load
  Keeps-load p = record {
    at = λ w a w' h e. elim (Option-cases (find p w.cells)) [
      | inl n ↦ ground arith
      | inr (o, s) ↦ let q : w ≡ w' = ground arith in rw q at h
    ];
  }

  as_phys-Keeps : (b : Body) → Keeps P (as_phys b)
  unfolding as_phys
  as_phys-Keeps (phys a) = search keeps_rules
  as_phys-Keeps _ = search keeps_rules

  as_virt-Keeps : (b : Body) → Keeps P (as_virt b)
  unfolding as_virt
  as_virt-Keeps (virt a) = search keeps_rules
  as_virt-Keeps _ = search keeps_rules

  as_proc-Keeps : (b : Body) → Keeps P (as_proc b)
  unfolding as_proc
  as_proc-Keeps (proc a) = search keeps_rules
  as_proc-Keeps _ = search keeps_rules

  as_data-Keeps : (b : Body) → Keeps P (as_data b)
  unfolding as_data
  as_data-Keeps (datum a) = search keeps_rules
  as_data-Keeps _ = search keeps_rules

  as_task-Keeps : (b : Body) → Keeps P (as_task b)
  unfolding as_task
  as_task-Keeps (task a) = search keeps_rules
  as_task-Keeps _ = search keeps_rules

  pub Keeps-load_phys : (p : Ptr) → Keeps P (load_phys p)
  unfolding load_phys
  Keeps-load_phys p = search (keeps_rules, Keeps-load, as_phys-Keeps)

  pub Keeps-load_virt : (p : Ptr) → Keeps P (load_virt p)
  unfolding load_virt
  Keeps-load_virt p = search (keeps_rules, Keeps-load, as_virt-Keeps)

  pub Keeps-load_proc : (p : Ptr) → Keeps P (load_proc p)
  unfolding load_proc
  Keeps-load_proc p = search (keeps_rules, Keeps-load, as_proc-Keeps)

  pub Keeps-load_data : (p : Ptr) → Keeps P (load_data p)
  unfolding load_data
  Keeps-load_data p = search (keeps_rules, Keeps-load, as_data-Keeps)

  pub Keeps-load_task : (p : Ptr) → Keeps P (load_task p)
  unfolding load_task
  Keeps-load_task p = search (keeps_rules, Keeps-load, as_task-Keeps)

module _ {cap : ℕ} where
  -- A write over the object that was read, of the same size.
  pub Keeps-rewrite :
      (p : Ptr) (f : Object → Object)
      → ((o : Object) → (f o).alloc_size ≡ o.alloc_size)
      → Keeps (IsBalanced cap) (load p >>= λ o. store p (f o))
  unfolding load store ◌>>=◌
  Keeps-rewrite p f same = record {
    at = λ w a w' h e. elim (Option-cases (find p w.cells)) [
      | inl n ↦ ground arith
      | inr (o, s) ↦
          let q : w' ≡ record w { cells = replace p (f o) w.cells } = ground arith in
          rw q (ground (arith, total-replace p o (f o) w.cells s, same o, h.counted, h.whole))
    ];
  }

  pub Keeps-store_body : (p : Ptr) (b : Body) → Keeps (IsBalanced cap) (store_body p b)
  unfolding store_body
  Keeps-store_body p b = Keeps-rewrite p (λ o. record o { body = b }) (λ o. refl)

pub ruleset balance_rules = (
  keeps_rules, Keeps-load, Keeps-load_phys, Keeps-load_virt, Keeps-load_proc, Keeps-load_data,
  Keeps-load_task, Keeps-store_body,
)
