-- ===== src/Core/Exchange/Owner.antt =====
-- `arax_data_ref_offset` of src/core/arax_data.c: whose data an address is in.
use arax_g_rpc.Prelude.{
  ◌<◌, ◌^◌, ◌%◌, leb, ℕ, ◌+◌, ◌≡◌, Bool, true, false, ◌&&◌, List, [], ◌∷◌, none, some, ltb, ◌==◌,
  if◌then◌else◌,
}
use arax_g_rpc.Core.World.{Ptr, Data, Body, datum, World}
use arax_g_rpc.Core.World.Memory.{find, has}
use arax_g_rpc.Start.{Process, Segment}

data_body : Body → Bool
data_body (datum d) = true
data_body _ = false

body_spans : Body → ℕ → Bool
body_spans (datum d) x = ltb d.buffer x && ltb x (d.buffer + d.size)
body_spans _ x = false

-- Data stands at the address.
unfoldable pub holds_data : World → Ptr → Bool
unfolding find data_body
holds_data w p = elim (find p w.cells) [ none ↦ false | some o ↦ data_body o.body ]

unfoldable pub all_data : World → List Ptr → Bool
unfolding holds_data
all_data w [] = true
all_data w (p ∷ ps) = holds_data w p && all_data w ps

-- The buffer of the data at `p` holds `x`, behind its first byte.
unfoldable pub spans : World → Ptr → ℕ → Bool
unfolding find body_spans
spans w p x = elim (find p w.cells) [ none ↦ false | some o ↦ body_spans o.body x ]

-- What a search for the data of `x` in a list may give.
pub data Found (w : World) (ps : List Ptr) (x : ℕ) : Ptr → Type 0 where
  within : (p : Ptr) → has p ps ≡ true → spans w p x ≡ true → Found w ps x p
  nowhere : ((p : Ptr) → has p ps ≡ true → spans w p x ≡ false) → Found w ps x 0

-- `arax_ptr_valid` in a process that is attached: whether the address is in the segment.
abbrev pub in_segment : Process → Segment → Ptr → Bool
in_segment p s x = leb p.vpipe x && ltb x ((p.vpipe + s.shm_size) % 2 ^ 64)

-- The process with some threads more.
abbrev pub more : Process → ℕ → Process
more p n = record p { threads = p.threads + n }

-- A process with a thread in the segment, while the controller is ready.
pub record IsAttached (p : Process) (s : Segment) : Type 0 where
  pub initialized : p.initialized ≡ true
  pub ready : s.cntrl_ready ≡ true
  pub some_thread : 0 < p.threads
  pub countable : p.threads + 2 < 2 ^ 64

-- How many threads the search counts besides those that there are.
abbrev pub counted : World → (World → Ptr → Ptr) → Ptr → ℕ
counted w owner x = if owner w x == 0 then 1 else 2
