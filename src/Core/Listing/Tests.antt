-- ===== src/Core/Listing/Tests.antt =====
-- Listings in a segment with an accelerator of type 2 at 256, and two of type 5 at 512 and 768.
use arax_g_rpc.Prelude.{ℕ, ◌≡◌, refl, true, [], ◌∷◌, some, length, suc}
use arax_g_rpc.Prelude.Outcome.{ok}
use arax_g_rpc.Core.World.{phys, Cell, World, Platform, pure, ◌>>=◌, ◌>>◌}
use arax_g_rpc.Core.World.Memory.{find, has, replace}
use arax_g_rpc.Core.Create.{zero_accel}
use arax_g_rpc.Core.Listing.{listed, list, list_free, list_free_pre_locked, proc_register}
use arax_g_rpc.Core.Listing.Fits.{all_fit, of_type}
use arax_g_rpc.Core.Listing.Restored.{list_free-list}

abbrev machine : Platform
machine = record {
  allocate = λ cs n. 4096;
  accel_size = 200;
  vaccel_size = 4000;
  proc_size = 120;
  data_size = 150;
  task_size = 90;
}

abbrev accel : ℕ → ℕ → Cell
accel address type = record {
  address = address;
  object = record {
    alloc_size = 200;
    ref_count = 1;
    name = [];
    body = phys (record zero_accel { type = type });
  };
}

abbrev three : World
three = record {
  cells = accel 256 2 ∷ accel 512 5 ∷ accel 768 5 ∷ [];
  repo = record { accels = 256 ∷ 512 ∷ 768 ∷ []; vaccels = []; procs = []; datas = []; tasks = [] };
  throttle = record { available = 400; capacity = 1000 };
  orphan_vacs = [];
}

list_free-list_example :
    (do l ← list machine (suc 3) 5 true (some []); list_free machine (suc 3) l.1; pure l) three
    ≡ ok (
      (
        length (of_type true 5 three.cells (listed true three.repo)),
        of_type true 5 three.cells (listed true three.repo),
      ),
      three,
    )
unfolding all_fit listed find has
list_free-list_example = list_free-list machine 3 true 5 three refl

two_found : of_type true 5 three.cells (listed true three.repo) ≡ 512 ∷ 768 ∷ []
unfolding of_type listed find
two_found = refl

-- A second listing gives the references of the first back.
again :
    (do l ← list machine 4 5 true (some []); list machine 4 0 true (some l.1)) three
    ≡ (list machine 4 0 true (some []) three)
unfolding list list_free_pre_locked listed find replace ◌>>=◌
again = refl

-- A procedure registered again is the one that is there.
register_again :
    (do _ ← proc_register machine (b'c' ∷ b'p' ∷ []); proc_register machine (b'c' ∷ b'p' ∷ []))
      three
    ≡ proc_register machine (b'c' ∷ b'p' ∷ []) three
unfolding proc_register find ◌>>=◌
register_again = refl
