-- ===== src/NodeList.antt =====
-- src/utils/list.c and list.h: circular doubly linked lists over an explicit memory.
-- An address is a number, and NULL is 0. The head node is the first member of a `utils_list_s`, so a
-- list and its head node have one address; `length` is kept by that address.
pub mod Tests
pub mod Chain
pub mod IsList
pub mod Ops
pub mod Walk
use arax_g_rpc.Prelude.{
  ℕ, zero, suc, ◌+◌, ◌-◌, ◌%◌, ◌^◌, Bool, true, false, not, List, [], ◌∷◌, ltb, ◌==◌, if◌then◌else◌,
}

abbrev pub Ptr : Type 0
Ptr = ℕ

-- The fields of all `utils_list_node_s`, and the `length` of all `utils_list_s`.
pub record Mem : Type 0 where
  pub next : Ptr → Ptr
  pub prev : Ptr → Ptr
  pub owner : Ptr → Ptr
  pub length : Ptr → ℕ

-- `f[p] = v`
abbrev pub update : (Ptr → ℕ) → Ptr → ℕ → Ptr → ℕ
update f p v q = if p == q then v else f q

abbrev pub size_max : ℕ
size_max = 2 ^ 64 - 1

-- `length++` and `length--` of a `size_t`
abbrev pub inc : ℕ → ℕ
inc n = (n + 1) % 2 ^ 64

abbrev pub dec : ℕ → ℕ
dec n = (n + size_max) % 2 ^ 64

unfoldable pub node_init : Ptr → Ptr → Mem → Mem
node_init node owner m = record m {
  next = update m.next node node;
  prev = update m.prev node node;
  owner = update m.owner node owner;
}

unfoldable pub init : Ptr → Mem → Mem
unfolding node_init
init list m = node_init list list (record m { length = update m.length list 0 })

unfoldable pub node_add : Ptr → Ptr → Mem → Mem
node_add head node m =
    let m₁ : Mem = record m { prev = update m.prev (m.next head) node } in
    let m₂ : Mem = record m₁ { next = update m₁.next node (m₁.next head) } in
    let m₃ : Mem = record m₂ { prev = update m₂.prev node head } in
    record m₃ { next = update m₃.next head node }

unfoldable pub add : Ptr → Ptr → Mem → Mem
unfolding node_add
add list node m =
    let m' = node_add list node m in
    record m' { length = update m'.length list (inc (m'.length list)) }

-- The node deleted is what `utils_list_del` returns.
unfoldable pub del : Ptr → Ptr → Mem → Mem
del list node m =
    let m₁ : Mem = record m { prev = update m.prev (m.next node) (m.prev node) } in
    let m₂ : Mem = record m₁ { next = update m₁.next (m₁.prev node) (m₁.next node) } in
    let m₃ : Mem = record m₂ { length = update m₂.length list (dec (m₂.length list)) } in
    record m₃ { next = update m₃.next node node; prev = update m₃.prev node node }

unfoldable pub pop_head : Ptr → Mem → Ptr × Mem
pop_head list m = if m.length list == 0 then (0, m) else (m.next list, del list (m.next list) m)

unfoldable pub pop_tail : Ptr → Mem → Ptr × Mem
pop_tail list m = if m.length list == 0 then (0, m) else (m.prev list, del list (m.prev list) m)

unfoldable pub node_linked : Ptr → Mem → Bool
node_linked node m = not (m.next node == node)

-- `utils_list_for_each` from the node `itr`, on fuel: the owners met until the head node is met.
owners_from : ℕ → Ptr → Ptr → Mem → List Ptr
owners_from zero list itr m = []
owners_from (suc fuel) list itr m =
    let rest = owners_from fuel list (m.next itr) m in
    if itr == list then [] else m.owner itr ∷ rest

-- `utils_list_to_array` with an array: what it returns, and what it writes.
unfoldable pub to_array : Ptr → Mem → ℕ × List Ptr
unfolding owners_from
to_array list m = (
  m.length list,
  if m.length list == 0 then [] else owners_from (m.length list + 1) list (m.next list) m,
)
