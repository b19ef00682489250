-- ===== src/LinkedList.antt =====
-- The circular doubly linked list of libxfiredbengine/storage/list.c, on a heap of `struct list`. The
-- `struct list` of a head is one of them. The 32-bit counter `num` is written as a natural number,
-- exact below 2 ^ 31.
pub mod Backs
pub mod Cells
pub mod Laws
mod Tests
use xfire_db.Base.{
  ℕ, zero, suc, ◌+◌, ◌-◌, Option, none, some, List, [], ◌∷◌, ◌==◌, true, false, if◌then◌else◌, Run,
  ok, fault, ◌>>=◌,
}

-- `struct list`
pub record Cell : Type 0 where
  pub next : ℕ
  pub prev : ℕ

abbrev pub Cells : Type 0
Cells = ℕ → Option Cell

-- `struct list_head`, with the cells that it links
pub record ListHead : Type 0 where
  pub head : ℕ
  pub num : ℕ
  pub cells : Cells

-- reads and writes through a pointer to a cell
unfoldable pub next_of : Cells → ℕ → Run ℕ
next_of cells a = elim (cells a) [ none ↦ fault | some c ↦ ok c.next ]

unfoldable pub prev_of : Cells → ℕ → Run ℕ
prev_of cells a = elim (cells a) [ none ↦ fault | some c ↦ ok c.prev ]

unfoldable pub set_next : Cells → ℕ → ℕ → Run Cells
set_next cells a b = elim (cells a) [
  | none ↦ fault
  | some c ↦ ok (λ x. if a == x then some (record c { next = b }) else cells x)
]

unfoldable pub set_prev : Cells → ℕ → ℕ → Run Cells
set_prev cells a b = elim (cells a) [
  | none ↦ fault
  | some c ↦ ok (λ x. if a == x then some (record c { prev = b }) else cells x)
]

-- `list_head_init`, with `list_node_init` of the cell at an address
unfoldable pub list_head_init : ℕ → Cells → ListHead
list_head_init head cells = record {
  head = head;
  num = 0;
  cells = λ x. if head == x then some (record { next = head; prev = head }) else cells x;
}

-- `__list_add`
unfoldable pub list_add : Cells → ℕ → ℕ → ℕ → Run Cells
list_add cells new prev next = do
  cells ← set_prev cells next new
  cells ← set_next cells new next
  cells ← set_prev cells new prev
  set_next cells prev new

-- `list_rpush`
unfoldable pub list_rpush : ListHead → ℕ → Run ListHead
list_rpush l node = do
  it ← prev_of l.cells l.head
  next ← next_of l.cells it
  cells ← list_add l.cells node it next
  ok (record { head = l.head; num = l.num + 1; cells = cells })

-- `list_lpush`
unfoldable pub list_lpush : ListHead → ℕ → Run ListHead
list_lpush l node = do
  next ← next_of l.cells l.head
  cells ← list_add l.cells node l.head next
  ok (record { head = l.head; num = l.num + 1; cells = cells })

-- `__list_del`
unfoldable pub unlink : Cells → ℕ → ℕ → Run Cells
unlink cells prev next = do cells ← set_prev cells next prev; set_next cells prev next

-- the writes of `list_del`
unfoldable pub take_out : Cells → ℕ → ℕ → ℕ → Run Cells
take_out cells entry prev next = do
  cells ← unlink cells prev next
  cells ← set_next cells entry entry
  set_prev cells entry entry

-- `list_del`
unfoldable pub list_del : ListHead → ℕ → Run ListHead
list_del l entry = do
  prev ← prev_of l.cells entry
  next ← next_of l.cells entry
  cells ← take_out l.cells entry prev next
  ok (record { head = l.head; num = l.num - 1; cells = cells })

-- the loop of `list_for_each` from a cell on, and what it visits
unfoldable pub list_for_each : ℕ → ListHead → ℕ → Run (List ℕ)
list_for_each zero l c = fault
list_for_each (suc fuel) l c = elim (c == l.head) [
  | true ↦ ok []
  | false ↦ do next ← next_of l.cells c; rest ← list_for_each fuel l next; ok (c ∷ rest)
]
