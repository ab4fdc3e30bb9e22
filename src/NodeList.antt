-- ===== src/NodeList.antt =====
-- src/lib/list.c: doubly linked lists whose nodes lie inside the objects that they link.
-- A `list_t` at address `l` is two sentinel nodes, `head` at `l` and `tail` 8 bytes on.
pub mod Chains
pub mod Shape
pub mod Insert
pub mod Walk
pub mod Ends
pub mod Deque
pub mod Sequence
pub mod Sort
mod Tests
use txos.Base.{
  ℕ, zero, suc, ◌+◌, ◌%◌, ◌^◌, Bool, true, false, not, ◌&&◌, Outcome, ok, halt, out_of_fuel, ◌>>=◌,
  ◌>>◌, assert, ◌==◌, leb, if◌then◌else◌, null, update,
}
use txos.Stdlib.{word}

-- the `prev` and `next` fields of every `list_node_t`, by the node's address
pub record Links : Type 0 where
  pub prev : ℕ → ℕ
  pub next : ℕ → ℕ

-- Page 0 is not mapped: an access through NULL is a page fault in the kernel.
unfoldable pub load_prev : Links → ℕ → Outcome ℕ
load_prev s p = if p == null then halt else ok (s.prev p)

unfoldable pub load_next : Links → ℕ → Outcome ℕ
load_next s p = if p == null then halt else ok (s.next p)

unfoldable pub store_prev : Links → ℕ → ℕ → Outcome Links
store_prev s p v = if p == null then halt else ok (record s { prev = update s.prev p v })

unfoldable pub store_next : Links → ℕ → ℕ → Outcome Links
store_next s p v = if p == null then halt else ok (record s { next = update s.next p v })

-- `&list->head` and `&list->tail`
abbrev pub head : ℕ → ℕ
head l = l

abbrev pub tail : ℕ → ℕ
tail l = l + 8

pub list_init : Links → ℕ → Outcome Links
unfolding store_prev store_next
list_init s l = do
  s ← store_prev s (head l) null
  s ← store_next s (head l) (tail l)
  s ← store_prev s (tail l) (head l)
  store_next s (tail l) null

pub list_insert_before : Links → ℕ → ℕ → Outcome Links
unfolding load_prev store_prev store_next
list_insert_before s anchor node = do
  before ← load_prev s anchor
  s ← store_prev s node before
  s ← store_next s node anchor
  before ← load_prev s anchor
  s ← store_next s before node
  store_prev s anchor node

pub list_insert_after : Links → ℕ → ℕ → Outcome Links
unfolding load_next store_prev store_next
list_insert_after s anchor node = do
  s ← store_prev s node anchor
  after ← load_next s anchor
  s ← store_next s node after
  after ← load_next s anchor
  s ← store_prev s after node
  store_next s anchor node

pub list_remove : Links → ℕ → Outcome Links
unfolding load_prev load_next store_prev store_next
list_remove s node = do
  before ← load_prev s node
  assert (not (before == null))
  after ← load_next s node
  assert (not (after == null))
  s ← store_next s before after
  after ← load_next s node
  before ← load_prev s node
  s ← store_prev s after before
  s ← store_prev s node null
  store_next s node null

-- The walk of `list_contains` from `p` on.
contains_from : ℕ → Links → (stop node p : ℕ) → Outcome Bool
unfolding load_next
contains_from zero s stop node p = out_of_fuel
contains_from (suc fuel) s stop node p =
    let rest = (do after ← load_next s p; contains_from fuel s stop node after) in
    if p == stop then ok false else if p == node then ok true else rest

pub list_contains : ℕ → Links → ℕ → ℕ → Outcome Bool
unfolding contains_from load_next
list_contains fuel s l node = do
  first ← load_next s (head l)
  contains_from fuel s (tail l) node first

size_from : ℕ → Links → (stop p size : ℕ) → Outcome ℕ
unfolding load_next
size_from zero s stop p size = out_of_fuel
size_from (suc fuel) s stop p size =
    let rest = (do after ← load_next s p; size_from fuel s stop after ((size + 1) % word)) in
    if p == stop then ok size else rest

pub list_size : ℕ → Links → ℕ → Outcome ℕ
unfolding size_from load_next
list_size fuel s l = do first ← load_next s (head l); size_from fuel s (tail l) first 0

pub list_empty : Links → ℕ → Outcome Bool
unfolding load_prev load_next
list_empty s l = do
  first ← load_next s (head l)
  last ← load_prev s (tail l)
  ok (first == tail l && last == head l)

pub list_singular : Links → ℕ → Outcome Bool
unfolding list_empty load_next
list_singular s l = do
  empty ← list_empty s l
  first ← load_next s (head l)
  if empty then ok false else (do second ← load_next s first; ok (second == tail l))

unfoldable pub list_istail : Links → ℕ → ℕ → Outcome Bool
unfolding load_next
list_istail s l node = do after ← load_next s node; ok (after == tail l)

unfoldable pub list_ishead : Links → ℕ → ℕ → Outcome Bool
unfolding load_prev
list_ishead s l node = do before ← load_prev s node; ok (before == head l)

pub list_push_front : ℕ → Links → ℕ → ℕ → Outcome Links
list_push_front fuel s l node = do
  there ← list_contains fuel s l node
  assert (not there)
  list_insert_after s (head l) node

pub list_push_back : ℕ → Links → ℕ → ℕ → Outcome Links
list_push_back fuel s l node = do
  there ← list_contains fuel s l node
  assert (not there)
  list_insert_before s (tail l) node

pub list_pop_front : Links → ℕ → Outcome (ℕ × Links)
unfolding load_next
list_pop_front s l = do
  empty ← list_empty s l
  assert (not empty)
  node ← load_next s (head l)
  s ← list_remove s node
  ok (node, s)

pub list_pop_back : Links → ℕ → Outcome (ℕ × Links)
unfolding load_prev
list_pop_back s l = do
  empty ← list_empty s l
  assert (not empty)
  node ← load_prev s (tail l)
  s ← list_remove s node
  ok (node, s)

-- `a <= b` for the `int`s that two words stand for: the sign bit is flipped
abbrev pub signed_leb : ℕ → ℕ → Bool
signed_leb a b = leb ((a + 2 ^ 31) % word) ((b + 2 ^ 31) % word)

-- `ASSERT_NODE_FREE`
unfoldable pub node_free : Links → ℕ → Outcome Bool
unfolding load_prev load_next
node_free s node = do
  before ← load_prev s node
  after ← load_next s node
  ok (before == null && after == null)

-- `key p` is the word at `p + offset`, what `list_node_key` reads.
find_anchor : ℕ → (ℕ → ℕ) → Links → (stop bound p : ℕ) → Outcome ℕ
unfolding load_next
find_anchor zero key s stop bound p = out_of_fuel
find_anchor (suc fuel) key s stop bound p =
    let rest = (do after ← load_next s p; find_anchor fuel key s stop bound after) in
    if p == stop then ok stop else if signed_leb bound (key p) then ok p else rest

pub list_insert_sort : ℕ → (ℕ → ℕ) → Links → ℕ → ℕ → Outcome Links
unfolding find_anchor load_next node_free
list_insert_sort fuel key s l node = do
  first ← load_next s (head l)
  anchor ← find_anchor fuel key s (tail l) (key node) first
  free ← node_free s node
  assert free
  list_insert_before s anchor node
