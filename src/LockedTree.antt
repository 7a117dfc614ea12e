-- ===== src/LockedTree.antt =====
-- 30-2-thread-safe_binary-tree.c: the tree with a lock in each node.
mod Ordered
mod Deletes
mod Tests
use tlpi_practice.Common.{ℕ, zero, suc, Bool, true, false, Option, none, some, [], if◌then◌else◌}
use tlpi_practice.Common.Disk.{Bytes}
use tlpi_practice.Common.CString.{strcmp, is_negative}

-- A node with its key, its value and whether its lock is held, or NULL.
pub data Tree : Type 0 where
  null : Tree
  node : Bytes → ℕ → Bool → Tree → Tree → Tree

-- The node that `add` makes.
abbrev pub new_node : Bytes → ℕ → Tree
new_node key value = node key value false null null

abbrev pub is_null : Tree → Bool
is_null null = true
is_null _ = false

-- The loop of `add` from `t` on, with no other thread: none is a wait for ever, for a lock that
-- nobody gives back. In the place of NULL, which is below the root here, it puts the new node, and
-- then it breaks from the loop, so that the lock of the node above stays held.
unfoldable pub descend : Bytes → ℕ → Tree → Option Tree
descend key value null = some (new_node key value)
descend key value (node k x locked l r) =
    let left = descend key value l in
    let right = descend key value r in
    if locked
    then none
    else if is_negative (strcmp k key)
    then elim left [ none ↦ none | some l' ↦ some (node k x (is_null l) l' r) ]
    else elim right [ none ↦ none | some r' ↦ some (node k x (is_null r) l r') ]

-- How `add` ends; `null_pointer` is the lock of a root that is NULL.
pub data Added : Type 0 where
  added : Tree → Added
  waits_ever null_pointer : Added

abbrev pub ended : Option Tree → Added
ended none = waits_ever
ended (some t) = added t

unfoldable pub add : Bytes → ℕ → Tree → Added
unfolding descend
add key value null = null_pointer
add key value (node k x locked l r) = ended (descend key value (node k x locked l r))

-- `initialize`: the pointer of the caller as it is afterwards, and the node that is made.
unfoldable pub initialize : Tree → Tree × Tree
initialize t = (t, new_node [] 0)

-- `pthread_mutex_lock` of a node that is there; none is a wait for ever, also for a lock that the
-- thread holds itself.
unfoldable pub lock : Tree → Option Tree
lock null = none
lock (node k x locked l r) = if locked then none else some (node k x true l r)

-- Whether `delete` has returned, with the node that it looks at as it is then, after some rounds.
pub data Deleting : Type 0 where
  returns : Tree → Deleting
  waits : Deleting
  goes_on : Tree → Deleting

-- `while (1)` for the node `cur`: a round takes its lock and compares its key, but does nothing
-- with what it finds, and does not move on.
unfoldable pub delete_rounds : ℕ → Tree → Deleting
unfolding lock
delete_rounds zero cur = goes_on cur
delete_rounds (suc fuel) null = returns null
delete_rounds (suc fuel) (node k x locked l r) = elim (lock (node k x locked l r)) [
  | none ↦ waits
  | some cur ↦ delete_rounds fuel cur
]

-- The tree behind `delete` of a key, whatever the key.
unfoldable pub delete : ℕ → Bytes → Tree → Deleting
unfolding delete_rounds
delete fuel key null = waits
delete fuel key (node k x locked l r) =
    let right = delete_rounds fuel r in
    if locked then waits else elim right [
      | returns r' ↦ returns (node k x true l r')
      | waits ↦ waits
      | goes_on r' ↦ goes_on (node k x true l r')
    ]
