-- ===== src/LockedTree/Deletes.antt =====
-- 30-2-thread-safe_binary-tree.c: `delete` never takes a key out.
use tlpi_practice.Common.{ℕ, suc, ◌≡◌, refl, Bool, true, false}
use tlpi_practice.Common.Disk.{Bytes}
use tlpi_practice.LockedTree.{Tree, null, node, lock, returns, waits, delete_rounds, delete}

-- The second round waits for the lock that the first one has taken.
delete_rounds-waits :
    (fuel : ℕ) (k : Bytes) (x : ℕ) (locked : Bool) (l r : Tree)
    → delete_rounds (suc (suc fuel)) (node k x locked l r) ≡ waits
unfolding delete_rounds lock
delete_rounds-waits fuel k x true l r = refl
delete_rounds-waits fuel k x false l r = refl

-- Where the root has a node on its right, `delete` of any key waits for ever; where it has none, it
-- returns with the tree as it was, but for the lock of the root, which stays held.
pub delete_lem :
    (fuel : ℕ) (key k : Bytes) (x : ℕ) (l r : Tree)
    → delete (suc (suc fuel)) key (node k x false l r)
      ≡ elim r [ null ↦ returns (node k x true l null) | node _ _ _ _ _ ↦ waits ]
unfolding delete delete_rounds
delete_lem fuel key k x l null = refl
delete_lem fuel key k x l (node k' x' locked l' r') =
    rw (delete_rounds-waits fuel k' x' locked l' r') refl
