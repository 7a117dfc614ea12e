-- ===== src/ProcessTree.antt =====
-- 12-2-print_process_tree.c: the table of processes, from the files below /proc to the tree that is
-- printed.
mod Table
mod Build
mod Print
mod Draw
mod Printed
mod Tests
use tlpi_practice.Common.{
  ℕ, zero, suc, Bool, ◌&&◌, Option, none, some, List, [], ◌∷◌, ltb, ◌==◌, if◌then◌else◌,
}
use tlpi_practice.Common.Disk.{Bytes}
use tlpi_practice.Common.Threads.{put}

abbrev pub max_pid : ℕ
max_pid = 32768

-- A parent number of -1, which a node has until its own file is read, is `none`, as `ins` is where
-- it is NULL. The list behind `child` is given by the numbers of its nodes.
pub record Node : Type 0 where
  pub pid : ℕ
  pub ppid : Option ℕ
  pub ins : Option Bytes
  pub child : List ℕ

-- The array `process`.
abbrev pub Table : Type 0
Table = ℕ → Option Node

abbrev pub empty : Table
empty i = none

-- `process[pid]->next = process[ppid]->child->next; process[ppid]->child->next = process[pid]`
unfoldable pub add_child : ℕ → ℕ → Table → Table
add_child ppid pid t = elim (t ppid) [
  | none ↦ t
  | some n ↦ put t ppid (some (record n { child = pid ∷ n.child }))
]

-- A node for a parent whose own file has not been read.
unfoldable pub ensure_parent : ℕ → Table → Table
ensure_parent ppid t = elim (t ppid) [
  | none ↦ put t ppid (some (record { pid = ppid; ppid = none; ins = none; child = [] }))
  | some n ↦ t
]

-- No node has the number -1, so that a node that is there is never changed.
unfoldable pub create_node : ℕ → ℕ → Bytes → Table → Table
unfolding add_child ensure_parent
create_node pid ppid ins t = elim (t pid) [
  | some n ↦ t
  | none ↦
      let node : Node = record { pid = pid; ppid = some ppid; ins = some ins; child = [] } in
      add_child ppid pid (ensure_parent ppid (put t pid (some node)))
]

-- What is read from one file.
pub record Entry : Type 0 where
  pub pid : ℕ
  pub ppid : ℕ
  pub name : Bytes

pub data Result : Type 0 where
  ok : Table → Result
  -- a number that is no index of the array
  overrun : Result
  -- process 1 takes over its own children for ever
  diverges : Result
  -- there is no process 1
  null_pointer : Result

-- The loop over the files.
unfoldable pub read_all : List Entry → Table → Result
unfolding create_node
read_all [] t = ok t
read_all (e ∷ es) t =
    let rest = read_all es (create_node e.pid e.ppid e.name t) in
    if ltb e.pid max_pid && ltb e.ppid max_pid then rest else overrun

-- `while (tmp = process[i]->child->next)`, from the children of `i` to the front of those of 1.
unfoldable pub move_children : List ℕ → List ℕ → List ℕ
move_children [] ones = ones
move_children (c ∷ cs) ones = move_children cs (c ∷ ones)

-- Process 1 takes over the children of a node that has no file of its own.
unfoldable pub adopt : ℕ → Table → Result
unfolding move_children
adopt i t = elim (t i) [
  | none ↦ ok t
  | some n ↦ elim n.ppid [
    | some p ↦ ok t
    | none ↦ elim n.child [
      | [] ↦ ok t
      | c ∷ cs ↦ if i == 1 then diverges else elim (t 1) [
        | none ↦ null_pointer
        | some one ↦ ok (
            put (put t i (some (record n { child = [] }))) 1
              (some (record one { child = move_children (c ∷ cs) one.child })))
      ]
    ]
  ]
]

-- The loop over the nodes from `i` on, `fuel` of them.
unfoldable pub adopt_all : ℕ → ℕ → Table → Result
unfolding adopt
adopt_all zero i t = ok t
adopt_all (suc fuel) i t = elim (adopt i t) [
  | ok t' ↦ adopt_all fuel (suc i) t'
  | overrun ↦ overrun
  | diverges ↦ diverges
  | null_pointer ↦ null_pointer
]

-- `main` up to the call of `print_tree`.
unfoldable pub build : List Entry → Result
unfolding read_all adopt_all
build es = elim (read_all es empty) [
  | ok t ↦ adopt_all 32767 1 t
  | overrun ↦ overrun
  | diverges ↦ diverges
  | null_pointer ↦ null_pointer
]
