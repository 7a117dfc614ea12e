-- ===== src/PipeEcho.antt =====
-- 44-1-pipe_echo.c: the lines that go to the child and come back in upper case.
mod Echoes
mod Tests
use tlpi_practice.Common.{
  ℕ, zero, suc, ◌-◌, Bool, true, false, ◌&&◌, Option, none, some, List, [], ◌∷◌, ◌++◌, leb, ◌==◌,
  if◌then◌else◌,
}
use tlpi_practice.Common.CString.{cstring}
use tlpi_practice.Common.Disk.{Bytes}

abbrev pub toupper : ℕ → ℕ
toupper c = if leb b'a' c && leb c b'z' then c - 32 else c

-- The loop of the child over the bytes that it has read, up to a NUL.
unfoldable pub raise : Bytes → Bytes
raise [] = []
raise (b ∷ bs) = let rest = raise bs in if b == 0 then b ∷ bs else toupper b ∷ rest

-- One round of the parent: `line` is what fgets reads, or none at the end of the input, where it
-- leaves `buf` as it is, the bytes before its NUL. The line and its NUL fit the pipe, so the child
-- reads them at once. The result is `buf` as it is then, which is what is printed.
unfoldable pub round : Option Bytes → Bytes → Bytes
unfolding raise
round none buf = cstring (raise (buf ++ 0 ∷ []))
round (some line) buf = cstring (raise (line ++ 0 ∷ []))

-- `while (1)`, over the results of fgets up to any round: `buf` and what has been printed.
unfoldable pub rounds : List (Option Bytes) → Bytes → Bytes → Bytes × Bytes
unfolding round
rounds [] buf out = (buf, out)
rounds (l ∷ ls) buf out = let buf' = round l buf in rounds ls buf' (out ++ buf')
