-- ===== src/ReadLine/Tests.antt =====
-- 59-1-readLine.c on the bytes `ab\nc\n`.
use tlpi_practice.Common.{◌≡◌, refl, some, [], ◌∷◌, ◌++◌, arith, replicate}
use tlpi_practice.Common.Disk.{Bytes, overlay}
use tlpi_practice.Common.Text.{text}
use tlpi_practice.ReadLine.{
  Buffer, bytes, eintr, returns, use_after_free, fill, refill, copy_line, find, finish_new,
  read_line,
}
use tlpi_practice.ReadLine.Lines.{NoNewline, read_line-line}

abbrev malloc : Bytes
malloc = replicate 16 0

abbrev filled : Buffer
filled = record { fd = 3; cur = 0; size = 5; buf = text "ab\nc\n" ++ replicate 11 0 }

-- The first call fills the buffer, behind a call of `read` that a signal interrupts.
first_line :
    read_line malloc 3 8 [] (eintr ∷ bytes (text "ab\nc\n") ∷ [])
    ≡ returns (some 2) (text "ab") (filled ∷ []) []
unfolding read_line fill copy_line find finish_new overlay text refill
first_line = refl

-- At the end of the input, the loop reads the node that it has freed.
ends_in_freed : read_line malloc 3 8 [] (bytes (text "ab") ∷ []) ≡ use_after_free
unfolding read_line fill copy_line find finish_new overlay text refill
ends_in_freed = refl

-- The second call returns the first line again.
read_line-line_example :
    read_line malloc 3 8 (filled ∷ []) [] ≡ returns (some 2) (text "ab") (filled ∷ []) []
unfolding find NoNewline text
read_line-line_example =
    read_line-line malloc 3 8 (filled ∷ []) [] filled [] (text "ab") (text "c\n" ++ replicate 11 0)
      refl refl refl (omega arith) (refl, (refl, tt)) (omega arith)
