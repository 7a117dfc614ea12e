-- ===== src/Common/Text.antt =====
-- The bytes of an ASCII literal.
use Prim.Native.Char.{code}
use Prim.Native.String.{String}
use tlpi_practice.Common.{[], ◌∷◌}
use tlpi_practice.Common.Disk.{Bytes}

unfoldable pub text : String → Bytes
text String.[] = []
text (String.◌∷◌ c cs) = code c ∷ text cs
