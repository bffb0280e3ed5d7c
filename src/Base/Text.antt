-- ===== src/Base/Text.antt =====
-- Python's `str` operations that the program uses, over native texts: `strip`, `in`, the order.
use Prim.Native.Nat.{ℕ, suc}
use Prim.Native.Char.{Char, code}
use Prim.Native.String.{String, compare}
use mathlib.Core.Bool.{Bool, ◌||◌, ◌&&◌}
use text.Mathlib.Text.{find?, is_lt}
use bank_reconciliation_agen.Base.Tests.{leb, ◌==◌, if◌then◌else◌, is_some}

-- `s.isspace()` of one character, by its code point.
unfoldable pub is_space : ℕ → Bool
is_space n =
    (leb 9 n && leb n 13)
    || (leb 28 n && leb n 32)
    || n == 133
    || n == 160
    || n == 5760
    || (leb 8192 n && leb n 8202)
    || n == 8232
    || n == 8233
    || n == 8239
    || n == 8287
    || n == 12288

-- `s.lstrip()`
unfoldable pub lstrip : String → String
unfolding is_space
lstrip String.[] = ""
lstrip (String.◌∷◌ c s) = let rest = lstrip s in if is_space (code c) then rest else String.◌∷◌ c s

-- A character in front of a text that is stripped on the right already.
unfoldable pub put_front : Char → String → String
unfolding is_space
put_front c String.[] = if is_space (code c) then "" else String.◌∷◌ c ""
put_front c (String.◌∷◌ d t) = String.◌∷◌ c (String.◌∷◌ d t)

-- `s.rstrip()`
unfoldable pub rstrip : String → String
unfolding put_front
rstrip String.[] = ""
rstrip (String.◌∷◌ c s) = put_front c (rstrip s)

-- `s.strip()`
unfoldable pub strip : String → String
unfolding lstrip rstrip
strip s = rstrip (lstrip s)

-- `part in s`
unfoldable pub contains : String → String → Bool
contains part s = is_some (find? s part)

abbrev pub str_lt : String → String → Bool
str_lt s t = is_lt (compare s t)

-- `len(s)`
unfoldable pub len : String → ℕ
len String.[] = 0
len (String.◌∷◌ c s) = suc (len s)
