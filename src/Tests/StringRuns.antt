-- ===== src/Tests/StringRuns.antt =====
-- Strings in a small memory.
use gem_os_extension.Base.{◌≡◌, ltb, if◌then◌else◌}
use gem_os_extension.Strings.{Memory, memmove}
use gem_os_extension.Strings.Move.{moved, memmove-moved}

-- A string of three characters at 100.
abbrev small : Memory
small a = if ltb 102 a then 0 else a

memmove-moved_example : memmove small 101 100 3 102 ≡ moved small 101 100 3 102
memmove-moved_example = memmove-moved small 101 100 3 102
