-- ===== src/Files/Disk.antt =====
-- A directory is a map from names to contents. Names are C strings without their NUL.
use ucp.Common.{ℕ, Bool, true, false, ◌&&◌, Option, some, List, [], ◌∷◌, ◌==◌, if◌then◌else◌}

abbrev pub Name : Type 0
Name = List ℕ

abbrev pub Disk : Type 0
Disk = Name → Option (List ℕ)

abbrev pub same_name : Name → Name → Bool
same_name [] [] = true
same_name [] (c ∷ b) = false
same_name (c ∷ a) [] = false
same_name (c ∷ a) (d ∷ b) = (c == d) && same_name a b

-- The file with the name has the content.
abbrev pub put : Name → List ℕ → Disk → Disk
put name content disk a = if same_name a name then some content else disk a
