-- ===== src/Files/Releasing.antt =====
-- file_io_partition_release, and file_io_partition_file on more parts than a byte counts.
use ucp.Common.{
  ℕ, zero, suc, ◌+◌, ◌%◌, ◌<◌, ◌≤◌, ◌≡◌, ◌≢◌, refl, sym, ap, ◌∙◌, arith, Bool, true, false, ◌||◌,
  Option, none, some, List, [], ◌∷◌, ltb, ◌==◌, length, Run, ok, fault, ◌>>=◌, if◌then◌else◌,
  Bool-cases, inl, inr, All,
}
use ucp.Common.Words.{u8_mod}
use ucp.Files.Stream.{Stream}
use ucp.Files.Parts.{
  Name, Disk, Shell, same_name, Part, split_command, part_name, open_part, open_parts, opened_parts,
  partition_file, remove, release_loop, partition_release,
}

-- The name is that of one of the parts.
abbrev pub is_named : Name → List Part → Bool
is_named name [] = false
is_named name (part ∷ parts) = same_name name part.filepath || is_named name parts

abbrev released : List Part → Disk → Disk
released [] disk = disk
released (part ∷ parts) disk = released parts (remove part.filepath disk)

released_lem :
    (parts : List Part) (disk : Disk) (name : Name)
    → released parts disk name ≡ (if is_named name parts then none else disk name)
released_lem [] disk name = refl
released_lem (part ∷ parts) disk name =
    let rest = released_lem parts (remove part.filepath disk) name in
    elim (Bool-cases (same_name name part.filepath)) [
      | inl this ↦ elim (Bool-cases (is_named name parts)) [
        | inl again ↦ rw (rest, again, this) refl
        | inr once ↦ rw (rest, once, this) refl
      ]
      | inr other ↦ rw (rest, other) refl
    ]

-- The part has an open stream.
abbrev pub IsOpen : Part → Type 0
IsOpen part = (fp : Stream) × (part.handle.fp ≡ some fp)

release_loop_lem :
    (parts : List Part) (disk : Disk)
    → All IsOpen parts
    → release_loop (length parts) parts disk ≡ ok (released parts disk)
unfolding release_loop
release_loop_lem [] disk all = refl
release_loop_lem (part ∷ parts) disk ((fp, is_open), all) =
    rw is_open (release_loop_lem parts (remove part.filepath disk) all)

-- On at most 255 parts whose streams are all open, and their number, file_io_partition_release runs to its
-- end and removes the files of the parts from the directory, and no other.
pub partition_release_lem :
    (parts : List Part) (disk : Disk)
    → length parts < u8_mod
    → All IsOpen parts
    → (disk' : Disk) × (partition_release parts (length parts) disk ≡ ok disk')
      × ((name : Name) → disk' name ≡ (if is_named name parts then none else disk name))
unfolding partition_release
partition_release_lem parts disk small all =
    let count : length parts % u8_mod ≡ length parts = omega arith in
    (released parts disk, rw (count, release_loop_lem parts disk all) refl, released_lem parts disk)

-- A run that does not return parts.
abbrev gives_parts : Run (Option (List Part)) → Bool
gives_parts (ok (some parts)) = true
gives_parts (ok none) = false
gives_parts fault = false

open_part_fails :
    (can_open : Bool) (i : ℕ) (content : Option (List ℕ)) (rest : Run (Option (List Part)))
    → gives_parts rest ≡ false
    → gives_parts (open_part can_open i content rest) ≡ false
open_part_fails can_open i none rest closed = refl
open_part_fails false i (some content) rest closed = refl
open_part_fails true i (some content) (ok none) closed = refl
open_part_fails true i (some content) (ok (some parts)) closed = closed
open_part_fails true i (some content) fault closed = refl

never_open :
    (can_open : Name → Bool) (k : ℕ) (disk : Disk) (count i : ℕ)
    → u8_mod ≤ count
    → i < u8_mod
    → gives_parts (open_parts can_open k disk count i) ≡ false
unfolding open_parts
never_open can_open zero disk count i large small = refl
never_open can_open (suc k) disk count i large small =
    let going : ltb i count ≡ true = ground arith in
    let rest = never_open can_open k disk count ((i + 1) % u8_mod) large (omega arith) in
    rw going (
      open_part_fails (can_open (part_name i)) i (disk (part_name i))
        (open_parts can_open k disk count ((i + 1) % u8_mod)) rest)

abbrev open_of : Run (Option (List Part) × Disk) → Bool
open_of (ok (some parts, disk)) = true
open_of (ok (none, disk)) = false
open_of fault = false

with_disk_fails :
    (r : Run (Option (List Part))) (disk : Disk)
    → gives_parts r ≡ false
    → open_of (r >>= λ parts. ok (parts, disk)) ≡ false
with_disk_fails (ok none) disk closed = refl
with_disk_fails (ok (some parts)) disk closed = closed
with_disk_fails fault disk closed = refl

opened_parts_fails :
    (memory : Bool) (can_open : Name → Bool) (fuel count : ℕ) (done : Option (ℕ × Disk))
    → u8_mod ≤ count
    → open_of (opened_parts memory can_open fuel count done) ≡ false
unfolding opened_parts
opened_parts_fails memory can_open fuel count none large = refl
opened_parts_fails memory can_open fuel count (some (ret, disk)) large =
    elim (Bool-cases (ret == 0)) [
      | inl success ↦ elim (Bool-cases memory) [
        | inl some_memory ↦
            rw (success, some_memory)
              (with_disk_fails (open_parts can_open fuel disk count 0) disk
                (never_open can_open fuel disk count 0 large (omega arith)))
        | inr no_memory ↦ rw (success, no_memory) refl
      ]
      | inr failure ↦ rw failure refl
    ]

-- On 256 parts or more, whatever the shell does, file_io_partition_file returns no handles, however many
-- rounds it is given: its counter starts again at 0.
pub too_many_parts :
    (shell : Shell) (memory : Bool) (can_open : Name → Bool) (fuel : ℕ) (filepath : Name)
    (count : ℕ) (disk disk' : Disk) (parts : List Part)
    → u8_mod ≤ count
    → partition_file shell memory can_open fuel filepath count disk ≢ ok (some parts, disk')
unfolding partition_file
too_many_parts shell memory can_open fuel filepath count disk disk' parts large run =
    let closed =
      opened_parts_fails memory can_open fuel count (shell (split_command filepath count) disk)
        large in
    let returned : true ≡ false = ap open_of (sym run) ∙ closed in cc
