-- ===== src/Files/Parts.antt =====
-- src/file_io.c: a file split into parts, the parts released, and files merged. `shell` is what `popen` and `pclose` do with a command: nothing where `popen` fails,
-- and else the exit status and the directory that the command leaves. Bytes of texts are ASCII.
use Prim.Native.Char.{code}
use Prim.Native.String.{String}
use ucp.Common.{
  ℕ, zero, suc, ◌+◌, ◌/◌, ◌%◌, Bool, true, false, not, Option, none, some, List, [], ◌∷◌, ◌++◌, ltb,
  ◌==◌, if◌then◌else◌, take, length, Run, ok, fault, ◌>>=◌,
}
use ucp.Common.Words.{u8_mod, u32_mod}
use ucp.Files.Ops.{Handle, opened}
pub use ucp.Files.Disk.{Name, Disk, same_name}

abbrev pub Shell : Type 0
Shell = Name → Disk → Option (ℕ × Disk)

abbrev pub codes : String → Name
codes String.[] = []
codes (String.◌∷◌ c s) = code c ∷ codes s

-- file_io_partition_handle_t, with the two fields that `Handle` leaves out.
pub record Part : Type 0 where
  pub idx : ℕ
  pub filepath : Name
  pub handle : Handle

-- `%d` and `%02d` of a number that is not negative.
abbrev decimal_on : (fuel : ℕ) → ℕ → Name
decimal_on zero n = []
decimal_on (suc k) n =
    let front = decimal_on k (n / 10) in
    if ltb n 10 then (48 + n) ∷ [] else front ++ (48 + n % 10) ∷ []

abbrev decimal : ℕ → Name
decimal n = decimal_on (suc n) n

abbrev two_digits : ℕ → Name
two_digits n = if ltb n 10 then 48 ∷ decimal n else decimal n

-- The first 254 characters of a command are passed on.
abbrev pub split_command : Name → ℕ → Name
split_command filepath count =
    take 254
      (codes "/usr/bin/split -d -n " ++ decimal count ++ codes " " ++ filepath ++ codes " tmp_")

abbrev pub part_name : ℕ → Name
part_name i = codes "tmp_" ++ two_digits i

abbrev pub opened_part : ℕ → List ℕ → Part
opened_part i content = record {
  idx = i;
  filepath = part_name i;
  handle = record {
    fp = some (record { content = content; pos = 0; eof = false });
    last_seq_no = 0;
    part_size = length content % u32_mod;
  };
}

-- The body of the loop of file_io_partition_file, in front of the rest of the loop: the file may be
-- missing, and may not open.
abbrev pub open_part :
    (can_open : Bool)
    → ℕ
    → Option (List ℕ)
    → (rest : Run (Option (List Part))) → Run (Option (List Part))
open_part can_open i none rest = ok none
open_part false i (some content) rest = ok none
open_part true i (some content) rest = do
  parts ← rest
  ok (elim parts [ none ↦ none | some parts ↦ some (opened_part i content ∷ parts) ])

-- The loop, whose counter is a `uint8_t`.
unfoldable pub open_parts :
    (can_open : Name → Bool) → ℕ → Disk → (count i : ℕ) → Run (Option (List Part))
open_parts can_open zero disk count i = fault
open_parts can_open (suc k) disk count i =
    let rest = open_parts can_open k disk count ((i + 1) % u8_mod) in
    if not (ltb i count)
    then ok (some [])
    else open_part (can_open (part_name i)) i (disk (part_name i)) rest

-- What file_io_partition_file does with what the shell has done.
unfoldable pub opened_parts :
    (memory : Bool) (can_open : Name → Bool) (fuel count : ℕ)
    → Option (ℕ × Disk)
    → Run (Option (List Part) × Disk)
opened_parts memory can_open fuel count none = fault
opened_parts memory can_open fuel count (some (ret, disk)) =
    if not (ret == 0)
    then ok (none, disk)
    else (if not memory
        then ok (none, disk)
        else (do parts ← open_parts can_open fuel disk count 0; ok (parts, disk)))

-- file_io_partition_file: `memory` says whether `calloc` succeeds. After a `popen` that fails, `pclose`
-- gets NULL.
unfoldable pub partition_file :
    Shell
    → (memory : Bool) (can_open : Name → Bool) (fuel : ℕ) → Name
    → ℕ
    → Disk
    → Run (Option (List Part) × Disk)
partition_file shell memory can_open fuel filepath count disk =
    opened_parts memory can_open fuel count (shell (split_command filepath count) disk)

abbrev pub remove : Name → Disk → Disk
remove name disk a = if same_name a name then none else disk a

-- The loop of file_io_partition_release, with the rounds to come. `fclose` of NULL is a fault.
unfoldable pub release_loop : ℕ → List Part → Disk → Run Disk
release_loop zero parts disk = ok disk
release_loop (suc n) [] disk = fault
release_loop (suc n) (part ∷ parts) disk = do
  fp ← opened part.handle.fp
  release_loop n parts (remove part.filepath disk)

-- file_io_partition_release: `count` is a `uint8_t`.
unfoldable pub partition_release : List Part → ℕ → Disk → Run Disk
partition_release handle count disk = release_loop (count % u8_mod) handle disk

abbrev pub cat_command : Name → Name → Name
cat_command prefix outfile = take 254 (codes "/usr/bin/cat " ++ prefix ++ codes "* > " ++ outfile)

-- file_io_merge_file
unfoldable pub merge_file : Shell → (prefix outfile : Name) → Disk → Run (Bool × Disk)
merge_file shell prefix outfile disk =
    let cleared : Disk = elim (disk outfile) [ none ↦ disk | some content ↦ remove outfile disk ] in
    elim (shell (cat_command prefix outfile) cleared) [
      | none ↦ fault
      | some (ret, disk') ↦ ok (ret == 0, disk')
    ]
