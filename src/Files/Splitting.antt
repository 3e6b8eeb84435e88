-- ===== src/Files/Splitting.antt =====
-- A file split into parts that are sent one by one.
use ucp.Common.{
  ℕ, zero, suc, ◌+◌, ◌%◌, ◌<◌, ◌≤◌, ◌≡◌, refl, sym, ap, ◌∙◌, arith, true, false, Option, none, some,
  List, [], ◌∷◌, ◌++◌, ltb, length, map, All, Run, ok, fault,
}
use ucp.Common.Words.{u8_mod, u32_mod}
use ucp.Packet.Types.{Packet}
use ucp.Files.Ops.{Handle}
use ucp.Files.Reading.{read_all}
use ucp.Files.Saving.{save_all, Holds}
use ucp.Files.AnyOrder.{save_all-read_all}
use ucp.Files.Parts.{
  Name, Disk, Shell, Part, split_command, part_name, opened_part, open_parts, opened_parts,
  partition_file,
}
use mathlib.Core.List.{Memᴰ}

-- The directory has the contents under the names of the parts from `i` on.
abbrev pub HasParts : Disk → ℕ → List (List ℕ) → Type 0
HasParts disk i [] = Unit {0}
HasParts disk i (c ∷ cs) = (disk (part_name i) ≡ some c) × HasParts disk (i + 1) cs

abbrev pub parts_from : ℕ → List (List ℕ) → List Part
parts_from i [] = []
parts_from i (c ∷ cs) = opened_part i c ∷ parts_from (i + 1) cs

abbrev pub concat : List (List ℕ) → List ℕ
concat [] = []
concat (c ∷ cs) = c ++ concat cs

open_parts_lem :
    (k i count : ℕ) (disk : Disk) (cs : List (List ℕ))
    → HasParts disk i cs
    → i + length cs ≡ count
    → count < u8_mod
    → length cs < k
    → open_parts (λ name. true) k disk count i ≡ ok (some (parts_from i cs))
unfolding open_parts
open_parts_lem zero i count disk cs has ends small enough = absurd (omega arith)
open_parts_lem (suc k) i count disk [] has ends small enough =
    let over : ltb i count ≡ false = ground arith in rw over
open_parts_lem (suc k) i count disk (c ∷ cs) (here, has) ends small enough =
    let going : ltb i count ≡ true = ground arith in
    let step : (i + 1) % u8_mod ≡ i + 1 = ground arith in
    rw (
      going,
      here,
      step,
      open_parts_lem k (i + 1) count disk cs has (omega arith) small (omega arith),
    )

-- Where the command that file_io_partition_file gives to the shell ends with status 0 and leaves the
-- parts of a file, at most 255, under their names, and `calloc` and `fopen` succeed, one round more than
-- there are parts opens them all: each part has its number, its name, its content and size, and is at
-- its start.
pub partition_file_lem :
    (shell : Shell) (fuel : ℕ) (filepath : Name) (disk disk' : Disk) (cs : List (List ℕ))
    → shell (split_command filepath (length cs)) disk ≡ some (0, disk')
    → HasParts disk' 0 cs
    → length cs < u8_mod
    → length cs < fuel
    → partition_file shell true (λ name. true) fuel filepath (length cs) disk
      ≡ ok (some (parts_from 0 cs), disk')
unfolding partition_file opened_parts
partition_file_lem shell fuel filepath disk disk' cs split has small enough =
    rw (split, open_parts_lem fuel 0 (length cs) disk' cs has (omega arith) small enough)

-- What the file of a handle holds.
abbrev pub content_of : Handle → List ℕ
content_of h = elim h.fp [ none ↦ [] | some fp ↦ fp.content ]

-- The part has been read to its end, its packets, and no others, have been saved, each at least once and
-- in any order, into a file of its size, and the handle `to` is what the last of them left.
pub record Arrived (k : ℕ) (part : Part) (to : Handle) : Type 0 where
  pub packets : List Packet
  pub saved : List Packet
  pub behind : Handle
  pub file : Handle
  pub old : List ℕ
  pub run : read_all k part.handle ≡ ok (packets, behind)
  pub sent : All (λ q. Memᴰ q packets) saved
  pub all : All (λ p. Memᴰ p saved) packets
  pub blank : Holds file old
  pub sized : length old ≡ length (content_of part.handle)
  pub arrived : save_all file saved ≡ ok to

abbrev pub AllArrived : ℕ → List Part → List Handle → Type 0
AllArrived k [] [] = Unit {0}
AllArrived k [] (to ∷ tos) = ⊥
AllArrived k (part ∷ parts) [] = ⊥
AllArrived k (part ∷ parts) (to ∷ tos) = Arrived k part to × AllArrived k parts tos

abbrev handle_or : Handle → Run Handle → Handle
handle_or h (ok to) = to
handle_or h fault = h

part_arrives :
    (k i : ℕ) (c : List ℕ) (to : Handle)
    → length c < k
    → k ≤ u32_mod
    → Arrived k (opened_part i c) to
    → content_of to ≡ c
part_arrives k i c to enough within a =
    let (to', run, (fp, is_open, has)) =
      save_all-read_all k (opened_part i c).handle (record { content = c; pos = 0; eof = false })
        refl refl refl enough (omega arith) a.packets a.saved a.behind a.file a.old a.run a.sent
        a.all a.blank a.sized in
    let same : to' ≡ to = ap (handle_or to) (sym run ∙ a.arrived) in
    let still_open : to.fp ≡ some fp = ap (λ (h : Handle). h.fp) (sym same) ∙ is_open in
    rw still_open has

parts_arrive :
    (k i : ℕ) (cs : List (List ℕ)) (tos : List Handle)
    → All (λ c. length c < k) cs
    → k ≤ u32_mod
    → AllArrived k (parts_from i cs) tos
    → concat (map content_of tos) ≡ concat cs
parts_arrive k i [] [] enough within arrived = refl
parts_arrive k i [] (to ∷ tos) enough within arrived = absurd arrived
parts_arrive k i (c ∷ cs) [] enough within arrived = absurd arrived
parts_arrive k i (c ∷ cs) (to ∷ tos) (one, enough) within (here, arrived) =
    rw (part_arrives k i c to one within here, parts_arrive k (i + 1) cs tos enough within arrived)

abbrev parts_or : Run (Option (List Part) × Disk) → List Part
parts_or (ok (some parts, disk)) = parts
parts_or (ok (none, disk)) = []
parts_or fault = []

-- When file_io_partition_file has split a file of at most 255 parts, whose contents make up the file, each
-- less than 2^32 bytes long, and each part has been read to its end, in one round more than it has
-- bytes, and its packets have been saved, each at least once and in any order, into a file of its size, then
-- the files that were written make up the file.
pub parts_make_up_file :
    (shell : Shell) (fuel k : ℕ) (filepath : Name) (disk disk' : Disk) (content : List ℕ)
    (cs : List (List ℕ)) (parts : List Part) (tos : List Handle)
    → shell (split_command filepath (length cs)) disk ≡ some (0, disk')
    → HasParts disk' 0 cs
    → concat cs ≡ content
    → length cs < u8_mod
    → length cs < fuel
    → All (λ c. length c < k) cs
    → k ≤ u32_mod
    → partition_file shell true (λ name. true) fuel filepath (length cs) disk
      ≡ ok (some parts, disk')
    → AllArrived k parts tos
    → concat (map content_of tos) ≡ content
parts_make_up_file shell fuel k filepath disk disk' content cs parts tos split has whole small
      enough rounds within run arrived =
    let these : parts ≡ parts_from 0 cs =
      ap parts_or
        (sym run ∙ partition_file_lem shell fuel filepath disk disk' cs split has small enough) in
    parts_arrive k 0 cs tos rounds within (rw these at arrived) ∙ whole
