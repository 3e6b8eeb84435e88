-- ===== src/Files/Tests.antt =====
-- The theorems about files at a file of three bytes.
use ucp.Common.{
  ℕ, ◌<◌, none, ◌≢◌, if◌then◌else◌, map, ◌≡◌, refl, arith, true, false, some, List, [], ◌∷◌, length,
  ok, All,
}
use ucp.Packet.Types.{Packet}
use ucp.Files.Stream.{Stream}
use ucp.Files.Ops.{Handle}
use ucp.Files.Reading.{chunk_packet, read_all, get_next_packet_lem}
use ucp.Files.Flags.{ended, read_all-ended}
use ucp.Files.Saving.{covered, Piece, save_all, Holds}
use ucp.Files.Transfer.{seq_nos, numbers}
use ucp.Files.AnyOrder.{read_all_lem, save_all-read_all}
use ucp.Files.Parts.{
  Name, Disk, Shell, partition_release, codes, same_name, split_command, part_name, opened_part,
  partition_file,
}
use ucp.Files.Splitting.{
  parts_from, concat, content_of, Arrived, partition_file_lem, parts_make_up_file,
}
use ucp.Files.Releasing.{is_named, partition_release_lem, too_many_parts}
use mathlib.Core.List.{Memᴰ}

abbrev small_file : Stream
small_file = record { content = 1 ∷ 2 ∷ 3 ∷ []; pos = 0; eof = false }

abbrev at_end : Stream
at_end = record { content = 1 ∷ 2 ∷ 3 ∷ []; pos = 3; eof = true }

abbrev sender : Handle
sender = record { fp = some small_file; last_seq_no = 7; part_size = 3 }

abbrev sender_after : Handle
sender_after = record { fp = some at_end; last_seq_no = 8; part_size = 3 }

abbrev receiver : Handle
receiver = record {
  fp = some (record { content = 0 ∷ 0 ∷ 0 ∷ []; pos = 3; eof = false });
  last_seq_no = 0;
  part_size = 3;
}

abbrev only : Packet
only = chunk_packet 7 0 true (1 ∷ 2 ∷ 3 ∷ [])

sender-only : read_all 4 sender ≡ ok (only ∷ [], sender_after)
unfolding read_all
sender-only =
    rw (get_next_packet_lem sender small_file refl, get_next_packet_lem sender_after at_end refl)

save_all-read_all_example :
    (to' : Handle) × (save_all receiver (only ∷ only ∷ []) ≡ ok to') × Holds to' (1 ∷ 2 ∷ 3 ∷ [])
save_all-read_all_example =
    save_all-read_all 4 sender small_file refl refl refl (omega arith) (omega arith) (only ∷ [])
      (only ∷ only ∷ []) sender_after receiver (0 ∷ 0 ∷ 0 ∷ []) sender-only
      (Memᴰ.head refl, (Memᴰ.head refl, tt)) (Memᴰ.head refl, tt)
      (record { content = 0 ∷ 0 ∷ 0 ∷ []; pos = 3; eof = false }, refl, refl) refl

read_all_lem_example :
    (h' : Handle) × (ps : List Packet) × (read_all 4 sender ≡ ok (ps, h'))
    × (seq_nos ps ≡ numbers 7 (length ps))
    × All (Piece (1 ∷ 2 ∷ 3 ∷ [])) ps
    × (covered ps 2 ≡ true)
read_all_lem_example =
    read_all_lem 4 sender small_file refl refl refl (omega arith) (omega arith) 2 (omega arith)

read_all-ended_example :
    (h' : Handle) × (ps : List Packet) × (read_all 4 sender ≡ ok (ps, h')) × (ended ps ≡ false)
read_all-ended_example = read_all-ended 4 sender small_file refl refl refl (omega arith)

-- A file of three bytes in two parts.
abbrev halves : List (List ℕ)
halves = (1 ∷ 2 ∷ []) ∷ (3 ∷ []) ∷ []

-- A shell on which every command leaves the two parts.
abbrev split_disk : Disk
split_disk name =
    if same_name name (part_name 0)
    then some (1 ∷ 2 ∷ [])
    else (if same_name name (part_name 1) then some (3 ∷ []) else none)

abbrev shell : Shell
shell command disk = some (0, split_disk)

abbrev no_files : Disk
no_files name = none

abbrev source : List ℕ
source = codes "file"

names : split_command source 2 ≡ codes "/usr/bin/split -d -n 2 file tmp_"
names = refl

tenth : part_name 12 ≡ codes "tmp_12"
tenth = refl

partition_file_lem_example :
    partition_file shell true (λ name. true) 3 source 2 no_files
    ≡ ok (some (opened_part 0 (1 ∷ 2 ∷ []) ∷ opened_part 1 (3 ∷ []) ∷ []), split_disk)
partition_file_lem_example =
    partition_file_lem shell 3 source no_files split_disk halves refl (refl, (refl, tt))
      (omega arith) (omega arith)

too_many_parts_example :
    partition_file shell true (λ name. true) 300 source 256 no_files ≢ ok (some [], split_disk)
too_many_parts_example =
    too_many_parts shell true (λ name. true) 300 source 256 no_files split_disk [] (omega arith)

abbrev blank_file : List ℕ → Handle
blank_file old = record {
  fp = some (record { content = old; pos = 0; eof = false });
  last_seq_no = 0;
  part_size = 2;
}

-- The stream and the handle of a part that has been read.
abbrev read_stream : List ℕ → Stream
read_stream c = record { content = c; pos = length c; eof = true }

abbrev read_part : ℕ → List ℕ → Handle
read_part i c = record ((opened_part i c).handle) { fp = some (read_stream c); last_seq_no = 1 }

abbrev sole : List ℕ → Packet
sole c = chunk_packet 0 0 true c

first_run :
    read_all 4 (opened_part 0 (1 ∷ 2 ∷ [])).handle
    ≡ ok (sole (1 ∷ 2 ∷ []) ∷ [], read_part 0 (1 ∷ 2 ∷ []))
unfolding read_all
first_run = rw (
  get_next_packet_lem (opened_part 0 (1 ∷ 2 ∷ [])).handle
      (record { content = 1 ∷ 2 ∷ []; pos = 0; eof = false }) refl,
  get_next_packet_lem (read_part 0 (1 ∷ 2 ∷ [])) (read_stream (1 ∷ 2 ∷ [])) refl,
)

second_run :
    read_all 4 (opened_part 1 (3 ∷ [])).handle ≡ ok (sole (3 ∷ []) ∷ [], read_part 1 (3 ∷ []))
unfolding read_all
second_run = rw (
  get_next_packet_lem (opened_part 1 (3 ∷ [])).handle
      (record { content = 3 ∷ []; pos = 0; eof = false }) refl,
  get_next_packet_lem (read_part 1 (3 ∷ [])) (read_stream (3 ∷ [])) refl,
)

arrival :
    (i : ℕ) (c old : List ℕ)
    → read_all 4 (opened_part i c).handle ≡ ok (sole c ∷ [], read_part i c)
    → length c < 4
    → length old ≡ length c
    → (to : Handle) × Arrived 4 (opened_part i c) to
arrival i c old run short same =
    let (to, saved, _) =
      save_all-read_all 4 (opened_part i c).handle (record { content = c; pos = 0; eof = false })
        refl refl refl short (omega arith) (sole c ∷ []) (sole c ∷ sole c ∷ []) (read_part i c)
        (blank_file old) old run (Memᴰ.head refl, (Memᴰ.head refl, tt)) (Memᴰ.head refl, tt)
        (record { content = old; pos = 0; eof = false }, refl, refl) same in
    (
      to,
      record {
        packets = sole c ∷ [];
        saved = sole c ∷ sole c ∷ [];
        behind = read_part i c;
        file = blank_file old;
        old = old;
        run = run;
        sent = (Memᴰ.head refl, (Memᴰ.head refl, tt));
        all = (Memᴰ.head refl, tt);
        blank = (record { content = old; pos = 0; eof = false }, refl, refl);
        sized = same;
        arrived = saved;
      },
    )

abbrev first_arrival : (to : Handle) × Arrived 4 (opened_part 0 (1 ∷ 2 ∷ [])) to
first_arrival = arrival 0 (1 ∷ 2 ∷ []) (0 ∷ 0 ∷ []) first_run (omega arith) refl

abbrev second_arrival : (to : Handle) × Arrived 4 (opened_part 1 (3 ∷ [])) to
second_arrival = arrival 1 (3 ∷ []) (0 ∷ []) second_run (omega arith) refl

parts_make_up_file_example :
    concat (map content_of (first_arrival.0 ∷ second_arrival.0 ∷ [])) ≡ 1 ∷ 2 ∷ 3 ∷ []
parts_make_up_file_example =
    parts_make_up_file shell 3 4 source no_files split_disk (1 ∷ 2 ∷ 3 ∷ []) halves
      (parts_from 0 halves) (first_arrival.0 ∷ second_arrival.0 ∷ []) refl (refl, (refl, tt)) refl
      (omega arith) (omega arith) (omega arith, (omega arith, tt)) (omega arith)
      (partition_file_lem shell 3 source no_files split_disk halves refl (refl, (refl, tt))
        (omega arith) (omega arith))
      (first_arrival.1, (second_arrival.1, tt))

partition_release_lem_example :
    (disk' : Disk) × (partition_release (parts_from 0 halves) 2 split_disk ≡ ok disk')
    × ((name : Name)
        → disk' name ≡ (if is_named name (parts_from 0 halves) then none else split_disk name))
partition_release_lem_example =
    partition_release_lem (parts_from 0 halves) split_disk (omega arith) (
      (record { content = 1 ∷ 2 ∷ []; pos = 0; eof = false }, refl),
      ((record { content = 3 ∷ []; pos = 0; eof = false }, refl), tt),
    )
