-- ===== src/Files/Ops.antt =====
-- src/file_io.c: packets read from a part of a file, and packets saved to a file. The argument
-- `memory` says whether `malloc` succeeds; `accepted` and `flushed` say what becomes of a write.
use ucp.Common.{
  ℕ, zero, suc, ◌-◌, Bool, true, false, Option, none, some, List, [], ltb, ◌==◌, not, if◌then◌else◌,
  length, Run, ok, fault, ◌>>=◌, read_at, write_at,
}
use ucp.Common.Words.{succ32, u32_mod}
use ucp.Common.{◌%◌}
use ucp.Packet.Types.{Packet, zeros, udp_packet_data_size, flag_data_start, flag_data_end}
use ucp.Packet.Init.{packet_init_data}
use ucp.Files.Disk.{Name, Disk, put}
use ucp.Files.Stream.{Stream, fseek, fread, fwrite}

-- file_io_partition_handle_t, without the fields that these functions do not use. `fp` may be NULL.
pub record Handle : Type 0 where
  pub fp : Option Stream
  pub last_seq_no : ℕ
  pub part_size : ℕ

-- A stream function on NULL is a fault.
abbrev pub opened : Option Stream → Run Stream
opened none = fault
opened (some fp) = ok fp

-- The packet made of the bytes that were read into the zeroed `buffer`, under the next number.
unfoldable pub packet_of_read : Bool → Handle → ℕ → List ℕ → Stream → Run (Option Packet × Handle)
packet_of_read memory handle offset bytes fp = do
  buffer ← write_at 0 bytes (zeros udp_packet_data_size)
  if length bytes == 0 then ok (none, record handle { fp = some fp }) else (do
    packet ← packet_init_data memory handle.last_seq_no offset buffer (length bytes)
    ok (packet, record handle { fp = some fp; last_seq_no = succ32 handle.last_seq_no }))

-- The flag of a packet that was read at `offset`. A packet that is NULL is written through.
unfoldable pub set_flag : ℕ → Bool → Option Packet → Run (Option Packet)
set_flag offset eof none = if offset == 0 then fault else (if eof then fault else ok none)
set_flag offset eof (some p) = ok (
    some (
      if offset == 0
      then record p { data_packet = record (p.data_packet) { flag = flag_data_start } }
      else (if eof
          then record p { data_packet = record (p.data_packet) { flag = flag_data_end } }
          else p)))

-- file_io_get_next_packet
unfoldable pub get_next_packet : Bool → Handle → Run (Option Packet × Handle)
get_next_packet memory handle = do
  before ← opened handle.fp
  let (bytes, fp) = fread udp_packet_data_size before
  (made, handle') ← packet_of_read memory handle before.pos bytes fp
  if length bytes == 0
      then ok (none, handle')
      else (do packet ← set_flag before.pos fp.eof made; ok (packet, handle'))

-- file_io_get_next_packet_with_offset_and_size: the result of `fseek` is not checked.
unfoldable pub get_next_packet_with_offset_and_size :
    Bool → Handle → ℕ → ℕ → Run (Option Packet × Handle)
get_next_packet_with_offset_and_size memory handle offset size = do
  before ← opened handle.fp
  let (bytes, fp) = fread size (fseek offset before).1
  packet_of_read memory handle offset bytes fp

-- file_io_get_next_packet_with_offset: the result of `fseek` is not checked.
unfoldable pub get_next_packet_with_offset : Bool → Handle → ℕ → Run (Option Packet × Handle)
get_next_packet_with_offset memory handle offset = do
  before ← opened handle.fp
  let (bytes, fp) = fread udp_packet_data_size (fseek offset before).1
  packet_of_read memory handle offset bytes fp

-- file_io_save_packet
unfoldable pub save_packet : (accepted : ℕ) (flushed : Bool) → Handle → Packet → Run (Bool × Handle)
save_packet accepted flushed handle packet = do
  before ← opened handle.fp
  let (sought, at) = fseek packet.data_packet.offset before
  if not sought then ok (false, record handle { fp = some at }) else (do
    bytes ← read_at 0 packet.data_packet.seg_len packet.data_packet.segment_data
    let (written, fp) = fwrite accepted bytes at
    if not (written == packet.data_packet.seg_len)
        then ok (false, record handle { fp = some fp })
        else ok (flushed, record handle { fp = some fp }))

-- The loop of file_io_open_file_of_size. Each round writes a buffer of zeros, or what remains.
unfoldable pub fill : (accepted fuel : ℕ) → (remaining : ℕ) → Stream → Run (Bool × Stream)
fill accepted zero remaining fp = fault
fill accepted (suc k) remaining fp =
    let write_size =
      if ltb udp_packet_data_size remaining then udp_packet_data_size else remaining in
    let (written, fp') = fwrite accepted (zeros write_size) fp in
    let rest = fill accepted k (remaining - write_size) fp' in
    if remaining == 0
    then ok (true, fp)
    else (if not (written == write_size) then ok (false, fp') else rest)

-- file_io_open_file_of_size: `can_open` says whether `fopen` succeeds, which empties the file of that name.
-- The result has the directory with what has been written to the file.
unfoldable pub open_file_of_size :
    (can_open : Name → Bool) (accepted fuel : ℕ)
    → Handle
    → (name : Name) → ℕ
    → Disk
    → Run (Bool × Handle × Disk)
open_file_of_size can_open accepted fuel handle name size disk =
    if not (can_open name) then ok (false, record handle { fp = none }, disk) else (do
      let empty : Stream = record { content = []; pos = 0; eof = false }
      (filled, fp) ← fill accepted fuel size empty
      ok (
        filled,
        record handle { fp = some fp; part_size = size % u32_mod },
        put name fp.content disk,
      ))
