-- ===== src/Packet/Init.antt =====
-- src/ucp_packet.c: the functions that make packets. A packet that may be NULL is an `Option`, and
-- the argument `memory` says whether `malloc` succeeds.
use ucp.Common.{
  ℕ, zero, suc, ◌-◌, ◌%◌, Bool, Option, none, some, List, [], ◌∷◌, ◌++◌, if◌then◌else◌, drop, Run,
  ok, ◌>>=◌, read_at, write_at,
}
use ucp.Common.Words.{u32_mod}
use ucp.Packet.Types.{Packet, blank, type_ctrl, type_data, type_metadata, name_size}

-- ucp_packet_init: `memory` says whether `malloc` succeeds.
unfoldable pub packet_init : Bool → ℕ → Option Packet
packet_init memory type = if memory then some (blank type) else none

-- ucp_packet_init_data
unfoldable pub packet_init_data : Bool → ℕ → ℕ → List ℕ → ℕ → Run (Option Packet)
unfolding packet_init
packet_init_data memory seq_no offset buf buf_len = elim (packet_init memory type_data) [
  | none ↦ ok none
  | some p ↦ do
    bytes ← read_at 0 buf_len buf
    segment ← write_at 0 bytes p.data_packet.segment_data
    ok (
        some (record p {
          data_packet = record (p.data_packet) {
            seq_no = seq_no;
            seg_len = buf_len;
            offset = offset % u32_mod;
            segment_data = segment;
          };
        }))
]

-- strncpy(dst, src, n): the characters of `src` before its NUL, cut or padded with NULs to `n`.
abbrev pub strncpy : ℕ → List ℕ → List ℕ
strncpy zero src = []
strncpy (suc n) [] = 0 ∷ strncpy n []
strncpy (suc n) (c ∷ src) = c ∷ strncpy n src

-- ucp_packet_init_metadata: `dst_len` is not read.
unfoldable pub packet_init_metadata : Bool → List ℕ → ℕ → ℕ → ℕ → Option Packet
unfolding packet_init
packet_init_metadata memory dst_name dst_len part_index part_size =
    elim (packet_init memory type_metadata) [
      | none ↦ none
      | some p ↦ some (record p {
        metadata_packet = record {
          destination_name =
              strncpy (name_size - 1) dst_name
              ++ drop (name_size - 1) p.metadata_packet.destination_name;
          part_index = part_index;
          part_size = part_size;
        };
      })
    ]

-- ucp_packet_init_ctrl
unfoldable pub packet_init_ctrl : Bool → ℕ → ℕ → Option Packet
unfolding packet_init
packet_init_ctrl memory seq_no flag = elim (packet_init memory type_ctrl) [
  | none ↦ none
  | some p ↦ some (record p { ctrl_packet = record { seq_no = seq_no; flag = flag } })
]
