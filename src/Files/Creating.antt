-- ===== src/Files/Creating.antt =====
-- The file that file_io_open_file_of_size creates.
use ucp.Common.{
  ℕ, zero, suc, ◌+◌, ◌-◌, ◌%◌, ◌≤◌, ◌<◌, ◌≡◌, refl, ap, ◌∙◌, arith, Bool, true, false, some, List,
  [], ◌∷◌, ltb, ◌==◌, if◌then◌else◌, length, take, take_all, replicate, ok, Bool-cases, inl, inr,
  ==-refl,
}
use ucp.Common.Words.{u32_mod}
use ucp.Packet.Types.{zeros, length-zeros, udp_packet_data_size}
use ucp.Files.Stream.{Stream, overwrite, fwrite}
use ucp.Files.Disk.{Name, Disk, put}
use ucp.Files.Ops.{Handle, fill, open_file_of_size}

overwrite-replicate : (m n : ℕ) → overwrite m (replicate n 0) (replicate m 0) ≡ replicate (m + n) 0
unfolding overwrite
overwrite-replicate zero zero = refl
overwrite-replicate zero (suc n) =
    let next : 0 + suc n ≡ suc (0 + n) = omega arith in
    rw next (ap (λ (xs : List ℕ). 0 ∷ xs) (overwrite-replicate zero n))
overwrite-replicate (suc m) zero =
    let next : suc m + 0 ≡ suc (m + 0) = omega arith in
    rw next (ap (λ (xs : List ℕ). 0 ∷ xs) (overwrite-replicate m zero))
overwrite-replicate (suc m) (suc n) =
    let next : suc m + suc n ≡ suc (m + suc n) = omega arith in
    rw next (ap (λ (xs : List ℕ). 0 ∷ xs) (overwrite-replicate m (suc n)))

overwrite-zeros : (m n : ℕ) → overwrite m (zeros n) (zeros m) ≡ zeros (m + n)
unfolding zeros
overwrite-zeros = overwrite-replicate

-- What one round of the loop writes.
abbrev round : ℕ → ℕ
round remaining = if ltb udp_packet_data_size remaining then udp_packet_data_size else remaining

round_bounds :
    (remaining : ℕ)
    → (remaining == 0) ≡ false
    → (0 < round remaining)
      × (round remaining ≤ udp_packet_data_size)
      × (round remaining ≤ remaining)
round_bounds remaining some_left = ground arith

round_taken : (accepted w : ℕ) → w ≤ accepted → take accepted (zeros w) ≡ zeros w
round_taken accepted w fits = take_all accepted (zeros w) (omega (arith, length-zeros w))

fill-zeros :
    (accepted k remaining : ℕ) (fp : Stream)
    → udp_packet_data_size ≤ accepted
    → remaining < k
    → fp.content ≡ zeros fp.pos
    → (fp' : Stream) × (fill accepted k remaining fp ≡ ok (true, fp'))
      × (fp'.content ≡ zeros (fp.pos + remaining))
unfolding fill
fill-zeros accepted zero remaining fp all enough content = absurd (omega arith)
fill-zeros accepted (suc k) remaining fp all enough content = elim (Bool-cases (remaining == 0)) [
  | inl none_left ↦
      let none : fp.pos + remaining ≡ fp.pos = ground arith in (fp, rw none_left, rw none content)
  | inr some_left ↦
      let w : ℕ = round remaining in
      let (some_written, at_most, within) = round_bounds remaining some_left in
      let fp' : Stream = (fwrite accepted (zeros w) fp).1 in
      let taken : take accepted (zeros w) ≡ zeros w = round_taken accepted w (omega arith) in
      let counted : length (take accepted (zeros w)) ≡ w = ap length taken ∙ length-zeros w in
      let all_written : (length (take accepted (zeros w)) == w) ≡ true = rw counted (==-refl w) in
      let moved : fp'.pos ≡ fp.pos + w = rw counted in
      let content' : fp'.content ≡ zeros fp'.pos =
        rw (moved, taken, content) (overwrite-zeros fp.pos w) in
      let (last, run, filled) =
        fill-zeros accepted k (remaining - w) fp' all (omega arith) content' in
      let total : fp'.pos + (remaining - w) ≡ fp.pos + remaining = omega (arith, moved) in
      (last, rw (some_left, all_written) run, filled ∙ ap zeros total)
]

abbrev empty : Stream
empty = record { content = []; pos = 0; eof = false }

-- When the file can be opened and every write is accepted, `file_io_open_file_of_size`, in one round
-- more than the file gets bytes, answers TRUE and leaves an open stream, and under the name a file,
-- with as many bytes as it was told, all of them zero, and the size modulo 2^32 in the handle.
pub open_file_of_size_lem :
    (can_open : Name → Bool) (accepted k size : ℕ) (h : Handle) (name : Name) (disk : Disk)
    → can_open name ≡ true
    → udp_packet_data_size ≤ accepted
    → size < k
    → (fp : Stream) × (open_file_of_size can_open accepted k h name size disk
        ≡ ok (
          true,
          record h { fp = some fp; part_size = size % u32_mod },
          put name (zeros size) disk,
        ))
      × (fp.content ≡ zeros size)
unfolding open_file_of_size
open_file_of_size_lem can_open accepted k size h name disk openable all enough =
    let (fp, run, filled) = fill-zeros accepted k size empty all enough (unfold zeros in refl) in
    let blank : fp.content ≡ zeros size = filled ∙ ap zeros (omega arith) in
    (fp, rw (openable, run, blank) refl, blank)
