-- ===== src/Packet/Bytes.antt =====
-- The bytes of a word: what the decoders join is what the encoders split.
use ucp.Common.{ℕ, ◌+◌, ◌*◌, ◌/◌, ◌%◌, ◌<◌, ◌≡◌, ◌∙◌, arith, bit_and, bit_or}
use ucp.Common.Bits.{bit_and-byte, bit_or-disjoint, bit_or_comm}
use ucp.Common.Words.{IsByte, IsU32, shr, shl}
use ucp.Packet.Decode.{join_word}

-- Joining four bytes is their value in base 256.
pub join_word-sum :
    (b3 b2 b1 b0 : ℕ)
    → IsByte b2
    → IsByte b1
    → IsByte b0
    → join_word b3 b2 b1 b0 ≡ b3 * 16777216 + b2 * 65536 + b1 * 256 + b0
join_word-sum b3 b2 b1 b0 h2 h1 h0 =
    let top : bit_or (b3 * 16777216) (b2 * 65536) ≡ (b3 * 256 + b2) * 65536 =
      bit_or-disjoint 24 b3 (b2 * 65536) (omega arith) ∙ omega arith in
    let upper : bit_or ((b3 * 256 + b2) * 65536) (b1 * 256) ≡ ((b3 * 256 + b2) * 256 + b1) * 256 =
      bit_or-disjoint 16 (b3 * 256 + b2) (b1 * 256) (omega arith) ∙ omega arith in
    rw (top, upper, bit_or-disjoint 8 ((b3 * 256 + b2) * 256 + b1) b0 h0) (omega arith)

-- A word that is split into its bytes is joined again.
pub join_word-split :
    (w : ℕ)
    → IsU32 w
    → join_word
        (bit_and (shr w 24) 0xff)
        (bit_and (shr w 16) 0xff)
        (bit_and (shr w 8) 0xff)
        (bit_and w 0xff)
      ≡ w
join_word-split w h =
    rw (bit_and-byte (shr w 24), bit_and-byte (shr w 16), bit_and-byte (shr w 8), bit_and-byte w)
      (join_word-sum (w / 16777216 % 256) (w / 65536 % 256) (w / 256 % 256) (w % 256) (omega arith)
          (omega arith) (omega arith)
        ∙ omega arith)

-- The part size is joined in the other order.
pub join_big-split :
    (w : ℕ)
    → IsU32 w
    → bit_or (shl (bit_and (shr w 0) 0xff) 0) (
        bit_or
          (shl (bit_and (shr w 8) 0xff) 8)
          (bit_or (shl (bit_and (shr w 16) 0xff) 16) (shl (bit_and (shr w 24) 0xff) 24)))
      ≡ w
join_big-split w h =
    let b0 : ℕ = bit_and w 0xff in
    let b1 : ℕ = bit_and (shr w 8) 0xff in
    let b2 : ℕ = bit_and (shr w 16) 0xff in
    let b3 : ℕ = bit_and (shr w 24) 0xff in
    let one : shr w 0 ≡ w = omega arith in
    let low : bit_and w 0xff * 1 ≡ b0 = omega arith in
    rw (one, low, bit_or_comm (b2 * 65536) (b3 * 16777216))
      (rw (bit_or_comm (b1 * 256) (bit_or (b3 * 16777216) (b2 * 65536))) (
        bit_or_comm b0 (bit_or (bit_or (b3 * 16777216) (b2 * 65536)) (b1 * 256))
        ∙ join_word-split w h))

-- The two bytes of a segment length.
pub join_half-split :
    (n : ℕ) → n < 65536 → bit_or (shl (bit_and (shr n 8) 0xff) 8) (bit_and n 0xff) ≡ n
join_half-split n h =
    rw (bit_and-byte (shr n 8), bit_and-byte n)
      (bit_or-disjoint 8 (n / 256 % 256) (n % 256) (omega arith) ∙ omega arith)
