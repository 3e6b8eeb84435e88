-- ===== src/Files/Transfer.antt =====
-- The packets cut from a file carry all of it, and saving them gives the file back.
use ucp.Common.{
  ℕ, zero, suc, ◌+◌, ◌-◌, ◌%◌, ◌≤◌, ◌<◌, ◌≡◌, refl, sym, ap, ◌∙◌, arith, Bool, true, false, ◌&&◌,
  ◌||◌, List, [], ◌∷◌, map, min, leb, ltb, ◌==◌, length, take, drop, take-append, drop-add,
  length-append, length-take, length-drop, All, Bool-cases, inl, inr,
}
use ucp.Common.Words.{succ32, u32_mod}
use ucp.Packet.Types.{Packet, zeros, udp_packet_data_size}
use ucp.Files.Chunks.{behind_chunk, length-behind_chunk, fewer}
use ucp.Files.Reading.{cut, chunk_packet, is_short}
use ucp.Files.Saving.{Piece, carries, covered}

take_twice : (n : ℕ) (xs : List ℕ) → take (length (take n xs)) xs ≡ take n xs
take_twice zero xs = refl
take_twice (suc n) [] = refl
take_twice (suc n) (x ∷ xs) = ap (λ (ys : List ℕ). x ∷ ys) (take_twice n xs)

some_rest : (n : ℕ) → 0 < n → (n == 0) ≡ false
some_rest n some_left = ground arith

from_there : (offset i : ℕ) → offset ≤ i → leb offset i && true ≡ true
from_there offset i from = ground arith

not_before : (i n : ℕ) → ltb i n ≡ false → n ≤ i
not_before i n later = ground arith

pub or_right : (a : Bool) {b : Bool} → b ≡ true → a || b ≡ true
or_right true e = refl
or_right false e = e

-- `c` is the whole file, and `rest` what is left of it from `offset` on.
module _ (c : List ℕ) (within : length c < u32_mod) where
  chunk_packet-Piece :
      (seq_no offset : ℕ) (short : Bool) (rest : List ℕ)
      → drop offset c ≡ rest
      → offset ≤ length c
      → Piece c (chunk_packet seq_no offset short (take udp_packet_data_size rest))
  chunk_packet-Piece seq_no offset short rest e inside =
      let chunk : List ℕ = take udp_packet_data_size rest in
      let blanks : List ℕ = drop (length chunk) (zeros udp_packet_data_size) in
      let same : offset % u32_mod ≡ offset = omega arith in
      let sized : length rest ≡ length c - offset = ap length (sym e) ∙ length-drop offset c in
      let counted : length chunk ≡ min udp_packet_data_size (length rest) =
        length-take udp_packet_data_size rest in
      record {
        fits = omega (arith, length-append chunk blanks);
        small = omega arith;
        inside = omega arith;
        bytes =
            take-append chunk blanks ∙ rw (same, e) (sym (take_twice udp_packet_data_size rest));
      }

  pub cut-Piece :
      (k seq_no offset : ℕ) (rest : List ℕ)
      → drop offset c ≡ rest
      → offset ≤ length c
      → All (Piece c) (cut k seq_no offset rest)
  unfolding cut
  cut-Piece zero seq_no offset rest e inside = tt
  cut-Piece (suc k) seq_no offset rest e inside =
      let chunk : List ℕ = take udp_packet_data_size rest in
      let further : drop (offset + length chunk) c ≡ behind_chunk rest =
        drop-add offset (length chunk) c ∙ rw e in
      let sized : length rest ≡ length c - offset = ap length (sym e) ∙ length-drop offset c in
      let counted : length chunk ≡ min udp_packet_data_size (length rest) =
        length-take udp_packet_data_size rest in
      let later =
        cut-Piece k (succ32 seq_no) (offset + length chunk) (behind_chunk rest) further
          (omega arith) in
      elim (Bool-cases (length rest == 0)) [
        | inl none_left ↦ rw none_left tt
        | inr some_left ↦
            rw some_left (chunk_packet-Piece seq_no offset (is_short chunk) rest e inside, later)
      ]

  pub cut-covered :
      (k seq_no offset : ℕ) (rest : List ℕ) (i : ℕ)
      → drop offset c ≡ rest
      → length rest < k
      → offset ≤ i
      → i < length c
      → covered (cut k seq_no offset rest) i ≡ true
  unfolding cut
  cut-covered zero seq_no offset rest i e enough from below = absurd (omega arith)
  cut-covered (suc k) seq_no offset rest i e enough from below =
      let chunk : List ℕ = take udp_packet_data_size rest in
      let p : Packet = chunk_packet seq_no offset (is_short chunk) chunk in
      let sized : length rest ≡ length c - offset = ap length (sym e) ∙ length-drop offset c in
      let some_left : (length rest == 0) ≡ false = some_rest (length rest) (omega arith) in
      let same : offset % u32_mod ≡ offset = omega arith in
      let further : drop (offset + length chunk) c ≡ behind_chunk rest =
        drop-add offset (length chunk) c ∙ rw e in
      elim (Bool-cases (ltb i (offset + length chunk))) [
        | inl now ↦
            let at : carries p i ≡ true = rw (same, now) (from_there offset i from) in
            rw (some_left, at)
        | inr later ↦
            let enough' : length (behind_chunk rest) < k =
              fewer (length chunk) (length rest) (length (behind_chunk rest))
                (length-take udp_packet_data_size rest) (length-behind_chunk rest) k some_left
                enough in
            let rest_covered =
              cut-covered k (succ32 seq_no) (offset + length chunk) (behind_chunk rest) i further
                enough' (not_before i (offset + length chunk) later) below in
            rw some_left (or_right (carries p i) rest_covered)
      ]

-- The numbers from `seq_no` on.
abbrev pub numbers : ℕ → ℕ → List ℕ
numbers seq_no zero = []
numbers seq_no (suc n) = seq_no ∷ numbers (succ32 seq_no) n

abbrev pub seq_nos : List Packet → List ℕ
seq_nos = map (λ p. p.data_packet.seq_no)

pub cut-numbers :
    (k seq_no offset : ℕ) (rest : List ℕ)
    → seq_nos (cut k seq_no offset rest) ≡ numbers seq_no (length (cut k seq_no offset rest))
unfolding cut
cut-numbers zero seq_no offset rest = refl
cut-numbers (suc k) seq_no offset rest =
    let chunk : List ℕ = take udp_packet_data_size rest in
    let later = cut-numbers k (succ32 seq_no) (offset + length chunk) (behind_chunk rest) in
    elim (Bool-cases (length rest == 0)) [
      | inl none_left ↦ rw none_left
      | inr some_left ↦ rw some_left (ap (λ (ns : List ℕ). seq_no ∷ ns) later)
    ]
