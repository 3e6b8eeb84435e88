-- ===== src/Files/Stream.antt =====
-- The streams of the C library, as far as src/file_io.c uses them: the bytes of the file, the position,
-- and the end-of-file indicator. Reads do not fail; how much of a write is accepted is an argument.
use ucp.Common.{
  ℕ, zero, suc, ◌+◌, Bool, true, false, List, [], ◌∷◌, ltb, if◌then◌else◌, length, take, drop,
}

pub record Stream : Type 0 where
  pub content : List ℕ
  pub pos : ℕ
  pub eof : Bool

-- `LONG_MAX + 1`: the offset of `fseek` is a `long`.
abbrev pub long_limit : ℕ
long_limit = 9223372036854775808

-- fseek(fp, offset, SEEK_SET) refuses what is negative as a `long`, and clears the indicator
-- otherwise. The result is whether it succeeds.
abbrev pub fseek : ℕ → Stream → Bool × Stream
fseek offset fp =
    if ltb offset long_limit then (true, record fp { pos = offset; eof = false }) else (false, fp)

-- fread(buffer, 1, n, fp): the bytes read. The indicator is set when there are fewer than `n`.
abbrev pub fread : ℕ → Stream → List ℕ × Stream
fread n fp =
    let bytes = take n (drop fp.pos fp.content) in
    (
      bytes,
      record fp {
        pos = fp.pos + length bytes;
        eof = if ltb (length bytes) n then true else fp.eof;
      },
    )

-- The content of a file after `bytes` have been written at a position; a gap is filled with zeros.
unfoldable pub overwrite : ℕ → List ℕ → List ℕ → List ℕ
overwrite zero [] content = content
overwrite zero (b ∷ bytes) [] = b ∷ overwrite zero bytes []
overwrite zero (b ∷ bytes) (c ∷ content) = b ∷ overwrite zero bytes content
overwrite (suc i) [] [] = []
overwrite (suc i) (b ∷ bytes) [] = 0 ∷ overwrite i (b ∷ bytes) []
overwrite (suc i) bytes (c ∷ content) = c ∷ overwrite i bytes content

-- fwrite(bytes, 1, length, fp), of which the first `accepted` bytes are written. The result is the
-- number of bytes that have been written.
abbrev pub fwrite : (accepted : ℕ) → List ℕ → Stream → ℕ × Stream
fwrite accepted bytes fp =
    let written = take accepted bytes in
    (
      length written,
      record fp { content = overwrite fp.pos written fp.content; pos = fp.pos + length written },
    )
