-- ===== src/Files/Overwrite.antt =====
-- What a write leaves in a file, byte by byte.
use ucp.Common.{
  ℕ, zero, suc, ◌+◌, ◌-◌, ◌≤◌, ◌<◌, ◌≡◌, refl, ap, ◌∙◌, arith, List, [], ◌∷◌, max, leb, ltb, ◌&&◌,
  if◌then◌else◌, length, get_or, take, drop,
}
use ucp.Files.Stream.{overwrite}

-- The byte of a file at an index; zero behind its end.
abbrev pub byte_at : List ℕ → ℕ → ℕ
byte_at content i = get_or content i 0

pub length-overwrite :
    (i b : ℕ) (bytes content : List ℕ)
    → length (overwrite i (b ∷ bytes) content) ≡ max (length content) (i + suc (length bytes))
unfolding overwrite
length-overwrite zero b [] [] = refl
length-overwrite zero b [] (c ∷ content) = omega arith
length-overwrite zero b (b' ∷ bytes) [] = omega (arith, length-overwrite zero b' bytes [])
length-overwrite zero b (b' ∷ bytes) (c ∷ content) =
    omega (arith, length-overwrite zero b' bytes content)
length-overwrite (suc i) b bytes [] = omega (arith, length-overwrite i b bytes [])
length-overwrite (suc i) b bytes (c ∷ content) = omega (arith, length-overwrite i b bytes content)

-- A write inside the file keeps its length.
pub length-overwrite_inside :
    (i : ℕ) (bytes content : List ℕ)
    → i + length bytes ≤ length content
    → length (overwrite i bytes content) ≡ length content
unfolding overwrite
length-overwrite_inside zero [] content h = refl
length-overwrite_inside (suc i) [] (c ∷ content) h =
    ap suc (length-overwrite_inside i [] content (omega arith))
length-overwrite_inside (suc i) [] [] h = absurd (omega arith)
length-overwrite_inside i (b ∷ bytes) content h = omega (arith, length-overwrite i b bytes content)

byte_at-nil : (j : ℕ) → byte_at [] j ≡ 0
byte_at-nil j = refl

-- A byte that has been written, and any other byte.
pub byte_at-overwrite :
    (i j : ℕ) (bytes content : List ℕ)
    → byte_at (overwrite i bytes content) j
      ≡ (if leb i j && ltb j (i + length bytes) then byte_at bytes (j - i) else byte_at content j)
unfolding overwrite
byte_at-overwrite zero j [] content = ground arith
byte_at-overwrite zero zero (b ∷ bytes) [] = ground arith
byte_at-overwrite zero (suc j) (b ∷ bytes) [] = ground (arith, byte_at-overwrite zero j bytes [])
byte_at-overwrite zero zero (b ∷ bytes) (c ∷ content) = ground arith
byte_at-overwrite zero (suc j) (b ∷ bytes) (c ∷ content) =
    ground (arith, byte_at-overwrite zero j bytes content)
byte_at-overwrite (suc i) j [] [] = ground arith
byte_at-overwrite (suc i) zero (b ∷ bytes) [] = ground arith
byte_at-overwrite (suc i) (suc j) (b ∷ bytes) [] =
    ground (arith, byte_at-overwrite i j (b ∷ bytes) [])
byte_at-overwrite (suc i) zero bytes (c ∷ content) = ground arith
byte_at-overwrite (suc i) (suc j) bytes (c ∷ content) =
    ground (arith, byte_at-overwrite i j bytes content)

-- A byte of a piece of a file.
pub byte_at-take : (n j : ℕ) (xs : List ℕ) → j < n → byte_at (take n xs) j ≡ byte_at xs j
byte_at-take zero j xs h = absurd (omega arith)
byte_at-take (suc n) j [] h = refl
byte_at-take (suc n) zero (x ∷ xs) h = refl
byte_at-take (suc n) (suc j) (x ∷ xs) h = byte_at-take n j xs (omega arith)

pub byte_at-drop : (n j : ℕ) (xs : List ℕ) → byte_at (drop n xs) j ≡ byte_at xs (n + j)
byte_at-drop zero j xs = let e : j ≡ 0 + j = omega arith in ap (byte_at xs) e
byte_at-drop (suc n) j [] = refl
byte_at-drop (suc n) j (x ∷ xs) =
    byte_at-drop n j xs ∙ (let e : suc (n + j) ≡ suc n + j = omega arith in ap (byte_at (x ∷ xs)) e)

-- Files of the same length with the same bytes are the same.
pub same_bytes :
    (xs ys : List ℕ)
    → length xs ≡ length ys
    → ((i : ℕ) → i < length ys → byte_at xs i ≡ byte_at ys i)
    → xs ≡ ys
same_bytes [] [] e h = refl
same_bytes [] (y ∷ ys) e h = absurd (omega arith)
same_bytes (x ∷ xs) [] e h = absurd (omega arith)
same_bytes (x ∷ xs) (y ∷ ys) e h =
    let head : x ≡ y = h zero (omega arith) in
    let tail : xs ≡ ys = same_bytes xs ys (omega arith) (λ i below. h (suc i) (omega arith)) in
    rw (head, tail)
