-- ===== src/Common/Fault.antt =====
-- Runs that may touch memory out of bounds, and byte buffers with bounds-checked access.
use Prim.Native.Nat.{ℕ, zero, suc, ◌+◌, ◌-◌, ◌≤◌, ◌<◌}
use mathlib.Core.Path.{◌≡◌, refl, sym, ap, ◌∙◌}
use mathlib.Core.List.{List, [], ◌∷◌, ◌++◌}
use native.Mathlib.Omega.{arith}
use ucp.Common.Tests.{leb, if◌then◌else◌}
use ucp.Common.Lists.{
  length, take, drop, take-append, take_all, drop-append, drop-add, length-append, length-drop,
}

-- `fault` is an access outside an object, or through a dangling or null pointer.
pub data Run {ℓ} (A : Type ℓ) : Type ℓ where
  ok : A → Run A
  fault : Run A

infixl 5 ◌>>=◌
abbrev pub ◌>>=◌ {ℓ κ} : {A : Type ℓ} {B : Type κ} → Run A → (A → Run B) → Run B
ok a >>= f = f a
fault >>= f = fault

-- A run of two parts that returns has run both.
pub returned_parts {ℓ κ} :
    {A : Type ℓ} {B : Type κ} {result : B} (next : A → Run B) (part : Run A)
    → (part >>= next) ≡ ok result
    → (value : A) × (next value ≡ ok result) × (part ≡ ok value)
returned_parts next (ok value) run = (value, run, refl)
returned_parts next fault run = cc

-- `buf[i]`
unfoldable pub load : List ℕ → ℕ → Run ℕ
load [] i = fault
load (b ∷ bs) zero = ok b
load (b ∷ bs) (suc i) = load bs i

-- `n` bytes from `buf + i` on, the source side of a `memcpy`.
unfoldable pub read_at : ℕ → ℕ → List ℕ → Run (List ℕ)
read_at i n buf = if leb (i + n) (length buf) then ok (take n (drop i buf)) else fault

-- The bytes stored from `buf + i` on, the destination side of a `memcpy`.
unfoldable pub write_at : ℕ → List ℕ → List ℕ → Run (List ℕ)
write_at i bytes buf =
    if leb (i + length bytes) (length buf)
    then ok (take i buf ++ bytes ++ drop (i + length bytes) buf)
    else fault

pub read_at_ok :
    (i n : ℕ) (buf : List ℕ) → i + n ≤ length buf → read_at i n buf ≡ ok (take n (drop i buf))
unfolding read_at
read_at_ok i n buf h = ground arith

pub write_at_ok :
    (i : ℕ) (bytes buf : List ℕ)
    → i + length bytes ≤ length buf
    → write_at i bytes buf ≡ ok (take i buf ++ bytes ++ drop (i + length bytes) buf)
unfolding write_at
write_at_ok i bytes buf h = ground arith

pub write_at_front :
    (bytes buf : List ℕ)
    → length bytes ≤ length buf
    → write_at 0 bytes buf ≡ ok (bytes ++ drop (length bytes) buf)
write_at_front bytes buf h =
    let start : 0 + length bytes ≡ length bytes = omega arith in
    write_at_ok 0 bytes buf (omega arith) ∙ rw start

-- A store at the front of the buffer and a store right behind it.
pub write_at_twice :
    (front bytes buf : List ℕ)
    → length front + length bytes ≤ length buf
    → (write_at 0 front buf ≡ ok (front ++ drop (length front) buf))
      × (write_at (length front) bytes (front ++ drop (length front) buf)
          ≡ ok (front ++ bytes ++ drop (length front + length bytes) buf))
write_at_twice front bytes buf h =
    let rest : List ℕ = drop (length front) buf in
    let room : length (front ++ rest) ≡ length front + (length buf - length front) =
      length-append front rest ∙ omega (arith, length-drop (length front) buf) in
    let behind : drop (length front + length bytes) (front ++ rest)
        ≡ drop (length front + length bytes) buf =
      drop-add (length front) (length bytes) (front ++ rest)
      ∙ ap (drop (length bytes)) (drop-append front rest)
      ∙ sym (drop-add (length front) (length bytes) buf) in
    (
      write_at_front front buf (omega arith),
      write_at_ok (length front) bytes (front ++ rest) (omega arith)
          ∙ rw (take-append front rest, behind),
    )

pub write_at_past :
    (i : ℕ) (bytes buf : List ℕ) → length buf < i + length bytes → write_at i bytes buf ≡ fault
unfolding write_at
write_at_past i bytes buf h = ground arith

-- The whole of a buffer as the source of a copy.
pub read_whole : (buf : List ℕ) → read_at 0 (length buf) buf ≡ ok buf
read_whole buf =
    read_at_ok 0 (length buf) buf (omega arith) ∙ ap ok (take_all (length buf) buf (omega arith))
