-- ===== src/LinkedList/Memory.antt =====
-- The memory in which linked lists live: the fields of `LinkedListElem` as maps from addresses, and
-- `num_members` of each list. The anchor of the list at `l` is the element at `l`, so `&(list->anchor)`
-- is `l`. A read or write through NULL or through an element that is not allocated is a fault.
use ucp.Common.{ℕ, Bool, true, false, Run, ok, fault, ◌≡◌, refl, ◌==◌, if◌then◌else◌}
use ucp.Common

abbrev pub Ptr : Type 0
Ptr = ℕ

abbrev pub null : Ptr
null = 0

-- `num_members` is an `int`, kept as its 32-bit pattern.
pub record Memory : Type 0 where
  pub live : Ptr → Bool
  pub obj : Ptr → Ptr
  pub next : Ptr → Ptr
  pub prev : Ptr → Ptr
  pub num_members : Ptr → ℕ

abbrev pub update {ℓ} : {A : Type ℓ} → (Ptr → A) → Ptr → A → Ptr → A
update f p v a = if a == p then v else f a

-- Whether a pointer may be followed.
abbrev pub valid : Memory → Ptr → Bool
valid m p = if p == null then false else m.live p

-- A command reads and writes the memory, and may fault.
abbrev pub Cmd : Type 0 → Type 0
Cmd A = Memory → Run (A × Memory)

abbrev pub pure : {A : Type 0} → A → Cmd A
pure a m = ok (a, m)

infixl 5 ◌>>=◌ ◌>>◌
abbrev pub ◌>>=◌ : {A B : Type 0} → Cmd A → (A → Cmd B) → Cmd B
◌>>=◌ c f m = Common.◌>>=◌ (c m) λ (a, m'). f a m'

abbrev pub ◌>>◌ : {B : Type 0} → Cmd (Unit {0}) → Cmd B → Cmd B
c >> k = c >>= λ _. k

-- A read or a write guarded by the pointer it goes through.
abbrev pub reading : {A : Type 0} → (Memory → A) → Ptr → Cmd A
reading f p m = if valid m p then ok (f m, m) else fault

abbrev pub writing : (Memory → Memory) → Ptr → Cmd (Unit {0})
writing f p m = if valid m p then ok (tt, f m) else fault

abbrev pub get_obj : Ptr → Cmd Ptr
get_obj p = reading (λ m. m.obj p) p

abbrev pub get_next : Ptr → Cmd Ptr
get_next p = reading (λ m. m.next p) p

abbrev pub get_prev : Ptr → Cmd Ptr
get_prev p = reading (λ m. m.prev p) p

abbrev pub get_num_members : Ptr → Cmd ℕ
get_num_members l = reading (λ m. m.num_members l) l

abbrev pub set_obj : Ptr → Ptr → Cmd (Unit {0})
set_obj p v = writing (λ m. record m { obj = update m.obj p v }) p

abbrev pub set_next : Ptr → Ptr → Cmd (Unit {0})
set_next p v = writing (λ m. record m { next = update m.next p v }) p

abbrev pub set_prev : Ptr → Ptr → Cmd (Unit {0})
set_prev p v = writing (λ m. record m { prev = update m.prev p v }) p

abbrev pub set_num_members : Ptr → ℕ → Cmd (Unit {0})
set_num_members l v = writing (λ m. record m { num_members = update m.num_members l v }) l

-- `malloc` returning `fresh`, or failing when that is NULL. The fields hold whatever they held.
abbrev pub malloc : Ptr → Cmd (Unit {0})
malloc fresh m = ok (tt, if fresh == null then m else record m { live = update m.live fresh true })

abbrev pub free : Ptr → Cmd (Unit {0})
free p = writing (λ m. record m { live = update m.live p false }) p

-- A run that ends without a fault, in a result and a memory that satisfy `P`.
abbrev pub Returns : {A : Type 0} → Run (A × Memory) → (A → Memory → Type 0) → Type 0
Returns (ok (a, m)) P = P a m
Returns fault P = ⊥

pub Returns-mono :
    {A : Type 0} (r : Run (A × Memory)) {P Q : A → Memory → Type 0}
    → Returns r P
    → ((a : A) (m : Memory) → P a m → Q a m)
    → Returns r Q
Returns-mono (ok (a, m)) p weaken = weaken a m p
Returns-mono fault p weaken = absurd p

pub Returns-cases :
    {A : Type 0} (r : Run (A × Memory)) {P : A → Memory → Type 0}
    → Returns r P
    → (a : A) × (m : Memory) × (r ≡ ok (a, m)) × P a m
Returns-cases (ok (a, m)) p = (a, m, refl, p)
Returns-cases fault p = absurd p
