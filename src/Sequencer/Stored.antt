-- ===== src/Sequencer/Stored.antt =====
-- A list of ranges in the store: the elements of a linked list hold it, in order, each a range of its own.
use ucp.Common.{
  suc, ◌%◌, ◌≡◌, ◌≢◌, refl, ap, ◌∙◌, arith, true, Option, none, some, List, [], ◌∷◌, ◌++◌, length,
  rev_append,
}
use ucp.Common.Words.{u32_mod}
use ucp.LinkedList.Memory.{Ptr}
use ucp.LinkedList.Ring.{has, IsRing}
use ucp.Sequencer.Ops.{Item}
use ucp.Sequencer.Store.{Store}

-- The range that an element holds, if it is allocated.
abbrev pub range_of : Store → Ptr → Option Item
range_of s x = s.items (s.memory.obj x)

abbrev pub Held : (Ptr → Option Item) → List Ptr → List Item → Type 0
Held range [] [] = Unit {0}
Held range [] (i ∷ is) = ⊥
Held range (x ∷ xs) [] = ⊥
Held range (x ∷ xs) (i ∷ is) = (range x ≡ some i) × Held range xs is

-- Different elements hold different objects.
abbrev pub Separate : (Ptr → Ptr) → List Ptr → Type 0
Separate obj xs = (a b : Ptr) → has a xs ≡ true → has b xs ≡ true → obj a ≡ obj b → a ≡ b

pub record IsRanges (seq : Ptr) (s : Store) (xs : List Ptr) (is : List Item) : Type 0 where
  pub ring : IsRing s.memory seq xs
  pub held : Held (range_of s) xs is
  pub separate : Separate s.memory.obj xs
  pub counted : s.memory.num_members seq ≡ length xs % u32_mod

pub Held-frame :
    (range range' : Ptr → Option Item) (xs : List Ptr) (is : List Item)
    → ((a : Ptr) → has a xs ≡ true → range' a ≡ range a)
    → Held range xs is
    → Held range' xs is
Held-frame range range' [] [] same h = tt
Held-frame range range' [] (i ∷ is) same h = h
Held-frame range range' (x ∷ xs) [] same h = h
Held-frame range range' (x ∷ xs) (i ∷ is) same (here, h) = (
  same x (ground arith) ∙ here,
  Held-frame range range' xs is (λ a inside. same a (ground arith)) h,
)

pub Held-append :
    (range : Ptr → Option Item) (xs : List Ptr) (is : List Item) (ys : List Ptr) (js : List Item)
    → Held range xs is
    → Held range ys js
    → Held range (xs ++ ys) (is ++ js)
Held-append range [] [] ys js h h' = h'
Held-append range [] (i ∷ is) ys js h h' = absurd h
Held-append range (x ∷ xs) [] ys js h h' = absurd h
Held-append range (x ∷ xs) (i ∷ is) ys js (here, h) h' = (here, Held-append range xs is ys js h h')

pub Held-split :
    (range : Ptr → Option Item) (xs : List Ptr) (is : List Item) (ys : List Ptr) (js : List Item)
    → length xs ≡ length is
    → Held range (xs ++ ys) (is ++ js)
    → Held range xs is × Held range ys js
Held-split range [] [] ys js same h = (tt, h)
Held-split range [] (i ∷ is) ys js same h = absurd (omega arith)
Held-split range (x ∷ xs) [] ys js same h = absurd (omega arith)
Held-split range (x ∷ xs) (i ∷ is) ys js same (here, h) =
    let (front, back) = Held-split range xs is ys js (omega arith) h in ((here, front), back)

-- What holds a list and one more range has a last element.
pub Held-last :
    (range : Ptr → Option Item) (xs : List Ptr) (is : List Item) (i : Item)
    → Held range xs (is ++ i ∷ [])
    → (ys : List Ptr) × (y : Ptr) × (xs ≡ ys ++ y ∷ []) × Held range ys is × (range y ≡ some i)
Held-last range [] [] i h = absurd h
Held-last range [] (j ∷ is) i h = absurd h
Held-last range (x ∷ []) [] i (here, h) = ([], x, refl, tt, here)
Held-last range (x ∷ y ∷ xs) [] i (here, h) = absurd h
Held-last range (x ∷ xs) (j ∷ is) i (here, h) =
    let (ys, y, split, front, last) = Held-last range xs is i h in
    (x ∷ ys, y, ap (λ (zs : List Ptr). x ∷ zs) split, (here, front), last)

pub length-Held :
    (range : Ptr → Option Item) (xs : List Ptr) (is : List Item)
    → Held range xs is
    → length xs ≡ length is
length-Held range [] [] h = refl
length-Held range [] (i ∷ is) h = absurd h
length-Held range (x ∷ xs) [] h = absurd h
length-Held range (x ∷ xs) (i ∷ is) (here, h) = ap suc (length-Held range xs is h)

-- The range of an element of the list is allocated.
pub Held-some :
    (range : Ptr → Option Item) (xs : List Ptr) (is : List Item) (a : Ptr)
    → Held range xs is
    → has a xs ≡ true
    → range a ≢ none
Held-some range [] [] a h inside = cc
Held-some range [] (i ∷ is) a h inside = absurd h
Held-some range (x ∷ xs) [] a h inside = absurd h
Held-some range (x ∷ xs) (i ∷ is) a (here, h) inside = ground (arith, Held-some range xs is a h)

pub rev_append-append :
    (before : List Item) (js ks : List Item)
    → rev_append before (js ++ ks) ≡ rev_append before js ++ ks
rev_append-append [] js ks = refl
rev_append-append (i ∷ before) js ks = rev_append-append before (i ∷ js) ks

-- A list with the elements passed in front.
pub rev_append_split : (before js : List Item) → rev_append before js ≡ rev_append before [] ++ js
rev_append_split before js = rev_append-append before [] js
