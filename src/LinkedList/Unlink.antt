-- ===== src/LinkedList/Unlink.antt =====
-- LinkedListUnlink as a change of pointers, and the two traversal steps.
use ucp.Common.{◌≡◌, ◌≢◌, refl, true, false, ◌&&◌, ok, arith, ◌==◌, if◌then◌else◌}
use ucp.Common.Words.{pred32}
use ucp.LinkedList.Memory.{Ptr, null, Memory, update, valid}
use ucp.LinkedList.Ops.{is_empty, unlink, next, prev, first, last}
use ucp.LinkedList.Remove.{Removed}

-- The memory after the writes of `unlink`.
abbrev pub unlinked : Memory → (l x : Ptr) → Memory
unlinked m l x = record m {
  live = update m.live x false;
  next = update m.next (m.prev x) (m.next x);
  prev = update m.prev (m.next x) (m.prev x);
  num_members = update m.num_members l (pred32 (m.num_members l));
}

pub unlinked-Removed : (m : Memory) (l x : Ptr) → Removed m (unlinked m l x) l x
unlinked-Removed m l x = record {
  next = λ a. refl;
  prev = λ a. refl;
  obj = λ a. refl;
  live = λ a. refl;
  num_members = λ a. refl;
}

module _ (m : Memory) (l x : Ptr) (vl : valid m l ≡ true) where
  pub is_empty_lem : is_empty l m ≡ ok ((m.next l == l && m.prev l == l), m)
  unfolding is_empty
  is_empty_lem = ground arith

  pub unlink_full :
      (m.next l == l && m.prev l == l) ≡ false
      → valid m x ≡ true
      → valid m (m.prev x) ≡ true
      → valid m (m.next x) ≡ true
      → x ≢ m.prev x
      → x ≢ m.next x
      → unlink l x m ≡ ok (tt, unlinked m l x)
  unfolding unlink is_empty
  unlink_full full vx vp vn xp xn = ground arith

  pub unlink_alone : (m.next l == l && m.prev l == l) ≡ true → unlink l x m ≡ ok (tt, m)
  unfolding unlink is_empty
  unlink_alone alone = ground arith

  pub next_lem : valid m x ≡ true → next l x m ≡ ok ((if m.next x == l then null else m.next x), m)
  unfolding next
  next_lem vx = ground arith

  pub prev_lem : valid m x ≡ true → prev l x m ≡ ok ((if m.prev x == l then null else m.prev x), m)
  unfolding prev
  prev_lem vx = ground arith

  pub first_lem : first l m ≡ ok ((if m.next l == l && m.prev l == l then null else m.next l), m)
  unfolding first is_empty
  first_lem = ground arith

  pub last_lem : last l m ≡ ok ((if m.next l == l && m.prev l == l then null else m.prev l), m)
  unfolding last is_empty
  last_lem = ground arith
