-- ===== src/LinkedList/Tests.antt =====
-- The list theorems at a memory with two elements.
use ucp.Common.{◌≡◌, refl, arith, ◌||◌, false, ok, fault, [], ◌∷◌, ◌==◌, if◌then◌else◌}
use ucp.LinkedList.Memory.{null, Memory, Returns}
use ucp.LinkedList.Ops.{append, prepend, insert_after, insert_before, unlink}
use ucp.LinkedList.Ring.{IsRing}
use ucp.LinkedList.Taking.{Shrunk, unlink-Shrunk}
use ucp.LinkedList.OutOfMemory.{out_of_memory}

-- The anchor at 1, and the elements at 2 and 3 with the objects 20 and 30.
abbrev two : Memory
two = record {
  live = λ a. a == 1 || a == 2 || a == 3;
  obj = λ a. if a == 2 then 20 else (if a == 3 then 30 else 0);
  next = λ a. if a == 1 then 2 else (if a == 2 then 3 else 1);
  prev = λ a. if a == 1 then 3 else (if a == 3 then 2 else 1);
  num_members = λ a. if a == 1 then 2 else 0;
}

two-IsRing : IsRing two 1 (2 ∷ 3 ∷ [])
two-IsRing = record {
  chain = (refl, refl, (refl, refl, (refl, refl)));
  distinct = (refl, (refl, (refl, tt)));
  alive = (refl, (refl, (refl, tt)));
}

unlink-Shrunk_example :
    Returns
      (unlink 1 3 two)
      (λ _ m'. Shrunk two m' 1 (3 ∷ []) (2 ∷ []) (2 ∷ 3 ∷ []) × (m'.num_members 1 ≡ 1))
unlink-Shrunk_example = unlink-Shrunk two 1 (2 ∷ []) 3 [] two-IsRing

out_of_memory_example :
    (append null 1 40 two ≡ fault)
    × (prepend null 1 40 two ≡ fault)
    × (insert_after null 1 40 2 two ≡ ok (false, two))
    × (insert_before null 1 40 2 two ≡ ok (false, two))
out_of_memory_example = out_of_memory two 1 40 2 (omega arith) (omega arith)
