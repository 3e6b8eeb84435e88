-- ===== src/Client/Main/Faulting.antt =====
-- What main of the client comes to: all its threads but the first read pointers that are not set.
use ucp.Common.{
  Bool-cases, inl, inr, ℕ, ◌+◌, ◌<◌, ◌≡◌, refl, ap, ◌∙◌, arith, Bool, true, false, some, List, [],
  ◌∷◌, ◌++◌, ◌==◌, if◌then◌else◌, length, map, ok, Run, fault, ◌≤◌, ◌>>=◌,
}
use ucp.Files.Parts.{Name, Disk, Shell, Part, split_command, partition_file}
use ucp.Files.Splitting.{HasParts, parts_from, partition_file_lem}
use ucp.Client.Main.{
  num_threads, colon, token_from, parse_args, block_thread, run_threads, unset, contexts_of,
  transfer, main,
}

-- No colon in a text.
abbrev pub plain : Name → Bool
plain [] = true
plain (c ∷ text) = if c == colon then false else plain text

plain_cases : (c : ℕ) (a : Name) → plain (c ∷ a) ≡ true → ((c == colon) ≡ false) × (plain a ≡ true)
plain_cases c a no_colon = elim (Bool-cases (c == colon)) [
  | inl clash ↦ absurd (ground (arith, rw clash at no_colon))
  | inr other ↦ (other, rw other at no_colon)
]

token_from-front : (a b : Name) → plain a ≡ true → token_from (a ++ colon ∷ b) ≡ (a, b)
token_from-front [] b no_colon = refl
token_from-front (c ∷ a) b no_colon =
    let (other, more) = plain_cases c a no_colon in rw (other, token_from-front a b more) refl

token_from-whole : (a : Name) → plain a ≡ true → token_from a ≡ (a, [])
token_from-whole [] no_colon = refl
token_from-whole (c ∷ a) no_colon =
    let (other, more) = plain_cases c a no_colon in rw (other, token_from-whole a more) refl

-- An address and a name with a colon between them.
parse_args_lem :
    (program src ip file : Name) (c d : ℕ)
    → plain (c ∷ ip) ≡ true
    → plain (d ∷ file) ≡ true
    → parse_args (program ∷ src ∷ ((c ∷ ip) ++ colon ∷ d ∷ file) ∷ [])
      ≡ ok (some (src, c ∷ ip, d ∷ file))
unfolding parse_args
parse_args_lem program src ip file c d plain_ip plain_file =
    let (other, more) = plain_cases c ip plain_ip in
    let (other', more') = plain_cases d file plain_file in
    rw (other, token_from-front ip (d ∷ file) more, other', token_from-whole file more') refl

-- Behind the first part, a thread that gets its socket faults.
later_faults :
    (socket : ℕ → Bool) (rest : (dst_ip dst_filename : Name) → Part → Run Part) (idx i : ℕ)
    (cs : List (List ℕ))
    → i ≤ idx
    → idx < i + length cs
    → socket idx ≡ true
    → run_threads (block_thread socket rest) (map unset (parts_from i cs)) ≡ fault
unfolding run_threads block_thread
later_faults socket rest idx i [] above below made = absurd (omega arith)
later_faults socket rest idx i (c ∷ cs) above below made = elim (Bool-cases (i == idx)) [
  | inl this ↦ let here : socket i ≡ true = ap socket (ground arith) ∙ made in rw here refl
  | inr other ↦
      let behind = later_faults socket rest idx (i + 1) cs (ground arith) (omega arith) made in
      elim (Bool-cases (socket i)) [
        | inl has ↦ rw has refl
        | inr without ↦ rw (without, behind) refl
      ]
]

fault_behind : (r : Run Part) → ◌≡◌ {A = Run (List Part)} (r >>= λ part. fault) fault
fault_behind fault = refl
fault_behind (ok part) = refl

-- When main of the client gets a source and an address and a name that are not empty and have no colons,
-- with a colon between them, and the command that file_io_partition_file gives to the shell ends with
-- status 0 and leaves the ten parts under their names, and `malloc` and `fopen` succeed, then on more
-- than ten rounds, whatever a thread does with its address and name, main faults as soon as the thread
-- of any part but the first gets its socket: that thread reads a pointer that main has not set.
pub main_faults :
    (shell : Shell) (fuel : ℕ) (socket : ℕ → Bool)
    (rest : (dst_ip dst_filename : Name) → Part → Run Part) (program src ip file : Name)
    (c d idx : ℕ) (disk disk' : Disk) (cs : List (List ℕ))
    → plain (c ∷ ip) ≡ true
    → plain (d ∷ file) ≡ true
    → shell (split_command src num_threads) disk ≡ some (0, disk')
    → HasParts disk' 0 cs
    → length cs ≡ num_threads
    → num_threads < fuel
    → 0 < idx
    → idx < num_threads
    → socket idx ≡ true
    → main shell true
        (λ name. true)
        fuel
        (block_thread socket rest)
        (program ∷ src ∷ ((c ∷ ip) ++ colon ∷ d ∷ file) ∷ [])
        disk
      ≡ fault
unfolding main transfer
main_faults shell fuel socket rest program src ip file c d idx disk disk' [] plain_ip plain_file
      split has ten enough above below made =
    absurd (omega arith)
main_faults shell fuel socket rest program src ip file c d idx disk disk' (first ∷ cs) plain_ip
      plain_file split has ten enough above below made =
    let opened : partition_file shell true (λ name. true) fuel src num_threads disk
        ≡ ok (some (parts_from 0 (first ∷ cs)), disk') =
      rw ten at (
        partition_file_lem shell fuel src disk disk' (first ∷ cs) (rw ten split) has (omega arith)
          (omega arith)) in
    let others = later_faults socket rest idx 1 cs (omega arith) (omega arith) made in
    let all : run_threads (block_thread socket rest)
          (contexts_of (c ∷ ip) (d ∷ file) (parts_from 0 (first ∷ cs)))
        ≡ fault =
      unfold run_threads in rw others (fault_behind _) in
    rw (parse_args_lem program src ip file c d plain_ip plain_file, opened, all) refl
