-- ===== src/Client/Main/Tests.antt =====
-- main of the client at a file of ten parts.
use ucp.Common.{
  ℕ, ◌+◌, ◌≡◌, refl, arith, true, none, some, List, [], ◌∷◌, ok, fault, if◌then◌else◌, ◌==◌, Run,
}
use ucp.Files.Parts.{Name, Disk, Shell, Part, codes, same_name, part_name}
use ucp.Client.Main.{parse_args, block_thread, main}
use ucp.Client.Main.Faulting.{main_faults}

-- Without a colon in the destination, NULL is read.
no_colon : parse_args (codes "ucp" ∷ codes "file" ∷ codes "host" ∷ []) ≡ fault
unfolding parse_args
no_colon = refl

two_colons :
    parse_args (codes "ucp" ∷ codes "file" ∷ codes ":host::name" ∷ [])
    ≡ ok (some (codes "file", codes "host", codes "name"))
unfolding parse_args
two_colons = refl

abbrev tenths : List (List ℕ)
tenths =
    (0 ∷ [])
    ∷ (1 ∷ [])
    ∷ (2 ∷ [])
    ∷ (3 ∷ [])
    ∷ (4 ∷ [])
    ∷ (5 ∷ [])
    ∷ (6 ∷ [])
    ∷ (7 ∷ [])
    ∷ (8 ∷ [])
    ∷ (9 ∷ [])
    ∷ []

abbrev look_up : ℕ → List (List ℕ) → Disk
look_up i [] name = none
look_up i (c ∷ cs) name = if same_name name (part_name i) then some c else look_up (i + 1) cs name

-- A shell on which every command leaves the ten parts.
abbrev shell : Shell
shell command disk = some (0, look_up 0 tenths)

-- What a thread does with its address and name: it reads its part.
abbrev rest : (dst_ip dst_filename : Name) → Part → Run Part
rest dst_ip dst_filename part =
    ok (record part { handle = record (part.handle) { last_seq_no = 1 } })

-- Only the last part's thread gets its socket.
main_faults_example :
    main shell true
      (λ name. true)
      11
      (block_thread (λ idx. idx == 9) rest)
      (codes "ucp" ∷ codes "file" ∷ codes "host:name" ∷ [])
      (λ name. none)
    ≡ fault
main_faults_example =
    main_faults shell 11 (λ idx. idx == 9) rest (codes "ucp") (codes "file") (codes "ost")
      (codes "ame") 104 110 9 (λ name. none) (look_up 0 tenths) tenths refl refl refl
      (refl, (refl, (refl, (refl, (refl, (refl, (refl, (refl, (refl, (refl, tt)))))))))) refl
      (omega arith) (omega arith) (omega arith) refl
