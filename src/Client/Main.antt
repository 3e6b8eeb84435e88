-- ===== src/Client/Main.antt =====
-- src/ucp_client.c: main, without the windows that it makes empty and the statistics that it prints.
pub mod Faulting
mod Tests
use ucp.Common.{
  ℕ, zero, suc, Bool, true, false, not, Option, none, some, List, [], ◌∷◌, ◌==◌, if◌then◌else◌, Run,
  ok, fault, ◌>>=◌, map,
}
use ucp.Files.Parts.{Name, Disk, Shell, Part, partition_file, partition_release}

-- NUM_THREADS
abbrev pub num_threads : ℕ
num_threads = 10

-- ':'
abbrev pub colon : ℕ
colon = 58

-- strtok(text, ":"): the first token, and the text behind it. Colons in front of a token are skipped; the
-- colon behind it goes with it.
abbrev pub token_from : Name → Name × Name
token_from [] = ([], [])
token_from (c ∷ text) =
    let (token, rest) = token_from text in if c == colon then ([], text) else (c ∷ token, rest)

abbrev pub strtok : Name → Option (Name × Name)
strtok [] = none
strtok (c ∷ text) =
    let later = strtok text in if c == colon then later else some (token_from (c ∷ text))

-- `strdup` reads what strtok returns.
abbrev pub strdup : Option (Name × Name) → Run (Name × Name)
strdup none = fault
strdup (some (token, rest)) = ok (token, rest)

-- The arguments of main: the source, and the address and the name at the destination; nothing where main
-- prints the usage. `malloc` in `strdup` is taken to succeed.
unfoldable pub parse_args : List Name → Run (Option (Name × Name × Name))
parse_args (program ∷ src ∷ dst ∷ []) = do
  (dst_ip, rest) ← strdup (strtok dst)
  (dst_filename, behind) ← strdup (strtok rest)
  ok (some (src, dst_ip, dst_filename))
parse_args argv = ok none

-- ucp_client_thread_context_t: a part, and the two pointers, which are nothing where they are not set.
pub record Context : Type 0 where
  pub part : Part
  pub dst_ip : Option Name
  pub dst_filename : Option Name

-- Reading a pointer that has not been set is a fault.
abbrev pub is_set : Option Name → Run Name
is_set none = fault
is_set (some name) = ok name

-- block_thread on its context, up to the use of its pointers: `socket` says whether it gets its socket, without
-- which it returns, and `rest` is what it does with the address and the name. The result is what it leaves
-- of the part.
unfoldable pub block_thread :
    (socket : ℕ → Bool) (rest : (dst_ip dst_filename : Name) → Part → Run Part) → Context → Run Part
block_thread socket rest ctx = if not (socket ctx.part.idx) then ok ctx.part else (do
  dst_ip ← is_set ctx.dst_ip
  dst_filename ← is_set ctx.dst_filename
  rest dst_ip dst_filename ctx.part)

-- All threads, each on its own context.
unfoldable pub run_threads : (thread : Context → Run Part) → List Context → Run (List Part)
run_threads thread [] = ok []
run_threads thread (ctx ∷ contexts) = do
  part ← thread ctx
  parts ← run_threads thread contexts
  ok (part ∷ parts)

abbrev pub unset : Part → Context
unset part = record { part = part; dst_ip = none; dst_filename = none }

-- The contexts that main makes: it sets the two pointers through the array, that is in the first of them.
abbrev pub contexts_of : (dst_ip dst_filename : Name) → List Part → List Context
contexts_of dst_ip dst_filename [] = []
contexts_of dst_ip dst_filename (part ∷ parts) =
    record { part = part; dst_ip = some dst_ip; dst_filename = some dst_filename } ∷ map unset parts

-- The threads get pointers into the array of handles, which is not tested.
abbrev pub handles_of : Option (List Part) → Run (List Part)
handles_of none = fault
handles_of (some handles) = ok handles

-- main behind its arguments.
unfoldable pub transfer :
    Shell
    → (memory : Bool) (can_open : Name → Bool) (fuel : ℕ) → (thread : Context → Run Part)
    → (src dst_ip dst_filename : Name) → Disk
    → Run (Bool × Disk)
transfer shell memory can_open fuel thread src dst_ip dst_filename disk = do
  (made, disk) ← partition_file shell memory can_open fuel src num_threads disk
  handles ← handles_of made
  handles ← run_threads thread (contexts_of dst_ip dst_filename handles)
  disk ← partition_release handles num_threads disk
  ok (true, disk)

abbrev pub run_args :
    (usage : Run (Bool × Disk))
    → ((src dst_ip dst_filename : Name) → Run (Bool × Disk))
    → Option (Name × Name × Name)
    → Run (Bool × Disk)
run_args usage run none = usage
run_args usage run (some (src, dst_ip, dst_filename)) = run src dst_ip dst_filename

-- main. The result is whether it returns 0.
unfoldable pub main :
    Shell
    → (memory : Bool) (can_open : Name → Bool) (fuel : ℕ) → (thread : Context → Run Part)
    → List Name
    → Disk
    → Run (Bool × Disk)
main shell memory can_open fuel thread argv disk = do
  args ← parse_args argv
  run_args (ok (false, disk))
      (λ src dst_ip dst_filename.
        transfer shell memory can_open fuel thread src dst_ip dst_filename disk)
      args
