-- ===== src/Shell/Prompt.antt =====
-- src/user-shell.c: the start of main, and one round of its loop. The line that the user types is an
-- argument, the 256 bytes that the keyboard leaves.
use if2230_2023_ntaraja.Prelude.{ℕ, true, false, List, [], ◌∷◌, Option, some, drop, replicate}
use if2230_2023_ntaraja.Prelude.Opt.{◌>>=◌}
use if2230_2023_ntaraja.Disk.{BlockDevice, cluster_size}
use if2230_2023_ntaraja.Fat32.{DateTime, root_cluster_number}
use if2230_2023_ntaraja.Fat32.Volume.{zero_cluster, root_name}
use if2230_2023_ntaraja.Shell.{strcmp}
use if2230_2023_ntaraja.Shell.Session.{
  Session, literal, codes, white, print, request_for, received, sys_read, sys_read_directory,
}
use if2230_2023_ntaraja.Shell.Commands.{cat, rm, mkdir, ls, cp, flip}
use if2230_2023_ntaraja.Shell.Walk.{cd}
use if2230_2023_ntaraja.Shell.Move.{mv}
use if2230_2023_ntaraja.Shell.Find.{whereis}

-- What a round takes from outside: the clock, the fuel of the walks and of the search, and what
-- uninitialised arrays hold
pub record Ambient : Type 0 where
  pub now : DateTime
  pub fuel : ℕ
  pub stack : List ℕ
  pub stack_source : List ℕ
  pub stack_dest : List ℕ
  pub stack_path : List ℕ

-- The commands that the loop tells apart, and other lines
pub data Command : Type 0 where
  run_cat run_cd run_rm run_whereis run_ls run_mkdir run_flip run_cp run_mv nothing : Command

-- The first of the names that the line starts with, with its command
unfoldable pub choose : List ℕ → List ((List ℕ × ℕ) × Command) → Option Command
choose buf [] = some nothing
choose buf (((name, n), command) ∷ rest) = do
  same ← strcmp buf name n
  elim same [ true ↦ some command | false ↦ choose buf rest ]

abbrev pub command_names : List ((List ℕ × ℕ) × Command)
command_names =
    ((literal "cat", 3), run_cat)
    ∷ ((literal "cd", 2), run_cd)
    ∷ ((literal "rm", 2), run_rm)
    ∷ ((literal "whereis", 7), run_whereis)
    ∷ ((literal "ls", 2), run_ls)
    ∷ ((literal "mkdir", 5), run_mkdir)
    ∷ ((literal "flip a coin", 11), run_flip)
    ∷ ((literal "cp", 2), run_cp)
    ∷ ((literal "mv", 2), run_mv)
    ∷ []

module _ {Disk : Type 0} ⦃device : BlockDevice Disk⦄ where
  -- System call 1 for the root directory
  unfoldable pub load_root : List ℕ → Session Disk → Option (List ℕ × Session Disk)
  load_root buf s = do
    (reply, s') ←
        sys_read_directory
          (request_for buf root_name (replicate 3 0) root_cluster_number cluster_size) s
    some (received reply.output buf, s')

  -- The reads in front of the loop
  unfoldable pub start : List ℕ → Session Disk → Option (Session Disk)
  start stack s = do
    (reply, s₁) ←
        sys_read stack
          (request_for zero_cluster (codes "ikanaide") (replicate 3 0) root_cluster_number
            cluster_size)
          s
    (table, s₂) ← load_root s₁.cur_table s₁
    some (record s₂ { cur_table = table; root_table = table })

  unfoldable pub prompt : Session Disk → Option (Session Disk)
  prompt s = do
    s₁ ← print (literal "ntarAja@OS-IF2230:") 19 0x0A s
    s₂ ← print s.cur_dir_name 300 0x09 s₁
    print (literal "$ ") 2 white s₂

  unfoldable pub execute : Ambient → List ℕ → Command → Session Disk → Option (Session Disk)
  execute a buf run_cat s = cat a.stack (drop 4 buf) s
  execute a buf run_cd s = cd a.fuel (drop 3 buf) s
  execute a buf run_rm s = rm (drop 3 buf) s
  execute a buf run_whereis s = whereis a.fuel a.stack_path (drop 8 buf) s
  execute a buf run_ls s = ls s
  execute a buf run_mkdir s = mkdir a.now (drop 6 buf) s
  execute a buf run_flip s = flip s
  execute a buf run_cp s = cp a.now a.stack a.stack_source a.stack_dest (drop 3 buf) s
  execute a buf run_mv s = mv a.now a.stack a.stack_source a.stack_dest (drop 3 buf) s
  execute a buf nothing s = some s

  -- One round of the loop, for the line in `buf`
  unfoldable pub round : Ambient → List ℕ → Session Disk → Option (Session Disk)
  round a buf s = do
    (table, s₁) ← load_root s.root_table s
    s₂ ← prompt (record s₁ { root_table = table })
    command ← choose buf command_names
    execute a buf command s₂
