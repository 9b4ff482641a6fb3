-- ===== src/Tests/Rounds.antt =====
-- A round of the shell at a concrete input.
use if2230_2023_ntaraja.Shell.Coin.{in_turn}
use if2230_2023_ntaraja.Shell.ReadOnly.Flips.{rounds-in_turn, all_texts, rounds}
use if2230_2023_ntaraja.Fat32.Volume.{read_to_dir_table}
use if2230_2023_ntaraja.Disk.{cluster_to_lba, read_clusters}
use if2230_2023_ntaraja.Fat32.Layout.{decode_entry, decode_dir}
use if2230_2023_ntaraja.Memory.{load_bytes, memcmp}
use if2230_2023_ntaraja.Fat32.Directory.{same_bytes, index_of, dir_table_search}
use if2230_2023_ntaraja.Fat32.Reading.{open_directory, read_directory}
use if2230_2023_ntaraja.Shell.Commands.{list_entries, ls}
use if2230_2023_ntaraja.Shell.ReadOnly.{stored_in}
use if2230_2023_ntaraja.Shell.ReadOnly.Rounds.{round-stored_in, OnlyReads}
use if2230_2023_ntaraja.Shell.Session.{
  copy_text, copy_string, printed, print, sys_read_directory, codes, Session,
}
use if2230_2023_ntaraja.Shell.Prompt.{
  run_flip, execute, command_names, prompt, run_ls, load_root, round, choose, Ambient,
}
use if2230_2023_ntaraja.Prelude.{◌∷◌, not, ◌==◌, ◌%◌, ◌≡◌, some, replicate, refl, [], ◌++◌, List, ℕ}
use if2230_2023_ntaraja.Inserter.{read_blocks, Image}
use if2230_2023_ntaraja.Inserter.Device.{image_device}
use if2230_2023_ntaraja.Tests.Fat.{noon}
use if2230_2023_ntaraja.Tests.Shell.{session}
use if2230_2023_ntaraja.Prelude.Opt.{value_or}
use if2230_2023_ntaraja.Shell.{common, strcmp, slen}

-- A round whose line is `ls`
abbrev ambient : Ambient
ambient = record {
  now = noon;
  fuel = 10;
  stack = [];
  stack_source = [];
  stack_dest = [];
  stack_path = [];
}

abbrev ls_line : List ℕ
ls_line = codes "ls" ++ replicate 254 0

abbrev after_ls : Session Image
after_ls = value_or session (round ambient ls_line session)

ls_chosen : choose ls_line command_names ≡ some run_ls
unfolding choose strcmp common
ls_chosen = refl

ls_reads : OnlyReads run_ls
unfolding OnlyReads
ls_reads = tt

ls_round : round ambient ls_line session ≡ some after_ls
unfolding round load_root prompt execute ls list_entries sys_read_directory read_directory
    dir_table_search index_of same_bytes memcmp decode_dir decode_entry read_clusters cluster_to_lba
    read_blocks load_bytes print printed copy_string copy_text slen choose strcmp common
    read_to_dir_table open_directory
ls_round = refl

round-stored_in_example : stored_in after_ls.files ≡ stored_in session.files
round-stored_in_example =
    round-stored_in ambient ls_line run_ls session after_ls ls_chosen ls_reads ls_round

abbrev flip_line : List ℕ
flip_line = codes "flip a coin" ++ replicate 245 0

flip_chosen : choose flip_line command_names ≡ some run_flip
unfolding choose strcmp common
flip_chosen = refl

root_printed : printed 300 session.cur_dir_name ≡ some (b'/' ∷ [])
unfolding printed
root_printed = refl

rounds-in_turn_example :
    (s' : Session Image) × (rounds 3 ambient flip_line session ≡ some s')
    × (s'.screen ≡ session.screen ++ all_texts (b'/' ∷ []) (in_turn 3 (not (0 % 2 == 0))))
rounds-in_turn_example =
    rounds-in_turn 3 ambient flip_line (b'/' ∷ []) session flip_chosen root_printed
