-- ===== src/Inserter.antt =====
-- src/external-inserter.c: the block functions that the inserter links fat32.c against, over a disk
-- image in memory.
pub mod Device
pub mod Main
use if2230_2023_ntaraja.Prelude.{
  ℕ, zero, suc, ◌+◌, ◌-◌, ◌*◌, List, [], ◌++◌, byte_at, if◌then◌else◌,
}
use if2230_2023_ntaraja.Memory.{Mem, inside, load_bytes}
use if2230_2023_ntaraja.Disk.{block_size}

-- `image_storage`
abbrev pub Image : Type 0
Image = Mem

-- memcpy of one block to `address` of the image, from offset `offset` of the caller's buffer
abbrev pub store_block : Image → ℕ → List ℕ → ℕ → Image
store_block image address buf offset a =
    if inside address block_size a then byte_at buf (offset + (a - address)) else image a

read_loop : ℕ → ℕ → ℕ → Image → List ℕ
read_loop zero i lba image = []
read_loop (suc k) i lba image =
    load_bytes image (block_size * (lba + i)) block_size ++ read_loop k (i + 1) lba image

unfoldable pub read_blocks : Image → ℕ → ℕ → List ℕ
unfolding read_loop load_bytes
read_blocks image lba count = read_loop count 0 lba image

write_loop : ℕ → ℕ → List ℕ → ℕ → Image → Image
write_loop zero i buf lba image = image
write_loop (suc k) i buf lba image =
    write_loop k (i + 1) buf lba (store_block image (block_size * (lba + i)) buf (block_size * i))

unfoldable pub write_blocks : Image → List ℕ → ℕ → ℕ → Image
unfolding write_loop
write_blocks image buf lba count = write_loop count 0 buf lba image
