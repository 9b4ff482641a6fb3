-- ===== src/Inserter/Device.antt =====
-- The image keeps what a block device must keep.
use if2230_2023_ntaraja.Prelude.{
  ℕ, zero, suc, ◌+◌, ◌-◌, ◌*◌, ◌≤◌, ◌≡◌, sym, ◌∙◌, ◌⊎◌, arith, List, length, byte_at, Bytes,
  if◌then◌else◌,
}
use if2230_2023_ntaraja.Memory.Load.{
  load_bytes-eq, length-load_bytes, load_bytes-Bytes, load_bytes-add, load_bytes-congr, no_bytes,
}
use if2230_2023_ntaraja.Memory.{inside, load_bytes}
use if2230_2023_ntaraja.Disk.{block_size, BlockDevice}
use if2230_2023_ntaraja.Inserter.{Image, read_loop, read_blocks, write_loop, write_blocks}

read_loop_lem :
    (k i lba : ℕ) (image : Image)
    → read_loop k i lba image ≡ load_bytes image (block_size * (lba + i)) (k * block_size)
unfolding read_loop
read_loop_lem zero i lba image = let e : zero * 512 ≡ 0 = omega arith in rw (e, no_bytes)
read_loop_lem (suc k) i lba image =
    let e : suc k * 512 ≡ 512 + k * 512 = omega arith in
    let e' : 512 * (lba + (i + 1)) ≡ 512 * (lba + i) + 512 = omega arith in
    rw (e, load_bytes-add, ← e', read_loop_lem k (i + 1) lba image)

write_loop_lem :
    (k i : ℕ) (buf : List ℕ) (lba : ℕ) (image : Image) (a : ℕ)
    → write_loop k i buf lba image a ≡ (
        if inside (block_size * (lba + i)) (k * block_size) a
        then byte_at buf (a - block_size * lba)
        else image a)
unfolding write_loop
write_loop_lem zero i buf lba image a = ground arith
write_loop_lem (suc k) i buf lba image a = rw (write_loop_lem k (i + 1) buf lba) (ground arith)

-- The inserter reads back the whole blocks of bytes that it wrote to the image.
pub image_read-write_self :
    (d : Image) (buf : List ℕ) (lba n : ℕ)
    → length buf ≡ n * block_size
    → Bytes buf
    → read_blocks (write_blocks d buf lba n) lba n ≡ buf
unfolding read_blocks write_blocks
image_read-write_self d buf lba n h b =
    read_loop_lem n 0 lba (write_loop n 0 buf lba d)
    ∙ load_bytes-eq (write_loop n 0 buf lba d) buf (block_size * (lba + 0)) (n * block_size) h b
        (λ j lo hi. write_loop_lem n 0 buf lba d j ∙ ground arith)

-- Blocks of the image apart from those written read as before.
pub image_read-write_other :
    (d : Image) (buf : List ℕ) (lba n lba' n' : ℕ)
    → (lba + n ≤ lba') ⊎ (lba' + n' ≤ lba)
    → read_blocks (write_blocks d buf lba n) lba' n' ≡ read_blocks d lba' n'
unfolding read_blocks write_blocks
image_read-write_other d buf lba n lba' n' h =
    read_loop_lem n' 0 lba' (write_loop n 0 buf lba d)
    ∙ load_bytes-congr (write_loop n 0 buf lba d) d (block_size * (lba' + 0)) (n' * block_size)
        (λ j lo hi. write_loop_lem n 0 buf lba d j ∙ ground arith)
    ∙ sym (read_loop_lem n' 0 lba' d)

pub image_length-read : (d : Image) (lba n : ℕ) → length (read_blocks d lba n) ≡ n * block_size
unfolding read_blocks
image_length-read d lba n = rw (read_loop_lem n 0 lba d) (length-load_bytes d _ _)

pub image_read-Bytes : (d : Image) (lba n : ℕ) → Bytes (read_blocks d lba n)
unfolding read_blocks
image_read-Bytes d lba n = rw (read_loop_lem n 0 lba d) (load_bytes-Bytes d _ _)

-- What fat32.c is linked against in the inserter
instance abbrev pub image_device : BlockDevice Image
image_device = record {
  read_blocks = read_blocks;
  write_blocks = write_blocks;
  length-read = image_length-read;
  read-Bytes = image_read-Bytes;
  read-write_self = image_read-write_self;
  read-write_other = image_read-write_other;
}
