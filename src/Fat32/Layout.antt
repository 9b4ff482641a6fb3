-- ===== src/Fat32/Layout.antt =====
-- The packed layout of the file allocation table and of a directory table in a cluster's bytes:
-- what the memcpy calls between a ClusterBuffer and these structs do, least byte first.
pub mod RoundTrip
use if2230_2023_ntaraja.Prelude.{
  ℕ, zero, suc, ◌+◌, ◌*◌, ◌/◌, ◌%◌, ◌^◌, List, [], ◌∷◌, ◌++◌, byte_at, window, drop,
}
use if2230_2023_ntaraja.Fat32.{DirectoryEntry}

abbrev pub word_16 : List ℕ → ℕ → ℕ
word_16 bs i = byte_at bs i + byte_at bs (i + 1) * 2 ^ 8

abbrev pub word_32 : List ℕ → ℕ → ℕ
word_32 bs i = word_16 bs i + word_16 bs (i + 2) * 2 ^ 16

abbrev pub bytes_16 : ℕ → List ℕ → List ℕ
bytes_16 w rest = w % 2 ^ 8 ∷ w / 2 ^ 8 % 2 ^ 8 ∷ rest

abbrev pub bytes_32 : ℕ → List ℕ → List ℕ
bytes_32 w rest = bytes_16 w (bytes_16 (w / 2 ^ 16) rest)

-- `struct FAT32FileAllocationTable`: words of 4 bytes
unfoldable pub encode_fat : List ℕ → List ℕ
encode_fat [] = []
encode_fat (w ∷ ws) = bytes_32 w (encode_fat ws)

unfoldable pub decode_fat : ℕ → List ℕ → List ℕ
decode_fat zero bs = []
decode_fat (suc n) bs = word_32 bs 0 ∷ decode_fat n (drop 4 bs)

-- The 21 bytes behind the name and the extension, in front of `rest`
abbrev pub encode_fields : DirectoryEntry → List ℕ → List ℕ
encode_fields e rest =
    e.attribute
    ∷ e.user_attribute
    ∷ e.undelete
    ∷ bytes_16 e.create_time (
        bytes_16 e.create_date (
          bytes_16 e.access_date (
            bytes_16 e.cluster_high (
              bytes_16 e.modified_time
                (bytes_16 e.modified_date (bytes_16 e.cluster_low (bytes_32 e.filesize rest)))))))

-- The 32 bytes of a `struct FAT32DirectoryEntry`, in front of `rest`
unfoldable pub encode_entry : DirectoryEntry → List ℕ → List ℕ
encode_entry e rest = window e.name 0 8 ++ window e.ext 0 3 ++ encode_fields e rest

unfoldable pub decode_entry : List ℕ → DirectoryEntry
decode_entry bs = record {
  name = window bs 0 8;
  ext = window bs 8 3;
  attribute = byte_at bs 11;
  user_attribute = byte_at bs 12;
  undelete = byte_at bs 13;
  create_time = word_16 bs 14;
  create_date = word_16 bs 16;
  access_date = word_16 bs 18;
  cluster_high = word_16 bs 20;
  modified_time = word_16 bs 22;
  modified_date = word_16 bs 24;
  cluster_low = word_16 bs 26;
  filesize = word_32 bs 28;
}

-- `struct FAT32DirectoryTable`
unfoldable pub encode_dir : List DirectoryEntry → List ℕ
unfolding encode_entry
encode_dir [] = []
encode_dir (e ∷ es) = encode_entry e (encode_dir es)

unfoldable pub decode_dir : ℕ → List ℕ → List DirectoryEntry
unfolding decode_entry
decode_dir zero bs = []
decode_dir (suc n) bs = decode_entry bs ∷ decode_dir n (drop 32 bs)
