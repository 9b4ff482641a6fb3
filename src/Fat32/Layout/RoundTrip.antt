-- ===== src/Fat32/Layout/RoundTrip.antt =====
-- What is stored in a cluster is what was there before, and what a cluster decodes to is storable.
use if2230_2023_ntaraja.Prelude.{
  ◌∙◌, All-append, ℕ, zero, suc, ◌+◌, ◌*◌, ◌/◌, ◌%◌, ◌^◌, ◌<◌, ◌≡◌, refl, ap, ap₂, arith, List, [],
  ◌∷◌, ◌++◌, byte_at, window, drop, length, All, Bytes,
}
use if2230_2023_ntaraja.Fat32.{DirectoryEntry}
use if2230_2023_ntaraja.Fat32.Layout.{
  word_16, word_32, bytes_16, bytes_32, encode_fields, encode_fat, decode_fat, encode_entry,
  decode_entry, encode_dir, decode_dir,
}

-- A value that the packed struct can hold.
pub record IsEntry (e : DirectoryEntry) : Type 0 where
  pub name_length : length e.name ≡ 8
  pub name_bytes : Bytes e.name
  pub ext_length : length e.ext ≡ 3
  pub ext_bytes : Bytes e.ext
  pub attribute : e.attribute < 2 ^ 8
  pub user_attribute : e.user_attribute < 2 ^ 8
  pub undelete : e.undelete < 2 ^ 8
  pub create_time : e.create_time < 2 ^ 16
  pub create_date : e.create_date < 2 ^ 16
  pub access_date : e.access_date < 2 ^ 16
  pub cluster_high : e.cluster_high < 2 ^ 16
  pub modified_time : e.modified_time < 2 ^ 16
  pub modified_date : e.modified_date < 2 ^ 16
  pub cluster_low : e.cluster_low < 2 ^ 16
  pub filesize : e.filesize < 2 ^ 32

abbrev pub IsWord : ℕ → Type 0
IsWord w = w < 2 ^ 32

window-cons : (x : ℕ) (xs : List ℕ) (i n : ℕ) → window (x ∷ xs) (suc i) n ≡ window xs i n
window-cons x xs i zero = refl
window-cons x xs i (suc n) =
    let e : suc i + 1 ≡ suc (i + 1) = omega arith in
    rw e (ap (λ t. byte_at xs i ∷ t) (window-cons x xs (i + 1) n))

window-length : (xs : List ℕ) (n : ℕ) → length xs ≡ n → window xs 0 n ≡ xs
window-length [] zero e = refl
window-length [] (suc n) e = absurd (omega arith)
window-length (x ∷ xs) zero e = absurd (omega arith)
window-length (x ∷ xs) (suc n) e =
    ap (λ t. x ∷ t) (window-cons x xs 0 n ∙ window-length xs n (omega arith))

-- An allocation table of 32-bit entries is read back from its bytes.
pub decode-encode_fat :
    (fat : List ℕ) → All IsWord fat → decode_fat (length fat) (encode_fat fat) ≡ fat
unfolding encode_fat decode_fat
decode-encode_fat [] h = refl
decode-encode_fat (w ∷ ws) h = ap₂ ◌∷◌ (omega arith) (decode-encode_fat ws h.1)

eight : (xs : List ℕ) → length xs ≡ 8 → window xs 0 8 ≡ xs
eight xs e = window-length xs 8 e

three : (xs : List ℕ) → length xs ≡ 3 → window xs 0 3 ≡ xs
three xs e = window-length xs 3 e

decode-encode_entry :
    (e : DirectoryEntry) (rest : List ℕ) → IsEntry e → decode_entry (encode_entry e rest) ≡ e
unfolding encode_entry decode_entry
decode-encode_entry e rest v = λ i. record {
  name = eight e.name v.name_length i;
  ext = three e.ext v.ext_length i;
  attribute = e.attribute;
  user_attribute = e.user_attribute;
  undelete = e.undelete;
  create_time = half e.create_time v.create_time i;
  create_date = half e.create_date v.create_date i;
  access_date = half e.access_date v.access_date i;
  cluster_high = half e.cluster_high v.cluster_high i;
  modified_time = half e.modified_time v.modified_time i;
  modified_date = half e.modified_date v.modified_date i;
  cluster_low = half e.cluster_low v.cluster_low i;
  filesize = whole i;
}
  where
    half : (w : ℕ) → w < 2 ^ 16 → w % 2 ^ 8 + w / 2 ^ 8 % 2 ^ 8 * 2 ^ 8 ≡ w
    half w h = omega arith

    whole :
        e.filesize % 2 ^ 8
          + e.filesize / 2 ^ 8 % 2 ^ 8 * 2 ^ 8
          + (e.filesize / 2 ^ 16 % 2 ^ 8 + e.filesize / 2 ^ 16 / 2 ^ 8 % 2 ^ 8 * 2 ^ 8) * 2 ^ 16
        ≡ e.filesize
    whole = omega (arith, v.filesize)

drop-encode_entry : (e : DirectoryEntry) (rest : List ℕ) → drop 32 (encode_entry e rest) ≡ rest
unfolding encode_entry
drop-encode_entry e rest = refl

-- A directory table whose fields fit their widths is read back from its bytes.
pub decode-encode_dir :
    (dir : List DirectoryEntry) → All IsEntry dir → decode_dir (length dir) (encode_dir dir) ≡ dir
unfolding encode_dir decode_dir
decode-encode_dir [] h = refl
decode-encode_dir (e ∷ es) h =
    ap₂ ◌∷◌ (decode-encode_entry e (encode_dir es) h.0)
      (ap (decode_dir (length es)) (drop-encode_entry e (encode_dir es)) ∙ decode-encode_dir es h.1)

pub length-encode_fat : (fat : List ℕ) → length (encode_fat fat) ≡ length fat * 4
unfolding encode_fat
length-encode_fat [] = refl
length-encode_fat (w ∷ ws) = omega (arith, length-encode_fat ws)

pub encode_fat-Bytes : (fat : List ℕ) → Bytes (encode_fat fat)
unfolding encode_fat
encode_fat-Bytes [] = tt
encode_fat-Bytes (w ∷ ws) =
    (omega arith, (omega arith, (omega arith, (omega arith, encode_fat-Bytes ws))))

pub length-encode_dir : (dir : List DirectoryEntry) → length (encode_dir dir) ≡ length dir * 32
unfolding encode_dir encode_entry
length-encode_dir [] = refl
length-encode_dir (e ∷ es) = omega (arith, length-encode_dir es)

pub length-decode_dir : (n : ℕ) (bs : List ℕ) → length (decode_dir n bs) ≡ n
unfolding decode_dir
length-decode_dir zero bs = refl
length-decode_dir (suc n) bs = ap suc (length-decode_dir n (drop 32 bs))

pub length-decode_fat : (n : ℕ) (bs : List ℕ) → length (decode_fat n bs) ≡ n
unfolding decode_fat
length-decode_fat zero bs = refl
length-decode_fat (suc n) bs = ap suc (length-decode_fat n (drop 4 bs))

at-lt : (bs : List ℕ) (i : ℕ) → Bytes bs → byte_at bs i < 2 ^ 8
at-lt [] i h = omega arith
at-lt (b ∷ bs) zero h = h.0
at-lt (b ∷ bs) (suc i) h = at-lt bs i h.1

pub word_32-IsWord : (bs : List ℕ) → Bytes bs → word_32 bs 0 < 2 ^ 32
word_32-IsWord bs h = omega (arith, at-lt bs 0 h, at-lt bs 1 h, at-lt bs 2 h, at-lt bs 3 h)

Bytes-drop : (n : ℕ) (bs : List ℕ) → Bytes bs → Bytes (drop n bs)
Bytes-drop zero bs h = h
Bytes-drop (suc n) [] h = h
Bytes-drop (suc n) (b ∷ bs) h = Bytes-drop n bs h.1

Bytes-window : (bs : List ℕ) (i n : ℕ) → Bytes bs → Bytes (window bs i n)
Bytes-window bs i zero h = tt
Bytes-window bs i (suc n) h = (at-lt bs i h, Bytes-window bs (i + 1) n h)

word_16-lt : (bs : List ℕ) (i : ℕ) → Bytes bs → word_16 bs i < 2 ^ 16
word_16-lt bs i h = omega (arith, at-lt bs i h, at-lt bs (i + 1) h)

decode_entry-IsEntry : (bs : List ℕ) → Bytes bs → IsEntry (decode_entry bs)
unfolding decode_entry
decode_entry-IsEntry bs h = record {
  name_length = refl;
  name_bytes = Bytes-window bs 0 8 h;
  ext_length = refl;
  ext_bytes = Bytes-window bs 8 3 h;
  attribute = at-lt bs 11 h;
  user_attribute = at-lt bs 12 h;
  undelete = at-lt bs 13 h;
  create_time = word_16-lt bs 14 h;
  create_date = word_16-lt bs 16 h;
  access_date = word_16-lt bs 18 h;
  cluster_high = word_16-lt bs 20 h;
  modified_time = word_16-lt bs 22 h;
  modified_date = word_16-lt bs 24 h;
  cluster_low = word_16-lt bs 26 h;
  filesize = omega (arith, word_16-lt bs 28 h, word_16-lt bs 30 h);
}

-- Whatever bytes a cluster holds, the table read from it can be written back.
pub decode_dir-IsEntry : (n : ℕ) (bs : List ℕ) → Bytes bs → All IsEntry (decode_dir n bs)
unfolding decode_dir
decode_dir-IsEntry zero bs h = tt
decode_dir-IsEntry (suc n) bs h =
    (decode_entry-IsEntry bs h, decode_dir-IsEntry n (drop 32 bs) (Bytes-drop 32 bs h))

Bytes-window_append :
    (xs rest : List ℕ) (n : ℕ) → Bytes xs → Bytes rest → Bytes (window xs 0 n ++ rest)
Bytes-window_append xs rest n h k =
    All-append (λ b. b < 256) (window xs 0 n) rest (Bytes-window xs 0 n h) k

bytes_16-Bytes : (w : ℕ) (rest : List ℕ) → Bytes rest → Bytes (bytes_16 w rest)
bytes_16-Bytes w rest h = (omega arith, (omega arith, h))

fields-Bytes :
    (e : DirectoryEntry) (rest : List ℕ) → IsEntry e → Bytes rest → Bytes (encode_fields e rest)
fields-Bytes e rest v h = (v.attribute, (v.user_attribute, (v.undelete, words)))
  where
    words : Bytes (
        bytes_16 e.create_time (
          bytes_16 e.create_date (
            bytes_16 e.access_date (
              bytes_16 e.cluster_high (
                bytes_16 e.modified_time (
                  bytes_16 e.modified_date (bytes_16 e.cluster_low (bytes_32 e.filesize rest))))))))
    words = search (h, bytes_16-Bytes) depth 12

entry-Bytes :
    (e : DirectoryEntry) (rest : List ℕ) → IsEntry e → Bytes rest → Bytes (encode_entry e rest)
unfolding encode_entry
entry-Bytes e rest v h =
    All-append (λ b. b < 256) (window e.name 0 8 ++ window e.ext 0 3) (encode_fields e rest)
      (Bytes-window_append e.name (window e.ext 0 3) 8 v.name_bytes
        (Bytes-window e.ext 0 3 v.ext_bytes))
      (fields-Bytes e rest v h)

pub encode_dir-Bytes : (dir : List DirectoryEntry) → All IsEntry dir → Bytes (encode_dir dir)
unfolding encode_dir
encode_dir-Bytes [] h = tt
encode_dir-Bytes (e ∷ es) h = entry-Bytes e (encode_dir es) h.0 (encode_dir-Bytes es h.1)
