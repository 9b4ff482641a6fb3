-- ===== src/Shell/Printing.antt =====
-- src/user-shell.c: what cat prints of a file.
use if2230_2023_ntaraja.Prelude.Opt.{some_inj}
use if2230_2023_ntaraja.Fat32.Volume.{zero_cluster}
use if2230_2023_ntaraja.Prelude.{
  true, sym, none-ne-some, none, inr, inl, false, byte_at, Option-cases, Bool-cases, ◌==◌, ◌+◌,
  refl, ne→==, ℕ, suc, ◌<◌, ◌≡◌, ◌∙◌, List, [], ◌∷◌, ◌++◌, some, pos, take, arith,
}
use if2230_2023_ntaraja.Memory.{Mem, load_bytes}
use if2230_2023_ntaraja.Disk.{BlockDevice, cluster_size}
use if2230_2023_ntaraja.Fat32.{DateTime, Request, State}
use if2230_2023_ntaraja.Fat32.Reading.{Reply, read, read_file, read_from_table}
use if2230_2023_ntaraja.Fat32.RoundTrip.{CanStore}
use if2230_2023_ntaraja.Fat32.RoundTrip.File.{read-write}
use if2230_2023_ntaraja.Shell.{slen}
use if2230_2023_ntaraja.Shell.Session.{
  Session, printed, print, white, name_fields, request_for, sys_read,
}
use if2230_2023_ntaraja.Shell.Commands.{cat, sys_write}

slen_nothing : {n : ℕ} → slen [] ≡ some n → none ≡ some n
unfolding slen
slen_nothing e = e

slen_end : (c : ℕ) (text : List ℕ) → (c == 0) ≡ true → slen (c ∷ text) ≡ some 0
unfolding slen
slen_end c text e = rw e refl

slen_next :
    (c m : ℕ) (text : List ℕ)
    → (c == 0) ≡ false
    → slen text ≡ some m
    → slen (c ∷ text) ≡ some (m + 1)
unfolding slen
slen_next c m text e run = rw (e, run) refl

slen_lost : (c : ℕ) (text : List ℕ) → (c == 0) ≡ false → slen text ≡ none → slen (c ∷ text) ≡ none
unfolding slen
slen_lost c text e run = rw (e, run) refl

printed_next :
    (c m : ℕ) (text shown : List ℕ)
    → (c == 0) ≡ false
    → printed m text ≡ some shown
    → printed (suc m) (c ∷ text) ≡ some (c ∷ shown)
unfolding printed
printed_next c m text shown e run = rw (e, run) refl

-- A string is shown whole.
pub printed-slen :
    (n : ℕ) (text : List ℕ) → slen text ≡ some n → printed n text ≡ some (take n text)
printed-slen n [] e = absurd (none-ne-some _ (slen_nothing e))
printed-slen n (c ∷ text) e = elim (Bool-cases (c == 0)) [
  | inl z ↦
      let none_left : 0 ≡ n = some_inj (sym (slen_end c text z) ∙ e) in
      rw (← none_left) (unfold printed in refl)
  | inr nz ↦ elim (Option-cases (slen text)) [
    | inl lost ↦ absurd (none-ne-some _ (sym (slen_lost c text nz lost) ∙ e))
    | inr (m, run) ↦
        let more : suc m ≡ n = omega (arith, some_inj (sym (slen_next c m text nz run) ∙ e)) in
        rw (← more) (printed_next c m text (take m text) nz (printed-slen m text run))
  ]
]

module _ {Disk : Type 0} ⦃device : BlockDevice Disk⦄ where
  -- read does not depend on what the request's buffer holds.
  read_buf :
      (stack : List ℕ) (r : Request) (b : Mem) (s : State Disk)
      → read stack (record r { buf = b }) s ≡ read stack r s
  unfolding read read_from_table read_file
  read_buf stack r b s = refl

  cat_shows :
      (stack filename name ext text : List ℕ) (n : ℕ) (s s' : Session Disk)
      → name_fields filename ≡ some (name, ext)
      → sys_read stack (request_for zero_cluster name ext s.current_dir cluster_size) s
        ≡ some (record { code = pos 0; output = some text }, s')
      → slen text ≡ some n
      → 0 < n
      → cat stack filename s ≡ some (record s' { screen = s'.screen ++ (take n text, white) ∷ [] })
  unfolding cat print
  cat_shows stack filename name ext text n s s' parsed run size some_text =
      rw (parsed, run, size, ne→== n 0 (λ e. omega arith), printed-slen n text size) refl

  sys_read-eq :
      (stack : List ℕ) (r : Request) (s : Session Disk) (reply : Reply) (files : State Disk)
      → read stack r s.files ≡ some (reply, files)
      → sys_read stack r s ≡ some (reply, record s { files = files })
  unfolding sys_read
  sys_read-eq stack r s reply files run = rw run refl

module _ {Disk : Type 0} ⦃device : BlockDevice Disk⦄ (now : DateTime) (buf : Mem)
    (name ext : List ℕ) (slot : ℕ) (s : Session Disk) where
  -- A cluster's worth of bytes for a new file in the current directory
  abbrev pub new_file : Request
  new_file = record {
    buf = buf;
    name = name;
    ext = ext;
    parent_cluster_number = s.current_dir;
    buffer_size = cluster_size;
  }

  -- A cluster of bytes whose text is not empty, written through the shell as a new file of the
  -- current directory, in a volume that can store it, is what cat then prints for that name, in
  -- white and up to the text's zero.
  pub cat-write :
      (stack filename : List ℕ) (n : ℕ)
      → CanStore new_file slot s.files
      → name_fields filename ≡ some (name, ext)
      → slen (load_bytes buf 0 cluster_size) ≡ some n
      → 0 < n
      → (s' : Session Disk) × (s'' : Session Disk) × (sys_write now new_file s ≡ some (pos 0, s'))
        × (cat stack filename s' ≡ some s'')
        × (s''.screen ≡ s.screen ++ (take n (load_bytes buf 0 cluster_size), white) ∷ [])
  unfolding sys_write
  cat-write stack filename n can parsed size some_text =
      let (files, run, back) = read-write now new_file slot s.files can in
      let (files', run') = back stack in
      let s₁ : Session Disk = record s { files = files } in
      let s₂ : Session Disk = record s { files = files' } in
      let text = load_bytes buf 0 cluster_size in
      (
        s₁,
        record s₂ { screen = s.screen ++ (take n text, white) ∷ [] },
        rw run refl,
        cat_shows stack filename name ext text n s₁ s₂ parsed
            (sys_read-eq stack (request_for zero_cluster name ext s.current_dir cluster_size) s₁
              (record { code = pos 0; output = some text }) files'
              (read_buf stack new_file (byte_at zero_cluster) files ∙ run'))
            size some_text,
        refl,
      )
