-- ===== src/Shell/ReadOnly/Walks.antt =====
-- src/user-shell.c: the disk and the allocation table behind cd.
use if2230_2023_ntaraja.Interrupt.{code_byte}
use if2230_2023_ntaraja.Fat32.Layout.{decode_dir}
use if2230_2023_ntaraja.Fat32.{root_cluster_number}
use if2230_2023_ntaraja.Prelude.{
  if◌then◌else◌, set?, replicate, get_elem?, drop, true, inr, inl, if_either, false, Bool-cases,
  Bool, ◌-◌, ℕ, zero, suc, List, Option, none, some, ◌==◌,
}
use if2230_2023_ntaraja.Prelude.Opt.{◌>>=◌, Returns, Returns-bind, Returns-any}
use if2230_2023_ntaraja.Disk.{BlockDevice}
use if2230_2023_ntaraja.Shell.{readfname, slen, strcmp, split_path, cluster_exist}
use if2230_2023_ntaraja.Shell.Session.{
  name_fields, literal, table_cluster, copy_text, request_for, sys_read_directory, empty_path,
  copy_string, Session,
}
use if2230_2023_ntaraja.Shell.Walk.{
  change_to, append_part, short_fields, not_found, Walk, enter_part, climb, descend, walk_to_parent,
  walk_path, cd_parent, cd_path, cd_name, cd,
}
use if2230_2023_ntaraja.Shell.ReadOnly.{
  Stored, Keeps, KeepsBehind, print-Keeps, sys_read_directory-Keeps,
}

module _ {Disk : Type 0} ⦃device : BlockDevice Disk⦄ (kept : Stored Disk) where
  enter_part-Keeps :
      (pre : List ℕ) (w : Walk) (s : Session Disk)
      → Keeps kept s
      → Returns (KeepsBehind kept) (enter_part pre w s)
  unfolding enter_part Returns
  enter_part-Keeps pre w s h = Returns-any (KeepsBehind kept) (short_fields pre) _ (λ fields.
      Returns-bind (KeepsBehind kept) (KeepsBehind kept)
        (sys_read_directory (request_for w.table fields.0 fields.1 (table_cluster w.table) 0) s) _
        (sys_read_directory-Keeps kept _ s h) (λ p h'. h'))

  climb-Keeps :
      (w : Walk) (s : Session Disk) → Keeps kept s → Returns (KeepsBehind kept) (climb w s)
  unfolding climb Returns
  climb-Keeps w s h = Returns-any (KeepsBehind kept) (copy_string w.post empty_path) _ (λ temp.
      Returns-any (KeepsBehind kept) (split_path temp) _ (λ parts.
        Returns-any (KeepsBehind kept) (append_part parts.0 w.prev) _ (λ prev.
          Returns-bind (KeepsBehind kept) (KeepsBehind kept) (enter_part parts.0 _ s) _
            (enter_part-Keeps parts.0 _ s h) (λ p h'. h'))))

  descend-Keeps :
      (w : Walk) (s : Session Disk) → Keeps kept s → Returns (KeepsBehind kept) (descend w s)
  unfolding descend Returns
  descend-Keeps w s h = Returns-any (KeepsBehind kept) (copy_string w.post empty_path) _ (λ temp.
      Returns-any (KeepsBehind kept) (split_path temp) _ (λ parts.
        Returns-bind (KeepsBehind kept) (KeepsBehind kept) (enter_part parts.0 _ s) _
          (enter_part-Keeps parts.0 _ s h)
          (λ p h'.
            if_either (Returns (KeepsBehind kept)) (p.0.0 == 0) _ _
              (Returns-any (KeepsBehind kept) (append_part parts.0 p.0.1.prev) _ (λ prev. h')) h')))

  -- What follows a step of a walk: the rest of the walk, if the step found its directory
  abbrev carry_on :
      (Walk → Session Disk → Option ((Bool × Walk) × Session Disk))
      → (Bool × Walk) × Session Disk
      → Option ((Bool × Walk) × Session Disk)
  carry_on rest ((found, w), s) = elim found [ false ↦ some ((false, w), s) | true ↦ rest w s ]

  carry_on-Keeps :
      (step : Option ((Bool × Walk) × Session Disk))
      (rest : Walk → Session Disk → Option ((Bool × Walk) × Session Disk))
      → Returns (KeepsBehind {A = Bool × Walk} kept) step
      → ((w : Walk) (s : Session Disk)
          → Keeps kept s
          → Returns (KeepsBehind {A = Bool × Walk} kept) (rest w s))
      → Returns (KeepsBehind {A = Bool × Walk} kept) (step >>= carry_on rest)
  unfolding Returns
  carry_on-Keeps none rest h k = tt
  carry_on-Keeps (some ((false, w), s)) rest h k = h
  carry_on-Keeps (some ((true, w), s)) rest h k = k w s h

  walk_to_parent-Keeps :
      (fuel current : ℕ) (w : Walk) (s : Session Disk)
      → Keeps kept s
      → Returns (KeepsBehind kept) (walk_to_parent fuel current w s)
  unfolding walk_to_parent Returns
  walk_to_parent-Keeps zero current w s h = tt
  walk_to_parent-Keeps (suc fuel) current w s h =
      elim (Bool-cases (cluster_exist (decode_dir 64 w.table) current)) [
        | inl there ↦ rw (there, walk_to_parent, Returns) h
        | inr further ↦
            rw (further, walk_to_parent)
              (carry_on-Keeps (climb w s) (walk_to_parent fuel current) (climb-Keeps w s h)
                (λ w' s' h'. walk_to_parent-Keeps fuel current w' s' h'))
      ]

  walk_path-Keeps :
      (fuel : ℕ) (w : Walk) (s : Session Disk)
      → Keeps kept s
      → Returns (KeepsBehind kept) (walk_path fuel w s)
  unfolding walk_path Returns
  walk_path-Keeps zero w s h = tt
  walk_path-Keeps (suc fuel) w s h = Returns-any (KeepsBehind kept) (slen w.post) _ (λ n.
      elim (Bool-cases (n == 1)) [
        | inl last ↦ rw (last) h
        | inr further ↦ rw (further) (
            carry_on-Keeps (descend w s) (walk_path fuel) (descend-Keeps w s h)
              (λ w' s' h'. walk_path-Keeps fuel w' s' h'))
      ])

  cd_parent-Keeps :
      (fuel : ℕ) (s : Session Disk) → Keeps kept s → Returns (Keeps kept) (cd_parent fuel s)
  unfolding cd_parent not_found change_to Returns
  cd_parent-Keeps fuel s h =
      if_either (Returns (Keeps kept)) (s.current_dir == root_cluster_number) _ _
        (print-Keeps kept _ _ _ s h)
        (Returns-any (Keeps kept) (copy_string s.cur_dir_name empty_path) _ (λ post.
          Returns-bind (KeepsBehind kept) (Keeps kept) (walk_to_parent fuel s.current_dir _ s) _
            (walk_to_parent-Keeps fuel s.current_dir _ s h)
            (λ p h'.
              if_either (Returns (Keeps kept)) p.0.0 _ _
                (Returns-any (Keeps kept) (slen p.0.1.prev) _
                  (λ n. Returns-any (Keeps kept) (copy_text (n - 1) p.0.1.prev 1 _) _ (λ name. h')))
                (print-Keeps kept _ _ _ p.1 h'))))

  cd_path-Keeps :
      (fuel : ℕ) (filename : List ℕ) (s : Session Disk)
      → Keeps kept s
      → Returns (Keeps kept) (cd_path fuel filename s)
  unfolding cd_path not_found change_to Returns
  cd_path-Keeps fuel filename s h = Returns-any (Keeps kept) (slen s.cur_dir_name) _ (λ n.
      Returns-any (Keeps kept) (copy_text (n - 1) s.cur_dir_name 1 _) _ (λ temp.
        Returns-any (Keeps kept) (set? temp n 0) _ (λ temp'.
          Returns-any (Keeps kept) (copy_string filename empty_path) _ (λ post.
            Returns-bind (KeepsBehind kept) (Keeps kept) (walk_path fuel _ s) _
              (walk_path-Keeps fuel _ s h)
              (λ p h'.
                if_either (Returns (Keeps kept)) p.0.0 _ _
                  (Returns-any (Keeps kept) (copy_string p.0.1.prev empty_path) _ (λ name. h'))
                  (print-Keeps kept _ _ _ p.1 h'))))))

  cd_name-Keeps :
      (filename : List ℕ) (s : Session Disk)
      → Keeps kept s
      → Returns (Keeps kept) (cd_name filename s)
  unfolding cd_name change_to Returns
  cd_name-Keeps filename s h =
      Returns-any (Keeps kept) (readfname filename (replicate 9 0) (replicate 4 0)) _ (λ typed.
        Returns-any (Keeps kept) (name_fields filename) _ (λ fields.
          Returns-bind (KeepsBehind kept) (Keeps kept)
            (sys_read_directory (request_for s.cur_table fields.0 fields.1 s.current_dir 0) s) _
            (sys_read_directory-Keeps kept _ s h)
            (λ p h'.
              if_either (Returns (Keeps kept)) (code_byte p.0.code == 0) _ _
                (Returns-any (Keeps kept) (slen typed.0) _ (λ n.
                  Returns-any (Keeps kept) (strcmp (drop 1 p.1.cur_dir_name) typed.0 n) _ (λ same.
                    Returns-any (Keeps kept)
                      (if same then some p.1.cur_dir_name else append_part typed.0 p.1.cur_dir_name)
                      _ (λ path. h'))))
                (print-Keeps kept _ _ _ p.1 h'))))

  pub cd-Keeps :
      (fuel : ℕ) (filename : List ℕ) (s : Session Disk)
      → Keeps kept s
      → Returns (Keeps kept) (cd fuel filename s)
  unfolding cd Returns
  cd-Keeps fuel filename s h = Returns-any (Keeps kept) (strcmp (literal "..") filename 2) _ (λ up.
      Returns-any (Keeps kept) (get_elem? filename 0) _ (λ first.
        if_either (Returns (Keeps kept)) up _ _ (cd_parent-Keeps fuel s h) (
          if_either (Returns (Keeps kept)) (first == b'/') _ _ (cd_path-Keeps fuel filename s h)
            (cd_name-Keeps filename s h))))
