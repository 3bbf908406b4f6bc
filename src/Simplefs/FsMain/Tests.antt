-- ===== src/Simplefs/FsMain/Tests.antt =====
-- Runs of the file operations of the earlier course, and its theorems at states that it reaches.
use operating_systems_labwor.Base.{
  ℕ, ◌≡◌, ◌∷◌, refl, List, [], ℤ, pos, negsuc, minus_one, replicate, set, get_or, arith,
}
use operating_systems_labwor.Simplefs.State.{Cmd, ◌>>=◌, ◌>>◌, Returns}
use operating_systems_labwor.Simplefs.Disk.{format_disk, closed}
use operating_systems_labwor.Simplefs.Disk.Views.{inode_at}
use operating_systems_labwor.Simplefs.Files.{delete, open_file}
use operating_systems_labwor.Simplefs.Files.Handles.{with_handles}
use operating_systems_labwor.Simplefs.Transfer.{read_file}
use operating_systems_labwor.Simplefs.FsMain.{
  find_index, short_name, fill_new, create_file, delete_file, is_negative, first_negative,
  open_first, close_handle, read_blocks, read_through, read_bytes, write_bytes, seek_target,
  seek_within,
}
use operating_systems_labwor.Simplefs.FsMain.Same.{delete_file-delete, open_first-open_file}
use operating_systems_labwor.Simplefs.FsMain.Reads.{read_bytes-read_file}
use operating_systems_labwor.Simplefs.FsMain.Seek.{IsNearest, seek_within_lem}
use operating_systems_labwor.Simplefs.Tests.{
  fresh, state_after, value_of, file_system, name_a, one_file, one_file-IsConsistent, opened,
  opened-IsConsistent, opened-handle, opened-offset, opened-size, opened-IsUsed,
}

-- All that a run computes with.
earlier : ℕ
unfolding file_system find_index short_name fill_new create_file delete_file is_negative
    first_negative open_first close_handle read_blocks read_through read_bytes write_bytes
    seek_target seek_within
earlier = 0

-- A name that does not fit into an inode.
abbrev long_name : List ℕ
long_name = replicate 9 b'n'

create_twice : Cmd ℤ
create_twice = do format_disk; _ ← create_file long_name; create_file long_name

-- The second create of the same name succeeds,
create_twice_result : value_of minus_one (create_twice fresh) ≡ pos 1
unfolding earlier create_twice
create_twice_result = refl

-- and both files have the same name.
create_twice_names :
    (inode_at (state_after (create_twice fresh)) 0).name
    ≡ (inode_at (state_after (create_twice fresh)) 1).name
unfolding earlier create_twice
create_twice_names = refl

-- A write of nothing to an empty file takes a block,
write_nothing : Cmd ℤ
write_nothing = do
  format_disk
  _ ← create_file name_a
  h ← open_first name_a
  write_bytes h [] (pos 0)

write_nothing_blocks :
    (inode_at (state_after (write_nothing fresh)) 0).direct_blocks ≡ pos 0 ∷ replicate 3 minus_one
unfolding earlier write_nothing
write_nothing_blocks = refl

-- What is written is read back across the border of two blocks, after a seek that is cut off at the
-- start of the file.
transfer : Cmd (ℤ × List ℕ)
transfer = do
  format_disk
  _ ← create_file name_a
  h ← open_first name_a
  _ ← write_bytes h (replicate 70 b'q') (pos 70)
  _ ← seek_within h (negsuc 99)
  _ ← seek_within h (pos 62)
  read_bytes h (pos 5)

transfer_result : value_of (minus_one, []) (transfer fresh) ≡ (pos 0, replicate 5 b'q')
unfolding earlier transfer
transfer_result = refl

delete_file-delete_example : delete_file name_a one_file ≡ delete name_a one_file
delete_file-delete_example = delete_file-delete name_a one_file

open_first-open_file_example : open_first name_a one_file ≡ open_file name_a one_file
open_first-open_file_example = open_first-open_file name_a one_file one_file-IsConsistent

read_bytes-read_file_example : read_bytes (pos 0) (pos 3) opened ≡ read_file (pos 0) (pos 3) opened
read_bytes-read_file_example =
    read_bytes-read_file opened 0 (pos 3) opened-IsConsistent (omega arith)

seek_within_lem_example :
    Returns
      (λ r t.
        (r ≡ pos 0)
        × ((to : ℕ) × IsNearest (get_or opened.handles 0 closed).offset (pos 5) 0 to
            × (t
                ≡ with_handles opened (
                    set opened.handles 0
                      (record (get_or opened.handles 0 closed) { offset = to })))))
      (seek_within (pos 0) (pos 5) opened)
seek_within_lem_example =
    seek_within_lem opened opened-IsConsistent 0 (omega arith) (pos 5) 0 0 opened-handle
      (omega arith) opened-IsUsed opened-size (omega (arith, opened-offset))
      (omega (arith, opened-offset))
