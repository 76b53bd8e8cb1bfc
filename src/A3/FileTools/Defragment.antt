-- ===== src/A3/FileTools/Defragment.antt =====
-- a3/fs/fsutil2.c, `defragment`: the files are read, removed, and written back one after another. The
-- buffers from `malloc` are there, and hold what was never written to them.
use mcgill_ecse_427_operatin.Prelude.{
  ℕ, zero, suc, ◌+◌, ◌-◌, ◌%◌, Bool, ltb, leb, if◌then◌else◌, Option, none, some, List, [], ◌∷◌,
  ◌++◌, CString,
}
use mcgill_ecse_427_operatin.Prelude.Int.{ℤ, pos, negsuc}
use mcgill_ecse_427_operatin.Prelude.Stdio.{length, drop}
use mcgill_ecse_427_operatin.A3.Host.{Host}
use mcgill_ecse_427_operatin.A3.Machine.{out_of_fuel, Cmd, ◌>>=◌, ◌>>◌, pure, crash, put, on_world}
use mcgill_ecse_427_operatin.A3.FileTools.{until_zero, keep, is_plain, open_root}
use mcgill_ecse_427_operatin.A3.FileTools.Recover.{first_bytes}

abbrev max_files_in_directory : ℕ
max_files_in_directory = 1000

abbrev content_size : ℕ
content_size = 1048576

abbrev buffer_size : ℕ
buffer_size = 8388609

-- An `int` as an `unsigned int`.
abbrev as_unsigned : ℤ → ℕ
as_unsigned (pos n) = n % 4294967296
as_unsigned (negsuc n) = 4294967295 - n

-- One less, in 32 bits without a sign.
abbrev one_less : ℕ → ℕ
one_less n = (n + 4294967295) % 4294967296

-- The name and the size of a file.
abbrev FileInfo : Type 0
FileInfo = CString × ℕ

-- `strcat` onto the text in a buffer; `none` where the result does not fit it.
unfoldable pub append_text : CString → CString → Option CString
append_text buffer s =
    let text = until_zero buffer ++ s in
    if ltb (length text) (length buffer)
    then some (text ++ (0 ∷ drop (length text + 1) buffer))
    else none

-- What the buffer holds after the read of these bytes, up to its first zero.
abbrev content_text : CString → CString → Option CString
content_text fresh bytes =
    let text = until_zero (bytes ++ drop (length bytes) fresh) in
    if ltb (length text) content_size then some text else none

-- `memcpy` of `n` bytes from `start` on; `none` where they reach behind one of the buffers.
unfoldable pub copied : CString → ℕ → ℕ → Option CString
copied buffer start n =
    if leb n (buffer_size - 1)
    then if leb (start + n) buffer_size then some (first_bytes n (drop start buffer)) else none
    else none

module _ {W : Type 0} (h : Host W) where
  abbrev or_crash : {A : Type 0} → Option A → Cmd W A
  or_crash none = crash
  or_crash (some a) = pure a

  abbrev append_content : CString → Option CString → Option CString
  append_content buffer none = none
  append_content buffer (some text) = append_text buffer text

  abbrev save_file : CString → List FileInfo → CString → Cmd W (List FileInfo × CString)
  save_file name files buffer = do
    size ← on_world (h.fsutil_size name)
    on_world (h.fsutil_seek name (pos 0))
    r ← on_world (h.fsutil_read name (as_unsigned size))
    buffer' ← or_crash (append_content buffer (content_text (h.unwritten content_size) r.1))
    pure (files ++ ((name, as_unsigned size) ∷ []), buffer')

  abbrev save_plain : Bool → CString → List FileInfo → CString → Cmd W (List FileInfo × CString)
  save_plain plain name files buffer =
      if plain
      then if ltb (length files) max_files_in_directory then save_file name files buffer else crash
      else pure (files, buffer)

  abbrev save_entry :
      ℕ
      → ℕ
      → Option CString
      → List FileInfo
      → CString
      → (List FileInfo → CString → Cmd W (List FileInfo × CString))
      → Cmd W (List FileInfo × CString)
  save_entry stray dir none files buffer rest = do on_world (h.dir_close dir); pure (files, buffer)
  save_entry stray dir (some name) files buffer rest = do
    inode ← on_world (h.inode_open stray)
    plain ← keep h (λ w. is_plain h w inode)
    saved ← save_plain plain name files buffer
    on_world (h.inode_close inode)
    rest saved.0 saved.1

  -- The files of the directory and their contents; every inode is opened at the sector `stray`.
  unfoldable pub save_files : ℕ → ℕ → ℕ → List FileInfo → CString → Cmd W (List FileInfo × CString)
  save_files zero stray dir files buffer = λ m. out_of_fuel
  save_files (suc fuel) stray dir files buffer = do
    name ← on_world (h.dir_readdir dir)
    save_entry stray dir name files buffer (save_files fuel stray dir)

  unfoldable pub remove_files : List FileInfo → Cmd W (Unit {0})
  remove_files [] = pure tt
  remove_files ((name, size) ∷ files) = do on_world (h.fsutil_rm name); remove_files files

  -- The contents stand one behind another, each a byte shorter than its file.
  unfoldable pub write_files : CString → ℕ → List FileInfo → Cmd W (Unit {0})
  write_files buffer start [] = pure tt
  write_files buffer start ((name, size) ∷ files) = do
    data_bytes ← or_crash (copied buffer start (one_less size))
    created ← on_world (h.fsutil_create name (pos size))
    put created.1
    on_world (h.fsutil_write name (data_bytes ++ h.unwritten 1))
    write_files buffer ((start + one_less size) % 4294967296) files

  unfoldable pub defragment : ℕ → ℕ → Cmd W ℤ
  defragment fuel stray = do
    dir ← open_root h
    saved ← save_files fuel stray dir [] (h.unwritten buffer_size)
    remove_files saved.0
    write_files saved.1 0 saved.0
    pure (pos 0)
