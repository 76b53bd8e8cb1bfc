-- ===== src/A3/Commands/Files.antt =====
-- a3/interpreter.c, the commands on the files of the disk; `argv` are the words behind the command's name.
pub mod Buffer
use mcgill_ecse_427_operatin.Prelude.{
  ℕ, zero, suc, ◌+◌, ◌-◌, ◌*◌, Bool, ◌&&◌, ◌||◌, leb, ◌==◌, if◌then◌else◌, Option, none, some, List,
  [], ◌∷◌, ◌++◌, CString, codes,
}
use mcgill_ecse_427_operatin.Prelude.Decimal.{decimal}
use mcgill_ecse_427_operatin.Prelude.Int.{ℤ, pos, negsuc, minus_one, ◌==ℤ◌}
use mcgill_ecse_427_operatin.Prelude.Stdio.{length}
use mcgill_ecse_427_operatin.A3.Host.{Host}
use mcgill_ecse_427_operatin.A3.Machine.{Cmd, ◌>>=◌, ◌>>◌, pure, crash, put, on_world}
use mcgill_ecse_427_operatin.A3.FileTools.{
  until_zero, keep, copy_in, copy_out, find_file, fragmentation_degree, sector_size,
}
use mcgill_ecse_427_operatin.A3.Commands.{
  Error, file_does_not_exist, error_rm, file_creation_error, filesystem_error, file_write_error,
  file_read_error, handle_error,
}

abbrev is_space : ℕ → Bool
is_space c = c == 32 || (leb 9 c && leb c 13)

abbrev digits_from : ℕ → CString → ℕ
digits_from n [] = n
digits_from n (c ∷ s) = if leb 48 c && leb c 57 then digits_from (10 * n + (c - 48)) s else n

abbrev negated : ℕ → ℤ
negated zero = pos 0
negated (suc n) = negsuc n

abbrev signed_digits : CString → ℤ
signed_digits [] = pos 0
signed_digits (c ∷ s) =
    if c == b'-'
    then negated (digits_from 0 s)
    else if c == b'+'
    then pos (digits_from 0 s)
    else pos (digits_from 0 (c ∷ s))

-- `atoi` on a number that an `int` can hold.
unfoldable pub atoi : CString → ℤ
atoi [] = pos 0
atoi (c ∷ s) = let rest = atoi s in if is_space c then rest else signed_digits (c ∷ s)

abbrev show_int : ℤ → CString
show_int (pos n) = decimal n
show_int (negsuc n) = b'-' ∷ decimal (n + 1)

-- The words with a space behind each, as the loops of `write` and `find_file` put them.
unfoldable pub spaced : List CString → CString
spaced [] = []
spaced (w ∷ ws) = w ++ (32 ∷ spaced ws)

-- `buf[current_ind - 1] = '\0'`, on a text that is not empty.
unfoldable pub end_last : CString → CString
end_last [] = []
end_last (c ∷ []) = 0 ∷ []
end_last (c ∷ d ∷ s) = c ∷ end_last (d ∷ s)

unfoldable pub zeros : ℕ → CString
zeros zero = []
zeros (suc n) = 0 ∷ zeros n

unfoldable pub total_length : List CString → ℕ
total_length [] = 0
total_length (w ∷ ws) = length w + total_length ws

-- `size`, for the words that are joined: a byte more for each of them, and one more.
abbrev pub words_size : List CString → ℕ
words_size ws = total_length ws + length ws + 1

-- The buffer of that size that `write` and `find_file` fill.
unfoldable pub words_buffer : List CString → CString
words_buffer ws = end_last (spaced ws) ++ zeros (words_size ws - length (spaced ws))

abbrev error_from : ℕ → Option Error
error_from n =
    if n == 9
    then some file_creation_error
    else if n == 10
    then some filesystem_error
    else if n == 11
    then some file_write_error
    else if n == 12
    then some file_read_error
    else none

module _ {W : Type 0} (h : Host W) where
  abbrev handle_found : Option Error → Cmd W ℤ
  handle_found none = crash
  handle_found (some e) = handle_error e

  -- The codes of `copy_in` and `copy_out` are 0 and 9 to 12; a code that was not returned is any value.
  abbrev copy_status : Option ℤ → Cmd W ℤ
  copy_status none = crash
  copy_status (some (negsuc n)) = crash
  copy_status (some (pos zero)) = pure (pos 0)
  copy_status (some (pos (suc n))) = handle_found (error_from (suc n))

  unfoldable pub copy_in_command : CString → Cmd W ℤ
  copy_in_command name = do status ← copy_in h name; copy_status status

  unfoldable pub copy_out_command : CString → Cmd W ℤ
  copy_out_command name = do status ← copy_out h name; copy_status (some status)

  unfoldable pub ls : Cmd W ℤ
  ls = do
    r ← on_world h.fsutil_ls
    put r.1
    if r.0 ==ℤ pos 1 then handle_error filesystem_error else pure (pos 0)

  unfoldable pub cat : CString → Cmd W ℤ
  cat name = do
    r ← on_world (h.fsutil_cat name)
    put r.1
    if r.0 ==ℤ pos 1 then handle_error file_does_not_exist else pure (pos 0)

  unfoldable pub rm : CString → Cmd W ℤ
  rm name = do
    status ← on_world (h.fsutil_rm name)
    if status ==ℤ pos 0 then handle_error error_rm else pure status

  unfoldable pub create : CString → CString → Cmd W ℤ
  create name size = do
    r ← on_world (h.fsutil_create name (atoi size))
    put r.1
    if r.0 ==ℤ pos 0 then handle_error file_creation_error else pure (pos 0)

  abbrev written_warning : ℤ → ℕ → CString
  written_warning written size =
      codes "Warning: could only write "
      ++ (show_int written
          ++ (codes " out of " ++ (decimal size ++ codes " bytes (reached end of file)\n")))

  unfoldable pub write : CString → List CString → Cmd W ℤ
  write name texts = do
    written ← on_world (h.fsutil_write name (words_buffer texts))
    if written ==ℤ minus_one
        then handle_error file_write_error
        else if written ==ℤ pos (words_size texts)
        then pure (pos 0)
        else (do put (written_warning written (words_size texts)); pure (pos 0))

  unfoldable pub find_file_command : ℕ → List CString → Cmd W ℤ
  find_file_command fuel texts = do find_file h fuel (until_zero (words_buffer texts)); pure (pos 0)

  -- The code is 1 where all of the bytes were read. A size below 0 has no buffer that is read into.
  abbrev read_sized : CString → ℤ → Cmd W ℤ
  read_sized name (pos size) = do
    r ← on_world (h.fsutil_read name size)
    if r.0 ==ℤ minus_one then handle_error file_read_error else (do
      put (until_zero r.1 ++ codes "\n")
      pure (if r.0 ==ℤ pos size then pos 1 else pos 0))
  read_sized name (negsuc zero) = do
    r ← on_world (h.fsutil_read name 4294967295)
    if r.0 ==ℤ minus_one then handle_error file_read_error else crash
  read_sized name (negsuc (suc n)) = crash

  unfoldable pub read : CString → CString → Cmd W ℤ
  read name size = read_sized name (atoi size)

  unfoldable pub size_command : CString → Cmd W ℤ
  size_command name = do
    length ← on_world (h.fsutil_size name)
    if length ==ℤ minus_one
        then handle_error file_does_not_exist
        else (do put (codes "File length: " ++ (show_int length ++ codes "\n")); pure (pos 0))

  unfoldable pub seek : CString → CString → Cmd W ℤ
  seek name offset = do
    status ← on_world (h.fsutil_seek name (atoi offset))
    if status ==ℤ minus_one then handle_error file_does_not_exist else pure (pos 0)

  unfoldable pub freespace : Cmd W ℤ
  freespace = do
    free_space ← keep h h.fsutil_freespace
    put (
        codes "Num free sectors: "
        ++ (decimal free_space
            ++ (codes " (" ++ (decimal (free_space * sector_size) ++ codes " total bytes)\n"))))
    pure (pos 0)

  unfoldable pub fragmentation_command : ℕ → ℕ → Cmd W ℤ
  fragmentation_command fuel stray = do fragmentation_degree h fuel stray; pure (pos 0)
