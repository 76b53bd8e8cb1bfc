-- ===== src/A3/Commands.antt =====
-- a3/interpreter.c, errors, `help`, `quit` and the commands on variables and scripts. The commands on
-- files are in A3/Commands/Files. `cwd` is the directory that the shell was started in.
pub mod Files
pub mod Values
use mcgill_ecse_427_operatin.Prelude.{
  ℕ, zero, suc, ◌+◌, ◌-◌, Bool, true, false, ◌&&◌, ◌||◌, ltb, leb, ◌==◌, if◌then◌else◌, Option,
  none, some, List, [], ◌∷◌, ◌++◌, CString, codes, str_eq,
}
use mcgill_ecse_427_operatin.Prelude.Int.{ℤ, pos, negsuc, minus_one, ◌==ℤ◌}
use mcgill_ecse_427_operatin.Prelude.Stdio.{length}
use mcgill_ecse_427_operatin.Prelude.Words.{join_words}
use mcgill_ecse_427_operatin.A3.Memory.{Caller, mem_set_value, mem_get_value, reset_var_zone}
use mcgill_ecse_427_operatin.A3.Host.{Host}
use mcgill_ecse_427_operatin.A3.Machine.{
  Machine, Cmd, ◌>>=◌, ◌>>◌, pure, crash, modify, gets, put, on_world,
}
use mcgill_ecse_427_operatin.A3.Kernel.{new_proc}
use mcgill_ecse_427_operatin.A3.Schedule.{run_proc_rr, run_proc_fifo}

pub data Error : Type 0 where
  file_does_not_exist no_mem_space ready_queue_full scheduling_error too_many_tokens : Error
  too_few_tokens non_alphanumeric_token bad_command error_rm file_creation_error : Error
  filesystem_error file_write_error file_read_error : Error

abbrev pub error_code : Error → ℕ
error_code file_does_not_exist = 0
error_code no_mem_space = 1
error_code ready_queue_full = 2
error_code scheduling_error = 3
error_code too_many_tokens = 4
error_code too_few_tokens = 5
error_code non_alphanumeric_token = 6
error_code bad_command = 7
error_code error_rm = 8
error_code file_creation_error = 9
error_code filesystem_error = 10
error_code file_write_error = 11
error_code file_read_error = 12

abbrev pub error_msg : Error → CString
error_msg file_does_not_exist = codes "file does not exist"
error_msg no_mem_space = codes "no space left in shell memory"
error_msg ready_queue_full = codes "ready queue is full"
error_msg scheduling_error = codes "scheduling policy error"
error_msg too_many_tokens = codes "too many tokens"
error_msg too_few_tokens = codes "too few tokens"
error_msg non_alphanumeric_token = codes "non-alphanumeric token"
error_msg bad_command = codes "unknown name"
error_msg error_rm = codes "rm"
error_msg file_creation_error = codes "file could not be created"
error_msg filesystem_error = codes "bad filesystem"
error_msg file_write_error = codes "file could not be written (maybe no space?)"
error_msg file_read_error = codes "file could not be read"

-- `isalnum`.
abbrev is_alnum : ℕ → Bool
is_alnum c = (leb 48 c && leb c 57) || ((leb 65 c && leb c 90) || (leb 97 c && leb c 122))

abbrev pub all_alnum : CString → Bool
all_alnum [] = true
all_alnum (c ∷ s) = is_alnum c && all_alnum s

unfoldable pub is_alpha_num_str : CString → Bool
is_alpha_num_str [] = false
is_alpha_num_str (c ∷ s) = all_alnum (c ∷ s)

-- Each text that starts at a byte of the given one.
unfoldable pub all_suffixes : CString → Bool
all_suffixes [] = true
all_suffixes (c ∷ s) = is_alpha_num_str (c ∷ s) && all_suffixes s

-- A space stands behind each value but the last.
abbrev with_space : CString → List CString → CString
with_space value [] = value
with_space value (v ∷ values) = value ++ codes " "

abbrev letters_a : ℕ → CString
letters_a zero = []
letters_a (suc n) = b'a' ∷ letters_a n

-- The name of the copy of a script; the letters behind it tell the copies apart.
unfoldable pub backing_name : CString → ℕ → CString
backing_name script count = codes "./backing_store/" ++ (script ++ letters_a count)

abbrev copy_command : CString → ℕ → CString
copy_command script count = codes "cp ./" ++ (script ++ (codes " " ++ backing_name script count))

abbrev help_text : CString
help_text =
    codes
      "COMMAND\t\t\tDESCRIPTION\n help\t\t\t      Displays all the commands\n quit\t\t\t      Exits / terminates the shell with "
    ++ ((226 ∷ 128 ∷ 156 ∷ [])
        ++ (codes "Bye!"
            ++ ((226 ∷ 128 ∷ 157 ∷ [])
                ++ (codes
                    "\n set VAR STRING\t\t      Assigns a value to shell memory\n print VAR\t\t      Displays the STRING assigned to VAR\n echo VAR                     Displays VAR if VAR doesn't begin with '$', otherwise displays the value assigned to VAR\n ls                        Displays the folders and files in the current directory in ascending order according to ASCII values \n run SCRIPT.TXT\t\t      Executes the file SCRIPT.TXT\n exec [SCRIPT.TXT]     Executes up to 3 files using the round-robin scheduling policy\n resetmem                     Deletes the content of the variable store\n"))))

module _ {W : Type 0} where
  abbrev pub handle_error : Error → Cmd W ℤ
  handle_error e = do
    put (codes "Bad command: " ++ (error_msg e ++ codes "\n"))
    pure (pos (error_code e))

  abbrev pub help : Cmd W ℤ
  help = do put (help_text ++ codes "\n"); pure (pos 0)

  abbrev remove_store : Host W → CString → Cmd W ℤ
  remove_store h cwd = on_world (h.system (codes "rm -rf " ++ (cwd ++ codes "/backing_store")))

  -- The `quit` branch of the interpreter with `quit` itself.
  unfoldable pub quit : Host W → CString → Cmd W ℤ
  quit h cwd = do remove_store h cwd; on_world h.filesys_done; put (codes "Bye!\n"); pure minus_one

  module _ (frame_store_size var_store_size : ℕ) where
    unfoldable pub set : CString → CString → Cmd W ℤ
    set var value = do
      modify (λ m. record m {
        memory = mem_set_value frame_store_size var_store_size var value m.memory;
      })
      pure (pos 0)

    -- The loop over the values, which must fit a buffer of 505 bytes together with their spaces.
    unfoldable pub set_values : CString → CString → List CString → Cmd W ℤ
    set_values var buffer [] = set var buffer
    set_values var buffer (value ∷ values) =
        let filled = buffer ++ with_space value values in
        let rest = set_values var filled values in
        if is_alpha_num_str value
        then if ltb (length filled) 505 then rest else crash
        else handle_error non_alphanumeric_token

    -- The `set` branch.
    unfoldable pub set_command : CString → List CString → Cmd W ℤ
    set_command var values =
        if is_alpha_num_str var
        then set_values var [] values
        else handle_error non_alphanumeric_token

    abbrev show_value : CString → Caller → Cmd W ℤ
    show_value var caller = do
      value ← gets (λ m. mem_get_value frame_store_size var_store_size var caller m.memory)
      put (value ++ codes "\n")
      pure (pos 0)

    unfoldable pub print : CString → Cmd W ℤ
    print var = show_value var Caller.print

    abbrev echo_text : CString → Cmd W ℤ
    echo_text var =
        if is_alpha_num_str var
        then (do put (var ++ codes "\n"); pure (pos 0))
        else handle_error non_alphanumeric_token

    unfoldable pub echo : CString → Cmd W ℤ
    echo [] = echo_text []
    echo (c ∷ s) =
        if c == b'$'
        then if all_suffixes s
          then show_value s Caller.echo
          else handle_error non_alphanumeric_token
        else echo_text (c ∷ s)

    unfoldable pub resetmem : Cmd W ℤ
    resetmem = do
      modify (λ m. record m { memory = reset_var_zone frame_store_size var_store_size m.memory })
      pure (pos 0)

    module _ (h : Host W) (cwd : CString) where
      -- A script is copied under a new name; the command must fit 100 bytes.
      unfoldable pub copy_script : CString → Cmd W CString
      copy_script script = do
        count ← gets (λ m. m.new_name_count)
        if ltb (length (copy_command script count)) 100
            then (do
              on_world (h.system (copy_command script count))
              modify (λ m. record m { new_name_count = m.new_name_count + 1 })
              pure (backing_name script count))
            else crash

      unfoldable pub copy_scripts : List CString → Cmd W (List CString)
      copy_scripts [] = pure []
      copy_scripts (script ∷ scripts) = do
        name ← copy_script script
        names ← copy_scripts scripts
        pure (name ∷ names)

      abbrev empty_store : Cmd W (Unit {0})
      empty_store = do
        remove_store h cwd
        on_world (h.system (codes "mkdir " ++ (cwd ++ codes "/backing_store")))
        pure tt

      -- What `fopen` finds under the name.
      abbrev start_proc : CString → Cmd W ℕ
      start_proc script m =
          new_proc frame_store_size var_store_size script (h.read_file script m.world) m

      unfoldable pub start_procs : List CString → Cmd W Bool
      start_procs [] = pure true
      start_procs (script ∷ scripts) = do
        code ← start_proc script
        if code == 0 then start_procs scripts else pure false

      -- `fuel` bounds the turns of the scheduler, and `parse` is `parseInput`.
      module _ (parse : CString → Cmd W ℤ) (fuel : ℕ) where
        unfoldable pub run : CString → Cmd W ℤ
        run script = do
          code ← start_proc script
          if code == 0 then run_proc_rr frame_store_size var_store_size parse fuel else pure (pos 1)

        abbrev by_policy : CString → Cmd W ℤ
        by_policy policy =
            if str_eq policy (codes "FIFO")
            then run_proc_fifo frame_store_size var_store_size parse fuel
            else if str_eq policy (codes "RR")
            then run_proc_rr frame_store_size var_store_size parse fuel
            else pure (pos 0)

        unfoldable pub exec : List CString → CString → Cmd W ℤ
        exec scripts policy =
            if ltb 3 (length scripts)
            then (do put (codes "exec can only take between 1 to 3 scripts\n"); pure (pos 1))
            else (do
              started ← start_procs scripts
              if started then by_policy policy else pure (pos 1))

        -- The `run` and the `exec` branch: the store of copies is emptied behind them.
        unfoldable pub run_command : CString → Cmd W ℤ
        run_command script = do name ← copy_script script; ret ← run name; empty_store; pure ret

        unfoldable pub exec_command : List CString → Cmd W ℤ
        exec_command scripts = do
          names ← copy_scripts scripts
          ret ← exec names (codes "RR")
          empty_store
          pure ret
