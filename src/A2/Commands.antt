-- ===== src/A2/Commands.antt =====
-- a2/interpreter.c, the commands. `exec` and `run` call the scheduler through the argument `schedule`.
pub mod Run
use mcgill_ecse_427_operatin.Prelude.{
  ℕ, zero, suc, ◌==◌, if◌then◌else◌, Option, none, some, [], ◌∷◌, ◌++◌, CString, codes,
}
use mcgill_ecse_427_operatin.Prelude.Int.{ℤ, pos, negsuc, ◌==ℤ◌}
use mcgill_ecse_427_operatin.Prelude.Words.{first_byte, tail_text, has_byte}
use mcgill_ecse_427_operatin.A2.Memory.{mem_set_value, mem_get_value, variable_store_mem_init}
use mcgill_ecse_427_operatin.A2.Machine.{
  Host, ok, exited, crashed, Cmd, ◌>>=◌, ◌>>◌, pure, modify, put, on_world,
}
use mcgill_ecse_427_operatin.A2.Kernel.{process_initialize}

pub data Error : Type 0 where
  no_error file_does_not_exist file_error no_mem_space ready_queue_full scheduling_error : Error
  too_many_tokens too_few_tokens non_alphanumeric_token bad_command error_cd error_mkdir : Error

abbrev pub error_code : Error → ℕ
error_code no_error = 0
error_code file_does_not_exist = 1
error_code file_error = 2
error_code no_mem_space = 3
error_code ready_queue_full = 4
error_code scheduling_error = 5
error_code too_many_tokens = 6
error_code too_few_tokens = 7
error_code non_alphanumeric_token = 8
error_code bad_command = 9
error_code error_cd = 10
error_code error_mkdir = 11

abbrev pub error_msg : Error → CString
error_msg no_error = codes "no error"
error_msg file_does_not_exist = codes "file does not exist"
error_msg file_error = codes "file could not be loaded"
error_msg no_mem_space = codes "no space left in shell memory"
error_msg ready_queue_full = codes "ready queue is full"
error_msg scheduling_error = codes "scheduling policy error"
error_msg too_many_tokens = codes "too many tokens"
error_msg too_few_tokens = codes "too few tokens"
error_msg non_alphanumeric_token = codes "non-alphanumeric token"
error_msg bad_command = codes "unknown name"
error_msg error_cd = codes "cd"
error_msg error_mkdir = codes "mkdir"

-- The error that an `int` code stands for; no code that reaches `handle_error` is another number.
abbrev error_from : ℕ → Option Error
error_from zero = some no_error
error_from (suc zero) = some file_does_not_exist
error_from (suc (suc zero)) = some file_error
error_from (suc (suc (suc zero))) = some no_mem_space
error_from (suc (suc (suc (suc zero)))) = some ready_queue_full
error_from (suc (suc (suc (suc (suc zero))))) = some scheduling_error
error_from (suc (suc (suc (suc (suc (suc n)))))) =
    if n == 0
    then some too_many_tokens
    else if n == 1
    then some too_few_tokens
    else if n == 2
    then some non_alphanumeric_token
    else if n == 3
    then some bad_command
    else if n == 4
    then some error_cd
    else if n == 5
    then some error_mkdir
    else none

abbrev pub handle_error : {W : Type 0} → Error → Cmd W ℤ
handle_error e = do
  put (codes "Bad command: " ++ (error_msg e ++ codes "\n"))
  pure (pos (error_code e))

abbrev handle_found : {W : Type 0} → Option Error → Cmd W ℤ
handle_found none = λ m. crashed
handle_found (some e) = handle_error e

-- `handle_error` on a code that another function returned.
abbrev pub handle_code : {W : Type 0} → ℤ → Cmd W ℤ
handle_code (pos n) = handle_found (error_from n)
handle_code (negsuc n) = λ m. crashed

-- `help_string`, with the two quotation marks in UTF-8.
abbrev help_text : CString
help_text =
    codes
      "COMMAND\t\t\tDESCRIPTION\n help\t\t\tDisplays all the commands\n quit\t\t\tExits / terminates the shell with "
    ++ (226 ∷ 128 ∷ 156 ∷ [])
    ++ codes "Bye!"
    ++ (226 ∷ 128 ∷ 157 ∷ [])
    ++ codes
        "\n set VAR STRING\t\tAssigns a value to shell memory\n print VAR\t\tDisplays the STRING assigned to VAR\n run SCRIPT.TXT\t\tExecutes the file SCRIPT.TXT\n "

-- The value of a variable, or the text that `print` shows without one.
abbrev shown : Option CString → CString
shown none = codes "\n"
shown (some v) = v

module _ {W : Type 0} where
  abbrev pub help : Cmd W ℤ
  help = do put (help_text ++ codes "\n"); pure (pos 0)

  -- `exit(0)`; the nodes of the ready queue are freed first.
  unfoldable pub quit : Host W → Cmd W ℤ
  quit h = do
    put (codes "Bye!\n")
    on_world (h.system (codes "rm -rf ./backing_store"))
    λ m. exited 0 m

  module _ (threshold varmemsize : ℕ) where
    unfoldable pub set : CString → CString → Cmd W ℤ
    set var value = do
      modify (λ m. record m {
        pager = record m.pager {
          memory = mem_set_value threshold varmemsize var value m.pager.memory;
        };
      })
      pure (pos 0)

    abbrev look_up : CString → Cmd W (Option CString)
    look_up var m = ok (mem_get_value threshold varmemsize var m.pager.memory) m

    unfoldable pub print : CString → Cmd W ℤ
    print var = do v ← look_up var; put (shown v ++ codes "\n"); pure (pos 0)

    unfoldable pub echo : CString → Cmd W ℤ
    echo var =
        if first_byte var == b'$'
        then (do print (tail_text var); pure (pos 0))
        else (do put (var ++ codes "\n"); pure (pos 0))

    unfoldable pub resetmem : Cmd W ℤ
    resetmem = do
      modify (λ m. record m {
        pager = record m.pager {
          memory = variable_store_mem_init threshold varmemsize m.pager.memory;
        };
      })
      pure (pos 0)

    module _ (h : Host W) where
      abbrev pub my_ls : Cmd W ℤ
      my_ls = on_world (h.system (codes "ls | sort"))

      abbrev make_dir : CString → Cmd W ℤ
      make_dir dir = on_world (h.system (codes "mkdir " ++ dir))

      abbrev make_named : Option CString → Cmd W ℤ
      make_named none = handle_error error_mkdir
      make_named (some v) = if has_byte b' ' v then handle_error error_mkdir else make_dir v

      -- A name behind `$` is looked up; it must be there and hold no space.
      unfoldable pub my_mkdir : CString → Cmd W ℤ
      my_mkdir dirname =
          if first_byte dirname == b'$'
          then (do v ← look_up (tail_text dirname); make_named v)
          else make_dir dirname

      abbrev pub my_touch : CString → Cmd W ℤ
      my_touch filename = on_world (h.system (codes "touch " ++ filename))

      unfoldable pub my_cd : CString → Cmd W ℤ
      my_cd dirname m =
          if h.is_directory dirname m.world
          then on_world (h.chdir dirname) m
          else handle_error error_cd m

      -- `fuel` bounds the copies of a script; `schedule` is `schedule_by_policy`.
      module _ (fuel : ℕ) (schedule : CString → Cmd W ℤ) where
        unfoldable pub run : CString → Cmd W ℤ
        run script = do
          code ← process_initialize h threshold varmemsize fuel script
          if code ==ℤ pos 11 then handle_code code else (do schedule (codes "FCFS"); pure code)

        -- A script that is given is loaded; the code is not 0 where that failed.
        abbrev load_given : Option CString → Cmd W ℤ
        load_given none = pure (pos 0)
        load_given (some f) = process_initialize h threshold varmemsize fuel f

        abbrev unless_failed : ℤ → Cmd W ℤ → Cmd W ℤ
        unless_failed code next = if code ==ℤ pos 0 then next else handle_code code

        -- The first script is always given; the interpreter has its name.
        unfoldable pub exec : CString → Option CString → Option CString → Cmd W ℤ
        exec fname1 none none = run fname1
        exec fname1 fname2 fname3 = do
          a ← process_initialize h threshold varmemsize fuel fname1
          unless_failed a (do
            b ← load_given fname2
            unless_failed b (do
              c ← load_given fname3
              unless_failed c (do d ← schedule (codes "RR"); unless_failed d (pure d))))
