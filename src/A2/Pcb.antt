-- ===== src/A2/Pcb.antt =====
-- a2/pcb.c and pcb.h: process control blocks. The record holds the block that the code allocates,
-- its stream included.
use mcgill_ecse_427_operatin.Prelude.{ℕ, ◌+◌, Bool, false, CString, Array}
use mcgill_ecse_427_operatin.Prelude.Int.{ℤ, ◌*ℤ◌}
use mcgill_ecse_427_operatin.Prelude.Stdio.{Stream}
use mcgill_ecse_427_operatin.A2.Memory.{frame_size}

abbrev pub page_table_size : ℕ
page_table_size = 20

-- An entry is a frame number, or -1.
pub record Pcb : Type 0 where
  pub priority : Bool
  pub pid : ℕ
  pub pc : ℤ
  pub job_length_score : ℕ
  pub page_table : Array ℤ
  pub fp : Stream
  pub filename : CString

-- `generatePID` returns the counter and steps it, so the block's id is the counter and the second
-- part of the result is the new counter.
unfoldable pub make_pcb : ℕ → Array ℤ → Stream → CString → Pcb × ℕ
make_pcb pid_counter page_table fp filename = (
  record {
    priority = false;
    pid = pid_counter;
    pc = page_table 0 *ℤ frame_size;
    job_length_score = 0;
    page_table = page_table;
    fp = fp;
    filename = filename;
  },
  pid_counter + 1,
)
