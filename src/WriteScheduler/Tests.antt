-- ===== src/WriteScheduler/Tests.antt =====
-- Runs of the write scheduler at concrete inputs.
use cpp_tlfss.Base.{◌+◌, List, [], ◌∷◌, ◌++◌, ◌≡◌, true, some}
use cpp_tlfss.WriteScheduler.Types.{eagain, send_file_write, PreparedFile}
use cpp_tlfss.WriteScheduler.Queue.{file_progress, cancel_all, returns}
use cpp_tlfss.WriteScheduler.Writable.{returned, error, Environment}
use cpp_tlfss.WriteScheduler.Balance.{IsFile}
use cpp_tlfss.WriteScheduler.Accounts.{IsBalanced}
use cpp_tlfss.WriteScheduler.Owed.{owed, notices}
use cpp_tlfss.WriteScheduler.Trace.{
  fresh, Operation, memory, file, writable, run, run-IsBalanced, submitted, run-notices, mark,
  last_mark, cancel_all-notices, cancel_all-run,
}

-- A file of three bytes that the kernel sends, with callback 7.
abbrev document : PreparedFile
document = record {
  task = send_file_write (record { offset = 0; remaining = 3; sent = 0; callback = some 7 }) 9;
  error = 0;
}

-- A socket that takes one byte at each call.
abbrev one_byte : Environment
one_byte = record { io = λ _ _. returned 1; reader = returns }

-- A socket that takes nothing.
abbrev full : Environment
full = record { io = λ _ _. error eagain; reader = returns }

abbrev program : List Operation
program =
    memory (1 ∷ 2 ∷ [])
    ∷ file document true
    ∷ writable full
    ∷ writable one_byte
    ∷ mark 4096
    ∷ file document true
    ∷ []

document-IsFile : IsFile document.task
unfolding IsFile file_progress
document-IsFile e = cc

run-IsBalanced_example : IsBalanced (run program fresh).0
run-IsBalanced_example =
    run-IsBalanced program (tt, (document-IsFile, (tt, (tt, (tt, (document-IsFile, tt))))))

run-notices_example :
    notices 7 (run program fresh).1 + owed 7 (run program fresh).0.writes ≡ submitted 7 program
run-notices_example = run-notices 7 program

cancel_all-notices_example :
    notices 7 ((run program fresh).1 ++ (cancel_all 104 (run program fresh).0).1)
    ≡ submitted 7 program
cancel_all-notices_example = cancel_all-notices 7 104 program

cancel_all-run_example :
    (run program (cancel_all 104 (run program fresh).0).0).0
    ≡ record (cancel_all 104 (run program fresh).0).0 {
      high_water_mark = last_mark program (run program fresh).0.high_water_mark;
    }
cancel_all-run_example = cancel_all-run 104 (run program fresh).0 program
