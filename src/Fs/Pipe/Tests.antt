-- ===== src/Fs/Pipe/Tests.antt =====
-- The pipe theorems at a pipe that holds two bytes.
use lambda_linux_kernel.Prelude.{ℕ, suc, false, [], ◌∷◌, replicate, length-replicate, arith, ap}
use lambda_linux_kernel.Fs.Pipe.{Pipe, read_pipe, write_pipe}
use lambda_linux_kernel.Fs.Pipe.Stream.{IsPipe, IsRead, read_pipe-IsRead}
use lambda_linux_kernel.Fs.Pipe.Writing.{IsWritten, write_pipe-IsWritten}

abbrev two_bytes : Pipe
two_bytes = record { page = 7 ∷ 8 ∷ replicate 4094 0; head = 2; tail = 0; ends = 2 }

two_bytes-IsPipe : IsPipe two_bytes
two_bytes-IsPipe = record {
  full_page = ap suc (ap suc (length-replicate {A = ℕ} 4094 0));
  head_in = omega arith;
  tail_in = omega arith;
}

read_pipe-IsRead_example : IsRead false two_bytes 3 [] (read_pipe false two_bytes 3)
read_pipe-IsRead_example = read_pipe-IsRead false two_bytes 3 two_bytes-IsPipe

write_pipe-IsWritten_example :
    IsWritten two_bytes 0 (9 ∷ 10 ∷ []) (write_pipe two_bytes (9 ∷ 10 ∷ []))
write_pipe-IsWritten_example = write_pipe-IsWritten two_bytes (9 ∷ 10 ∷ []) two_bytes-IsPipe
