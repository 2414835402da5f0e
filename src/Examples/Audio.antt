-- ===== src/Examples/Audio.antt =====
-- A ring of five samples whose contents go round its end.
use droidctl.Base.{ℕ, ◌-◌, ◌≡◌, min, refl, [], ◌∷◌, ◌++◌, length, take, replicate, arith}
use droidctl.AudioBuf.{AudioBuf, capacity, read, write, write_silence}
use droidctl.AudioBuf.Fifo.{IsValid, contents, contents-read}
use droidctl.AudioBuf.Write.{contents-write, contents-write_silence}

abbrev buffer : AudioBuf ℕ
buffer = record { samples = 13 ∷ 0 ∷ 0 ∷ 11 ∷ 12 ∷ []; alloc_size = 5; head = 1; tail = 3 }

buffer-IsValid : IsValid 0 buffer
buffer-IsValid = record {
  room = refl;
  head_in = omega arith;
  tail_in = omega arith;
  small = omega arith;
}

contents-read_example :
    IsValid 0 (read buffer 2).2
    × (contents 0 buffer ≡ (read buffer 2).0 ++ contents 0 (read buffer 2).2)
    × (length ((read buffer 2).0) ≡ (read buffer 2).1)
    × ((read buffer 2).1 ≡ min 2 (length (contents 0 buffer)))
contents-read_example = contents-read 0 buffer 2 buffer-IsValid

contents-write_example :
    IsValid 0 (write buffer (14 ∷ 15 ∷ []) 2).1
    × (contents 0 (write buffer (14 ∷ 15 ∷ []) 2).1
        ≡ contents 0 buffer ++ take ((write buffer (14 ∷ 15 ∷ []) 2).0) (14 ∷ 15 ∷ []))
    × ((write buffer (14 ∷ 15 ∷ []) 2).0 ≡ min 2 (capacity buffer - length (contents 0 buffer)))
contents-write_example = contents-write 0 buffer (14 ∷ 15 ∷ []) 2 buffer-IsValid (omega arith)

contents-write_silence_example :
    IsValid 0 (write_silence 0 buffer 3).1
    × (contents 0 (write_silence 0 buffer 3).1
        ≡ contents 0 buffer ++ replicate ((write_silence 0 buffer 3).0) 0)
    × ((write_silence 0 buffer 3).0 ≡ min 3 (capacity buffer - length (contents 0 buffer)))
contents-write_silence_example = contents-write_silence 0 0 buffer 3 buffer-IsValid
