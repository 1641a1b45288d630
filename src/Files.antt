-- ===== src/Files.antt =====
-- pal/pal_common_win32.c: the log and the reading of files. What each call of user32 and kernel32
-- returns is a parameter.
pub mod Logged
use instagram_on_nt.Prelude.{
  ℕ, ◌+◌, ◌-◌, ◌^◌, ◌==◌, ◌||◌, not, Bool, List, Option, none, some, ltb, if◌then◌else◌, set, take,
  length,
}
use instagram_on_nt.Prelude.Int.{ℤ, pos, pos_part, ltb_ℤ}

-- sizeof(buf)
abbrev pub log_size : ℕ
log_size = 1024

-- What wvsprintfA returns, and the bytes of the buffer after it.
pub record Formatted : Type 0 where
  pub n : ℤ
  pub buf : List ℕ

-- `n` after the two tests.
unfoldable pub log_length : ℤ → ℕ
log_length n =
    let n' = if ltb_ℤ n (pos 0) then 0 else pos_part n in
    if ltb (log_size - 2) n' then log_size - 2 else n'

-- The buffer that OutputDebugStringA is given.
unfoldable pub log_buffer : Formatted → List ℕ
unfolding log_length
log_buffer f = let n = log_length f.n in set (set f.buf n 13) (n + 1) 10

-- The bytes that WriteFile is given, if COM1 is open.
unfoldable pub log_written : Formatted → List ℕ
unfolding log_length log_buffer
log_written f = take (log_length f.n + 2) (log_buffer f)

-- The answers of CreateFileA (whether there is a handle), GetFileSize and ReadFile (whether it has
-- succeeded, and the bytes).
pub record Disk : Type 0 where
  pub opened : Bool
  pub size : ℕ
  pub read : Bool
  pub got : List ℕ

-- INVALID_FILE_SIZE
abbrev pub invalid_file_size : ℕ
invalid_file_size = 2 ^ 32 - 1

-- The bytes of the file; none is NULL. The heap is taken to have room.
unfoldable pub pal_read_file : (List ℕ → Disk) → List ℕ → Option (List ℕ)
pal_read_file disk path =
    let d = disk path in
    if not d.opened
    then none
    else if d.size == invalid_file_size || d.size == 0
    then none
    else if not d.read || not (length d.got == d.size)
    then none
    else some d.got
