-- ===== src/Tests/Files.antt =====
-- The log of pal/pal_common_win32.c and the reading of a file, at concrete inputs.
use instagram_on_nt.Prelude.{
  ℕ, ◌≡◌, refl, arith, true, List, [], ◌∷◌, ◌++◌, none, replicate, drop, codes, length-replicate,
  length-append,
}
use instagram_on_nt.Prelude.Int.{pos, neg}
use instagram_on_nt.Http.Response.Lines.{lacks}
use instagram_on_nt.Files.{Formatted, Disk, log_buffer, log_written, log_length, pal_read_file}
use instagram_on_nt.Files.Logged.{Holds, log_buffer-open}

abbrev text : List ℕ
text = codes "boot"

-- What the stack held before.
abbrev rest : List ℕ
rest = replicate 1019 7

abbrev formatted : Formatted
formatted = record { n = pos 4; buf = text ++ (0 ∷ rest) }

formatted-Holds : Holds formatted text rest
formatted-Holds = record {
  n = refl;
  buf = refl;
  full = omega (arith, length-replicate {A = ℕ} 1019 7, length-append text (0 ∷ rest));
}

rest_lacks : lacks 0 (drop 1 rest) ≡ true
unfolding lacks
rest_lacks = refl

log_buffer-open_example : lacks 0 (log_buffer formatted) ≡ true
unfolding lacks
log_buffer-open_example = log_buffer-open formatted text rest formatted-Holds refl rest_lacks

-- A failure of wvsprintfA leaves an empty line.
failed_line : log_written (record { n = neg 1; buf = 1 ∷ 2 ∷ 3 ∷ [] }) ≡ 13 ∷ 10 ∷ []
unfolding log_written log_buffer log_length
failed_line = refl

abbrev short_read : List ℕ → Disk
short_read path = record { opened = true; size = 3; read = true; got = 1 ∷ 2 ∷ [] }

short_read_lem : pal_read_file short_read (codes "D:\\city.qoi") ≡ none
unfolding pal_read_file
short_read_lem = refl
