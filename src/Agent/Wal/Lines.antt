-- ===== src/Agent/Wal/Lines.antt =====
-- bufio.Scanner with ScanLines over the bytes of the log, and its limit on a line.
use bangmod_monitor.Prelude.{
  ℕ, ◌≤◌, ◌<◌, Bool, true, false, List, [], ◌∷◌, ◌++◌, ◌≡◌, refl, arith, leb, ◌==◌, length, All,
  if◌then◌else◌, append_assoc, ap, ◌∙◌, ◌||◌,
}
use bangmod_monitor.Prelude.Json.{Bytes, IsText}

abbrev pub newline : ℕ
newline = 10

abbrev carriage_return : ℕ
carriage_return = 13

-- bufio.MaxScanTokenSize
abbrev pub max_token : ℕ
max_token = 65536

abbrev cons_line : ℕ → List Bytes → List Bytes
cons_line c [] = (c ∷ []) ∷ []
cons_line c (l ∷ ls) = (c ∷ l) ∷ ls

-- The pieces between newlines; what follows the last newline is a line if it is not empty.
split_lines : Bytes → List Bytes
split_lines [] = []
split_lines (c ∷ b) =
    let rest = split_lines b in if c == newline then [] ∷ rest else cons_line c rest

abbrev drop_cr : Bytes → Bytes
drop_cr [] = []
drop_cr (c ∷ []) = if c == carriage_return then [] else c ∷ []
drop_cr (c ∷ d ∷ b) = c ∷ drop_cr (d ∷ b)

-- The scanner stops with an error at the first line that does not fit its buffer.
abbrev tokens : List Bytes → List Bytes × Bool
tokens [] = ([], false)
tokens (l ∷ ls) =
    let (ts, too_long) = tokens ls in
    if leb max_token (length l) then ([], true) else (drop_cr l ∷ ts, too_long)

-- The lines that `Scan` yields, and whether `Err` reports bufio.ErrTooLong.
pub scan : Bytes → List Bytes × Bool
unfolding split_lines
scan b = tokens (split_lines b)

abbrev pub IsShort : Bytes → Type 0
IsShort l = length l < max_token

-- A line and the rest of the file after its newline.
split_lines-append :
    (l rest : Bytes) → IsText l → split_lines (l ++ newline ∷ rest) ≡ l ∷ split_lines rest
unfolding split_lines
split_lines-append [] rest h = refl
split_lines-append (c ∷ l) rest (p, h) = ground (arith, split_lines-append l rest h)

drop_cr-text : (l : Bytes) → IsText l → drop_cr l ≡ l
drop_cr-text [] h = refl
drop_cr-text (c ∷ []) (p, h) = ground arith
drop_cr-text (c ∷ d ∷ l) (p, h) = ap (λ m. c ∷ m) (drop_cr-text (d ∷ l) h)

abbrev pub encode : List Bytes → Bytes
encode [] = []
encode (l ∷ ls) = l ++ newline ∷ encode ls

pub encode-append :
    (ls : List Bytes) (l : Bytes) → encode (ls ++ l ∷ []) ≡ encode ls ++ (l ++ newline ∷ [])
encode-append [] l = refl
encode-append (k ∷ ls) l = simp (encode-append ls l, append_assoc)

pub encode-ne-nil : (l : Bytes) (ls : List Bytes) → encode (l ∷ ls) ≡ [] → ⊥
encode-ne-nil [] ls h = cc
encode-ne-nil (c ∷ l) ls h = cc

abbrev pub IsLine : Bytes → Type 0
IsLine l = IsText l × IsShort l

tokens-lines : (ls : List Bytes) → All IsLine ls → tokens ls ≡ (ls, false)
tokens-lines [] h = refl
tokens-lines (l ∷ ls) ((t, s), h) = ground (arith, tokens-lines ls h, drop_cr-text l t)

split_lines-encode : (ls : List Bytes) → All IsLine ls → split_lines (encode ls) ≡ ls
unfolding split_lines
split_lines-encode [] h = refl
split_lines-encode (l ∷ ls) ((t, _), h) =
    split_lines-append l (encode ls) t ∙ ap (λ ks. l ∷ ks) (split_lines-encode ls h)

-- Scanning reads back the lines that were written.
pub scan-encode : (ls : List Bytes) → All IsLine ls → scan (encode ls) ≡ (ls, false)
unfolding scan
scan-encode ls h = rw (split_lines-encode ls h) (tokens-lines ls h)

-- The length of the first line, and the test for a long line behind it.
abbrev head_length : List Bytes → ℕ
head_length [] = 0
head_length (l ∷ ls) = length l

abbrev long : List Bytes → Bool
long ls = (tokens ls).1

abbrev long_behind : List Bytes → Bool
long_behind [] = false
long_behind (l ∷ ls) = long ls

long_cases : (ls : List Bytes) → long ls ≡ leb max_token (head_length ls) || long_behind ls
long_cases [] = refl
long_cases (l ∷ ls) = ground arith

head_length-append :
    (b x : Bytes) → head_length (split_lines b) ≤ head_length (split_lines (b ++ x))
unfolding split_lines
head_length-append [] x = omega arith
head_length-append (c ∷ b) x = ground (arith, head_length-append b x)

long_behind-append :
    (b x : Bytes) → long_behind (split_lines b) ≡ true → long_behind (split_lines (b ++ x)) ≡ true
unfolding split_lines
long_behind-append [] x h = cc
long_behind-append (c ∷ b) x h = ground (
  arith,
  head_length-append b x,
  long_behind-append b x,
  long_cases (split_lines b),
  long_cases (split_lines (b ++ x)),
)

-- A file with a line that is too long keeps one, whatever is appended.
pub scan_long-append : (b x : Bytes) → (scan b).1 ≡ true → (scan (b ++ x)).1 ≡ true
unfolding scan
scan_long-append b x h = ground (
  arith,
  head_length-append b x,
  long_behind-append b x,
  long_cases (split_lines b),
  long_cases (split_lines (b ++ x)),
)

-- So has a file whose first line is a text of the limit's length or more.
pub scan_long :
    (l rest : Bytes) → IsText l → max_token ≤ length l → (scan (l ++ newline ∷ rest)).1 ≡ true
unfolding scan
scan_long l rest t h = rw (split_lines-append l rest t) (ground arith)

-- So has a file with such a line behind others.
pub scan_long_behind :
    (ls : List Bytes) (l : Bytes)
    → All IsLine ls
    → IsText l
    → max_token ≤ length l
    → (scan (encode ls ++ (l ++ newline ∷ []))).1 ≡ true
unfolding scan
scan_long_behind [] l h t n = scan_long l [] t n
scan_long_behind (k ∷ ls) l ((p, s), h) t n =
    let rest = encode ls ++ (l ++ newline ∷ []) in
    rw (append_assoc k (newline ∷ encode ls) (l ++ newline ∷ []), split_lines-append k rest p)
      (ground (arith, long_cases (k ∷ split_lines rest), scan_long_behind ls l h t n))
