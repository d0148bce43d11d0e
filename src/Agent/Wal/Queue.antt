-- ===== src/Agent/Wal/Queue.antt =====
-- The log as a queue: what a caller sees of the file is the list of the values in it.
use bangmod_monitor.Prelude.{
  ℕ, suc, ◌-◌, true, List, [], ◌∷◌, ◌++◌, ◌≡◌, refl, sym, ap, ◌∙◌, some, none, arith, length, drop,
  filter_map, All, ltb, if◌then◌else◌, Bool-cases, inl, inr,
}
use bangmod_monitor.Prelude.Json.{Bytes, Codec}
use bangmod_monitor.Agent.Wal.{
  File, healthy, append, drain, size, entries, newest, contents, encode, encode-append, IsShort,
  IsLine, newline, encode-ne-nil, scan-encode,
}

-- The last `n` of a list at most: while it is longer, its head is left out.
abbrev pub latest : {T : Type 0} → ℕ → List T → List T
latest n [] = []
latest n (x ∷ xs) = let rest = latest n xs in if ltb n (length (x ∷ xs)) then rest else x ∷ xs

drop-latest : {T : Type 0} (n : ℕ) (xs : List T) → drop (length xs - n) xs ≡ latest n xs
drop-latest n [] = let none_left : 0 - n ≡ 0 = omega arith in rw none_left refl
drop-latest n (x ∷ xs) = elim (Bool-cases (ltb n (suc (length xs)))) [
  | inl long ↦
      let one : suc (length xs) - n ≡ suc (length xs - n) = ground (arith, long) in
      rw (long, one) (drop-latest n xs)
  | inr short ↦
      let none_left : suc (length xs) - n ≡ 0 = ground (arith, short) in rw (short, none_left) refl
]

newest-latest : {T : Type 0} (es : List T) → newest es ≡ latest 2000 es
newest-latest es = elim (Bool-cases (ltb 2000 (length es))) [
  | inl long ↦ rw long (drop-latest 2000 es)
  | inr short ↦
      let none_left : length es - 2000 ≡ 0 = ground (arith, short) in
      let same : drop (length es - 2000) es ≡ es = rw none_left refl in
      rw short (sym same ∙ drop-latest 2000 es)
]

module _ {T : Type 0} (codec : Codec T) where
  open codec use {marshal, unmarshal, marshal_text, unmarshal-marshal}

  -- The lines are the texts of the values, each short enough for the scanner.
  abbrev Written : List Bytes → List T → Type 0
  Written [] [] = Unit
  Written [] (v ∷ vs) = ⊥
  Written (l ∷ ls) [] = ⊥
  Written (l ∷ ls) (v ∷ vs) = (marshal v ≡ some l) × IsShort l × Written ls vs

  pub record Holds (file : File) (vs : List T) : Type 0 where
    pub lines : List Bytes
    pub file_lines : contents file ≡ encode lines
    pub written : Written lines vs

  Written-append :
      (ls : List Bytes) (vs : List T) (l : Bytes) (v : T)
      → Written ls vs
      → marshal v ≡ some l
      → IsShort l
      → Written (ls ++ l ∷ []) (vs ++ v ∷ [])
  Written-append [] [] l v w m s = (m, s, tt)
  Written-append [] (_ ∷ _) l v w m s = absurd w
  Written-append (_ ∷ _) [] l v w m s = absurd w
  Written-append (k ∷ ls) (u ∷ vs) l v (mk, sk, w) m s = (mk, sk, Written-append ls vs l v w m s)

  pub Written-IsLine : (ls : List Bytes) (vs : List T) → Written ls vs → All IsLine ls
  Written-IsLine [] vs w = tt
  Written-IsLine (l ∷ ls) [] w = absurd w
  Written-IsLine (l ∷ ls) (v ∷ vs) (m, s, w) = ((marshal_text v l m, s), Written-IsLine ls vs w)

  Written-unmarshal : (ls : List Bytes) (vs : List T) → Written ls vs → filter_map unmarshal ls ≡ vs
  Written-unmarshal [] [] w = refl
  Written-unmarshal [] (v ∷ vs) w = absurd w
  Written-unmarshal (l ∷ ls) [] w = absurd w
  Written-unmarshal (l ∷ ls) (v ∷ vs) (m, s, w) =
      ground (arith, unmarshal-marshal v l m, Written-unmarshal ls vs w)

  Written-length : (ls : List Bytes) (vs : List T) → Written ls vs → length ls ≡ length vs
  Written-length [] [] w = refl
  Written-length [] (v ∷ vs) w = absurd w
  Written-length (l ∷ ls) [] w = absurd w
  Written-length (l ∷ ls) (v ∷ vs) (m, s, w) = omega (arith, Written-length ls vs w)

  pub Holds-none : Holds none []
  Holds-none = record { lines = []; file_lines = refl; written = tt }

  pub Holds-empty : Holds (some []) []
  Holds-empty = record { lines = []; file_lines = refl; written = tt }

  pub append-healthy :
      (file : File) (v : T) (l : Bytes)
      → marshal v ≡ some l
      → append codec healthy file v ≡ (some (contents file ++ (l ++ newline ∷ [])), true)
  unfolding append
  append-healthy file v l m = ground arith

  -- With a healthy disk, appending a value whose text is below the scanner's limit succeeds and
  -- puts the value behind those in the log.
  pub append-Holds :
      (file : File) (vs : List T) (v : T) (l : Bytes)
      → Holds file vs
      → marshal v ≡ some l
      → IsShort l
      → ((append codec healthy file v).1 ≡ true)
        × Holds (append codec healthy file v).0 (vs ++ v ∷ [])
  append-Holds file vs v l h m s = rw (append-healthy file v l m) (
    refl,
    record {
      lines = h.lines ++ l ∷ [];
      file_lines = rw (h.file_lines, encode-append h.lines l) refl;
      written = Written-append h.lines vs l v h.written m s;
    },
  )

  drain_bytes-Holds :
      (b : Bytes) (vs : List T)
      → Holds (some b) vs
      → drain codec healthy (some b) ≡ (some [], entries (latest 2000 vs))
  unfolding drain
  drain_bytes-Holds b vs h =
      rw
        (
          h.file_lines,
          scan-encode h.lines (Written-IsLine h.lines vs h.written),
          Written-unmarshal h.lines vs h.written,
        )
        (ap (λ es. (some [], entries es)) (newest-latest vs))

  none_holds_nothing : (ls : List Bytes) (vs : List T) → [] ≡ encode ls → Written ls vs → vs ≡ []
  none_holds_nothing [] [] e w = refl
  none_holds_nothing [] (v ∷ vs) e w = absurd w
  none_holds_nothing (l ∷ ls) vs e w = absurd (encode-ne-nil l ls (sym e))

  -- With a healthy disk, draining returns the last 2000 of the values that were appended, or all of
  -- them where they are fewer, in the order in which they were appended, and leaves the log empty.
  pub drain-Holds :
      (file : File) (vs : List T)
      → Holds file vs
      → ((drain codec healthy file).1 ≡ entries (latest 2000 vs))
        × Holds (drain codec healthy file).0 []
  drain-Holds none vs h =
      rw (none_holds_nothing h.lines vs h.file_lines h.written) (unfold drain in (refl, Holds-none))
  drain-Holds (some b) vs h = rw (drain_bytes-Holds b vs h) (refl, Holds-empty)

  -- The size is the number of values in the log.
  pub size-Holds : (file : File) (vs : List T) → Holds file vs → size healthy file ≡ length vs
  unfolding size
  size-Holds none vs h = rw (none_holds_nothing h.lines vs h.file_lines h.written)
  size-Holds (some b) vs h =
      rw (h.file_lines, scan-encode h.lines (Written-IsLine h.lines vs h.written))
        (Written-length h.lines vs h.written)
