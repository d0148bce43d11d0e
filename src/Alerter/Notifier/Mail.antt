-- ===== src/Alerter/Notifier/Mail.antt =====
-- What a mail server reads of an alert: the header lines up to the first empty line, and the text.
-- The writer of net/smtp sends a line feed without a carriage return as both, in `wire`; it doubles
-- a dot at the start of a line, which the server undoes.
use Prim.Native.Char.{code}
use bangmod_monitor.Prelude.{
  ℕ, zero, suc, ◌<◌, String, Bool, true, false, not, ◌&&◌, ◌≡◌, refl, sym, ap, ◌∙◌, Option, none,
  some, List, [], ◌∷◌, ◌++◌, length, All, append_assoc, arith, ◌==◌, if◌then◌else◌,
}
use bangmod_monitor.Prelude.Text.{concat, concat_assoc, join, is_empty}
use bangmod_monitor.Alerter.Notifier.{EmailConfig}
use bangmod_monitor.Alerter.Notifier.Texts.{crlf, mail}

-- no carriage return, and no line feed
abbrev no_cr : String → Bool
no_cr String.[] = true
no_cr (String.◌∷◌ c s) = not (code c == 13) && not (code c == 10) && no_cr s

-- a line of a header: not empty, and with no carriage return or line feed
abbrev IsHeader : String → Type 0
IsHeader l = (is_empty l ≡ false) × (no_cr l ≡ true)

-- The text as it is sent, after a carriage return or not
abbrev wire_from : Bool → String → String
wire_from after_cr String.[] = String.[]
wire_from after_cr (String.◌∷◌ c s) =
    let bare = concat "\r" (String.◌∷◌ c (wire_from false s)) in
    let plain = String.◌∷◌ c (wire_from (code c == 13) s) in
    if (code c == 10) && not after_cr then bare else plain

abbrev pub wire : String → String
wire = wire_from false

wire-concat : (l t : String) → no_cr l ≡ true → wire (concat l t) ≡ concat l (wire t)
wire-concat String.[] t h = refl
wire-concat (String.◌∷◌ c l) t h = ground (arith, wire-concat l t)

wire-join :
    (hs : List String) (text : String)
    → All IsHeader hs
    → wire (join crlf (hs ++ "" ∷ text ∷ [])) ≡ join crlf (hs ++ "" ∷ wire text ∷ [])
wire-join [] text h = refl
wire-join (l ∷ []) text ((e, n), h) = wire-concat l (concat crlf (join crlf ("" ∷ text ∷ []))) n
wire-join (l ∷ k ∷ hs) text ((e, n), h) =
    wire-concat l (concat crlf (join crlf (k ∷ hs ++ "" ∷ text ∷ []))) n
    ∙ ap (λ s. concat l (concat crlf s)) (wire-join (k ∷ hs) text h)

abbrev cons_line : String → Option (List String × String) → Option (List String × String)
cons_line l none = none
cons_line l (some (ls, rest)) = some (l ∷ ls, rest)

abbrev put_back : String → Option (String × String) → Option (String × String)
put_back c none = none
put_back c (some (l, rest)) = some (concat c l, rest)

-- The first line of a text, and what follows its end
cut_line : String → Option (String × String)
cut_line String.[] = none
cut_line (String.◌∷◌ c String.[]) = none
cut_line (String.◌∷◌ c (String.◌∷◌ d s)) =
    let more = put_back (String.◌∷◌ c String.[]) (cut_line (String.◌∷◌ d s)) in
    if (code c == 13) && (code d == 10) then some ("", s) else more

-- The header lines and the text, read with fuel for each line
pub read_mail : ℕ → String → Option (List String × String)
unfolding cut_line
read_mail zero s = none
read_mail (suc f) s = elim (cut_line s) [
  | none ↦ none
  | some (l, rest) ↦ if is_empty l then some ([], rest) else cons_line l (read_mail f rest)
]

cut_line-concat :
    (l t : String) → no_cr l ≡ true → cut_line (concat l (concat crlf t)) ≡ some (l, t)
unfolding cut_line
cut_line-concat String.[] t h = refl
cut_line-concat (String.◌∷◌ c String.[]) t h = ground arith
cut_line-concat (String.◌∷◌ c (String.◌∷◌ d l)) t h =
    ground (arith, cut_line-concat (String.◌∷◌ d l) t)

read_mail-join :
    (hs : List String) (text : String) (f : ℕ)
    → All IsHeader hs
    → length hs < f
    → read_mail f (join crlf (hs ++ "" ∷ text ∷ [])) ≡ some (hs, text)
unfolding read_mail
read_mail-join hs text zero h lt = absurd (omega arith)
read_mail-join [] text (suc f) h lt = refl
read_mail-join (l ∷ []) text (suc f) ((e, n), h) lt =
    rw (cut_line-concat l (join crlf ("" ∷ text ∷ [])) n, read_mail, e)
      (rw (read_mail-join [] text f tt (omega arith)) refl)
read_mail-join (l ∷ k ∷ hs) text (suc f) ((e, n), h) lt =
    rw (cut_line-concat l (join crlf (k ∷ hs ++ "" ∷ text ∷ [])) n, read_mail, e)
      (rw (read_mail-join (k ∷ hs) text f h (omega arith)) refl)

join-prefix :
    (p l : String) (ls : List String) → concat p (join crlf (l ∷ ls)) ≡ join crlf (concat p l ∷ ls)
join-prefix p l [] = refl
join-prefix p l (k ∷ ls) = sym (concat_assoc p l (concat crlf (join crlf (k ∷ ls))))

-- Joined lines among others are lines among them.
join-join :
    (y : String) (ys : List String) (z : String) (zs : List String)
    → join crlf (join crlf (y ∷ ys) ∷ z ∷ zs) ≡ join crlf (y ∷ (ys ++ z ∷ zs))
join-join y [] z zs = refl
join-join y (k ∷ ys) z zs =
    concat_assoc y (concat crlf (join crlf (k ∷ ys))) (concat crlf (join crlf (z ∷ zs)))
    ∙ ap (λ s. concat y (concat crlf s)) (join-join k ys z zs)

no_cr-concat : (s t : String) → no_cr s ≡ true → no_cr t ≡ true → no_cr (concat s t) ≡ true
no_cr-concat String.[] t h k = k
no_cr-concat (String.◌∷◌ c s) t h k = ground (arith, no_cr-concat s t)

-- The header lines of an alert, whose subject has the lines `l` and `ls`
abbrev pub headers : EmailConfig → String → String → List String → List String
headers c date l ls =
    concat "From: " c.from
    ∷ concat "To: " c.to
    ∷ concat "Subject: [BangmodMonitor] " l
    ∷ (ls
        ++ concat "Date: " date
          ∷ "MIME-Version: 1.0"
          ∷ "Content-Type: text/plain; charset=utf-8"
          ∷ [])

All-append : (ls ks : List String) → All IsHeader ls → All IsHeader ks → All IsHeader (ls ++ ks)
All-append [] ks h k = k
All-append (l ∷ ls) ks (p, h) k = (p, All-append ls ks h k)

-- A server reads the six headers of an alert, and its text with each bare line feed as the end of a
-- line, whatever the text holds, if the addresses and the date are single lines and the subject is
-- one; and where the subject, which has the name of the rule, holds further lines behind a carriage
-- return with a line feed, none of them empty, each of them is read as a header of its own. A single
-- line has neither character. Fuel above the number of the headers is enough.
pub read_mail-mail :
    (c : EmailConfig) (date l text : String) (ls : List String) (f : ℕ)
    → no_cr c.from ≡ true
    → no_cr c.to ≡ true
    → no_cr date ≡ true
    → no_cr l ≡ true
    → All IsHeader ls
    → length (headers c date l ls) < f
    → read_mail f (wire (mail c date (join crlf (l ∷ ls)) text))
      ≡ some (headers c date l ls, wire text)
unfolding mail
read_mail-mail c date l text ls f from to dated one more fuel =
    ap (λ s. read_mail f (wire s)) as_lines
    ∙ ap (read_mail f) (wire-join (headers c date l ls) text are_headers)
    ∙ read_mail-join (headers c date l ls) (wire text) f are_headers fuel
  where
    subject : String
    subject = concat "Subject: [BangmodMonitor] " l

    last : List String
    last =
        concat "Date: " date ∷ "MIME-Version: 1.0" ∷ "Content-Type: text/plain; charset=utf-8" ∷ []

    as_lines :
        mail c date (join crlf (l ∷ ls)) text ≡ join crlf (headers c date l ls ++ "" ∷ text ∷ [])
    as_lines =
        ap
          (λ s.
            concat "From: "
              (concat c.from (concat crlf (concat "To: " (concat c.to (concat crlf s))))))
          (ap (λ s. join crlf (s ∷ (last ++ "" ∷ text ∷ [])))
              (join-prefix "Subject: [BangmodMonitor] " l ls)
            ∙ join-join subject ls (concat "Date: " date)
                ("MIME-Version: 1.0" ∷ "Content-Type: text/plain; charset=utf-8" ∷ "" ∷ text ∷ [])
            ∙ ap (λ ks. join crlf (subject ∷ ks)) (sym (append_assoc ls last ("" ∷ text ∷ []))))

    are_headers : All IsHeader (headers c date l ls)
    are_headers = (
      (refl, no_cr-concat "From: " c.from refl from),
      (
        (refl, no_cr-concat "To: " c.to refl to),
        (
          (refl, no_cr-concat "Subject: [BangmodMonitor] " l refl one),
          All-append ls last more
              ((refl, no_cr-concat "Date: " date refl dated), ((refl, refl), ((refl, refl), tt))),
        ),
      ),
    )
