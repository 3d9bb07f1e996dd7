-- ===== src/LineSplitter/Lines.antt =====
-- The lines of a text, and that the splitter hands on just these, however the text is cut.
use epics_logfile.Base.{
  ℕ, zero, suc, ◌<◌, ◌≡◌, refl, sym, ap, ◌∙◌, inl, inr, false, List, [], ◌∷◌, ◌++◌, append-nil,
  append_assoc, some, Option-cases, Bool-cases, Bytes, is_empty, length, length-append, take, drop,
  find_byte, find_byte-some, find_byte-none, Lacks-append, Lacks, arith, ◌==◌, if◌then◌else◌,
}
use epics_logfile.LineSplitter.{forward, read_and_forward, flush, feed}

-- A byte in front of the first line.
abbrev in_front : ℕ → List Bytes × Bytes → List Bytes × Bytes
in_front c ([], last) = ([], c ∷ last)
in_front c (l ∷ ls, last) = ((c ∷ l) ∷ ls, last)

-- The finished lines of a text, without their line feeds, and what follows the last line feed.
unfoldable pub split_lines : Bytes → List Bytes × Bytes
split_lines [] = ([], [])
split_lines (c ∷ cs) =
    let rest = split_lines cs in if c == b'\n' then ([] ∷ rest.0, rest.1) else in_front c rest

split_lines-Lacks : (s : Bytes) → Lacks b'\n' s → split_lines s ≡ ([], s)
unfolding split_lines
split_lines-Lacks [] h = refl
split_lines-Lacks (c ∷ cs) h = ground (arith, split_lines-Lacks cs)

split_lines-line :
    (s t : Bytes)
    → Lacks b'\n' s
    → split_lines (s ++ b'\n' ∷ t) ≡ (s ∷ (split_lines t).0, (split_lines t).1)
unfolding split_lines
split_lines-line [] t h = refl
split_lines-line (c ∷ cs) t h = ground (arith, split_lines-line cs t)

-- The end of a round, where the unread part may be empty.
forward_rest :
    (fuel : ℕ) (out : List Bytes) (line t : Bytes)
    → forward fuel [] (out ++ line ∷ []) t
      ≡ some ((out ++ line ∷ []) ++ (split_lines t).0, (split_lines t).1)
    → (if is_empty t then some (out ++ line ∷ [], []) else forward fuel [] (out ++ line ∷ []) t)
      ≡ some (out ++ line ∷ (split_lines t).0, (split_lines t).1)
forward_rest fuel out line [] h = unfold split_lines in refl
forward_rest fuel out line (c ∷ t) h =
    h ∙ ap (λ o. some (o, (split_lines (c ∷ t)).1)) (append_assoc out (line ∷ []) _)

forward_lem :
    (fuel : ℕ) (active : Bytes) (out : List Bytes) (buf : Bytes)
    → length buf < fuel
    → Lacks b'\n' active
    → forward fuel active out buf
      ≡ some (out ++ (split_lines (active ++ buf)).0, (split_lines (active ++ buf)).1)
unfolding forward
forward_lem zero active out buf h l = elim h [ ]
forward_lem (suc fuel) active out buf h l = elim (Option-cases (find_byte b'\n' buf)) [
  | inl e ↦
      rw (e, forward)
        (rw
          (split_lines-Lacks (active ++ buf)
            (Lacks-append b'\n' active buf l (find_byte-none b'\n' buf e)))
          (ap (λ o. some (o, active ++ buf)) (sym (append-nil out))))
  | inr (lf, e) ↦
      let (eq, free) = find_byte-some b'\n' buf lf e in
      let cut : active ++ buf ≡ (active ++ take lf buf) ++ b'\n' ∷ drop (suc lf) buf =
        ap (λ x. active ++ x) eq ∙ sym (append_assoc active (take lf buf) _) in
      let whole = Lacks-append b'\n' active (take lf buf) l free in
      let shorter : length (drop (suc lf) buf) < fuel =
        omega (arith, ap length eq, length-append {0} (take lf buf) (b'\n' ∷ drop (suc lf) buf)) in
      let later =
        forward_lem fuel [] (out ++ (active ++ take lf buf) ∷ []) (drop (suc lf) buf) shorter
          refl in
      rw (e, forward)
        (forward_rest fuel out (active ++ take lf buf) (drop (suc lf) buf) later
          ∙ ap (λ p. some (out ++ p.0, p.1))
              (sym (ap split_lines cut ∙ split_lines-line _ _ whole)))
]

-- read_and_forward ends, hands on the finished lines of what it held and of the block, and holds
-- what follows the last line feed.
read_and_forward_lem :
    (active buf : Bytes)
    → Lacks b'\n' active
    → read_and_forward active buf ≡ some (split_lines (active ++ buf))
unfolding read_and_forward
read_and_forward_lem active buf l = forward_lem (suc (length buf)) active [] buf (omega arith) l

split_lines_last : (s : Bytes) → Lacks b'\n' (split_lines s).1
unfolding split_lines
split_lines_last [] = refl
split_lines_last (c ∷ cs) = ground (arith, split_lines_last cs)

-- The lines and the rest, joined by line feeds, are the text again.
unfoldable pub joined : List Bytes → Bytes → Bytes
joined [] last = last
joined (l ∷ ls) last = l ++ b'\n' ∷ joined ls last

joined-split_lines : (s : Bytes) → joined (split_lines s).0 (split_lines s).1 ≡ s
unfolding joined split_lines
joined-split_lines [] = refl
joined-split_lines (c ∷ cs) = ground (arith, joined-split_lines cs)

in_front_append :
    (c : ℕ) (t : Bytes)
    → (c == b'\n') ≡ false
    → (p : List Bytes × Bytes)
    → in_front c (p.0 ++ (split_lines (p.1 ++ t)).0, (split_lines (p.1 ++ t)).1) ≡ (
      (in_front c p).0 ++ (split_lines ((in_front c p).1 ++ t)).0,
      (split_lines ((in_front c p).1 ++ t)).1,
    )
unfolding split_lines
in_front_append c t miss ([], last) = rw miss
in_front_append c t miss (l ∷ ls, last) = refl

-- Lines read so far, and then the lines of the rest and of what comes.
split_lines-append :
    (s t : Bytes)
    → split_lines (s ++ t) ≡ (
      (split_lines s).0 ++ (split_lines ((split_lines s).1 ++ t)).0,
      (split_lines ((split_lines s).1 ++ t)).1,
    )
unfolding split_lines
split_lines-append [] t = refl
split_lines-append (c ∷ cs) t = elim (Bool-cases (c == b'\n')) [
  | inl hit ↦ rw hit (ap (λ p. ([] ∷ p.0, p.1)) (split_lines-append cs t))
  | inr miss ↦
      rw miss
        (ap (in_front c) (split_lines-append cs t) ∙ in_front_append c t miss (split_lines cs))
]

-- All lines of a text, the last one too unless it is empty.
unfoldable pub all_lines : Bytes → List Bytes
all_lines s = (split_lines s).0 ++ flush (split_lines s).1

abbrev pub concat : List Bytes → Bytes
concat [] = []
concat (b ∷ bs) = b ++ concat bs

-- However a text is cut into blocks, over its life a splitter hands on the lines of the whole text,
-- in order; a last line without line feed is handed on at the end.
pub feed_lines :
    (active : Bytes) (bufs : List Bytes)
    → Lacks b'\n' active
    → feed active bufs ≡ some (all_lines (active ++ concat bufs))
unfolding feed all_lines
feed_lines active [] l = rw (append-nil active, split_lines-Lacks active l)
feed_lines active (buf ∷ bufs) l =
    let here = read_and_forward_lem active buf l in
    let (ls, last) = split_lines (active ++ buf) in
    let later = feed_lines last bufs (split_lines_last (active ++ buf)) in
    let whole = split_lines-append (active ++ buf) (concat bufs) in
    rw (here, feed)
      (rw later (
        ap some (
          sym (
            ap (λ p. p.0 ++ flush p.1)
              (ap split_lines (sym (append_assoc active buf (concat bufs))) ∙ whole)
            ∙ append_assoc ls _ _))))
