-- ===== src/Stomp/Escape.antt =====
-- sanitize_string is an escape of single bytes, in whatever order the map stands.
use mathlib.Core.List.{Permᴰ}
use epics_logfile.Base.{
  ℕ, zero, suc, ◌+◌, ◌<◌, ◌≡◌, refl, sym, ap, ◌∙◌, inl, inr, true, false, List, [], ◌∷◌, ◌++◌,
  append_assoc, some, Option-cases, Bool-cases, Bytes, codes, length, length-append, take, drop,
  take-append, drop-append, find_byte, find_byte-length, find_text_from-none, find_text_from-some,
  find_byte-some, find_byte-none, Lacks, arith, ◌==◌, ==_iff, subst, if◌then◌else◌,
}
use epics_logfile.Stomp.Sanitize.{
  replace_from, replace_all, Entity, quot, apos, lt, gt, replacements, pattern_byte, entity_text,
  replace_each, sanitize_string,
}

-- Every occurrence of a byte, replaced by a text.
unfoldable pub substitute : ℕ → Bytes → Bytes → Bytes
substitute c new [] = []
substitute c new (x ∷ xs) = (if x == c then new else x ∷ []) ++ substitute c new xs

substitute-append :
    (c : ℕ) (new s t : Bytes) → substitute c new (s ++ t) ≡ substitute c new s ++ substitute c new t
unfolding substitute
substitute-append c new [] t = refl
substitute-append c new (x ∷ xs) t =
    rw (substitute-append c new xs t) (sym (append_assoc (if x == c then new else x ∷ []) _ _))

substitute-Lacks : (c : ℕ) (new s : Bytes) → Lacks c s → substitute c new s ≡ s
unfolding substitute
substitute-Lacks c new [] h = refl
substitute-Lacks c new (x ∷ xs) h = ground (arith, substitute-Lacks c new xs)

substitute_hit :
    (c : ℕ) (new s t : Bytes)
    → Lacks c s
    → substitute c new (s ++ c ∷ t) ≡ s ++ (new ++ substitute c new t)
unfolding substitute
substitute_hit c new [] t h = ground arith
substitute_hit c new (x ∷ xs) t h = ground (arith, substitute_hit c new xs t)

-- A round finds the next occurrence, and goes on behind what it put there.
replace_from_lem :
    (fuel c : ℕ) (new done rest : Bytes) (pos : ℕ)
    → length rest < fuel
    → pos ≡ length done
    → replace_from fuel (c ∷ []) new (done ++ rest) pos ≡ some (done ++ substitute c new rest)
unfolding replace_from
replace_from_lem zero c new done rest pos h e = elim h [ ]
replace_from_lem (suc fuel) c new done rest pos h e = elim (Option-cases (find_byte c rest)) [
  | inl free ↦
      rw (find_text_from-none c done rest pos e free, replace_from)
        (ap (λ x. some (done ++ x))
          (sym (substitute-Lacks c new rest (find_byte-none c rest free))))
  | inr (i, hit) ↦
      let s = take i rest in
      let t = drop (suc i) rest in
      let (eq, lacks) = find_byte-some c rest i hit in
      let len = find_byte-length c rest i hit in
      let whole : done ++ rest ≡ (done ++ s) ++ c ∷ t =
        ap (λ x. done ++ x) eq ∙ sym (append_assoc done s _) in
      let whole' : done ++ rest ≡ (done ++ s ++ c ∷ []) ++ t =
        whole ∙ sym (append_assoc (done ++ s) (c ∷ []) t) in
      let at : pos + i ≡ length (done ++ s) = omega (arith, length-append {0} done s) in
      let at' : pos + i + 1 ≡ length (done ++ s ++ c ∷ []) =
        omega (arith, length-append {0} (done ++ s) (c ∷ [])) in
      let before : take (pos + i) (done ++ rest) ≡ done ++ s =
        rw (at, whole) (take-append (done ++ s) (c ∷ t)) in
      let behind : drop (pos + i + 1) (done ++ rest) ≡ t =
        rw (at', whole') (drop-append (done ++ s ++ c ∷ []) t) in
      let shorter : length t < fuel = omega (arith, ap length eq, length-append {0} s (c ∷ t)) in
      let later =
        replace_from_lem fuel c new (done ++ s ++ new) t (pos + i + length new) shorter
          (omega (arith, length-append {0} (done ++ s) new)) in
      rw (find_text_from-some c done rest pos i e hit, replace_from)
        (rw (before, behind, ← append_assoc (done ++ s) new t, later)
          (ap some (
            append_assoc (done ++ s) new _
            ∙ append_assoc done s _
            ∙ sym
                (ap (λ x. done ++ x) (ap (substitute c new) eq ∙ substitute_hit c new s t lacks)))))
]

-- replace_all ends, and replaces every occurrence of a one-byte pattern; what it has put there is
-- not searched again.
replace_all-substitute :
    (c : ℕ) (new s : Bytes) → replace_all s (c ∷ []) new ≡ some (substitute c new s)
unfolding replace_all
replace_all-substitute c new s = replace_from_lem (suc (length s)) c new [] s 0 (omega arith) refl

-- The passes for two bytes commute, if neither pass brings in the other's byte.
substitute_comm :
    (c d : ℕ) (new text s : Bytes)
    → (c == d) ≡ false
    → Lacks c text
    → Lacks d new
    → substitute c new (substitute d text s) ≡ substitute d text (substitute c new s)
unfolding substitute
substitute_comm c d new text [] ne lc ld = refl
substitute_comm c d new text (x ∷ s) ne lc ld = elim (Bool-cases (x == d)) [
  | inl at_d ↦
      let not_c : (x == c) ≡ false = ground arith in
      rw (at_d, not_c)
        (rw
          (at_d, substitute-append c new text (substitute d text s), substitute-Lacks c new text lc)
          (ap (λ u. text ++ u) (substitute_comm c d new text s ne lc ld)))
  | inr not_d ↦ elim (Bool-cases (x == c)) [
    | inl at_c ↦
        rw (not_d, at_c)
          (rw (substitute-append d text new (substitute c new s), substitute-Lacks d text new ld)
            (ap (λ u. new ++ u) (substitute_comm c d new text s ne lc ld)))
    | inr not_c ↦
        let kept : substitute d text (x ∷ substitute c new s)
            ≡ x ∷ substitute d text (substitute c new s) =
          rw not_d refl in
        rw (not_d, not_c) (rw not_d (ap (λ u. x ∷ u) (substitute_comm c d new text s ne lc ld)))
  ]
]

substitute_each : List Entity → Bytes → Bytes
unfolding substitute pattern_byte entity_text
substitute_each [] s = s
substitute_each (e ∷ order) s =
    substitute_each order (substitute (pattern_byte e) (entity_text e) s)

replace_each-substitute_each :
    (order : List Entity) (s : Bytes) → replace_each order s ≡ some (substitute_each order s)
unfolding replace_each substitute_each
replace_each-substitute_each [] s = refl
replace_each-substitute_each (e ∷ order) s =
    rw (replace_all-substitute (pattern_byte e) (entity_text e) s, replace_each)
      (replace_each-substitute_each order _)

-- The bytes that have an entity do not occur in any entity's text.
entities_comm :
    (a b : Entity) (s : Bytes)
    → substitute (pattern_byte a) (entity_text a) (substitute (pattern_byte b) (entity_text b) s)
      ≡ substitute (pattern_byte b) (entity_text b) (substitute (pattern_byte a) (entity_text a) s)
unfolding pattern_byte entity_text
entities_comm quot quot s = refl
entities_comm apos apos s = refl
entities_comm lt lt s = refl
entities_comm gt gt s = refl
entities_comm a b s =
    substitute_comm (pattern_byte a) (pattern_byte b) (entity_text a) (entity_text b) s refl refl
      refl

substitute_each-perm :
    {order order' : List Entity}
    → Permᴰ order order'
    → (s : Bytes) → substitute_each order s ≡ substitute_each order' s
unfolding substitute_each
substitute_each-perm Permᴰ.nil s = refl
substitute_each-perm (Permᴰ.cons {b} {l₂} e p) s = rw e (substitute_each-perm p _)
substitute_each-perm (Permᴰ.swap {a} {b} {a'} {b'} {l} e f) s =
    rw (e, f) (ap (substitute_each l) (entities_comm a' b' s))
substitute_each-perm (Permᴰ.trans p q) s = substitute_each-perm p s ∙ substitute_each-perm q s

-- What the server reads back as the text: one escape for each byte.
unfoldable pub escape_byte : ℕ → Bytes
escape_byte x =
    if x == b'&'
    then codes "&amp;"
    else if x == b'"'
    then codes "&quot;"
    else if x == b'\''
    then codes "&apos;"
    else if x == b'<'
    then codes "&lt;"
    else if x == b'>'
    then codes "&gt;"
    else if x == 0
    then codes "\\0"
    else x ∷ []

unfoldable pub escape : Bytes → Bytes
unfolding escape_byte
escape [] = []
escape (x ∷ xs) = escape_byte x ++ escape xs

-- The passes in the order in which the map's entries are written down.
all_passes : Bytes → Bytes
unfolding substitute_each
all_passes s =
    substitute 0 (codes "\\0") (substitute_each replacements (substitute b'&' (codes "&amp;") s))

all_passes-append : (s t : Bytes) → all_passes (s ++ t) ≡ all_passes s ++ all_passes t
unfolding all_passes substitute_each pattern_byte entity_text
all_passes-append s t =
    let p = substitute b'&' (codes "&amp;") in
    let q = substitute b'"' (codes "&quot;") in
    let r = substitute b'\'' (codes "&apos;") in
    let u = substitute b'<' (codes "&lt;") in
    let v = substitute b'>' (codes "&gt;") in
    let w = substitute 0 (codes "\\0") in
    ap (λ x. w (v (u (r (q x))))) (substitute-append b'&' (codes "&amp;") s t)
    ∙ ap (λ x. w (v (u (r x)))) (substitute-append b'"' (codes "&quot;") (p s) (p t))
    ∙ ap (λ x. w (v (u x))) (substitute-append b'\'' (codes "&apos;") (q (p s)) (q (p t)))
    ∙ ap (λ x. w (v x)) (substitute-append b'<' (codes "&lt;") (r (q (p s))) (r (q (p t))))
    ∙ ap w (substitute-append b'>' (codes "&gt;") (u (r (q (p s)))) (u (r (q (p t)))))
    ∙ substitute-append 0 (codes "\\0") (v (u (r (q (p s))))) (v (u (r (q (p t)))))

passes_byte_is :
    (x c : ℕ)
    → (x == c) ≡ true
    → all_passes (c ∷ []) ≡ escape_byte c
    → all_passes (x ∷ []) ≡ escape_byte x
passes_byte_is x c e h = subst (λ y. all_passes (y ∷ []) ≡ escape_byte y) (sym ((==_iff x c).0 e)) h

all_passes_byte : (x : ℕ) → all_passes (x ∷ []) ≡ escape_byte x
unfolding all_passes substitute_each pattern_byte entity_text substitute escape_byte
all_passes_byte x = elim (Bool-cases (x == b'&')) [
  | inl e ↦ passes_byte_is x b'&' e refl
  | inr n₁ ↦ elim (Bool-cases (x == b'"')) [
    | inl e ↦ passes_byte_is x b'"' e refl
    | inr n₂ ↦ elim (Bool-cases (x == b'\'')) [
      | inl e ↦ passes_byte_is x b'\'' e refl
      | inr n₃ ↦ elim (Bool-cases (x == b'<')) [
        | inl e ↦ passes_byte_is x b'<' e refl
        | inr n₄ ↦ elim (Bool-cases (x == b'>')) [
          | inl e ↦ passes_byte_is x b'>' e refl
          | inr n₅ ↦ elim (Bool-cases (x == 0)) [
            | inl e ↦ passes_byte_is x 0 e refl
            | inr n₆ ↦ rw (n₁, n₂, n₃, n₄, n₅, n₆) refl
          ]
        ]
      ]
    ]
  ]
]

all_passes-escape : (s : Bytes) → all_passes s ≡ escape s
unfolding escape all_passes substitute_each substitute
all_passes-escape [] = refl
all_passes-escape (x ∷ s) =
    rw (← all_passes_byte x, ← all_passes-escape s) (all_passes-append (x ∷ []) s)

-- sanitize_string ends, and the order in which the map holds its entries does not matter: it
-- escapes each of the bytes & " ' < > and 0 once, and leaves all others.
pub sanitize_string-escape :
    (order : List Entity) (s : Bytes)
    → Permᴰ order replacements
    → sanitize_string order s ≡ some (escape s)
unfolding sanitize_string all_passes
sanitize_string-escape order s p =
    let first = replace_all-substitute b'&' (codes "&amp;") s in
    let then_all = replace_each-substitute_each order (substitute b'&' (codes "&amp;") s) in
    let last =
      replace_all-substitute 0 (codes "\\0")
        (substitute_each order (substitute b'&' (codes "&amp;") s)) in
    rw (first, sanitize_string)
      (rw (then_all) (
        rw (last) (
          rw (substitute_each-perm p (substitute b'&' (codes "&amp;") s))
            (ap some (all_passes-escape s)))))
