-- ===== src/Tiny/Comments/Clean.antt =====
-- What `strip_comments` leaves, and what it takes out.
use all.Prelude.{
  ℕ, zero, suc, ◌+◌, ap, ◌∙◌, ◌≤◌, ◌<◌, ◌≡◌, ◌≢◌, refl, sym, Bool, true, false, ◌&&◌, List, [], ◌∷◌,
  ◌++◌, arith, length, ◌==◌, Bool-cases, inl, inr, length-drop, length-append,
}
use all.Prelude.Result.{Result, ok, failed, ◌>>=◌, >>=-eq-ok, ok-injective}
use all.Prelude.Chars.{starts_with, codes}
use all.Tiny.Comments.{skip_until, skip_comment, opens, target_of, strip, strip_comments}

&&-right : (a b : Bool) → a && b ≡ true → b ≡ true
&&-right true b h = h
&&-right false b h = cc

length-skip_until : (t file : List ℕ) → length (skip_until t file) ≤ length file
unfolding skip_until
length-skip_until t [] = omega arith
length-skip_until t (c ∷ file) = ground (arith, length-skip_until t file)

-- The scan stops at the target or at the end.
skip_until_stops :
    (t file : List ℕ) → starts_with t (skip_until t file) ≡ false → skip_until t file ≡ []
unfolding skip_until
skip_until_stops t [] h = refl
skip_until_stops t (c ∷ file) h = ground (arith, skip_until_stops t file)

length-skip_comment :
    (t : ℕ) (ts : List ℕ) (c : ℕ) (file : List ℕ)
    → length (skip_comment (t ∷ ts) (c ∷ file)) ≤ length file
unfolding skip_comment
length-skip_comment t ts c file =
    elim (Bool-cases (starts_with (t ∷ ts) (skip_until (t ∷ ts) (c ∷ file)))) [
      | inl e ↦ rw e (
          omega (
            arith,
            length-drop {0} (suc (length ts)) (skip_until (t ∷ ts) (c ∷ file)),
            length-skip_until (t ∷ ts) (c ∷ file),
          ))
      | inr e ↦ rw (e, skip_until_stops (t ∷ ts) (c ∷ file) e) (omega arith)
    ]

length-skip_target :
    (c : ℕ) (file : List ℕ)
    → opens file ≡ true
    → length (skip_comment (target_of file) (c ∷ file)) ≤ length file
length-skip_target c [] h = cc
length-skip_target c (d ∷ file) h = elim (Bool-cases (d == b'/')) [
  | inl e ↦ rw e (length-skip_comment 10 [] c (d ∷ file))
  | inr e ↦ rw e (length-skip_comment b'*' (b'/' ∷ []) c (d ∷ file))
]

-- The outcome does not depend on the fuel, once that exceeds the length of the text.
strip_fuel :
    (f g : ℕ) (file : List ℕ) → length file < f → length file < g → strip f file ≡ strip g file
unfolding strip
strip_fuel zero g file h k = absurd (omega arith)
strip_fuel (suc f) zero file h k = absurd (omega arith)
strip_fuel (suc f) (suc g) [] h k = refl
strip_fuel (suc f) (suc g) (c ∷ file) h k = elim (Bool-cases (c == b'/' && opens file)) [
  | inl e ↦ rw e (
      strip_fuel f g (skip_comment (target_of file) (c ∷ file))
        (omega (arith, length-skip_target c file (&&-right (c == b'/') (opens file) e)))
        (omega (arith, length-skip_target c file (&&-right (c == b'/') (opens file) e))))
  | inr e ↦ rw (e, strip_fuel f g file (omega arith) (omega arith))
]

-- No comment begins in the text.
abbrev pub IsClean : List ℕ → Type 0
IsClean [] = Unit
IsClean (c ∷ file) = ((c == b'/') && opens file ≡ false) × IsClean file

-- A character that is kept keeps its place before the next one that is kept.
opens-strip :
    (f : ℕ) (file out : List ℕ) → opens file ≡ false → strip f file ≡ ok out → opens out ≡ false
unfolding strip
opens-strip zero file out h e = cc
opens-strip (suc f) [] out h e = ground arith
opens-strip (suc f) (c ∷ file) out h e = ground arith

still-closed :
    (c : ℕ) (file o : List ℕ)
    → ((c == b'/') && opens file ≡ false)
    → (opens file ≡ false → opens o ≡ false)
    → ((c == b'/') && opens o ≡ false)
still-closed c file o h k = elim (Bool-cases (c == b'/')) [
  | inl p ↦ rw p (k (rw p at h))
  | inr p ↦ rw p
]

strip-IsClean : (f : ℕ) (file out : List ℕ) → strip f file ≡ ok out → IsClean out
unfolding strip
strip-IsClean zero file out e = cc
strip-IsClean (suc f) [] out e = ground arith
strip-IsClean (suc f) (c ∷ file) out e = elim (Bool-cases (c == b'/' && opens file)) [
  | inl p ↦ strip-IsClean f (skip_comment (target_of file) (c ∷ file)) out (rw p at e)
  | inr p ↦
      let (o, q, r) = >>=-eq-ok (strip f file) (λ o. ok (c ∷ o)) (rw p at e) in
      rw (sym (ok-injective r))
        (still-closed c file o p (λ h. opens-strip f file o h q), strip-IsClean f file o q)
]

strip_total : (f : ℕ) (file : List ℕ) → length file < f → (out : List ℕ) × (strip f file ≡ ok out)
unfolding strip
strip_total zero file h = absurd (omega arith)
strip_total (suc f) [] h = ([], refl)
strip_total (suc f) (c ∷ file) h = elim (Bool-cases (c == b'/' && opens file)) [
  | inl e ↦ rw e (
      strip_total f (skip_comment (target_of file) (c ∷ file))
        (omega (arith, length-skip_target c file (&&-right (c == b'/') (opens file) e))))
  | inr e ↦ let (out, p) = strip_total f file (omega arith) in (c ∷ out, rw (e, p))
]

strip_clean : (f : ℕ) (file : List ℕ) → length file < f → IsClean file → strip f file ≡ ok file
unfolding strip
strip_clean zero file h k = absurd (omega arith)
strip_clean (suc f) [] h k = refl
strip_clean (suc f) (c ∷ file) h k = rw (k.0, strip_clean f file (omega arith) k.1)

-- For every text `strip_comments` gives a result, within its fuel. No comment begins in the result,
-- and stripping it again changes nothing.
pub strip_comments-IsClean :
    (file : List ℕ)
    → (out : List ℕ) × (strip_comments file ≡ ok out) × IsClean out × (strip_comments out ≡ ok out)
unfolding strip_comments
strip_comments-IsClean file =
    let (out, p) = strip_total (suc (length file)) file (omega arith) in
    let clean = strip-IsClean (suc (length file)) file out p in
    (out, p, clean, strip_clean (suc (length out)) out (omega arith) clean)

abbrev pub AllNe : ℕ → List ℕ → Type 0
AllNe c [] = Unit
AllNe c (d ∷ file) = (d ≢ c) × AllNe c file

skip_line :
    (body rest : List ℕ) → AllNe 10 body → skip_comment (codes "\n") (body ++ 10 ∷ rest) ≡ rest
unfolding skip_comment
skip_line [] rest h = refl
skip_line (c ∷ body) rest h = ground (arith, skip_line body rest)

bind_ok : {A : Type 0} (r : Result A) → (r >>= λ out. ok out) ≡ r
bind_ok (ok out) = refl
bind_ok (failed fault) = refl

bind_cons :
    (c : ℕ) (before : List ℕ) (r : Result (List ℕ))
    → ((r >>= λ out. ok (before ++ out)) >>= λ out. ok (c ∷ out))
      ≡ (r >>= λ out. ok (c ∷ before ++ out))
bind_cons c before (ok out) = refl
bind_cons c before (failed fault) = refl

ne-test : (c d : ℕ) → c ≢ d → (c == d) ≡ false
ne-test c d h = ground arith

-- The text before the first slash is kept as it is.
strip-prefix :
    (before file : List ℕ) (f g : ℕ)
    → AllNe b'/' before
    → length before + length file < f
    → length file < g
    → strip f (before ++ file) ≡ (strip g file >>= λ out. ok (before ++ out))
unfolding strip
strip-prefix before file zero g h k l = absurd (omega arith)
strip-prefix [] file (suc f) g h k l =
    strip_fuel (suc f) g file (omega arith) l ∙ sym (bind_ok (strip g file))
strip-prefix (c ∷ before) file (suc f) g (d, h) k l =
    rw (ne-test c b'/' d, strip-prefix before file f g h (omega arith) l)
      (bind_cons c before (strip g file))

line_comment :
    (body rest : List ℕ)
    → AllNe 10 body
    → strip_comments (codes "//" ++ (body ++ 10 ∷ rest)) ≡ strip_comments rest
unfolding strip_comments
line_comment body rest h =
    rw (skip_line (b'/' ∷ b'/' ∷ body) rest (omega arith, (omega arith, h))) (
      strip_fuel (suc (suc (length (body ++ 10 ∷ rest)))) (suc (length rest)) rest
        (omega (arith, length-append body (10 ∷ rest))) (omega arith))

-- A line comment behind a text without slashes is taken out with the newline that ends it: what is
-- kept of the text that follows is joined to what stood before the comment.
pub strip_comments-line :
    (before body rest : List ℕ)
    → AllNe b'/' before
    → AllNe 10 body
    → strip_comments (before ++ (codes "//" ++ (body ++ 10 ∷ rest)))
      ≡ (strip_comments rest >>= λ out. ok (before ++ out))
unfolding strip_comments
strip_comments-line before body rest h k =
    let comment = codes "//" ++ (body ++ 10 ∷ rest) in
    strip-prefix before comment (suc (length (before ++ comment))) (suc (length comment)) h
      (omega (arith, length-append before comment)) (omega arith)
    ∙ ap (λ r. r >>= λ out. ok (before ++ out)) (line_comment body rest k)

-- The scan for the end of a block comment begins at its own opener, so the three characters
-- slash, star, slash are taken out as a complete comment, whatever follows them.
pub strip_comments-short_block :
    (rest : List ℕ) → strip_comments (codes "/*/" ++ rest) ≡ strip_comments rest
unfolding strip_comments
strip_comments-short_block rest =
    strip_fuel (suc (suc (suc (length rest)))) (suc (length rest)) rest (omega arith) (omega arith)
