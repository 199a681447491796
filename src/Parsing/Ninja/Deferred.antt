-- ===== src/Parsing/Ninja/Deferred.antt =====
-- A variable of a rule is kept in pieces and expanded at each build; a text elsewhere is expanded
-- where it is read.
use all.Prelude.{
  ℕ, zero, suc, ◌≡◌, refl, sym, ap, ◌∙◌, inl, inr, ◌&&◌, List, [], ◌∷◌, ◌++◌, append_assoc, ◌==◌,
  length, Bool-cases, arith,
}
use all.Prelude.Result.{Result, ok, ok-first, ok-second, failed-ne-ok}
use all.Prelude.Names.{elem, same_name, lookup}
use all.Parsing.Text.{demand, demand-eq-ok, consume_c, continue-eq-ok}
use all.Parsing.Ninja.State.{Name, Variable, Piece, text, identifier, RuleVariable}
use all.Parsing.Ninja.Expand.{
  skip_spaces, with_fuel, consume_spaces, parse_identifier, parse_expanded_text, parse_variable,
  parse_rule_variable, settable_rule_variables, variable_value, read_piece, piece_value, flush,
  text_loop, value_piece, value_loop,
}
use all.Parsing.Ninja.Build.{expand_name, expand_pieces}

-- The variables of a declaration in front of those of the file.
abbrev pub overlay : List (Name × List ℕ) → List (Name × Variable) → List (Name × Variable)
overlay [] variables = variables
overlay ((x, value) ∷ locals) variables =
    (x, record { name = x; value = value }) ∷ overlay locals variables

overlay-lookup :
    (locals : List (Name × List ℕ)) (variables : List (Name × Variable)) (id : Name)
    → variable_value id (overlay locals variables) ≡ expand_name locals variables id
unfolding variable_value expand_name lookup
overlay-lookup [] variables id = refl
overlay-lookup ((x, value) ∷ locals) variables id = elim (Bool-cases (same_name x id)) [
  | inl e ↦ rw e
  | inr e ↦ rw e (overlay-lookup locals variables id)
]

expand-flush :
    (last : List ℕ) (pieces : List Piece) (locals : List (Name × List ℕ))
    (variables : List (Name × Variable))
    → expand_pieces locals variables (flush last ++ pieces)
      ≡ last ++ expand_pieces locals variables pieces
unfolding expand_pieces
expand-flush [] pieces locals variables = refl
expand-flush (c ∷ last) pieces locals variables = refl

flush_value :
    (last : List ℕ) (locals : List (Name × List ℕ)) (variables : List (Name × Variable))
    → expand_pieces locals variables (flush last) ≡ last ++ []
unfolding expand_pieces
flush_value [] locals variables = refl
flush_value (c ∷ last) locals variables = refl

newline-eq : (c : ℕ) (file rest : List ℕ) → c ≡ b'\n' → file ≡ rest → c ∷ file ≡ b'\n' ∷ rest
newline-eq c file rest p q = cc

module _ (locals : List (Name × List ℕ)) (variables : List (Name × Variable)) where
  -- What the loop for a rule reads, and what that is worth, against the loop for a text.
  abbrev Agrees : ℕ → List ℕ → List ℕ → List Piece → List ℕ → Type 0
  Agrees f last file pieces rest =
      (out : List ℕ) × (text_loop (b'\n' ∷ []) (overlay locals variables) f file
        ≡ ok (out, b'\n' ∷ rest))
      × (expand_pieces locals variables pieces ≡ last ++ out)

  expand-reference :
      (id : Name) (more : List Piece) (out : List ℕ)
      → expand_pieces locals variables more ≡ out
      → expand_pieces locals variables (identifier id ∷ more)
        ≡ variable_value id (overlay locals variables) ++ out
  unfolding expand_pieces
  expand-reference id more out h = rw (h, overlay-lookup locals variables id)

  after_piece :
      (f : ℕ) (last : List ℕ) (p : Piece) (file : List ℕ) {pieces : List Piece} {rest : List ℕ}
      → ((last' file' : List ℕ) (pieces' : List Piece) (rest' : List ℕ)
          → value_loop f last' file' ≡ ok (pieces', rest')
          → Agrees f last' file' pieces' rest')
      → value_piece (value_loop f) last p file ≡ ok (pieces, rest)
      → (out : List ℕ) × (text_loop (b'\n' ∷ []) (overlay locals variables) f file
          ≡ ok (out, b'\n' ∷ rest))
        × (expand_pieces locals variables pieces
            ≡ last ++ (piece_value (overlay locals variables) p ++ out))
  unfolding piece_value
  after_piece f last (text s) file {pieces} {rest} ih h =
      let (out, e, v) = ih (last ++ s) file pieces rest h in (out, e, v ∙ append_assoc last s out)
  after_piece f last (identifier id) file {pieces} {rest} ih h =
      let (more, rest', e, k) = continue-eq-ok (value_loop f [] file) _ h in
      let (out, q, v) = ih [] file more rest' e in
      (
        out,
        q ∙ ap (λ (x : List ℕ). ok (out, b'\n' ∷ x)) (ok-second k),
        ap (expand_pieces locals variables) (sym (ok-first k))
            ∙ expand-flush last (identifier id ∷ more) locals variables
            ∙ ap (λ x. last ++ x) (expand-reference id more out v),
      )

  -- The loop for a rule, and the loop for a text that stops at a newline.
  value_loop-text_loop :
      (f : ℕ) (last file : List ℕ) {pieces : List Piece} {rest : List ℕ}
      → value_loop f last file ≡ ok (pieces, rest)
      → Agrees f last file pieces rest
  unfolding value_loop text_loop
  value_loop-text_loop zero last file h = absurd (failed-ne-ok h)
  value_loop-text_loop (suc f) last [] h = absurd (failed-ne-ok h)
  value_loop-text_loop (suc f) last (c ∷ file) {pieces} {rest} h = elim (Bool-cases (c == b'\n')) [
    | inl e ↦
        let q : ◌≡◌ {A = Result (List Piece × List ℕ)} (ok (flush last, file)) (ok (pieces, rest)) =
          rw e at h in
        (
          [],
          rw e (
              ap (λ (x : List ℕ). ok ([], x))
                (newline-eq c file rest (ground arith) (ok-second q))),
          ap (expand_pieces locals variables) (sym (ok-first q))
              ∙ flush_value last locals variables,
        )
    | inr e ↦
        let (p, file', e', k) = continue-eq-ok (read_piece (c ∷ file)) _ (rw e at h) in
        let (out, q, v) =
          after_piece f last p file'
            (λ last' file'' pieces' rest'.
              value_loop-text_loop f last' file'' {pieces = pieces'} {rest = rest'})
            k in
        (piece_value (overlay locals variables) p ++ out, rw (e, e', q), v)
  ]

pub skip_spaces_idem : (file : List ℕ) → skip_spaces (skip_spaces file) ≡ skip_spaces file
unfolding skip_spaces
skip_spaces_idem [] = refl
skip_spaces_idem (c ∷ []) = elim (Bool-cases (c == b' ')) [
  | inl e ↦ rw e refl
  | inr e ↦ rw e (rw e)
]
skip_spaces_idem (c ∷ d ∷ file) = elim (Bool-cases (c == b' ')) [
  | inl e ↦ rw e (skip_spaces_idem (d ∷ file))
  | inr e ↦ elim (Bool-cases (c == b'$' && d == b'\n')) [
    | inl q ↦ rw (e, q) (skip_spaces_idem file)
    | inr q ↦ rw (e, q) (rw (e, q))
  ]
]

read_alike :
    (locals : List (Name × List ℕ)) (variables : List (Name × Variable)) (name : Name)
    (pieces : List Piece) (out file : List ℕ) (v : RuleVariable) (rest : List ℕ)
    → expand_pieces locals variables pieces ≡ out
    → ◌≡◌ {A = Result (RuleVariable × List ℕ)}
        (ok (record { name = name; value = pieces }, file))
        (ok (v, rest))
    → ◌≡◌ {A = Result (Variable × List ℕ)}
        (ok (record { name = name; value = out }, file))
        (ok (record { name = v.name; value = expand_pieces locals variables v.value }, rest))
read_alike locals variables name pieces out file v rest w h =
    let p = ok-first h in let q : file ≡ rest = ok-second h in rw (← p, ← q, w)

-- Where `parse_rule_variable` reads a variable of a rule, `parse_variable` reads it too from the
-- same text, to the same place. The value that `parse_variable` gives with some variables of a
-- build in front of those of the file is the value that the build gets from the kept pieces.
pub parse_rule_variable-deferred :
    (locals : List (Name × List ℕ)) (variables : List (Name × Variable)) (file : List ℕ)
    {v : RuleVariable} {rest : List ℕ}
    → parse_rule_variable file ≡ ok (v, rest)
    → parse_variable (overlay locals variables) file
      ≡ ok (record { name = v.name; value = expand_pieces locals variables v.value }, rest)
unfolding parse_rule_variable parse_variable parse_expanded_text consume_spaces
parse_rule_variable-deferred locals variables file {v} {rest} h =
    let (name, f₁, e₁, h₁) = continue-eq-ok (parse_identifier file) _ h in
    let (u₂, f₂, e₂, h₂) = continue-eq-ok (demand (elem name settable_rule_variables) f₁) _ h₁ in
    let same = (demand-eq-ok (elem name settable_rule_variables) f₁ e₂).1 in
    let (u₃, f₃, e₃, h₃) = continue-eq-ok (consume_c b'=' (skip_spaces f₂)) _ h₂ in
    let (pieces, f₄, e₄, h₄) =
      continue-eq-ok (with_fuel (λ f. value_loop f []) (skip_spaces f₃)) _ h₃ in
    let (out, q, w) =
      value_loop-text_loop locals variables (suc (length (skip_spaces f₃))) [] (skip_spaces f₃)
        e₄ in
    let e₃' : consume_c b'=' (skip_spaces f₁) ≡ ok (u₃, f₃) = rw same at e₃ in
    rw (e₁, e₃', skip_spaces_idem f₃, q)
      (read_alike locals variables name pieces out f₄ v rest w h₄)
