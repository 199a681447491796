-- ===== src/Permutation/Compose.antt =====
-- `operator*=` of a permutation: where it composes, and where it reads outside a vector.
use all.Prelude.{
  ℕ, zero, suc, ◌+◌, ◌-◌, ◌≤◌, ◌<◌, ◌≡◌, refl, sym, ap, ◌∙◌, Option, some, none, List, length,
  length-set, get_elem?, get_or, set, arith, ◌⊎◌, inl, inr, Option-cases,
}
use native.Mathlib.Decide.{dec_lt, ℕ_discrete}
use all.Permutation.{Permutation, apply, extend, compose_loop, compose}
use all.Permutation.Lookup.{
  get_elem?-get_or, get_elem?-none, get_or-set_self, get_or-set_ne, get_or-beyond,
  length-push_sizes, get_or-push_sizes,
}

-- Every entry is a position of the vector.
abbrev pub IsBounded : Permutation → Type 0
IsBounded p = (i : ℕ) → i < length p.v → apply p i < length p.v

pub apply-extend : (n : ℕ) (p : Permutation) (i : ℕ) → apply (extend n p) i ≡ apply p i
unfolding extend
apply-extend n p i = get_or-push_sizes (n - length p.v) p.v i

pub length-extend : (n : ℕ) (p : Permutation) → n ≤ length (extend n p).v
unfolding extend
length-extend n p = omega (arith, length-push_sizes (n - length p.v) p.v)

-- After the rounds from i on, the entries there have gone through o, and the others are as before.
pub record Composed (o : List ℕ) (i : ℕ) (v : List ℕ) (out : Option (List ℕ)) : Type 0 where
  pub v' : List ℕ
  pub result : out ≡ some v'
  pub size : length v' ≡ length v
  pub through :
      (j : ℕ) → i ≤ j → j < length o → get_or v' j j ≡ get_or o (get_or v j j) (get_or v j j)
  pub kept : (j : ℕ) → (j < i) ⊎ (length o ≤ j) → get_or v' j j ≡ get_or v j j

Composed-step :
    (o : List ℕ) (i : ℕ) (v : List ℕ) (x : ℕ) (out : Option (List ℕ))
    → i < length o
    → i < length v
    → x ≡ get_or o (get_or v i i) (get_or v i i)
    → Composed o (i + 1) (set v i x) out
    → Composed o i v out
Composed-step o i v x out h k e c = record {
  v' = c.v';
  result = c.result;
  size = c.size ∙ length-set v i x;
  through = λ j a b. elim (ℕ_discrete i j) [
    | yes same ↦ rw (← same) (c.kept i (inl (omega arith)) ∙ get_or-set_self v i x i k ∙ e)
    | no other ↦ c.through j (omega arith) b ∙ rw (get_or-set_ne v i j x j other)
  ];
  kept = λ j a. c.kept j (omega arith) ∙ get_or-set_ne v i j x j (omega arith);
}

compose_loop-Composed :
    (o : List ℕ) (k i : ℕ) (v : List ℕ)
    → i + k ≡ length o
    → length o ≤ length v
    → ((j : ℕ) → i ≤ j → j < length o → get_or v j j < length o)
    → Composed o i v (compose_loop o k i v)
unfolding compose_loop
compose_loop-Composed o zero i v h l b = record {
  v' = v;
  result = refl;
  size = refl;
  through = λ j p q. absurd (omega arith);
  kept = λ j p. refl;
}
compose_loop-Composed o (suc k) i v h l b =
    let y = get_or v i i in
    let x = get_or o y y in
    let rest =
      compose_loop-Composed o k (i + 1) (set v i x) (omega arith) (omega (arith, length-set v i x))
        (λ j p q. rw (get_or-set_ne v i j x j (omega arith)) (b j (omega arith) q)) in
    rw
      (
        get_elem?-get_or v i i (omega arith),
        get_elem?-get_or o y y (b i (omega arith) (omega arith)),
      )
      (Composed-step o i v x (compose_loop o k (i + 1) (set v i x)) (omega arith) (omega arith) refl
        rest)

compose_full :
    (p o : Permutation)
    → ((i : ℕ) → i < length o.v → apply p i < length o.v)
    → ((i : ℕ) → length o.v ≤ i → length o.v ≤ apply p i)
    → (r : Permutation) × (compose p o ≡ some r)
      × (length r.v ≡ length (extend (length o.v) p).v)
      × ((i : ℕ) → apply r i ≡ apply o (apply p i))
unfolding compose
compose_full p o low high =
    let n = length o.v in
    let v = (extend n p).v in
    let c =
      compose_loop-Composed o.v n 0 v (omega arith) (length-extend n p)
        (λ j a b. rw (apply-extend n p j) (low j b)) in
    (
      record { v = c.v' },
      rw c.result,
      c.size,
      λ i. elim (dec_lt i n) [
        | yes inside ↦
            c.through i (omega arith) inside ∙ ap (λ t. get_or o.v t t) (apply-extend n p i)
        | no outside ↦
            c.kept i (inr (omega arith))
            ∙ apply-extend n p i
            ∙ sym (get_or-beyond o.v (apply p i) (apply p i) (high i (omega arith)))
      ],
    )

-- Where the first factor maps the positions of the second one's vector to themselves, and the
-- numbers beyond them to numbers beyond, `p *= o` stays inside its vectors and gives the
-- composition: every number goes through p, and then o.
pub compose_lem :
    (p o : Permutation)
    → ((i : ℕ) → i < length o.v → apply p i < length o.v)
    → ((i : ℕ) → length o.v ≤ i → length o.v ≤ apply p i)
    → (r : Permutation) × (compose p o ≡ some r) × ((i : ℕ) → apply r i ≡ apply o (apply p i))
compose_lem p o low high = let (r, e, _, values) = compose_full p o low high in (r, e, values)

length-extend_max : (n : ℕ) (p : Permutation) → length p.v ≤ n → length (extend n p).v ≡ n
unfolding extend
length-extend_max n p h = omega (arith, length-push_sizes (n - length p.v) p.v)

-- A bounded permutation keeps the positions below any size that is not smaller.
pub IsBounded-below :
    (p : Permutation) (n i : ℕ) → IsBounded p → length p.v ≤ n → i < n → apply p i < n
IsBounded-below p n i b h k = elim (dec_lt i (length p.v)) [
  | yes inside ↦ let c = b i inside in omega arith
  | no outside ↦ rw (get_or-beyond p.v i i (omega arith)) k
]

IsBounded-above : (p : Permutation) (n i : ℕ) → length p.v ≤ n → n ≤ i → n ≤ apply p i
IsBounded-above p n i h k = rw (get_or-beyond p.v i i (omega arith)) k

-- The product of bounded permutations, the second not shorter than the first.
pub record Product (p o : Permutation) : Type 0 where
  pub r : Permutation
  pub result : compose p o ≡ some r
  pub size : length r.v ≡ length o.v
  pub bounded : IsBounded r
  pub values : (i : ℕ) → apply r i ≡ apply o (apply p i)

pub compose-Product :
    (p o : Permutation) → IsBounded p → IsBounded o → length p.v ≤ length o.v → Product p o
compose-Product p o bp bo h =
    let n = length o.v in
    let low = λ (i : ℕ) (k : i < n). IsBounded-below p n i bp h k in
    let (r, e, same, values) = compose_full p o low (λ i k. IsBounded-above p n i h k) in
    let size : length r.v ≡ n = same ∙ length-extend_max n p h in
    record {
      r = r;
      result = e;
      size = size;
      bounded = λ i k.
          let inside = IsBounded-below o n (apply p i) bo (omega arith) (low i (omega arith)) in
          omega (arith, values i);
      values = values;
    }

compose_loop-none :
    (o : List ℕ) (k i j : ℕ) (v : List ℕ)
    → i + k ≡ length o
    → length o ≤ length v
    → i ≤ j
    → j < length o
    → length o ≤ get_or v j j
    → compose_loop o k i v ≡ none
unfolding compose_loop
compose_loop-none o zero i j v h l a b c = absurd (omega arith)
compose_loop-none o (suc k) i j v h l a b c = elim (ℕ_discrete i j) [
  | yes same ↦ rw (get_elem?-get_or v i j (omega arith), same, get_elem?-none o (get_or v j j) c)
  | no other ↦
      rw (get_elem?-get_or v i i (omega arith)) (elim (Option-cases (get_elem? o (get_or v i i))) [
        | inl e ↦ rw e
        | inr (x, e) ↦ rw e (
            compose_loop-none o k (i + 1) j (set v i x) (omega arith)
              (omega (arith, length-set v i x)) (omega arith) b
              (rw (get_or-set_ne v i j x j other) c))
      ])
]

-- Where the first factor maps a position of the second one's vector outside it, as a permutation
-- of more points may, `p *= o` reads outside that vector.
pub compose_outside :
    (p o : Permutation) (i : ℕ) → i < length o.v → length o.v ≤ apply p i → compose p o ≡ none
unfolding compose
compose_outside p o i h k = rw (
    compose_loop-none o.v (length o.v) 0 i (extend (length o.v) p).v (omega arith)
      (length-extend (length o.v) p) (omega arith) h (rw (apply-extend (length o.v) p i) k))
