-- ===== src/Config/Paths/Normal.antt =====
-- A path that `filepath.Clean` has returned is left as it is.
use mathlib.Core.List.{reverse, reverse-cons}
use nas_conn_plus.Base.{
  ℕ, Str, str_beq, str_beq_iff, has_prefix, split, join, ◌≡◌, ◌≢◌, refl, ap, ◌∙◌, List, [], ◌∷◌,
  ◌++◌, Bool, true, false, if◌then◌else◌, ◌==◌, All, arith, Bool-cases, ◌⊎◌, inl, inr,
}
use nas_conn_plus.Config.Paths.{slash, dot, dotdot, back, add_part, add_parts, or_dot, clean}

abbrev NoSlash : Str → Type 0
NoSlash [] = Unit {0}
NoSlash (c ∷ s) = ((c == b'/') ≡ false) × NoSlash s

abbrev IsDots : List Str → Type 0
IsDots out = All (λ p. p ≡ dotdot) out

-- The elements of a clean path, last first: `..` stands at the front of a relative path only.
abbrev Normal : Bool → List Str → Type 0
Normal rooted [] = Unit {0}
Normal rooted (x ∷ out) =
    NoSlash x
    × (x ≢ [])
    × (x ≢ dot)
    × (x ≡ dotdot → (rooted ≡ false) × IsDots out)
    × Normal rooted out

List-cases : (l : List Str) → (l ≡ []) ⊎ ((x : Str) × (xs : List Str) × (l ≡ x ∷ xs))
List-cases [] = inl refl
List-cases (x ∷ xs) = inr (x, xs, refl)

-- A character more, in front of the parts.
cut_first : ℕ → List Str → List Str
cut_first c [] = [] ∷ []
cut_first c (part ∷ parts) = if c == b'/' then [] ∷ part ∷ parts else (c ∷ part) ∷ parts

split-cons : (c : ℕ) (s : Str) → split b'/' (c ∷ s) ≡ cut_first c (split b'/' s)
unfolding split cut_first
split-cons c s = elim (List-cases (split b'/' s)) [ inl e ↦ rw e refl | inr (x, xs, e) ↦ rw e refl ]

cut_first-NoSlash : (c : ℕ) (parts : List Str) → All NoSlash parts → All NoSlash (cut_first c parts)
unfolding cut_first
cut_first-NoSlash c [] v = (tt, tt)
cut_first-NoSlash c (part ∷ parts) v = ground arith

split-NoSlash : (s : Str) → All NoSlash (split b'/' s)
unfolding split
split-NoSlash [] = (tt, tt)
split-NoSlash (c ∷ s) = rw (split-cons c s) (cut_first-NoSlash c (split b'/' s) (split-NoSlash s))

add_part-Normal :
    (rooted : Bool) (x : Str) (out : List Str)
    → NoSlash x
    → Normal rooted out
    → Normal rooted (add_part rooted x out)
unfolding add_part back
add_part-Normal rooted x [] n v = ground (arith, str_beq_iff x dot, str_beq_iff x dotdot)
add_part-Normal rooted x (top ∷ out) n v =
    ground (arith, str_beq_iff x dot, str_beq_iff x dotdot, str_beq_iff top dotdot)

add_parts-Normal :
    (rooted : Bool) (xs out : List Str)
    → All NoSlash xs
    → Normal rooted out
    → Normal rooted (add_parts rooted xs out)
unfolding add_parts
add_parts-Normal rooted [] out n v = v
add_parts-Normal rooted (x ∷ xs) out (n, ns) v =
    add_parts-Normal rooted xs (add_part rooted x out) ns (add_part-Normal rooted x out n v)

-- A part of a clean path is put behind the others as it is.
add_part-kept :
    (rooted : Bool) (x : Str) (out : List Str)
    → Normal rooted (x ∷ out)
    → add_part rooted x out ≡ x ∷ out
unfolding add_part back
add_part-kept rooted x [] v = ground (arith, str_beq_iff x dot, str_beq_iff x dotdot)
add_part-kept rooted x (top ∷ out) v =
    ground (arith, str_beq_iff x dot, str_beq_iff x dotdot, str_beq_iff top dotdot)

-- The parts come back from the text that they make.
split-part : (x : Str) → NoSlash x → split b'/' x ≡ x ∷ []
unfolding split
split-part [] n = refl
split-part (c ∷ x) (n, ns) = rw (split-part x ns, n) refl

cut_some : (c : ℕ) (parts : List Str) → (x : Str) × (xs : List Str) × (cut_first c parts ≡ x ∷ xs)
unfolding cut_first
cut_some c [] = ([], [], refl)
cut_some c (part ∷ parts) = elim (Bool-cases (c == b'/')) [
  | inl here ↦ ([], part ∷ parts, rw here refl)
  | inr later ↦ (c ∷ part, parts, rw later refl)
]

split_some : (s : Str) → (x : Str) × (xs : List Str) × (split b'/' s ≡ x ∷ xs)
unfolding split
split_some [] = ([], [], refl)
split_some (c ∷ s) = let (x, xs, e) = cut_some c (split b'/' s) in (x, xs, split-cons c s ∙ e)

split-first : (x s : Str) → NoSlash x → split b'/' (x ++ (slash ++ s)) ≡ x ∷ split b'/' s
unfolding cut_first
split-first [] s n = split-cons b'/' s ∙ (let (x, xs, e) = split_some s in rw e refl)
split-first (c ∷ x) s (n, ns) = split-cons c (x ++ (slash ++ s)) ∙ rw (split-first x s ns, n) refl

split-join :
    (x : Str) (xs : List Str) → All NoSlash (x ∷ xs) → split b'/' (join slash (x ∷ xs)) ≡ x ∷ xs
unfolding join
split-join x [] (n, ns) = split-part x n
split-join x (y ∷ xs) (n, ns) =
    split-first x (join slash (y ∷ xs)) n ∙ ap (◌∷◌ x) (split-join y xs ns)

add_parts-append :
    (rooted : Bool) (xs ys out : List Str)
    → add_parts rooted (xs ++ ys) out ≡ add_parts rooted ys (add_parts rooted xs out)
unfolding add_parts
add_parts-append rooted [] ys out = refl
add_parts-append rooted (x ∷ xs) ys out = add_parts-append rooted xs ys (add_part rooted x out)

add_parts-reverse :
    (rooted : Bool) (out : List Str) → Normal rooted out → add_parts rooted (reverse out) [] ≡ out
unfolding add_parts
add_parts-reverse rooted [] v = refl
add_parts-reverse rooted (x ∷ out) v =
    ap (λ l. add_parts rooted l []) (reverse-cons x out)
    ∙ add_parts-append rooted (reverse out) (x ∷ []) []
    ∙ ap (add_part rooted x) (add_parts-reverse rooted out v.4)
    ∙ add_part-kept rooted x out v

abbrev IsName : Str → Type 0
IsName x = NoSlash x × (x ≢ [])

All-append {ℓ κ} :
    {A : Type ℓ} (P : A → Type κ) (xs ys : List A) → All P xs → All P ys → All P (xs ++ ys)
All-append P [] ys v w = w
All-append P (x ∷ xs) ys v w = (v.0, All-append P xs ys v.1 w)

reverse-IsName : (rooted : Bool) (out : List Str) → Normal rooted out → All IsName (reverse out)
reverse-IsName rooted [] v = tt
reverse-IsName rooted (x ∷ out) v =
    rw (reverse-cons x out)
      (All-append IsName (reverse out) (x ∷ []) (reverse-IsName rooted out v.4) ((v.0, v.1), tt))

IsName-NoSlash : (xs : List Str) → All IsName xs → All NoSlash xs
IsName-NoSlash [] v = tt
IsName-NoSlash (x ∷ xs) v = (v.0.0, IsName-NoSlash xs v.1)

-- The path that the elements make.
made : Bool → List Str → Str
made rooted out = let j = join slash (reverse out) in if rooted then slash ++ j else or_dot j

clean-as :
    (path : Str) (rooted : Bool) (out : List Str)
    → has_prefix slash path ≡ rooted
    → add_parts rooted (split b'/' path) [] ≡ out
    → clean path ≡ made rooted out
unfolding clean made
clean-as path rooted out e f = rw (e, f) refl

parts-join :
    (rooted : Bool) (parts out : List Str)
    → All IsName parts
    → add_parts rooted parts [] ≡ out
    → add_parts rooted (split b'/' (join slash parts)) [] ≡ out
unfolding join split add_parts add_part
parts-join rooted [] out v h = h
parts-join rooted (y ∷ ys) out v h =
    ap (λ l. add_parts rooted l []) (split-join y ys (IsName-NoSlash (y ∷ ys) v)) ∙ h

elements-join :
    (rooted : Bool) (out : List Str)
    → Normal rooted out
    → add_parts rooted (split b'/' (join slash (reverse out))) [] ≡ out
elements-join rooted out v =
    parts-join rooted (reverse out) out (reverse-IsName rooted out v)
      (add_parts-reverse rooted out v)

-- A relative path that has an element starts with a letter of it.
relative :
    (parts : List Str)
    → All IsName parts
    → (has_prefix slash (or_dot (join slash parts)) ≡ false)
      × ((parts ≡ []) ⊎ (or_dot (join slash parts) ≡ join slash parts))
unfolding has_prefix or_dot join
relative [] v = (refl, inl refl)
relative ([] ∷ ys) v = absurd (v.0.1 refl)
relative ((c ∷ y) ∷ []) v = (ground (arith, v.0.0.0), inr refl)
relative ((c ∷ y) ∷ z ∷ ys) v = (ground (arith, v.0.0.0), inr refl)

clean-dot : clean (or_dot (join slash [])) ≡ or_dot (join slash [])
unfolding clean or_dot str_beq
clean-dot = refl

made-again :
    (rooted : Bool) (out : List Str) → Normal rooted out → clean (made rooted out) ≡ made rooted out
unfolding made has_prefix add_parts add_part
made-again true out v =
    let j = join slash (reverse out) in
    clean-as (slash ++ j) true out refl
      (ap (λ l. add_parts true l []) (split-first [] j tt) ∙ elements-join true out v)
made-again false out v =
    let (start, case) = relative (reverse out) (reverse-IsName false out v) in
    elim case [
      | inl e ↦ rw e clean-dot
      | inr same ↦
          clean-as _ false out start
            (ap (λ p. add_parts false (split b'/' p) []) same ∙ elements-join false out v)
    ]

-- A path that `filepath.Clean` has returned is left as it is.
pub clean-clean : (path : Str) → clean (clean path) ≡ clean path
clean-clean path =
    let rooted = has_prefix slash path in
    let out = add_parts rooted (split b'/' path) [] in
    let normal = add_parts-Normal rooted (split b'/' path) [] (split-NoSlash path) tt in
    rw (clean-as path rooted out refl refl) (made-again rooted out normal)
