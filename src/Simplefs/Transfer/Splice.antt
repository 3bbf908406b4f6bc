-- ===== src/Simplefs/Transfer/Splice.antt =====
-- What `memcpy` into a block does to the bytes of a file.
use operating_systems_labwor.Base.{
  ℕ, zero, suc, ◌+◌, ◌-◌, ◌≤◌, ◌≡◌, refl, sym, ap, ◌∙◌, List, [], ◌∷◌, ◌++◌, arith, append_assoc,
  append-nil, length, take, drop, length-append, length-take, length-drop, drop-append_le,
  drop-append_ge, take-append_le, take-append_ge, take-drop-take, ap₂,
}
use operating_systems_labwor.Simplefs.Transfer.{splice}

take-nil : (n : ℕ) → take {A = ℕ} n [] ≡ []
take-nil zero = refl
take-nil (suc n) = refl

suc_add : (m n : ℕ) → suc m + n ≡ suc (m + n)
suc_add m n = omega arith

take-drop_join : (a b : ℕ) (xs : List ℕ) → take (a + b) xs ≡ take a xs ++ take b (drop a xs)
take-drop_join zero b xs = ap (λ (n : ℕ). take n xs) (omega arith)
take-drop_join (suc a) b [] = take-nil (suc a + b) ∙ sym (take-nil b)
take-drop_join (suc a) b (x ∷ xs) =
    ap (λ (n : ℕ). take n (x ∷ xs)) (suc_add a b) ∙ ap (λ r. x ∷ r) (take-drop_join a b xs)

drop_all : (n : ℕ) (xs : List ℕ) → length xs ≤ n → drop n xs ≡ []
drop_all zero [] l = refl
drop_all zero (x ∷ xs) l = absurd (omega arith)
drop_all (suc n) [] l = refl
drop_all (suc n) (x ∷ xs) l = drop_all n xs (omega arith)

pub length-splice :
    (old new : List ℕ) (off : ℕ)
    → off + length new ≤ length old
    → length (splice old off new) ≡ length old
unfolding splice
length-splice old new off l = omega (
  arith,
  length-append (take off old) (new ++ drop (off + length new) old),
  length-append new (drop (off + length new) old),
  length-take off old,
  length-drop (off + length new) old,
)

-- Bytes that end in the first part.
pub splice-append_inside :
    (old rest new : List ℕ) (off : ℕ)
    → off + length new ≤ length old
    → splice (old ++ rest) off new ≡ splice old off new ++ rest
unfolding splice
splice-append_inside old rest new off l =
    rw (take-append_le off old rest (omega arith), drop-append_le (off + length new) old rest l)
      (sym (
        append_assoc (take off old) (new ++ drop (off + length new) old) rest
        ∙ ap (λ a. take off old ++ a) (append_assoc new (drop (off + length new) old) rest)))

-- Bytes that go on in the second part.
pub splice-append_across :
    (old rest buf : List ℕ) (off a b : ℕ)
    → off + a ≡ length old
    → a + b ≤ length buf
    → splice (old ++ rest) off (take (a + b) buf)
      ≡ splice old off (take a buf) ++ splice rest 0 (take b (drop a buf))
unfolding splice
splice-append_across old rest buf off a b size fits =
    let la : length (take a buf) ≡ a = omega (arith, length-take a buf) in
    let lb : length (take b (drop a buf)) ≡ b =
      omega (arith, length-take b (drop a buf), length-drop a buf) in
    let whole : off + length (take (a + b) buf) - length old ≡ 0 + b =
      omega (arith, length-take (a + b) buf) in
    rw
      (
        take-append_le off old rest (omega arith),
        drop-append_ge (off + length (take (a + b) buf)) old rest
            (omega (arith, length-take (a + b) buf)),
        whole,
        la,
        lb,
        drop_all (off + a) old (omega arith),
        append-nil (take a buf),
        take-drop_join a b buf,
        append_assoc (take off old) (take a buf) (take b (drop a buf) ++ drop (0 + b) rest),
        append_assoc (take a buf) (take b (drop a buf)) (drop (0 + b) rest),
      )
      refl

-- Bytes that start in the second part.
pub splice-append_behind :
    (old rest new : List ℕ) (off : ℕ)
    → splice (old ++ rest) (length old + off) new ≡ old ++ splice rest off new
unfolding splice
splice-append_behind old rest new off =
    let here : length old + off - length old ≡ off = omega arith in
    let behind : length old + off + length new - length old ≡ off + length new = omega arith in
    rw
      (
        take-append_ge (length old + off) old rest (omega arith),
        drop-append_ge (length old + off + length new) old rest (omega arith),
        here,
        behind,
      )
      (append_assoc old (take off rest) (new ++ drop (off + length new) rest))

drop-take : (m n : ℕ) (xs : List ℕ) → drop m (take n xs) ≡ take (n - m) (drop m xs)
drop-take zero n xs = ap (λ (a : ℕ). take a xs) (omega arith)
drop-take (suc m) zero xs =
    let none : zero - suc m ≡ 0 = omega arith in sym (ap (λ (a : ℕ). take a (drop (suc m) xs)) none)
drop-take (suc m) (suc n) [] = sym (take-nil (suc n - suc m))
drop-take (suc m) (suc n) (x ∷ xs) =
    drop-take m n xs ∙ ap (λ (a : ℕ). take a (drop m xs)) (sub_suc m n)
  where
    sub_suc : (m n : ℕ) → n - m ≡ suc n - suc m
    sub_suc m n = omega arith

-- A part that reaches behind the bytes that are written.
pub take-splice :
    (n off : ℕ) (old new : List ℕ)
    → off + length new ≤ n
    → n ≤ length old
    → take n (splice old off new) ≡ splice (take n old) off new
unfolding splice
take-splice n off old new l m =
    let front : length (take off old) ≡ off = omega (arith, length-take off old) in
    let tail = drop (off + length new) old in
    let less : n - off - length new ≡ n - (off + length new) = omega arith in
    take-append_ge n (take off old) (new ++ tail) (omega (arith, front))
    ∙ ap (λ (a : ℕ). take off old ++ take (n - a) (new ++ tail)) front
    ∙ ap (λ x. take off old ++ x) (take-append_ge (n - off) new tail (omega arith))
    ∙ ap (λ (a : ℕ). take off old ++ (new ++ take a tail)) less
    ∙ ap₂ (λ x y. x ++ (new ++ y)) (sym (take-drop-take off 0 n old (omega arith)))
        (sym (drop-take (off + length new) n old))
