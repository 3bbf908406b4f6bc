-- ===== src/Simplefs/Files/Names.antt =====
-- Names in the `char` arrays of inodes: `strcmp` and `strcpy`.
use operating_systems_labwor.Base.{
  ℕ, ◌+◌, ◌<◌, ◌≡◌, ◌≢◌, refl, ◌⊎◌, inl, inr, true, none, some, List, [], ◌∷◌, ◌++◌, arith, ◌==◌,
  Bool-cases, lt→ltb, length, drop, length-append, length-drop,
}
use operating_systems_labwor.Simplefs.Files.{strcmp_eq, strcpy}

-- The array holds the text, with the zero that ends it.
abbrev pub Holds : List ℕ → List ℕ → Type 0
Holds array s = (r : List ℕ) × (array ≡ s ++ (0 ∷ r))

-- The characters of a C string are not zero.
abbrev pub IsText : List ℕ → Type 0
IsText [] = Unit
IsText (c ∷ cs) = (0 < c) × IsText cs

-- The array has a zero in it.
abbrev pub IsTerminated : List ℕ → Type 0
IsTerminated [] = ⊥
IsTerminated (b ∷ bs) = (b ≡ 0) ⊎ IsTerminated bs

pub Holds-IsTerminated : (a s : List ℕ) → Holds a s → IsTerminated a
Holds-IsTerminated [] [] h = cc h.1
Holds-IsTerminated [] (c ∷ s) h = cc h.1
Holds-IsTerminated (b ∷ a) [] h = inl (cc h.1)
Holds-IsTerminated (b ∷ a) (c ∷ s) h = inr (Holds-IsTerminated a s (h.0, cc h.1))

-- On an array with a zero `strcmp` stops inside it.
pub strcmp_eq-stops : (a s : List ℕ) → IsTerminated a → IsText s → strcmp_eq a s ≢ none
unfolding strcmp_eq
strcmp_eq-stops [] s z t = elim z [ ]
strcmp_eq-stops (b ∷ bs) [] z t = λ e. cc
strcmp_eq-stops (b ∷ bs) (c ∷ cs) z t = elim (Bool-cases (b == c)) [
  | inl same ↦
      rw same (elim z [ inl e ↦ absurd (ground arith) | inr z' ↦ strcmp_eq-stops bs cs z' t.1 ])
  | inr other ↦ rw other (λ e. cc)
]

-- `strcmp` finds the texts equal exactly if the array holds the text.
pub strcmp_eq-Holds : (a s : List ℕ) → strcmp_eq a s ≡ some true → Holds a s
unfolding strcmp_eq
strcmp_eq-Holds [] s e = cc
strcmp_eq-Holds (b ∷ bs) [] e = (bs, ground arith)
strcmp_eq-Holds (b ∷ bs) (c ∷ cs) e = elim (Bool-cases (b == c)) [
  | inl same ↦ let (r, h) = strcmp_eq-Holds bs cs (rw same at e) in (r, ground arith)
  | inr other ↦ absurd (cc (rw other at e))
]

pub Holds-strcmp_eq : (a s : List ℕ) → Holds a s → strcmp_eq a s ≡ some true
unfolding strcmp_eq
Holds-strcmp_eq [] [] h = cc h.1
Holds-strcmp_eq [] (c ∷ cs) h = cc h.1
Holds-strcmp_eq (b ∷ bs) [] h = ground (arith, h.1)
Holds-strcmp_eq (b ∷ bs) (c ∷ cs) h = ground (arith, h.1, Holds-strcmp_eq bs cs (h.0, cc h.1))

-- Two texts that one array holds are the same.
pub Holds-unique : (a s t : List ℕ) → IsText s → IsText t → Holds a s → Holds a t → s ≡ t
Holds-unique a [] [] p q h k = refl
Holds-unique a [] (c ∷ t) p q h k = absurd (ground (arith, h.1, k.1))
Holds-unique a (b ∷ s) [] p q h k = absurd (ground (arith, h.1, k.1))
Holds-unique [] (b ∷ s) (c ∷ t) p q h k = absurd (cc h.1)
Holds-unique (d ∷ a) (b ∷ s) (c ∷ t) p q h k =
    cc (h.1, k.1, Holds-unique a s t p.1 q.1 (h.0, cc h.1) (k.0, cc k.1))

-- `strcpy` of a text that fits leaves an array of the same size that holds it; one that does not
-- fit is undefined.
pub strcpy_lem :
    (a s : List ℕ)
    → length s < length a
    → (b : List ℕ) × (strcpy a s ≡ some b) × Holds b s × (length b ≡ length a)
unfolding strcpy
strcpy_lem a s l =
    let rest = drop (length s + 1) a in
    (
      s ++ (0 ∷ rest),
      rw (lt→ltb (length s) (length a) l),
      (rest, refl),
      omega (arith, length-append s (0 ∷ rest), length-drop (length s + 1) a),
    )
