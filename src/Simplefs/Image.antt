-- ===== src/Simplefs/Image.antt =====
-- The disk file of simplefs-disk.c, as the calls of `lseek`, `read` and `write` see it.
use operating_systems_labwor.Base.{
  ℕ, zero, suc, ◌+◌, ◌-◌, ◌≤◌, ◌<◌, max, ◌≡◌, refl, ap, ap₂, ◌⊎◌, List, [], ◌∷◌, arith, ltb, leb,
  ◌&&◌, if◌then◌else◌, length, get_or,
}

-- A file of `size` bytes.
pub record Image : Type 0 where
  pub size : ℕ
  pub byte : ℕ → ℕ

-- The `n` bytes from offset `off` on.
unfoldable pub slice : Image → ℕ → ℕ → List ℕ
slice m off zero = []
slice m off (suc n) = m.byte off ∷ slice m (off + 1) n

-- The bytes of the file after `bs` is written at `off`; a gap that this leaves reads as zeros.
unfoldable pub patched : Image → ℕ → List ℕ → ℕ → ℕ
patched m off bs i =
    if leb off i && ltb i (off + length bs)
    then get_or bs (i - off) 0
    else if ltb i m.size
    then m.byte i
    else 0

-- `lseek` to `off` and `write` the bytes `bs`.
unfoldable pub patch : Image → ℕ → List ℕ → Image
unfolding patched
patch m off bs = record { size = max m.size (off + length bs); byte = patched m off bs }

pub size-patch :
    (m : Image) (off : ℕ) (bs : List ℕ) → (patch m off bs).size ≡ max m.size (off + length bs)
unfolding patch
size-patch m off bs = refl

pub length-slice : (m : Image) (off n : ℕ) → length (slice m off n) ≡ n
unfolding slice
length-slice m off zero = refl
length-slice m off (suc n) = ap suc (length-slice m (off + 1) n)

-- Two files that agree on a range have the same slice there.
pub slice_ext :
    (m k : Image) (off n : ℕ)
    → ((i : ℕ) → off ≤ i → i < off + n → m.byte i ≡ k.byte i)
    → slice m off n ≡ slice k off n
unfolding slice
slice_ext m k off zero h = refl
slice_ext m k off (suc n) h =
    ap₂ ◌∷◌ (h off (omega arith) (omega arith))
      (slice_ext m k (off + 1) n λ i a b. h i (omega arith) (omega arith))

slice-eq :
    (m : Image) (off : ℕ) (bs : List ℕ)
    → ((i : ℕ) → i < length bs → m.byte (off + i) ≡ get_or bs i 0)
    → slice m off (length bs) ≡ bs
unfolding slice
slice-eq m off [] h = refl
slice-eq m off (b ∷ bs) h =
    ap₂ ◌∷◌ (ground (arith, h 0 (omega arith)))
      (slice-eq m (off + 1) bs λ i l. ground (arith, h (suc i) (omega arith)))

-- What is written at an offset is read back there.
pub slice-patch_self :
    (m : Image) (off : ℕ) (bs : List ℕ) → slice (patch m off bs) off (length bs) ≡ bs
unfolding patch patched
slice-patch_self m off bs =
    slice-eq (patch m off bs) off bs
      λ i l. let e : off + i - off ≡ i = omega arith in ground (arith, ap (λ k. get_or bs k 0) e)

-- A write leaves the ranges before it and behind it alone.
pub slice-patch_apart :
    (m : Image) (off : ℕ) (bs : List ℕ) (o n : ℕ)
    → o + n ≤ m.size
    → (o + n ≤ off) ⊎ (off + length bs ≤ o)
    → slice (patch m off bs) o n ≡ slice m o n
unfolding patch patched
slice-patch_apart m off bs o n fits apart = slice_ext (patch m off bs) m o n λ i a b. ground arith
