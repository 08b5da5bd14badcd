-- ===== src/Gpu/Capi/Buffers.antt =====
-- The text that a caller of the C interface finds in a buffer.
use capacity_agent.Base.{
  ℕ, zero, suc, ◌-◌, ◌≤◌, ◌<◌, ◌≡◌, refl, ap, ◌⊎◌, inl, inr, ◌∙◌, min, ◌==◌, if◌then◌else◌, List,
  [], ◌∷◌, Text, set, take, length, length-set, arith,
}
use capacity_agent.Gpu.Copies.{clear_buffer, copy_first, copy_string_to_buffer}

-- A string of C: the bytes before the first 0, if there is one.
abbrev pub c_string : List ℕ → List ℕ
c_string [] = []
c_string (b ∷ bs) = if b == 0 then [] else b ∷ c_string bs

-- A 0 stands in it.
abbrev pub IsTerminated : List ℕ → Type 0
IsTerminated [] = ⊥
IsTerminated (b ∷ bs) = (b ≡ 0) ⊎ IsTerminated bs

abbrev copied : ℕ → Text → List ℕ → List ℕ
copied n value buffer = set (copy_first n value buffer) n 0

length-copy_first :
    {A : Type 0} (n : ℕ) (source target : List A)
    → length (copy_first n source target) ≡ length target
length-copy_first zero source target = refl
length-copy_first (suc n) [] target = refl
length-copy_first (suc n) (a ∷ source) [] = refl
length-copy_first (suc n) (a ∷ source) (b ∷ target) = ap suc (length-copy_first n source target)

copied-IsTerminated :
    (n : ℕ) (value : Text) (buffer : List ℕ)
    → n < length buffer
    → n ≤ length value
    → IsTerminated (copied n value buffer)
copied-IsTerminated n value [] h k = absurd (omega arith)
copied-IsTerminated zero value (b ∷ bs) h k = inl refl
copied-IsTerminated (suc n) [] (b ∷ bs) h k = absurd (omega arith)
copied-IsTerminated (suc n) (a ∷ value) (b ∷ bs) h k =
    inr (copied-IsTerminated n value bs (omega arith) (omega arith))

c_string-copied :
    (n : ℕ) (value : Text) (buffer : List ℕ)
    → n < length buffer
    → n ≤ length value
    → c_string (copied n value buffer) ≡ c_string (take n value)
c_string-copied n value [] h k = absurd (omega arith)
c_string-copied zero value (b ∷ bs) h k = refl
c_string-copied (suc n) [] (b ∷ bs) h k = absurd (omega arith)
c_string-copied (suc n) (a ∷ value) (b ∷ bs) h k =
    rw (c_string-copied n value bs (omega arith) (omega arith)) refl

length-clear_buffer : (buffer : List ℕ) → length (clear_buffer buffer) ≡ length buffer
unfolding clear_buffer
length-clear_buffer [] = refl
length-clear_buffer (b ∷ bs) = refl

-- After a text is copied to a buffer of at least one byte, the buffer has its old size, is terminated, and
-- holds as a string of C what the text's bytes that fit, one fewer than the buffer has, are as one.
pub copy_string_to_buffer_lem :
    (value : Text) (b : ℕ) (bs : List ℕ)
    → (length (copy_string_to_buffer value (b ∷ bs)) ≡ suc (length bs))
      × IsTerminated (copy_string_to_buffer value (b ∷ bs))
      × (c_string (copy_string_to_buffer value (b ∷ bs))
          ≡ c_string (take (min (length value) (length bs)) value))
unfolding copy_string_to_buffer
copy_string_to_buffer_lem value b bs =
    let n = min (length value) (suc (length bs) - 1) in
    let same : n ≡ min (length value) (length bs) = omega arith in
    (
      length-set (copy_first n value (0 ∷ bs)) n 0 ∙ length-copy_first n value (0 ∷ bs),
      copied-IsTerminated n value (0 ∷ bs) (omega arith) (omega arith),
      c_string-copied n value (0 ∷ bs) (omega arith) (omega arith)
          ∙ ap (λ (k : ℕ). c_string (take k value)) same,
    )
