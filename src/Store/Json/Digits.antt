-- ===== src/Store/Json/Digits.antt =====
-- `std::to_string` writes different numbers differently.
use capacity_agent.Base.{
  ℕ, zero, suc, ◌+◌, ◌-◌, ◌*◌, ◌/◌, ◌%◌, ◌<◌, ◌≡◌, refl, sym, ap, ◌∙◌, Bool-cases, inl, inr, ltb,
  [], ◌∷◌, ◌++◌, Text, arith,
}
use capacity_agent.Base.Int.{pos}
use capacity_agent.Store.Json.{decimal, to_string}

-- The number that digits after `front` stand for.
abbrev value_from : ℕ → Text → ℕ
value_from front [] = front
value_from front (c ∷ cs) = value_from (front * 10 + (c - b'0')) cs

value_from-append :
    (front : ℕ) (cs : Text) (c : ℕ)
    → value_from front (cs ++ c ∷ []) ≡ value_from front cs * 10 + (c - b'0')
value_from-append front [] c = refl
value_from-append front (d ∷ cs) c = value_from-append (front * 10 + (d - b'0')) cs c

value_from-decimal : (fuel n : ℕ) → n < fuel → value_from 0 (decimal fuel n) ≡ n
unfolding decimal
value_from-decimal zero n h = omega arith
value_from-decimal (suc fuel) n h = elim (Bool-cases (ltb n 10)) [
  | inl e ↦ rw e (omega arith)
  | inr e ↦
      let shorter : n / 10 < fuel = ground arith in
      rw
        (
          e,
          value_from-append 0 (decimal fuel (n / 10)) (b'0' + n % 10),
          value_from-decimal fuel (n / 10) shorter,
        )
        (omega arith)
]

pub to_string-injective : (m n : ℕ) → to_string (pos m) ≡ to_string (pos n) → m ≡ n
unfolding to_string
to_string-injective m n e =
    sym (value_from-decimal (suc m) m (omega arith))
    ∙ ap (value_from 0) e
    ∙ value_from-decimal (suc n) n (omega arith)
