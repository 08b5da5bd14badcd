-- ===== src/Collectors/Ollama/Waits.antt =====
-- The waiting between two polls ends.
use Prim.Native.Nat.{min}
use capacity_agent.Base.{
  ℕ, zero, suc, ◌+◌, ◌-◌, ◌≤◌, ◌<◌, ◌≡◌, refl, ap, inl, inr, Bool, true, false, ◌&&◌, ltb, ◌==◌,
  ==_iff, some, List, [], ◌∷◌, length, arith, Bool-cases,
}
use capacity_agent.Collectors.Ollama.{sleep_chunks}

abbrev pub sum : List ℕ → ℕ
sum [] = 0
sum (c ∷ cs) = c + sum cs

-- Each is of 1 to 250 ms.
abbrev pub AreChunks : List ℕ → Type 0
AreChunks [] = Unit
AreChunks (c ∷ cs) = (0 < c) × (c ≤ 250) × AreChunks cs

-- What the waiting amounts to: it sleeps in chunks, never longer than asked, and as long as asked if the flag
-- stays set; and no chunk is begun after the flag is read as cleared.
pub record IsWait (running : ℕ → Bool) (k remaining : ℕ) (chunks : List ℕ) : Type 0 where
  pub chunked : AreChunks chunks
  pub total_le : sum chunks ≤ remaining
  pub total : ((j : ℕ) → running j ≡ true) → sum chunks ≡ remaining
  pub stopped : (j : ℕ) → k ≤ j → running j ≡ false → k + length chunks ≤ j

none_slept :
    (running : ℕ → Bool) (k remaining : ℕ)
    → (ltb 0 remaining && running k) ≡ false
    → IsWait running k remaining []
none_slept running k remaining h = record {
  chunked = tt;
  total_le = omega arith;
  total = λ r. let at = r k in ground arith;
  stopped = λ j lt r. omega arith;
}

later_reading :
    (running : ℕ → Bool) (k j : ℕ) → running k ≡ true → k ≤ j → running j ≡ false → suc k ≤ j
later_reading running k j h le r = elim (Bool-cases (k == j)) [
  | inl e ↦ let same = ap running ((==_iff k j).0 e) in cc
  | inr e ↦ ground arith
]

one_slept :
    (running : ℕ → Bool) (k remaining : ℕ) (chunks : List ℕ)
    → (ltb 0 remaining && running k) ≡ true
    → IsWait running (suc k) (remaining - min remaining 250) chunks
    → IsWait running k remaining (min remaining 250 ∷ chunks)
one_slept running k remaining chunks h w =
    let le = w.total_le in
    let some_left : 0 < remaining = ground arith in
    let read : running k ≡ true = ground arith in
    record {
      chunked = (omega arith, omega arith, w.chunked);
      total_le = omega arith;
      total = λ r. omega (arith, w.total r);
      stopped = λ j lt r. omega (arith, w.stopped j (later_reading running k j read lt r) r);
    }

-- With more fuel than there are milliseconds to wait, so that the loop of the source ends whatever the flag
-- does: the waiting between two polls sleeps in chunks of 1 to 250 ms, in all never longer than asked, and
-- exactly as long as asked if the flag stays set; and if a reading of the flag finds it cleared, then no
-- chunk is begun from then on.
pub sleep_chunks-IsWait :
    (fuel : ℕ) (running : ℕ → Bool) (k remaining : ℕ)
    → remaining < fuel
    → (chunks : List ℕ) × (sleep_chunks fuel running k remaining ≡ some chunks)
      × IsWait running k remaining chunks
unfolding sleep_chunks
sleep_chunks-IsWait zero running k remaining h = absurd (omega arith)
sleep_chunks-IsWait (suc fuel) running k remaining h =
    elim (Bool-cases (ltb 0 remaining && running k)) [
      | inl e ↦
          let some_left : 0 < remaining = ground arith in
          let r =
            sleep_chunks-IsWait fuel running (suc k) (remaining - min remaining 250)
              (omega arith) in
          (min remaining 250 ∷ r.0, rw (e, r.1) refl, one_slept running k remaining r.0 e r.2)
      | inr e ↦ ([], rw e refl, none_slept running k remaining e)
    ]
