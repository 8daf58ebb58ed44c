-- ===== src/India/Confirm.antt =====
-- What a match of the detectors of gateway/detectors/india_id.py says of the text.
use zero_trace.Prelude.{
  ℕ, sym, ◌∙◌, zero, suc, ◌+◌, ◌-◌, ◌≤◌, ◌<◌, ◌≡◌, ◌⊎◌, true, false, some, List, arith, length,
  get_or,
}
use zero_trace.India.Chars.{Chars}
use zero_trace.India.Detectors.{
  Match, touching_alnum, digits_in, aadhaar_valid, labelled, keyed, confirm_aadhaar, local_char,
  walk_back, confirm_upi,
}

module _ (ch : Chars) (text : List ℕ) where
  -- An Aadhaar match covers the candidate, which has twelve digits and stands outside any longer
  -- token; its confidence is 97 exactly when the number is valid, else 82 when a label stands before
  -- it, else 78, when the field's key names it.
  pub confirm_aadhaar-some :
      (start end : ℕ) (m : Match)
      → confirm_aadhaar ch text start end ≡ some m
      → (m.start ≡ start)
        × (m.end ≡ end)
        × (length (digits_in ch text start end) ≡ 12)
        × (touching_alnum ch text start end ≡ false)
        × (((aadhaar_valid ch text (digits_in ch text start end) ≡ true) × (m.confidence ≡ 97))
            ⊎ ((aadhaar_valid ch text (digits_in ch text start end) ≡ false)
                × (((labelled ch text start ≡ true) × (m.confidence ≡ 82))
                    ⊎ ((labelled ch text start ≡ false)
                        × (keyed ch text start ≡ true)
                        × (m.confidence ≡ 78)))))
  unfolding confirm_aadhaar
  confirm_aadhaar-some start end m h = ground arith

  walk_back-le : (i : ℕ) → walk_back ch text i ≤ i
  unfolding walk_back
  walk_back-le zero = omega arith
  walk_back-le (suc i) = ground (arith, walk_back-le i)

  walk_back-local :
      (i k : ℕ) → walk_back ch text i ≤ k → k < i → local_char ch text (get_or text k 0) ≡ true
  unfolding walk_back
  walk_back-local zero k h lt = absurd (omega arith)
  walk_back-local (suc i) k h lt = ground (arith, walk_back-local i k)

  walk_back-stops :
      (i k : ℕ) → walk_back ch text i ≡ suc k → local_char ch text (get_or text k 0) ≡ false
  unfolding walk_back
  walk_back-stops zero k h = absurd (omega arith)
  walk_back-stops (suc i) k h = ground (arith, walk_back-stops i k)

  upi_parts :
      (start end : ℕ) (m : Match)
      → confirm_upi ch text start end ≡ some m
      → (m.start ≡ walk_back ch text start)
        × (m.end ≡ end)
        × (3 ≤ start - walk_back ch text start)
        × (end < length text → local_char ch text (get_or text end 0) ≡ false)
  unfolding confirm_upi
  upi_parts start end m h = ground arith

  -- A UPI match ends with the handle and begins with the longest run of address characters in front
  -- of it, which has at least three; no address character follows.
  pub confirm_upi-some :
      (start end : ℕ) (m : Match)
      → confirm_upi ch text start end ≡ some m
      → (m.end ≡ end)
        × (m.start + 3 ≤ start)
        × ((k : ℕ) → m.start ≤ k → k < start → local_char ch text (get_or text k 0) ≡ true)
        × ((k : ℕ) → m.start ≡ suc k → local_char ch text (get_or text k 0) ≡ false)
        × (end < length text → local_char ch text (get_or text end 0) ≡ false)
  confirm_upi-some start end m h =
      let (at_start, at_end, long, free) = upi_parts start end m h in
      (
        at_end,
        omega (arith, at_start, long, walk_back-le start),
        λ k le lt. walk_back-local start k (omega (arith, at_start)) lt,
        λ k e. walk_back-stops start k (sym at_start ∙ e),
        free,
      )
