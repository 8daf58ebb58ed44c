-- ===== src/India/Detectors.antt =====
-- The `confirm` methods of gateway/detectors/india_id.py over a text of code points, at the offsets
-- that a candidate pattern or an anchor produced: 0 ≤ start ≤ end ≤ len(text).
use zero_trace.Prelude.{
  ℕ, zero, suc, ◌+◌, ◌-◌, Bool, true, false, not, ◌&&◌, ◌||◌, Option, none, some, List, [], ◌∷◌,
  map, ◌==◌, ltb, length, get_or, slice, is_nonempty, codes, is_infix, keep, mem, if◌then◌else◌,
}
use zero_trace.India.Verhoeff.{verhoeff_ok}
use zero_trace.India.Gstin.{gstin_ok}
use zero_trace.India.Chars.{Chars}

-- `Match` of gateway/base/detector.py; the confidence is in hundredths.
pub record Match : Type 0 where
  pub start : ℕ
  pub end : ℕ
  pub confidence : ℕ

abbrev match : ℕ → ℕ → ℕ → Match
match s e c = record { start = s; end = e; confidence = c }

module _ (ch : Chars) (text : List ℕ) where
  open ch use {is_alnum, is_digit, digit_value, lower, key_re_search}

  abbrev pub token_char : ℕ → Bool
  token_char c = is_alnum c || c == b'_'

  unfoldable pub touching_alnum : ℕ → ℕ → Bool
  touching_alnum start end =
      if ltb 0 start && token_char (get_or text (start - 1) 0)
      then true
      else ltb end (length text) && token_char (get_or text end 0)

  -- The digits of the candidate.
  abbrev pub digits_in : ℕ → ℕ → List ℕ
  digits_in start end = keep is_digit (slice text start end)

  abbrev labels : List (List ℕ)
  labels = codes "aadhaar" ∷ codes "aadhar" ∷ codes "adhaar" ∷ codes "uidai" ∷ codes "आधार" ∷ []

  any_infix : List (List ℕ) → List ℕ → Bool
  any_infix [] before = false
  any_infix (l ∷ ls) before = is_infix l before || any_infix ls before

  -- First digit 2 to 9, and the checksum holds.
  unfoldable pub aadhaar_valid : List ℕ → Bool
  aadhaar_valid digits =
      not (mem (get_or digits 0 0) (b'0' ∷ b'1' ∷ [])) && verhoeff_ok (map digit_value digits)

  unfoldable pub labelled : ℕ → Bool
  unfolding any_infix
  labelled start = any_infix labels (lower (slice text (start - 48) start))

  unfoldable pub keyed : ℕ → Bool
  keyed start = key_re_search (slice text (start - 24) start)

  -- `AadhaarDetector.confirm`
  unfoldable pub confirm_aadhaar : ℕ → ℕ → Option Match
  confirm_aadhaar start end =
      if not (length (digits_in start end) == 12) || touching_alnum start end
      then none
      else if aadhaar_valid (digits_in start end)
      then some (match start end 97)
      else if labelled start
      then some (match start end 82)
      else if keyed start
      then some (match start end 78)
      else none

  -- `_PAN_HOLDER_TYPES`
  abbrev holder_types : List ℕ
  holder_types = codes "ABCFGHLJPTK"

  -- `GSTINDetector.confirm`
  unfoldable pub confirm_gstin : ℕ → ℕ → Option Match
  confirm_gstin start end =
      let value = slice text start end in
      if not (mem (get_or value 5 0) holder_types)
      then none
      else if not (gstin_ok value)
      then none
      else if touching_alnum start end
      then none
      else some (match start end 97)

  -- `len(set(cs)) == 1`
  abbrev pub all_same : List ℕ → Bool
  all_same [] = false
  all_same (c ∷ cs) = not (is_nonempty (keep (λ x. not (x == c)) cs))

  -- `IFSCDetector.confirm`
  unfoldable pub confirm_ifsc : ℕ → ℕ → Option Match
  confirm_ifsc start end =
      if touching_alnum start end
      then none
      else if all_same (slice text (start + 5) end)
      then none
      else some (match start end 90)

  -- `VoterIDDetector.confirm`
  unfoldable pub confirm_voter : ℕ → ℕ → Option Match
  confirm_voter start end = if touching_alnum start end then none else some (match start end 72)

  -- A character of a UPI address: `isalnum()` or one of "._-".
  unfoldable pub local_char : ℕ → Bool
  local_char c = is_alnum c || mem c (b'.' ∷ b'_' ∷ b'-' ∷ [])

  -- The loop that walks back over the local part.
  unfoldable pub walk_back : ℕ → ℕ
  walk_back zero = zero
  walk_back (suc i) = if local_char (get_or text i 0) then walk_back i else suc i

  -- `UPIVPADetector.confirm`
  unfoldable pub confirm_upi : ℕ → ℕ → Option Match
  confirm_upi start end =
      let i = walk_back start in
      if ltb (start - i) 3
      then none
      else if ltb end (length text) && local_char (get_or text end 0)
      then none
      else some (match i end 93)
