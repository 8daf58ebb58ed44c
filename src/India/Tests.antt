-- ===== src/India/Tests.antt =====
-- Runs of the identifier detectors, and their theorems at them.
use zero_trace.Prelude.{
  ℕ, ◌≡◌, refl, Bool, true, false, some, List, [], ◌∷◌, ◌++◌, ◌&&◌, ◌||◌, ◌-◌, arith, leb, codes,
}
use zero_trace.India.Verhoeff.{verhoeff_ok}
use zero_trace.India.Errors.{verhoeff_ok-changed}
use zero_trace.India.Gstin.{gstin_ok}
use zero_trace.India.Chars.{Chars}
use zero_trace.India.Detectors.{
  Match, touching_alnum, aadhaar_valid, labelled, confirm_aadhaar, local_char, walk_back,
  confirm_upi,
}

abbrev digit : ℕ → Bool
digit c = leb b'0' c && leb c b'9'

-- The methods on ASCII text; the key pattern never matches.
abbrev ascii : Chars
ascii = record {
  is_alnum = λ c. digit c || ((leb b'A' c && leb c b'Z') || (leb b'a' c && leb c b'z'));
  is_digit = digit;
  digit_value = λ c. c - b'0';
  lower = λ t. t;
  key_re_search = λ t. false;
}

valid_aadhaar : verhoeff_ok (2 ∷ 3 ∷ 6 ∷ []) ≡ true
unfolding verhoeff_ok
valid_aadhaar = refl

verhoeff_ok-changed_example : ◌≡◌ {A = ℕ} 6 6
unfolding verhoeff_ok
verhoeff_ok-changed_example =
    verhoeff_ok-changed (2 ∷ 3 ∷ []) [] (omega arith) tt 6 6 (omega arith) (omega arith) refl refl

-- The example code of the GST portal's documentation.
abbrev gst_example : List ℕ
gst_example = codes "27AAPFU0939F1Z"

gst_is_valid : gstin_ok (gst_example ++ b'V' ∷ []) ≡ true
unfolding gstin_ok
gst_is_valid = refl

abbrev upi_text : List ℕ
upi_text = codes "to asha.k@ybl now"

abbrev upi_match : Match
upi_match = record { start = 3; end = 13; confidence = 93 }

upi_found : confirm_upi ascii upi_text 9 13 ≡ some upi_match
unfolding confirm_upi walk_back local_char
upi_found = refl

abbrev aadhaar_text : List ℕ
aadhaar_text = codes "my aadhaar is 1234 5678 9012"

abbrev aadhaar_match : Match
aadhaar_match = record { start = 14; end = 28; confidence = 82 }

aadhaar_found : confirm_aadhaar ascii aadhaar_text 14 28 ≡ some aadhaar_match
unfolding confirm_aadhaar touching_alnum aadhaar_valid labelled verhoeff_ok
aadhaar_found = refl
