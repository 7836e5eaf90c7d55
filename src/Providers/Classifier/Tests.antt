-- ===== src/Providers/Classifier/Tests.antt =====
-- Runs of pkg/providers/error_classifier.go on concrete errors.
use halfmoon.Base.{◌≡◌, refl, some}
use halfmoon.Base.Text.{codes, to_lower}
use halfmoon.Providers.Reason.{other, billing, FailoverError}
use halfmoon.Providers.Classifier.{
  classify_error, classify_text, matches_any, image_dimension_patterns, image_size_patterns,
  is_image_dimension_error, is_image_size_error, extract_http_status, classify_by_status,
}
use halfmoon.Providers.Classifier.Reasons.{IsAnswer, classify_error-IsAnswer}

abbrev unpaid : FailoverError
unpaid = record {
  reason = billing;
  provider = codes "openai";
  model = codes "gpt-5";
  status = 402;
  wrapped = other (codes "Status: 402");
}

unpaid-classified :
    classify_error (other (codes "Status: 402")) (codes "openai") (codes "gpt-5") ≡ some unpaid
unfolding classify_error classify_text to_lower is_image_dimension_error is_image_size_error
    extract_http_status classify_by_status matches_any image_dimension_patterns image_size_patterns
unpaid-classified = refl

classify_error-IsAnswer_example :
    IsAnswer (other (codes "Status: 402")) (codes "openai") (codes "gpt-5") unpaid
classify_error-IsAnswer_example =
    classify_error-IsAnswer (other (codes "Status: 402")) (codes "openai") (codes "gpt-5") unpaid
      unpaid-classified
