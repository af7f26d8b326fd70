-- ===== src/Compatibility/Examples.antt =====
-- Judgments under the policy of pg-tide-relay/schemas/lifecycle-compatibility-v1.json.
use pg_tide.Prelude.{◌≡◌, refl, some, none, List, [], ◌∷◌, inl, inr, Option}
use pg_tide.Prelude.Text.{Text, text, text_eq}
use pg_tide.Foreign.Samples.{sample}
use pg_tide.Source.Rows.{parse_unsigned}
use pg_tide.Errors.{Result, ok, err}
use pg_tide.Compatibility.{
  MatrixRow, Policy, CompatibilityDecision, PolicyRow, policy_row_of, parse_release,
  embedded_policy, evaluate, policy_rows, incompatible,
}
use pg_tide.Compatibility.Judgments.{
  IsReadable, IsJudgment, evaluate-IsJudgment, policy_rows-evaluate,
}

abbrev row : Text → Text → Text → MatrixRow
row extension relay status = record { extension = extension; relay = relay; status = status }

abbrev policy : Policy
policy = record {
  policy_version = text "v1";
  compatibility_error_code = text "PGTIDE_EXTENSION_VERSION_INCOMPATIBLE";
  minimum = text "0.53.0";
  maximum = text "0.54.0";
  matrix =
      row (text "0.51.0") (text "0.51.0") (text "supported")
      ∷ row (text "0.51.0") (text "0.52.0") (text "supported")
      ∷ row (text "0.52.0") (text "0.52.0") (text "supported")
      ∷ row (text "0.52.0") (text "0.53.0") (text "supported")
      ∷ row (text "0.53.0") (text "0.53.0") (text "supported")
      ∷ row (text "0.53.0") (text "0.54.0") (text "supported")
      ∷ row (text "0.54.0") (text "0.54.0") (text "supported")
      ∷ row (text "0.53.0") (text "0.52.0") (text "rejected")
      ∷ row (text "0.54.0") (text "0.53.0") (text "rejected")
      ∷ row (text "<0.53.0") (text "0.54.0") (text "rejected")
      ∷ row (text ">0.54.0") (text "0.54.0") (text "rejected")
      ∷ [];
}

abbrev decision : CompatibilityDecision
decision = record {
  relay_version = text "0.54.0";
  extension_version = text "0.53.0";
  policy_version = text "v1";
  compatibility_class = text "supported";
  supported_range = text "0.53.0..=0.54.0";
  next_action = text "Upgrade or restore pg_tide to 0.53.0 or 0.54.0, then restart pg-tide.";
}

abbrev judgment : Text → Option Text → Result sample CompatibilityDecision
judgment relay extension = evaluate policy relay extension

adjacent : judgment (text "0.54.0") (some (text "0.53.0")) ≡ ok decision
unfolding evaluate text_eq text parse_unsigned incompatible
adjacent = refl

leading_zero : parse_release (text "0.054.0") ≡ none
unfolding parse_release text parse_unsigned
leading_zero = refl

plus_sign : parse_release (text "0.+54.0") ≡ parse_release (text "0.54.0")
unfolding parse_release text parse_unsigned
plus_sign = refl

below_window :
    judgment (text "0.54.0") (some (text "0.52.0"))
    ≡ err (
        incompatible
          (text "0.54.0")
          (some (text "0.52.0"))
          (text "extension version is below the supported runtime window")
          policy)
unfolding evaluate text_eq text parse_unsigned incompatible
below_window = refl

above_window :
    judgment (text "0.54.0") (some (text "0.55.0"))
    ≡ err (
        incompatible
          (text "0.54.0")
          (some (text "0.55.0"))
          (text "extension version is newer than the supported runtime window")
          policy)
unfolding evaluate text_eq text parse_unsigned incompatible
above_window = refl

unlisted :
    judgment (text "0.53.0") (some (text "0.54.0"))
    ≡ err (
        incompatible
          (text "0.53.0")
          (some (text "0.54.0"))
          (text "relay and extension versions are not listed in the policy")
          policy)
unfolding evaluate text_eq text parse_unsigned incompatible
unlisted = refl

policy-IsReadable : IsReadable sample policy
unfolding embedded_policy parse_release text text_eq parse_unsigned
policy-IsReadable = record {
  is_accepted = refl;
  minimum = record { major = 0; minor = 53; patch = 0 };
  is_minimum = refl;
  maximum = record { major = 0; minor = 54; patch = 0 };
  is_maximum = refl;
}

evaluate-IsJudgment_example :
    IsJudgment policy
      (text "0.54.0")
      (some (text "0.53.0"))
      (judgment (text "0.54.0") (some (text "0.53.0")))
evaluate-IsJudgment_example =
    evaluate-IsJudgment policy (text "0.54.0") (some (text "0.53.0")) policy-IsReadable

abbrev listed : Text → Text → PolicyRow
listed extension relay = policy_row_of (row extension relay (text "supported"))

abbrev newest : PolicyRow
newest = listed (text "0.54.0") (text "0.54.0")

abbrev listed_rows : List PolicyRow
listed_rows =
    listed (text "0.51.0") (text "0.51.0")
    ∷ listed (text "0.51.0") (text "0.52.0")
    ∷ listed (text "0.52.0") (text "0.52.0")
    ∷ listed (text "0.52.0") (text "0.53.0")
    ∷ listed (text "0.53.0") (text "0.53.0")
    ∷ listed (text "0.53.0") (text "0.54.0")
    ∷ newest
    ∷ []

policy_lists :
    (let rows : Result sample (List PolicyRow) = policy_rows policy in rows ≡ ok listed_rows)
unfolding policy_rows text_eq text parse_unsigned
policy_lists = refl

policy_rows-evaluate_example :
    (d : CompatibilityDecision) × (judgment newest.relay_version (some newest.extension_version)
      ≡ ok d)
    × (d.compatibility_class ≡ text "supported")
policy_rows-evaluate_example =
    policy_rows-evaluate policy listed_rows newest policy-IsReadable policy_lists
      (inr (inr (inr (inr (inr (inr (inl refl)))))))
