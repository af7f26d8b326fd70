-- ===== src/Compatibility.antt =====
-- pg-tide-relay/src/compatibility.rs: which versions of the extension a relay works with. The policy
-- is the parsed file pg-tide-relay/schemas/lifecycle-compatibility-v1.json, an argument.
pub mod Judgments
mod Search
mod Examples
use pg_tide.Prelude.{
  ℕ, Bool, true, false, not, Option, none, some, List, [], ◌∷◌, ◌++◌, map, ◌||◌, ◌&&◌, ◌==◌, ltb,
  leb, any, find, filter, take, if◌then◌else◌, unwrap_or, and_then, is_empty, length, is_some,
}
use pg_tide.Prelude.Text.{Text, text, text_eq}
use pg_tide.Foreign.{Foreign}
use pg_tide.Errors.{
  RelayError, config, incompatible_extension_version, IncompatibleExtensionVersion, Result, ok, err,
  ◌>>=◌, ◌>>◌,
}
use pg_tide.Source.Rows.{parse_unsigned}

pub record MatrixRow : Type 0 where
  pub extension : Text
  pub relay : Text
  pub status : Text

-- `EmbeddedPolicy` with its `RelayWindow`.
pub record Policy : Type 0 where
  pub policy_version : Text
  pub compatibility_error_code : Text
  pub minimum : Text
  pub maximum : Text
  pub matrix : List MatrixRow

pub record CompatibilityDecision : Type 0 where
  pub relay_version : Text
  pub extension_version : Text
  pub policy_version : Text
  pub compatibility_class : Text
  pub supported_range : Text
  pub next_action : Text

pub record Version : Type 0 where
  pub major : ℕ
  pub minor : ℕ
  pub patch : ℕ

-- The derived `==` and `<`.
abbrev pub version_eq : Version → Version → Bool
version_eq a b = a.major == b.major && a.minor == b.minor && a.patch == b.patch

abbrev pub version_lt : Version → Version → Bool
version_lt a b =
    ltb a.major b.major
    || a.major == b.major && (ltb a.minor b.minor || a.minor == b.minor && ltb a.patch b.patch)

-- `str::split('.')`, which always has a first part.
abbrev pub with_char : ℕ → List Text → List Text
with_char c [] = (c ∷ []) ∷ []
with_char c (part ∷ parts) = (c ∷ part) ∷ parts

unfoldable pub split_dots : Text → List Text
split_dots [] = [] ∷ []
split_dots (c ∷ s) = let rest = split_dots s in if c == 46 then [] ∷ rest else with_char c rest

abbrev pub in_u32 : ℕ → Option ℕ
in_u32 n = if ltb n 4294967296 then some n else none

-- `str::parse::<u32>`, which takes a plus sign.
unfoldable pub parse_u32 : Text → Option ℕ
parse_u32 [] = none
parse_u32 (c ∷ s) = and_then (if c == 43 then parse_unsigned s else parse_unsigned (c ∷ s)) in_u32

-- A part that is empty, or longer than a zero that it starts with.
abbrev pub is_bad_part : Text → Bool
is_bad_part [] = true
is_bad_part (c ∷ []) = false
is_bad_part (c ∷ d ∷ s) = c == 48

abbrev pub version_of : Text → Text → Text → Option Version
version_of a b c = and_then (parse_u32 a) (λ major. and_then (parse_u32 b) (λ minor.
    and_then (parse_u32 c)
      (λ patch. some (record { major = major; minor = minor; patch = patch }))))

unfoldable pub parse_parts : List Text → Option Version
unfolding parse_u32
parse_parts (a ∷ b ∷ c ∷ []) =
    if is_bad_part a || is_bad_part b || is_bad_part c then none else version_of a b c
parse_parts _ = none

unfoldable pub parse_release : Text → Option Version
unfolding split_dots parse_parts
parse_release value = parse_parts (split_dots value)

-- `char::is_control`.
abbrev pub is_control : ℕ → Bool
is_control c = ltb c 32 || leb 127 c && leb c 159

unfoldable pub bounded_version : Option Text → Text
bounded_version value =
    map (λ c. if is_control c then 63 else c) (take 64 (unwrap_or value (text "<missing>")))

unfoldable pub supported_range_of : Policy → Text
supported_range_of policy = policy.minimum ++ text "..=" ++ policy.maximum

unfoldable pub next_action_of : Policy → Text
next_action_of policy =
    text "Upgrade or restore pg_tide to "
    ++ policy.minimum
    ++ text " or "
    ++ policy.maximum
    ++ text ", then restart pg-tide."

abbrev pub is_supported : MatrixRow → Bool
is_supported row = text_eq row.status (text "supported")

pub record PolicyRow : Type 0 where
  pub extension_version : Text
  pub relay_version : Text
  pub compatibility_class : Text

abbrev pub policy_row_of : MatrixRow → PolicyRow
policy_row_of row = record {
  extension_version = row.extension;
  relay_version = row.relay;
  compatibility_class = row.status;
}

-- A supported row whose versions can be read.
unfoldable pub is_listed : MatrixRow → Bool
unfolding parse_release
is_listed row =
    is_supported row && is_some (parse_release row.extension) && is_some (parse_release row.relay)

abbrev pub is_version : Option Version → Version → Bool
is_version none v = false
is_version (some u) v = version_eq u v

-- The row of the matrix for two versions.
unfoldable pub is_row_of : Version → Version → MatrixRow → Bool
unfolding parse_release
is_row_of relay extension row =
    is_version (parse_release row.relay) relay && is_version (parse_release row.extension) extension

abbrev pub or_malformed {ℓ} : {A : Type ℓ} {F : Foreign} → Option A → RelayError F → Result F A
or_malformed none e = err e
or_malformed (some a) e = ok a

module _ {F : Foreign} where
  unfoldable pub incompatible : Text → Option Text → Text → Policy → RelayError F
  unfolding bounded_version supported_range_of next_action_of
  incompatible relay_version extension_version reason policy =
      incompatible_extension_version (record {
        installed_version = bounded_version extension_version;
        relay_version = bounded_version (some relay_version);
        policy_version = policy.policy_version;
        compatibility_class = text "incompatible";
        supported_range = supported_range_of policy;
        next_action = next_action_of policy;
        reason = reason;
      })

  unfoldable pub embedded_policy : Policy → Result F (Unit {0})
  embedded_policy policy =
      if text_eq policy.compatibility_error_code (text "PGTIDE_EXTENSION_VERSION_INCOMPATIBLE")
      then ok tt
      else err
          (config (text "embedded lifecycle policy has an unexpected compatibility error code"))

  unfoldable pub decide :
      Policy
      → Text
      → Text
      → Version
      → Version
      → Version
      → Option MatrixRow
      → Result F CompatibilityDecision
  unfolding incompatible supported_range_of next_action_of
  decide policy relay_version extension_version minimum maximum extension (some row) = ok (record {
    relay_version = row.relay;
    extension_version = row.extension;
    policy_version = policy.policy_version;
    compatibility_class = row.status;
    supported_range = supported_range_of policy;
    next_action = next_action_of policy;
  })
  decide policy relay_version extension_version minimum maximum extension none = err (
      incompatible relay_version (some extension_version)
        (if version_lt extension minimum
          then text "extension version is below the supported runtime window"
          else if version_lt maximum extension
          then text "extension version is newer than the supported runtime window"
          else text "relay and extension versions are not listed in the policy")
        policy)

  unfoldable pub evaluate : Policy → Text → Option Text → Result F CompatibilityDecision
  unfolding embedded_policy parse_release is_row_of decide incompatible
  evaluate policy relay_version extension_version = do
    embedded_policy policy
    minimum ←
        or_malformed (parse_release policy.minimum)
          (config (text "embedded lifecycle policy has a malformed minimum version"))
    maximum ←
        or_malformed (parse_release policy.maximum)
          (config (text "embedded lifecycle policy has a malformed maximum version"))
    relay ←
        or_malformed (parse_release relay_version)
          (incompatible relay_version extension_version (text "malformed relay version") policy)
    extension_value ←
        or_malformed extension_version
          (incompatible relay_version none (text "pg_tide is missing from pg_extension") policy)
    extension ← or_malformed (parse_release extension_value) (
        incompatible relay_version (some extension_value) (text "malformed extension version")
          policy)
    decide policy relay_version extension_value minimum maximum extension
        (find (is_row_of relay extension) (filter is_supported policy.matrix))

  unfoldable pub policy_rows : Policy → Result F (List PolicyRow)
  unfolding embedded_policy is_listed
  policy_rows policy = do
    embedded_policy policy
    ok (map policy_row_of (filter is_listed policy.matrix))
