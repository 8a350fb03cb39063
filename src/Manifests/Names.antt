-- ===== src/Manifests/Names.antt =====
-- Names and label values, of internal/pkg/manifests/options.go. The packages for validation, regular
-- expressions, texts and hashes are the fields of `Naming`.
-- Where Go would cut a text within a character, the character is left out here; an ASCII text has none
-- that a cut can split.
pub mod Bounds
use Prim.Native.Char.{Char}
use Prim.Native.String.{◌++◌, len, slice, [] as nil, ◌∷◌ as cons}
use Prim.Native.Nat.{min}
use thanos_operator.Common.{
  ℕ, ◌+◌, ◌-◌, ◌≤◌, String, Bool, true, false, not, ◌&&◌, ◌||◌, ◌==◌, List, [], ◌∷◌, ltb,
  if◌then◌else◌, ◌≡◌, ◌⊎◌, refl, inl, inr, Bool-cases, arith, ◌∙◌, ap, sym,
}

pub record Naming : Type 0 where
  -- What is wrong with a text, as a DNS-1123 subdomain and as a label value.
  pub is_dns1123_subdomain : String → List String
  pub is_valid_label_value : String → List String
  pub dns1123_label_max_length : ℕ
  -- Whether the regular expression matches the character.
  pub is_alpha_numeric : Char → Bool
  pub to_lower : String → String
  -- The hexadecimal digits of the SHA-256 sum.
  pub sha256_hex : String → String
  pub decimal : ℕ → String

abbrev pub hash_suffix_length : ℕ
hash_suffix_length = 16

-- `strings.Replace(value, old, new, -1)` for an `old` of one character.
unfoldable pub replace_all : String → String → String → String
replace_all old new nil = ""
replace_all old new (cons c s) =
    if cons c nil == old then new ++ replace_all old new s else cons c (replace_all old new s)

unfoldable pub trim_left : (Char → Bool) → String → String
trim_left drop nil = ""
trim_left drop (cons c s) = if drop c then trim_left drop s else cons c s

unfoldable pub trim_right : (Char → Bool) → String → String
trim_right drop nil = ""
trim_right drop (cons c s) =
    let rest = trim_right drop s in if drop c && rest == "" then "" else cons c rest

module _ (naming : Naming) where
  unfoldable pub ensure_alpha_numeric_trailing_chars : String → String
  unfolding trim_left trim_right
  ensure_alpha_numeric_trailing_chars s =
      trim_right (λ c. not (naming.is_alpha_numeric c))
        (trim_left (λ c. not (naming.is_alpha_numeric c)) s)

  -- The sum has 32 bytes.
  unfoldable pub hash_string : String → ℕ → String
  hash_string s length = slice (naming.sha256_hex s) 0 (min 32 length)

  unfoldable pub replace_special : String → String
  unfolding replace_all
  replace_special value = replace_all "'" "" (
      replace_all "\"" "" (
        replace_all "\n" "" (
          replace_all " " "-" (
            replace_all "_" "-" (
              replace_all ":" "-" (
                replace_all "]" "" (
                  replace_all "[" ""
                    (replace_all "." "-" (replace_all "/" "-" (replace_all "*" "-" value))))))))))

  unfoldable pub shorten : ℕ → String → String
  unfolding hash_string
  shorten length value =
      if ltb length (len value)
      then if ltb hash_suffix_length length
        then slice value 0 (length - hash_suffix_length - 1)
          ++ "-"
          ++ hash_string value hash_suffix_length
        else slice value 0 length
      else value

  unfoldable pub sanitize_to_length : String → ℕ → String
  unfolding replace_special shorten
  sanitize_to_length value length =
      naming.to_lower (replace_all "." "-" (shorten length (replace_special value)))

  unfoldable pub unless_valid : List String → String → String
  unfolding sanitize_to_length ensure_alpha_numeric_trailing_chars
  unless_valid [] name = name
  unless_valid (e ∷ errors) name =
      sanitize_to_length (ensure_alpha_numeric_trailing_chars name) naming.dns1123_label_max_length

  unfoldable pub validate_and_sanitize_resource_name : String → String
  unfolding unless_valid
  validate_and_sanitize_resource_name name = unless_valid (naming.is_dns1123_subdomain name) name

  unfoldable pub validate_and_sanitize_name_to_valid_label_value : String → String
  unfolding unless_valid
  validate_and_sanitize_name_to_valid_label_value value =
      unless_valid (naming.is_valid_label_value value) value

  unfoldable pub sanitize_name : String → String
  unfolding replace_all hash_string
  sanitize_name name =
      let clean = replace_all "_" "-" (replace_all "." "-" name) in
      let hash = hash_string clean hash_suffix_length in
      if ltb naming.dns1123_label_max_length (len clean)
      then slice clean 0 (naming.dns1123_label_max_length - len hash - 1) ++ "-" ++ hash
      else clean
