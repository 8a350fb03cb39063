-- ===== src/Manifests/Names/Bounds.antt =====
-- The lengths of sanitized names.
use Prim.Native.Char.{Char, len_utf8}
use Prim.Native.Nat.{min, compare, Ordering}
use Prim.Native.String.{◌++◌, len, slice, fits, [] as nil, ◌∷◌ as cons}
use Prim.Native.String.append
use Prim.Native.String.slice
use Prim.Native.String.len
use text.Mathlib.TextPositions.{len-append}
use thanos_operator.Common.{
  Bool, not, ◌&&◌, ℕ, ◌+◌, ◌-◌, ◌≤◌, ◌<◌, String, ◌==◌, List, [], ◌∷◌, ltb, ◌≡◌, ◌⊎◌, refl, inl,
  inr, Bool-cases, arith, ◌∙◌, ap, sym, ==-eq,
}
use thanos_operator.Manifests.Names.{
  Naming, trim_left, trim_right, hash_suffix_length, replace_all, hash_string, shorten,
  ensure_alpha_numeric_trailing_chars, sanitize_to_length, unless_valid,
  validate_and_sanitize_resource_name, validate_and_sanitize_name_to_valid_label_value,
  replace_special,
}

fits-cases :
    (a b : ℕ) (c : Char) (s : String)
    → ((fits (compare a b) c s ≡ cons c s) × (a ≤ b)) ⊎ (fits (compare a b) c s ≡ nil)
fits-cases a b c s = by_order (compare a b) refl
  where
    by_order :
        (o : Ordering)
        → compare a b ≡ o
        → ((fits (compare a b) c s ≡ cons c s) × (a ≤ b)) ⊎ (fits (compare a b) c s ≡ nil)
    by_order Ordering.lt e = inl (rw e refl, ground arith)
    by_order Ordering.eq e = inl (rw e refl, ground arith)
    by_order Ordering.gt e = inr (rw e refl)

len-fits :
    (c : Char) (s : String) (n : ℕ)
    → len s ≤ n - len_utf8 c
    → len (fits (compare (len_utf8 c) n) c s) ≤ n
len-fits c s n h = elim (fits-cases (len_utf8 c) n c s) [
  | inl (e, le) ↦ rw (e, len.cons c s) (omega arith)
  | inr e ↦ rw (e, len.nil) (omega arith)
]

len-slice : (s : String) (n : ℕ) → len (slice s 0 n) ≤ n
len-slice nil n = rw (slice.nil 0 n) (omega arith)
len-slice (cons c s) n =
    rw (slice.cons-zero c s n)
      (len-fits c (slice s 0 (n - len_utf8 c)) n (len-slice s (n - len_utf8 c)))

len-replace_all : (old new s : String) → len new ≤ len old → len (replace_all old new s) ≤ len s
unfolding replace_all
len-replace_all old new nil h = omega arith
len-replace_all old new (cons c s) h = elim (Bool-cases (cons c nil == old)) [
  | inl e ↦
      let same : len_utf8 c + 0 ≡ len old =
        sym (len.cons c nil) ∙ ap len (==-eq (cons c nil) old e) in
      rw (e, len-append new (replace_all old new s), len.cons c s)
        (omega (arith, len-replace_all old new s h))
  | inr e ↦
      rw (e, len.cons c (replace_all old new s), len.cons c s)
        (omega (arith, len-replace_all old new s h))
]

len-hash_string : (naming : Naming) (s : String) (n : ℕ) → len (hash_string naming s n) ≤ n
unfolding hash_string
len-hash_string naming s n = omega (arith, len-slice (naming.sha256_hex s) (min 32 n))

len-dash : len "-" ≡ 1
len-dash = refl

len-cut :
    (front back : String) (n m : ℕ)
    → len front ≤ n
    → len back ≤ m
    → len (front ++ "-" ++ back) ≤ n + 1 + m
len-cut front back n m f b =
    rw (len-append front ("-" ++ back), len-append "-" back, len-dash) (omega arith)

len-shorten : (naming : Naming) (n : ℕ) (value : String) → len (shorten naming n value) ≤ n
unfolding shorten
len-shorten naming n value = elim (Bool-cases (ltb n (len value))) [
  | inl long ↦ elim (Bool-cases (ltb hash_suffix_length n)) [
    | inl e ↦
        rw (long, e)
          (let room : hash_suffix_length < n = ground arith in
            omega (
              arith,
              len-cut (slice value 0 (n - hash_suffix_length - 1))
                  (hash_string naming value hash_suffix_length) (n - hash_suffix_length - 1)
                  hash_suffix_length (len-slice value (n - hash_suffix_length - 1))
                  (len-hash_string naming value hash_suffix_length),
            ))
    | inr e ↦ rw (long, e) (len-slice value n)
  ]
  | inr short ↦ rw short (ground arith)
]

-- All characters take one byte, so that no cut splits one.
abbrev pub IsAscii : String → Type 0
IsAscii nil = Unit
IsAscii (cons c s) = (len_utf8 c ≡ 1) × IsAscii s

append-IsAscii : (s t : String) → IsAscii s → IsAscii t → IsAscii (s ++ t)
append-IsAscii nil t hs ht = rw (append.nil t) ht
append-IsAscii (cons c s) t hs ht = rw (append.cons c s t) (hs.0, append-IsAscii s t hs.1 ht)

replace_all-IsAscii :
    (old new s : String) → IsAscii new → IsAscii s → IsAscii (replace_all old new s)
unfolding replace_all
replace_all-IsAscii old new nil hn hs = tt
replace_all-IsAscii old new (cons c s) hn hs = elim (Bool-cases (cons c nil == old)) [
  | inl e ↦
      rw e (append-IsAscii new (replace_all old new s) hn (replace_all-IsAscii old new s hn hs.1))
  | inr e ↦ rw e (hs.0, replace_all-IsAscii old new s hn hs.1)
]

fits-IsAscii :
    (c : Char) (s : String) (n : ℕ)
    → len_utf8 c ≡ 1
    → IsAscii s
    → IsAscii (fits (compare (len_utf8 c) n) c s)
fits-IsAscii c s n hc hs = elim (fits-cases (len_utf8 c) n c s) [
  | inl (e, le) ↦ rw e (hc, hs)
  | inr e ↦ rw e tt
]

slice-IsAscii : (s : String) (n : ℕ) → IsAscii s → IsAscii (slice s 0 n)
slice-IsAscii nil n h = rw (slice.nil 0 n) tt
slice-IsAscii (cons c s) n h =
    rw (slice.cons-zero c s n)
      (fits-IsAscii c (slice s 0 (n - len_utf8 c)) n h.0 (slice-IsAscii s (n - len_utf8 c) h.1))

trim_left-IsAscii : (drop : Char → Bool) (s : String) → IsAscii s → IsAscii (trim_left drop s)
unfolding trim_left
trim_left-IsAscii drop nil h = tt
trim_left-IsAscii drop (cons c s) h = elim (Bool-cases (drop c)) [
  | inl e ↦ rw e (trim_left-IsAscii drop s h.1)
  | inr e ↦ rw e h
]

trim_right-IsAscii : (drop : Char → Bool) (s : String) → IsAscii s → IsAscii (trim_right drop s)
unfolding trim_right
trim_right-IsAscii drop nil h = tt
trim_right-IsAscii drop (cons c s) h = elim (Bool-cases (drop c && trim_right drop s == "")) [
  | inl e ↦ rw e tt
  | inr e ↦ rw e (h.0, trim_right-IsAscii drop s h.1)
]

-- What the steps before the lower case make of an ASCII text is ASCII, if the digits of a sum are.
module _ (naming : Naming) (hex : (s : String) → IsAscii (naming.sha256_hex s)) where
  dash-IsAscii : IsAscii "-"
  dash-IsAscii = (refl, tt)

  ensure-IsAscii : (s : String) → IsAscii s → IsAscii (ensure_alpha_numeric_trailing_chars naming s)
  unfolding ensure_alpha_numeric_trailing_chars
  ensure-IsAscii s h =
      trim_right-IsAscii _ _ (trim_left-IsAscii (λ c. not (naming.is_alpha_numeric c)) s h)

  special-IsAscii : (s : String) → IsAscii s → IsAscii (replace_special naming s)
  unfolding replace_special
  special-IsAscii s h =
      let d = dash-IsAscii in
      replace_all-IsAscii _ _ _ tt (
        replace_all-IsAscii _ _ _ tt (
          replace_all-IsAscii _ _ _ tt (
            replace_all-IsAscii _ _ _ d (
              replace_all-IsAscii _ _ _ d (
                replace_all-IsAscii _ _ _ d (
                  replace_all-IsAscii _ _ _ tt (
                    replace_all-IsAscii _ _ _ tt (
                      replace_all-IsAscii _ _ _ d
                        (replace_all-IsAscii _ _ _ d (replace_all-IsAscii _ _ s d h))))))))))

  shorten-IsAscii : (n : ℕ) (value : String) → IsAscii value → IsAscii (shorten naming n value)
  unfolding shorten hash_string
  shorten-IsAscii n value h = elim (Bool-cases (ltb n (len value))) [
    | inl long ↦ elim (Bool-cases (ltb hash_suffix_length n)) [
      | inl e ↦
          rw (long, e)
            (append-IsAscii (slice value 0 (n - hash_suffix_length - 1)) _
              (slice-IsAscii value (n - hash_suffix_length - 1) h)
              (append-IsAscii "-" _ dash-IsAscii
                (slice-IsAscii (naming.sha256_hex value) (min 32 hash_suffix_length) (hex value))))
      | inr e ↦ rw (long, e) (slice-IsAscii value n h)
    ]
    | inr short ↦ rw short h
  ]

len-sanitize_to_length :
    (naming : Naming) (value : String) (n : ℕ)
    → ((s : String) → IsAscii (naming.sha256_hex s))
    → ((s : String) → IsAscii s → len (naming.to_lower s) ≤ len s)
    → IsAscii value
    → len (sanitize_to_length naming value n) ≤ n
unfolding sanitize_to_length
len-sanitize_to_length naming value n hex lower ascii =
    let short : String = shorten naming n (replace_special naming value) in
    omega (
      arith,
      lower (replace_all "." "-" short) (
          replace_all-IsAscii "." "-" short (dash-IsAscii naming hex) (
            shorten-IsAscii naming hex n (replace_special naming value)
              (special-IsAscii naming hex value ascii))),
      len-replace_all "." "-" short (omega arith),
      len-shorten naming n (replace_special naming value),
    )

unless_valid-cases :
    (naming : Naming) (name : String) (errors : List String)
    → ((s : String) → IsAscii (naming.sha256_hex s))
    → ((s : String) → IsAscii s → len (naming.to_lower s) ≤ len s)
    → IsAscii name
    → ((unless_valid naming errors name ≡ name) × (errors ≡ []))
      ⊎ (len (unless_valid naming errors name) ≤ naming.dns1123_label_max_length)
unfolding unless_valid
unless_valid-cases naming name [] hex lower ascii = inl (refl, refl)
unless_valid-cases naming name (e ∷ errors) hex lower ascii = inr (
    len-sanitize_to_length naming (ensure_alpha_numeric_trailing_chars naming name)
      naming.dns1123_label_max_length hex lower (ensure-IsAscii naming hex name ascii))

-- For an ASCII text, the name that is made for a resource and the value that is made for a label are
-- the given text if that is valid, and else no longer than a label may be; where an ASCII text does not get
-- longer when it is written in lower case, and the digits of a sum are ASCII.
pub validate_and_sanitize-bound :
    (naming : Naming) (name : String)
    → ((s : String) → IsAscii (naming.sha256_hex s))
    → ((s : String) → IsAscii s → len (naming.to_lower s) ≤ len s)
    → IsAscii name
    → (((validate_and_sanitize_resource_name naming name ≡ name)
          × (naming.is_dns1123_subdomain name ≡ []))
        ⊎ (len (validate_and_sanitize_resource_name naming name) ≤ naming.dns1123_label_max_length))
      × (((validate_and_sanitize_name_to_valid_label_value naming name ≡ name)
            × (naming.is_valid_label_value name ≡ []))
          ⊎ (len (validate_and_sanitize_name_to_valid_label_value naming name)
              ≤ naming.dns1123_label_max_length))
unfolding validate_and_sanitize_resource_name validate_and_sanitize_name_to_valid_label_value
validate_and_sanitize-bound naming name hex lower ascii = (
  unless_valid-cases naming name (naming.is_dns1123_subdomain name) hex lower ascii,
  unless_valid-cases naming name (naming.is_valid_label_value name) hex lower ascii,
)
