-- ===== src/Remotes/Naming.antt =====
-- `setServiceType` and `stripServiceFromIdent` of src/service/remote_manager.cpp.
use mathlib.Core.Path.{ap₂}
use winpinator.Prelude.{
  ℕ, zero, suc, ◌+◌, ◌-◌, ◌<◌, ◌≤◌, ◌≡◌, refl, ap, ◌∙◌, inl, inr, ◌⊎◌, true, [], ◌∷◌, ◌++◌, Text,
  text_eq, text_eq_iff, text_eq_refl, length, take, drop, length-append, arith, leb, ◌==◌, ◌&&◌,
  Bool-cases, if◌then◌else◌, take-append_self,
}

-- The last character, if there is one.
last_char : Text → ℕ
last_char [] = 0
last_char (c ∷ []) = c
last_char (c ∷ d ∷ ds) = last_char (d ∷ ds)

-- `setServiceType`. On an empty type the code reads the character before the text.
unfoldable pub set_service_type : Text → Text
unfolding last_char
set_service_type service_type =
    if last_char service_type == b'.' then service_type else service_type ++ b'.' ∷ []

-- The character at an index; the code reads within the text.
unfoldable pub char_at : Text → ℕ → ℕ
char_at [] i = 0
char_at (c ∷ cs) zero = c
char_at (c ∷ cs) (suc i) = char_at cs i

unfoldable pub strip_service_from_ident : Text → Text → Text
unfolding char_at
strip_service_from_ident srv_type ident =
    let sub_offset = length ident - length srv_type in
    if leb (length ident) (length srv_type)
    then ident
    else if text_eq (drop sub_offset ident) srv_type && char_at ident (sub_offset - 1) == b'.'
    then take (sub_offset - 1) ident
    else ident

char_at_append : (xs ys : Text) (c : ℕ) → char_at (xs ++ c ∷ ys) (length xs) ≡ c
unfolding char_at
char_at_append [] ys c = refl
char_at_append (x ∷ xs) ys c = char_at_append xs ys c

drop-suc-append : (xs ys : Text) (c : ℕ) → drop (suc (length xs)) (xs ++ c ∷ ys) ≡ ys
drop-suc-append [] ys c = refl
drop-suc-append (x ∷ xs) ys c = drop-suc-append xs ys c

-- A full service name loses its service type and the dot before it.
pub strip_service-append :
    (srv_type host : Text) → strip_service_from_ident srv_type (host ++ b'.' ∷ srv_type) ≡ host
unfolding strip_service_from_ident
strip_service-append srv_type host =
    let full = host ++ b'.' ∷ srv_type in
    let len : length full ≡ length host + suc (length srv_type) =
      length-append host (b'.' ∷ srv_type) in
    let offset : length full - length srv_type ≡ suc (length host) = omega arith in
    let before : suc (length host) - 1 ≡ length host = omega arith in
    rw offset (
      rw
        (
          before,
          drop-suc-append host srv_type b'.',
          text_eq_refl srv_type,
          char_at_append host srv_type b'.',
          take-append_self host (b'.' ∷ srv_type),
        )
        (ground (arith, len)))

split_at : (i : ℕ) (xs : Text) → i < length xs → xs ≡ take i xs ++ char_at xs i ∷ drop (suc i) xs
unfolding char_at
split_at i [] h = elim h [ ]
split_at zero (x ∷ xs) h = refl
split_at (suc i) (x ∷ xs) h = ap (◌∷◌ x) (split_at i xs (omega arith))

-- A test that the cut at an offset passes makes the name that prefix, a dot and the type.
cut_lem :
    (srv_type ident : Text) (offset : ℕ)
    → 0 < offset
    → offset ≤ length ident
    → text_eq (drop offset ident) srv_type && char_at ident (offset - 1) == b'.' ≡ true
    → ident ≡ take (offset - 1) ident ++ b'.' ∷ srv_type
cut_lem srv_type ident zero pos fits h = absurd (omega arith)
cut_lem srv_type ident (suc i) pos fits h =
    let before : suc i - 1 ≡ i = omega arith in
    let test : text_eq (drop (suc i) ident) srv_type && char_at ident i == b'.' ≡ true =
      rw before at h in
    let rest : drop (suc i) ident ≡ srv_type = (text_eq_iff _ _).0 (ground arith) in
    let dot : char_at ident i ≡ b'.' = ground arith in
    rw before (split_at i ident (omega arith) ∙ ap₂ (λ c t. take i ident ++ c ∷ t) dot rest)

-- Conversely, a name is changed only by cutting a dot and the service type off its end.
pub strip_service_cases :
    (srv_type ident : Text)
    → (strip_service_from_ident srv_type ident ≡ ident)
      ⊎ (ident ≡ strip_service_from_ident srv_type ident ++ b'.' ∷ srv_type)
unfolding strip_service_from_ident
strip_service_cases srv_type ident = elim (Bool-cases (leb (length ident) (length srv_type))) [
  | inl short ↦ rw short (inl refl)
  | inr long ↦
      let offset = length ident - length srv_type in
      elim (Bool-cases
        (text_eq (drop offset ident) srv_type && char_at ident (offset - 1) == b'.')) [
          | inl hit ↦
              rw (long, hit) (inr (cut_lem srv_type ident offset (ground arith) (omega arith) hit))
          | inr miss ↦ rw (long, miss) (inl refl)
        ]
]
