-- ===== src/Sender/Executable.antt =====
-- `isFileExecutable` of src/service/file_sender.cpp, with `rfind` of the C++ library and its `npos`
-- on 64-bit sizes.
use winpinator.Prelude.{
  ℕ, ◌+◌, ◌-◌, ◌%◌, ◌^◌, ◌<◌, ◌≡◌, ◌↔◌, ◌⊎◌, inl, inr, refl, sym, ap, ◌∙◌, Bool, true, false, ◌&&◌,
  ◌||◌, [], ◌∷◌, ◌++◌, Text, codes, Option, none, some, ◌==◌, ==_iff, if◌then◌else◌, length,
  length-append, arith, ◌≢◌, Option-cases, Bool-cases,
}
use mathlib.Core.List.{append-nil}
use winpinator.Permissions.{check_elf_header}

unfoldable pub is_prefix : Text → Text → Bool
is_prefix [] ys = true
is_prefix (x ∷ xs) [] = false
is_prefix (x ∷ xs) (y ∷ ys) = (x == y) && is_prefix xs ys

-- The last place at which a text occurs.
unfoldable pub last_place : Text → Text → Option ℕ
unfolding is_prefix
last_place e [] = if is_prefix e [] then some 0 else none
last_place e (x ∷ xs) = elim (last_place e xs) [
  | some i ↦ some (i + 1)
  | none ↦ if is_prefix e (x ∷ xs) then some 0 else none
]

abbrev pub npos : ℕ
npos = 2 ^ 64 - 1

unfoldable pub rfind : Text → Text → ℕ
unfolding last_place
rfind e path = elim (last_place e path) [ none ↦ npos | some i ↦ i ]

-- One round of the loop, with the difference of the sizes modulo 2 ^ 64.
unfoldable pub has_extension : Text → Text → Bool
unfolding rfind
has_extension e path = rfind e path == (length path + 2 ^ 64 - length e) % 2 ^ 64

unfoldable pub is_file_executable : Text → Text → Bool
unfolding has_extension
is_file_executable chunk path =
    has_extension (codes "py") path
    || (has_extension (codes "sh") path || check_elf_header chunk (length chunk))

-- A name of one character counts as executable: nothing is found in it, and the difference of the
-- sizes wraps around to the same number.
pub is_file_executable_short : (chunk : Text) (c : ℕ) → is_file_executable chunk (c ∷ []) ≡ true
unfolding is_file_executable
is_file_executable_short chunk c = ground arith

is_prefix_sound : (e ys : Text) → is_prefix e ys ≡ true → (post : Text) × (ys ≡ e ++ post)
unfolding is_prefix
is_prefix_sound [] ys h = (ys, refl)
is_prefix_sound (x ∷ xs) [] h = absurd (ground arith)
is_prefix_sound (x ∷ xs) (y ∷ ys) h = elim (Bool-cases (x == y)) [
  | inl e ↦
      let (post, rest) = is_prefix_sound xs ys (rw e at h) in
      let same : x ≡ y = (==_iff x y).0 e in (post, λ i. sym same i ∷ rest i)
  | inr e ↦ absurd (ground arith)
]

pub is_prefix_self : (e post : Text) → is_prefix e (e ++ post) ≡ true
unfolding is_prefix
is_prefix_self [] post = refl
is_prefix_self (x ∷ xs) post = ground (arith, is_prefix_self xs post)

-- A place that is found is one.
last_place_sound :
    (e xs : Text) (i : ℕ)
    → last_place e xs ≡ some i
    → (pre : Text) × (post : Text) × (xs ≡ pre ++ (e ++ post)) × (length pre ≡ i)
unfolding last_place
last_place_sound e [] i h = elim (Bool-cases (is_prefix e [])) [
  | inl t ↦ let (post, split) = is_prefix_sound e [] t in ([], post, split, ground arith)
  | inr f ↦ absurd (ground arith)
]
last_place_sound e (x ∷ xs) i h = elim (Option-cases (last_place e xs)) [
  | inl gone ↦ elim (Bool-cases (is_prefix e (x ∷ xs))) [
    | inl t ↦ let (post, split) = is_prefix_sound e (x ∷ xs) t in ([], post, split, ground arith)
    | inr f ↦ absurd (ground arith)
  ]
  | inr (j, found) ↦
      let (pre, post, split, size) = last_place_sound e xs j found in
      (x ∷ pre, post, ap (λ l. x ∷ l) split, ground arith)
]

too_short : (e xs : Text) → length xs < length e → last_place e xs ≡ none
too_short e xs h = elim (Option-cases (last_place e xs)) [
  | inl gone ↦ gone
  | inr (i, found) ↦
      let (pre, post, split, size) = last_place_sound e xs i found in
      absurd
        (omega (arith, ap length split, length-append pre (e ++ post), length-append e post, size))
]

last_place_suffix :
    (c : ℕ) (e stem : Text) → last_place (c ∷ e) (stem ++ c ∷ e) ≡ some (length stem)
unfolding last_place
last_place_suffix c e [] =
    rw (too_short (c ∷ e) e (omega arith), last_place)
      (ground (arith, is_prefix_self (c ∷ e) [], append-nil (c ∷ e)))
last_place_suffix c e (x ∷ stem) =
    rw (last_place_suffix c e stem, last_place) (ap some (omega arith))

length-zero : (xs : Text) → length xs ≡ 0 → xs ≡ []
length-zero [] h = refl
length-zero (x ∷ xs) h = absurd (omega arith)

-- For a path that is not exactly one character shorter than the extension, and shorter than sizes
-- can be, the test finds exactly the paths that end in it.
has_extension_iff :
    (c : ℕ) (e path : Text)
    → length (c ∷ e) < 2 ^ 64
    → length path < 2 ^ 64
    → length path ≢ length e
    → (has_extension (c ∷ e) path ≡ true) ↔ ((stem : Text) × (path ≡ stem ++ c ∷ e))
unfolding has_extension rfind
has_extension_iff c e path small bound long = (sound, complete)
  where
    sound : has_extension (c ∷ e) path ≡ true → (stem : Text) × (path ≡ stem ++ c ∷ e)
    sound h = elim (Option-cases (last_place (c ∷ e) path)) [
      | inl gone ↦ absurd (omega (arith, nowhere gone, (==_iff _ _).0 h))
      | inr (i, found) ↦
          let (pre, post, split, size) = last_place_sound (c ∷ e) path i found in
          let at : rfind (c ∷ e) path ≡ i = rw (found, rfind) refl in
          let none_left : length post ≡ 0 = omega (
            arith,
            at,
            (==_iff _ _).0 h,
            ap length split,
            size,
            length-append pre ((c ∷ e) ++ post),
            length-append (c ∷ e) post,
          ) in
          (
            pre,
            split
                ∙ ap (λ l. pre ++ l)
                    (ap (λ l. (c ∷ e) ++ l) (length-zero post none_left) ∙ append-nil (c ∷ e)),
          )
    ]
      where
        nowhere : last_place (c ∷ e) path ≡ none → rfind (c ∷ e) path ≡ npos
        nowhere gone = rw (gone, rfind) refl

    complete : (stem : Text) × (path ≡ stem ++ c ∷ e) → has_extension (c ∷ e) path ≡ true
    complete (stem, split) =
        let at : rfind (c ∷ e) path ≡ length stem =
          rw split (rw (last_place_suffix c e stem, rfind) refl) in
        (==_iff _ _).1 (omega (arith, at, ap length split, length-append stem (c ∷ e)))

or_iff : (a b : Bool) → ((a || b) ≡ true) ↔ ((a ≡ true) ⊎ (b ≡ true))
or_iff a b = ground arith

-- A file whose path does not have exactly one character, and fits into a size, is sent with the
-- permissions of executables exactly when its path ends in the letters of an extension, with a dot
-- before them or without, or its first chunk is an ELF header.
pub is_file_executable_iff :
    (chunk path : Text)
    → length path < 2 ^ 64
    → length path ≢ 1
    → (is_file_executable chunk path ≡ true)
      ↔ ((stem : Text) × (path ≡ stem ++ codes "py"))
        ⊎ (((stem : Text) × (path ≡ stem ++ codes "sh"))
            ⊎ (check_elf_header chunk (length chunk) ≡ true))
unfolding is_file_executable
is_file_executable_iff chunk path bound long = (sound, complete)
  where
    python :
        (has_extension (codes "py") path ≡ true) ↔ ((stem : Text) × (path ≡ stem ++ codes "py"))
    python = has_extension_iff b'p' (b'y' ∷ []) path (omega arith) bound long

    shell : (has_extension (codes "sh") path ≡ true) ↔ ((stem : Text) × (path ≡ stem ++ codes "sh"))
    shell = has_extension_iff b's' (b'h' ∷ []) path (omega arith) bound long

    sound :
        is_file_executable chunk path ≡ true
        → ((stem : Text) × (path ≡ stem ++ codes "py"))
          ⊎ (((stem : Text) × (path ≡ stem ++ codes "sh"))
              ⊎ (check_elf_header chunk (length chunk) ≡ true))
    sound h = elim ((or_iff _ _).0 h) [
      | inl p ↦ inl (python.0 p)
      | inr rest ↦ elim ((or_iff _ _).0 rest) [
        | inl q ↦ inr (inl (shell.0 q))
        | inr elf ↦ inr (inr elf)
      ]
    ]

    complete :
        ((stem : Text) × (path ≡ stem ++ codes "py"))
          ⊎ (((stem : Text) × (path ≡ stem ++ codes "sh"))
              ⊎ (check_elf_header chunk (length chunk) ≡ true))
        → is_file_executable chunk path ≡ true
    complete (inl p) = (or_iff _ _).1 (inl (python.1 p))
    complete (inr (inl q)) = (or_iff _ _).1 (inr ((or_iff _ _).1 (inl (shell.1 q))))
    complete (inr (inr elf)) = (or_iff _ _).1 (inr ((or_iff _ _).1 (inr elf)))
