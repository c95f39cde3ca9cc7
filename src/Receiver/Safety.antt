-- ===== src/Receiver/Safety.antt =====
-- Which files a receiver touches: the test of `getAbsolutePath`.
use winpinator.Prelude.{
  ◌≡◌, refl, ◌⊎◌, inl, inr, true, [], ◌∷◌, ◌++◌, Text, Option, some, arith, ◌==◌, Bool-cases,
  Option-cases,
}
use winpinator.Sender.Executable.{is_prefix, is_prefix_self}
use winpinator.Receiver.Progress.{contains, get_absolute_path}

is_prefix-append :
    (needle xs ys : Text) → is_prefix needle xs ≡ true → is_prefix needle (xs ++ ys) ≡ true
unfolding is_prefix
is_prefix-append [] xs ys h = refl
is_prefix-append (c ∷ cs) [] ys h = absurd (ground arith)
is_prefix-append (c ∷ cs) (x ∷ xs) ys h = elim (Bool-cases (c == x)) [
  | inl e ↦ rw e (is_prefix-append cs xs ys (rw e at h))
  | inr e ↦ absurd (ground arith)
]

pub contains-append :
    (needle xs ys : Text) → contains needle xs ≡ true → contains needle (xs ++ ys) ≡ true
unfolding contains
contains-append [] [] [] h = refl
contains-append [] [] (y ∷ ys) h = refl
contains-append (c ∷ cs) [] ys h = absurd (ground arith)
contains-append needle (x ∷ xs) ys h = elim (Bool-cases (is_prefix needle (x ∷ xs))) [
  | inl e ↦ rw (is_prefix-append needle (x ∷ xs) ys e) refl
  | inr e ↦ ground (arith, contains-append needle xs ys (rw e at h))
]

contains-prefix : (needle rest : Text) → contains needle (needle ++ rest) ≡ true
unfolding contains
contains-prefix [] [] = refl
contains-prefix [] (c ∷ cs) = refl
contains-prefix (c ∷ cs) rest = rw (is_prefix_self (c ∷ cs) rest) refl

-- A path is taken exactly when it can be normalised and contains the output path somewhere; then it is
-- the normalised path.
pub get_absolute_path_cases :
    (normalize : Text → Text → Option Text) (output path : Text)
    → (get_absolute_path normalize output path ≡ [])
      ⊎ ((full : Text) × (normalize path output ≡ some full)
          × (contains output full ≡ true)
          × (get_absolute_path normalize output path ≡ full))
get_absolute_path_cases normalize output path = elim (Option-cases (normalize path output)) [
  | inl e ↦ inl (unfold get_absolute_path in rw (e, get_absolute_path) refl)
  | inr (full, e) ↦ elim (Bool-cases (contains output full)) [
    | inl h ↦ inr (full, e, h, unfold get_absolute_path in rw (e, get_absolute_path) (rw h refl))
    | inr h ↦ inl (unfold get_absolute_path in rw (e, get_absolute_path) (rw h refl))
  ]
]

-- The test for the output path does not look at where a folder's name ends: any path that begins with
-- the letters of the output path is taken, one in a sibling folder with a longer name included.
pub get_absolute_path-sibling :
    (normalize : Text → Text → Option Text) (output rest path : Text)
    → normalize path output ≡ some (output ++ rest)
    → get_absolute_path normalize output path ≡ output ++ rest
unfolding get_absolute_path
get_absolute_path-sibling normalize output rest path e =
    rw (e, get_absolute_path) (rw (contains-prefix output rest) refl)
