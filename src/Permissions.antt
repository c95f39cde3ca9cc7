-- ===== src/Permissions.antt =====
-- src/service/unix_permissions.cpp: the class `UnixPermissions`.
-- A `short` argument is a natural number (a mode that the program passes is never negative), an
-- `unsigned char` is one below 256, and `x & (1 << k)` is the test of the bit `x / 2 ^ k % 2`.
pub mod Laws
mod Tests
use winpinator.Prelude.{
  ℕ, ◌+◌, ◌*◌, ◌/◌, ◌%◌, Bool, true, false, ◌&&◌, List, [], ◌∷◌, length, ltb, ◌==◌, if◌then◌else◌,
}

pub record PermGroup : Type 0 where
  pub read : Bool
  pub write : Bool
  pub execute : Bool

pub record UnixPermissions : Type 0 where
  pub owner : PermGroup
  pub group : PermGroup
  pub others : PermGroup

abbrev pub no_permissions : PermGroup
no_permissions = record { read = false; write = false; execute = false }

-- The constructor.
abbrev pub initial : UnixPermissions
initial = record { owner = no_permissions; group = no_permissions; others = no_permissions }

unfoldable pub set_perm_group_to_digit : PermGroup → ℕ → PermGroup
set_perm_group_to_digit g digit = record g {
  read = (digit / 4) % 2 == 1;
  write = (digit / 2) % 2 == 1;
  execute = digit % 2 == 1;
}

unfoldable pub get_digit_from_perm_group : PermGroup → ℕ
get_digit_from_perm_group g =
    let digit : ℕ = 0 in
    let digit1 : ℕ = (if g.read then digit + 4 else digit) in
    let digit2 : ℕ = (if g.write then digit1 + 2 else digit1) in
    if g.execute then digit2 + 1 else digit2

unfoldable pub load_from_decimal : UnixPermissions → ℕ → UnixPermissions
load_from_decimal p dec_mode = record p {
  owner = set_perm_group_to_digit p.owner ((dec_mode / 64) % 8);
  group = set_perm_group_to_digit p.group ((dec_mode / 8) % 8);
  others = set_perm_group_to_digit p.others (dec_mode % 8);
}

unfoldable pub load_from_chmod : UnixPermissions → ℕ → UnixPermissions
load_from_chmod p specifier = record p {
  owner = set_perm_group_to_digit p.owner ((specifier / 100) % 10);
  group = set_perm_group_to_digit p.group ((specifier / 10) % 10);
  others = set_perm_group_to_digit p.others (specifier % 10);
}

unfoldable pub set_to_file_safe : UnixPermissions → UnixPermissions
unfolding load_from_chmod
set_to_file_safe p = load_from_chmod p 664

unfoldable pub set_to_folder_safe : UnixPermissions → UnixPermissions
unfolding load_from_chmod
set_to_folder_safe p = load_from_chmod p 775

unfoldable pub convert_to_decimal : UnixPermissions → ℕ
convert_to_decimal p =
    get_digit_from_perm_group p.owner * 64
    + get_digit_from_perm_group p.group * 8
    + get_digit_from_perm_group p.others

unfoldable pub convert_to_chmod : UnixPermissions → ℕ
convert_to_chmod p =
    get_digit_from_perm_group p.owner * 100
    + get_digit_from_perm_group p.group * 10
    + get_digit_from_perm_group p.others * 1

-- The bytes that `chr[i]` reads; the length test has made sure that there are four.
starts_with_magic : List ℕ → Bool
starts_with_magic (a ∷ b ∷ c ∷ d ∷ rest) = a == 0x7f && (b == b'E' && (c == b'L' && d == b'F'))
starts_with_magic (a ∷ b ∷ c ∷ []) = false
starts_with_magic (a ∷ b ∷ []) = false
starts_with_magic (a ∷ []) = false
starts_with_magic [] = false

unfoldable pub check_elf_header : List ℕ → ℕ → Bool
unfolding starts_with_magic
check_elf_header chr size = if ltb size 4 then false else starts_with_magic chr
