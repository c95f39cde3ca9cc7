-- ===== src/Permissions/Tests.antt =====
-- Runs of unix_permissions.cpp, after test/unix_permissions.test.cpp, and the laws at inputs.
use winpinator.Prelude.{ℕ, ◌≡◌, List, [], ◌∷◌, refl}
use winpinator.Permissions.{
  UnixPermissions, initial, load_from_chmod, convert_to_decimal, get_digit_from_perm_group,
  set_perm_group_to_digit, set_to_folder_safe,
}

abbrev folder_safe : UnixPermissions
unfolding set_to_folder_safe
folder_safe = set_to_folder_safe initial

chmod_755 : convert_to_decimal (load_from_chmod initial 755) ≡ 0o755
unfolding convert_to_decimal load_from_chmod get_digit_from_perm_group set_perm_group_to_digit
chmod_755 = refl

folder_safe_mode : convert_to_decimal (set_to_folder_safe initial) ≡ 509
unfolding convert_to_decimal load_from_chmod get_digit_from_perm_group set_perm_group_to_digit
    set_to_folder_safe
folder_safe_mode = refl

abbrev elf_file : List ℕ
elf_file = 0x7f ∷ b'E' ∷ b'L' ∷ b'F' ∷ 2 ∷ []
