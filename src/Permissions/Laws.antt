-- ===== src/Permissions/Laws.antt =====
-- The conversions of unix_permissions.cpp, against octal digits.
use winpinator.Prelude.{ℕ, ◌+◌, ◌*◌, ◌/◌, ◌%◌, ◌<◌, ◌≡◌, ◌↔◌, true, List, [], ◌∷◌, length, arith}
use winpinator.Permissions.{
  PermGroup, UnixPermissions, set_perm_group_to_digit, get_digit_from_perm_group, load_from_decimal,
  load_from_chmod, convert_to_decimal, convert_to_chmod, check_elf_header,
}

pub get_digit-set_perm_group :
    (g : PermGroup) (d : ℕ) → get_digit_from_perm_group (set_perm_group_to_digit g d) ≡ d % 8
unfolding get_digit_from_perm_group set_perm_group_to_digit
get_digit-set_perm_group g d = ground arith

pub set_perm_group-get_digit :
    (g h : PermGroup) → set_perm_group_to_digit g (get_digit_from_perm_group h) ≡ h
unfolding get_digit_from_perm_group set_perm_group_to_digit
set_perm_group-get_digit g h = ground arith

pub get_digit-lt : (g : PermGroup) → get_digit_from_perm_group g < 8
unfolding get_digit_from_perm_group
get_digit-lt g = ground arith

set_perm_group_eq :
    (g h : PermGroup) (d : ℕ) → d ≡ get_digit_from_perm_group h → set_perm_group_to_digit g d ≡ h
set_perm_group_eq g h d e = rw e (set_perm_group-get_digit g h)

-- Loading any mode and converting back keeps its nine permission bits and nothing else.
pub convert_to_decimal-load_from_decimal :
    (p : UnixPermissions) (m : ℕ) → convert_to_decimal (load_from_decimal p m) ≡ m % 512
unfolding convert_to_decimal load_from_decimal
convert_to_decimal-load_from_decimal p m = simp get_digit-set_perm_group (omega arith)

-- Whatever a permission object held before, loading the decimal mode of another object makes it
-- equal to that object.
pub load_from_decimal-convert_to_decimal :
    (p q : UnixPermissions) → load_from_decimal p (convert_to_decimal q) ≡ q
unfolding convert_to_decimal load_from_decimal
load_from_decimal-convert_to_decimal p q =
    let n = convert_to_decimal q in
    let a = get_digit-lt q.owner in
    let b = get_digit-lt q.group in
    let c = get_digit-lt q.others in
    λ i. record {
      owner = set_perm_group_eq p.owner q.owner (n / 64 % 8) (omega arith) i;
      group = set_perm_group_eq p.group q.group (n / 8 % 8) (omega arith) i;
      others = set_perm_group_eq p.others q.others (n % 8) (omega arith) i;
    }

-- The same for the chmod notation, whose digits are decimal.
pub load_from_chmod-convert_to_chmod :
    (p q : UnixPermissions) → load_from_chmod p (convert_to_chmod q) ≡ q
unfolding convert_to_chmod load_from_chmod
load_from_chmod-convert_to_chmod p q =
    let n = convert_to_chmod q in
    let a = get_digit-lt q.owner in
    let b = get_digit-lt q.group in
    let c = get_digit-lt q.others in
    λ i. record {
      owner = set_perm_group_eq p.owner q.owner (n / 100 % 10) (omega arith) i;
      group = set_perm_group_eq p.group q.group (n / 10 % 10) (omega arith) i;
      others = set_perm_group_eq p.others q.others (n % 10) (omega arith) i;
    }

-- Of a three-digit chmod specifier every digit is kept modulo eight, so 8 and 9 lose their top bit,
-- and a specifier with octal digits comes back unchanged.
pub convert_to_chmod-load_from_chmod :
    (p : UnixPermissions) (a b c : ℕ)
    → a < 10
    → b < 10
    → c < 10
    → convert_to_chmod (load_from_chmod p (a * 100 + b * 10 + c))
      ≡ (a % 8) * 100 + (b % 8) * 10 + c % 8
unfolding convert_to_chmod load_from_chmod
convert_to_chmod-load_from_chmod p a b c ha hb hc = simp get_digit-set_perm_group (omega arith)

-- A chmod specifier with octal digits `abc` is sent as the mode 0abc.
pub convert_to_decimal-load_from_chmod :
    (p : UnixPermissions) (a b c : ℕ)
    → a < 8
    → b < 8
    → c < 8
    → convert_to_decimal (load_from_chmod p (a * 100 + b * 10 + c)) ≡ a * 64 + b * 8 + c
unfolding convert_to_decimal load_from_chmod
convert_to_decimal-load_from_chmod p a b c ha hb hc = simp get_digit-set_perm_group (omega arith)

check_elf_header_sound :
    (chr : List ℕ)
    → check_elf_header chr (length chr) ≡ true
    → (rest : List ℕ) × (chr ≡ 0x7f ∷ b'E' ∷ b'L' ∷ b'F' ∷ rest)
unfolding check_elf_header
check_elf_header_sound [] h = absurd (ground arith)
check_elf_header_sound (a ∷ []) h = absurd (ground arith)
check_elf_header_sound (a ∷ b ∷ []) h = absurd (ground arith)
check_elf_header_sound (a ∷ b ∷ c ∷ []) h = absurd (ground arith)
check_elf_header_sound (a ∷ b ∷ c ∷ d ∷ rest) h = (rest, ground arith)

check_elf_header_complete :
    (chr rest : List ℕ)
    → chr ≡ 0x7f ∷ b'E' ∷ b'L' ∷ b'F' ∷ rest
    → check_elf_header chr (length chr) ≡ true
unfolding check_elf_header
check_elf_header_complete chr rest e = rw e (ground arith)

-- The test for an executable passes exactly on the data that begin with the four bytes of the ELF
-- magic number.
pub check_elf_header_iff :
    (chr : List ℕ)
    → (check_elf_header chr (length chr) ≡ true)
      ↔ ((rest : List ℕ) × (chr ≡ 0x7f ∷ b'E' ∷ b'L' ∷ b'F' ∷ rest))
check_elf_header_iff chr =
    (check_elf_header_sound chr, λ found. check_elf_header_complete chr found.0 found.1)
