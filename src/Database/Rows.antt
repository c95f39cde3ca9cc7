-- ===== src/Database/Rows.antt =====
-- Rows of src/service/database_manager.cpp as they are stored and read: what a query finds in tables to which
-- one transfer has been added.
use winpinator.Prelude.{
  ℕ, suc, ◌≤◌, ◌<◌, ◌^◌, subst, ◌≡◌, refl, ap, ◌∙◌, inl, inr, Bool, true, false, ◌&&◌, List, [],
  ◌∷◌, ◌++◌, map, Text, text_eq, text_eq_refl, some, All, All-map, arith, ◌==◌, Bool-cases,
}
use winpinator.Transfers.Types.{
  TransferElementType, TransferElement, TransferStatus, TransferType, Transfer,
}
use mathlib.Core.List.{Perm}
use mathlib.Core.List.Perm
use winpinator.Prelude.Int.{ℤ, pos, negsuc}
use winpinator.Database.Tables.{
  c_string, id_is, same_int, TransferRow, PathRow, Tables, element_code, status_code, type_code,
  fix_enum, read_element_type, read_status, read_type,
}
use winpinator.Database.History.{row_of, path_of, keep_rows}
use winpinator.Database.Queries.{
  Arranging, Stored, read_path, query_transfer_paths, read_transfer, insert_row, order_rows,
  query_transfers, get_transfer,
}
use winpinator.Database.Linked.{owned, IsValid}
use winpinator.Database.Integrity.{to_int_lem}

-- The enumerations are read as they were stored.
read_element_type-element_code : (e : TransferElementType) → read_element_type (element_code e) ≡ e
unfolding read_element_type element_code fix_enum
read_element_type-element_code TransferElementType.file = refl
read_element_type-element_code TransferElementType.folder = refl
read_element_type-element_code TransferElementType.unknown = refl

read_status-status_code : (s : TransferStatus) → read_status (status_code s) ≡ s
unfolding read_status status_code fix_enum
read_status-status_code TransferStatus.succeeded = refl
read_status-status_code TransferStatus.cancelled = refl
read_status-status_code TransferStatus.failed = refl
read_status-status_code TransferStatus.unknown = refl

read_type-type_code : (t : TransferType) → read_type (type_code t) ≡ t
unfolding read_type type_code fix_enum
read_type-type_code TransferType.single_file = refl
read_type-type_code TransferType.multiple_files = refl
read_type-type_code TransferType.single_directory = refl
read_type-type_code TransferType.multiple_directories = refl
read_type-type_code TransferType.mixed = refl
read_type-type_code TransferType.unfinished_incoming = refl
read_type-type_code TransferType.unknown = refl

-- The rows of the elements, after the counter.
abbrev pub path_rows : ℕ → ℤ → List TransferElement → List PathRow
path_rows n id [] = []
path_rows n id (e ∷ es) = path_of (suc n) id e ∷ path_rows (suc n) id es

module _ {A : Type 0} where
  keep_rows-append :
      (test : A → Bool) (xs ys : List A)
      → keep_rows test (xs ++ ys) ≡ keep_rows test xs ++ keep_rows test ys
  unfolding keep_rows
  keep_rows-append test [] ys = refl
  keep_rows-append test (x ∷ xs) ys = elim (Bool-cases (test x)) [
    | inl e ↦ rw e (ap (◌∷◌ x) (keep_rows-append test xs ys))
    | inr e ↦ rw e (keep_rows-append test xs ys)
  ]

  keep_rows-none_of :
      (test : A → Bool) (xs : List A) → All (λ x. test x ≡ false) xs → keep_rows test xs ≡ []
  unfolding keep_rows
  keep_rows-none_of test [] h = refl
  keep_rows-none_of test (x ∷ xs) (h, hs) = rw h (keep_rows-none_of test xs hs)

owned_bounded :
    (id : ℤ) (n : ℕ) (rs : List TransferRow)
    → All (λ (r : TransferRow). r.id ≤ n) rs
    → owned id rs ≡ true
    → same_int id (pos (suc n)) ≡ false
unfolding id_is same_int
owned_bounded (negsuc m) n rs h e = refl
owned_bounded (pos m) n [] h e = absurd (ground arith)
owned_bounded (pos m) n (r ∷ rs) (h, hs) e = elim (Bool-cases (r.id == m)) [
  | inl f ↦ ground arith
  | inr f ↦ owned_bounded (pos m) n rs hs (ground arith)
]

same_id : (id : ℕ) → same_int (pos id) (pos id) ≡ true
unfolding same_int
same_id id = ground arith

-- The texts as they are bound.
abbrev pub bound_element : TransferElement → TransferElement
bound_element e = record e {
  element_name = c_string e.element_name;
  relative_path = c_string e.relative_path;
  absolute_path = c_string e.absolute_path;
}

abbrev pub bound_transfer : Transfer → List TransferElement → Transfer
bound_transfer t es = record t {
  target_id = c_string t.target_id;
  single_element_name = c_string t.single_element_name;
  elements = es;
}

read_path-path_of :
    (n : ℕ) (id : ℤ) (e : TransferElement) → read_path (path_of n id e) ≡ bound_element e
unfolding read_path path_of
read_path-path_of n id e = rw (read_element_type-element_code e.element_type) refl

own_paths :
    (n id : ℕ) (es : List TransferElement)
    → keep_rows (λ (p : PathRow). same_int p.transfer_id (pos id)) (path_rows n (pos id) es)
      ≡ path_rows n (pos id) es
unfolding keep_rows path_of
own_paths n id [] = refl
own_paths n id (e ∷ es) =
    rw (same_id id) (ap (◌∷◌ (path_of (suc n) (pos id) e)) (own_paths (suc n) id es))

read_new_paths :
    (n : ℕ) (id : ℤ) (es : List TransferElement)
    → map read_path (path_rows n id es) ≡ map bound_element es
read_new_paths n id [] = refl
read_new_paths n id (e ∷ es) =
    rw (read_path-path_of (suc n) id e) (ap (◌∷◌ (bound_element e)) (read_new_paths (suc n) id es))

other_paths :
    (t : Tables)
    → IsValid t
    → keep_rows
        (λ (p : PathRow). same_int p.transfer_id (pos (suc t.last_transfer)))
        t.transfer_paths
      ≡ []
other_paths t v =
    let test = λ (p : PathRow). same_int p.transfer_id (pos (suc t.last_transfer)) in
    keep_rows-none_of test t.transfer_paths (
      All-map (λ (p : PathRow). owned p.transfer_id t.transfers ≡ true)
        (λ (p : PathRow). test p ≡ false) t.transfer_paths
        (λ p. λ h. owned_bounded p.transfer_id t.last_transfer t.transfers v.ids h) v.linked)

only_transfer :
    (t : Transfer) (s : Tables)
    → IsValid s
    → keep_rows
        (λ (r : TransferRow).
          id_is (pos (suc s.last_transfer)) r.id && text_eq r.target_id (c_string t.target_id))
        (s.transfers ++ row_of (suc s.last_transfer) t ∷ [])
      ≡ row_of (suc s.last_transfer) t ∷ []
unfolding row_of id_is
only_transfer t s v =
    let test = λ (r : TransferRow).
      r.id == suc s.last_transfer && text_eq r.target_id (c_string t.target_id) in
    let row = row_of (suc s.last_transfer) t in
    let old : keep_rows test s.transfers ≡ [] = keep_rows-none_of test s.transfers (
      All-map (λ (r : TransferRow). r.id ≤ s.last_transfer) (λ (r : TransferRow). test r ≡ false)
        s.transfers (λ r. λ h. ground arith) v.ids) in
    let same : suc s.last_transfer == suc s.last_transfer ≡ true = ground arith in
    let new : keep_rows test (row ∷ []) ≡ row ∷ [] =
      unfold keep_rows in rw (same, text_eq_refl (c_string t.target_id)) refl in
    keep_rows-append test s.transfers (row ∷ [])
    ∙ ap (λ xs. xs ++ keep_rows test (row ∷ [])) old
    ∙ new

module _ (arrange : Arranging) where
  -- The elements of the last transfer.
  abbrev pub read_rows : ℕ → ℕ → List TransferElement → List TransferElement
  read_rows n id es = map read_path (arrange (path_rows n (pos id) es))

  pub read_rows-Perm :
      ((rows : List PathRow) → Perm (arrange rows) rows)
      → (n id : ℕ) (es : List TransferElement) → Perm (read_rows n id es) (map bound_element es)
  read_rows-Perm lawful n id es =
      subst (λ xs. Perm (read_rows n id es) xs) (read_new_paths n (pos id) es)
        (Perm.map read_path (lawful (path_rows n (pos id) es)))

  new_paths :
      (t : Tables) (before : Tables) (es : List TransferElement)
      → IsValid before
      → t.transfer_paths
        ≡ before.transfer_paths ++ path_rows before.last_path (pos (suc before.last_transfer)) es
      → query_transfer_paths arrange (pos (suc before.last_transfer)) t
        ≡ read_rows before.last_path (suc before.last_transfer) es
  unfolding query_transfer_paths
  new_paths t before es v e =
      let id = suc before.last_transfer in
      let test = λ (p : PathRow). same_int p.transfer_id (pos id) in
      let rows = path_rows before.last_path (pos id) es in
      ap (λ ps. map read_path (arrange (keep_rows test ps))) e
      ∙ ap (λ ps. map read_path (arrange ps))
          (keep_rows-append test before.transfer_paths rows
            ∙ ap (λ ps. ps ++ keep_rows test rows) (other_paths before v)
            ∙ own_paths before.last_path id es)

  row_read :
      (t : Transfer) (now before : Tables) (es : List TransferElement)
      → suc before.last_transfer < 2 ^ 31
      → query_transfer_paths arrange (pos (suc before.last_transfer)) now ≡ es
      → read_transfer arrange true now (row_of (suc before.last_transfer) t)
        ≡ record { id = pos (suc before.last_transfer); transfer = bound_transfer t es }
  unfolding read_transfer row_of
  row_read t now before es room e =
      rw
        (
          to_int_lem (suc before.last_transfer) room,
          e,
          read_status-status_code t.status,
          read_type-type_code t.transfer_type,
        )
        refl

  pub query_added :
      (t : Transfer) (now before : Tables)
      → IsValid before
      → suc before.last_transfer < 2 ^ 31
      → now.transfers ≡ before.transfers ++ row_of (suc before.last_transfer) t ∷ []
      → now.transfer_paths
        ≡ before.transfer_paths
          ++ path_rows before.last_path (pos (suc before.last_transfer)) t.elements
      → query_transfers arrange true t.target_id
          (λ (r : TransferRow). id_is (pos (suc before.last_transfer)) r.id)
          true
          now
        ≡ record {
          id = pos (suc before.last_transfer);
          transfer =
              bound_transfer t (read_rows before.last_path (suc before.last_transfer) t.elements);
        }
          ∷ []
  unfolding query_transfers order_rows insert_row
  query_added t now before v room rows paths =
      let id = suc before.last_transfer in
      let test =
        λ (r : TransferRow). id_is (pos id) r.id && text_eq r.target_id (c_string t.target_id) in
      let found = ap (keep_rows test) rows ∙ only_transfer t before v in
      let es = read_rows before.last_path id t.elements in
      ap (λ rs. map (read_transfer arrange true now) (order_rows rs)) found
      ∙ ap (λ r. r ∷ []) (row_read t now before es room (new_paths now before t.elements v paths))

  pub get_one :
      (id : ℤ) (target : Text) (now : Tables) (x : Stored)
      → query_transfers arrange true target (λ (r : TransferRow). id_is id r.id) true now ≡ x ∷ []
      → get_transfer arrange id target true true now ≡ some x
  unfolding get_transfer
  get_one id target now x e = rw (e, get_transfer) refl
