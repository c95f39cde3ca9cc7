-- ===== src/Auth/Keyfile.antt =====
-- The identity and the group code over restarts: the keyfile of src/service/auth_manager.cpp.
use winpinator.Prelude.{
  ℕ, ◌≡◌, ◌≢◌, refl, sym, ap, ◌∙◌, false, [], ◌∷◌, ◌++◌, Text, text_eq, text_eq_iff, text_eq_ne,
  Option, none, some,
}
use winpinator.Remotes.Types.{MdnsIpPair}
use winpinator.Auth.State.{
  Auth, load_keyfile, take_ident, read_ident, take_group_code, read_group_code, make_key_cert_pair,
  update, update_group_code,
}

cons-ne : (c : ℕ) (cs : Text) → c ∷ cs ≢ []
cons-ne c cs = cc

append-ne : (xs : Text) (c : ℕ) (ys : Text) → xs ++ c ∷ [] ++ ys ≢ []
append-ne [] c ys = cc
append-ne (x ∷ xs) c ys = cc

module _ (upper : Text → Text) (uuid : Text) where
  ident_taken :
      (entry : Text) (a : Auth)
      → a.keyfile.connect_id ≡ entry
      → a.stored ≡ a.keyfile
      → ((take_ident upper uuid entry a).stored.connect_id ≡ (take_ident upper uuid entry a).ident)
        × ((take_ident upper uuid entry a).stored ≡ (take_ident upper uuid entry a).keyfile)
        × ((take_ident upper uuid entry a).ident ≢ [])
        × ((take_ident upper uuid entry a).keyfile.code ≡ a.keyfile.code)
  unfolding take_ident
  ident_taken [] a e s = (refl, refl, append-ne (upper a.hostname) b'-' uuid, refl)
  ident_taken (c ∷ cs) a e s = (ap (λ f. f.connect_id) s ∙ e, s, cons-ne c cs, refl)

  code_taken :
      (entry : Text) (a : Auth)
      → a.keyfile.code ≡ entry
      → a.stored ≡ a.keyfile
      → ((take_group_code entry a).stored.code ≡ (take_group_code entry a).code)
        × ((take_group_code entry a).stored.connect_id ≡ a.stored.connect_id)
        × ((take_group_code entry a).ident ≡ a.ident)
        × ((take_group_code entry a).code ≢ [])
  unfolding take_group_code
  code_taken [] a e s = (refl, ap (λ f. f.connect_id) (sym s), refl, cons-ne _ _)
  code_taken (c ∷ cs) a e s = (ap (λ f. f.code) s ∙ e, refl, refl, cons-ne c cs)

  -- An entry that is there is what is read.
  ident_read :
      (entry : Text) (a : Auth) → entry ≢ [] → (take_ident upper uuid entry a).ident ≡ entry
  unfolding take_ident
  ident_read [] a ne = absurd (ne refl)
  ident_read (c ∷ cs) a ne = refl

  code_read : (entry : Text) (a : Auth) → entry ≢ [] → (take_group_code entry a).code ≡ entry
  unfolding take_group_code
  code_read [] a ne = absurd (ne refl)
  code_read (c ∷ cs) a ne = refl

-- Making a key pair changes neither the identity nor the code nor the file.
record Alike (a b : Auth) : Type 0 where
  same_ident : b.ident ≡ a.ident
  same_code : b.code ≡ a.code
  same_stored : b.stored ≡ a.stored

make-Alike : (made : Option (Text × Text)) (a : Auth) → Alike a (make_key_cert_pair made a)
unfolding make_key_cert_pair
make-Alike none a = record { same_ident = refl; same_code = refl; same_stored = refl }
make-Alike (some (x, y)) a = record { same_ident = refl; same_code = refl; same_stored = refl }

module _ (upper : Text → Text) (uuid : Text) (made : Option (Text × Text)) (ips : MdnsIpPair)
    (port : ℕ) where
  -- After `update` the identity and the code are those of the file, and neither is empty.
  record Settled (a : Auth) : Type 0 where
    ident_stored : a.stored.connect_id ≡ a.ident
    code_stored : a.stored.code ≡ a.code
    some_ident : a.ident ≢ []
    some_code : a.code ≢ []

  abbrev loaded : Auth → Auth
  loaded a = load_keyfile (record a { ips = ips; port = port })

  loaded_file : (a : Auth) → (loaded a).keyfile ≡ a.stored
  unfolding load_keyfile
  loaded_file a = refl

  loaded_stored : (a : Auth) → (loaded a).stored ≡ a.stored
  unfolding load_keyfile
  loaded_stored a = refl

  update-Settled : (a : Auth) → Settled (update upper uuid made ips port a)
  unfolding update
  update-Settled a =
      let l = loaded a in
      let i = read_ident upper uuid l in
      let (id_stored, id_file, id_some, id_code) =
        ident_taken upper uuid l.keyfile.connect_id l refl
          (loaded_stored a ∙ sym (loaded_file a)) in
      let (code_stored, code_id, code_ident, code_some) =
        code_taken upper uuid i.keyfile.code i refl id_file in
      let alike = make-Alike made (read_group_code i) in
      record {
        ident_stored =
            ap (λ f. f.connect_id) alike.same_stored
            ∙ code_id
            ∙ id_stored
            ∙ sym code_ident
            ∙ sym alike.same_ident;
        code_stored = ap (λ f. f.code) alike.same_stored ∙ code_stored ∙ sym alike.same_code;
        some_ident = λ e. id_some (sym code_ident ∙ sym alike.same_ident ∙ e);
        some_code = λ e. code_some (sym alike.same_code ∙ e);
      }

  update-ident :
      (a : Auth)
      → a.stored.connect_id ≢ []
      → (update upper uuid made ips port a).ident ≡ a.stored.connect_id
  unfolding update
  update-ident a ne =
      let l = loaded a in
      let i = read_ident upper uuid l in
      let (_, id_file, _, _) =
        ident_taken upper uuid l.keyfile.connect_id l refl
          (loaded_stored a ∙ sym (loaded_file a)) in
      let (_, _, code_ident, _) = code_taken upper uuid i.keyfile.code i refl id_file in
      (make-Alike made (read_group_code i)).same_ident
      ∙ code_ident
      ∙ ident_read upper uuid l.keyfile.connect_id l
          (λ e. ne (ap (λ f. f.connect_id) (sym (loaded_file a)) ∙ e))
      ∙ ap (λ f. f.connect_id) (loaded_file a)

  update-code :
      (a : Auth) → a.stored.code ≢ [] → (update upper uuid made ips port a).code ≡ a.stored.code
  unfolding update
  update-code a ne =
      let l = loaded a in
      let i = read_ident upper uuid l in
      let (_, _, _, id_code) =
        ident_taken upper uuid l.keyfile.connect_id l refl
          (loaded_stored a ∙ sym (loaded_file a)) in
      let entry : i.keyfile.code ≡ a.stored.code = id_code ∙ ap (λ f. f.code) (loaded_file a) in
      (make-Alike made (read_group_code i)).same_code
      ∙ code_read upper uuid i.keyfile.code i (λ e. ne (sym entry ∙ e))
      ∙ entry

-- A restart keeps the identity and the group code: whatever state the program starts from next, on the
-- file that an earlier start has left and with whatever generated values, it has those of the earlier
-- start, and neither is empty.
pub update-restart :
    (upper : Text → Text) (uuid later : Text) (made again : Option (Text × Text))
    (ips addresses : MdnsIpPair) (port p : ℕ) (a b : Auth)
    → b.stored ≡ (update upper uuid made ips port a).stored
    → ((update upper later again addresses p b).ident ≡ (update upper uuid made ips port a).ident)
      × ((update upper later again addresses p b).code ≡ (update upper uuid made ips port a).code)
      × ((update upper uuid made ips port a).ident ≢ [])
      × ((update upper uuid made ips port a).code ≢ [])
update-restart upper uuid later made again ips addresses port p a b same =
    let first = update upper uuid made ips port a in
    let settled = update-Settled upper uuid made ips port a in
    let id_same : b.stored.connect_id ≡ first.ident =
      ap (λ f. f.connect_id) same ∙ settled.ident_stored in
    let code_same : b.stored.code ≡ first.code = ap (λ f. f.code) same ∙ settled.code_stored in
    (
      update-ident upper later again addresses p b (λ e. settled.some_ident (sym id_same ∙ e))
          ∙ id_same,
      update-code upper later again addresses p b (λ e. settled.some_code (sym code_same ∙ e))
          ∙ code_same,
      settled.some_ident,
      settled.some_code,
    )

unchanged : (code : Text) (a : Auth) → code ≡ a.code → update_group_code code a ≡ a
unfolding update_group_code
unchanged code a e = rw ((text_eq_iff code a.code).1 e) refl

-- A new group code is written to the file and is used from the next start on, not before; setting the
-- code in use again before that start is not written, so the next start still has the other one.
pub update-update_group_code :
    (upper : Text → Text) (uuid : Text) (made : Option (Text × Text)) (ips : MdnsIpPair) (port : ℕ)
    (code : Text) (a : Auth)
    → code ≢ a.code
    → code ≢ []
    → ((update_group_code code a).code ≡ a.code)
      × ((update upper uuid made ips port (update_group_code code a)).code ≡ code)
      × ((update upper uuid made ips port
            (update_group_code a.code (update_group_code code a))).code
          ≡ code)
unfolding update_group_code
update-update_group_code upper uuid made ips port code a new some_code =
    let differs : text_eq code a.code ≡ false = text_eq_ne code a.code new in
    let kept : (update_group_code code a).code ≡ a.code = rw differs refl in
    let written : (update_group_code code a).stored.code ≡ code = rw differs refl in
    let back : update_group_code a.code (update_group_code code a) ≡ update_group_code code a =
      unchanged a.code (update_group_code code a) (sym kept) in
    let next : (update upper uuid made ips port (update_group_code code a)).code ≡ code =
      update-code upper uuid made ips port (update_group_code code a)
        (λ e. some_code (sym written ∙ e))
      ∙ written in
    (kept, next, ap (λ x. (update upper uuid made ips port x).code) back ∙ next)
