-- ===== src/Auth/Exchange.antt =====
-- A certificate from one host to another, and what a reply that is no certificate does.
use winpinator.Prelude.{
  ℕ, ◌+◌, ◌^◌, ◌<◌, ◌≡◌, ◌≢◌, refl, sym, ap, ◌∙◌, ◌⊎◌, inl, inr, Bool, true, false, [], ◌∷◌, ◌++◌,
  Text, text_eq, text_eq_iff, text_eq_refl, Option, none, some, All, length, length-append, take,
  drop, ltb, leb, arith, ◌==◌, Bool-cases, Option-cases, take-append_self, drop-append_self, subst,
}
use winpinator.Remotes.Types.{MdnsIpPair}
use winpinator.Auth.State.{Auth}
use winpinator.Auth.Certs.{
  nonce_bytes, mac_bytes, is_space, remove_spaces, Crypto, IsLawful, cert_key, get_cached_cert,
  keep_cert, get_encoded_local_cert, message_size, open_cert, process_remote_cert,
}

remove_spaces_none : (t : Text) → All (λ c. is_space c ≡ false) t → remove_spaces t ≡ t
unfolding remove_spaces
remove_spaces_none [] h = refl
remove_spaces_none (c ∷ cs) (h, hs) = rw h (ap (λ ds. c ∷ ds) (remove_spaces_none cs hs))

kept_cert :
    (hostname : Text) (ips : MdnsIpPair) (cert : Text) (a : Auth)
    → get_cached_cert hostname ips (keep_cert (cert_key hostname ips) cert a) ≡ cert
unfolding get_cached_cert keep_cert
kept_cert hostname ips cert a = rw (text_eq_refl (cert_key hostname ips), get_cached_cert) refl

kept_other :
    (key cert q : Text) (a : Auth)
    → q ≢ key
    → (keep_cert key cert a).remote_certs q ≡ a.remote_certs q
unfolding keep_cert
kept_other key cert q a ne = elim (Bool-cases (text_eq q key)) [
  | inl e ↦ absurd (ne ((text_eq_iff q key).0 e))
  | inr e ↦ rw e refl
]

module _ (k : Crypto) where
  message_size_lem : (d : Text) (n : ℕ) → length d ≡ n + 40 → n < 2 ^ 63 → message_size k d ≡ n
  unfolding message_size
  message_size_lem d n e h = omega arith

  message_size_short :
      (d : Text)
      → nonce_bytes < length d
      → length d < nonce_bytes + mac_bytes
      → 2 ^ 63 < message_size k d
  unfolding message_size
  message_size_short d h l = omega arith

  open_cert_lem :
      (hostname : Text) (ips : MdnsIpPair) (d cert : Text) (a : Auth)
      → length d ≡ length cert + 40
      → 0 < length cert
      → length cert < 2 ^ 63
      → k.secretbox_open (drop nonce_bytes d) (take nonce_bytes d) (k.sha256 (k.utf8 a.code))
        ≡ some cert
      → open_cert k hostname ips d a ≡ some (true, keep_cert (cert_key hostname ips) cert a)
  unfolding open_cert
  open_cert_lem hostname ips d cert a size positive bounded opened =
      let n : message_size k d ≡ length cert = message_size_lem d (length cert) size bounded in
      let long : leb (length d) nonce_bytes ≡ false = ground (arith, size) in
      let allocated : ltb (message_size k d) (2 ^ 63) ≡ true = ground (arith, n) in
      let full : (message_size k d == 0) ≡ false = ground (arith, n) in
      rw long (rw allocated (rw (opened, open_cert) (rw full refl)))

  process_eq :
      (hostname : Text) (ips : MdnsIpPair) (t d : Text) (a : Auth)
      → t ≢ []
      → k.base64_decode (remove_spaces t) ≡ some d
      → process_remote_cert k hostname ips t a ≡ open_cert k hostname ips d a
  unfolding process_remote_cert
  process_eq hostname ips [] d a ne e = absurd (ne refl)
  process_eq hostname ips (c ∷ cs) d a ne e = rw (e, process_remote_cert) refl

  module _ (lawful : IsLawful k) where
    process_encoded :
        (nonce hostname : Text) (ips : MdnsIpPair) (a b : Auth)
        → length nonce ≡ nonce_bytes
        → a.code ≡ b.code
        → 0 < length a.server_pub_key
        → length a.server_pub_key < 2 ^ 63
        → process_remote_cert k hostname ips (get_encoded_local_cert k nonce a) b
          ≡ some (true, keep_cert (cert_key hostname ips) a.server_pub_key b)
    unfolding get_encoded_local_cert
    process_encoded nonce hostname ips a b sized same positive bounded =
        let key = k.sha256 (k.utf8 a.code) in
        let box = k.secretbox a.server_pub_key nonce key in
        let decoded = nonce ++ box in
        let long : length decoded ≡ length a.server_pub_key + 40 = ground (
          arith,
          length-append nonce box,
          lawful.length-secretbox a.server_pub_key nonce key,
          sized,
        ) in
        let encoded = k.base64_encode decoded in
        let present : encoded ≢ [] =
          λ e. absurd (omega (arith, ap length (lawful.encode_empty decoded e), long)) in
        let decodes : k.base64_decode (remove_spaces encoded) ≡ some decoded =
          ap k.base64_decode (remove_spaces_none encoded (lawful.encode_spaces decoded))
          ∙ lawful.decode-encode decoded in
        let opens : k.secretbox_open (drop nonce_bytes decoded) (take nonce_bytes decoded)
              (k.sha256 (k.utf8 b.code))
            ≡ some a.server_pub_key =
          ap (λ n. k.secretbox_open (drop n decoded) (take n decoded) (k.sha256 (k.utf8 b.code)))
            (sym sized)
          ∙ ap (λ x. k.secretbox_open x (take (length nonce) decoded) (k.sha256 (k.utf8 b.code)))
              (drop-append_self nonce box)
          ∙ ap (λ x. k.secretbox_open box x (k.sha256 (k.utf8 b.code))) (take-append_self nonce box)
          ∙ ap (λ c. k.secretbox_open box nonce (k.sha256 (k.utf8 c))) (sym same)
          ∙ lawful.open-secretbox a.server_pub_key nonce key in
        process_eq hostname ips encoded decoded b present decodes
        ∙ open_cert_lem hostname ips decoded a.server_pub_key b long positive bounded opens

    -- The certificate that a host sends is taken by every host with the same group code, whose other
    -- certificates stay: it is the one that is found for the sender's name and address then.
    pub process-get_encoded_local_cert :
        (nonce hostname : Text) (ips : MdnsIpPair) (a b : Auth)
        → length nonce ≡ nonce_bytes
        → a.code ≡ b.code
        → 0 < length a.server_pub_key
        → length a.server_pub_key < 2 ^ 63
        → (q : Text) → q ≢ cert_key hostname ips
        → (c : Auth) × (process_remote_cert k hostname ips (get_encoded_local_cert k nonce a) b
            ≡ some (true, c))
          × (get_cached_cert hostname ips c ≡ a.server_pub_key)
          × (c.remote_certs q ≡ b.remote_certs q)
    process-get_encoded_local_cert nonce hostname ips a b sized same positive bounded q ne = (
      keep_cert (cert_key hostname ips) a.server_pub_key b,
      process_encoded nonce hostname ips a b sized same positive bounded,
      kept_cert hostname ips a.server_pub_key b,
      kept_other (cert_key hostname ips) a.server_pub_key q b ne,
    )

  -- A reply whose decoding is longer than the nonce but shorter than the nonce with the code of
  -- authentication makes the size wrap around, and the call ends in an exception.
  pub process_remote_cert_short :
      (hostname : Text) (ips : MdnsIpPair) (t d : Text) (a : Auth)
      → t ≢ []
      → k.base64_decode (remove_spaces t) ≡ some d
      → nonce_bytes < length d
      → length d < nonce_bytes + mac_bytes
      → process_remote_cert k hostname ips t a ≡ none
  process_remote_cert_short hostname ips t d a ne e long short =
      let huge = message_size_short d long short in
      let over : leb (length d) nonce_bytes ≡ false = ground arith in
      let refused : ltb (message_size k d) (2 ^ 63) ≡ false = ground (arith, huge) in
      process_eq hostname ips t d a ne e ∙ (unfold open_cert in rw over (rw refused refl))

  -- A reply that was taken: it decodes, the box in it opens with the group code of this host, and its
  -- message is what is kept.
  pub record Taken (hostname : Text) (ips : MdnsIpPair) (t : Text) (a b : Auth) : Type 0 where
    pub decoded : Text
    pub cert : Text
    pub decodes : k.base64_decode (remove_spaces t) ≡ some decoded
    pub opens :
        k.secretbox_open
          (drop nonce_bytes decoded)
          (take nonce_bytes decoded)
          (k.sha256 (k.utf8 a.code))
        ≡ some cert
    pub kept : b ≡ keep_cert (cert_key hostname ips) cert a

  abbrev Answered : Text → MdnsIpPair → Text → Auth → Option (Bool × Auth) → Type 0
  Answered hostname ips t a none = Unit
  Answered hostname ips t a (some (false, b)) = b ≡ a
  Answered hostname ips t a (some (true, b)) = Taken hostname ips t a b

  opened-Answered :
      (hostname : Text) (ips : MdnsIpPair) (t d : Text) (a : Auth)
      → k.base64_decode (remove_spaces t) ≡ some d
      → Answered hostname ips t a (open_cert k hostname ips d a)
  unfolding open_cert
  opened-Answered hostname ips t d a e = elim (Bool-cases (leb (length d) nonce_bytes)) [
    | inl f ↦ rw f refl
    | inr f ↦ elim (Bool-cases (ltb (message_size k d) (2 ^ 63))) [
      | inr g ↦ rw f (rw g tt)
      | inl g ↦
          elim (Option-cases (
            k.secretbox_open (drop nonce_bytes d) (take nonce_bytes d)
              (k.sha256 (k.utf8 a.code)))) [
                | inl o ↦ rw f (rw g (rw (o, open_cert) refl))
                | inr (cert, o) ↦ elim (Bool-cases (message_size k d == 0)) [
                  | inl z ↦ rw f (rw g (rw (o, open_cert) (rw z refl)))
                  | inr z ↦ rw f (
                      rw g (
                        rw (o, open_cert)
                          (rw z record {
                            decoded = d;
                            cert = cert;
                            decodes = e;
                            opens = o;
                            kept = refl;
                          })))
                ]
              ]
    ]
  ]

  processed-Answered :
      (hostname : Text) (ips : MdnsIpPair) (t : Text) (a : Auth)
      → Answered hostname ips t a (process_remote_cert k hostname ips t a)
  processed-Answered hostname ips [] a = unfold process_remote_cert in refl
  processed-Answered hostname ips (c ∷ cs) a =
      elim (Option-cases (k.base64_decode (remove_spaces (c ∷ cs)))) [
        | inl e ↦ unfold process_remote_cert in rw (e, process_remote_cert) tt
        | inr (d, e) ↦
            unfold process_remote_cert in
            rw (e, process_remote_cert) (opened-Answered hostname ips (c ∷ cs) d a e)
      ]

  -- A reply that is taken decodes to a nonce and a box that opens with this host's group code, and only
  -- its message is kept, for the host that was asked; one that is refused changes nothing.
  pub process_remote_cert_cases :
      (hostname : Text) (ips : MdnsIpPair) (t : Text) (a b : Auth) (ok : Bool)
      → process_remote_cert k hostname ips t a ≡ some (ok, b)
      → ((ok ≡ false) × (b ≡ a)) ⊎ ((ok ≡ true) × Taken hostname ips t a b)
  process_remote_cert_cases hostname ips t a b false h =
      inl (refl, subst (Answered hostname ips t a) h (processed-Answered hostname ips t a))
  process_remote_cert_cases hostname ips t a b true h =
      inr (refl, subst (Answered hostname ips t a) h (processed-Answered hostname ips t a))
