-- ===== src/Handler/Strangers.antt =====
-- Which reply registers a host: `doRegistrationV1` and `remoteThreadEntry` of
-- src/service/remote_manager.cpp.
use winpinator.Prelude.{
  ℕ, ◌+◌, ◌≡◌, refl, inl, inr, Bool, true, false, List, [], ◌∷◌, Text, Option, none, some, arith,
  ltb, if◌then◌else◌, if_cases,
}
use winpinator.Remotes.Types.{RemoteInfo}
use winpinator.Auth.State.{Auth}
use winpinator.Auth.Certs.{Crypto, process_remote_cert}
use winpinator.Auth.Exchange.{Taken, process_remote_cert_cases}
use winpinator.Handler.Link.{stop_if}
use winpinator.Handler.Register.{
  Reply, silence, stranger, from_host, retry_limit, Registration, asking, raised, registered,
  answered, do_registration_v1,
}
use winpinator.Handler.Thread.{
  Outside, Course, still_asking, broken_off, never_shown, handled, register, process, show_host,
  after_registration, remote_thread_entry,
}

-- The first datagram of the host itself.
abbrev pub first_from_host : List Reply → Option Text
first_from_host [] = none
first_from_host (silence stops ∷ rest) = first_from_host rest
first_from_host (stranger message ∷ rest) = first_from_host rest
first_from_host (from_host message ∷ rest) = some message

module _ (k : Crypto) (info : RemoteInfo) (a : Auth) where
  -- A registration that succeeds is that of a text, and one that fails changes nothing.
  abbrev RegisteredBy : Option Text → Registration → Type 0
  RegisteredBy first asking = Unit
  RegisteredBy first raised = Unit
  RegisteredBy first (registered false b) = b ≡ a
  RegisteredBy first (registered true b) =
      (t : Text) × (first ≡ some t) × Taken k info.hostname info.ips t a b

  answered-RegisteredBy :
      (t : Text) (o : Option (Bool × Auth))
      → process_remote_cert k info.hostname info.ips t a ≡ o
      → RegisteredBy (some t) (answered o)
  answered-RegisteredBy t none e = tt
  answered-RegisteredBy t (some (false, b)) e =
      elim (process_remote_cert_cases k info.hostname info.ips t a b false e) [
        | inl h ↦ h.1
        | inr h ↦ absurd (ground (arith, h.0))
      ]
  answered-RegisteredBy t (some (true, b)) e =
      elim (process_remote_cert_cases k info.hostname info.ips t a b true e) [
        | inl h ↦ absurd (ground (arith, h.0))
        | inr h ↦ (t, refl, h.1)
      ]

  registration-RegisteredBy :
      (tries : ℕ) (rs : List Reply)
      → RegisteredBy (first_from_host rs) (do_registration_v1 k info a tries rs)
  unfolding do_registration_v1
  registration-RegisteredBy tries [] = tt
  registration-RegisteredBy tries (silence stops ∷ rest) =
      let anew = do_registration_v1 k info a 0 rest in
      if_cases (RegisteredBy (first_from_host rest)) (ltb (tries + 1) retry_limit)
        (do_registration_v1 k info a (tries + 1) rest) (if stops then registered false a else anew)
        (λ e. registration-RegisteredBy (tries + 1) rest)
        (λ e.
          if_cases (RegisteredBy (first_from_host rest)) stops (registered false a) anew (λ f. refl)
            (λ f. registration-RegisteredBy 0 rest))
  registration-RegisteredBy tries (stranger message ∷ rest) = registration-RegisteredBy tries rest
  registration-RegisteredBy tries (from_host message ∷ rest) =
      answered-RegisteredBy message (process_remote_cert k info.hostname info.ips message a) refl

  -- What the thread has done with the certificates.
  abbrev pub Courses : Option Text → Course → Type 0
  Courses first still_asking = Unit
  Courses first broken_off = Unit
  Courses first (never_shown b l) = l.log ≡ []
  Courses first (handled b l over) =
      (t : Text) × (first ≡ some t) × Taken k info.hostname info.ips t a b

  after-Courses :
      (o : Outside) (first : Option Text) (r : Registration)
      → RegisteredBy first r
      → Courses first (after_registration o info r)
  unfolding after_registration
  after-Courses o first asking h = tt
  after-Courses o first raised h = tt
  after-Courses o first (registered false b) h = refl
  after-Courses o first (registered true b) h =
      let seen = stop_if o.stopped_between (record { info = info; log = [] }) in
      let (l, over) = process o (show_host seen.info) in
      if_cases (Courses first) seen.info.stopping (never_shown b seen) (handled b l over)
        (λ e. unfold stop_if in refl) (λ e. h)

  register_first :
      (o : Outside)
      → info.api_version ≡ 1
      → register k o info a ≡ do_registration_v1 k info a 0 o.replies
  unfolding register
  register_first o e = ground arith

  -- A host of the first version comes to its handler only by its own certificate: the first datagram
  -- from its address, after any number of silences and whatever strangers send in between, decodes to a
  -- box that this host's group code opens, and only the message of that box is kept for it. In
  -- every other case that ends the thread, nothing has been told of the host.
  pub remote_thread_entry-Courses :
      (o : Outside)
      → info.api_version ≡ 1
      → Courses (first_from_host o.replies) (remote_thread_entry k o info a)
  unfolding remote_thread_entry
  remote_thread_entry-Courses o e = rw (register_first o e) (
      after-Courses o (first_from_host o.replies) (do_registration_v1 k info a 0 o.replies)
        (registration-RegisteredBy 0 o.replies))
