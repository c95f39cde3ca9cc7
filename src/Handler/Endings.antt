-- ===== src/Handler/Endings.antt =====
-- How the thread of a remote ends: `process` of src/service/remote_handler.cpp in both versions, and
-- what the host list of src/service/remote_manager.cpp makes of a host whose thread has ended.
use winpinator.Prelude.{
  ℕ, zero, suc, ◌≡◌, refl, sym, ap, ◌⊎◌, inl, inr, Bool, true, false, not, ◌&&◌, List, [], ◌∷◌,
  ◌++◌, Option, none, some, Text, ltb, Bool-cases, if◌then◌else◌, if_cases, subst, length, All,
}
use winpinator.Remotes.Types.{offline, unreachable, awaiting_duplex, online}
use winpinator.Handler.Link.{
  Told, edited, asked_info, asked_avatar, Link, duplex_max_failures, set_remote_status, set_stub,
  stop_if, go_online, machine_info_received,
}
use winpinator.Handler.Secure.{
  take_answer, Round, Loop, Next, again, leaves, gives, wait_round, duplex_failed, check_duplex,
  ping_round, ping_loop, Attempt, connected_loop, secure_loop_v1, process_v1, follow, leave_loop,
  process_next, seen_at_end,
}
use winpinator.Handler.SecureTwo.{
  AttemptTwo, shown_again, close_channel, secure_loop_v2, process_v2,
}

-- Only a stopped remote makes a round end the connection for good.
abbrev StopsOnly : Loop × Next → Type 0
StopsOnly (s, gives false) = s.link.info.stopping ≡ true
StopsOnly (s, gives true) = Unit
StopsOnly (s, again) = Unit
StopsOnly (s, leaves) = Unit

negated-StopsOnly : (s : Loop) (b : Bool) → b ≡ s.link.info.stopping → StopsOnly (s, gives (not b))
negated-StopsOnly s true e = sym e
negated-StopsOnly s false e = tt

module _ (w : Round) where
  wait-StopsOnly : (s : Loop) → StopsOnly (wait_round w s)
  unfolding wait_round
  wait-StopsOnly s =
      let t = record s { link = stop_if w.stopped_by_end s.link } in
      if_cases StopsOnly t.link.info.stopping (t, gives false) (t, again) (λ e. e) (λ e. tt)

  failed-StopsOnly : (s : Loop) → StopsOnly (duplex_failed w s)
  unfolding duplex_failed
  failed-StopsOnly s =
      let t = record s { duplex_fail_counter = suc s.duplex_fail_counter } in
      let late = record t { link = stop_if w.stopped_by_end t.link } in
      if_cases StopsOnly (ltb duplex_max_failures t.duplex_fail_counter)
        (late, gives (not late.link.info.stopping)) (wait_round w t)
        (λ e. negated-StopsOnly late late.link.info.stopping refl) (λ e. wait-StopsOnly t)

  check-StopsOnly : (s : Loop) → StopsOnly (check_duplex w s)
  unfolding check_duplex
  check-StopsOnly s =
      let asked = record s { link = set_remote_status awaiting_duplex s.link } in
      let shown = record asked {
        link = go_online asked.link;
        one_ping = true;
        info_pending = true;
      } in
      if_cases StopsOnly w.duplex_ok (wait_round w shown) (duplex_failed w asked)
        (λ e. wait-StopsOnly shown) (λ e. failed-StopsOnly asked)

  ping-StopsOnly : (s : Loop) → StopsOnly (ping_round w s)
  unfolding ping_round
  ping-StopsOnly s =
      let r = take_answer w.info_answer s in
      let t = record r { link = stop_if w.stopped_before r.link } in
      let idle = record t { link = record t.link { info = record t.link.info { busy = false } } } in
      let pinged : Loop × Next = if t.one_ping then wait_round w t else check_duplex w t in
      let asked : Loop × Next = if not w.ping_ok then (t, leaves) else pinged in
      if_cases StopsOnly t.link.info.stopping (t, leaves)
        (if t.link.info.busy then wait_round w idle else asked) (λ e. tt)
        (λ e.
          if_cases StopsOnly t.link.info.busy (wait_round w idle) asked (λ f. wait-StopsOnly idle)
            (λ f.
              if_cases StopsOnly (not w.ping_ok) (t, leaves) pinged (λ g. tt)
                (λ g.
                  if_cases StopsOnly t.one_ping (wait_round w t) (check_duplex w t)
                    (λ p. wait-StopsOnly t) (λ p. check-StopsOnly t))))

follow-StopsOnly :
    (more : Loop → Loop × Next) (r : Loop × Next)
    → ((t : Loop) → StopsOnly (more t))
    → StopsOnly r
    → StopsOnly (follow more r)
unfolding follow
follow-StopsOnly more (t, again) f h = f t
follow-StopsOnly more (t, leaves) f h = tt
follow-StopsOnly more (t, gives b) f h = h

ping_loop-StopsOnly : (ws : List Round) (s : Loop) → StopsOnly (ping_loop ws s)
unfolding ping_loop
ping_loop-StopsOnly [] s = tt
ping_loop-StopsOnly (w ∷ ws) s =
    follow-StopsOnly (ping_loop ws) (ping_round w s) (ping_loop-StopsOnly ws) (ping-StopsOnly w s)

-- The remote has been stopped, or its announcement is gone.
abbrev pub Released : Link → Type 0
Released l = (l.info.stopping ≡ true) ⊎ (l.info.has_zc_presence ≡ false)

abbrev EndsReleased : Link × Option Bool → Type 0
EndsReleased (l, none) = Unit
EndsReleased (l, some true) = Unit
EndsReleased (l, some false) = Released l

conjunction-EndsReleased :
    (l : Link) (b c : Bool)
    → b ≡ l.info.has_zc_presence
    → c ≡ l.info.stopping
    → EndsReleased (l, some (b && not c))
conjunction-EndsReleased l false c e f = inr (sym e)
conjunction-EndsReleased l true true e f = inl (sym f)
conjunction-EndsReleased l true false e f = tt

leave-EndsReleased : (a : Attempt) (r : Loop × Next) → StopsOnly r → EndsReleased (leave_loop a r)
unfolding leave_loop
leave-EndsReleased a (s, again) h = tt
leave-EndsReleased a (s, leaves) h =
    let seen = seen_at_end a s.link in
    conjunction-EndsReleased seen seen.info.has_zc_presence seen.info.stopping refl refl
leave-EndsReleased a (s, gives true) h = tt
leave-EndsReleased a (s, gives false) h = inl h

not-EndsReleased : (l : Link) (b : Bool) → b ≡ l.info.stopping → EndsReleased (l, some (not b))
not-EndsReleased l true e = inl (sym e)
not-EndsReleased l false e = tt

secure_loop_v1-EndsReleased : (a : Attempt) (l : Link) → EndsReleased (secure_loop_v1 a l)
unfolding secure_loop_v1
secure_loop_v1-EndsReleased a l =
    let lost = stop_if a.stopped_at_end (set_remote_status unreachable l) in
    let start : Loop = record {
      link = set_stub true l;
      one_ping = false;
      duplex_fail_counter = 0;
      info_pending = false;
    } in
    if_cases EndsReleased a.connects (connected_loop a l) (lost, some (not lost.info.stopping))
      (λ e. leave-EndsReleased a (ping_loop a.rounds start) (ping_loop-StopsOnly a.rounds start))
      (λ e. not-EndsReleased lost lost.info.stopping refl)

-- A thread that has ended: the host is shown as offline, last of all, and was released.
pub record Ended (l : Link) : Type 0 where
  pub shown : l.info.state ≡ offline
  pub before : List Told
  pub last : l.log ≡ edited offline ∷ before
  pub released : Released l

abbrev EndedIf : Link × Bool → Type 0
EndedIf (l, false) = Unit
EndedIf (l, true) = Ended l

next-EndedIf :
    (more : Link → Link × Bool) (r : Link × Option Bool)
    → ((t : Link) → EndedIf (more t))
    → EndsReleased r
    → EndedIf (process_next more r)
unfolding process_next
next-EndedIf more (t, none) f h = tt
next-EndedIf more (t, some true) f h = f t
next-EndedIf more (t, some false) f h = record {
  shown = refl;
  before = t.log;
  last = refl;
  released = h;
}

process_v1-EndedIf : (attempts : List Attempt) (l : Link) → EndedIf (process_v1 attempts l)
unfolding process_v1
process_v1-EndedIf [] l = tt
process_v1-EndedIf (a ∷ rest) l =
    next-EndedIf (process_v1 rest) (secure_loop_v1 a l) (process_v1-EndedIf rest)
      (secure_loop_v1-EndsReleased a l)

pub process_v1-Ended :
    (attempts : List Attempt) (l t : Link) → process_v1 attempts l ≡ (t, true) → Ended t
process_v1-Ended attempts l t e = subst EndedIf e (process_v1-EndedIf attempts l)

-- The tries that come to no connection.
abbrev pub lost_tries : ℕ → List Told → List Told
lost_tries zero log = log
lost_tries (suc n) log = lost_tries n (edited unreachable ∷ log)

-- What a connection of the second version tells.
abbrev pub told_over : Bool → Option Text → List Told → List Told
told_over true none log = asked_avatar ∷ asked_info ∷ edited online ∷ edited awaiting_duplex ∷ log
told_over true (some name) log =
    edited online ∷ asked_avatar ∷ asked_info ∷ edited online ∷ edited awaiting_duplex ∷ log
told_over false answer log = edited unreachable ∷ edited awaiting_duplex ∷ log

abbrev pub Fails : AttemptTwo → Type 0
Fails a = (a.connects ≡ false) × (a.stopped ≡ false)

-- The thread over these connections ends so.
pub record Once (duplex_ok : Bool) (answer : Option Text) (log : List Told) (r : Link × Bool)
    : Type 0 where
  pub over : r.1 ≡ true
  pub offline_last : r.0.info.state ≡ offline
  pub stopped_last : r.0.info.stopping ≡ true
  pub told_all : r.0.log ≡ edited offline ∷ told_over duplex_ok answer log

stopped_process :
    (rest : List AttemptTwo) (l : Link)
    → l.info.stopping ≡ true
    → process_v2 rest l ≡ (set_remote_status offline l, true)
unfolding process_v2
stopped_process [] l e = simp e
stopped_process (a ∷ rest) l e = simp e

shown-told :
    (answer : Option Text) (l : Link)
    → (shown_again answer (go_online (set_remote_status awaiting_duplex (set_stub true l)))).log
      ≡ told_over true answer l.log
unfolding shown_again machine_info_received go_online set_stub
shown-told none l = refl
shown-told (some name) l = refl

secure_connected :
    (a : AttemptTwo) (l : Link)
    → a.connects ≡ true
    → (t : Link) × ((secure_loop_v2 a l).0 ≡ close_channel t)
      × (t.log ≡ told_over a.duplex_ok a.info_answer l.log)
unfolding secure_loop_v2
secure_connected a l c =
    let waiting = set_remote_status awaiting_duplex (set_stub true l) in
    elim (Bool-cases a.duplex_ok) [
      | inl d ↦ (
        stop_if a.stopped (shown_again a.info_answer (go_online waiting)),
        simp (c, d),
        subst
            (λ b.
              (shown_again a.info_answer (go_online waiting)).log ≡ told_over b a.info_answer l.log)
            (sym d) (shown-told a.info_answer l),
      )
      | inr d ↦ (stop_if a.stopped (set_remote_status unreachable waiting), simp (c, d), simp d)
    ]

closed_stopping : (t : Link) → (close_channel t).info.stopping ≡ true
unfolding close_channel
closed_stopping t = elim (Bool-cases t.info.stopping) [ inl e ↦ simp e | inr e ↦ simp e ]

process_step :
    (a : AttemptTwo) (rest : List AttemptTwo) (l : Link)
    → l.info.stopping ≡ false
    → process_v2 (a ∷ rest) l ≡ process_v2 rest (secure_loop_v2 a l).0
unfolding process_v2
process_step a rest l s = simp s

process_connected :
    (a : AttemptTwo) (rest : List AttemptTwo) (l : Link)
    → a.connects ≡ true
    → l.info.stopping ≡ false
    → Once a.duplex_ok a.info_answer l.log (process_v2 (a ∷ rest) l)
process_connected a rest l c s =
    let (t, closed, told) = secure_connected a l c in
    rw (process_step a rest l s, closed, stopped_process rest (close_channel t) (closed_stopping t))
      (unfold close_channel set_remote_status in
        record {
          over = refl;
          offline_last = refl;
          stopped_last = closed_stopping t;
          told_all = ap (◌∷◌ (edited offline)) told;
        })

secure_failed :
    (a : AttemptTwo) (l : Link)
    → Fails a
    → l.info.stopping ≡ false
    → ((secure_loop_v2 a l).0.info.stopping ≡ false)
      × ((secure_loop_v2 a l).0.log ≡ edited unreachable ∷ l.log)
unfolding secure_loop_v2
secure_failed a l (c, f) s = (simp (c, f, s), simp c)

-- A thread of the second version tries again only until it has been connected once: after any number
-- of tries that come to no connection, the first that does is the last, whatever else could follow, also
-- where the other host leaves the duplex question unanswered. The thread then ends, stopped, with the
-- host shown as offline.
pub process_v2-Once :
    (failed : List AttemptTwo) (a : AttemptTwo) (rest : List AttemptTwo) (l : Link)
    → All Fails failed
    → a.connects ≡ true
    → l.info.stopping ≡ false
    → Once a.duplex_ok a.info_answer
        (lost_tries (length failed) l.log)
        (process_v2 (failed ++ a ∷ rest) l)
process_v2-Once [] a rest l h c s = process_connected a rest l c s
process_v2-Once (b ∷ bs) a rest l (h, hs) c s =
    let (s', told) = secure_failed b l h s in
    rw (process_step b (bs ++ a ∷ rest) l s) (
      subst
        (λ log.
          Once a.duplex_ok a.info_answer (lost_tries (length bs) log)
            (process_v2 (bs ++ a ∷ rest) (secure_loop_v2 b l).0))
        told (process_v2-Once bs a rest (secure_loop_v2 b l).0 hs c s'))
