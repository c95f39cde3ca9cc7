-- ===== src/Receiver/Confined.antt =====
-- Where `processData` of src/service/transfer_manager_reactor.cpp writes, whatever the other host sends.
use winpinator.Prelude.{
  ℕ, suc, ◌≡◌, refl, sym, ap, ◌∙◌, subst, ◌⊎◌, inl, inr, Bool, true, false, not, List, [], ◌∷◌,
  Text, text_eq, Option, none, some, length, ◌==◌, Bool-cases, Option-cases, if◌then◌else◌,
}
use winpinator.Prelude.Int.{pos}
use winpinator.Transfers.Types.{regular_file_type, directory_type}
use winpinator.Transfers.State.{Env, Manager, emit, get_transfer_info}
use winpinator.Transfers.Finish.{do_finish_transfer, finish_op}
use winpinator.Transfers.Control.{set_status, request_stop_transfer}
use winpinator.Sender.Files.{FileChunk}
use winpinator.Receiver.Disk.{zone_stream, FileSystem, IsLawful}
use winpinator.Receiver.Progress.{
  contains, is_empty, get_absolute_path, update_paths, update_progress,
}
use winpinator.Receiver.Files.{
  Call, Receiving, write_open, fail_op, process_file, process_directory, process_at, process_data,
  received_bytes, on_read_done, receive,
}
use winpinator.Receiver.Writes.{paths-output_path, progress-output_path, zoned, zoned-content}
use winpinator.Receiver.Safety.{contains-append, get_absolute_path_cases}

finish-output_path :
    (env : Env) (r : Text) (i : ℕ) (m : Manager)
    → (do_finish_transfer env r i m).output_path ≡ m.output_path
unfolding finish_op
finish-output_path env r i m = elim (Option-cases (get_transfer_info r i m)) [
  | inl e ↦ unfold do_finish_transfer in rw (e, do_finish_transfer) refl
  | inr (p, e) ↦ unfold do_finish_transfer in rw (e, do_finish_transfer) refl
]

abbrev HasOutput : Text → Option Manager → Type 0
HasOutput output none = Unit
HasOutput output (some n) = n.output_path ≡ output

called-HasOutput :
    (env : Env) (r : Text) (i : ℕ) (has_stub ok : Bool) (output : Text) (called marked : Manager)
    → called.output_path ≡ output
    → marked.output_path ≡ output
    → HasOutput output (
        if not has_stub
        then none
        else if not ok
        then some called
        else some (do_finish_transfer env r i marked))
called-HasOutput env r i false ok output called marked h k = tt
called-HasOutput env r i true false output called marked h k = h
called-HasOutput env r i true true output called marked h k = finish-output_path env r i marked ∙ k

stop-HasOutput :
    (env : Env) (r : Text) (i : ℕ) (m : Manager)
    → HasOutput m.output_path (request_stop_transfer env r i true m)
stop-HasOutput env r i m = elim (Option-cases (get_transfer_info r i m)) [
  | inl e ↦ unfold request_stop_transfer in rw (e, request_stop_transfer) refl
  | inr (p, e) ↦ elim (Option-cases (env.remote r)) [
    | inl f ↦ unfold request_stop_transfer in rw (e, request_stop_transfer) (rw f refl)
    | inr (info, f) ↦
        unfold request_stop_transfer in
        rw (e, request_stop_transfer)
          (rw f (
            called-HasOutput env r i info.has_stub env.rpc_ok m.output_path _ _
              (unfold emit in refl) (unfold set_status emit in refl)))
  ]
]

module _ (fs : FileSystem) where
  abbrev pub IsOpenInside : Text → Option Text → Type 0
  IsOpenInside output none = Unit
  IsOpenInside output (some path) = contains output path ≡ true

  -- No path that contains the output path names the file.
  abbrev pub IsOutside : Text → Text → Type 0
  IsOutside output q = (p : Text) → contains output p ≡ true → fs.same_file p q ≡ false

  -- From `s` to `t` only files under the output path have changed, and the open one is there.
  pub record Confined (output : Text) (s t : Receiving fs) : Type 0 where
    pub outside : (q : Text) → IsOutside output q → fs.content t.disk q ≡ fs.content s.disk q
    pub same_output : t.manager.output_path ≡ output
    pub opened : IsOpenInside output t.handle.open_file

  abbrev ConfinedTo : Text → Receiving fs → Option (Receiving fs) → Type 0
  ConfinedTo output s none = Unit
  ConfinedTo output s (some t) = Confined output s t

  Confined-trans :
      (output : Text) (s t u : Receiving fs)
      → Confined output s t
      → Confined output t u
      → Confined output s u
  Confined-trans output s t u first second = record {
    outside = λ q h. second.outside q h ∙ first.outside q h;
    same_output = second.same_output;
    opened = second.opened;
  }

  ConfinedTo-trans :
      (output : Text) (s t : Receiving fs) (o : Option (Receiving fs))
      → Confined output s t
      → ConfinedTo output t o
      → ConfinedTo output s o
  ConfinedTo-trans output s t none first second = tt
  ConfinedTo-trans output s t (some u) first second = Confined-trans output s t u first second

  outside_zone :
      (output abs q : Text)
      → contains output abs ≡ true
      → IsOutside output q
      → fs.same_file (zone_stream abs) q ≡ false
  outside_zone output abs q h k = k (zone_stream abs) (contains-append output abs _ h)

  module _ (lawful : IsLawful fs) (env : Env) (call : Call) (output : Text) where
    fail_op-ConfinedTo :
        (s t : Receiving fs) → Confined output s t → ConfinedTo output s (fail_op fs env call t)
    fail_op-ConfinedTo s t c =
        elim (Option-cases
          (request_stop_transfer env call.remote_id (t.manager.ops call.op).id true t.manager)) [
            | inl e ↦ unfold fail_op in rw (e, fail_op) tt
            | inr (m, e) ↦
                unfold fail_op in
                rw (e, fail_op)
                  record {
                    outside = c.outside;
                    same_output =
                        subst (HasOutput t.manager.output_path) e
                          (stop-HasOutput env call.remote_id (t.manager.ops call.op).id t.manager)
                        ∙ c.same_output;
                    opened = c.opened;
                  }
          ]

    write_open-content :
        (open_file : Option Text) (bytes q : Text) (disk : fs.State)
        → IsOpenInside output open_file
        → IsOutside output q
        → fs.content (write_open fs open_file bytes disk) q ≡ fs.content disk q
    unfolding write_open
    write_open-content none bytes q disk h k = refl
    write_open-content (some path) bytes q disk h k =
        lawful.content-write_other disk path q bytes (k path h)

    process_file-ConfinedTo :
        (name abs bytes : Text) (s : Receiving fs)
        → contains output abs ≡ true
        → s.manager.output_path ≡ output
        → IsOpenInside output s.handle.open_file
        → ConfinedTo output s (process_file fs env call name abs bytes s)
    process_file-ConfinedTo name abs bytes s inside out opened =
        elim (Bool-cases (text_eq name s.handle.file_ptr_path)) [
          | inl e ↦
              unfold process_file in
              rw e record {
                outside = λ q k. write_open-content s.handle.open_file bytes q s.disk opened k;
                same_output = out;
                opened = opened;
              }
          | inr e ↦ elim (Option-cases (fs.create s.disk abs call.can_overwrite)) [
            | inl f ↦
                unfold process_file in
                rw e (
                  rw (f, process_file)
                    (fail_op-ConfinedTo s _
                      record { outside = λ q k. refl; same_output = out; opened = tt }))
            | inr (created, f) ↦
                unfold process_file in
                rw e (
                  rw (f, process_file)
                    record {
                      outside = λ q k.
                          lawful.content-write_other
                            (zoned fs lawful s.manager.preserve_zone_info abs created) abs q bytes
                            (k abs inside)
                          ∙ zoned-content fs lawful s.manager.preserve_zone_info abs q created
                              (outside_zone output abs q inside k)
                          ∙ lawful.content-create_other s.disk created abs q call.can_overwrite f
                              (k abs inside);
                      same_output = out;
                      opened = inside;
                    })
          ]
        ]

    cleared-content :
        (old : Bool) (abs q : Text) (disk : fs.State)
        → fs.same_file abs q ≡ false
        → fs.content (if old then fs.remove disk abs else disk) q ≡ fs.content disk q
    cleared-content true abs q disk ne = lawful.content-remove_other disk abs q ne
    cleared-content false abs q disk ne = refl

    process_directory-ConfinedTo :
        (abs : Text) (s : Receiving fs)
        → contains output abs ≡ true
        → s.manager.output_path ≡ output
        → IsOpenInside output s.handle.open_file
        → ConfinedTo output s (process_directory fs env call abs s)
    process_directory-ConfinedTo abs s inside out opened =
        let cleared = if fs.file_exists s.disk abs then fs.remove s.disk abs else s.disk in
        elim (Bool-cases (fs.dir_exists s.disk abs)) [
          | inl e ↦
              unfold process_directory in
              rw e record { outside = λ q k. refl; same_output = out; opened = opened }
          | inr e ↦ elim (Option-cases (fs.mkdir cleared abs)) [
            | inl f ↦
                unfold process_directory in
                rw e (
                  rw (f, process_directory)
                    (fail_op-ConfinedTo s _ record {
                      outside = λ q k.
                          cleared-content (fs.file_exists s.disk abs) abs q s.disk (k abs inside);
                      same_output = out;
                      opened = opened;
                    }))
            | inr (made, f) ↦
                unfold process_directory in
                rw e (
                  rw (f, process_directory)
                    record {
                      outside = λ q k.
                          lawful.content-mkdir cleared made abs q f
                          ∙ cleared-content (fs.file_exists s.disk abs) abs q s.disk (k abs inside);
                      same_output = out;
                      opened = opened;
                    })
          ]
        ]

    process_at-ConfinedTo :
        (chunk : FileChunk) (abs bytes : Text) (s : Receiving fs)
        → (abs ≡ []) ⊎ (contains output abs ≡ true)
        → s.manager.output_path ≡ output
        → IsOpenInside output s.handle.open_file
        → ConfinedTo output s (process_at fs env call chunk abs bytes s)
    process_at-ConfinedTo chunk abs bytes s place out opened =
        let same : Confined output s s = record {
          outside = λ q k. refl;
          same_output = out;
          opened = opened;
        } in
        elim place [
          | inl e ↦ unfold process_at in rw e same
          | inr inside ↦ elim (Bool-cases (is_empty abs)) [
            | inl e ↦ unfold process_at in rw e same
            | inr e ↦ elim (Bool-cases (chunk.file_type == regular_file_type)) [
              | inl f ↦
                  unfold process_at in
                  rw (e, f)
                    (process_file-ConfinedTo chunk.relative_path abs bytes s inside out opened)
              | inr f ↦ elim (Bool-cases (chunk.file_type == directory_type)) [
                | inl g ↦
                    unfold process_at in
                    rw (e, f, g) (process_directory-ConfinedTo abs s inside out opened)
                | inr g ↦ unfold process_at in rw (e, f, g) same
              ]
            ]
          ]
        ]

  module _ (lawful : IsLawful fs) (normalize : Text → Text → Option Text) (from_utf8 : Text → Text)
      (full_name_of : Text → Text) (decompress : Text → Text) (call : Call) (output : Text) where
    path_place :
        (path : Text) (found : Text)
        → found ≡ output
        → (get_absolute_path normalize found path ≡ [])
          ⊎ (contains output (get_absolute_path normalize found path) ≡ true)
    path_place path found e = elim (get_absolute_path_cases normalize found path) [
      | inl n ↦ inl n
      | inr (full, _, h, n) ↦
          inr (ap (λ a. contains output a) n ∙ ap (λ o. contains o full) (sym e) ∙ h)
    ]

    on_read_done-ConfinedTo :
        (env : Env) (chunk : FileChunk) (s : Receiving fs)
        → s.manager.output_path ≡ output
        → IsOpenInside output s.handle.open_file
        → ConfinedTo output s
            (on_read_done fs normalize from_utf8 full_name_of decompress env call chunk s)
    unfolding on_read_done process_data
    on_read_done-ConfinedTo env chunk s out opened =
        let bytes =
          received_bytes fs normalize from_utf8 full_name_of decompress call.use_compression
            chunk.chunk in
        let listed = update_paths normalize from_utf8 full_name_of call.op chunk s.manager in
        let counted = update_progress env call.remote_id call.op (pos (length bytes)) listed in
        let kept : counted.output_path ≡ output =
          progress-output_path env call.remote_id call.op (pos (length bytes)) listed
          ∙ paths-output_path normalize from_utf8 full_name_of call.op chunk s.manager
          ∙ out in
        ConfinedTo-trans output s (record s { manager = counted }) _
          record { outside = λ q k. refl; same_output = kept; opened = opened }
          (process_at-ConfinedTo lawful env call output chunk _ bytes
            (record s { manager = counted })
            (path_place (from_utf8 chunk.relative_path) counted.output_path kept) kept opened)

    receive-ConfinedTo :
        (envs : ℕ → Env) (i : ℕ) (chunks : List FileChunk) (s : Receiving fs)
        → s.manager.output_path ≡ output
        → IsOpenInside output s.handle.open_file
        → ConfinedTo output s
            (receive fs normalize from_utf8 full_name_of decompress envs i call chunks s)
    unfolding receive
    receive-ConfinedTo envs i [] s out opened = record {
      outside = λ q k. refl;
      same_output = out;
      opened = opened;
    }
    receive-ConfinedTo envs i (c ∷ cs) s out opened =
        let first = on_read_done-ConfinedTo (envs i) c s out opened in
        elim (Option-cases
          (on_read_done fs normalize from_utf8 full_name_of decompress (envs i) call c s)) [
            | inl e ↦ rw (e, receive) tt
            | inr (t, e) ↦
                let step : Confined output s t = subst (ConfinedTo output s) e first in
                rw (e, receive)
                  (ConfinedTo-trans output s t _ step
                    (receive-ConfinedTo envs (suc i) cs t step.same_output step.opened))
          ]

    -- Whatever chunks the other host sends, in whatever order and with whatever names, kinds and bytes,
    -- and however many bytes each write takes: a file that no path containing the output path names,
    -- under another spelling or through a link either, keeps its content, given that a file that is open
    -- before the first chunk has a path that contains the output path.
    pub receive-outside :
        (envs : ℕ → Env) (i : ℕ) (chunks : List FileChunk) (s t : Receiving fs)
        → s.manager.output_path ≡ output
        → IsOpenInside output s.handle.open_file
        → receive fs normalize from_utf8 full_name_of decompress envs i call chunks s ≡ some t
        → (q : Text) → IsOutside output q
        → fs.content t.disk q ≡ fs.content s.disk q
    receive-outside envs i chunks s t out opened h q k =
        let all : Confined output s t =
          subst (ConfinedTo output s) h (receive-ConfinedTo envs i chunks s out opened) in
        all.outside q k
