-- ===== src/Client/Agreement.antt =====
-- The bytes that the client reads (sw/daemon/aos.hpp) against those that the daemon sends
-- (sw/daemon/aos_daemon.hpp).
use mathlib.Core.Path.{subst}
use amorphos_fsrf.Common.{
  bit_and, ◌^◌, minus_one, u64_max, ℕ, ◌≤◌, ◌≡◌, refl, ◌∙◌, Bool, true, false, Option, none, some,
  List, ◌∷◌, arith, ltb, ◌==◌, if◌then◌else◌, nonzero, Bool-cases, inl, inr, ◌%◌,
}
use amorphos_fsrf.Fio.{Fio, Run, ok, exited, aborted, undefined, thrown, running, Cmd}
use amorphos_fsrf.Fio.Control.{construct, set_mode, file_open, file_close}
use amorphos_fsrf.Fpga.{read_app_reg, write_app_reg}
use amorphos_fsrf.Fio.Sync.{msync}
use amorphos_fsrf.Fio.Map.{mmap, munmap}
use amorphos_fsrf.Protocol.{
  cntrlreg_read_response, cntrlreg_write_response, file_open_response, file_close_response,
  mmap_response, munmap_response, msync_response, set_mode_response, Command, response_size,
}
use amorphos_fsrf.Daemon.{
  Daemon, Handled, handled, died, Sent, after_method, on_fio, write_response, response_bytes,
  then_do,
}
use amorphos_fsrf.Daemon.Handlers.{
  ms_invalidate, head_of, put_int, handle_file_open, handle_file_close, handle_mmap, handle_munmap,
  handle_msync, handle_set_mode, handle_cntrlreg_read, handle_cntrlreg_write, reply, ensure_fio,
  handle_transaction, dispatch,
}
use amorphos_fsrf.Client.{
  aos_cntrlreg_read, aos_cntrlreg_write, aos_file_open, aos_file_close, aos_mmap, aos_munmap,
  aos_msync, aos_set_mode, Client, Call, exchange,
}

-- Every `write` of a response takes all its bytes.
abbrev pub IsWhole : Daemon → Type 0
IsWhole d = (t : List Sent) (cfd n : ℕ) → n ≤ d.platform.written t cfd n

-- A handled request has sent one response of `n` bytes, or nothing where `n` is 0.
abbrev pub Answers : ℕ → ℕ → List Sent → Handled → Type 0
Answers n cfd before died = Unit
Answers n cfd before (handled rc d) =
    if n == 0
    then d.sent ≡ before
    else ((v : ℕ) × (d.sent ≡ record { cfd = cfd; bytes = n; value = v } ∷ before))

reply-Answers :
    (cfd : ℕ) (cmd : Command) (failed : Bool) (d : Daemon)
    → IsWhole d
    → Answers (response_bytes cmd) cfd d.sent (reply cfd cmd failed d)
unfolding write_response
reply-Answers cfd cmd failed d w = elim (Bool-cases (response_bytes cmd == 0)) [
  | inl e ↦ rw e refl
  | inr e ↦ rw (e, short) (_, refl)
]
  where
    short : ltb (d.platform.written d.sent cfd (response_bytes cmd)) (response_bytes cmd) ≡ false
    short = ground (arith, w d.sent cfd (response_bytes cmd))

-- A daemon that has sent nothing since and stands on the same platform.
abbrev pub IsSame : Daemon → Daemon → Type 0
IsSame d d1 = (d1.sent ≡ d.sent) × (d1.platform ≡ d.platform)

reply_after-Answers :
    (cfd : ℕ) (cmd : Command) (failed : Bool) (d d1 : Daemon)
    → IsWhole d
    → IsSame d d1
    → Answers (response_bytes cmd) cfd d.sent (reply cfd cmd failed d1)
reply_after-Answers cfd cmd failed d d1 w (e, e') =
    subst (λ t. Answers (response_bytes cmd) cfd t (reply cfd cmd failed d1)) e
      (reply-Answers cfd cmd failed d1 (rw e' w))

-- What holds of a daemon that died and of every continuation holds after a method.
module _ (P : Handled → Type 0) (dead : P died) (d : Daemon) (app : ℕ) where
  after_method_lem :
      {A : Type 0} (k : A → Daemon → Handled)
      → ((a : A) (d1 : Daemon) → IsSame d d1 → P (k a d1))
      → (r : Run A) → P (after_method app d k r)
  after_method_lem k h (ok a s) = h a _ (refl, refl)
  after_method_lem k h exited = dead
  after_method_lem k h aborted = dead
  after_method_lem k h undefined = dead
  after_method_lem k h thrown = dead
  after_method_lem k h running = dead

  on_fio_lem :
      {A : Type 0} (method : Cmd A) (k : A → Daemon → Handled)
      → ((a : A) (d1 : Daemon) → IsSame d d1 → P (k a d1))
      → P (on_fio app method d k)
  unfolding on_fio
  on_fio_lem method k h = at (d.file_io app)
    where
      at :
          (o : Option Fio)
          → P (elim o [
            | none ↦ died
            | some s ↦ after_method app d k (method (record s { world = d.world }))
          ])
      at none = dead
      at (some s) = after_method_lem k h (method (record s { world = d.world }))

  ensure_fio_lem :
      (k : Bool → Daemon → Handled)
      → ((b : Bool) (d1 : Daemon) → IsSame d d1 → P (k b d1))
      → P (ensure_fio app d k)
  unfolding ensure_fio
  ensure_fio_lem k h = at (d.file_io app)
    where
      at :
          (o : Option Fio)
          → P (elim o [
            | some s ↦ k false d
            | none ↦
                after_method app d
                  (λ _ d1. k true d1)
                  (construct d.platform.pagemap d.platform.xfer_buf app d.platform.fresh_tlb
                    d.world)
          ])
      at (some s) = h false d (refl, refl)
      at none = after_method_lem (λ _ d1. k true d1) (λ _ d1 e. h true d1 e) _

-- A first step that sends nothing.
abbrev Quiet : Daemon → Handled → Type 0
Quiet d died = Unit
Quiet d (handled rc d1) = IsSame d d1

then_do-Answers :
    (n cfd : ℕ) (d : Daemon) (r : Handled) (k : ℕ → Daemon → Handled)
    → Quiet d r
    → ((rc : ℕ) (d1 : Daemon) → IsSame d d1 → Answers n cfd d.sent (k rc d1))
    → Answers n cfd d.sent (then_do r k)
then_do-Answers n cfd d died k q h = tt
then_do-Answers n cfd d (handled rc d1) k q h = h rc d1 q

module _ (cfd app : ℕ) (d : Daemon) (w : IsWhole d) where
  -- A method, and then the response, with the head of the packet written over.
  method-Answers :
      {A : Type 0} (cmd : Command) (failed : A → Bool) (change : A → Daemon → Daemon)
      (method : Cmd A)
      → ((a : A) (d1 : Daemon) → IsSame d1 (change a d1))
      → (d0 : Daemon) → IsSame d0 d
      → Answers
          (response_bytes cmd)
          cfd
          d0.sent
          (on_fio app method d (λ a d1. reply cfd cmd (failed a) (change a d1)))
  method-Answers cmd failed change method keeps d0 (e, e') =
      on_fio_lem (Answers (response_bytes cmd) cfd d0.sent) tt d app method
        (λ a d1. reply cfd cmd (failed a) (change a d1))
        (λ a d1 (q, q').
          let (r, r') = keeps a d1 in
          reply_after-Answers cfd cmd (failed a) d0 (change a d1) (rw (← e') w)
            (r ∙ q ∙ e, r' ∙ q' ∙ e'))

  mmap-Answers :
      (length prot flags fd offset : ℕ)
      → Answers 8 cfd d.sent (handle_mmap cfd app length prot flags fd offset d)
  unfolding handle_mmap response_bytes
  mmap-Answers length prot flags fd offset = elim (Bool-cases (nonzero (offset % 4096))) [
    | inl e ↦ rw e (failing (d.file_io app))
    | inr e ↦ rw e (
        method-Answers mmap_response (λ addr. addr == u64_max)
          (λ addr d1. record d1 { head = addr }) (mmap length prot flags fd offset)
          (λ a d1. (refl, refl)) d (refl, refl))
  ]
    where
      failing :
          (o : Option Fio)
          → Answers 8 cfd d.sent (elim o [ none ↦ died | some s ↦ reply cfd mmap_response true d ])
      failing none = tt
      failing (some s) = reply_after-Answers cfd mmap_response true d d w (refl, refl)

-- The first step of opening a file sends nothing.
first_mode : ℕ → Bool → Daemon → Handled
first_mode app b d = if b then on_fio app (set_mode 0 0) d (λ _ d2. handled 0 d2) else handled 0 d

first_mode-Quiet : (app : ℕ) (b : Bool) (d : Daemon) → Quiet d (first_mode app b d)
unfolding first_mode
first_mode-Quiet app true d =
    on_fio_lem (Quiet d) tt d app (set_mode 0 0) (λ _ d2. handled 0 d2) (λ _ d2 e. e)
first_mode-Quiet app false d = (refl, refl)

module _ (cfd app : ℕ) (d : Daemon) (w : IsWhole d) where
  open-Answers : (path : List ℕ) → Answers 4 cfd d.sent (handle_file_open cfd app path d)
  unfolding handle_file_open response_bytes first_mode
  open-Answers path =
      ensure_fio_lem (Answers 4 cfd d.sent) tt d app
        (λ new d1. then_do (first_mode app new d1) (opened new d1))
        (λ new d1 (e, e').
          subst (λ t. Answers 4 cfd t (then_do (first_mode app new d1) (opened new d1))) e
            (then_do-Answers 4 cfd d1 (first_mode app new d1) (opened new d1)
              (first_mode-Quiet app new d1)
              (λ rc d2 (q, q').
                method-Answers cfd app d2 (rw (q', e') w) file_open_response (λ fd. fd == minus_one)
                  put_int (file_open path) (λ a d3. (refl, refl)) d1 (q, q'))))
    where
      opened : Bool → Daemon → ℕ → Daemon → Handled
      opened new d1 rc d2 =
          on_fio app (file_open path) d2
            (λ fd d3. reply cfd file_open_response (fd == minus_one) (put_int fd d3))

  set_mode-Answers : (mode data_ : ℕ) → Answers 0 cfd d.sent (handle_set_mode cfd app mode data_ d)
  unfolding handle_set_mode response_bytes
  set_mode-Answers mode data_ =
      ensure_fio_lem (Answers 0 cfd d.sent) tt d app
        (λ new d1.
          on_fio app (set_mode mode data_) d1 (λ _ d2. reply cfd set_mode_response false d2))
        (λ new d1 (e, e').
          method-Answers cfd app d1 (rw e' w) set_mode_response (λ _. false) (λ _ d2. d2)
            (set_mode mode data_) (λ a d2. (refl, refl)) d (e, e'))

-- On connections that take all bytes, the daemon that handles the request of a client's call to its
-- end sends exactly one response, of as many bytes as the call reads, on the request's connection,
-- and none where the call reads none.
pub exchange-Answers :
    (realpath : List ℕ → List ℕ) (c : Client) (x : Call) (cfd : ℕ) (d : Daemon)
    → IsWhole d
    → Answers
        (exchange realpath c x).awaits
        cfd
        d.sent
        (handle_transaction cfd (exchange realpath c x).packet d)
unfolding exchange response_size handle_transaction dispatch handle_cntrlreg_read
    handle_cntrlreg_write handle_file_close handle_munmap handle_msync response_bytes head_of
exchange-Answers realpath c (aos_cntrlreg_read addr) cfd d w =
    let r = read_app_reg c.app_id addr 0 d.world in
    reply_after-Answers cfd cntrlreg_read_response (nonzero r.rc) d
      (record d { world = r.world; head = r.value }) w (refl, refl)
exchange-Answers realpath c (aos_cntrlreg_write addr value) cfd d w =
    let r = write_app_reg c.app_id addr value d.world in
    reply_after-Answers cfd cntrlreg_write_response (nonzero r.rc) d
      (record d { world = r.world; head = c.slot_id }) w (refl, refl)
exchange-Answers realpath c (aos_file_open path) cfd d w =
    open-Answers cfd c.app_id (record d { head = c.app_id }) w (realpath path)
exchange-Answers realpath c (aos_file_close fd) cfd d w =
    method-Answers cfd c.app_id (record d { head = c.app_id }) w file_close_response
      (λ rc. rc == minus_one) (λ _ d1. d1) (file_close fd) (λ a d1. (refl, refl)) d (refl, refl)
exchange-Answers realpath c (aos_mmap addr length prot flags fd offset) cfd d w =
    mmap-Answers cfd c.app_id (record d { head = c.app_id }) w length prot flags fd offset
exchange-Answers realpath c (aos_munmap addr length) cfd d w =
    method-Answers cfd c.app_id (record d { head = c.app_id }) w munmap_response (λ rc. nonzero rc)
      (λ _ d1. d1) (munmap addr length) (λ a d1. (refl, refl)) d (refl, refl)
exchange-Answers realpath c (aos_msync addr length flags) cfd d w =
    method-Answers cfd c.app_id (record d { head = c.app_id }) w msync_response (λ rc. nonzero rc)
      (λ _ d1. d1) (msync addr length (nonzero (bit_and (length % 2 ^ 32) ms_invalidate)))
      (λ a d1. (refl, refl)) d (refl, refl)
exchange-Answers realpath c (aos_set_mode mode data_) cfd d w =
    set_mode-Answers cfd c.app_id (record d { head = c.app_id }) w mode data_
