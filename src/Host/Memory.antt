-- ===== src/Host/Memory.antt =====
-- What the events of a trace mean for data: the pages of the device, of the files and of the
-- transfer buffer. The fields of a DMA command word are those of `dma_wrapper` in
-- sw/daemon/aos_fio.hpp. The engine is asynchronous: a command is only known to be performed once
-- the count of pages was read and shows it, so here it changes no page before that.
use amorphos_fsrf.Common.{
  ℕ, ◌+◌, ◌-◌, ◌*◌, ◌/◌, ◌%◌, ◌^◌, Bool, ◌&&◌, List, [], ◌∷◌, ltb, leb, ◌==◌, if◌then◌else◌,
}
use amorphos_fsrf.Host.{
  Trace, Event, poked, peeked, file_read, file_written, file_opened, file_closed, app_bar, sys_bar,
  mem_bar,
}

-- A page of 4096 bytes, as its 64-bit words.
abbrev pub Page : Type 0
Page = ℕ → ℕ

pub record Memory : Type 0 where
  pub device : ℕ → Page
  pub file : ℕ → ℕ → Page
  pub buffer : ℕ → Page

-- What a trace begins with: the engine's count of the pages of a channel, and how many whole pages
-- each file has.
pub record Outset : Type 0 where
  pub channel : ℕ
  pub count : ℕ
  pub pages : ℕ → ℕ

-- Pages `base` to `base + n` of the target become the first pages of the source.
abbrev pub paste : {A : Type 0} → (ℕ → A) → ℕ → ℕ → (ℕ → A) → ℕ → A
paste target base n source p =
    if leb base p && ltb p (base + n) then source (p - base) else target p

-- The first `n` pages of the buffer become the pages of the source from `base` on.
abbrev pub load : {A : Type 0} → (ℕ → A) → ℕ → ℕ → (ℕ → A) → ℕ → A
load buffer n base source k = if ltb k n then source (base + k) else buffer k

abbrev pub to_device : ℕ → ℕ → Memory → Memory
to_device ppn n m = record m { device = paste m.device ppn n m.buffer }

abbrev pub from_device : ℕ → ℕ → Memory → Memory
from_device ppn n m = record m { buffer = load m.buffer n ppn m.device }

abbrev pub from_file : ℕ → ℕ → ℕ → Memory → Memory
from_file fd pn n m = record m { buffer = load m.buffer n pn (m.file fd) }

abbrev pub to_file : ℕ → ℕ → ℕ → Memory → Memory
to_file fd pn n m = record m {
  file = λ fd'. if fd' == fd then paste (m.file fd') pn n m.buffer else m.file fd';
}

-- The registers of the transfer engine: the command, and a channel's count of pages.
abbrev pub dma_reg : ℕ
dma_reg = 72

abbrev pub count_reg : ℕ → ℕ
count_reg app = app * 128 + 72

-- The fields of a command word.
abbrev pub cmd_ppn : ℕ → ℕ
cmd_ppn v = v / 2 ^ 28 % 2 ^ 24

abbrev pub cmd_pages : ℕ → ℕ
cmd_pages v = v / 2 ^ 52 % 2 ^ 9 + 1

abbrev pub cmd_channel : ℕ → ℕ
cmd_channel v = v / 2 ^ 61 % 2 ^ 2

abbrev pub cmd_reads : ℕ → Bool
cmd_reads v = v / 2 ^ 63 == 1

unfoldable pub command : ℕ → Memory → Memory
command v m =
    if cmd_reads v
    then from_device (cmd_ppn v) (cmd_pages v) m
    else to_device (cmd_ppn v) (cmd_pages v) m

-- A word that is written to the device memory by itself, at a byte address.
unfoldable pub set_word : ℕ → ℕ → (ℕ → Page) → ℕ → Page
set_word a v device p =
    if p == a / 4096 then (λ i. if i == a % 4096 / 8 then v else device p i) else device p

-- The effect of an event that lets no command finish.
unfoldable pub apply : Event → Memory → Memory
unfolding set_word
apply (poked sys_bar a v) m = m
apply (poked app_bar a v) m = m
apply (poked mem_bar a v) m = record m { device = set_word a v m.device }
apply (peeked bar a v) m = m
apply (file_read fd bytes off) m = from_file fd (off / 2 ^ 12) (bytes / 2 ^ 12) m
apply (file_written fd bytes off) m = to_file fd (off / 2 ^ 12) (bytes / 2 ^ 12) m
apply (file_opened p) m = m
apply (file_closed fd) m = m

-- The pages that the commands of a channel have asked for, and the reads of its count since the
-- newest other event. The newest event of a trace stands first.
unfoldable pub commanded : Trace → ℕ → ℕ
commanded [] app = 0
commanded (poked sys_bar a v ∷ t) app =
    let rest = commanded t app in
    if a == dma_reg && cmd_channel v == app then cmd_pages v + rest else rest
commanded (_ ∷ t) app = commanded t app

unfoldable pub polls : Trace → ℕ → ℕ
polls [] app = 0
polls (peeked sys_bar a v ∷ t) app =
    let rest = polls t app in if a == count_reg app then rest + 1 else 0
polls (_ ∷ t) app = 0

-- Whether a read shows that all commands were performed.
unfoldable pub shows_done : Outset → ℕ → ℕ → Trace → Bool
unfolding commanded
shows_done o a v t = a == count_reg o.channel && v == o.count + commanded t o.channel

-- The commands that no read has shown to be performed, and their effect.
unfoldable pub outstanding : Outset → Trace → List ℕ
unfolding shows_done
outstanding o [] = []
outstanding o (poked sys_bar a v ∷ t) =
    let rest = outstanding o t in if a == dma_reg then v ∷ rest else rest
outstanding o (peeked sys_bar a v ∷ t) =
    let rest = outstanding o t in if shows_done o a v t then [] else rest
outstanding o (_ ∷ t) = outstanding o t

unfoldable pub perform : List ℕ → Memory → Memory
unfolding command
perform [] m = m
perform (v ∷ rest) m = command v (perform rest m)

unfoldable pub replay : Outset → Trace → Memory → Memory
unfolding apply outstanding perform shows_done
replay o [] m = m
replay o (peeked sys_bar a v ∷ t) m =
    let m' = replay o t m in if shows_done o a v t then perform (outstanding o t) m' else m'
replay o (e ∷ t) m = apply e (replay o t m)
