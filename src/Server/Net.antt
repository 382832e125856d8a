-- ===== src/Server/Net.antt =====
-- The system calls that Server/src/Server.cpp makes on its sockets, its epoll instance, its eventfds
-- and its signal descriptor, as an interface, and what Linux documents of them.
use native.Mathlib.Decide.{ℕ_discrete}
use telemetry_server.Base.{
  ℕ, ◌+◌, ◌≤◌, ◌<◌, ◌≡◌, refl, sym, ap, ◌∙◌, ==_of_eq, ==_of_ne, Bool, true, false, List, [], ◌∷◌,
  ◌++◌, length, ◌==◌, if◌then◌else◌,
}
use telemetry_server.Protocol.Words.{Bytes}
use telemetry_server.Ipc.EventFd.{Called, Patience}

-- `recv` on a socket that does not block.
pub data Received : Type 0 where
  received : Bytes → Received
  end_of_stream interrupted would_block failed : Received

-- `accept4`: a new descriptor, or the reason for none.
pub data Accepted : Type 0 where
  accepted : ℕ → Accepted
  interrupted would_block failed : Accepted

-- `ssi_signo` and `ssi_code`, as far as the code tells them apart.
pub data Signo : Type 0 where
  sigint sigterm sigchld other : Signo

pub data ChildCode : Type 0 where
  exited killed dumped stopped continued other : ChildCode

pub record SignalInfo : Type 0 where
  pub signo : Signo
  pub pid : ℕ
  pub code : ChildCode

-- `read` of one `signalfd_siginfo`. `failed` also stands for a count that is none of the others.
pub data SignalRead : Type 0 where
  signal : SignalInfo → SignalRead
  interrupted would_block end_of_file failed : SignalRead

-- An `epoll_event`, its mask by the bits that the code tests.
pub record Event : Type 0 where
  pub fd : ℕ
  pub epollin : Bool
  pub epollrdhup : Bool
  pub epollerr : Bool
  pub epollhup : Bool

pub data Waited : Type 0 where
  ready : List Event → Waited
  interrupted failed : Waited

-- `epoll_wait` also returns how many frames the reader has taken from the ring in the meantime.
pub record Net : Type 1 where
  pub World : Type 0
  pub recv : ℕ → ℕ → World → Received × World
  pub accept4 : ℕ → World → Accepted × World
  pub epoll_add : ℕ → World → Bool × World
  pub epoll_modify : ℕ → Bool → World → Bool × World
  pub epoll_delete : ℕ → World → Bool × World
  pub close : ℕ → World → World
  pub data_ready_write : World → Called × World
  pub space_ready_read : World → Called × World
  pub signal_read : World → SignalRead × World
  pub epoll_wait : World → Waited × ℕ × World

-- What the server is handed of its clients: a new connection, or bytes of one.
pub data Input : Type 0 where
  connected : ℕ → Input
  heard : ℕ → Bytes → Input

-- What the theorems observe: the bytes of each connection that the server has not read, those still
-- to come included; the descriptors in the epoll set; the signals that wait to be read; and all that
-- the server has been handed so far.
pub record Kernel : Type 0 where
  pub unread : ℕ → Bytes
  pub registered : ℕ → Bool
  pub signals : List SignalInfo
  pub log : List Input

abbrev pub set_at {ℓ} : {A : Type ℓ} → (ℕ → A) → ℕ → A → ℕ → A
set_at f k v i = if i == k then v else f i

-- A new descriptor that is closed again.
pub opened_closed :
    (o : ℕ → Bool) (fd : ℕ) → o fd ≡ false → (i : ℕ) → set_at (set_at o fd true) fd false i ≡ o i
opened_closed o fd fresh i = elim (ℕ_discrete i fd) [
  | yes same ↦ rw (==_of_eq same) (sym fresh ∙ ap o (sym same))
  | no ne ↦ rw (==_of_ne ne) refl
]

abbrev pub with_unread : Kernel → ℕ → Bytes → Kernel
with_unread k fd bytes = record k { unread = set_at k.unread fd bytes }

abbrev pub noted : Kernel → Input → Kernel
noted k i = record k { log = k.log ++ i ∷ [] }

abbrev pub with_registered : Kernel → ℕ → Bool → Kernel
with_registered k fd b = record k { registered = set_at k.registered fd b }

abbrev pub RecvLaw : ℕ → ℕ → Kernel → Received → Kernel → Type 0
RecvLaw fd size k (Received.received bytes) k' =
    (rest : Bytes) × (0 < length bytes)
    × (length bytes ≤ size)
    × (k.unread fd ≡ bytes ++ rest)
    × (k' ≡ with_unread (noted k (Input.heard fd bytes)) fd rest)
RecvLaw fd size k Received.end_of_stream k' = (k.unread fd ≡ []) × (k' ≡ k)
RecvLaw fd size k Received.interrupted k' = k' ≡ k
RecvLaw fd size k Received.would_block k' = k' ≡ k
RecvLaw fd size k Received.failed k' = k' ≡ k

-- A new descriptor is not in the epoll set.
abbrev pub AcceptLaw : Kernel → Accepted → Kernel → Type 0
AcceptLaw k (Accepted.accepted fd) k' =
    (k.registered fd ≡ false)
    × (bytes : Bytes) × (k' ≡ with_unread (noted k (Input.connected fd)) fd bytes)
AcceptLaw k Accepted.interrupted k' = k' ≡ k
AcceptLaw k Accepted.would_block k' = k' ≡ k
AcceptLaw k Accepted.failed k' = k' ≡ k

abbrev pub EpollLaw : ℕ → Bool → Kernel → Bool → Kernel → Type 0
EpollLaw fd b k true k' = k' ≡ with_registered k fd b
EpollLaw fd b k false k' = k' ≡ k

pub EpollLaw-log :
    (fd : ℕ) (b : Bool) (k : Kernel) (ok : Bool) (k' : Kernel)
    → EpollLaw fd b k ok k'
    → k'.log ≡ k.log
EpollLaw-log fd b k true k' e = ap (λ (x : Kernel). x.log) e
EpollLaw-log fd b k false k' e = ap (λ (x : Kernel). x.log) e

-- A read that would block has found no signal.
abbrev pub SignalLaw : Kernel → SignalRead → Kernel → Type 0
SignalLaw k (SignalRead.signal info) k' =
    (rest : List SignalInfo) × (k.signals ≡ info ∷ rest) × (k' ≡ record k { signals = rest })
SignalLaw k SignalRead.would_block k' = (k.signals ≡ []) × (k' ≡ k)
SignalLaw k SignalRead.interrupted k' = k' ≡ k
SignalLaw k SignalRead.end_of_file k' = k' ≡ k
SignalLaw k SignalRead.failed k' = k' ≡ k

-- `budget` counts the bytes, the connections, the signals and the interrupted calls that are still to
-- come.
abbrev pub RecvBudget : ℕ → Received → ℕ → Type 0
RecvBudget p (Received.received bytes) p' = p' + length bytes ≤ p
RecvBudget p Received.interrupted p' = p' < p
RecvBudget p Received.end_of_stream p' = p' ≤ p
RecvBudget p Received.would_block p' = p' ≤ p
RecvBudget p Received.failed p' = p' ≤ p

abbrev pub AcceptBudget : ℕ → Accepted → ℕ → Type 0
AcceptBudget p (Accepted.accepted fd) p' = p' < p
AcceptBudget p Accepted.interrupted p' = p' < p
AcceptBudget p Accepted.would_block p' = p' ≤ p
AcceptBudget p Accepted.failed p' = p' ≤ p

abbrev pub SignalBudget : ℕ → SignalRead → ℕ → Type 0
SignalBudget p (SignalRead.signal info) p' = p' < p
SignalBudget p SignalRead.interrupted p' = p' < p
SignalBudget p SignalRead.would_block p' = p' ≤ p
SignalBudget p SignalRead.end_of_file p' = p' ≤ p
SignalBudget p SignalRead.failed p' = p' ≤ p

pub record NetLaws (n : Net) : Type 0 where
  pub kernel : n.World → Kernel
  pub budget : n.World → ℕ
  pub recv_law :
      (fd size : ℕ) (w : n.World)
      → let (r, w') = n.recv fd size w in RecvLaw fd size (kernel w) r (kernel w')
  pub accept_law :
      (fd : ℕ) (w : n.World) → let (r, w') = n.accept4 fd w in AcceptLaw (kernel w) r (kernel w')
  pub add_law :
      (fd : ℕ) (w : n.World)
      → let (r, w') = n.epoll_add fd w in EpollLaw fd true (kernel w) r (kernel w')
  pub delete_law :
      (fd : ℕ) (w : n.World)
      → let (r, w') = n.epoll_delete fd w in EpollLaw fd false (kernel w) r (kernel w')
  pub modify_law : (fd : ℕ) (b : Bool) (w : n.World) → kernel (n.epoll_modify fd b w).1 ≡ kernel w
  -- closing a descriptor takes it out of the epoll set
  pub close_law :
      (fd : ℕ) (w : n.World) → kernel (n.close fd w) ≡ with_registered (kernel w) fd false
  pub data_ready_law : (w : n.World) → kernel (n.data_ready_write w).1 ≡ kernel w
  pub space_ready_law : (w : n.World) → kernel (n.space_ready_read w).1 ≡ kernel w
  pub signal_law :
      (w : n.World) → let (r, w') = n.signal_read w in SignalLaw (kernel w) r (kernel w')
  -- signals arrive during a wait
  pub wait_law :
      (w : n.World)
      → (signals : List SignalInfo) × (kernel (n.epoll_wait w).2
          ≡ record (kernel w) { signals = signals })
  pub recv_budget :
      (fd size : ℕ) (w : n.World)
      → let (r, w') = n.recv fd size w in RecvBudget (budget w) r (budget w')
  pub accept_budget :
      (fd : ℕ) (w : n.World) → let (r, w') = n.accept4 fd w in AcceptBudget (budget w) r (budget w')
  pub add_budget : (fd : ℕ) (w : n.World) → budget (n.epoll_add fd w).1 ≤ budget w
  pub delete_budget : (fd : ℕ) (w : n.World) → budget (n.epoll_delete fd w).1 ≤ budget w
  pub modify_budget :
      (fd : ℕ) (b : Bool) (w : n.World) → budget (n.epoll_modify fd b w).1 ≤ budget w
  pub close_budget : (fd : ℕ) (w : n.World) → budget (n.close fd w) ≤ budget w
  pub data_ready_budget :
      (w : n.World) → let (r, w') = n.data_ready_write w in Patience (budget w) r (budget w')
  pub space_ready_budget :
      (w : n.World) → let (r, w') = n.space_ready_read w in Patience (budget w) r (budget w')
  pub signal_budget :
      (w : n.World) → let (r, w') = n.signal_read w in SignalBudget (budget w) r (budget w')
  pub wait_budget : (w : n.World) → budget (n.epoll_wait w).2 ≤ budget w
