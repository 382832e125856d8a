-- ===== src/Server/Connections.antt =====
-- The client connections of Server/src/Server.cpp: `acceptClients`, `readClient`, `removeClient` and
-- `removeAllClients`. `fuel` bounds the rounds of each loop.
pub mod Removal
pub mod Frame
pub mod Reading
pub mod Rounds
use telemetry_server.Base.{
  ℕ, zero, suc, Bool, true, false, Option, none, some, List, [], ◌∷◌, if◌then◌else◌,
}
use telemetry_server.Base.Action.{Action, ◌>>=◌, ◌&&=◌, pure}
use telemetry_server.Protocol.Words.{Bytes}
use telemetry_server.Ipc.Ring.{SharedRingBuffer}
use telemetry_server.Ipc.EventFd.{notify_event}
use telemetry_server.Server.Buffer.{Buffer, new_buffer}
use telemetry_server.Server.Receive.{Outcome, Receipt, receive}
use telemetry_server.Server.Net.{Net, Received, Accepted}
use telemetry_server.Server.Clients.{Clients, find, emplace, update, erase}

abbrev pub read_buffer_size : ℕ
read_buffer_size = 4096

pub data State : Type 0 where
  running draining : State

-- The server, with the variables that `run` and `handleEvent` hand to its methods; `none` is a
-- `listenFd` of -1.
pub record Server (W : Type 0) : Type 0 where
  pub clients : Clients
  pub ring : SharedRingBuffer
  pub listen_fd : Option ℕ
  pub state : State
  pub ingress_paused : Bool
  pub pause_requested : Bool
  pub world : W

abbrev pub with_world : {W : Type 0} → Server W → W → Server W
with_world s w = record s { world = w }

abbrev pub Method : Net → Type 0
Method n = Action (Server (n.World)) Bool

-- How a method goes on: to the next round of its loop, or back with a result.
pub data Next : Type 0 where
  continue : Next
  return : Bool → Next

-- A call that acts on the world alone.
abbrev pub on_world : {W : Type 0} → Server W → Option (Bool × W) → Option (Bool × Server W)
on_world s none = none
on_world s (some (done, w)) = some (done, with_world s w)

-- The server after a round has put its buffer, its frames and its request in their places.
abbrev pub settled : {W : Type 0} → ℕ → Receipt → Server W → Server W
settled fd r s = record s {
  clients = update fd r.buffer s.clients;
  ring = r.ring;
  pause_requested = r.pause_requested;
}

module _ (n : Net) where
  open n use {World}

  unfoldable pub remove_client : ℕ → Server World → Server World
  unfolding erase
  remove_client fd s =
      let (deleted, w) = n.epoll_delete fd s.world in
      record s { clients = erase fd s.clients; world = n.close fd w }

  -- `while (!m_clients.empty())`, over the clients that were there.
  unfoldable pub remove_each : Clients → Server World → Server World
  unfolding remove_client
  remove_each [] s = s
  remove_each ((fd, b) ∷ rest) s = remove_each rest (remove_client fd s)

  unfoldable pub remove_all_clients : Server World → Server World
  unfolding remove_each
  remove_all_clients s = remove_each s.clients s

  -- A connection that cannot be watched is closed.
  unfoldable pub add_client : ℕ → Server World → Server World
  unfolding emplace
  add_client fd s =
      let (added, w) = n.epoll_add fd s.world in
      if added
      then record s { clients = emplace fd new_buffer s.clients; world = w }
      else with_world s (n.close fd w)

  unfoldable pub accept_clients : ℕ → ℕ → Method n
  unfolding add_client
  accept_clients zero listen_fd s = none
  accept_clients (suc fuel) listen_fd s =
      let (r, w) = n.accept4 listen_fd s.world in
      elim r [
        | Accepted.accepted fd ↦ accept_clients fuel listen_fd (add_client fd (with_world s w))
        | Accepted.would_block ↦ some (true, with_world s w)
        | Accepted.interrupted ↦ accept_clients fuel listen_fd (with_world s w)
        | Accepted.failed ↦ some (false, with_world s w)
      ]

module _ (n : Net) (fuel : ℕ) where
  open n use {World}

  pub notify_published : Bool → Method n
  unfolding notify_event
  notify_published published s =
      if published
      then on_world s (notify_event (n.data_ready_write) fuel s.world)
      else some (true, s)

  -- What follows a round of `recv`, once its frames are in the ring and the buffer is settled.
  pub conclude : ℕ → Outcome → Bool → Action (Server World) Next
  unfolding notify_published remove_client
  conclude fd Outcome.over_limit published s = some (Next.return true, remove_client n fd s)
  conclude fd Outcome.ring_full published s =
      (notify_published published >>= λ done. pure (Next.return false)) s
  conclude fd (Outcome.rejected error) published s =
      (notify_published published >>= λ done t.
      (if done then some (Next.return true, remove_client n fd t) else some (Next.return false, t)))
        s
  conclude fd Outcome.kept published s =
      (notify_published published >>= λ done t.
      (if done
        then some ((if t.pause_requested then Next.return true else Next.continue), t)
        else some (Next.return false, t)))
        s

  -- The `while (true)` of `readClient`, for the client `b` with the descriptor `fd`.
  -- The receipt's buffer is already compacted, where the code compacts it after the notification.
  pub read_from : ℕ → ℕ → Buffer → Method n
  unfolding conclude update receive
  read_from zero fd b s = none
  read_from (suc rounds) fd b s =
      let (r, w) = n.recv fd read_buffer_size s.world in
      elim r [
        | Received.received bytes ↦
            let receipt = receive b s.ring s.pause_requested bytes in
            (conclude fd receipt.outcome receipt.published >>= λ next. elim next [
              | Next.continue ↦ read_from rounds fd receipt.buffer
              | Next.return done ↦ pure done
            ])
              (settled fd receipt (with_world s w))
        | Received.end_of_stream ↦ some (true, remove_client n fd (with_world s w))
        | Received.interrupted ↦ read_from rounds fd b (with_world s w)
        | Received.would_block ↦ some (true, with_world s w)
        | Received.failed ↦ some (true, remove_client n fd (with_world s w))
      ]

  unfoldable pub read_client : ℕ → Method n
  unfolding find read_from
  read_client fd s = elim (find fd s.clients) [
    | none ↦ some (true, s)
    | some b ↦ read_from fuel fd b s
  ]
