-- ===== src/Server/Startup.antt =====
-- `Server::run` of Server/src/Server.cpp as a whole: its socket and its epoll instance, the loop, and
-- what it closes. The calls that set these up are an interface.
pub mod Laws
pub mod Run
use telemetry_server.Base.{ℕ, Bool, true, false, Option, none, some, List, [], ◌≡◌, ◌≤◌}
use telemetry_server.Base.Action.{Action, ◌>>=◌}
use telemetry_server.Protocol.Words.{Bytes}
use telemetry_server.Server.Net.{Net, set_at}
use telemetry_server.Server.Connections.{Server, State, with_world}
use telemetry_server.Server.Events.{Descriptors, serve}

-- `-1` is `none` and `false`.
pub record Sockets (W : Type 0) : Type 0 where
  pub socket : W → Option ℕ × W
  pub set_reuse : ℕ → W → Bool × W
  pub bind : ℕ → W → Bool × W
  pub listen : ℕ → W → Bool × W
  pub epoll_create : W → Option ℕ × W
  pub watch : ℕ → ℕ → W → Bool × W
  pub close : ℕ → W → W

-- After a call that fails the code closes what it has opened, and returns.
abbrev pub attempt : {W A : Type 0} → Bool × W → (W → W) → (W → Option A × W) → Option A × W
attempt (true, w) undo rest = rest w
attempt (false, w) undo rest = (none, undo w)

module _ {W : Type 0} (k : Sockets W) (d : Descriptors) where
  unfoldable pub watch_all : ℕ → ℕ → W → Option (ℕ × ℕ) × W
  watch_all fd epoll_fd w =
      let undo : W → W = λ v. k.close fd (k.close epoll_fd v) in
      attempt (k.watch epoll_fd fd w) undo λ v.
        attempt (k.watch epoll_fd d.space_ready_fd v) undo
          λ v'. attempt (k.watch epoll_fd d.signal_fd v') undo λ v''. (some (fd, epoll_fd), v'')

  unfoldable pub create_epoll : ℕ → W → Option (ℕ × ℕ) × W
  unfolding watch_all
  create_epoll fd w =
      let (r, v) = k.epoll_create w in
      elim r [ none ↦ (none, k.close fd v) | some epoll_fd ↦ watch_all fd epoll_fd v ]

  unfoldable pub configure : ℕ → W → Option (ℕ × ℕ) × W
  unfolding create_epoll
  configure fd w = attempt (k.set_reuse fd w) (k.close fd) λ v.
      attempt (k.bind fd v) (k.close fd)
        λ v'. attempt (k.listen fd v') (k.close fd) λ v''. create_epoll fd v''

  -- The listening socket and the epoll instance.
  unfoldable pub set_up : W → Option (ℕ × ℕ) × W
  unfolding configure
  set_up w = let (r, v) = k.socket w in elim r [ none ↦ (none, v) | some fd ↦ configure fd v ]

abbrev pub started : {W : Type 0} → ℕ → Server W → Server W
started fd s = record s {
  listen_fd = some fd;
  state = State.running;
  ingress_paused = false;
  pause_requested = false;
}

module _ (n : Net) (k : Sockets (n.World)) (fuel : ℕ) (d : Descriptors) where
  open n use {World}

  unfoldable pub serve_from : ℕ → Option (ℕ × ℕ) → Action (Server World) (Bool × List Bytes)
  serve_from rounds none s = some ((false, []), s)
  serve_from rounds (some (fd, epoll_fd)) s =
      (serve n fuel d rounds >>= λ r t. some (r, with_world t (k.close epoll_fd t.world)))
        (started fd s)

  unfoldable pub run : ℕ → Action (Server World) (Bool × List Bytes)
  unfolding set_up serve_from
  run rounds s = let (r, w) = set_up k d s.world in serve_from rounds r (with_world s w)
