-- ===== src/Daemon/Sockets.antt =====
-- Connections of sw/daemon/aos_daemon.hpp: `init_socket`, `startTransaction` and `readCommand`. What
-- the system's calls give is an input. A request's packet is read as the struct that
-- its command names, so it comes with its command.
use amorphos_fsrf.Common.{
  ◌==◌, minus_one, ℕ, Bool, Option, none, some, List, [], ◌∷◌, if◌then◌else◌, ltb,
}
use amorphos_fsrf.Protocol.{Command, Request, size_of}
use amorphos_fsrf.Daemon.{Daemon, remove_fd}

-- A return of `select`: its code, the descriptor of a new connection if the passive socket is
-- ready, and the connections that are.
pub record Selected : Type 0 where
  pub positive : Bool
  pub accepted : Option ℕ
  pub ready : ℕ → Bool

-- The last of the open descriptors that is ready.
unfoldable pub last_ready : (ℕ → Bool) → List ℕ → Option ℕ → Option ℕ
last_ready ready [] found = found
last_ready ready (fd ∷ fds) found = last_ready ready fds (if ready fd then some fd else found)

abbrev pub add_fd : ℕ → List ℕ → List ℕ
add_fd fd fds = fd ∷ remove_fd fd fds

-- `none` while no request has come.
unfoldable pub start_transaction : List Selected → Daemon → Option (ℕ × Daemon)
unfolding last_ready
start_transaction [] d = none
start_transaction (r ∷ rs) d =
    let again = start_transaction rs d in
    if r.positive
    then elim r.accepted [
      | some cfd ↦ start_transaction rs (record d { open_fds = add_fd cfd d.open_fds })
      | none ↦ elim (last_ready r.ready d.open_fds none) [ none ↦ again | some fd ↦ some (fd, d) ]
    ]
    else again

-- What two `read`s of a connection give: the counts, and the command with its packet; a command
-- that is no request has no packet.
pub data Packet : Type 0 where
  request : Request → Packet
  no_request : Command → Packet

pub record Incoming : Type 0 where
  pub cmd_bytes : ℕ
  pub packet : Packet
  pub packet_bytes : ℕ

-- The code 1, with the connection closed, or with nothing changed where the command is no request;
-- otherwise the request.
pub data Read : Type 0 where
  failed : Daemon → Read
  got : Request → Read

unfoldable pub read_packet : ℕ → Packet → ℕ → Daemon → Read
read_packet cfd (no_request cmd) n d = failed d
read_packet cfd (request r) n d =
    if ltb n (size_of r) then failed (record d { open_fds = remove_fd cfd d.open_fds }) else got r

unfoldable pub read_command : ℕ → Incoming → Daemon → Read
unfolding read_packet
read_command cfd i d =
    if ltb i.cmd_bytes 4
    then failed (record d { open_fds = remove_fd cfd d.open_fds })
    else read_packet cfd i.packet i.packet_bytes d

-- The codes of the system's calls in `init_socket`; the system has `SO_REUSEPORT`.
pub record Opening : Type 0 where
  pub socket : ℕ
  pub reuse_addr : ℕ
  pub reuse_port : ℕ
  pub linger : ℕ
  pub bind : ℕ
  pub listen : ℕ

-- The passive socket, or `none` where the process exits: the first call that fails ends it.
unfoldable pub init_socket : Opening → Option ℕ
init_socket o =
    if o.socket == minus_one
    then none
    else if o.reuse_addr == minus_one
    then none
    else if o.reuse_port == minus_one
    then none
    else if o.linger == minus_one
    then none
    else if o.bind == minus_one
    then none
    else if o.listen == minus_one
    then none
    else some o.socket
