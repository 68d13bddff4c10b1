-- ===== src/Server.antt =====
-- include/Server.hpp: the server's state. A Client* is its descriptor and a Channel* its key in
-- `channels`. Sockets, epoll and the log are outside; the clock is the value of std::time(NULL).
pub mod Store
pub mod Channels
pub mod Quiet
pub mod Delivery
use ft_irc.Prelude.{Bytes, Map, ℕ, Bool, List, [], ◌∷◌, ◌++◌}
use ft_irc.Client.{Client}
use ft_irc.Channel.{Channel}

-- FileTransferExt::Transfer
pub record Transfer : Type 0 where
  pub sender_fd : ℕ
  pub recipient_fd : ℕ
  pub filename : Bytes
  pub declared_size : ℕ
  pub relayed_bytes : ℕ
  pub accepted : Bool
  pub last_activity : ℕ

-- The subclasses of IServerExtension, each with its fields: the next joke of Bot, the transfers and
-- the next id of FileTransferExt, and AuditLog, whose file is outside.
pub data Extension : Type 0 where
  bot : (next_joke : ℕ) → Extension
  file_transfer : (transfers : Map ℕ Transfer) (next_id : ℕ) → Extension
  audit_log : Extension

-- A call of Server::audit, which hands it to every extension.
pub record Audit : Type 0 where
  pub event : Bytes
  pub actor : Bytes
  pub detail : Bytes

-- EPOLLIN and EPOLLOUT
pub record Mask : Type 0 where
  pub input : Bool
  pub output : Bool

pub record Server (Io : Type 0) : Type 0 where
  pub password : Bytes
  pub clients : Map ℕ (Client Io)
  pub epoll_mask : Map ℕ Mask
  pub channels : Map Bytes Channel
  pub extensions : List Extension
  pub last_ping_check : ℕ
  pub pending_close_timeout : ℕ
  pub clock : ℕ
  -- What `audit` was called with, newest first.
  pub audits : List Audit

-- Server::Server, at the time `now`.
unfoldable pub new_server : {Io : Type 0} → Bytes → ℕ → ℕ → Server Io
new_server password timeout now = record {
  password = password;
  clients = [];
  epoll_mask = [];
  channels = [];
  extensions = [];
  last_ping_check = now;
  pending_close_timeout = timeout;
  clock = now;
  audits = [];
}

unfoldable pub add_extension : {Io : Type 0} → Extension → Server Io → Server Io
add_extension e s = record s { extensions = s.extensions ++ e ∷ [] }
