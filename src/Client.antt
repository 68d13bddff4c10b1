-- ===== src/Client.antt =====
-- include/Client.hpp and src/Client.cpp: one connection. What the client is known by stands in
-- `Profile`, apart from the buffered socket `io`. The trace of the sent lines is not modelled.
pub mod Sanitize
pub mod Outgoing
use ft_irc.Prelude.{
  ℕ, ◌+◌, ◌-◌, Bytes, text, Bool, true, false, List, [], ◌∷◌, ◌++◌, Option, none, some, length,
  take, ltb, if◌then◌else◌,
}
use ft_irc.Limits.{max_msglen, max_sendq}
use ft_irc.Libcpp.{SocketLib}
use Sanitize.{extract}

pub record Profile : Type 0 where
  pub fd : ℕ
  pub nickname : Bytes
  pub username : Bytes
  pub realname : Bytes
  pub hostname : Bytes
  pub password : Bytes
  pub registered : Bool
  pub pass_sent : Bool
  pub nick_set : Bool
  pub user_set : Bool
  pub last_activity : ℕ
  pub ping_sent : Bool
  pub pending_close : Bool
  pub pending_close_since : ℕ
  pub tearing_down : Bool
  pub invisible : Bool
  pub wallops : Bool

pub record Client (Io : Type 0) : Type 0 where
  pub who : Profile
  pub io : Io

-- Client::Client, with the time at which it is made.
unfoldable pub new_profile : ℕ → Bytes → ℕ → Profile
new_profile fd hostname now = record {
  fd = fd;
  nickname = text "*";
  username = [];
  realname = [];
  hostname = hostname;
  password = [];
  registered = false;
  pass_sent = false;
  nick_set = false;
  user_set = false;
  last_activity = now;
  ping_sent = false;
  pending_close = false;
  pending_close_since = 0;
  tearing_down = false;
  invisible = false;
  wallops = false;
}

unfoldable pub user_mode_string : Profile → Bytes
user_mode_string p =
    text "+" ++ (if p.invisible then text "i" else []) ++ (if p.wallops then text "w" else [])

unfoldable pub prefix : Profile → Bytes
prefix p = p.nickname ++ text "!" ++ p.username ++ text "@" ++ p.hostname

module _ {Io : Type 0} ⦃sock : SocketLib Io⦄ where
  unfoldable pub new_client : ℕ → Bytes → ℕ → Client Io
  new_client fd hostname now = record {
    who = new_profile fd hostname now;
    io = sock.fresh max_msglen max_sendq;
  }

  unfoldable pub append_to_recv_buffer : Client Io → Bytes → Client Io
  append_to_recv_buffer c bytes = record c { io = sock.feed c.io bytes }

  -- The line is cut to the 510 bytes that leave room for CR and LF.
  unfoldable pub queue_message : Bytes → Client Io → Client Io
  queue_message msg c = record c {
    io =
        sock.queue c.io
          (if ltb (max_msglen - 2) (length msg) then take (max_msglen - 2) msg else msg);
  }

  unfoldable pub extract_messages : Client Io → List Bytes × Client Io
  extract_messages c =
      let (messages, rest) = extract (sock.buffered c.io + 1) c.io in
      (messages, record c { io = rest })

  unfoldable pub clear_send_buffer : ℕ → Client Io → Client Io
  clear_send_buffer sent c = record c { io = sock.consume c.io sent }
