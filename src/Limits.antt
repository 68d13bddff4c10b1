-- ===== src/Limits.antt =====
-- The constants of include/Replies.hpp.
use ft_irc.Prelude.{ℕ, Bytes, text}

abbrev pub max_nicklen : ℕ
max_nicklen = 9

abbrev pub max_userlen : ℕ
max_userlen = 10

abbrev pub max_channellen : ℕ
max_channellen = 50

abbrev pub max_topiclen : ℕ
max_topiclen = 390

abbrev pub max_msglen : ℕ
max_msglen = 512

abbrev pub max_keylen : ℕ
max_keylen = 23

abbrev pub max_userlimit : ℕ
max_userlimit = 65535

abbrev pub max_sendq : ℕ
max_sendq = 65536

abbrev pub max_clients : ℕ
max_clients = 1024

abbrev pub ping_interval : ℕ
ping_interval = 120

abbrev pub ping_timeout : ℕ
ping_timeout = 120

unfoldable pub server_name : Bytes
server_name = text "ft_irc"

unfoldable pub server_version : Bytes
server_version = text "1.0"

unfoldable pub server_created : Bytes
server_created = text "2025-01-01"
