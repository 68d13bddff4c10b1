-- ===== src/Commands/Messaging/Quiet.antt =====
-- src/CommandMessaging.cpp: PRIVMSG, NOTICE and PING only queue messages.
use ft_irc.Prelude.{
  Bytes, ℕ, not, ◌||◌, List, [], ◌∷◌, ltb, ◌==◌, if◌then◌else◌, if_ind, Option_ind, length, get_or,
  is_nil,
}
use ft_irc.Libcpp.{StrLib, SocketLib}
use ft_irc.Channel.{is_member}
use ft_irc.Message.{param, Message}
use ft_irc.Server.{Server}
use ft_irc.Server.Store.{find_client_by_nick}
use ft_irc.Server.Channels.{find_channel}
use ft_irc.Server.Quiet.{
  Quiet-refl, Quiet-trans, queue_to-Quiet, send_reply-Quiet, broadcast-Quiet, then_reply,
  then_queue, Quiet,
}
use ft_irc.Extensions.{on_privmsg, ask_extensions}
use ft_irc.Extensions.Quiet.{ask_privmsg-Quiet}
use ft_irc.Commands.Messaging.{
  targets_of, privmsg_channel, privmsg_client, privmsg_each, cmd_privmsg, notice_one, notice_each,
  cmd_notice, cmd_ping,
}

module _ {Io : Type 0} ⦃str : StrLib⦄ ⦃sock : SocketLib Io⦄ where
  privmsg_channel-Quiet :
      (fd : ℕ) (target body : Bytes) (s : Server Io) → Quiet s (privmsg_channel fd target body s)
  unfolding privmsg_channel
  privmsg_channel-Quiet fd target body s =
      Option_ind (Quiet s) (find_channel s target) (λ _. send_reply-Quiet fd _ _ s)
        λ chan _.
          if_ind (Quiet s) (not (is_member fd chan)) (λ _. send_reply-Quiet fd _ _ s)
            (λ _. broadcast-Quiet chan.members _ _ s)

  privmsg_client-Quiet :
      (fd : ℕ) (target body : Bytes) (s : Server Io) → Quiet s (privmsg_client fd target body s)
  unfolding privmsg_client
  privmsg_client-Quiet fd target body s =
      let asked = (ask_extensions (on_privmsg fd target body) s).0 in
      let q = ask_privmsg-Quiet fd target body s in
      if_ind (Quiet s) (ask_extensions (on_privmsg fd target body) s).1 (λ _. q)
        λ _.
          Option_ind (Quiet s) (find_client_by_nick asked target) (λ _. then_reply q fd _ _)
            (λ t _. then_queue q t _)

  privmsg_each-Quiet :
      (fd : ℕ) (body : Bytes) (targets : List Bytes) (s : Server Io)
      → Quiet s (privmsg_each fd body targets s)
  unfolding privmsg_each
  privmsg_each-Quiet fd body [] s = Quiet-refl s
  privmsg_each-Quiet fd body (target ∷ targets) s =
      Quiet-trans
        (if_ind (Quiet s) (get_or target 0 0 == b'#') (λ _. privmsg_channel-Quiet fd target body s)
          (λ _. privmsg_client-Quiet fd target body s))
        (privmsg_each-Quiet fd body targets (
          if get_or target 0 0 == b'#'
          then privmsg_channel fd target body s
          else privmsg_client fd target body s))

  pub cmd_privmsg-Quiet : (fd : ℕ) (msg : Message) (s : Server Io) → Quiet s (cmd_privmsg fd msg s)
  unfolding cmd_privmsg
  cmd_privmsg-Quiet fd msg s =
      if_ind (Quiet s) (is_nil msg.params || is_nil (param msg 0)) (λ _. send_reply-Quiet fd _ _ s)
        λ _.
          if_ind (Quiet s) (ltb (length msg.params) 2 || is_nil (param msg 1))
            (λ _. send_reply-Quiet fd _ _ s) (λ _. privmsg_each-Quiet fd _ (targets_of msg) s)

  notice_one-Quiet :
      (fd : ℕ) (body target : Bytes) (s : Server Io) → Quiet s (notice_one fd body target s)
  unfolding notice_one
  notice_one-Quiet fd body target s =
      if_ind (Quiet s) (get_or target 0 0 == b'#')
        (λ _.
          Option_ind (Quiet s) (find_channel s target) (λ _. Quiet-refl s)
            λ chan _.
              if_ind (Quiet s) (is_member fd chan) (λ _. broadcast-Quiet chan.members _ _ s)
                (λ _. Quiet-refl s))
        (λ _.
          Option_ind (Quiet s) (find_client_by_nick s target) (λ _. Quiet-refl s)
            (λ t _. queue_to-Quiet t _ s))

  notice_each-Quiet :
      (fd : ℕ) (body : Bytes) (targets : List Bytes) (s : Server Io)
      → Quiet s (notice_each fd body targets s)
  unfolding notice_each
  notice_each-Quiet fd body [] s = Quiet-refl s
  notice_each-Quiet fd body (target ∷ targets) s =
      Quiet-trans (notice_one-Quiet fd body target s)
        (notice_each-Quiet fd body targets (notice_one fd body target s))

  pub cmd_notice-Quiet : (fd : ℕ) (msg : Message) (s : Server Io) → Quiet s (cmd_notice fd msg s)
  unfolding cmd_notice
  cmd_notice-Quiet fd msg s =
      if_ind (Quiet s) (ltb (length msg.params) 2 || is_nil (param msg 0) || is_nil (param msg 1))
        (λ _. Quiet-refl s) (λ _. notice_each-Quiet fd _ (targets_of msg) s)

  pub cmd_ping-Quiet : (fd : ℕ) (msg : Message) (s : Server Io) → Quiet s (cmd_ping fd msg s)
  unfolding cmd_ping
  cmd_ping-Quiet fd msg s =
      if_ind (Quiet s) (is_nil msg.params) (λ _. send_reply-Quiet fd _ _ s)
        (λ _. queue_to-Quiet fd _ s)
