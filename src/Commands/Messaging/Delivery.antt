-- ===== src/Commands/Messaging/Delivery.antt =====
-- src/CommandMessaging.cpp: who receives a PRIVMSG to a channel.
use ft_irc.Prelude.{Bytes, text, nat_key, bytes_key, lookup, ap, ◌∙◌, ℕ, ◌≡◌, true, none, some}
use ft_irc.Libcpp.{StrLib, SocketLib}
use ft_irc.Channel.{is_member, Channel}
use ft_irc.Server.{Server}
use ft_irc.Server.Store.{broadcast}
use ft_irc.Server.Channels.{find_channel}
use ft_irc.Server.Delivery.{Once, given, addressed, broadcast-delivers}
use ft_irc.Commands.Messaging.{message_line, privmsg_channel}

module _ {Io : Type 0} ⦃str : StrLib⦄ ⦃sock : SocketLib Io⦄ where
  privmsg_channel-sent :
      (fd : ℕ) (target body : Bytes) (s : Server Io) (chan : Channel)
      → find_channel s target ≡ some chan
      → is_member fd chan ≡ true
      → privmsg_channel fd target body s
        ≡ broadcast chan.members (message_line fd (text "PRIVMSG") target body s) (some fd) s
  unfolding privmsg_channel
  privmsg_channel-sent fd target body s chan found inside = simp (privmsg_channel, found, inside)

  -- A PRIVMSG to an existing channel from one of its members queues the line, once, for every
  -- member that is a client except the sender, and changes no other client, where the channel
  -- lists each member once.
  pub privmsg_channel-delivers :
      (fd : ℕ) (target body : Bytes) (s : Server Io) (chan : Channel) (g : ℕ)
      → find_channel s target ≡ some chan
      → is_member fd chan ≡ true
      → Once chan.members
      → lookup g (privmsg_channel fd target body s).clients ≡ elim (lookup g s.clients) [
        | none ↦ none
        | some c ↦ some (
            given
              (message_line fd (text "PRIVMSG") target body s)
              (addressed g chan.members (some fd))
              c)
      ]
  privmsg_channel-delivers fd target body s chan g found inside once =
      let line = message_line fd (text "PRIVMSG") target body s in
      ap (λ t. lookup g t.clients) (privmsg_channel-sent fd target body s chan found inside)
      ∙ broadcast-delivers g line chan.members (some fd) s once
