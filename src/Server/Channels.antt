-- ===== src/Server/Channels.antt =====
-- src/Server.cpp: the channel table, keyed by the lower-cased name.
use ft_irc.Prelude.{Bytes, nat_key, bytes_key, lookup, insert, erase, ℕ, Option, if◌then◌else◌}
use ft_irc.Libcpp.{StrLib}
use ft_irc.Channel.{remove_member, is_empty, Channel}
use ft_irc.Server.{Server}

module _ {Io : Type 0} where
  -- A write through a Channel*.
  unfoldable pub put_channel : Bytes → Channel → Server Io → Server Io
  put_channel key c s = record s { channels = insert key c s.channels }

  unfoldable pub drop_channel : Bytes → Server Io → Server Io
  drop_channel key s = record s { channels = erase key s.channels }

  -- chan->removeMember(client); if (chan->isEmpty()) removeChannel(name);
  unfoldable pub leave_channel : Bytes → Channel → ℕ → Server Io → Server Io
  leave_channel key c fd s =
      if is_empty (remove_member fd c)
      then drop_channel key s
      else put_channel key (remove_member fd c) s

module _ ⦃str : StrLib⦄ where
  abbrev pub channel_key : Bytes → Bytes
  channel_key name = str.ascii_to_lower name

module _ {Io : Type 0} ⦃str : StrLib⦄ where
  unfoldable pub find_channel : Server Io → Bytes → Option Channel
  find_channel s name = lookup (channel_key name) s.channels
