-- ===== src/Membership/Tame.antt =====
-- Operations that leave the profiles alone and keep the channel table well-formed.
use ft_irc.Prelude.{Bytes, nat_key, bytes_key, ℕ, ◌≡◌, refl, sym, ap, ◌∙◌, Bool, some, if_ind}
use ft_irc.Prelude.Maps.Laws.{Each-insert, Each-erase, Each-lookup}
use ft_irc.Libcpp.{StrLib}
use ft_irc.Channel.{remove_member, is_empty, Channel}
use ft_irc.Server.{Server}
use ft_irc.Server.Store.{profiles}
use ft_irc.Server.Channels.{put_channel, drop_channel, leave_channel, channel_key, find_channel}
use ft_irc.Server.Quiet.{Quiet, Quiet-refl}
use ft_irc.Membership.{is_live, TableOk, ChannelOk}
use ft_irc.Membership.Edits.{remove_member-ChannelOk}

pub record Tame {Io : Type 0} ⦃str : StrLib⦄ (s t : Server Io) : Type 0 where
  pub profiles_kept : profiles t ≡ profiles s
  pub password_kept : t.password ≡ s.password
  pub table_kept :
      (live : ℕ → Bool)
      → live ≡ is_live (profiles s)
      → TableOk live s.channels
      → TableOk live t.channels

module _ {Io : Type 0} ⦃str : StrLib⦄ where
  pub Quiet-Tame : {s t : Server Io} → Quiet s t → Tame s t
  Quiet-Tame q = record {
    profiles_kept = q.same_profiles;
    password_kept = q.same_password;
    table_kept = λ live e h. rw q.same_channels h;
  }

  pub Tame-refl : (s : Server Io) → Tame s s
  Tame-refl s = Quiet-Tame (Quiet-refl s)

  pub Tame-trans : {s t u : Server Io} → Tame s t → Tame t u → Tame s u
  Tame-trans p q = record {
    profiles_kept = q.profiles_kept ∙ p.profiles_kept;
    password_kept = q.password_kept ∙ p.password_kept;
    table_kept = λ live e h.
        q.table_kept live (e ∙ ap is_live (sym p.profiles_kept)) (p.table_kept live e h);
  }

  -- A channel that is well-formed whenever the table is can be stored.
  pub put_channel-Tame :
      (key : Bytes) (c : Channel) (s : Server Io)
      → (TableOk (is_live (profiles s)) s.channels → ChannelOk (is_live (profiles s)) key c)
      → Tame s (put_channel key c s)
  unfolding put_channel
  put_channel-Tame key c s h = record {
    profiles_kept = refl;
    password_kept = refl;
    table_kept = λ live e t. Each-insert (ChannelOk live) key c s.channels (rw e (h (rw e at t))) t;
  }

  pub drop_channel-Tame : (key : Bytes) (s : Server Io) → Tame s (drop_channel key s)
  unfolding drop_channel
  drop_channel-Tame key s = record {
    profiles_kept = refl;
    password_kept = refl;
    table_kept = λ live e t. Each-erase (ChannelOk live) key s.channels t;
  }

  pub leave_channel-Tame :
      (key : Bytes) (c : Channel) (fd : ℕ) (s : Server Io)
      → (TableOk (is_live (profiles s)) s.channels → ChannelOk (is_live (profiles s)) key c)
      → Tame s (leave_channel key c fd s)
  unfolding leave_channel
  leave_channel-Tame key c fd s h =
      if_ind (Tame s) (is_empty (remove_member fd c)) (λ _. drop_channel-Tame key s)
        (λ e. put_channel-Tame key _ s (λ t. remove_member-ChannelOk (h t) fd e))

  -- The channel that a handler found is well-formed if the table is.
  pub find_channel-ChannelOk :
      (s : Server Io) (name : Bytes) {c : Channel}
      → find_channel s name ≡ some c
      → TableOk (is_live (profiles s)) s.channels
      → ChannelOk (is_live (profiles s)) (channel_key name) c
  unfolding find_channel
  find_channel-ChannelOk s name e t =
      Each-lookup (ChannelOk (is_live (profiles s))) (channel_key name) s.channels t e
