-- ===== src/Membership/Edits.antt =====
-- Every edit of a channel that the handlers make keeps it well-formed.
use ft_irc.Prelude.{
  Bytes, nat_key, bytes_key, contains, include, ℕ, ◌≡◌, refl, Bool, true, false, List, [], ◌∷◌,
  arith, is_nil,
}
use ft_irc.Prelude.Maps.Laws.{contains-include, contains-exclude}
use ft_irc.Libcpp.{StrLib}
use ft_irc.Channel.{
  add_member, remove_member, is_empty, set_operator, add_invite, remove_invite, set_topic,
  new_channel, Channel,
}
use ft_irc.Server.Channels.{channel_key}
use ft_irc.Commands.Modes.{set_key, set_user_limit, set_invite_only, set_topic_restricted}
use ft_irc.Membership.{ChannelOk}

is_nil-include : (k : ℕ) (s : List ℕ) → is_nil (include k s) ≡ false
unfolding include
is_nil-include k [] = refl
is_nil-include k (j ∷ s) = ground arith

module _ ⦃str : StrLib⦄ {live : ℕ → Bool} {key : Bytes} {c : Channel}
    (ok : ChannelOk live key c) where
  open ok use {named, populated, members_live, operators_in, invites_live}

  pub add_member-ChannelOk : (fd : ℕ) → live fd ≡ true → ChannelOk live key (add_member fd c)
  unfolding add_member
  add_member-ChannelOk fd h = record {
    named = named;
    populated = is_nil-include fd c.members;
    members_live = λ g m. ground (arith, contains-include g fd c.members, members_live g);
    operators_in = λ g m. ground (arith, contains-include g fd c.members, operators_in g);
    invites_live = invites_live;
  }

  pub remove_member-ChannelOk :
      (fd : ℕ) → is_empty (remove_member fd c) ≡ false → ChannelOk live key (remove_member fd c)
  unfolding remove_member is_empty
  remove_member-ChannelOk fd h = record {
    named = named;
    populated = h;
    members_live = λ g m. ground (arith, contains-exclude g fd c.members, members_live g);
    operators_in = λ g m.
        ground (
          arith,
          contains-exclude g fd c.members,
          contains-exclude g fd c.operators,
          operators_in g,
        );
    invites_live = invites_live;
  }

  pub set_operator-ChannelOk :
      (fd : ℕ) (on : Bool)
      → contains fd c.members ≡ true
      → ChannelOk live key (set_operator fd on c)
  unfolding set_operator
  set_operator-ChannelOk fd on h = record {
    named = named;
    populated = populated;
    members_live = members_live;
    operators_in = λ g m. ground (
      arith,
      contains-include g fd c.operators,
      contains-exclude g fd c.operators,
      operators_in g,
    );
    invites_live = invites_live;
  }

  pub add_invite-ChannelOk : (fd : ℕ) → live fd ≡ true → ChannelOk live key (add_invite fd c)
  unfolding add_invite
  add_invite-ChannelOk fd h = record {
    named = named;
    populated = populated;
    members_live = members_live;
    operators_in = operators_in;
    invites_live = λ g m. ground (arith, contains-include g fd c.invite_list, invites_live g);
  }

  pub remove_invite-ChannelOk : (fd : ℕ) → ChannelOk live key (remove_invite fd c)
  unfolding remove_invite
  remove_invite-ChannelOk fd = record {
    named = named;
    populated = populated;
    members_live = members_live;
    operators_in = operators_in;
    invites_live = λ g m. ground (arith, contains-exclude g fd c.invite_list, invites_live g);
  }

  pub set_topic-ChannelOk :
      (topic setter : Bytes) (now : ℕ) → ChannelOk live key (set_topic topic setter now c)
  unfolding set_topic
  set_topic-ChannelOk topic setter now = record {
    named = named;
    populated = populated;
    members_live = members_live;
    operators_in = operators_in;
    invites_live = invites_live;
  }

  pub set_key-ChannelOk : (k : Bytes) → ChannelOk live key (set_key k c)
  unfolding set_key
  set_key-ChannelOk k = record {
    named = named;
    populated = populated;
    members_live = members_live;
    operators_in = operators_in;
    invites_live = invites_live;
  }

  pub set_user_limit-ChannelOk : (n : ℕ) → ChannelOk live key (set_user_limit n c)
  unfolding set_user_limit
  set_user_limit-ChannelOk n = record {
    named = named;
    populated = populated;
    members_live = members_live;
    operators_in = operators_in;
    invites_live = invites_live;
  }

  pub set_invite_only-ChannelOk : (on : Bool) → ChannelOk live key (set_invite_only on c)
  unfolding set_invite_only
  set_invite_only-ChannelOk on = record {
    named = named;
    populated = populated;
    members_live = members_live;
    operators_in = operators_in;
    invites_live = invites_live;
  }

  pub set_topic_restricted-ChannelOk : (on : Bool) → ChannelOk live key (set_topic_restricted on c)
  unfolding set_topic_restricted
  set_topic_restricted-ChannelOk on = record {
    named = named;
    populated = populated;
    members_live = members_live;
    operators_in = operators_in;
    invites_live = invites_live;
  }

module _ ⦃str : StrLib⦄ where
  pub new_channel-ChannelOk :
      (live : ℕ → Bool) (name : Bytes) (fd now : ℕ)
      → live fd ≡ true
      → ChannelOk live (channel_key name) (new_channel name fd now)
  unfolding new_channel set_operator add_member contains include
  new_channel-ChannelOk live name fd now h = record {
    named = refl;
    populated = refl;
    members_live = λ g m. ground arith;
    operators_in = λ g m. m;
    invites_live = λ g m. cc;
  }
