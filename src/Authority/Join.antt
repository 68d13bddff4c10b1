-- ===== src/Authority/Join.antt =====
-- src/CommandChannel.cpp: whom JOIN lets into a channel that exists.
use ft_irc.Server.Quiet.{send_reply-Quiet, find_channel-Quiet}
use ft_irc.Server.Store.{send_reply}
use ft_irc.Server.Channels.{put_channel, channel_key, find_channel}
use ft_irc.Server.{Server}
use ft_irc.Channel.{add_member, is_member, is_invited, remove_invite, Channel}
use ft_irc.Libcpp.{StrLib, SocketLib}
use ft_irc.Validation.{is_valid_channel_name}
use ft_irc.Prelude.{
  Bytes, bytes_eq_self, bytes_eq, nat_key, bytes_key, contains, include, exclude, ℕ, ◌≡◌, ◌∙◌, Bool,
  true, false, not, ◌&&◌, ◌||◌, some, arith, ltb, leb, ◌==◌, if◌then◌else◌, if_ind, length, is_nil,
}
use ft_irc.Prelude.Maps.Laws.{lookup-insert}
use ft_irc.Membership.Join.{joined-Quiet}
use ft_irc.Commands.Channels.{joined, join_one}

-- What a channel asks of one who wants to come in with a key: an invitation if it is +i, the key if
-- it has one, and room if it has a limit.
abbrev pub admits : ℕ → Bytes → Channel → Bool
admits fd key c =
    (not c.invite_only || contains fd c.invite_list)
    && (is_nil c.key || bytes_eq c.key key)
    && (c.user_limit == 0 || ltb (length c.members) c.user_limit)

-- The channel with the client in it, whose invitation is used up.
abbrev pub with_member : ℕ → Channel → Channel
with_member fd c = record c {
  members = include fd c.members;
  invite_list = exclude fd c.invite_list;
}

module _ {Io : Type 0} ⦃str : StrLib⦄ ⦃sock : SocketLib Io⦄ where
  joined-found :
      (fd : ℕ) (name : Bytes) (c : Channel) (s : Server Io)
      → find_channel (joined fd name c s) name ≡ some c
  unfolding find_channel put_channel
  joined-found fd name c s =
      find_channel-Quiet name (joined-Quiet fd name c s)
      ∙ ground (
        arith,
        lookup-insert (channel_key name) (channel_key name) c s.channels,
        bytes_eq_self (channel_key name),
      )

  -- A JOIN to a channel that exists, under a valid name, leaves it with the client as a member
  -- and without its invitation, exactly if the client is no member yet and the channel admits
  -- it with the key that it gave: it is invited if the channel is invite-only, the key is right
  -- if there is one, and there is room if there is a limit. Otherwise the channel is as it was.
  pub join_one-found :
      (fd : ℕ) (name key : Bytes) (s : Server Io) (c : Channel)
      → is_valid_channel_name name ≡ true
      → find_channel s name ≡ some c
      → find_channel (join_one fd name key s) name
        ≡ some (if not (contains fd c.members) && admits fd key c then with_member fd c else c)
  unfolding join_one is_member is_invited add_member remove_invite
  join_one-found fd name key s c valid found =
      let after = λ (t : Server Io).
        find_channel t name
        ≡ some (if not (contains fd c.members) && admits fd key c then with_member fd c else c) in
      let refused : (numeric params : Bytes)
          → not (contains fd c.members) && admits fd key c ≡ false
          → after (send_reply fd numeric params s) =
        λ numeric params no.
          find_channel-Quiet name (send_reply-Quiet fd numeric params s) ∙ rw no found in
      if_ind after (not (is_valid_channel_name name)) (λ bad. absurd (ground (arith, bad, valid)))
        λ _. rw found (
          if_ind after (contains fd c.members) (λ inside. ground (arith, inside, found))
            λ outside.
              if_ind after (c.invite_only && not (contains fd c.invite_list))
                (λ h. refused _ _ (ground (arith, h)))
                λ invited.
                  if_ind after (not (is_nil c.key) && not (bytes_eq c.key key))
                    (λ h. refused _ _ (ground (arith, h)))
                    λ keyed.
                      if_ind after (ltb 0 c.user_limit && leb c.user_limit (length c.members))
                        (λ h. refused _ _ (ground (arith, h)))
                        λ room.
                          let admitted : not (contains fd c.members) && admits fd key c ≡ true =
                            ground (arith, outside, invited, keyed, room) in
                          rw admitted (joined-found fd name (with_member fd c) s))
