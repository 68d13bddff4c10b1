-- ===== src/Membership/Modes.antt =====
-- src/CommandOperator.cpp: the loop of handleChannelMode keeps the channel well-formed.
use ft_irc.Prelude.{
  Bytes, nat_key, bytes_key, contains, ℕ, ◌≡◌, Bool, true, false, not, none, some, List, [], ◌∷◌,
  arith, ltb, ◌==◌, if_ind, Option_ind, length, is_nil,
}
use ft_irc.Limits.{max_userlimit}
use ft_irc.Libcpp.{StrLib, SocketLib}
use ft_irc.Channel.{is_member, is_operator, Channel}
use ft_irc.Message.{param, Message}
use ft_irc.Validation.{is_valid_channel_key}
use ft_irc.Server.{Server}
use ft_irc.Server.Store.{profiles, broadcast}
use ft_irc.Server.Channels.{channel_key, find_channel}
use ft_irc.Server.Quiet.{
  Quiet-refl, Quiet-trans, send_reply-Quiet, broadcast-Quiet, then_reply, Quiet,
}
use ft_irc.Commands.ModeLines.{params_required, already_reported, starts_with_sign, ModeChange}
use ft_irc.Commands.Modes.{
  apply_mode, find_member, report_once, report_missing, mode_key_on, mode_key_off, mode_operator,
  mode_limit_on, channel_mode_letter, channel_mode_loop, broadcast_lines, finish_modes,
  handle_channel_mode, Walk,
}
use ft_irc.Membership.{is_live, TableOk, ChannelOk}
use ft_irc.Membership.Edits.{
  set_operator-ChannelOk, set_key-ChannelOk, set_user_limit-ChannelOk, set_invite_only-ChannelOk,
  set_topic_restricted-ChannelOk,
}
use ft_irc.Membership.Tame.{
  Quiet-Tame, Tame-refl, Tame-trans, put_channel-Tame, find_channel-ChannelOk, Tame,
}

-- A walk that began at the server `s` with a well-formed channel.
record WalkOk {Io : Type 0} ⦃str : StrLib⦄ (s : Server Io) (key : Bytes) (w : Walk Io)
    : Type 0 where
  quiet : Quiet s w.server
  chan_ok : TableOk (is_live (profiles s)) s.channels → ChannelOk (is_live (profiles s)) key w.chan

module _ {Io : Type 0} ⦃str : StrLib⦄ where
  apply_mode-WalkOk :
      {s : Server Io} {key : Bytes} {w : Walk Io} (edit : Channel → Channel) (mc : ModeChange)
      (args : List Bytes)
      → WalkOk s key w
      → (ChannelOk (is_live (profiles s)) key w.chan
          → ChannelOk (is_live (profiles s)) key (edit w.chan))
      → WalkOk s key (apply_mode edit mc args w)
  unfolding apply_mode
  apply_mode-WalkOk edit mc args ok h = record { quiet = ok.quiet; chan_ok = λ t. h (ok.chan_ok t) }

  -- Whom findMember finds is a member.
  pub find_member-contains :
      (nick : Bytes) (members : List ℕ) (s : Server Io) {t : ℕ}
      → find_member nick members s ≡ some t
      → contains t members ≡ true
  unfolding find_member contains
  find_member-contains nick [] s e = cc
  find_member-contains nick (fd ∷ members) s {t} e =
      ground (arith, find_member-contains nick members s {t = t})

module _ {Io : Type 0} ⦃str : StrLib⦄ ⦃sock : SocketLib Io⦄ (s : Server Io) (key : Bytes)
    (fd : ℕ) where
  report_once-WalkOk :
      {w : Walk Io} (what numeric params : Bytes)
      → WalkOk s key w
      → WalkOk s key (report_once fd what numeric params w)
  unfolding report_once
  report_once-WalkOk {w} what numeric params ok =
      if_ind (WalkOk s key) (already_reported w.reported what) (λ _. ok)
        (λ _. record { quiet = then_reply ok.quiet fd numeric params; chan_ok = ok.chan_ok })

  report_missing-WalkOk : {w : Walk Io} → WalkOk s key w → WalkOk s key (report_missing fd w)
  unfolding report_missing
  report_missing-WalkOk ok = report_once-WalkOk _ _ _ ok

  args-WalkOk :
      {w : Walk Io} (args : List Bytes) → WalkOk s key w → WalkOk s key (record w { args = args })
  args-WalkOk args ok = record { quiet = ok.quiet; chan_ok = ok.chan_ok }

  adding-WalkOk :
      {w : Walk Io} (on : Bool) → WalkOk s key w → WalkOk s key (record w { adding = on })
  adding-WalkOk on ok = record { quiet = ok.quiet; chan_ok = ok.chan_ok }

  -- A case on the parameters that are left.
  args_ind :
      (args : List Bytes) {x : Walk Io} {y : Bytes → List Bytes → Walk Io}
      → WalkOk s key x
      → ((a : Bytes) (rest : List Bytes) → WalkOk s key (y a rest))
      → WalkOk s key (elim args [ [] ↦ x | a ∷ rest ↦ y a rest ])
  args_ind [] px py = px
  args_ind (a ∷ rest) px py = py a rest

  mode_key_on-WalkOk : {w : Walk Io} → WalkOk s key w → WalkOk s key (mode_key_on fd w)
  unfolding mode_key_on
  mode_key_on-WalkOk {w} ok = args_ind w.args (report_missing-WalkOk ok) λ k rest.
      if_ind (WalkOk s key) (is_valid_channel_key k)
        (λ _. apply_mode-WalkOk _ _ rest ok (λ c. set_key-ChannelOk c k))
        (λ _. report_once-WalkOk _ _ _ (args-WalkOk rest ok))

  mode_key_off-WalkOk :
      (later : Bytes) {w : Walk Io} → WalkOk s key w → WalkOk s key (mode_key_off later w)
  unfolding mode_key_off
  mode_key_off-WalkOk later {w} ok =
      args_ind w.args (apply_mode-WalkOk _ _ [] ok (λ c. set_key-ChannelOk c [])) λ old rest.
        if_ind (WalkOk s key) (ltb (params_required false later) (length w.args))
          (λ _. apply_mode-WalkOk _ _ rest ok (λ c. set_key-ChannelOk c []))
          (λ _. apply_mode-WalkOk _ _ w.args ok (λ c. set_key-ChannelOk c []))

  mode_operator-WalkOk : {w : Walk Io} → WalkOk s key w → WalkOk s key (mode_operator fd w)
  unfolding mode_operator
  mode_operator-WalkOk {w} ok = args_ind w.args (report_missing-WalkOk ok) λ nick rest.
      Option_ind (WalkOk s key) (find_member nick w.chan.members w.server)
        (λ _. report_once-WalkOk _ _ _ (args-WalkOk rest ok))
        λ t found. apply_mode-WalkOk _ _ rest ok λ c.
          set_operator-ChannelOk c t w.adding
            (find_member-contains nick w.chan.members w.server found)

  mode_limit_on-WalkOk : {w : Walk Io} → WalkOk s key w → WalkOk s key (mode_limit_on fd w)
  unfolding mode_limit_on
  mode_limit_on-WalkOk {w} ok = args_ind w.args (report_missing-WalkOk ok) λ arg rest.
      Option_ind (WalkOk s key) (str.parse_long arg 1 max_userlimit)
        (λ _. report_once-WalkOk _ _ _ (args-WalkOk rest ok))
        (λ n _. apply_mode-WalkOk _ _ rest ok (λ c. set_user_limit-ChannelOk c n))

  channel_mode_letter-WalkOk :
      (c : ℕ) (later : Bytes) {w : Walk Io}
      → WalkOk s key w
      → WalkOk s key (channel_mode_letter fd c later w)
  unfolding channel_mode_letter
  channel_mode_letter-WalkOk c later {w} ok =
      if_ind (WalkOk s key) (c == b'+') (λ _. adding-WalkOk true ok)
        λ _.
          if_ind (WalkOk s key) (c == b'-') (λ _. adding-WalkOk false ok)
            λ _.
              if_ind (WalkOk s key) (c == b'i')
                (λ _. apply_mode-WalkOk _ _ w.args ok (λ k. set_invite_only-ChannelOk k w.adding))
                λ _.
                  if_ind (WalkOk s key) (c == b't')
                    (λ _.
                      apply_mode-WalkOk _ _ w.args ok
                        (λ k. set_topic_restricted-ChannelOk k w.adding))
                    λ _.
                      if_ind (WalkOk s key) (c == b'k')
                        (λ _.
                          if_ind (WalkOk s key) w.adding (λ _. mode_key_on-WalkOk ok)
                            (λ _. mode_key_off-WalkOk later ok))
                        λ _.
                          if_ind (WalkOk s key) (c == b'o') (λ _. mode_operator-WalkOk ok)
                            λ _.
                              if_ind (WalkOk s key) (c == b'l')
                                (λ _.
                                  if_ind (WalkOk s key) w.adding (λ _. mode_limit_on-WalkOk ok)
                                    (λ _.
                                      apply_mode-WalkOk _ _ w.args ok
                                        (λ k. set_user_limit-ChannelOk k 0)))
                                (λ _. report_once-WalkOk _ _ _ ok)

  channel_mode_loop-WalkOk :
      (cs : Bytes) {w : Walk Io} → WalkOk s key w → WalkOk s key (channel_mode_loop fd cs w)
  unfolding channel_mode_loop
  channel_mode_loop-WalkOk [] ok = ok
  channel_mode_loop-WalkOk (c ∷ cs) ok =
      channel_mode_loop-WalkOk cs (channel_mode_letter-WalkOk c cs ok)

module _ {Io : Type 0} ⦃str : StrLib⦄ ⦃sock : SocketLib Io⦄ where
  broadcast_lines-Quiet :
      (members : List ℕ) (lines : List Bytes) (s : Server Io)
      → Quiet s (broadcast_lines members lines s)
  unfolding broadcast_lines
  broadcast_lines-Quiet members [] s = Quiet-refl s
  broadcast_lines-Quiet members (line ∷ lines) s =
      Quiet-trans (broadcast-Quiet members line none s)
        (broadcast_lines-Quiet members lines (broadcast members line none s))

  finish_modes-Tame :
      (fd : ℕ) (key : Bytes) (s : Server Io) {w : Walk Io}
      → WalkOk s key w
      → Tame s (finish_modes fd key w)
  unfolding finish_modes
  finish_modes-Tame fd key s {w} ok =
      let stored = Tame-trans (Quiet-Tame ok.quiet) (
        put_channel-Tame key w.chan w.server λ t.
          rw ok.quiet.same_profiles
            (ok.chan_ok (rw (ok.quiet.same_profiles, ok.quiet.same_channels) at t))) in
      if_ind (Tame s) (is_nil w.applied) (λ _. stored)
        (λ _. Tame-trans stored (Quiet-Tame (broadcast_lines-Quiet w.chan.members _ _)))

  pub handle_channel_mode-Tame :
      (fd : ℕ) (name : Bytes) (c : Channel) (msg : Message) (s : Server Io)
      → find_channel s name ≡ some c
      → Tame s (handle_channel_mode fd (channel_key name) c msg s)
  unfolding handle_channel_mode
  handle_channel_mode-Tame fd name c msg s found =
      if_ind (Tame s) (not (is_member fd c)) (λ _. Quiet-Tame (send_reply-Quiet fd _ _ s))
        λ _.
          if_ind (Tame s) (not (is_operator fd c)) (λ _. Quiet-Tame (send_reply-Quiet fd _ _ s))
            λ _.
              if_ind (Tame s) (not (starts_with_sign (param msg 1))) (λ _. Tame-refl s)
                λ _. finish_modes-Tame fd (channel_key name) s (
                  channel_mode_loop-WalkOk s (channel_key name) fd (param msg 1) (record {
                    quiet = Quiet-refl s;
                    chan_ok = find_channel-ChannelOk s name found;
                  }))
